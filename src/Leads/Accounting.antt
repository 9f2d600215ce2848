-- ===== src/Leads/Accounting.antt =====
-- What the counters of an import say of its rows and of the table.
use shiku_ai_powered_sales_d.Prelude.{
  Bool, Bool-cases, List, Option, Text, [], any, ap, arith, false, find_row, inl, inr, length,
  length-append, length-take, min, none, refl, some, suc, update_rows, ℕ, ℤ, ◌+◌, ◌∷◌, ◌≡◌, ◌≤◌,
}
use shiku_ai_powered_sales_d.Store.Schema.{LeadStatus}
use shiku_ai_powered_sales_d.Leads.Schema.{
  Crm, LeadError, LeadOutcome, LeadRow, RawIds, RawLead, done, not_unique, raised,
}
use shiku_ai_powered_sales_d.Leads.Normalize.{
  normalize_campaign_ids, normalize_email, normalize_status, nullable_int,
}
use shiku_ai_powered_sales_d.Leads.Assign.{assign_campaigns}
use shiku_ai_powered_sales_d.Leads.Edit.{has_email, insert_lead, is_lead, new_lead}
use shiku_ai_powered_sales_d.Leads.Import.{
  ImportState, ImportSummary, assign_row, bulk_import_leads, import_checked, import_failed,
  import_read, import_row, import_rows, import_start, import_with, insert_row, merge_lead, row_ids,
  update_row, with_assigned, with_inserted,
}
use shiku_ai_powered_sales_d.Leads.Frames.{IsFramed, assign_campaigns-IsFramed}
use mathlib.Core.Path.{subst}

-- The counters after `n` rows, over a table that had `base` leads.
abbrev Counts : ℕ → ℕ → ImportState → Type 0
Counts n base p =
    (p.created + p.updated ≤ n)
    × (p.skipped ≤ n)
    × (n ≤ p.created + p.updated + p.skipped)
    × (length p.errors ≤ p.skipped)
    × (length p.crm.leads ≡ base + p.created)

length-update_rows {ℓ} :
    {A : Type ℓ} (q : A → Bool) (f : A → A) (xs : List A) → length (update_rows q f xs) ≡ length xs
length-update_rows q f [] = refl
length-update_rows q f (x ∷ xs) = ap suc (length-update_rows q f xs)

-- The counters in the middle of a row, which is counted as created or updated.
abbrev Counted : ℕ → ℕ → ImportState → Type 0
Counted n base p =
    (p.created + p.updated ≤ n + 1)
    × (p.skipped ≤ n)
    × (n + 1 ≤ p.created + p.updated + p.skipped)
    × (length p.errors ≤ p.skipped)
    × (length p.crm.leads ≡ base + p.created)

failed-Counts :
    (n base idx : ℕ) (raw : RawLead) (e : LeadError) (p : ImportState)
    → Counts n base p
    → Counts (n + 1) base (import_failed idx raw e p)
failed-Counts n base idx raw e p h =
    let grown =
      length-append p.errors (record { row = idx + 1; error = e; email = raw.email } ∷ []) in
    ground arith

assigned-Counts :
    (org idx : ℕ) (raw : RawLead) (ids : List ℤ) (lead n base : ℕ) (p : ImportState)
    → Counted n base p
    → Counts (n + 1) base (assign_row org idx raw ids lead p)
assigned-Counts org idx raw ids lead n base p h =
    go (assign_campaigns lead org false ids p.crm)
      (assign_campaigns-IsFramed lead org false ids p.crm)
  where
    go : (o : LeadOutcome Crm) → IsFramed p.crm o → Counts (n + 1) base (with_assigned idx raw p o)
    go (raised e) f =
        let grown =
          length-append p.errors (record { row = idx + 1; error = e; email = raw.email } ∷ []) in
        ground arith
    go (done db) f = rw f.0 (ground arith)

inserted-Counts :
    (org idx : ℕ) (raw : RawLead) (address : Text) (status : LeadStatus) (score : Option ℤ)
    (ids : List ℤ) (n base : ℕ) (p : ImportState)
    → Counts n base p
    → Counts
        (n + 1)
        base
        (with_inserted org idx raw ids p (insert_lead org address status score raw p.crm))
unfolding insert_lead
inserted-Counts org idx raw address status score ids n base p h =
    elim (Bool-cases (any (has_email org address) p.crm.leads)) [
      | inl t ↦ rw t (failed-Counts n base idx raw (not_unique address) p h)
      | inr f ↦
          let grown =
            length-append p.crm.leads
              (new_lead p.crm.next_lead_id org address status score raw ∷ []) in
          rw f (assigned-Counts org idx raw ids p.crm.next_lead_id n base _ (ground arith))
    ]

import_row-Counts :
    (org : ℕ) (upsert : Bool) (ids : List ℤ) (idx : ℕ) (raw : RawLead) (n base : ℕ)
    (p : ImportState)
    → Counts n base p
    → Counts (n + 1) base (import_row org upsert ids idx raw p)
unfolding import_row
import_row-Counts org upsert ids idx raw n base p h =
    read (normalize_email raw.email) (normalize_status raw.status) (row_ids raw ids)
  where
    updated_row :
        (status : LeadStatus) (zs : List ℤ) (l : LeadRow) (o : LeadOutcome (Option ℤ))
        → Counts (n + 1) base (update_row org idx status raw zs l o p)
    updated_row status zs l (raised e) = failed-Counts n base idx raw e p h
    updated_row status zs l (done score) =
        let same =
          length-update_rows (is_lead l.id org) (merge_lead status score raw) p.crm.leads in
        assigned-Counts org idx raw zs l.id n base _ (ground arith)

    checked :
        (address : Text) (status : LeadStatus) (zs : List ℤ) (o : Option LeadRow)
        → Counts (n + 1) base (import_checked org upsert idx address status raw zs o p)
    checked address status zs none = inserted (nullable_int raw.icp_score)
      where
        inserted :
            (o : LeadOutcome (Option ℤ))
            → Counts (n + 1) base (insert_row org idx address status raw zs o p)
        inserted (raised e) = failed-Counts n base idx raw e p h
        inserted (done score) = inserted-Counts org idx raw address status score zs n base p h
    checked address status zs (some l) = elim (Bool-cases upsert) [
      | inl t ↦ rw t (updated_row status zs l (nullable_int raw.icp_score))
      | inr f ↦ rw f (ground arith)
    ]

    read :
        (a : LeadOutcome Text) (st : LeadOutcome LeadStatus) (zs : LeadOutcome (List ℤ))
        → Counts (n + 1) base (import_read org upsert idx raw a st zs p)
    read (raised e) st zs = failed-Counts n base idx raw e p h
    read (done address) (raised e) zs = failed-Counts n base idx raw e p h
    read (done address) (done status) (raised e) = failed-Counts n base idx raw e p h
    read (done address) (done status) (done zs) =
        checked address status zs (find_row (has_email org address) p.crm.leads)

import_rows-Counts :
    (org : ℕ) (upsert : Bool) (ids : List ℤ) (idx : ℕ) (rows : List RawLead) (n base : ℕ)
    (p : ImportState)
    → Counts n base p
    → Counts (n + length rows) base (import_rows org upsert ids idx rows p)
unfolding import_rows
import_rows-Counts org upsert ids idx [] n base p h = ground arith
import_rows-Counts org upsert ids idx (raw ∷ rows) n base p h =
    let next = import_row org upsert ids idx raw p in
    subst (λ k. Counts k base (import_rows org upsert ids (idx + 1) rows next)) (omega arith)
      (import_rows-Counts org upsert ids (idx + 1) rows (n + 1) base next
        (import_row-Counts org upsert ids idx raw n base p h))

-- The summary of an import of a number of rows, over a table that had a number of leads; the
-- identifiers are those of the import.
abbrev pub IsCounted : RawIds → ℕ → ℕ → LeadOutcome (ImportSummary × Crm) → Type 0
IsCounted ids rows base (raised e) = normalize_campaign_ids ids ≡ raised e
IsCounted ids rows base (done (s, db)) =
    (s.created + s.updated ≤ rows)
    × (s.skipped ≤ rows)
    × (rows ≤ s.created + s.updated + s.skipped)
    × (length s.errors ≤ min 50 s.skipped)
    × (length db.leads ≡ base + s.created)

-- An import raises only if its identifiers cannot be read. Otherwise the rows created and updated
-- are together no more than the rows sent, the rows skipped are no more either, and the three
-- numbers sum to at least the rows sent; at most 50 errors are listed, no more than rows skipped,
-- and the table has grown by the number of rows created.
pub bulk_import_leads-IsCounted :
    (rows : List RawLead) (ids : RawIds) (upsert : Bool) (source : Option Text) (org : ℕ) (db : Crm)
    → IsCounted ids
        (length rows)
        (length db.leads)
        (bulk_import_leads rows ids upsert source org db)
unfolding bulk_import_leads
bulk_import_leads-IsCounted rows ids upsert source org db = go (normalize_campaign_ids ids) refl
  where
    go :
        (o : LeadOutcome (List ℤ))
        → normalize_campaign_ids ids ≡ o
        → IsCounted ids (length rows) (length db.leads) (import_with rows o upsert source org db)
    go (raised e) h = h
    go (done zs) h =
        let p = import_rows org upsert zs 0 rows (import_start db) in
        let counts : Counts (0 + length rows) (length db.leads) p =
          import_rows-Counts org upsert zs 0 rows 0 (length db.leads) (import_start db)
            (ground arith) in
        let shown = length-take 50 p.errors in ground arith
