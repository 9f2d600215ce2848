-- ===== src/Leads/Histories.antt =====
-- An import, and so every history of calls of services/lead_service.py, keeps what each statement
-- keeps.
use shiku_ai_powered_sales_d.Prelude.{
  ==_refl, All, Bool, Bool-cases, List, Option, Text, [], any, false, find_row, inl, inr, none,
  refl, some, true, ℕ, ℤ, ◌+◌, ◌∙◌, ◌∷◌, ◌≡◌,
}
use shiku_ai_powered_sales_d.Store.Schema.{LeadStatus}
use shiku_ai_powered_sales_d.Leads.Schema.{Crm, LeadOutcome, LeadRow, RawIds, RawLead, done, raised}
use shiku_ai_powered_sales_d.Leads.Normalize.{
  is_email, normalize_campaign_ids, normalize_email, normalize_status, nullable_int,
}
use shiku_ai_powered_sales_d.Leads.Edit.{has_email, insert_lead, is_lead, new_lead}
use shiku_ai_powered_sales_d.Leads.Import.{
  ImportState, bulk_import_leads, import_checked, import_read, import_row, import_rows,
  import_start, import_with, insert_row, merge_lead, row_ids, update_row, with_assigned,
}
use shiku_ai_powered_sales_d.Leads.Requests.{
  LeadRequest, after_import, change, create, import_many, is_permitted, remove, remove_many,
  serve_lead, serve_leads, set_status_of, touch,
}
use shiku_ai_powered_sales_d.Leads.Keeps.{KeepsLeads, OfOutcome}
use shiku_ai_powered_sales_d.Leads.Statements.{
  HasAddress, any-last, any-update_rows, found_own, normalize_email-HasAddress,
}
use shiku_ai_powered_sales_d.Leads.Single.{
  assign-keeps, bulk_delete-keeps, create-keeps, delete-keeps, status-keeps, update-keeps,
}

module _ (allowed : ℕ → Bool) (any_status any_touch : Bool) (I : Crm → Type 0)
    (keeps : KeepsLeads allowed any_status any_touch I) where
  -- The tables of the import in the middle of it.
  abbrev Imported : ImportState → Type 0
  Imported p = I p.crm

  assigned-keeps :
      (idx : ℕ) (raw : RawLead) (p : ImportState) (o : LeadOutcome Crm)
      → Imported p
      → OfOutcome I o
      → Imported (with_assigned idx raw p o)
  assigned-keeps idx raw p (raised e) h i = h
  assigned-keeps idx raw p (done db) h i = i

  import_row-keeps :
      (org : ℕ) (upsert : Bool) (ids : List ℤ) (idx : ℕ) (raw : RawLead) (p : ImportState)
      → allowed org ≡ true
      → Imported p
      → Imported (import_row org upsert ids idx raw p)
  unfolding import_row insert_lead
  import_row-keeps org upsert ids idx raw p ok h =
      read (normalize_email raw.email) (normalize_email-HasAddress raw.email)
        (normalize_status raw.status) (row_ids raw ids)
    where
      insert_it :
          (a : Text) (s : LeadStatus) (zs : List ℤ) (n : LeadOutcome (Option ℤ))
          → is_email a ≡ true
          → Imported (insert_row org idx a s raw zs n p)
      insert_it a s zs (raised e) g = h
      insert_it a s zs (done n) g = elim (Bool-cases (any (has_email org a) p.crm.leads)) [
        | inl t ↦ rw t h
        | inr f ↦
            let next = p.crm.next_lead_id in
            let kept = keeps.inserts org a s n raw p.crm ok h g f in
            rw f (
              assigned-keeps idx raw _ _ kept (
                assign-keeps allowed any_status any_touch I keeps next org false zs _ ok kept (
                  any-last (is_lead next org) p.crm.leads (new_lead next org a s n raw)
                    (rw (==_refl next, ==_refl org) refl))))
      ]

      update_it :
          (s : LeadStatus) (zs : List ℤ) (l : LeadRow) (n : LeadOutcome (Option ℤ))
          → any (is_lead l.id org) p.crm.leads ≡ true
          → Imported (update_row org idx s raw zs l n p)
      update_it s zs l (raised e) own = h
      update_it s zs l (done n) own =
          let kept =
            keeps.touches l.id org (merge_lead s n raw) p.crm ok h (λ x. (refl, refl, refl)) in
          assigned-keeps idx raw _ _ kept (
            assign-keeps allowed any_status any_touch I keeps l.id org false zs _ ok kept (
              any-update_rows (is_lead l.id org) (is_lead l.id org) (merge_lead s n raw) p.crm.leads
                (λ x. refl)
              ∙ own))

      checked :
          (a : Text) (s : LeadStatus) (zs : List ℤ) (o : Option LeadRow)
          → is_email a ≡ true
          → find_row (has_email org a) p.crm.leads ≡ o
          → Imported (import_checked org upsert idx a s raw zs o p)
      checked a s zs none g e = insert_it a s zs (nullable_int raw.icp_score) g
      checked a s zs (some l) g e = elim (Bool-cases upsert) [
        | inl t ↦
            rw t (update_it s zs l (nullable_int raw.icp_score) (found_own org a p.crm.leads e))
        | inr f ↦ rw f h
      ]

      read :
          (a : LeadOutcome Text)
          → HasAddress a
          → (s : LeadOutcome LeadStatus) (zs : LeadOutcome (List ℤ))
          → Imported (import_read org upsert idx raw a s zs p)
      read (raised e) g s zs = h
      read (done a) g (raised e) zs = h
      read (done a) g (done s) (raised e) = h
      read (done a) g (done s) (done zs) =
          checked a s zs (find_row (has_email org a) p.crm.leads) g refl

  import_rows-keeps :
      (org : ℕ) (upsert : Bool) (ids : List ℤ) (idx : ℕ) (rows : List RawLead) (p : ImportState)
      → allowed org ≡ true
      → Imported p
      → Imported (import_rows org upsert ids idx rows p)
  unfolding import_rows
  import_rows-keeps org upsert ids idx [] p ok h = h
  import_rows-keeps org upsert ids idx (raw ∷ rows) p ok h =
      import_rows-keeps org upsert ids (idx + 1) rows _ ok
        (import_row-keeps org upsert ids idx raw p ok h)

  import-keeps :
      (rows : List RawLead) (ids : RawIds) (upsert : Bool) (source : Option Text) (org : ℕ)
      (db : Crm)
      → allowed org ≡ true
      → I db
      → I (after_import db (bulk_import_leads rows ids upsert source org db))
  unfolding bulk_import_leads
  import-keeps rows ids upsert source org db ok h = go (normalize_campaign_ids ids)
    where
      go :
          (o : LeadOutcome (List ℤ)) → I (after_import db (import_with rows o upsert source org db))
      go (raised e) = h
      go (done zs) =
          keeps.logs (some org) _ _ (import_rows-keeps org upsert zs 0 rows (import_start db) ok h)

  pub serve_lead-keeps :
      (org : ℕ) (r : LeadRequest) (db : Crm)
      → is_permitted allowed any_status any_touch org r ≡ true
      → I db
      → I (serve_lead org r db)
  unfolding serve_lead
  serve_lead-keeps org (create raw) db ok h =
      create-keeps allowed any_status any_touch I keeps org raw db ok h
  serve_lead-keeps org (change k cs ids) db ok h =
      update-keeps allowed any_status any_touch I keeps k org cs ids db ok h
  serve_lead-keeps org (remove k) db ok h =
      delete-keeps allowed any_status any_touch I keeps k org db ok h
  serve_lead-keeps org (remove_many ks) db ok h =
      bulk_delete-keeps allowed any_status any_touch I keeps ks org db ok h
  serve_lead-keeps org (import_many rows ids upsert source) db ok h =
      import-keeps rows ids upsert source org db ok h
  serve_lead-keeps org (set_status_of k status) db ok h =
      status-keeps allowed any_status any_touch I keeps k status db ok h
  serve_lead-keeps org (touch lead campaign now) db ok h = keeps.contacts lead campaign now db ok h

  pub serve_leads-keeps :
      (rs : List (ℕ × LeadRequest)) (db : Crm)
      → All (λ (r : ℕ × LeadRequest). is_permitted allowed any_status any_touch r.0 r.1 ≡ true) rs
      → I db
      → I (serve_leads rs db)
  unfolding serve_leads
  serve_leads-keeps [] db ok h = h
  serve_leads-keeps ((org, r) ∷ rs) db ok h =
      serve_leads-keeps rs (serve_lead org r db) ok.1 (serve_lead-keeps org r db ok.0 h)

-- Where every organization is allowed, and the changes of status and the touches too, every call is permitted.
pub everything_permitted :
    (rs : List (ℕ × LeadRequest))
    → All (λ (r : ℕ × LeadRequest). is_permitted (λ o. true) true true r.0 r.1 ≡ true) rs
everything_permitted [] = tt
everything_permitted ((org, r) ∷ rs) = (permitted r, everything_permitted rs)
  where
    permitted : (r : LeadRequest) → is_permitted (λ o. true) true true org r ≡ true
    permitted (create raw) = refl
    permitted (change k cs ids) = refl
    permitted (remove k) = refl
    permitted (remove_many ks) = refl
    permitted (import_many rows ids upsert source) = refl
    permitted (set_status_of k status) = refl
    permitted (touch lead campaign now) = refl
