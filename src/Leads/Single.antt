-- ===== src/Leads/Single.antt =====
-- Each call of services/lead_service.py for one lead, or for a list of them, keeps what each statement
-- keeps.
use shiku_ai_powered_sales_d.Prelude.{
  ==_refl, Bool, Bool-cases, List, Option, Option-cases, Text, [], any, false, find_row, inl, inr,
  is_empty, none, refl, some, true, upper, ℕ, ℤ, ◌==◌, ◌||◌, ◌∙◌, ◌∷◌, ◌≡◌,
}
use shiku_ai_powered_sales_d.Store.Schema.{LeadStatus}
use shiku_ai_powered_sales_d.Leads.Schema.{
  Crm, LeadOutcome, LeadRow, RawIds, RawLead, done, lead_created, lead_updated, raised,
}
use shiku_ai_powered_sales_d.Leads.Normalize.{
  is_email, normalize_campaign_ids, normalize_email, normalize_status, nullable_int, status_named,
}
use shiku_ai_powered_sales_d.Leads.Assign.{assign_campaigns, assign_checked, has_none, missing_of}
use shiku_ai_powered_sales_d.Leads.Edit.{
  LeadChange, assign_changed, assignments_of, clashes, commit_update, create_inserted, create_lead,
  create_logged, create_with, has_email, insert_lead, is_lead, new_lead, or_no_ids, then_do,
  update_found, update_lead, update_row_found, write_changes,
}
use shiku_ai_powered_sales_d.Leads.Remove.{bulk_delete_leads, delete_lead, update_lead_status}
use shiku_ai_powered_sales_d.Leads.Requests.{or_unchanged}
use shiku_ai_powered_sales_d.Leads.Keeps.{KeepsLeads, OfOutcome}
use shiku_ai_powered_sales_d.Leads.Statements.{
  HasAddress, IsAssignment, any-find_row, any-last, any-update_rows, assignments_of-IsAssignment,
  is_lead-KeepsOwner, normalize_email-HasAddress, own_listed,
}

module _ (allowed : ℕ → Bool) (any_status any_touch : Bool) (I : Crm → Type 0)
    (keeps : KeepsLeads allowed any_status any_touch I) where
  assign_checked-keeps :
      (lead org : ℕ) (ids : List ℤ) (db : Crm)
      → allowed org ≡ true
      → I db
      → any (is_lead lead org) db.leads ≡ true
      → OfOutcome I (assign_checked lead org ids db)
  unfolding assign_checked
  assign_checked-keeps lead org ids db ok h own =
      elim (Bool-cases (has_none (missing_of org db.campaigns ids))) [
        | inl t ↦ rw t (keeps.assigns lead org ids db ok h t own)
        | inr f ↦ rw f tt
      ]

  pub assign-keeps :
      (lead org : ℕ) (replace : Bool) (ids : List ℤ) (db : Crm)
      → allowed org ≡ true
      → I db
      → any (is_lead lead org) db.leads ≡ true
      → OfOutcome I (assign_campaigns lead org replace ids db)
  unfolding assign_campaigns
  assign-keeps lead org true ids db ok h own =
      assign_checked-keeps lead org ids _ ok (keeps.unassigns lead db h) own
  assign-keeps lead org false ids db ok h own = assign_checked-keeps lead org ids db ok h own

  logged-keeps :
      (org lead : ℕ) (address : Text) (db : Crm) (o : LeadOutcome Crm)
      → I db
      → OfOutcome I o
      → I (or_unchanged db (create_logged lead org address o))
  logged-keeps org lead address db (raised e) h i = h
  logged-keeps org lead address db (done d) h i =
      keeps.logs (some org) (lead_created lead address) d i

  pub create-keeps :
      (org : ℕ) (raw : RawLead) (db : Crm)
      → allowed org ≡ true
      → I db
      → I (or_unchanged db (create_lead raw org db))
  unfolding create_lead insert_lead
  create-keeps org raw db ok h =
      go (normalize_email raw.email) (normalize_email-HasAddress raw.email)
        (normalize_status raw.status) (normalize_campaign_ids raw.campaign_ids)
        (nullable_int raw.icp_score)
    where
      inserted :
          (a : Text) (s : LeadStatus) (zs : List ℤ) (n : Option ℤ)
          → is_email a ≡ true
          → I (
              or_unchanged db
                (create_inserted db.next_lead_id org a zs (insert_lead org a s n raw db)))
      inserted a s zs n e = elim (Bool-cases (any (has_email org a) db.leads)) [
        | inl t ↦ rw t h
        | inr f ↦ rw f (
            logged-keeps org db.next_lead_id a db _ h (
              assign-keeps db.next_lead_id org false zs _ ok
                (keeps.inserts org a s n raw db ok h e f)
                (any-last (is_lead db.next_lead_id org) db.leads
                  (new_lead db.next_lead_id org a s n raw)
                  (rw (==_refl db.next_lead_id, ==_refl org) refl))))
      ]

      go :
          (a : LeadOutcome Text)
          → HasAddress a
          → (s : LeadOutcome LeadStatus) (zs : LeadOutcome (List ℤ)) (n : LeadOutcome (Option ℤ))
          → I (or_unchanged db (create_with raw org db a s zs n))
      go (raised e) g s zs n = h
      go (done a) g (raised e) zs n = h
      go (done a) g (done s) (raised e) n = h
      go (done a) g (done s) (done zs) (raised e) = h
      go (done a) g (done s) (done zs) (done n) = inserted a s zs n g

  -- The outcome of a write and the tables keep that the lead is there.
  abbrev WithLead : ℕ → ℕ → LeadOutcome Crm → Type 0
  WithLead k org (raised e) = Unit
  WithLead k org (done db) = I db × (any (is_lead k org) db.leads ≡ true)

  write_changes-keeps :
      (k org : ℕ) (cs : List LeadChange) (f : LeadRow → LeadRow) (l : LeadRow) (db : Crm)
      → allowed org ≡ true
      → I db
      → IsAssignment (done f)
      → find_row (is_lead k org) db.leads ≡ some l
      → WithLead k org (write_changes k org cs f l db)
  write_changes-keeps k org [] f l db ok h a e = (h, any-find_row (is_lead k org) db.leads e)
  write_changes-keeps k org (c ∷ cs) f l db ok h a e =
      elim (Bool-cases (any (clashes (f l)) db.leads)) [
        | inl t ↦ rw t tt
        | inr n ↦ rw n (
          keeps.writes k org f l db ok h a.0 a.1 e n,
          any-update_rows (is_lead k org) (is_lead k org) f db.leads
                (is_lead-KeepsOwner k org f a.0)
              ∙ any-find_row (is_lead k org) db.leads e,
        )
      ]

  assign_changed-keeps :
      (k org : ℕ) (ids : Option RawIds) (o : LeadOutcome Crm)
      → allowed org ≡ true
      → WithLead k org o
      → OfOutcome I (then_do o (assign_changed k org ids))
  assign_changed-keeps k org ids (raised e) ok w = tt
  assign_changed-keeps k org none (done db) ok w = w.0
  assign_changed-keeps k org (some raw) (done db) ok w = go (normalize_campaign_ids (or_no_ids raw))
    where
      go :
          (o : LeadOutcome (List ℤ))
          → OfOutcome I (then_do o (λ zs. assign_campaigns k org true zs db))
      go (raised e) = tt
      go (done zs) = assign-keeps k org true zs db ok w.0 w.1

  pub update-keeps :
      (k org : ℕ) (cs : List LeadChange) (ids : Option RawIds) (db : Crm)
      → allowed org ≡ true
      → I db
      → I (update_lead k cs ids org db).1
  unfolding update_lead
  update-keeps k org cs ids db ok h = elim (Bool-cases (k == 0)) [
    | inl t ↦ rw t h
    | inr n ↦ rw n (go (assignments_of cs) (assignments_of-IsAssignment cs))
  ]
    where
      committed : (o : LeadOutcome Crm) → OfOutcome I o → I (commit_update k org db o).1
      committed (raised e) i = h
      committed (done d) i = keeps.logs (some org) (lead_updated k) d i

      go :
          (o : LeadOutcome (LeadRow → LeadRow))
          → IsAssignment o
          → I (update_found k org cs ids o db).1
      go (raised e) a = h
      go (done f) a = found (find_row (is_lead k org) db.leads) refl
        where
          found :
              (o : Option LeadRow)
              → find_row (is_lead k org) db.leads ≡ o
              → I (update_row_found k org cs ids f db o).1
          found none e = h
          found (some l) e =
              committed _
                (assign_changed-keeps k org ids _ ok (write_changes-keeps k org cs f l db ok h a e))

  pub delete-keeps : (k org : ℕ) (db : Crm) → allowed org ≡ true → I db → I (delete_lead k org db).1
  unfolding delete_lead
  delete-keeps k org db ok h = elim (Bool-cases (any (is_lead k org) db.leads)) [
    | inl t ↦ rw t (keeps.removes org (k ∷ []) db ok h (t, tt))
    | inr n ↦ rw n h
  ]

  pub bulk_delete-keeps :
      (ks : List ℕ) (org : ℕ) (db : Crm)
      → allowed org ≡ true
      → I db
      → I (bulk_delete_leads ks org db).1
  unfolding bulk_delete_leads
  bulk_delete-keeps ks org db ok h = keeps.removes org _ db ok h (own_listed ks org db.leads)

  pub status-keeps :
      (k : ℕ) (status : Text) (db : Crm)
      → any_status ≡ true
      → I db
      → I (update_lead_status k status db).1
  unfolding update_lead_status
  status-keeps k status db ok h = elim (Bool-cases (k == 0 || is_empty status)) [
    | inl t ↦ rw t h
    | inr n ↦ elim (Option-cases (status_named (upper status))) [
      | inl e ↦ rw (n, e) h
      | inr (s, e) ↦ rw (n, e) (keeps.statuses k s db ok h)
    ]
  ]
