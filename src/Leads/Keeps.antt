-- ===== src/Leads/Keeps.antt =====
-- An induction rule for histories of calls of services/lead_service.py: what each statement keeps,
-- where the code executes it, every history keeps.
use shiku_ai_powered_sales_d.Prelude.{
  All, Bool, List, Option, Text, [], any, delete_rows, false, find_row, some, true, update_rows, ℕ,
  ℤ, ◌++◌, ◌+◌, ◌∷◌, ◌≡◌,
}
use shiku_ai_powered_sales_d.Store.Schema.{LeadStatus}
use shiku_ai_powered_sales_d.Leads.Touch.{update_touch}
use shiku_ai_powered_sales_d.Leads.Schema.{
  Crm, LeadEvent, LeadOutcome, LeadRow, RawLead, done, raised,
}
use shiku_ai_powered_sales_d.Leads.Normalize.{is_email}
use shiku_ai_powered_sales_d.Leads.Assign.{assign_each, has_lead, has_none, missing_of}
use shiku_ai_powered_sales_d.Leads.Edit.{clashes, has_email, is_lead, log_lead, new_lead}
use shiku_ai_powered_sales_d.Leads.Remove.{remove_leads, set_lead_status}

-- An assignment of columns that leaves the identifier and the organization.
abbrev pub KeepsOwner : (LeadRow → LeadRow) → Type 0
KeepsOwner f = (l : LeadRow) → ((f l).id ≡ l.id) × ((f l).organization_id ≡ l.organization_id)

abbrev pub KeepsKey : (LeadRow → LeadRow) → Type 0
KeepsKey f =
    (l : LeadRow)
    → ((f l).id ≡ l.id) × ((f l).organization_id ≡ l.organization_id) × ((f l).email ≡ l.email)

abbrev pub KeepsAddress : (LeadRow → LeadRow) → Type 0
KeepsAddress f = (l : LeadRow) → is_email l.email ≡ true → is_email (f l).email ≡ true

-- `I` is kept by the statements that are executed for the organizations that `allowed` names, and
-- by a change of status or a touch too, if `any_status` or `any_touch` says that there are some.
pub record KeepsLeads (allowed : ℕ → Bool) (any_status any_touch : Bool) (I : Crm → Type 0)
    : Type 0 where
  pub inserts :
      (org : ℕ) (address : Text) (status : LeadStatus) (score : Option ℤ) (raw : RawLead) (db : Crm)
      → allowed org ≡ true
      → I db
      → is_email address ≡ true
      → any (has_email org address) db.leads ≡ false
      → I (record db {
        leads = db.leads ++ new_lead db.next_lead_id org address status score raw ∷ [];
        next_lead_id = db.next_lead_id + 1;
      })
  pub assigns :
      (lead org : ℕ) (ids : List ℤ) (db : Crm)
      → allowed org ≡ true
      → I db
      → has_none (missing_of org db.campaigns ids) ≡ true
      → any (is_lead lead org) db.leads ≡ true
      → I (record db { campaign_leads = assign_each lead ids db.campaign_leads })
  pub unassigns :
      (lead : ℕ) (db : Crm)
      → I db
      → I (record db { campaign_leads = delete_rows (has_lead lead) db.campaign_leads })
  pub writes :
      (k org : ℕ) (f : LeadRow → LeadRow) (l : LeadRow) (db : Crm)
      → allowed org ≡ true
      → I db
      → KeepsOwner f
      → KeepsAddress f
      → find_row (is_lead k org) db.leads ≡ some l
      → any (clashes (f l)) db.leads ≡ false
      → I (record db { leads = update_rows (is_lead k org) f db.leads })
  pub touches :
      (k org : ℕ) (f : LeadRow → LeadRow) (db : Crm)
      → allowed org ≡ true
      → I db
      → KeepsKey f
      → I (record db { leads = update_rows (is_lead k org) f db.leads })
  pub removes :
      (org : ℕ) (ks : List ℕ) (db : Crm)
      → allowed org ≡ true
      → I db
      → All (λ k. any (is_lead k org) db.leads ≡ true) ks
      → I (remove_leads ks db)
  pub statuses :
      (k : ℕ) (s : LeadStatus) (db : Crm) → any_status ≡ true → I db → I (set_lead_status k s db)
  pub contacts :
      (lead campaign now : ℕ) (db : Crm)
      → any_touch ≡ true
      → I db
      → I (update_touch lead campaign now db)
  pub logs : (org : Option ℕ) (e : LeadEvent) (db : Crm) → I db → I (log_lead org e db)

-- A predicate on the tables that an outcome holds.
abbrev pub OfOutcome : (Crm → Type 0) → LeadOutcome Crm → Type 0
OfOutcome I (raised e) = Unit
OfOutcome I (done db) = I db
