-- ===== src/Leads/Remove.antt =====
-- The later operations of services/lead_service.py: the deletion of leads, on which their
-- assignments are deleted by `ON DELETE CASCADE`, and the change of a status.
use shiku_ai_powered_sales_d.Prelude.{
  Bool, List, Option, Text, [], any, delete_rows, false, find_row, if◌then◌else◌, is_empty, length,
  map, none, select, some, true, update_rows, upper, ℕ, ◌&&◌, ◌==◌, ◌||◌, ◌∷◌,
}
use shiku_ai_powered_sales_d.Store.Schema.{CampaignLead, LeadStatus}
use shiku_ai_powered_sales_d.Leads.Schema.{Crm, LeadRow, lead_status_updated}
use shiku_ai_powered_sales_d.Leads.Normalize.{status_named}
use shiku_ai_powered_sales_d.Leads.Edit.{is_lead, log_lead}

abbrev pub is_listed : List ℕ → ℕ → Bool
is_listed ks k = any (λ j. j == k) ks

-- `DELETE FROM leads WHERE id IN (...)`
abbrev pub remove_leads : List ℕ → Crm → Crm
remove_leads ks db = record db {
  leads = delete_rows (λ (l : LeadRow). is_listed ks l.id) db.leads;
  campaign_leads = delete_rows (λ (cl : CampaignLead). is_listed ks cl.lead_id) db.campaign_leads;
}

-- `delete_lead`, the second declaration of that name, which replaces the first.
unfoldable pub delete_lead : ℕ → ℕ → Crm → Bool × Crm
delete_lead k org db =
    if any (is_lead k org) db.leads then (true, remove_leads (k ∷ []) db) else (false, db)

abbrev pub id_of_lead : LeadRow → ℕ
id_of_lead l = l.id

-- The rows of the list that belong to the organization.
abbrev pub is_own_listed : List ℕ → ℕ → LeadRow → Bool
is_own_listed ks org l = is_listed ks l.id && l.organization_id == org

unfoldable pub bulk_delete_leads : List ℕ → ℕ → Crm → ℕ × Crm
bulk_delete_leads ks org db =
    let valid_ids = map id_of_lead (select (is_own_listed ks org) db.leads) in
    (length valid_ids, remove_leads valid_ids db)

pub data StatusReply : Type 0 where
  id_and_status_required status_updated : StatusReply
  status_invalid : Text → StatusReply

abbrev pub has_lead_id : ℕ → LeadRow → Bool
has_lead_id k l = l.id == k

abbrev pub organization_of : Option LeadRow → Option ℕ
organization_of none = none
organization_of (some l) = some l.organization_id

abbrev pub set_lead_status : ℕ → LeadStatus → Crm → Crm
set_lead_status k s db =
    let db' = record db {
      leads = update_rows (has_lead_id k) (λ l. record l { status = s }) db.leads;
    } in
    log_lead (organization_of (find_row (has_lead_id k) db'.leads)) (lead_status_updated k s) db'

-- `update_lead_status` of the database provider. No organization is tested.
unfoldable pub update_lead_status : ℕ → Text → Crm → StatusReply × Crm
update_lead_status k status db =
    if k == 0 || is_empty status
    then (id_and_status_required, db)
    else elim (status_named (upper status)) [
      | none ↦ (status_invalid (upper status), db)
      | some s ↦ (status_updated, set_lead_status k s db)
    ]
