-- ===== src/Leads/Touch.antt =====
-- `update_lead_touch` of services/lead_service.py on the tables of the leads; the sends of the drafts
-- call it too.
use shiku_ai_powered_sales_d.Prelude.{
  List, [], any, if◌then◌else◌, some, update_rows, ℕ, ◌++◌, ◌+◌, ◌==◌, ◌||◌, ◌∷◌,
}
use shiku_ai_powered_sales_d.Store.Schema.{CampaignLead}
use shiku_ai_powered_sales_d.Drafts.Send.{count_email, first_email}
use shiku_ai_powered_sales_d.Leads.Schema.{Crm, LeadRow}
use shiku_ai_powered_sales_d.Leads.Assign.{is_assignment}
use shiku_ai_powered_sales_d.Leads.Remove.{has_lead_id}

abbrev pub touch_row : ℕ → LeadRow → LeadRow
touch_row now l = record l { touch_count = l.touch_count + 1; last_contacted_at = some now }

abbrev touched_rows : ℕ → ℕ → List CampaignLead → List CampaignLead
touched_rows lead campaign rows =
    if any (is_assignment campaign lead) rows
    then update_rows (is_assignment campaign lead) count_email rows
    else rows ++ first_email campaign lead ∷ []

abbrev pub update_touch : ℕ → ℕ → ℕ → Crm → Crm
update_touch lead campaign now db = if lead == 0 || campaign == 0 then db else record db {
  leads = update_rows (has_lead_id lead) (touch_row now) db.leads;
  campaign_leads = touched_rows lead campaign db.campaign_leads;
}
