-- ===== src/Leads/Assign.antt =====
-- `_assign_campaigns` of services/lead_service.py.
use shiku_ai_powered_sales_d.Prelude.{
  Bool, List, [], any, delete_rows, false, if◌then◌else◌, negsuc, not, pos, select, true, ℕ, ℤ,
  ◌&&◌, ◌++◌, ◌==◌, ◌∷◌,
}
use shiku_ai_powered_sales_d.Store.Schema.{Campaign, CampaignLead}
use shiku_ai_powered_sales_d.Leads.Schema.{Crm, LeadOutcome, done, invalid_campaigns, raised}

-- `SELECT id FROM campaigns WHERE organization_id = ? AND id IN (...)` finds the number.
abbrev pub is_own_campaign : ℕ → ℕ → Campaign → Bool
is_own_campaign org k c = c.id == k && c.organization_id == org

abbrev pub own_campaign : ℕ → List Campaign → ℤ → Bool
own_campaign org cs (pos k) = any (is_own_campaign org k) cs
own_campaign org cs (negsuc k) = false

abbrev pub missing_of : ℕ → List Campaign → List ℤ → List ℤ
missing_of org cs = select (λ z. not (own_campaign org cs z))

abbrev pub is_assignment : ℕ → ℕ → CampaignLead → Bool
is_assignment campaign lead cl = cl.campaign_id == campaign && cl.lead_id == lead

abbrev pub new_assignment : ℕ → ℕ → CampaignLead
new_assignment campaign lead = record {
  campaign_id = campaign;
  lead_id = lead;
  emails_sent = 0;
  responded = false;
  meeting_booked = false;
}

abbrev pub assign_one : ℕ → ℤ → List CampaignLead → List CampaignLead
assign_one lead (negsuc k) rows = rows
assign_one lead (pos k) rows =
    if any (is_assignment k lead) rows then rows else rows ++ new_assignment k lead ∷ []

-- The loop over the identifiers.
unfoldable pub assign_each : ℕ → List ℤ → List CampaignLead → List CampaignLead
assign_each lead [] rows = rows
assign_each lead (z ∷ zs) rows = assign_each lead zs (assign_one lead z rows)

abbrev pub has_lead : ℕ → CampaignLead → Bool
has_lead lead cl = cl.lead_id == lead

abbrev pub has_none {ℓ} : {A : Type ℓ} → List A → Bool
has_none [] = true
has_none (x ∷ xs) = false

-- The checks that stand between the deletion and the loop.
unfoldable pub assign_checked : ℕ → ℕ → List ℤ → Crm → LeadOutcome Crm
assign_checked lead org ids db =
    if has_none (missing_of org db.campaigns ids)
    then done (record db { campaign_leads = assign_each lead ids db.campaign_leads })
    else raised (invalid_campaigns (missing_of org db.campaigns ids))

-- What the caller's transaction does with the deletion when it raises is the caller's matter.
unfoldable pub assign_campaigns : ℕ → ℕ → Bool → List ℤ → Crm → LeadOutcome Crm
assign_campaigns lead org replace ids db = assign_checked lead org ids (
    if replace
    then record db { campaign_leads = delete_rows (has_lead lead) db.campaign_leads }
    else db)
