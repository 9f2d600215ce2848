-- ===== src/Contexts/Inbound.antt =====
-- `record_inbound` and `set_campaign_lead_responded` of services/campaign_context_service.py.
use shiku_ai_powered_sales_d.Prelude.{
  Bool, List, Option, Text, [], any, codes, if◌then◌else◌, is_empty, lower, none, or_text, some,
  strip, text_eq, true, update_rows, ℕ, ◌&&◌, ◌++◌, ◌==◌, ◌||◌, ◌∷◌,
}
use shiku_ai_powered_sales_d.Store.Schema.{
  Campaign, CampaignLead, Db, Lead, LeadContext, other, response_updated,
}
use shiku_ai_powered_sales_d.Store.Rows.{truthy}
use shiku_ai_powered_sales_d.Drafts.Replies.{Services}
use shiku_ai_powered_sales_d.Drafts.Send.{of_lead, of_pair}

-- `(intent or "").strip().lower()`
abbrev pub normalized_intent : Option Text → Text
normalized_intent intent = lower (strip (or_text intent []))

-- A bounce and spam are no answers.
abbrev pub is_no_answer : Text → Bool
is_no_answer intent = text_eq (codes "bounce") intent || text_eq (codes "spam") intent

abbrev pub set_responded : Bool → CampaignLead → CampaignLead
set_responded flag cl = record cl { responded = flag }

abbrev pub set_meeting_booked : CampaignLead → CampaignLead
set_meeting_booked cl = record cl { meeting_booked = true }

-- The two updates of the flags.
abbrev pub answered_rows : ℕ → ℕ → Text → List CampaignLead → List CampaignLead
answered_rows campaign lead intent rows =
    if is_no_answer intent
    then rows
    else update_rows (of_lead campaign lead) (set_responded true) rows

abbrev pub booked_rows : ℕ → ℕ → Text → List CampaignLead → List CampaignLead
booked_rows campaign lead intent rows =
    if text_eq (codes "meeting_confirmation") intent
    then update_rows (of_lead campaign lead) set_meeting_booked rows
    else rows

-- `organization_id or 1`
abbrev pub or_first : Option ℕ → ℕ
or_first org = if truthy org then (elim org [ none ↦ 1 | some k ↦ k ]) else 1

-- `normalized_intent or None`
abbrev stored_intent : Text → Option Text
stored_intent intent = if is_empty intent then none else some intent

abbrev replace_inbound : ℕ → Option Text → Text → Text → ℕ → LeadContext → LeadContext
replace_inbound org subject summary intent now c = record c {
  organization_id = org;
  last_inbound_subject = subject;
  last_inbound_summary = some summary;
  latest_intent = stored_intent intent;
  updated_at = now;
}

abbrev new_inbound : ℕ → ℕ → ℕ → Option Text → Text → Text → ℕ → LeadContext
new_inbound org campaign lead subject summary intent now = record {
  organization_id = org;
  campaign_id = campaign;
  lead_id = lead;
  last_outbound_subject = none;
  last_outbound_summary = none;
  last_inbound_subject = subject;
  last_inbound_summary = some summary;
  latest_intent = stored_intent intent;
  updated_at = now;
}

-- `INSERT ... ON CONFLICT(campaign_id, lead_id) DO UPDATE`, unless there is no summary.
abbrev pub put_inbound :
    ℕ → ℕ → ℕ → Option Text → Text → Text → ℕ → List LeadContext → List LeadContext
put_inbound org campaign lead subject summary intent now rows =
    if is_empty summary
    then rows
    else if any (of_pair campaign lead) rows
    then update_rows (of_pair campaign lead) (replace_inbound org subject summary intent now) rows
    else rows ++ new_inbound org campaign lead subject summary intent now ∷ []

-- `record_inbound`, for a lead and a campaign that are given.
abbrev pub record_answer : Services → ℕ → ℕ → ℕ → Option Text → Option Text → Text → ℕ → Db → Db
record_answer s org campaign lead subject body intent now db = record db {
  campaign_leads =
      booked_rows campaign lead intent (answered_rows campaign lead intent db.campaign_leads);
  contexts =
      put_inbound org campaign lead subject (s.summarize (or_text body [])) intent now db.contexts;
}

unfoldable pub record_inbound :
    Services
    → Option ℕ
    → Option ℕ
    → Option ℕ
    → Option Text
    → Option Text
    → Option Text
    → ℕ
    → Db
    → Db
record_inbound s org (some campaign) (some lead) subject body intent now db =
    if campaign == 0 || lead == 0
    then db
    else record_answer s (or_first org) campaign lead subject body (normalized_intent intent) now db
record_inbound s org _ _ subject body intent now db = db

-- The query of `set_campaign_lead_responded`: the campaign and the lead are of the organization.
abbrev pub is_assigned : ℕ → ℕ → ℕ → Db → Bool
is_assigned org campaign lead db =
    any (of_lead campaign lead) db.campaign_leads
    && any (λ (c : Campaign). c.id == campaign && c.organization_id == org) db.campaigns
    && any (λ (l : Lead). l.id == lead && l.organization_id == org) db.leads

-- `set_campaign_lead_responded`; its `ValueError` is `none`.
unfoldable pub set_campaign_lead_responded : ℕ → ℕ → ℕ → Bool → Db → Option Db
set_campaign_lead_responded org campaign lead flag db =
    if is_assigned org campaign lead db
    then some (record db {
      campaign_leads = update_rows (of_lead campaign lead) (set_responded flag) db.campaign_leads;
      events = db.events ++ other (some org) (response_updated campaign lead flag) ∷ [];
    })
    else none
