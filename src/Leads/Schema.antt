-- ===== src/Leads/Schema.antt =====
-- The tables that services/lead_service.py writes, and the values that its callers send.
use shiku_ai_powered_sales_d.Prelude.{Bool, List, Option, Text, inl, inr, refl, ℕ, ℤ, ◌≡◌, ◌⊎◌}
use shiku_ai_powered_sales_d.Store.Schema.{Campaign, CampaignLead, LeadStatus}

-- The columns of a lead that are kept as they are sent.
pub data Column : Type 0 where
  name linkedin_url company industry pain_points job_title seniority location company_size : Column
  company_website company_description recent_activity enrichment_source icp_rationale : Column

-- A row of `leads`.
pub record LeadRow : Type 0 where
  pub id : ℕ
  pub organization_id : ℕ
  pub email : Text
  pub phone_number : Option Text
  pub columns : Column → Option Text
  pub icp_score : Option ℤ
  pub status : LeadStatus
  pub email_opt_out : Bool
  pub touch_count : ℕ
  pub last_contacted_at : Option ℕ
  pub last_inbound_at : Option ℕ

pub data LeadEvent : Type 0 where
  lead_created : ℕ → Text → LeadEvent
  lead_updated : ℕ → LeadEvent
  leads_imported : ℕ → ℕ → ℕ → Option Text → LeadEvent
  lead_status_updated : ℕ → LeadStatus → LeadEvent

-- A row of `events`.
pub record LoggedEvent : Type 0 where
  pub organization_id : Option ℕ
  pub event : LeadEvent

pub record Crm : Type 0 where
  pub leads : List LeadRow
  pub campaigns : List Campaign
  pub campaign_leads : List CampaignLead
  pub events : List LoggedEvent
  pub next_lead_id : ℕ

-- The value of `email_opt_out`: missing, a text, or a number or Boolean that is 0 or not.
pub data RawFlag : Type 0 where
  unsaid : RawFlag
  flag_text : Text → RawFlag
  flag : Bool → RawFlag

-- The value of `icp_score`.
pub data RawNumber : Type 0 where
  no_number : RawNumber
  number_text : Text → RawNumber
  number : ℤ → RawNumber

-- One element of a list of campaigns: `None`, a text or a number.
pub data RawId : Type 0 where
  no_id : RawId
  id_text : Text → RawId
  id_number : ℤ → RawId

-- The value of `campaign_ids`.
pub data RawIds : Type 0 where
  no_ids : RawIds
  ids_text : Text → RawIds
  one_id : ℤ → RawIds
  id_list : List RawId → RawIds

-- A lead as the caller sends it.
pub record RawLead : Type 0 where
  pub email : Text
  pub status : Option Text
  pub campaign_ids : RawIds
  pub phone_number : Option Text
  pub columns : Column → Option Text
  pub icp_score : RawNumber
  pub email_opt_out : RawFlag

-- What the operations raise.
pub data LeadError : Type 0 where
  invalid_email : Text → LeadError
  invalid_status : Text → LeadError
  not_a_number : Text → LeadError
  invalid_campaigns : List ℤ → LeadError
  not_unique : Text → LeadError

pub data LeadOutcome {ℓ} (A : Type ℓ) : Type ℓ where
  raised : LeadError → LeadOutcome A
  done : A → LeadOutcome A

pub Outcome-cases {ℓ} :
    {A : Type ℓ} (o : LeadOutcome A) → ((e : LeadError) × (o ≡ raised e)) ⊎ ((a : A) × (o ≡ done a))
Outcome-cases (raised e) = inl (e, refl)
Outcome-cases (done a) = inr (a, refl)

pub done_eq {ℓ} : {A : Type ℓ} {a b : A} → done a ≡ done b → a ≡ b
done_eq e = cc
