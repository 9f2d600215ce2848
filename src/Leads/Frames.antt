-- ===== src/Leads/Frames.antt =====
-- What the assignment of campaigns leaves as it was.
use shiku_ai_powered_sales_d.Prelude.{
  Bool, Bool-cases, List, delete_rows, false, inl, inr, refl, true, ℕ, ℤ, ◌≡◌,
}
use shiku_ai_powered_sales_d.Leads.Schema.{Crm, LeadOutcome, done, raised}
use shiku_ai_powered_sales_d.Leads.Assign.{
  assign_campaigns, assign_checked, has_lead, has_none, missing_of,
}

-- An outcome that has written no table but that of the assignments.
abbrev pub IsFramed : Crm → LeadOutcome Crm → Type 0
IsFramed db (raised e) = Unit
IsFramed db (done db') =
    (db'.leads ≡ db.leads) × (db'.next_lead_id ≡ db.next_lead_id) × (db'.campaigns ≡ db.campaigns)

assign_checked-IsFramed :
    (lead org : ℕ) (ids : List ℤ) (db : Crm) → IsFramed db (assign_checked lead org ids db)
unfolding assign_checked
assign_checked-IsFramed lead org ids db =
    elim (Bool-cases (has_none (missing_of org db.campaigns ids))) [
      | inl t ↦ rw t (refl, refl, refl)
      | inr f ↦ rw f tt
    ]

pub assign_campaigns-IsFramed :
    (lead org : ℕ) (replace : Bool) (ids : List ℤ) (db : Crm)
    → IsFramed db (assign_campaigns lead org replace ids db)
unfolding assign_campaigns
assign_campaigns-IsFramed lead org true ids db =
    assign_checked-IsFramed lead org ids
      (record db { campaign_leads = delete_rows (has_lead lead) db.campaign_leads })
assign_campaigns-IsFramed lead org false ids db = assign_checked-IsFramed lead org ids db
