-- ===== src/Leads/Tests.antt =====
-- Two organizations, a lead of each, and a campaign of the first.
use shiku_ai_powered_sales_d.Prelude.{
  List, Option, Text, [], codes, false, length, none, pos, refl, select, some, true, ℕ, ◌∷◌, ◌≡◌,
}
use shiku_ai_powered_sales_d.Store.Schema.{opted_out}
use shiku_ai_powered_sales_d.Leads.Schema.{
  Column, Crm, LeadOutcome, LeadRow, RawIds, RawLead, done, id_list, id_number, ids_text, no_ids,
  number_text, one_id, raised, unsaid,
}
use shiku_ai_powered_sales_d.Leads.Normalize.{
  normalize_campaign_ids, normalize_email, normalize_phone_number, normalize_status,
}
use shiku_ai_powered_sales_d.Leads.Assign.{assign_campaigns, assign_checked, assign_each}
use shiku_ai_powered_sales_d.Leads.Edit.{insert_lead, set_email}
use shiku_ai_powered_sales_d.Leads.Import.{
  ImportSummary, bulk_import_leads, import_row, import_rows, import_start,
}
use shiku_ai_powered_sales_d.Leads.Requests.{
  LeadRequest, change, create, import_many, remove_many, serve_leads,
}
use shiku_ai_powered_sales_d.Leads.Ownership.{IsCoOwned, serve_leads-IsCoOwned}
use shiku_ai_powered_sales_d.Leads.Identifiers.{IsAscendingInt, normalize_campaign_ids-again}
use shiku_ai_powered_sales_d.Leads.Uniqueness.{HasUniqueLeads, serve_leads-HasUniqueLeads}
use shiku_ai_powered_sales_d.Leads.Tenants.{of_organization, serve_leads-others}
use shiku_ai_powered_sales_d.Leads.Accounting.{IsCounted, bulk_import_leads-IsCounted}
use shiku_ai_powered_sales_d.Leads.Upserts.{HasReset, import_row-HasReset}

abbrev no_columns : Column → Option Text
no_columns c = none

abbrev lead : ℕ → ℕ → Text → LeadRow
lead k org address = record {
  id = k;
  organization_id = org;
  email = address;
  phone_number = none;
  columns = no_columns;
  icp_score = none;
  status = opted_out;
  email_opt_out = true;
  touch_count = 2;
  last_contacted_at = none;
  last_inbound_at = none;
}

abbrev db : Crm
db = record {
  leads = lead 1 1 (codes "a@b.co") ∷ lead 2 2 (codes "a@b.co") ∷ [];
  campaigns =
      record { id = 7; organization_id = 1; is_active = true; max_emails_per_lead = 3 } ∷ [];
  campaign_leads =
      record {
        campaign_id = 7;
        lead_id = 1;
        emails_sent = 2;
        responded = false;
        meeting_booked = false;
      }
      ∷ [];
  events = [];
  next_lead_id = 3;
}

abbrev raw : Text → RawIds → RawLead
raw address ids = record {
  email = address;
  status = none;
  campaign_ids = ids;
  phone_number = some (codes "+254 254 712");
  columns = no_columns;
  icp_score = number_text (codes " 7 ");
  email_opt_out = unsaid;
}

abbrev rows : List RawLead
rows =
    raw (codes " A@B.co") no_ids
    ∷ raw (codes "c@d.org") (ids_text (codes "7; 9"))
    ∷ raw (codes "nobody") no_ids
    ∷ []

abbrev history : List (ℕ × LeadRequest)
history =
    (1, import_many rows (ids_text (codes "7")) true none)
    ∷ (1, create (raw (codes "e@f.org") (one_id (pos 7))))
    ∷ (1, change 1 (set_email (codes "g@h.org") ∷ []) (some no_ids))
    ∷ (1, remove_many (1 ∷ 2 ∷ []))
    ∷ []

phone : normalize_phone_number (some (codes "+254 254 712")) ≡ some (codes "+254712")
unfolding normalize_phone_number
phone = refl

identifiers : normalize_campaign_ids (ids_text (codes "9, 7;;9")) ≡ done (pos 7 ∷ pos 9 ∷ [])
unfolding normalize_campaign_ids
identifiers = refl

-- The second row is counted as created and as skipped.
numbers_of : LeadOutcome (ImportSummary × Crm) → List ℕ
numbers_of (raised e) = []
numbers_of (done (s, db')) = s.created ∷ s.updated ∷ s.skipped ∷ length db'.leads ∷ []

imported :
    numbers_of (bulk_import_leads rows (ids_text (codes "7")) true none 1 db) ≡ 1 ∷ 1 ∷ 2 ∷ 3 ∷ []
unfolding numbers_of bulk_import_leads import_rows import_row normalize_email normalize_status
    normalize_campaign_ids insert_lead assign_campaigns assign_checked assign_each
imported = refl

bulk_import_leads-IsCounted_example :
    IsCounted
      (ids_text (codes "7"))
      3
      2
      (bulk_import_leads rows (ids_text (codes "7")) true none 1 db)
bulk_import_leads-IsCounted_example =
    bulk_import_leads-IsCounted rows (ids_text (codes "7")) true none 1 db

db-HasUniqueLeads : HasUniqueLeads db
db-HasUniqueLeads = (((refl, tt), (tt, tt)), (refl, (refl, tt)), (refl, (refl, tt)))

serve_leads-HasUniqueLeads_example : HasUniqueLeads (serve_leads history db)
serve_leads-HasUniqueLeads_example = serve_leads-HasUniqueLeads history db db-HasUniqueLeads

serve_leads-IsCoOwned_example : IsCoOwned (serve_leads history db)
serve_leads-IsCoOwned_example =
    serve_leads-IsCoOwned history db (refl, (refl, (refl, (refl, tt)))) (refl, tt)

serve_leads-others_example :
    select (of_organization 2) (serve_leads history db).leads ≡ select (of_organization 2) db.leads
serve_leads-others_example =
    serve_leads-others 2 history db db-HasUniqueLeads (refl, (refl, (refl, (refl, tt))))

read : normalize_email (codes " A@B.co") ≡ done (codes "a@b.co")
unfolding normalize_email
read = refl

import_row-HasReset_example :
    HasReset 1
      (codes "a@b.co")
      (lead 1 1 (codes "a@b.co"))
      (import_row 1 true [] 0 (raw (codes " A@B.co") no_ids) (import_start db)).crm
import_row-HasReset_example =
    import_row-HasReset 1 [] [] 0 (raw (codes " A@B.co") no_ids) (import_start db) (codes "a@b.co")
      (lead 1 1 (codes "a@b.co")) (some (pos 7)) read refl refl refl refl refl

normalize_campaign_ids-again_example :
    IsAscendingInt (pos 7 ∷ pos 9 ∷ [])
    × (normalize_campaign_ids (id_list (id_number (pos 7) ∷ id_number (pos 9) ∷ []))
        ≡ done (pos 7 ∷ pos 9 ∷ []))
normalize_campaign_ids-again_example =
    normalize_campaign_ids-again (ids_text (codes "9, 7;;9")) (pos 7 ∷ pos 9 ∷ []) identifiers
