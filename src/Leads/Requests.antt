-- ===== src/Leads/Requests.antt =====
-- One call of services/lead_service.py as a value, with the organization that the HTTP interface
-- resolved for it, and a history of calls.
use shiku_ai_powered_sales_d.Prelude.{Bool, List, Option, Text, [], ℕ, ◌∷◌}
use shiku_ai_powered_sales_d.Leads.Touch.{update_touch}
use shiku_ai_powered_sales_d.Leads.Schema.{Crm, LeadOutcome, RawIds, RawLead, done, raised}
use shiku_ai_powered_sales_d.Leads.Edit.{LeadChange, create_lead, update_lead}
use shiku_ai_powered_sales_d.Leads.Remove.{bulk_delete_leads, delete_lead, update_lead_status}
use shiku_ai_powered_sales_d.Leads.Import.{ImportSummary, bulk_import_leads}

pub data LeadRequest : Type 0 where
  create : RawLead → LeadRequest
  change : ℕ → List LeadChange → Option RawIds → LeadRequest
  remove : ℕ → LeadRequest
  remove_many : List ℕ → LeadRequest
  import_many : List RawLead → RawIds → Bool → Option Text → LeadRequest
  set_status_of : ℕ → Text → LeadRequest
  touch : ℕ → ℕ → ℕ → LeadRequest

-- The tables after a call that may raise.
abbrev pub or_unchanged : Crm → LeadOutcome Crm → Crm
or_unchanged db (raised e) = db
or_unchanged db (done db') = db'

abbrev pub after_import : Crm → LeadOutcome (ImportSummary × Crm) → Crm
after_import db (raised e) = db
after_import db (done (s, db')) = db'

unfoldable pub serve_lead : ℕ → LeadRequest → Crm → Crm
serve_lead org (create raw) db = or_unchanged db (create_lead raw org db)
serve_lead org (change k cs ids) db = (update_lead k cs ids org db).1
serve_lead org (remove k) db = (delete_lead k org db).1
serve_lead org (remove_many ks) db = (bulk_delete_leads ks org db).1
serve_lead org (import_many rows ids upsert source) db =
    after_import db (bulk_import_leads rows ids upsert source org db)
serve_lead org (set_status_of k status) db = (update_lead_status k status db).1
serve_lead org (touch lead campaign now) db = update_touch lead campaign now db

unfoldable pub serve_leads : List (ℕ × LeadRequest) → Crm → Crm
serve_leads [] db = db
serve_leads ((org, r) ∷ rest) db = serve_leads rest (serve_lead org r db)

-- The calls for the organizations that `allowed` names, and the changes of a status and the touches,
-- for which no organization is tested.
abbrev pub is_permitted : (ℕ → Bool) → Bool → Bool → ℕ → LeadRequest → Bool
is_permitted allowed any_status any_touch org (set_status_of k status) = any_status
is_permitted allowed any_status any_touch org (touch lead campaign now) = any_touch
is_permitted allowed any_status any_touch org (create raw) = allowed org
is_permitted allowed any_status any_touch org (change k cs ids) = allowed org
is_permitted allowed any_status any_touch org (remove k) = allowed org
is_permitted allowed any_status any_touch org (remove_many ks) = allowed org
is_permitted allowed any_status any_touch org (import_many rows ids upsert source) = allowed org
