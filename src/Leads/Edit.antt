-- ===== src/Leads/Edit.antt =====
-- Creation, change and deletion of one lead in services/lead_service.py. A block `with conn` is a
-- transaction: where it raises, the tables stay as they were.
use shiku_ai_powered_sales_d.Prelude.{
  Bool, List, Option, Text, [], any, false, find_row, if◌then◌else◌, none, not, pos, some, text_eq,
  true, update_rows, ℕ, ℤ, ◌&&◌, ◌++◌, ◌+◌, ◌==◌, ◌∷◌,
}
use shiku_ai_powered_sales_d.Store.Schema.{LeadStatus}
use shiku_ai_powered_sales_d.Leads.Schema.{
  Column, Crm, LeadError, LeadEvent, LeadOutcome, LeadRow, RawFlag, RawIds, RawLead, company,
  company_description, company_size, company_website, done, enrichment_source, icp_rationale,
  industry, job_title, lead_created, lead_updated, linkedin_url, location, name, no_ids, not_unique,
  one_id, pain_points, raised, recent_activity, seniority,
}
use shiku_ai_powered_sales_d.Leads.Normalize.{
  bool_to_db, normalize_campaign_ids, normalize_email, normalize_phone_number, normalize_status,
  nullable_int,
}
use shiku_ai_powered_sales_d.Leads.Assign.{assign_campaigns}

-- `WHERE email = ? AND organization_id = ?`
abbrev pub has_email : ℕ → Text → LeadRow → Bool
has_email org address l = text_eq l.email address && l.organization_id == org

abbrev pub log_lead : Option ℕ → LeadEvent → Crm → Crm
log_lead org e db = record db {
  events = db.events ++ record { organization_id = org; event = e } ∷ [];
}

-- The columns of a lead that is inserted.
abbrev pub new_lead : ℕ → ℕ → Text → LeadStatus → Option ℤ → RawLead → LeadRow
new_lead id org address status score raw = record {
  id = id;
  organization_id = org;
  email = address;
  phone_number = normalize_phone_number raw.phone_number;
  columns = raw.columns;
  icp_score = score;
  status = status;
  email_opt_out = bool_to_db raw.email_opt_out;
  touch_count = 0;
  last_contacted_at = none;
  last_inbound_at = none;
}

-- `INSERT INTO leads`, under `UNIQUE (organization_id, email)`.
unfoldable pub insert_lead : ℕ → Text → LeadStatus → Option ℤ → RawLead → Crm → LeadOutcome Crm
insert_lead org address status score raw db =
    if any (has_email org address) db.leads
    then raised (not_unique address)
    else done (record db {
      leads = db.leads ++ new_lead db.next_lead_id org address status score raw ∷ [];
      next_lead_id = db.next_lead_id + 1;
    })

abbrev pub then_do {ℓ κ} :
    {A : Type ℓ} {B : Type κ} → LeadOutcome A → (A → LeadOutcome B) → LeadOutcome B
then_do (raised e) f = raised e
then_do (done a) f = f a

abbrev pub create_logged : ℕ → ℕ → Text → LeadOutcome Crm → LeadOutcome Crm
create_logged lead org address o =
    then_do o (λ db. done (log_lead (some org) (lead_created lead address) db))

-- The assignment and the event, behind the insertion.
abbrev pub create_inserted : ℕ → ℕ → Text → List ℤ → LeadOutcome Crm → LeadOutcome Crm
create_inserted lead org address ids o =
    then_do o (λ db. create_logged lead org address (assign_campaigns lead org false ids db))

abbrev pub create_with :
    RawLead
    → ℕ
    → Crm
    → LeadOutcome Text
    → LeadOutcome LeadStatus
    → LeadOutcome (List ℤ)
    → LeadOutcome (Option ℤ)
    → LeadOutcome Crm
create_with raw org db address status ids score = then_do address (λ a. then_do status (λ s.
    then_do ids (λ zs.
      then_do score
        (λ n. create_inserted db.next_lead_id org a zs (insert_lead org a s n raw db)))))

-- `create_lead`; the identifier of the new row is `next_lead_id`.
unfoldable pub create_lead : RawLead → ℕ → Crm → LeadOutcome Crm
create_lead raw org db =
    create_with raw org db (normalize_email raw.email) (normalize_status raw.status)
      (normalize_campaign_ids raw.campaign_ids) (nullable_int raw.icp_score)

-- One field of `update_lead`, in the order in which the set is walked.
pub data LeadChange : Type 0 where
  set_email : Text → LeadChange
  set_phone_number : Option Text → LeadChange
  set_status : Option Text → LeadChange
  set_email_opt_out : RawFlag → LeadChange
  set_column : Column → Option Text → LeadChange
  set_icp_score : Option ℤ → LeadChange

abbrev column_number : Column → ℕ
column_number name = 0
column_number linkedin_url = 1
column_number company = 2
column_number industry = 3
column_number pain_points = 4
column_number job_title = 5
column_number seniority = 6
column_number location = 7
column_number company_size = 8
column_number company_website = 9
column_number company_description = 10
column_number recent_activity = 11
column_number enrichment_source = 12
column_number icp_rationale = 13

abbrev put_column : Column → Option Text → (Column → Option Text) → Column → Option Text
put_column c v old d = if column_number c == column_number d then v else old d

-- What a field assigns, or what the check of its value raises.
abbrev pub assignment_of : LeadChange → LeadOutcome (LeadRow → LeadRow)
assignment_of (set_email t) =
    then_do (normalize_email t) (λ address. done (λ l. record l { email = address }))
assignment_of (set_phone_number v) =
    done (λ l. record l { phone_number = normalize_phone_number v })
assignment_of (set_status v) =
    then_do (normalize_status v) (λ s. done (λ l. record l { status = s }))
assignment_of (set_email_opt_out v) = done (λ l. record l { email_opt_out = bool_to_db v })
assignment_of (set_column c v) = done (λ l. record l { columns = put_column c v l.columns })
assignment_of (set_icp_score v) = done (λ l. record l { icp_score = v })

unfoldable pub assignments_of : List LeadChange → LeadOutcome (LeadRow → LeadRow)
assignments_of [] = done (λ l. l)
assignments_of (c ∷ cs) =
    let rest = assignments_of cs in
    then_do (assignment_of c) (λ f. then_do rest (λ g. done (λ l. g (f l))))

abbrev pub is_lead : ℕ → ℕ → LeadRow → Bool
is_lead k org l = l.id == k && l.organization_id == org

-- Another row with the address of this one.
abbrev pub clashes : LeadRow → LeadRow → Bool
clashes l x = has_email l.organization_id l.email x && not (x.id == l.id)

abbrev pub write_lead : ℕ → ℕ → (LeadRow → LeadRow) → LeadRow → Crm → LeadOutcome Crm
write_lead k org f l db =
    if any (clashes (f l)) db.leads
    then raised (not_unique (f l).email)
    else done (record db { leads = update_rows (is_lead k org) f db.leads })

abbrev pub write_changes :
    ℕ → ℕ → List LeadChange → (LeadRow → LeadRow) → LeadRow → Crm → LeadOutcome Crm
write_changes k org [] f l db = done db
write_changes k org (c ∷ cs) f l db = write_lead k org f l db

-- `data.get("campaign_ids") or []`
abbrev pub or_no_ids : RawIds → RawIds
or_no_ids (one_id (pos n)) = if n == 0 then no_ids else one_id (pos n)
or_no_ids ids = ids

abbrev pub assign_changed : ℕ → ℕ → Option RawIds → Crm → LeadOutcome Crm
assign_changed k org none db = done db
assign_changed k org (some raw) db =
    then_do (normalize_campaign_ids (or_no_ids raw)) (λ ids. assign_campaigns k org true ids db)

pub data UpdateReply : Type 0 where
  lead_id_required lead_not_found updated_lead : UpdateReply
  update_failed : LeadError → UpdateReply

-- The transaction is undone where it raises.
abbrev pub commit_update : ℕ → ℕ → Crm → LeadOutcome Crm → UpdateReply × Crm
commit_update k org db (raised e) = (update_failed e, db)
commit_update k org db (done db') = (updated_lead, log_lead (some org) (lead_updated k) db')

abbrev pub update_row_found :
    ℕ
    → ℕ
    → List LeadChange
    → Option RawIds
    → (LeadRow → LeadRow)
    → Crm
    → Option LeadRow
    → UpdateReply × Crm
update_row_found k org cs ids f db none = (lead_not_found, db)
update_row_found k org cs ids f db (some l) =
    commit_update k org db (then_do (write_changes k org cs f l db) (assign_changed k org ids))

abbrev pub update_found :
    ℕ
    → ℕ
    → List LeadChange
    → Option RawIds
    → LeadOutcome (LeadRow → LeadRow)
    → Crm
    → UpdateReply × Crm
update_found k org cs ids (raised e) db = (update_failed e, db)
update_found k org cs ids (done f) db =
    update_row_found k org cs ids f db (find_row (is_lead k org) db.leads)

-- `update_lead`, with the value of the key `campaign_ids`, if it is there.
unfoldable pub update_lead : ℕ → List LeadChange → Option RawIds → ℕ → Crm → UpdateReply × Crm
update_lead k cs ids org db =
    if k == 0 then (lead_id_required, db) else update_found k org cs ids (assignments_of cs) db
