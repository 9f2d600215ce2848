-- ===== src/Leads/Import.antt =====
-- `bulk_import_leads` of services/lead_service.py. A row that raises is caught inside the one
-- transaction of the import, so what it had written before stays.
use shiku_ai_powered_sales_d.Prelude.{
  Bool, List, Option, Text, [], false, find_row, if◌then◌else◌, none, some, take, update_rows, ℕ, ℤ,
  ◌++◌, ◌+◌, ◌∷◌,
}
use shiku_ai_powered_sales_d.Store.Schema.{LeadStatus}
use shiku_ai_powered_sales_d.Store.Rows.{coalesce}
use shiku_ai_powered_sales_d.Leads.Schema.{
  Crm, LeadError, LeadOutcome, LeadRow, RawIds, RawLead, done, leads_imported, no_ids, raised,
}
use shiku_ai_powered_sales_d.Leads.Normalize.{
  bool_to_db, normalize_campaign_ids, normalize_email, normalize_phone_number, normalize_status,
  nullable_int,
}
use shiku_ai_powered_sales_d.Leads.Assign.{assign_campaigns}
use shiku_ai_powered_sales_d.Leads.Edit.{has_email, insert_lead, is_lead, log_lead}

pub record RowError : Type 0 where
  pub row : ℕ
  pub error : LeadError
  pub email : Text

-- The counters of the loop, and the tables.
pub record ImportState : Type 0 where
  pub created : ℕ
  pub updated : ℕ
  pub skipped : ℕ
  pub errors : List RowError
  pub crm : Crm

-- `COALESCE(?, column)` for each column, and the status and the opt-out as they are sent.
abbrev pub merge_lead : LeadStatus → Option ℤ → RawLead → LeadRow → LeadRow
merge_lead status score raw l = record l {
  columns = λ c. coalesce (raw.columns c) (l.columns c);
  phone_number = coalesce (normalize_phone_number raw.phone_number) l.phone_number;
  icp_score = coalesce score l.icp_score;
  status = status;
  email_opt_out = bool_to_db raw.email_opt_out;
}

-- The branch `except`.
abbrev pub import_failed : ℕ → RawLead → LeadError → ImportState → ImportState
import_failed idx raw e p = record p {
  skipped = p.skipped + 1;
  errors = p.errors ++ record { row = idx + 1; error = e; email = raw.email } ∷ [];
}

abbrev pub with_assigned : ℕ → RawLead → ImportState → LeadOutcome Crm → ImportState
with_assigned idx raw p (raised e) = import_failed idx raw e p
with_assigned idx raw p (done db) = record p { crm = db }

-- The assignment at the end of a row.
abbrev pub assign_row : ℕ → ℕ → RawLead → List ℤ → ℕ → ImportState → ImportState
assign_row org idx raw ids lead p =
    with_assigned idx raw p (assign_campaigns lead org false ids p.crm)

-- The effective identifiers: those of the row, if the key is there, or those of the import.
abbrev pub row_ids : RawLead → List ℤ → LeadOutcome (List ℤ)
row_ids raw ids = elim raw.campaign_ids [
  | no_ids ↦ done ids
  | _ ↦ normalize_campaign_ids raw.campaign_ids
]

-- The update of a row that is there.
abbrev pub update_row :
    ℕ
    → ℕ
    → LeadStatus
    → RawLead
    → List ℤ
    → LeadRow
    → LeadOutcome (Option ℤ)
    → ImportState
    → ImportState
update_row org idx status raw ids l (raised e) p = import_failed idx raw e p
update_row org idx status raw ids l (done score) p = assign_row org idx raw ids l.id (record p {
  updated = p.updated + 1;
  crm = record p.crm {
    leads = update_rows (is_lead l.id org) (merge_lead status score raw) p.crm.leads;
  };
})

abbrev pub with_inserted : ℕ → ℕ → RawLead → List ℤ → ImportState → LeadOutcome Crm → ImportState
with_inserted org idx raw ids p (raised e) = import_failed idx raw e p
with_inserted org idx raw ids p (done db) =
    assign_row org idx raw ids p.crm.next_lead_id (record p { created = p.created + 1; crm = db })

abbrev pub insert_row :
    ℕ
    → ℕ
    → Text
    → LeadStatus
    → RawLead
    → List ℤ
    → LeadOutcome (Option ℤ)
    → ImportState
    → ImportState
insert_row org idx address status raw ids (raised e) p = import_failed idx raw e p
insert_row org idx address status raw ids (done score) p =
    with_inserted org idx raw ids p (insert_lead org address status score raw p.crm)

abbrev pub import_checked :
    ℕ → Bool → ℕ → Text → LeadStatus → RawLead → List ℤ → Option LeadRow → ImportState → ImportState
import_checked org upsert idx address status raw ids none p =
    insert_row org idx address status raw ids (nullable_int raw.icp_score) p
import_checked org upsert idx address status raw ids (some l) p =
    if upsert
    then update_row org idx status raw ids l (nullable_int raw.icp_score) p
    else record p { skipped = p.skipped + 1 }

-- One turn of the loop, from the values of the row that were read.
abbrev pub import_read :
    ℕ
    → Bool
    → ℕ
    → RawLead
    → LeadOutcome Text
    → LeadOutcome LeadStatus
    → LeadOutcome (List ℤ)
    → ImportState
    → ImportState
import_read org upsert idx raw (raised e) status ids p = import_failed idx raw e p
import_read org upsert idx raw (done address) (raised e) ids p = import_failed idx raw e p
import_read org upsert idx raw (done address) (done status) (raised e) p = import_failed idx raw e p
import_read org upsert idx raw (done address) (done status) (done ids) p =
    import_checked org upsert idx address status raw ids
      (find_row (has_email org address) p.crm.leads) p

unfoldable pub import_row : ℕ → Bool → List ℤ → ℕ → RawLead → ImportState → ImportState
import_row org upsert ids idx raw p =
    import_read org upsert idx raw (normalize_email raw.email) (normalize_status raw.status)
      (row_ids raw ids) p

unfoldable pub import_rows : ℕ → Bool → List ℤ → ℕ → List RawLead → ImportState → ImportState
import_rows org upsert ids idx [] p = p
import_rows org upsert ids idx (raw ∷ rows) p =
    import_rows org upsert ids (idx + 1) rows (import_row org upsert ids idx raw p)

pub record ImportSummary : Type 0 where
  pub created : ℕ
  pub updated : ℕ
  pub skipped : ℕ
  pub errors : List RowError

abbrev pub import_start : Crm → ImportState
import_start db = record { created = 0; updated = 0; skipped = 0; errors = []; crm = db }

abbrev pub import_finished : ℕ → Option Text → ImportState → ImportSummary × Crm
import_finished org source p = (
  record {
    created = p.created;
    updated = p.updated;
    skipped = p.skipped;
    errors = take 50 p.errors;
  },
  log_lead (some org) (leads_imported p.created p.updated p.skipped source) p.crm,
)

abbrev pub import_with :
    List RawLead
    → LeadOutcome (List ℤ)
    → Bool
    → Option Text
    → ℕ
    → Crm
    → LeadOutcome (ImportSummary × Crm)
import_with rows (raised e) upsert source org db = raised e
import_with rows (done zs) upsert source org db =
    done (import_finished org source (import_rows org upsert zs 0 rows (import_start db)))

-- `bulk_import_leads`; identifiers of the import that cannot be read raise.
unfoldable pub bulk_import_leads :
    List RawLead → RawIds → Bool → Option Text → ℕ → Crm → LeadOutcome (ImportSummary × Crm)
bulk_import_leads rows ids upsert source org db =
    import_with rows (normalize_campaign_ids ids) upsert source org db
