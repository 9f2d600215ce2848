-- ===== src/Drafts/Edit.antt =====
-- The edits of a pending or scheduled message in services/draft_service.py, the way back to review,
-- and deletion.
use shiku_ai_powered_sales_d.Prelude.{
  Bool, List, Option, Text, any, count_rows, delete_rows, find_row, if◌then◌else◌, is_empty, length,
  none, some, sorted_set, strip, update_rows, ℕ, ◌&&◌, ◌==◌, ◌||◌,
}
use shiku_ai_powered_sales_d.Store.Schema.{
  Attachment, Campaign, CampaignLead, Db, EventKind, Message, draft, draft_deleted, draft_updated,
  pending, scheduled_draft_updated,
}
use shiku_ai_powered_sales_d.Store.Rows.{
  in_org, is_approved, is_draft, is_failed, is_outbound, is_pending, is_scheduled, log_draft_event,
  truthy, update_message, with_id,
}
use shiku_ai_powered_sales_d.Drafts.Replies.{
  Reply, Services, deleted, ids_empty, is_deleted, is_not_found, not_found, permission_denied,
  schedule_fields_required, schedule_updated, subject_and_body_required, updated, validation_error,
}
use shiku_ai_powered_sales_d.Drafts.Times.{Parsed, absent, at, malformed, schedule_at}
use shiku_ai_powered_sales_d.Drafts.Review.{BatchReply, denied, for_each, invalid, is_nil, success}

-- `_pending_draft_exists`
abbrev pub is_pending_draft : ℕ → Option ℕ → Message → Bool
is_pending_draft draft_id org m =
    with_id draft_id m
    && is_draft m.status
    && is_pending m.approved
    && is_outbound m.direction
    && in_org org m.organization_id

abbrev pub pending_draft_exists : ℕ → Option ℕ → Db → Bool
pending_draft_exists draft_id org db = any (is_pending_draft draft_id org) db.messages

abbrev pub edit_content : Text → Text → Message → Message
edit_content subject body m = record m { subject = strip subject; body = strip body }

unfoldable pub update_draft_content : ℕ → Text → Text → Text → Option ℕ → Db → Reply × Db
update_draft_content draft_id subject body actor org db =
    if is_empty actor
    then (permission_denied, db)
    else if is_empty (strip subject) || is_empty (strip body)
    then (validation_error subject_and_body_required, db)
    else if pending_draft_exists draft_id org db
    then (
      updated,
      log_draft_event draft_updated draft_id actor none
          (update_message draft_id (edit_content subject body) db),
    )
    else (not_found, db)

-- The query of `update_scheduled_draft` and of `return_scheduled_draft_to_review`.
abbrev pub is_scheduled_row : ℕ → Option ℕ → Message → Bool
is_scheduled_row draft_id org m =
    with_id draft_id m
    && is_outbound m.direction
    && is_scheduled m.status
    && is_approved m.approved
    && in_org org m.organization_id

abbrev pub reschedule : Text → Text → ℕ → Message → Message
reschedule subject body time m = record m {
  subject = strip subject;
  body = strip body;
  scheduled_send_at = some time;
  last_error = none;
}

-- The part of `update_scheduled_draft` behind `_schedule_iso`; `none` is its `ValueError`.
unfoldable pub update_scheduled_at :
    Parsed → ℕ → Text → Text → Text → Option ℕ → Db → Option (Reply × Db)
update_scheduled_at malformed draft_id subject body actor org db = none
update_scheduled_at absent draft_id subject body actor org db =
    some (validation_error schedule_fields_required, db)
update_scheduled_at (at time) draft_id subject body actor org db =
    if is_empty (strip subject) || is_empty (strip body)
    then some (validation_error schedule_fields_required, db)
    else if any (is_scheduled_row draft_id org) db.messages
    then some (
      schedule_updated time,
      log_draft_event (scheduled_draft_updated time) draft_id actor none
          (update_message draft_id (reschedule subject body time) db),
    )
    else some (not_found, db)

unfoldable pub update_scheduled_draft :
    Services → ℕ → Text → Text → Option Text → Text → Option ℕ → Db → Option (Reply × Db)
update_scheduled_draft s draft_id subject body value actor org db =
    if is_empty actor
    then some (permission_denied, db)
    else update_scheduled_at (schedule_at s.parse_iso value) draft_id subject body actor org db

abbrev pub to_review : Message → Message
to_review m = record m {
  status = some draft;
  approved = pending;
  approved_by = none;
  approved_at = none;
  scheduled_send_at = none;
  last_error = none;
}

unfoldable pub return_scheduled_draft_to_review : ℕ → Text → Option ℕ → Db → Reply × Db
return_scheduled_draft_to_review draft_id actor org db =
    if is_empty actor
    then (permission_denied, db)
    else if any (is_scheduled_row draft_id org) db.messages
    then (
      Reply.returned_to_review,
      log_draft_event EventKind.returned_to_review draft_id actor none
          (update_message draft_id to_review db),
    )
    else (not_found, db)

-- The query of `process_single_draft_delete`.
abbrev pub is_deletable : ℕ → Option ℕ → Message → Bool
is_deletable draft_id org m =
    with_id draft_id m
    && (is_draft m.status && is_pending m.approved || is_failed m.status)
    && is_outbound m.direction
    && in_org org m.organization_id

-- `stop_future_attempts_for_draft`
abbrev max_emails_of : Option Campaign → ℕ → ℕ
max_emails_of none emails_sent = emails_sent
max_emails_of (some c) emails_sent = c.max_emails_per_lead

unfoldable pub stop_future_attempts_for_draft : ℕ → ℕ → Db → Db
stop_future_attempts_for_draft lead campaign db =
    let limit = find_row (λ (c : Campaign). c.id == campaign) db.campaigns in
    record db {
      campaign_leads =
          update_rows (λ (c : CampaignLead). c.campaign_id == campaign && c.lead_id == lead)
            (λ c. record c { emails_sent = max_emails_of limit c.emails_sent }) db.campaign_leads;
    }

abbrev pub stop_attempts : Bool → Message → Db → Db
stop_attempts stop m db = elim m.campaign_id [
  | none ↦ db
  | some campaign ↦
      if stop && truthy (some m.lead_id) && truthy (some campaign)
      then stop_future_attempts_for_draft m.lead_id campaign db
      else db
]

abbrev pub delete_pick : ℕ → Bool → Text → Option Message → Db → Reply × Db
delete_pick draft_id stop actor none db = (not_found, db)
delete_pick draft_id stop actor (some m) db =
    let kept = record db {
      messages = delete_rows (with_id draft_id) db.messages;
      attachments = delete_rows (λ (a : Attachment). a.email_message_id == draft_id) db.attachments;
    } in
    (
      deleted stop,
      log_draft_event (draft_deleted stop) draft_id actor none (stop_attempts stop m kept),
    )

-- The deletion of the message takes its attachments with it (`ON DELETE CASCADE`).
unfoldable pub process_single_draft_delete : ℕ → Bool → Text → Option ℕ → Db → Reply × Db
process_single_draft_delete draft_id stop actor org db =
    delete_pick draft_id stop actor (find_row (is_deletable draft_id org) db.messages) db

unfoldable pub delete_draft : ℕ → Bool → Text → Option ℕ → Db → Reply × Db
delete_draft draft_id stop actor org db =
    if is_empty actor
    then (permission_denied, db)
    else process_single_draft_delete draft_id stop actor org db

pub record DeleteSummary : Type 0 where
  pub requested_count : ℕ
  pub deleted_count : ℕ
  pub not_found_count : ℕ

unfoldable pub batch_delete_drafts :
    List ℕ → Bool → Text → Option ℕ → Db → BatchReply DeleteSummary × Db
batch_delete_drafts draft_ids stop actor org db =
    let ids = sorted_set draft_ids in
    let step = λ (k : ℕ). process_single_draft_delete k stop actor org in
    let (results, db') = for_each step ids db in
    let summary : DeleteSummary = record {
      requested_count = length ids;
      deleted_count = count_rows is_deleted results;
      not_found_count = count_rows is_not_found results;
    } in
    if is_empty actor
    then (denied, db)
    else if is_nil ids
    then (invalid ids_empty, db)
    else (success summary results, db')
