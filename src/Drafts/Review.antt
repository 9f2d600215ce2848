-- ===== src/Drafts/Review.antt =====
-- Review of drafts in services/draft_service.py: approval and rejection, alone and in a batch, the
-- edits of a draft and of a scheduled message, the way back to review, and deletion.
use shiku_ai_powered_sales_d.Prelude.{
  Bool, List, Option, Text, [], any, count_rows, false, find_row, if◌then◌else◌, is_empty, length,
  ltb, none, some, sorted_set, true, ℕ, ◌&&◌, ◌∷◌,
}
use shiku_ai_powered_sales_d.Store.Schema.{
  ApprovalId, Db, Message, Status, approved, declined, draft_approved_scheduled, draft_rejected,
  scheduled,
}
use shiku_ai_powered_sales_d.Store.Rows.{
  in_org, is_draft, is_pending, log_draft_event, update_message, with_id,
}
use shiku_ai_powered_sales_d.Drafts.Replies.{
  Problem, Reply, Services, ids_empty, invalid_schedule, is_approved_scheduled, is_approved_sent,
  is_not_found, is_raised, is_rejected, is_send_failed, new_approval_id, permission_denied,
  schedule_not_in_future, schedule_required, validation_error,
}
use shiku_ai_powered_sales_d.Drafts.Times.{
  Parsed, absent, at, malformed, schedule_at, schedule_was_requested,
}
use shiku_ai_powered_sales_d.Drafts.Send.{Pick, join_leads}
use shiku_ai_powered_sales_d.Drafts.Finish.{send_approved_draft}

-- The query of `process_single_draft_approval`: it does not test the direction.
abbrev pub is_reviewable : ℕ → Option ℕ → Message → Bool
is_reviewable draft_id org m =
    with_id draft_id m && is_draft m.status && is_pending m.approved && in_org org m.organization_id

unfoldable pub pick_reviewable : ℕ → Option ℕ → Db → Option Pick
pick_reviewable draft_id org db =
    join_leads db.leads (find_row (is_reviewable draft_id org) db.messages)

abbrev pub mark_scheduled : Text → ℕ → ℕ → Message → Message
mark_scheduled actor now time m = record m {
  approved = approved;
  status = some scheduled;
  approved_by = some actor;
  approved_at = some now;
  scheduled_send_at = some time;
  send_attempts = 0;
  last_error = none;
}

abbrev pub mark_rejected : Text → ℕ → Message → Message
mark_rejected actor now m = record m {
  approved = declined;
  status = some Status.rejected;
  approved_by = some actor;
  approved_at = some now;
}

module _ (s : Services) (actor : Text) (now : ℕ) where
  unfoldable pub schedule_draft : ℕ → ApprovalId → ℕ → Db → Reply × Db
  schedule_draft draft_id approval time db = (
    Reply.approved_scheduled approval time,
    log_draft_event (draft_approved_scheduled time) draft_id actor (some approval)
        (update_message draft_id (mark_scheduled actor now time) db),
  )

  unfoldable pub reject_draft : ℕ → ApprovalId → Db → Reply × Db
  reject_draft draft_id approval db = (
    Reply.rejected approval,
    log_draft_event draft_rejected draft_id actor (some approval)
        (update_message draft_id (mark_rejected actor now) db),
  )

  -- The branch `if approved`, on the parsed time.
  unfoldable pub approve_pick : ℕ → ApprovalId → Option Text → Option ℕ → Parsed → Db → Reply × Db
  approve_pick draft_id approval value org malformed db = (validation_error invalid_schedule, db)
  approve_pick draft_id approval value org absent db =
      if schedule_was_requested value
      then (validation_error schedule_required, db)
      else send_approved_draft s draft_id actor (some approval) org now db
  approve_pick draft_id approval value org (at time) db =
      if schedule_was_requested value
      then if ltb now time
        then schedule_draft draft_id approval time db
        else (validation_error schedule_not_in_future, db)
      else send_approved_draft s draft_id actor (some approval) org now db

  abbrev pub review_pick : ℕ → Bool → Option Text → Option ℕ → Option Pick → Db → Reply × Db
  review_pick draft_id yes_or_no value org none db = (Reply.not_found, db)
  review_pick draft_id true value org (some p) db =
      approve_pick draft_id (new_approval_id s draft_id actor now db) value org
        (schedule_at s.parse_iso value) db
  review_pick draft_id false value org (some p) db =
      reject_draft draft_id (new_approval_id s draft_id actor now db) db

  unfoldable pub process_single_draft_approval : ℕ → Bool → Option Text → Option ℕ → Db → Reply × Db
  process_single_draft_approval draft_id yes_or_no value org db =
      review_pick draft_id yes_or_no value org (pick_reviewable draft_id org db) db

  unfoldable pub approve_draft : ℕ → Bool → Option Text → Option ℕ → Db → Reply × Db
  approve_draft draft_id yes_or_no value org db =
      if is_empty actor
      then (permission_denied, db)
      else process_single_draft_approval draft_id yes_or_no value org db

-- The loop of `batch_approve_drafts` and of `batch_delete_drafts` and of the scheduler, which an
-- exception ends.
unfoldable pub for_each : (ℕ → Db → Reply × Db) → List ℕ → Db → List Reply × Db
for_each step [] db = ([], db)
for_each step (k ∷ ks) db =
    let (r, db') = step k db in
    let (rs, db'') = for_each step ks db' in if is_raised r then (r ∷ [], db') else (r ∷ rs, db'')

pub record ApproveSummary : Type 0 where
  pub requested : ℕ
  pub approved_sent : ℕ
  pub approved_scheduled : ℕ
  pub rejected : ℕ
  pub not_found : ℕ
  pub send_failed : ℕ

pub data BatchReply (S : Type 0) : Type 0 where
  denied interrupted : BatchReply S
  invalid : Problem → BatchReply S
  success : S → List Reply → BatchReply S

unfoldable pub approve_summary : List ℕ → List Reply → ApproveSummary
approve_summary ids results = record {
  requested = length ids;
  approved_sent = count_rows is_approved_sent results;
  approved_scheduled = count_rows is_approved_scheduled results;
  rejected = count_rows is_rejected results;
  not_found = count_rows is_not_found results;
  send_failed = count_rows is_send_failed results;
}

abbrev pub is_nil : List ℕ → Bool
is_nil [] = true
is_nil (x ∷ xs) = false

unfoldable pub batch_approve_drafts :
    Services
    → List ℕ
    → Bool
    → Text
    → Option Text
    → Option ℕ
    → ℕ
    → Db
    → BatchReply ApproveSummary × Db
batch_approve_drafts s draft_ids yes_or_no actor value org now db =
    let ids = sorted_set draft_ids in
    let step = λ (k : ℕ). process_single_draft_approval s actor now k yes_or_no value org in
    let (results, db') = for_each step ids db in
    if is_empty actor
    then (denied, db)
    else if is_nil ids
    then (invalid ids_empty, db)
    else if any is_raised results
    then (interrupted, db')
    else (success (approve_summary ids results) results, db')
