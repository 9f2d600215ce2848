-- ===== src/Drafts/Finish.antt =====
-- The second part of `send_approved_draft`: what is written when `send_plain_email` has returned.
use shiku_ai_powered_sales_d.Prelude.{
  Option, Text, if◌then◌else◌, leb, length, none, some, ℕ, ◌&&◌, ◌+◌,
}
use shiku_ai_powered_sales_d.Store.Schema.{
  ApprovalId, Db, LastError, Message, Status, approved, draft, draft_approval_send_failed,
  draft_approved_sent, failed, paused_after_error, pending, reported, scheduled, sent,
}
use shiku_ai_powered_sales_d.Store.Rows.{coalesce, get_message, log_draft_event, update_message}
use shiku_ai_powered_sales_d.Drafts.Replies.{
  Reply, SendResult, Services, approved_sent, new_approval_id, not_found, raised, send_failed,
}
use shiku_ai_powered_sales_d.Drafts.Times.{is_safety_content_block, is_scheduled_send_status}
use shiku_ai_powered_sales_d.Drafts.Send.{
  Pick, begin_send, body_of, get_draft_attachments, outgoing, pick_sendable, record_outbound,
  subject_of, touch_sequence,
}

abbrev pub mark_sent : Text → ℕ → SendResult → Message → Message
mark_sent actor now res m = record m {
  approved = approved;
  status = some sent;
  approved_by = coalesce m.approved_by (some actor);
  approved_at = coalesce m.approved_at (some now);
  sent_at = some now;
  scheduled_send_at = none;
  scheduled_claimed_at = none;
  external_message_id = res.message_id;
  external_thread_id = res.thread_id;
}

-- What becomes of a message whose sending failed.
pub data Failure : Type 0 where
  blocked retried kept : Failure
  paused : ℕ → Failure

unfoldable pub failure_of : Services → Option Status → ℕ → Option Text → Failure
failure_of s status attempts error =
    if is_scheduled_send_status status && is_safety_content_block error
    then blocked
    else if is_scheduled_send_status status && leb s.max_attempts attempts
    then paused attempts
    else if is_scheduled_send_status status
    then retried
    else kept

abbrev reported_error : Option Text → Option LastError
reported_error none = none
reported_error (some e) = some (reported e)

abbrev pub back_to_review : Message → Message
back_to_review m = record m {
  status = some draft;
  approved = pending;
  approved_by = none;
  approved_at = none;
  scheduled_send_at = none;
  scheduled_claimed_at = none;
}

abbrev pub mark_failed : Services → Failure → ℕ → Option Text → Message → Message
mark_failed s blocked now error m = record m {
  last_error = reported_error error;
  status = some failed;
  scheduled_claimed_at = none;
}
mark_failed s (paused attempts) now error m = record (back_to_review m) {
  last_error = some (paused_after_error attempts error);
}
mark_failed s retried now error m = record m {
  last_error = reported_error error;
  status = some scheduled;
  scheduled_send_at = some (now + s.retry_delay);
  scheduled_claimed_at = none;
}
mark_failed s kept now error m = record m { last_error = reported_error error }

abbrev pub attempts_of : Option Message → ℕ
attempts_of none = 0
attempts_of (some m) = m.send_attempts

module _ (s : Services) (actor : Text) (approval : ApprovalId) (now : ℕ) where
  -- The branch `if send_res.ok`.
  unfoldable pub finish_sent : Pick → SendResult → Db → Reply × Db
  finish_sent p res db =
      let m = p.message in
      let marked = update_message m.id (mark_sent actor now res) db in
      let noted =
        record_outbound s m.organization_id m.campaign_id m.lead_id (subject_of s p) (body_of s p)
          now marked in
      let logged =
        log_draft_event
          (draft_approved_sent res.message_id res.thread_id
            (length (get_draft_attachments m.id db)))
          m.id actor (some approval) noted in
      (approved_sent approval res.message_id, touch_sequence m now logged)

  -- The four branches after it.
  unfoldable pub finish_failed : Pick → SendResult → Db → Reply × Db
  finish_failed p res db =
      let m = p.message in
      let failure = failure_of s m.status (attempts_of (get_message m.id db.messages)) res.error in
      let marked = update_message m.id (mark_failed s failure now res.error) db in
      let logged =
        log_draft_event (draft_approval_send_failed res.error) m.id actor (some approval) marked in
      (send_failed approval res.error, logged)

  unfoldable pub finish_send : Pick → SendResult → Db → Reply × Db
  finish_send p res db = if res.is_ok then finish_sent p res db else finish_failed p res db

-- `approval_id or _new_approval_id(draft_id, actor_id)`
abbrev pub or_new_approval : Option ApprovalId → ApprovalId → ApprovalId
or_new_approval none a = a
or_new_approval (some a) b = a

-- What follows the call of `send_plain_email`; an exception of it leaves what was committed before.
abbrev pub after_call :
    Services → Text → ApprovalId → ℕ → Pick → Option SendResult → Db → Reply × Db
after_call s actor approval now p none db = (raised, db)
after_call s actor approval now p (some res) db = finish_send s actor approval now p res db

abbrev pub send_pick : Services → Text → Option ApprovalId → ℕ → ℕ → Option Pick → Db → Reply × Db
send_pick s actor approval now draft_id none db = (not_found, db)
send_pick s actor approval now draft_id (some p) db =
    after_call s actor (or_new_approval approval (new_approval_id s draft_id actor now db)) now p
      (s.deliver (length db.outbox) (outgoing s p db)) (begin_send s p db)

unfoldable pub send_approved_draft :
    Services → ℕ → Text → Option ApprovalId → Option ℕ → ℕ → Db → Reply × Db
send_approved_draft s draft_id actor approval org now db =
    send_pick s actor approval now draft_id (pick_sendable draft_id org db) db
