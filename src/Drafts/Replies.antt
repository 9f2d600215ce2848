-- ===== src/Drafts/Replies.antt =====
-- What the operations of services/draft_service.py return, and what they call that is not modelled.
use shiku_ai_powered_sales_d.Prelude.{Bool, List, Option, Text, false, length, true, ℕ}
use shiku_ai_powered_sales_d.Store.Schema.{ApprovalId, Db, Outgoing}

-- `SendEmailResult` of schema/tools.py.
pub record SendResult : Type 0 where
  pub is_ok : Bool
  pub message_id : Option Text
  pub thread_id : Option Text
  pub error : Option Text

-- The settings, and the calls out of the service. `deliver n` is the outcome of the call number `n`
-- of `send_plain_email`, where `none` is an exception, `parse_iso` is `datetime.fromisoformat` as seconds of UTC, `b64decode` is
-- the strict decoder, and `nonce n` is the random part of the approval that is made when `n` rows
-- stand in `events`.
pub record Services : Type 0 where
  pub max_attempts : ℕ
  pub retry_delay : ℕ
  pub claim_timeout : ℕ
  pub clean_quick_reply : Text → Text
  pub strip_quick_reply : Text → Text
  pub to_html : Text → Text
  pub summarize : Text → Text
  pub sender_company : ℕ → Option Text
  pub normalize_subject : Text → Option Text → Text
  pub deliver : ℕ → Outgoing → Option SendResult
  pub parse_iso : Text → Option ℕ
  pub b64decode : Text → Option (List ℕ)
  pub b64encode : List ℕ → Text
  pub nonce : ℕ → ℕ

pub data Problem : Type 0 where
  subject_and_body_required attachments_empty too_many_attachments : Problem
  invalid_schedule schedule_required schedule_not_in_future : Problem
  schedule_fields_required ids_empty : Problem

-- The field `status` of the dictionary that an operation returns, with the values beside it.
pub data Reply : Type 0 where
  permission_denied not_found attachment_not_found : Reply
  validation_error : Problem → Reply
  updated attachment_deleted returned_to_review : Reply
  attachments_added : List ℕ → Reply
  approved_scheduled : ApprovalId → ℕ → Reply
  approved_sent : ApprovalId → Option Text → Reply
  send_failed : ApprovalId → Option Text → Reply
  raised : Reply
  rejected : ApprovalId → Reply
  schedule_updated : ℕ → Reply
  deleted : Bool → Reply

abbrev pub is_approved_sent : Reply → Bool
is_approved_sent (approved_sent _ _) = true
is_approved_sent _ = false

abbrev pub is_approved_scheduled : Reply → Bool
is_approved_scheduled (approved_scheduled _ _) = true
is_approved_scheduled _ = false

abbrev pub is_rejected : Reply → Bool
is_rejected (rejected _) = true
is_rejected _ = false

abbrev pub is_not_found : Reply → Bool
is_not_found not_found = true
is_not_found _ = false

abbrev pub is_send_failed : Reply → Bool
is_send_failed (send_failed _ _) = true
is_send_failed _ = false

abbrev pub is_deleted : Reply → Bool
is_deleted (deleted _) = true
is_deleted _ = false

abbrev pub is_validation_error : Reply → Bool
is_validation_error (validation_error _) = true
is_validation_error _ = false

-- `_new_approval_id`
abbrev pub new_approval_id : Services → ℕ → Text → ℕ → Db → ApprovalId
new_approval_id s draft_id actor now db = record {
  draft_id = draft_id;
  actor_id = actor;
  stamp = now;
  nonce = s.nonce (length db.events);
}

-- Whether the operation ended with the exception of `send_plain_email`.
abbrev pub is_raised : Reply → Bool
is_raised raised = true
is_raised _ = false
