-- ===== src/Drafts/Attempts.antt =====
-- The outcomes of a send.
use shiku_ai_powered_sales_d.Prelude.{
  Bool-cases, Option, Text, ap, arith, false, inl, inr, length, none, refl, some, true, ℕ, ◌+◌, ◌<◌,
  ◌∙◌, ◌≡◌, ◌≤◌,
}
use shiku_ai_powered_sales_d.Store.Schema.{
  ApprovalId, Db, Message, Status, draft, failed, pending, scheduled, sent,
}
use shiku_ai_powered_sales_d.Store.Rows.{get_message}
use shiku_ai_powered_sales_d.Store.Distinct.{Distinct, get_message-update}
use shiku_ai_powered_sales_d.Drafts.Replies.{SendResult, Services}
use shiku_ai_powered_sales_d.Drafts.Times.{is_safety_content_block, is_scheduled_send_status}
use shiku_ai_powered_sales_d.Drafts.Send.{Pick, outgoing, pick_sendable}
use shiku_ai_powered_sales_d.Drafts.Finish.{failure_of, send_approved_draft}
use shiku_ai_powered_sales_d.Drafts.Sending.{
  found_pick, messages-send, outcome, row_after_call, row_after_call-KeepsId, row_after_send,
}

-- What `send_approved_draft` may leave of a message that was scheduled or claimed: sent; failed,
-- where the safety check blocked the content; back in review with no schedule, where the attempts
-- are used up; or scheduled again, later than now by the delay and with an attempt left.
abbrev pub IsSettled : Services → ℕ → SendResult → Message → Option Status → Type 0
IsSettled s now res m (some sent) = (res.is_ok ≡ true) × (m.scheduled_send_at ≡ none)
IsSettled s now res m (some failed) =
    (res.is_ok ≡ false) × (is_safety_content_block res.error ≡ true)
IsSettled s now res m (some draft) =
    (res.is_ok ≡ false)
    × (s.max_attempts ≤ m.send_attempts)
    × (m.approved ≡ pending)
    × (m.scheduled_send_at ≡ none)
IsSettled s now res m (some scheduled) =
    (res.is_ok ≡ false)
    × (m.send_attempts < s.max_attempts)
    × (m.scheduled_send_at ≡ some (now + s.retry_delay))
IsSettled s now res m _ = ⊥

row_after_send-IsSettled :
    (s : Services) (actor : Text) (now : ℕ) (p : Pick) (res : SendResult)
    → is_scheduled_send_status p.message.status ≡ true
    → let m = row_after_send s actor now p res p.message in
      IsSettled s now res m m.status
      × (m.scheduled_claimed_at ≡ none)
      × (m.send_attempts ≡ p.message.send_attempts + 1)
unfolding row_after_send failure_of
row_after_send-IsSettled s actor now p res h = elim (Bool-cases res.is_ok) [
  | inl e ↦ simp e ((refl, refl), refl, refl)
  | inr e ↦ simp e (ground arith)
]

-- What a call leaves of a scheduled or claimed message: an exception leaves the status and the claim.
abbrev pub IsLeft : Services → ℕ → Pick → Option SendResult → Message → Type 0
IsLeft s now p none m =
    (m.status ≡ p.message.status)
    × (m.scheduled_claimed_at ≡ p.message.scheduled_claimed_at)
    × (m.approved ≡ p.message.approved)
    × (m.send_attempts ≡ p.message.send_attempts + 1)
IsLeft s now p (some res) m =
    IsSettled s now res m m.status
    × (m.scheduled_claimed_at ≡ none)
    × (m.send_attempts ≡ p.message.send_attempts + 1)

row_after_call-IsLeft :
    (s : Services) (actor : Text) (now : ℕ) (p : Pick) (o : Option SendResult)
    → is_scheduled_send_status p.message.status ≡ true
    → IsLeft s now p o (row_after_call s actor now p o p.message)
row_after_call-IsLeft s actor now p none h = (refl, refl, refl, refl)
row_after_call-IsLeft s actor now p (some res) h = row_after_send-IsSettled s actor now p res h

-- If the identifiers are distinct and the query of a send picks a message that was scheduled or
-- claimed, the message stands in the state after the send with one attempt more. Where
-- `send_plain_email` returns, it has no claim and is settled: sent with no schedule, failed on a
-- safety block, back in review with the attempts used up, or scheduled again after the retry delay
-- with an attempt left. Where it raises, the message keeps its status, its approval and its claim.
pub send_approved_draft-IsLeft :
    (s : Services) (draft_id : ℕ) (actor : Text) (approval : Option ApprovalId) (org : Option ℕ)
    (now : ℕ) (db : Db) (p : Pick)
    → Distinct db.messages
    → pick_sendable draft_id org db ≡ some p
    → is_scheduled_send_status p.message.status ≡ true
    → (m : Message) × (get_message draft_id
          (send_approved_draft s draft_id actor approval org now db).1.messages
        ≡ some m)
      × IsLeft s now p (s.deliver (length db.outbox) (outgoing s p db)) m
send_approved_draft-IsLeft s draft_id actor approval org now db p d e h =
    let o = outcome s draft_id actor approval org now db d p in
    let f = row_after_call s actor now p o in
    (
      f p.message,
      ap (get_message draft_id) (messages-send s draft_id actor approval org now db d p e)
          ∙ get_message-update draft_id f db.messages (row_after_call-KeepsId s actor now p o)
              (found_pick s draft_id actor approval org now db d p e),
      row_after_call-IsLeft s actor now p o h,
    )
