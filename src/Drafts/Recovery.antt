-- ===== src/Drafts/Recovery.antt =====
-- A message whose sending raised is taken up again, services/draft_service.py.
use shiku_ai_powered_sales_d.Prelude.{
  Bool-cases, Option, Text, ap, arith, false, find_row-unread, find_row_holds, if◌then◌else◌, inl,
  inr, leb, length, ltb, none, refl, some, true, update_rows, ℕ, ◌-◌, ◌<◌, ◌∙◌, ◌≡◌, ◌≤◌, ◌⊎◌,
}
use shiku_ai_powered_sales_d.Store.Schema.{
  ApprovalId, Db, Message, draft, pending, scheduled, sending,
}
use shiku_ai_powered_sales_d.Store.Rows.{get_message, in_org, is_approved, is_outbound, with_id}
use shiku_ai_powered_sales_d.Store.Distinct.{Distinct, get_message-update}
use shiku_ai_powered_sales_d.Drafts.Replies.{Services}
use shiku_ai_powered_sales_d.Drafts.Send.{Pick, is_sendable, outgoing, pick_sendable}
use shiku_ai_powered_sales_d.Drafts.Finish.{send_approved_draft}
use shiku_ai_powered_sales_d.Drafts.Sending.{
  found_pick, messages-send, picked_row, row_after_call, row_after_call-KeepsId,
}
use shiku_ai_powered_sales_d.Drafts.Scheduler.{
  at_most, is_exhausted, is_stale, pause, release, sweep,
}
use mathlib.Core.Option

-- Back in review with no schedule, where the attempts are used up, or scheduled with an attempt left.
abbrev pub IsRecovered : Services → Message → Type 0
IsRecovered s m =
    (m.scheduled_claimed_at ≡ none)
    × (((m.status ≡ some draft) × (m.approved ≡ pending) × (s.max_attempts ≤ m.send_attempts))
        ⊎ ((m.status ≡ some scheduled)
            × (is_approved m.approved ≡ true)
            × (m.send_attempts < s.max_attempts)))

-- The two updates on one row.
abbrev swept_row : Services → ℕ → Option ℕ → Message → Message
swept_row s now org m =
    let paused = if is_exhausted s org m then pause s m else m in
    if is_stale s now org paused then release s paused else paused

get_message-sweep :
    (s : Services) (now : ℕ) (org : Option ℕ) (k : ℕ) (db : Db) {m : Message}
    → get_message k db.messages ≡ some m
    → get_message k (sweep s now org db).messages ≡ some (swept_row s now org m)
unfolding sweep
get_message-sweep s now org k db {m} found =
    find_row-unread (with_id k) (is_stale s now org) (release s) _ (λ x. refl)
    ∙ ap (Option.map (λ x. if is_stale s now org x then release s x else x)) (
        find_row-unread (with_id k) (is_exhausted s org) (pause s) db.messages (λ x. refl)
        ∙ ap (Option.map (λ x. if is_exhausted s org x then pause s x else x)) found)

swept_row-IsRecovered :
    (s : Services) (now : ℕ) (org : Option ℕ) (m : Message)
    → is_outbound m.direction ≡ true
    → m.status ≡ some sending
    → is_approved m.approved ≡ true
    → at_most m.scheduled_claimed_at (now - s.claim_timeout) ≡ true
    → in_org org m.organization_id ≡ true
    → IsRecovered s (swept_row s now org m)
swept_row-IsRecovered s now org m out st agreed old own =
    elim (Bool-cases (leb s.max_attempts m.send_attempts)) [
      | inl t ↦
          let exhausted : is_exhausted s org m ≡ true = rw (out, st, agreed, t, own) refl in
          let rested : is_stale s now org (pause s m) ≡ false = ground arith in
          rw (exhausted, rested) (refl, inl (refl, refl, ground arith))
      | inr f ↦
          let left : ltb m.send_attempts s.max_attempts ≡ true = ground arith in
          let fresh : is_exhausted s org m ≡ false = rw (out, st, agreed, f) refl in
          let stale : is_stale s now org m ≡ true = rw (out, st, agreed, left, old, own) refl in
          rw (fresh, stale) (refl, inr (refl, agreed, ground arith))
    ]

-- If `send_plain_email` raises for a message that is claimed, then whatever its number of attempts,
-- the first two updates of a run of the scheduler for its organization, when the claim is older than
-- the timeout, take the message out of SENDING: it is back in review if the attempts are used up, and
-- scheduled with an attempt left otherwise.
pub sweep-send_approved_draft :
    (s : Services) (draft_id : ℕ) (actor : Text) (approval : Option ApprovalId)
    (org run_org : Option ℕ) (now later : ℕ) (db : Db) (p : Pick)
    → Distinct db.messages
    → pick_sendable draft_id org db ≡ some p
    → s.deliver (length db.outbox) (outgoing s p db) ≡ none
    → p.message.status ≡ some sending
    → is_approved p.message.approved ≡ true
    → at_most p.message.scheduled_claimed_at (later - s.claim_timeout) ≡ true
    → in_org run_org p.message.organization_id ≡ true
    → let after = (send_approved_draft s draft_id actor approval org now db).1 in
      (m : Message) × (get_message draft_id (sweep s later run_org after).messages ≡ some m)
      × IsRecovered s m
sweep-send_approved_draft s draft_id actor approval org run_org now later db p d e raises st agreed
      old own =
    let after = (send_approved_draft s draft_id actor approval org now db).1 in
    let left = row_after_call s actor now p none in
    let there : get_message draft_id after.messages ≡ some (left p.message) =
      ap (get_message draft_id) (messages-send s draft_id actor approval org now db d p e)
      ∙ ap
          (λ o.
            get_message draft_id
              (update_rows (with_id draft_id) (row_after_call s actor now p o) db.messages))
          raises
      ∙ get_message-update draft_id left db.messages (row_after_call-KeepsId s actor now p none)
          (found_pick s draft_id actor approval org now db d p e) in
    let sendable : is_sendable draft_id org p.message ≡ true =
      find_row_holds (is_sendable draft_id org) db.messages (picked_row s draft_id org db p e) in
    (
      swept_row s later run_org (left p.message),
      get_message-sweep s later run_org draft_id after there,
      swept_row-IsRecovered s later run_org (left p.message) (ground arith) st agreed old own,
    )
