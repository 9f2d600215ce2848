-- ===== src/Drafts/Invariants.antt =====
-- An induction rule for histories: a property of the messages that each update of
-- services/draft_service.py keeps, at the rows at which it makes the update, holds ever after.
use shiku_ai_powered_sales_d.Prelude.{
  Bool, Bool-cases, List, Option, Option-cases, Text, [], arith, delete_rows, false, find_row,
  find_row_holds, if◌then◌else◌, inl, inr, ltb, none, refl, some, true, update_rows, ℕ, ◌∷◌, ◌≡◌,
}
use shiku_ai_powered_sales_d.Store.Schema.{ApprovalId, Db, Message}
use shiku_ai_powered_sales_d.Store.Rows.{get_message, log_draft_event, with_id}
use shiku_ai_powered_sales_d.Store.Distinct.{Distinct, get_message-find_row}
use shiku_ai_powered_sales_d.Drafts.Replies.{
  Reply, SendResult, Services, is_raised, new_approval_id, schedule_not_in_future, validation_error,
}
use shiku_ai_powered_sales_d.Drafts.Times.{
  Parsed, absent, at, malformed, schedule_at, schedule_was_requested,
}
use shiku_ai_powered_sales_d.Drafts.Send.{Pick, is_sendable, join_leads, pick_sendable}
use shiku_ai_powered_sales_d.Drafts.Finish.{send_approved_draft}
use shiku_ai_powered_sales_d.Drafts.Sending.{
  found_pick, messages-send, picked_row, row_after_call, send-not_found,
}
use shiku_ai_powered_sales_d.Drafts.Review.{
  approve_pick, for_each, is_reviewable, mark_rejected, mark_scheduled, pick_reviewable,
  process_single_draft_approval, reject_draft, review_pick, schedule_draft,
}
use shiku_ai_powered_sales_d.Drafts.Edit.{
  edit_content, is_deletable, is_pending_draft, is_scheduled_row, reschedule, to_review,
}
use shiku_ai_powered_sales_d.Drafts.Scheduler.{
  claim, is_claimable, is_exhausted, is_stale, pause, release,
}
use mathlib.Core.Path.{subst}

pub record Keeps (s : Services) (I : List Message → Type 0) : Type 0 where
  pub distinct : (ms : List Message) → I ms → Distinct ms
  pub sends :
      (ms : List Message) (k : ℕ) (org : Option ℕ) (p : Pick) (actor : Text) (now : ℕ)
      (res : Option SendResult)
      → I ms
      → get_message k ms ≡ some p.message
      → is_sendable k org p.message ≡ true
      → I (update_rows (with_id k) (row_after_call s actor now p res) ms)
  pub schedules :
      (ms : List Message) (k : ℕ) (org : Option ℕ) (m : Message) (actor : Text) (now time : ℕ)
      → I ms
      → get_message k ms ≡ some m
      → is_reviewable k org m ≡ true
      → I (update_rows (with_id k) (mark_scheduled actor now time) ms)
  pub rejects :
      (ms : List Message) (k : ℕ) (org : Option ℕ) (m : Message) (actor : Text) (now : ℕ)
      → I ms
      → get_message k ms ≡ some m
      → is_reviewable k org m ≡ true
      → I (update_rows (with_id k) (mark_rejected actor now) ms)
  pub edits :
      (ms : List Message) (k : ℕ) (org : Option ℕ) (m : Message) (subject body : Text)
      → I ms
      → get_message k ms ≡ some m
      → is_pending_draft k org m ≡ true
      → I (update_rows (with_id k) (edit_content subject body) ms)
  pub reschedules :
      (ms : List Message) (k : ℕ) (org : Option ℕ) (m : Message) (subject body : Text) (time : ℕ)
      → I ms
      → get_message k ms ≡ some m
      → is_scheduled_row k org m ≡ true
      → I (update_rows (with_id k) (reschedule subject body time) ms)
  pub returns :
      (ms : List Message) (k : ℕ) (org : Option ℕ) (m : Message)
      → I ms
      → get_message k ms ≡ some m
      → is_scheduled_row k org m ≡ true
      → I (update_rows (with_id k) to_review ms)
  pub deletes :
      (ms : List Message) (k : ℕ) (org : Option ℕ) (m : Message)
      → I ms
      → get_message k ms ≡ some m
      → is_deletable k org m ≡ true
      → I (delete_rows (with_id k) ms)
  pub pauses :
      (ms : List Message) (org : Option ℕ)
      → I ms
      → I (update_rows (is_exhausted s org) (pause s) ms)
  pub releases :
      (ms : List Message) (now : ℕ) (org : Option ℕ)
      → I ms
      → I (update_rows (is_stale s now org) (release s) ms)
  pub claims :
      (ms : List Message) (k now : ℕ) → I ms → I (update_rows (is_claimable k) (claim now) ms)

-- A loop over requests keeps what each of them keeps.
pub for_each-keeps :
    (J : Db → Type 0) (step : ℕ → Db → Reply × Db)
    → ((k : ℕ) (db : Db) → J db → J (step k db).1)
    → (ks : List ℕ) (db : Db) → J db
    → J (for_each step ks db).1
unfolding for_each
for_each-keeps J step keep [] db h = h
for_each-keeps J step keep (k ∷ ks) db h = elim (Bool-cases (is_raised (step k db).0)) [
  | inl t ↦ rw t (keep k db h)
  | inr f ↦ rw f (for_each-keeps J step keep ks (step k db).1 (keep k db h))
]

module _ (s : Services) (I : List Message → Type 0) (keeps : Keeps s I) where
  pub send-keeps :
      (k : ℕ) (actor : Text) (approval : Option ApprovalId) (org : Option ℕ) (now : ℕ) (db : Db)
      → I db.messages
      → I (send_approved_draft s k actor approval org now db).1.messages
  send-keeps k actor approval org now db h = elim (Option-cases (pick_sendable k org db)) [
    | inl e ↦ rw (send-not_found s k actor approval org now db d e) h
    | inr (p, e) ↦ rw (messages-send s k actor approval org now db d p e) (
        keeps.sends db.messages k org p actor now _ h
          (found_pick s k actor approval org now db d p e)
          (find_row_holds (is_sendable k org) db.messages (picked_row s k org db p e)))
  ]
    where
      d : Distinct db.messages
      d = keeps.distinct db.messages h

  -- The row that review picks.
  pub reviewed_row :
      (k : ℕ) (org : Option ℕ) (db : Db) (p : Pick)
      → Distinct db.messages
      → pick_reviewable k org db ≡ some p
      → (get_message k db.messages ≡ some p.message) × (is_reviewable k org p.message ≡ true)
  unfolding pick_reviewable
  reviewed_row k org db p d e = go (find_row (is_reviewable k org) db.messages) refl e
    where
      found :
          (m : Message)
          → find_row (is_reviewable k org) db.messages ≡ some m
          → (get_message k db.messages ≡ some m) × (is_reviewable k org m ≡ true)
      found m q = (
        get_message-find_row k (is_reviewable k org) db.messages d q (λ x t. ground arith),
        find_row_holds (is_reviewable k org) db.messages q,
      )

      go :
          (o : Option Message)
          → find_row (is_reviewable k org) db.messages ≡ o
          → join_leads db.leads o ≡ some p
          → (get_message k db.messages ≡ some p.message) × (is_reviewable k org p.message ≡ true)
      go none q j = absurd (cc)
      go (some m) q j =
          let same : m ≡ p.message = ground arith in
          subst (λ y. (get_message k db.messages ≡ some y) × (is_reviewable k org y ≡ true)) same
            (found m q)

  approve_pick-keeps :
      (k : ℕ) (actor : Text) (approval : ApprovalId) (value : Option Text) (org : Option ℕ)
      (now : ℕ) (time : Parsed) (m : Message) (db : Db)
      → I db.messages
      → get_message k db.messages ≡ some m
      → is_reviewable k org m ≡ true
      → I (approve_pick s actor now k approval value org time db).1.messages
  unfolding approve_pick schedule_draft log_draft_event
  approve_pick-keeps k actor approval value org now malformed m db h f r = h
  approve_pick-keeps k actor approval value org now absent m db h f r =
      elim (Bool-cases (schedule_was_requested value)) [
        | inl t ↦ rw t h
        | inr n ↦ rw n (send-keeps k actor (some approval) org now db h)
      ]
  approve_pick-keeps k actor approval value org now (at time) m db h f r =
      elim (Bool-cases (schedule_was_requested value)) [
        | inl t ↦ rw t (future time)
        | inr n ↦ rw n (send-keeps k actor (some approval) org now db h)
      ]
    where
      future :
          (time : ℕ)
          → I
              (if ltb now time
                then schedule_draft s actor now k approval time db
                else (validation_error schedule_not_in_future, db)).1.messages
      future time = elim (Bool-cases (ltb now time)) [
        | inl t ↦ rw t (keeps.schedules db.messages k org m actor now time h f r)
        | inr n ↦ rw n h
      ]

  pub review-keeps :
      (k : ℕ) (yes_or_no : Bool) (actor : Text) (value : Option Text) (org : Option ℕ) (now : ℕ)
      (db : Db)
      → I db.messages
      → I (process_single_draft_approval s actor now k yes_or_no value org db).1.messages
  unfolding process_single_draft_approval reject_draft log_draft_event
  review-keeps k yes_or_no actor value org now db h =
      elim (Option-cases (pick_reviewable k org db)) [
        | inl e ↦ rw e h
        | inr (p, e) ↦
            rw e (picked yes_or_no p (reviewed_row k org db p (keeps.distinct db.messages h) e))
      ]
    where
      picked :
          (yes_or_no : Bool) (p : Pick)
          → (get_message k db.messages ≡ some p.message) × (is_reviewable k org p.message ≡ true)
          → I (review_pick s actor now k yes_or_no value org (some p) db).1.messages
      picked true p (f, r) =
          approve_pick-keeps k actor (new_approval_id s k actor now db) value org now
            (schedule_at s.parse_iso value) p.message db h f r
      picked false p (f, r) = keeps.rejects db.messages k org p.message actor now h f r
