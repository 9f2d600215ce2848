-- ===== src/Drafts/Sending.antt =====
-- What `send_approved_draft` does to the table of messages: one update of the row that it picked.
use shiku_ai_powered_sales_d.Prelude.{
  ==_iff, Bool-cases, Option, Text, ap, arith, false, find_row, find_row_holds, if◌then◌else◌, inl,
  inr, length, none, refl, some, sym, true, update_rows, ℕ, ◌+◌, ◌==◌, ◌∙◌, ◌≡◌,
}
use shiku_ai_powered_sales_d.Store.Schema.{ApprovalId, Db, EventKind, Message}
use shiku_ai_powered_sales_d.Store.Rows.{get_message, log_draft_event, with_id}
use shiku_ai_powered_sales_d.Store.Distinct.{
  Distinct, KeepsId, get_message-find_row, get_message-update, update_rows_twice,
}
use shiku_ai_powered_sales_d.Drafts.Replies.{Reply, SendResult, Services, new_approval_id}
use shiku_ai_powered_sales_d.Drafts.Send.{
  Pick, begin_send, count_attempt, is_sendable, join_leads, outgoing, pick_sendable,
  record_outbound, subject_of, touch_sequence, update_lead_touch,
}
use shiku_ai_powered_sales_d.Drafts.Finish.{
  Failure, after_call, attempts_of, blocked, failure_of, finish_failed, finish_send, finish_sent,
  kept, mark_failed, mark_sent, or_new_approval, paused, retried, send_approved_draft,
}
use mathlib.Core.Path.{fun_ext, subst}

pub messages-record_outbound :
    (s : Services) (org : ℕ) (campaign : Option ℕ) (lead : ℕ) (subject body : Text) (now : ℕ)
    (db : Db)
    → (record_outbound s org campaign lead subject body now db).messages ≡ db.messages
unfolding record_outbound
messages-record_outbound s org none lead subject body now db = refl
messages-record_outbound s org (some campaign) lead subject body now db = ground arith

pub messages-touch_sequence :
    (m : Message) (now : ℕ) (db : Db) → (touch_sequence m now db).messages ≡ db.messages
unfolding update_lead_touch
messages-touch_sequence m now db = ground arith

pub messages-log_draft_event :
    (kind : EventKind) (k : ℕ) (actor : Text) (approval : Option ApprovalId) (db : Db)
    → (log_draft_event kind k actor approval db).messages ≡ db.messages
unfolding log_draft_event
messages-log_draft_event kind k actor approval db = refl

-- What the picked row becomes: sent, or one of the four outcomes of a failure.
unfoldable pub row_after_send : Services → Text → ℕ → Pick → SendResult → Message → Message
row_after_send s actor now p res m =
    if res.is_ok
    then mark_sent actor now res (count_attempt (subject_of s p) m)
    else mark_failed s (failure_of s p.message.status (p.message.send_attempts + 1) res.error) now
        res.error (count_attempt (subject_of s p) m)

-- What the row becomes in the whole call: an exception leaves the attempt counted.
abbrev pub row_after_call : Services → Text → ℕ → Pick → Option SendResult → Message → Message
row_after_call s actor now p none = count_attempt (subject_of s p)
row_after_call s actor now p (some res) = row_after_send s actor now p res

pub mark_failed-KeepsId :
    (s : Services) (f : Failure) (now : ℕ) (error : Option Text)
    → KeepsId (mark_failed s f now error)
mark_failed-KeepsId s blocked now error m = refl
mark_failed-KeepsId s retried now error m = refl
mark_failed-KeepsId s kept now error m = refl
mark_failed-KeepsId s (paused n) now error m = refl

pub row_after_send-KeepsId :
    (s : Services) (actor : Text) (now : ℕ) (p : Pick) (res : SendResult)
    → KeepsId (row_after_send s actor now p res)
unfolding row_after_send
row_after_send-KeepsId s actor now p res m = ground (
  arith,
  mark_failed-KeepsId s (failure_of s p.message.status (p.message.send_attempts + 1) res.error) now
      res.error (count_attempt (subject_of s p) m),
)

module _ (s : Services) (actor : Text) (approval : ApprovalId) (now : ℕ) (p : Pick)
    (res : SendResult) (db : Db) where
  messages-finish_sent :
      (finish_sent s actor approval now p res db).1.messages
      ≡ update_rows (with_id p.message.id) (mark_sent actor now res) db.messages
  unfolding finish_sent
  messages-finish_sent =
      simp (messages-touch_sequence, messages-log_draft_event, messages-record_outbound)

  messages-finish_failed :
      (attempts : ℕ)
      → attempts_of (get_message p.message.id db.messages) ≡ attempts
      → (finish_failed s actor approval now p res db).1.messages
        ≡ update_rows
            (with_id p.message.id)
            (mark_failed s (failure_of s p.message.status attempts res.error) now res.error)
            db.messages
  unfolding finish_failed
  messages-finish_failed attempts e = rw messages-log_draft_event (rw e)

module _ (s : Services) (draft_id : ℕ) (org : Option ℕ) (db : Db) where
  -- The row that the query picks has the identifier that was asked for, and is sendable.
  pub picked_row :
      (p : Pick)
      → pick_sendable draft_id org db ≡ some p
      → find_row (is_sendable draft_id org) db.messages ≡ some p.message
  unfolding pick_sendable
  picked_row p e = go (find_row (is_sendable draft_id org) db.messages) refl e
    where
      go :
          (o : Option Message)
          → find_row (is_sendable draft_id org) db.messages ≡ o
          → join_leads db.leads o ≡ some p
          → find_row (is_sendable draft_id org) db.messages ≡ some p.message
      go none q j = absurd (cc)
      go (some m) q j = ground arith

count_attempt-KeepsId : (subject : Text) → KeepsId (count_attempt subject)
count_attempt-KeepsId subject m = refl

module _ (s : Services) (actor : Text) (approval : ApprovalId) (now : ℕ) (p : Pick)
    (res : SendResult) (db : Db)
    (found : get_message p.message.id db.messages ≡ some p.message) where
  attempts_after_begin :
      attempts_of (get_message p.message.id (begin_send s p db).messages)
      ≡ p.message.send_attempts + 1
  unfolding begin_send
  attempts_after_begin = rw (
      get_message-update p.message.id (count_attempt (subject_of s p)) db.messages
        (count_attempt-KeepsId (subject_of s p)) found)

  unfolds_sent :
      res.is_ok ≡ true
      → finish_send s actor approval now p res (begin_send s p db)
        ≡ finish_sent s actor approval now p res (begin_send s p db)
  unfolding finish_send
  unfolds_sent e = simp e

  unfolds_failed :
      res.is_ok ≡ false
      → finish_send s actor approval now p res (begin_send s p db)
        ≡ finish_failed s actor approval now p res (begin_send s p db)
  unfolding finish_send
  unfolds_failed e = simp e

  row_sent :
      res.is_ok ≡ true
      → (m : Message)
      → mark_sent actor now res (count_attempt (subject_of s p) m)
        ≡ row_after_send s actor now p res m
  unfolding row_after_send
  row_sent e m = simp e

  row_failed :
      res.is_ok ≡ false
      → (m : Message)
      → mark_failed s
          (failure_of s p.message.status (p.message.send_attempts + 1) res.error)
          now
          res.error
          (count_attempt (subject_of s p) m)
        ≡ row_after_send s actor now p res m
  unfolding row_after_send
  row_failed e m = simp e

  -- An update after the one before the call.
  update_after_begin :
      (g : Message → Message)
      → ((m : Message) → g (count_attempt (subject_of s p) m) ≡ row_after_send s actor now p res m)
      → update_rows (with_id p.message.id) g (begin_send s p db).messages
        ≡ update_rows (with_id p.message.id) (row_after_send s actor now p res) db.messages
  unfolding begin_send
  update_after_begin g same =
      update_rows_twice p.message.id (count_attempt (subject_of s p)) g db.messages
        (count_attempt-KeepsId (subject_of s p))
      ∙ ap (λ h. update_rows (with_id p.message.id) h db.messages) (fun_ext same)

  -- The whole call is one update of the picked row.
  pub messages-finish_send :
      (finish_send s actor approval now p res (begin_send s p db)).1.messages
      ≡ update_rows (with_id p.message.id) (row_after_send s actor now p res) db.messages
  messages-finish_send = elim (Bool-cases res.is_ok) [
    | inl e ↦
        ap (λ (r : Reply × Db). r.1.messages) (unfolds_sent e)
        ∙ messages-finish_sent s actor approval now p res (begin_send s p db)
        ∙ update_after_begin (mark_sent actor now res) (row_sent e)
    | inr e ↦
        ap (λ (r : Reply × Db). r.1.messages) (unfolds_failed e)
        ∙ messages-finish_failed s actor approval now p res (begin_send s p db)
            (p.message.send_attempts + 1) attempts_after_begin
        ∙ update_after_begin _ (row_failed e)
  ]

pub row_after_call-KeepsId :
    (s : Services) (actor : Text) (now : ℕ) (p : Pick) (o : Option SendResult)
    → KeepsId (row_after_call s actor now p o)
row_after_call-KeepsId s actor now p none = count_attempt-KeepsId (subject_of s p)
row_after_call-KeepsId s actor now p (some res) = row_after_send-KeepsId s actor now p res

messages-after_call :
    (s : Services) (actor : Text) (approval : ApprovalId) (now : ℕ) (p : Pick)
    (o : Option SendResult) (db : Db)
    → get_message p.message.id db.messages ≡ some p.message
    → (after_call s actor approval now p o (begin_send s p db)).1.messages
      ≡ update_rows (with_id p.message.id) (row_after_call s actor now p o) db.messages
unfolding begin_send
messages-after_call s actor approval now p none db found = refl
messages-after_call s actor approval now p (some res) db found =
    messages-finish_send s actor approval now p res db found

pub sendable_fixes :
    (k : ℕ) (org : Option ℕ) (m : Message) → is_sendable k org m ≡ true → (m.id == k) ≡ true
sendable_fixes k org m h = ground arith

module _ (s : Services) (draft_id : ℕ) (actor : Text) (approval : Option ApprovalId)
    (org : Option ℕ) (now : ℕ) (db : Db) (distinct : Distinct db.messages) where
  pub found_pick :
      (p : Pick)
      → pick_sendable draft_id org db ≡ some p
      → get_message draft_id db.messages ≡ some p.message
  found_pick p e =
      get_message-find_row draft_id (is_sendable draft_id org) db.messages distinct
        (picked_row s draft_id org db p e) (sendable_fixes draft_id org)

  pub id_of_pick : (p : Pick) → pick_sendable draft_id org db ≡ some p → p.message.id ≡ draft_id
  id_of_pick p e =
      (==_iff p.message.id draft_id).0
        (find_row_holds (with_id draft_id) db.messages (found_pick p e))

  -- The outcome of `send_plain_email` in this call.
  abbrev pub outcome : Pick → Option SendResult
  outcome p = s.deliver (length db.outbox) (outgoing s p db)

  pub messages-send :
      (p : Pick)
      → pick_sendable draft_id org db ≡ some p
      → (send_approved_draft s draft_id actor approval org now db).1.messages
        ≡ update_rows (with_id draft_id) (row_after_call s actor now p (outcome p)) db.messages
  unfolding send_approved_draft
  messages-send p e = simp e (
      messages-after_call s actor
        (or_new_approval approval (new_approval_id s draft_id actor now db)) now p (outcome p) db
        (subst (λ k. get_message k db.messages ≡ some p.message) (sym (id_of_pick p e))
          (found_pick p e))
      ∙ ap (λ k. update_rows (with_id k) (row_after_call s actor now p (outcome p)) db.messages)
          (id_of_pick p e))

  pub send-not_found :
      pick_sendable draft_id org db ≡ none
      → send_approved_draft s draft_id actor approval org now db ≡ (Reply.not_found, db)
  unfolding send_approved_draft
  send-not_found e = rw e
