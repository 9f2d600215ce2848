-- ===== src/Drafts/Lifecycle.antt =====
-- The life of a message under services/draft_service.py: what its status says of its other columns,
-- and which statuses are final.
use shiku_ai_powered_sales_d.Prelude.{
  All, All-find_row, All-select, All-update_rows, Bool, Bool-cases, List, Option, Text, arith,
  false, inl, inr, none, refl, some, true, update_rows, ℕ, ◌+◌, ◌≡◌,
}
use shiku_ai_powered_sales_d.Store.Schema.{
  Db, Message, Status, approved, declined, draft, pending, rejected, scheduled, sending, sent,
}
use shiku_ai_powered_sales_d.Store.Rows.{get_message, is_missing, with_id}
use shiku_ai_powered_sales_d.Store.Distinct.{
  All-update_found, Distinct, Distinct-select, Distinct-update_rows, KeepsId,
}
use shiku_ai_powered_sales_d.Drafts.Replies.{SendResult, Services}
use shiku_ai_powered_sales_d.Drafts.Send.{Pick, count_attempt, subject_of}
use shiku_ai_powered_sales_d.Drafts.Finish.{failure_of, mark_failed}
use shiku_ai_powered_sales_d.Drafts.Sending.{row_after_call, row_after_call-KeepsId, row_after_send}
use shiku_ai_powered_sales_d.Drafts.Review.{mark_rejected, mark_scheduled}
use shiku_ai_powered_sales_d.Drafts.Edit.{edit_content, reschedule, to_review}
use shiku_ai_powered_sales_d.Drafts.Scheduler.{
  claim, is_claimable, is_exhausted, is_stale, pause, release,
}
use shiku_ai_powered_sales_d.Drafts.Requests.{Request, serve_all}
use shiku_ai_powered_sales_d.Drafts.Invariants.{Keeps}
use shiku_ai_powered_sales_d.Drafts.Histories.{serve_all-keeps}

abbrev pub IsPresent {ℓ} : {A : Type ℓ} → Option A → Type 0
IsPresent o = is_missing o ≡ false

abbrev pub Agrees : Option Status → Message → Type 0
Agrees (some draft) m = (m.approved ≡ pending) × (m.scheduled_send_at ≡ none)
Agrees (some scheduled) m =
    (m.approved ≡ approved) × IsPresent m.approved_by × IsPresent m.scheduled_send_at
Agrees (some sending) m =
    (m.approved ≡ approved)
    × IsPresent m.approved_by
    × IsPresent m.scheduled_send_at
    × IsPresent m.scheduled_claimed_at
Agrees (some sent) m = (m.approved ≡ approved) × IsPresent m.sent_at
Agrees (some rejected) m = (m.approved ≡ declined) × IsPresent m.approved_by
Agrees _ m = Unit {0}

-- The status of a row agrees with its other columns.
abbrev pub IsConsistent : Message → Type 0
IsConsistent m = Agrees m.status m

abbrev pub IsSound : List Message → Type 0
IsSound ms = Distinct ms × All IsConsistent ms

found-IsConsistent :
    (ms : List Message) (k : ℕ) {m : Message}
    → All IsConsistent ms
    → get_message k ms ≡ some m
    → IsConsistent m
found-IsConsistent ms k h f = All-find_row IsConsistent (with_id k) ms h f

pause-KeepsId : (s : Services) → KeepsId (pause s)
pause-KeepsId s m = refl

update-IsSound :
    (ms : List Message) (k : ℕ) (f : Message → Message) {m : Message}
    → KeepsId f
    → IsSound ms
    → get_message k ms ≡ some m
    → (IsConsistent m → IsConsistent (f m))
    → IsSound (update_rows (with_id k) f ms)
update-IsSound ms k f keep h found step = (
  Distinct-update_rows (with_id k) f ms keep h.0,
  All-update_found IsConsistent k f ms h.0 h.1 found (step (found-IsConsistent ms k h.1 found)),
)

where-IsSound :
    (ms : List Message) (q : Message → Bool) (f : Message → Message)
    → KeepsId f
    → IsSound ms
    → ((m : Message) → IsConsistent m → q m ≡ true → IsConsistent (f m))
    → IsSound (update_rows q f ms)
where-IsSound ms q f keep h step =
    (Distinct-update_rows q f ms keep h.0, All-update_rows IsConsistent q f ms step h.1)

count_attempt-IsConsistent :
    (subject : Text) (m : Message) → IsConsistent m → IsConsistent (count_attempt subject m)
count_attempt-IsConsistent subject m h = ground arith

mark_failed-IsConsistent :
    (s : Services) (attempts now : ℕ) (error : Option Text) (m : Message)
    → IsConsistent m
    → IsConsistent (mark_failed s (failure_of s m.status attempts error) now error m)
unfolding failure_of
mark_failed-IsConsistent s attempts now error m h = ground arith

row_after_send-IsConsistent :
    (s : Services) (actor : Text) (now : ℕ) (p : Pick) (res : SendResult)
    → IsConsistent p.message
    → IsConsistent (row_after_send s actor now p res p.message)
unfolding row_after_send
row_after_send-IsConsistent s actor now p res h = elim (Bool-cases res.is_ok) [
  | inl e ↦ simp e (refl, refl)
  | inr e ↦ simp e (
      mark_failed-IsConsistent s (p.message.send_attempts + 1) now res.error
        (count_attempt (subject_of s p) p.message)
        (count_attempt-IsConsistent (subject_of s p) p.message h))
]

row_after_call-IsConsistent :
    (s : Services) (actor : Text) (now : ℕ) (p : Pick) (o : Option SendResult)
    → IsConsistent p.message
    → IsConsistent (row_after_call s actor now p o p.message)
row_after_call-IsConsistent s actor now p none h =
    count_attempt-IsConsistent (subject_of s p) p.message h
row_after_call-IsConsistent s actor now p (some res) h =
    row_after_send-IsConsistent s actor now p res h

-- Each update keeps the identifiers distinct and every row consistent.
pub IsSound-Keeps : (s : Services) → Keeps s IsSound
IsSound-Keeps s = record {
  distinct = λ ms h. h.0;
  sends = λ ms k org p actor now res h f q.
      update-IsSound ms k (row_after_call s actor now p res)
        (row_after_call-KeepsId s actor now p res) h f
        (row_after_call-IsConsistent s actor now p res);
  schedules = λ ms k org m actor now time h f q.
      update-IsSound ms k (mark_scheduled actor now time) (λ x. refl) h f (λ c. (refl, refl, refl));
  rejects = λ ms k org m actor now h f q.
      update-IsSound ms k (mark_rejected actor now) (λ x. refl) h f (λ c. (refl, refl));
  edits = λ ms k org m subject body h f q.
      update-IsSound ms k (edit_content subject body) (λ x. refl) h f (λ c. ground arith);
  reschedules = λ ms k org m subject body time h f q.
      update-IsSound ms k (reschedule subject body time) (λ x. refl) h f (λ c. ground arith);
  returns = λ ms k org m h f q. update-IsSound ms k to_review (λ x. refl) h f (λ c. (refl, refl));
  deletes = λ ms k org m h f q. (Distinct-select _ ms h.0, All-select IsConsistent _ ms h.1);
  pauses = λ ms org h.
      where-IsSound ms (is_exhausted s org) (pause s) (pause-KeepsId s) h (λ m c q. (refl, refl));
  releases = λ ms now org h.
      where-IsSound ms (is_stale s now org) (release s) (λ x. refl) h (λ m c q. ground arith);
  claims = λ ms k now h.
      where-IsSound ms (is_claimable k) (claim now) (λ x. refl) h (λ m c q. ground arith);
}

-- From a table whose identifiers are distinct and whose rows are consistent, every history of
-- requests, whatever the mail provider answers, leads to such a table.
pub serve_all-IsSound :
    (s : Services) (rs : List (ℕ × Request)) (db : Db)
    → IsSound db.messages
    → IsSound (serve_all s rs db).messages
serve_all-IsSound s rs db h = serve_all-keeps s IsSound (IsSound-Keeps s) rs db h
