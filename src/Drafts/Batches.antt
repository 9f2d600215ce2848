-- ===== src/Drafts/Batches.antt =====
-- The summary of `batch_approve_drafts` against its results.
use shiku_ai_powered_sales_d.Prelude.{
  All, Bool, Bool-cases, List, Option, Text, [], any, ap, arith, count_rows, false, inl, inr,
  is_empty, length, ltb, none, refl, some, sorted_set, suc, true, ℕ, ◌+◌, ◌∙◌, ◌∷◌, ◌≡◌,
}
use shiku_ai_powered_sales_d.Store.Schema.{ApprovalId, Db, Outgoing}
use shiku_ai_powered_sales_d.Drafts.Replies.{
  Reply, SendResult, Services, approved_scheduled, approved_sent, attachment_deleted,
  attachment_not_found, attachments_added, deleted, is_approved_scheduled, is_approved_sent,
  is_not_found, is_raised, is_rejected, is_send_failed, is_validation_error, not_found,
  permission_denied, raised, schedule_updated, send_failed, updated, validation_error,
}
use shiku_ai_powered_sales_d.Drafts.Times.{
  Parsed, absent, at, malformed, schedule_at, schedule_was_requested,
}
use shiku_ai_powered_sales_d.Drafts.Send.{Pick, begin_send, pick_sendable}
use shiku_ai_powered_sales_d.Drafts.Finish.{
  after_call, finish_failed, finish_send, finish_sent, send_approved_draft, send_pick,
}
use shiku_ai_powered_sales_d.Drafts.Review.{
  ApproveSummary, BatchReply, approve_pick, approve_summary, batch_approve_drafts, for_each,
  interrupted, is_nil, pick_reviewable, process_single_draft_approval, reject_draft, review_pick,
  schedule_draft, success,
}

-- Some call of `send_plain_email` raises.
abbrev pub Raises : Services → Type 0
Raises s = (n : ℕ) × (o : Outgoing) × (s.deliver n o ≡ none)

-- The six outcomes of one review, and the exception of `send_plain_email`.
abbrev IsReviewed : Services → Reply → Type 0
IsReviewed s (approved_sent _ _) = Unit {0}
IsReviewed s (approved_scheduled _ _) = Unit {0}
IsReviewed s (Reply.rejected _) = Unit {0}
IsReviewed s not_found = Unit {0}
IsReviewed s raised = Raises s
IsReviewed s (send_failed _ _) = Unit {0}
IsReviewed s (validation_error _) = Unit {0}
IsReviewed s _ = ⊥

finish_send-IsReviewed :
    (s : Services) (actor : Text) (approval : ApprovalId) (now : ℕ) (p : Pick) (res : SendResult)
    (db : Db)
    → IsReviewed s (finish_send s actor approval now p res db).0
unfolding finish_send finish_sent finish_failed
finish_send-IsReviewed s actor approval now p res db = elim (Bool-cases res.is_ok) [
  | inl e ↦ simp e tt
  | inr e ↦ simp e tt
]

after_call-IsReviewed :
    (s : Services) (actor : Text) (approval : ApprovalId) (now : ℕ) (p : Pick) (n : ℕ)
    (x : Outgoing) (o : Option SendResult) (db : Db)
    → s.deliver n x ≡ o
    → IsReviewed s (after_call s actor approval now p o db).0
after_call-IsReviewed s actor approval now p n x none db e = (n, x, e)
after_call-IsReviewed s actor approval now p n x (some res) db e =
    finish_send-IsReviewed s actor approval now p res db

module _ (s : Services) (actor : Text) (now : ℕ) where
  send-IsReviewed :
      (k : ℕ) (approval : Option ApprovalId) (org : Option ℕ) (db : Db)
      → IsReviewed s (send_approved_draft s k actor approval org now db).0
  unfolding send_approved_draft
  send-IsReviewed k approval org db = go (pick_sendable k org db)
    where
      go : (o : Option Pick) → IsReviewed s (send_pick s actor approval now k o db).0
      go none = tt
      go (some p) = after_call-IsReviewed s actor _ now p _ _ _ (begin_send s p db) refl

  approve-IsReviewed :
      (k : ℕ) (approval : ApprovalId) (value : Option Text) (org : Option ℕ) (t : Parsed) (db : Db)
      → IsReviewed s (approve_pick s actor now k approval value org t db).0
  unfolding schedule_draft approve_pick
  approve-IsReviewed k approval value org malformed db = tt
  approve-IsReviewed k approval value org absent db =
      elim (Bool-cases (schedule_was_requested value)) [
        | inl e ↦ simp e tt
        | inr e ↦ simp e (send-IsReviewed k (some approval) org db)
      ]
  approve-IsReviewed k approval value org (at time) db =
      elim (Bool-cases (schedule_was_requested value)) [
        | inl e ↦ elim (Bool-cases (ltb now time)) [
          | inl f ↦ simp (e, f) tt
          | inr f ↦ simp (e, f) tt
        ]
        | inr e ↦ simp e (send-IsReviewed k (some approval) org db)
      ]

  process-IsReviewed :
      (k : ℕ) (yes_or_no : Bool) (value : Option Text) (org : Option ℕ) (db : Db)
      → IsReviewed s (process_single_draft_approval s actor now k yes_or_no value org db).0
  unfolding process_single_draft_approval reject_draft
  process-IsReviewed k yes_or_no value org db = go yes_or_no (pick_reviewable k org db)
    where
      go :
          (yes_or_no : Bool) (o : Option Pick)
          → IsReviewed s (review_pick s actor now k yes_or_no value org o db).0
      go yes_or_no none = tt
      go true (some p) = approve-IsReviewed k _ value org (schedule_at s.parse_iso value) db
      go false (some p) = tt

for_each-All :
    (P : Reply → Type 0) (step : ℕ → Db → Reply × Db)
    → ((k : ℕ) (db : Db) → P (step k db).0)
    → (ids : List ℕ) (db : Db)
    → All P (for_each step ids db).0
      × (any is_raised (for_each step ids db).0 ≡ false
          → length (for_each step ids db).0 ≡ length ids)
unfolding for_each
for_each-All P step h [] db = (tt, λ n. refl)
for_each-All P step h (k ∷ ids) db =
    let rest = for_each-All P step h ids (step k db).1 in
    elim (Bool-cases (is_raised (step k db).0)) [
      | inl t ↦ rw t ((h k db, tt), λ n. absurd (ground arith))
      | inr f ↦ rw f ((h k db, rest.0), λ n. ap suc (rest.1 (rw f at n)))
    ]

-- Where a result is an exception, a call raises.
raised-Raises :
    (s : Services) (rs : List Reply) → All (IsReviewed s) rs → any is_raised rs ≡ true → Raises s
raised-Raises s [] h e = absurd (cc)
raised-Raises s (raised ∷ rs) h e = h.0
raised-Raises s (r ∷ rs) h e = raised-Raises s rs h.1 (ground arith)

-- The counts of the summary and of the results that it leaves out.
abbrev sum_of_counts : List Reply → ℕ
sum_of_counts rs =
    count_rows is_approved_sent rs
    + count_rows is_approved_scheduled rs
    + count_rows is_rejected rs
    + count_rows is_not_found rs
    + count_rows is_send_failed rs
    + count_rows is_validation_error rs

counts_of_reviewed :
    (s : Services) (rs : List Reply)
    → All (IsReviewed s) rs
    → any is_raised rs ≡ false
    → sum_of_counts rs ≡ length rs
counts_of_reviewed s [] h n = refl
counts_of_reviewed s (approved_sent a m ∷ rs) h n = omega (arith, counts_of_reviewed s rs h.1 n)
counts_of_reviewed s (approved_scheduled a t ∷ rs) h n =
    omega (arith, counts_of_reviewed s rs h.1 n)
counts_of_reviewed s (Reply.rejected a ∷ rs) h n = omega (arith, counts_of_reviewed s rs h.1 n)
counts_of_reviewed s (not_found ∷ rs) h n = omega (arith, counts_of_reviewed s rs h.1 n)
counts_of_reviewed s (send_failed a e ∷ rs) h n = omega (arith, counts_of_reviewed s rs h.1 n)
counts_of_reviewed s (validation_error e ∷ rs) h n = omega (arith, counts_of_reviewed s rs h.1 n)
counts_of_reviewed s (raised ∷ rs) h n = absurd (cc)
counts_of_reviewed s (permission_denied ∷ rs) h n = absurd h.0
counts_of_reviewed s (attachment_not_found ∷ rs) h n = absurd h.0
counts_of_reviewed s (updated ∷ rs) h n = absurd h.0
counts_of_reviewed s (attachment_deleted ∷ rs) h n = absurd h.0
counts_of_reviewed s (Reply.returned_to_review ∷ rs) h n = absurd h.0
counts_of_reviewed s (attachments_added x ∷ rs) h n = absurd h.0
counts_of_reviewed s (schedule_updated x ∷ rs) h n = absurd h.0
counts_of_reviewed s (deleted x ∷ rs) h n = absurd h.0

-- A batch that answers with a summary accounts for its requests, and one that raises raises because
-- a call of `send_plain_email` does.
abbrev pub IsAccounted : Services → BatchReply ApproveSummary → Type 0
IsAccounted s (success m results) =
    (length results ≡ m.requested)
    × (m.approved_sent
          + m.approved_scheduled
          + m.rejected
          + m.not_found
          + m.send_failed
          + count_rows is_validation_error results
        ≡ m.requested)
IsAccounted s interrupted = Raises s
IsAccounted s _ = Unit {0}

-- Where `batch_approve_drafts` answers with a summary, there is one result for each of the requested
-- drafts, and the five counts of the summary together with the number of validation errors among the
-- results, which the summary leaves out, are the number requested. It raises only where a call of
-- `send_plain_email` does.
pub batch_approve_drafts-IsAccounted :
    (s : Services) (ids : List ℕ) (yes_or_no : Bool) (actor : Text) (value : Option Text)
    (org : Option ℕ) (now : ℕ) (db : Db)
    → IsAccounted s (batch_approve_drafts s ids yes_or_no actor value org now db).0
unfolding batch_approve_drafts approve_summary
batch_approve_drafts-IsAccounted s ids yes_or_no actor value org now db =
    let sorted = sorted_set ids in
    let (results, d) =
      for_each (λ k. process_single_draft_approval s actor now k yes_or_no value org) sorted db in
    let (all, n) =
      for_each-All (IsReviewed s)
        (λ k. process_single_draft_approval s actor now k yes_or_no value org)
        (λ k d. process-IsReviewed s actor now k yes_or_no value org d) sorted db in
    elim (Bool-cases (is_empty actor)) [
      | inl e ↦ simp e tt
      | inr e ↦ elim (Bool-cases (is_nil sorted)) [
        | inl z ↦ simp (e, z) tt
        | inr z ↦ elim (Bool-cases (any is_raised results)) [
          | inl t ↦ simp (e, z, t) (raised-Raises s results all t)
          | inr f ↦ simp (e, z, f) (n f, counts_of_reviewed s results all f ∙ n f)
        ]
      ]
    ]
