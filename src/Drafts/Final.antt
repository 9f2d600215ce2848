-- ===== src/Drafts/Final.antt =====
-- Sent and rejected messages are final.
use shiku_ai_powered_sales_d.Prelude.{
  ==_iff, Bool, Bool-cases, List, Option, [], ap, arith, delete_rows, false, inl, inr, refl, some,
  some_eq, sym, true, update_rows, ℕ, ◌==◌, ◌∙◌, ◌∷◌, ◌≡◌,
}
use shiku_ai_powered_sales_d.Store.Schema.{Db, Message, Status, rejected, sent}
use shiku_ai_powered_sales_d.Store.Rows.{get_message, with_id}
use shiku_ai_powered_sales_d.Store.Distinct.{
  Distinct, Distinct-select, Distinct-update_rows, KeepsId, get_message-update_ne,
}
use shiku_ai_powered_sales_d.Drafts.Replies.{Services}
use shiku_ai_powered_sales_d.Drafts.Sending.{row_after_call, row_after_call-KeepsId}
use shiku_ai_powered_sales_d.Drafts.Review.{mark_rejected, mark_scheduled}
use shiku_ai_powered_sales_d.Drafts.Edit.{edit_content, reschedule, to_review}
use shiku_ai_powered_sales_d.Drafts.Scheduler.{
  claim, is_claimable, is_exhausted, is_stale, pause, release,
}
use shiku_ai_powered_sales_d.Drafts.Requests.{Request, serve_all}
use shiku_ai_powered_sales_d.Drafts.Invariants.{Keeps}
use shiku_ai_powered_sales_d.Drafts.Histories.{serve_all-keeps}
use mathlib.Core.Path.{subst}

abbrev pub is_final : Option Status → Bool
is_final (some sent) = true
is_final (some rejected) = true
is_final _ = false

get_message-update_where :
    (j : ℕ) (q : Message → Bool) (f : Message → Message) (ms : List Message) {m : Message}
    → KeepsId f
    → q m ≡ false
    → get_message j ms ≡ some m
    → get_message j (update_rows q f ms) ≡ some m
get_message-update_where j q f [] keep n e = e
get_message-update_where j q f (x ∷ ms) {m} keep n e = elim (Bool-cases (x.id == j)) [
  | inl t ↦
      let same : x ≡ m = some_eq (rw t at e) in
      let n' : q x ≡ false = subst (λ y. q y ≡ false) (sym same) n in rw (n', t) (ap some same)
  | inr a ↦ elim (Bool-cases (q x)) [
    | inl t ↦
        let a' : ((f x).id == j) ≡ false = ground (arith, keep x) in
        rw (t, a') (get_message-update_where j q f ms keep n (rw a at e))
    | inr c ↦ rw (c, a) (get_message-update_where j q f ms keep n (rw a at e))
  ]
]

pub get_message-delete :
    (j k : ℕ) (ms : List Message)
    → (j == k) ≡ false
    → get_message j (delete_rows (with_id k) ms) ≡ get_message j ms
get_message-delete j k [] ne = refl
get_message-delete j k (x ∷ ms) ne = ground (arith, get_message-delete j k ms ne)

module _ (s : Services) (j : ℕ) (final : Message) (is_it : is_final final.status ≡ true) where
  -- The row stands in the table as it is.
  abbrev Stays : List Message → Type 0
  Stays ms = Distinct ms × (get_message j ms ≡ some final)

  -- An update by identifier that is not made at a final row leaves it alone.
  other_row :
      (ms : List Message) (k : ℕ) (f : Message → Message) {m : Message}
      → KeepsId f
      → Stays ms
      → get_message k ms ≡ some m
      → is_final m.status ≡ false
      → Stays (update_rows (with_id k) f ms)
  other_row ms k f {m} keep h found n = elim (Bool-cases (j == k)) [
    | inl t ↦
        let same : get_message j ms ≡ some m =
          subst (λ i. get_message i ms ≡ some m) (sym ((==_iff j k).0 t)) found in
        let equal : final ≡ m = some_eq (sym h.1 ∙ same) in
        absurd (cc (subst (λ y. is_final y.status ≡ true) equal is_it, n))
    | inr a ↦ (
      Distinct-update_rows (with_id k) f ms keep h.0,
      get_message-update_ne j k f ms keep a ∙ h.1,
    )
  ]

  unmet :
      (ms : List Message) (q : Message → Bool) (f : Message → Message)
      → KeepsId f
      → Stays ms
      → q final ≡ false
      → Stays (update_rows q f ms)
  unmet ms q f keep h n =
      (Distinct-update_rows q f ms keep h.0, get_message-update_where j q f ms keep n h.1)

  removed :
      (ms : List Message) (k : ℕ) (m : Message)
      → Stays ms
      → get_message k ms ≡ some m
      → is_final m.status ≡ false
      → Stays (delete_rows (with_id k) ms)
  removed ms k m h found n = elim (Bool-cases (j == k)) [
    | inl t ↦
        let same : get_message j ms ≡ some m =
          subst (λ i. get_message i ms ≡ some m) (sym ((==_iff j k).0 t)) found in
        let equal : final ≡ m = some_eq (sym h.1 ∙ same) in
        absurd (cc (subst (λ y. is_final y.status ≡ true) equal is_it, n))
    | inr a ↦ (Distinct-select _ ms h.0, get_message-delete j k ms a ∙ h.1)
  ]

  Stays-Keeps : Keeps s Stays
  Stays-Keeps = record {
    distinct = λ ms h. h.0;
    sends = λ ms k org p actor now res h f q.
        other_row ms k (row_after_call s actor now p res) (row_after_call-KeepsId s actor now p res)
          h f (ground arith);
    schedules = λ ms k org m actor now time h f q.
        other_row ms k (mark_scheduled actor now time) (λ x. refl) h f (ground arith);
    rejects = λ ms k org m actor now h f q.
        other_row ms k (mark_rejected actor now) (λ x. refl) h f (ground arith);
    edits = λ ms k org m subject body h f q.
        other_row ms k (edit_content subject body) (λ x. refl) h f (ground arith);
    reschedules = λ ms k org m subject body time h f q.
        other_row ms k (reschedule subject body time) (λ x. refl) h f (ground arith);
    returns = λ ms k org m h f q. other_row ms k to_review (λ x. refl) h f (ground arith);
    deletes = λ ms k org m h f q. removed ms k m h f (ground arith);
    pauses = λ ms org h. unmet ms (is_exhausted s org) (pause s) (λ x. refl) h (ground arith);
    releases =
        λ ms now org h. unmet ms (is_stale s now org) (release s) (λ x. refl) h (ground arith);
    claims = λ ms k now h. unmet ms (is_claimable k) (claim now) (λ x. refl) h (ground arith);
  }

-- A message that is sent or rejected stands unchanged, in every column, after every history of
-- requests, if the identifiers are distinct.
pub serve_all_final :
    (s : Services) (j : ℕ) (m : Message) (rs : List (ℕ × Request)) (db : Db)
    → Distinct db.messages
    → get_message j db.messages ≡ some m
    → is_final m.status ≡ true
    → get_message j (serve_all s rs db).messages ≡ some m
serve_all_final s j m rs db d found final =
    (serve_all-keeps s (Stays s j m final) (Stays-Keeps s j m final) rs db (d, found)).1
