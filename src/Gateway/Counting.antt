-- ===== src/Gateway/Counting.antt =====
-- The counter of the day and the calls of the provider, tools/send_email.py.
use shiku_ai_powered_sales_d.Prelude.{
  ==_iff, ==_refl, All, All-append, Bool, Bool-cases, List, Text, [], arith, count_rows, false,
  if◌then◌else◌, inl, inr, length, length-append, ltb, none, refl, select, select-last_in,
  select-last_out, true, ℕ, ◌&&◌, ◌++◌, ◌+◌, ◌==◌, ◌||◌, ◌∙◌, ◌∷◌, ◌≡◌, ◌≤◌, ◌⊎◌,
}
use shiku_ai_powered_sales_d.Gateway.Wording.{
  MailRequest, Policy, forbidden_error, input_error, says_opt_out,
}
use shiku_ai_powered_sales_d.Gateway.Gates.{
  MailCall, MailService, Mailer, awaits_approval, count_of, hand_over, has_day,
  increment_daily_count, is_limit_reached, open_day,
}

-- The mails of a day that a provider has taken.
abbrev pub taken_on : ℕ → Mailer → ℕ
taken_on d st = count_rows (λ (c : MailCall). c.sent_on == d && c.is_ok) st.calls

-- A call of the provider is for a request that passes every test.
abbrev pub IsAllowed : Policy → MailService → MailCall → Type 0
IsAllowed p v c =
    (input_error c.request ≡ none)
    × ((c.request.internal ≡ true)
        ⊎ ((forbidden_error p c.request.body ≡ none) × (says_opt_out c.sent_body ≡ true)))
    × (((c.request.skip_safety_check || c.request.internal) ≡ true)
        ⊎ (v.guard c.sent_body c.request.subject c.request.organization_id ≡ none))
    × (awaits_approval p c.request ≡ false)

-- The counter of the day counts what was taken on it, and later days have nothing.
abbrev pub IsCounting : ℕ → Mailer → Type 0
IsCounting today st =
    (taken_on today st ≡ count_of today st.daily_send_counts)
    × ((d : ℕ) → ltb today d ≡ true → (taken_on d st ≡ 0) × (count_of d st.daily_send_counts ≡ 0))

abbrev pub IsPoliced : Policy → MailService → ℕ → Mailer → Type 0
IsPoliced p v today st =
    IsCounting today st
    × ((d : ℕ) → taken_on d st ≤ p.daily_email_limit)
    × All (IsAllowed p v) st.calls

count_of-increment :
    (d : ℕ) (cs : List (ℕ × ℕ)) → count_of d (increment_daily_count d cs) ≡ count_of d cs + 1
count_of-increment d [] = rw (==_refl d) refl
count_of-increment d ((k, n) ∷ cs) = elim (Bool-cases (k == d)) [
  | inl t ↦ simp t refl
  | inr f ↦ simp f (count_of-increment d cs)
]

count_of-increment_other :
    (d e : ℕ) (cs : List (ℕ × ℕ))
    → ltb d e ≡ true
    → count_of e (increment_daily_count d cs) ≡ count_of e cs
count_of-increment_other d e [] h = ground arith
count_of-increment_other d e ((k, n) ∷ cs) h = elim (Bool-cases (k == d)) [
  | inl t ↦ let f : (k == e) ≡ false = ground arith in simp (t, f) refl
  | inr f ↦ elim (Bool-cases (k == e)) [
    | inl u ↦ simp (f, u) refl
    | inr u ↦ simp (f, u) (count_of-increment_other d e cs h)
  ]
]

count_of-missing : (d : ℕ) (cs : List (ℕ × ℕ)) → has_day d cs ≡ false → count_of d cs ≡ 0
count_of-missing d [] h = refl
count_of-missing d ((k, n) ∷ cs) h = elim (Bool-cases (k == d)) [
  | inl t ↦ absurd (ground arith)
  | inr f ↦ rw f (count_of-missing d cs (rw f at h))
]

pub open_day-IsCounting :
    (today : ℕ) (st : Mailer)
    → IsCounting today st
    → IsCounting today (record st { daily_send_counts = open_day today st.daily_send_counts })
open_day-IsCounting today st h = elim (Bool-cases (has_day today st.daily_send_counts)) [
  | inl t ↦ rw t h
  | inr n ↦ rw n (
    h.0 ∙ count_of-missing today st.daily_send_counts n ∙ rw (==_refl today) refl,
    λ d l. ((h.1 d l).0, ground arith),
  )
]

count-last {ℓ} :
    {A : Type ℓ} (q : A → Bool) (xs : List A) (x : A)
    → count_rows q (xs ++ x ∷ []) ≡ count_rows q xs + (if q x then 1 else 0)
count-last q xs x = elim (Bool-cases (q x)) [
  | inl t ↦ rw (select-last_in q xs x t, t) (omega (arith, length-append (select q xs) (x ∷ [])))
  | inr n ↦ rw (select-last_out q xs x n, n) (omega arith)
]

-- The call that `hand_over` makes.
abbrev pub call_of : MailService → ℕ → MailRequest → Text → Mailer → MailCall
call_of v today r body st = record {
  sent_on = today;
  request = r;
  sent_body = body;
  is_ok = (v.send_with_retry (length st.calls) r body).is_ok;
}

taken_on-hand_over :
    (v : MailService) (today : ℕ) (r : MailRequest) (body : Text) (st : Mailer) (d : ℕ)
    → taken_on d (hand_over v today r body st).1
      ≡ taken_on d st + (if today == d && (call_of v today r body st).is_ok then 1 else 0)
taken_on-hand_over v today r body st d =
    count-last (λ (c : MailCall). c.sent_on == d && c.is_ok) st.calls (call_of v today r body st)

hand_over-IsCounting :
    (v : MailService) (today : ℕ) (r : MailRequest) (body : Text) (st : Mailer)
    → IsCounting today st
    → IsCounting today (hand_over v today r body st).1
hand_over-IsCounting v today r body st h = elim (Bool-cases (call_of v today r body st).is_ok) [
  | inl t ↦ (
    taken_on-hand_over v today r body st today
        ∙ rw (t, ==_refl today) (rw (count_of-increment today st.daily_send_counts, h.0) refl),
    λ d l.
        let other : (today == d) ≡ false = ground arith in
        (
          taken_on-hand_over v today r body st d ∙ rw other (omega (arith, (h.1 d l).0)),
          rw t (count_of-increment_other today d st.daily_send_counts l ∙ (h.1 d l).1),
        ),
  )
  | inr n ↦ (
    taken_on-hand_over v today r body st today ∙ rw (n, ==_refl today) (omega (arith, h.0)),
    λ d l.
        let other : (today == d) ≡ false = ground arith in
        (
          taken_on-hand_over v today r body st d ∙ rw other (omega (arith, (h.1 d l).0)),
          rw n (h.1 d l).1,
        ),
  )
]

pub hand_over-IsPoliced :
    (p : Policy) (v : MailService) (today : ℕ) (r : MailRequest) (body : Text) (st : Mailer)
    → is_limit_reached p today st.daily_send_counts ≡ false
    → IsAllowed p v (call_of v today r body st)
    → IsPoliced p v today st
    → IsPoliced p v today (hand_over v today r body st).1
hand_over-IsPoliced p v today r body st free allowed (counting, bounded, each) = (
  hand_over-IsCounting v today r body st counting,
  λ d.
      let b = bounded d in
      let c = counting.0 in
      let e = taken_on-hand_over v today r body st d in
      elim (Bool-cases (today == d)) [
        | inl t ↦
            let same : today ≡ d = (==_iff today d).0 t in
            let here : taken_on d st ≡ count_of today st.daily_send_counts = rw⁻¹ same c in
            rw e (ground arith)
        | inr n ↦ rw e (rw n (omega (arith, b)))
      ],
  All-append (IsAllowed p v) st.calls (call_of v today r body st ∷ []) each (allowed, tt),
)
