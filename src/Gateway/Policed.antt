-- ===== src/Gateway/Policed.antt =====
-- What the tests of `send_plain_email` achieve over the days, tools/send_email.py.
use shiku_ai_powered_sales_d.Prelude.{
  Bool-cases, List, Option, Text, [], arith, find_row, inl, inr, none, refl, some, sym, true, ℕ,
  ◌+◌, ◌||◌, ◌∙◌, ◌∷◌, ◌≡◌, ◌⊎◌,
}
use shiku_ai_powered_sales_d.Store.Schema.{Lead}
use shiku_ai_powered_sales_d.Gateway.Wording.{
  MailError, MailRequest, Policy, enforce_max_words, ensure_opt_out_footer-says, final_body,
  forbidden_error, input_error, says_opt_out,
}
use shiku_ai_powered_sales_d.Gateway.Gates.{
  MailResult, MailService, Mailer, after_limit, awaits_approval, config_error, insert_draft,
  is_limit_reached, open_day, or_error, phrase_error, safety_error, save_draft, send_plain_email,
  unsafe_error,
}
use shiku_ai_powered_sales_d.Gateway.Counting.{IsPoliced, hand_over-IsPoliced, open_day-IsCounting}

-- Midnight passes, or a request is served, at a time.
pub data Step : Type 0 where
  midnight : Step
  mail : ℕ → MailRequest → Step

abbrev pub serve_step : Policy → MailService → Step → ℕ × Mailer → ℕ × Mailer
serve_step p v midnight s = (s.0 + 1, s.1)
serve_step p v (mail now r) s = (s.0, (send_plain_email p v s.0 now r s.1).1)

abbrev pub serve_steps : Policy → MailService → List Step → ℕ × Mailer → ℕ × Mailer
serve_steps p v [] s = s
serve_steps p v (x ∷ xs) s = serve_steps p v xs (serve_step p v x s)

-- An error leaves the state, so a property of the rest is one of the whole.
or_error-keeps :
    (P : Mailer → Type 0) (e : Option MailError) (st : Mailer) (rest : MailResult × Mailer)
    → P st
    → (e ≡ none → P rest.1)
    → P (or_error e st rest).1
or_error-keeps P none st rest h f = f refl
or_error-keeps P (some e) st rest h f = h

-- What the errors that are none say.
phrase_error-none :
    (p : Policy) (r : MailRequest)
    → says_opt_out p.opt_out_footer ≡ true
    → phrase_error p r ≡ none
    → (r.internal ≡ true)
      ⊎ ((forbidden_error p r.body ≡ none) × (says_opt_out (final_body p r) ≡ true))
phrase_error-none p r footer e = elim (Bool-cases r.internal) [
  | inl t ↦ inl t
  | inr n ↦ inr (rw n at e, rw n (ensure_opt_out_footer-says p (enforce_max_words p r.body) footer))
]

unsafe_error-none : (o : Option Text) → unsafe_error o ≡ none → o ≡ none
unsafe_error-none none e = refl
unsafe_error-none (some t) e = absurd (cc)

safety_error-none :
    (v : MailService) (r : MailRequest) (body : Text)
    → safety_error v r body ≡ none
    → ((r.skip_safety_check || r.internal) ≡ true)
      ⊎ (v.guard body r.subject r.organization_id ≡ none)
safety_error-none v r body e = elim (Bool-cases (r.skip_safety_check || r.internal)) [
  | inl t ↦ inl t
  | inr n ↦ inr (unsafe_error-none _ (rw n at e))
]

module _ (p : Policy) (v : MailService) (footer : says_opt_out p.opt_out_footer ≡ true) where
  save_draft-IsPoliced :
      (today now : ℕ) (r : MailRequest) (body : Text) (org : Option ℕ) (st : Mailer)
      → IsPoliced p v today st
      → IsPoliced p v today (save_draft now r body org st).1
  save_draft-IsPoliced today now r body none st h = h
  save_draft-IsPoliced today now r body (some org) st h = inserted (find_row _ st.leads)
    where
      inserted : (l : Option Lead) → IsPoliced p v today (insert_draft now org r body l st).1
      inserted none = h
      inserted (some l) = h

  after_limit-IsPoliced :
      (today now : ℕ) (r : MailRequest) (st : Mailer)
      → input_error r ≡ none
      → IsPoliced p v today st
      → IsPoliced p v today (after_limit p v today now r st).1
  after_limit-IsPoliced today now r st input h =
      elim (Bool-cases (is_limit_reached p today st.daily_send_counts)) [
        | inl t ↦ rw t h
        | inr free ↦
            let Policed = IsPoliced p v today in
            let body = final_body p r in
            rw free (
              or_error-keeps Policed (phrase_error p r) st _ h (λ a.
                or_error-keeps Policed (safety_error v r body) st _ h (λ b.
                  elim (Bool-cases (awaits_approval p r)) [
                    | inl t ↦ rw t (save_draft-IsPoliced today now r body r.organization_id st h)
                    | inr n ↦ rw n (
                        or_error-keeps Policed (config_error v r) st _ h (λ c.
                          hand_over-IsPoliced p v today r body st free
                            (input, phrase_error-none p r footer a, safety_error-none v r body b, n)
                            h))
                  ])))
      ]

  send_plain_email-IsPoliced :
      (today now : ℕ) (r : MailRequest) (st : Mailer)
      → IsPoliced p v today st
      → IsPoliced p v today (send_plain_email p v today now r st).1
  unfolding send_plain_email
  send_plain_email-IsPoliced today now r st h =
      or_error-keeps (IsPoliced p v today) (input_error r) st _ h (λ input.
        after_limit-IsPoliced today now r
          (record st { daily_send_counts = open_day today st.daily_send_counts }) input
          (open_day-IsCounting today st h.0, h.1, h.2))

  midnight-IsPoliced :
      (today : ℕ) (st : Mailer) → IsPoliced p v today st → IsPoliced p v (today + 1) st
  midnight-IsPoliced today st (counting, bounded, each) =
      let next = counting.1 (today + 1) (ground arith) in
      ((next.0 ∙ sym next.1, λ d l. counting.1 d (ground arith)), bounded, each)

  -- If the footer says how to opt out, every history of days and requests keeps the following,
  -- whatever the provider and the safety check answer. The provider has taken no more mails on any
  -- day than the daily limit; the counter of the current day counts those of that day, and later
  -- days have none. Every call of the provider is for a request with valid inputs that need not
  -- await an approval; unless the mail is internal, its body has no forbidden phrase and it is sent
  -- with a body that says how to opt out; and unless the check is skipped or the mail is internal,
  -- the body was found safe as it is sent.
  pub serve_steps-IsPoliced :
      (xs : List Step) (today : ℕ) (st : Mailer)
      → IsPoliced p v today st
      → IsPoliced p v (serve_steps p v xs (today, st)).0 (serve_steps p v xs (today, st)).1
  serve_steps-IsPoliced [] today st h = h
  serve_steps-IsPoliced (midnight ∷ xs) today st h =
      serve_steps-IsPoliced xs (today + 1) st (midnight-IsPoliced today st h)
  serve_steps-IsPoliced (mail now r ∷ xs) today st h =
      serve_steps-IsPoliced xs today (send_plain_email p v today now r st).1
        (send_plain_email-IsPoliced today now r st h)
