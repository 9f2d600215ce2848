-- ===== src/Gateway/Wording.antt =====
-- The tests and changes of the text of a mail, `_check_forbidden_phrases`, `_enforce_max_words`,
-- `_ensure_opt_out_footer` and `_validate_inputs` of tools/send_email.py.
use shiku_ai_powered_sales_d.Prelude.{
  Bool, Bool-cases, List, Option, Text, [], any, ap, arith, codes, false, find_row, if◌then◌else◌,
  inl, inr, is_empty, is_space, length, lower, lower_code, ltb, map, none, not, occurs_in, refl,
  reverse, select, some, strip, take, true, ℕ, ◌++◌, ◌==◌, ◌||◌, ◌∷◌, ◌≡◌,
}
use shiku_ai_powered_sales_d.Tenancy.Modes.{split_commas}

-- The settings that are read, `settings`.
pub record Policy : Type 0 where
  pub daily_email_limit : ℕ
  pub forbidden_phrases : Text
  pub max_words_per_email : ℕ
  pub opt_out_footer : Text
  pub effective_outreach_human_approval : Bool

-- The arguments of `send_plain_email`. The attachments are passed on unread, no list as an empty one.
pub record MailRequest : Type 0 where
  pub email : Text
  pub name : Text
  pub subject : Text
  pub body : Text
  pub skip_safety_check : Bool
  pub internal : Bool
  pub html_body : Option Text
  pub attachments : List Text
  pub bypass_human_approval : Bool
  pub organization_id : Option ℕ

-- The errors, with the text that they quote.
pub data MailError : Type 0 where
  no_recipient no_subject no_body limit_reached no_organization draft_failed : MailError
  forbidden_phrase unsafe misconfigured : Text → MailError

-- `_validate_inputs`
abbrev pub input_error : MailRequest → Option MailError
input_error r =
    if is_empty (strip r.email) || not (any (λ c. c == 64) (strip r.email))
    then some no_recipient
    else if is_empty (strip r.subject)
    then some no_subject
    else if is_empty (strip r.body)
    then some no_body
    else none

-- `[p.strip().lower() for p in settings.forbidden_phrases.split(",") if p.strip()]`
abbrev pub phrases_of : Policy → List Text
phrases_of p =
    map (λ t. lower (strip t))
      (select (λ t. not (is_empty (strip t))) (split_commas [] p.forbidden_phrases))

abbrev quote : Option Text → Option MailError
quote none = none
quote (some t) = some (forbidden_phrase t)

-- `_check_forbidden_phrases`
abbrev pub forbidden_error : Policy → Text → Option MailError
forbidden_error p body = quote (find_row (λ t. occurs_in t (lower body)) (phrases_of p))

abbrev and_word : Text → List Text → List Text
and_word word ws = if is_empty word then ws else reverse word ∷ ws

-- `body.split()`, with the letters of the word that is read, the latest first.
abbrev pub split_words : Text → Text → List Text
split_words word [] = and_word word []
split_words word (c ∷ s) = elim (is_space c) [
  | true ↦ and_word word (split_words [] s)
  | false ↦ split_words (c ∷ word) s
]

-- `" ".join(words)`
abbrev pub join_words : List Text → Text
join_words [] = []
join_words (w ∷ []) = w
join_words (w ∷ v ∷ ws) = w ++ 32 ∷ join_words (v ∷ ws)

-- `_enforce_max_words`
abbrev pub enforce_max_words : Policy → Text → Text
enforce_max_words p body =
    if ltb p.max_words_per_email (length (split_words [] body))
    then join_words (take p.max_words_per_email (split_words [] body))
    else body

abbrev opt_out_keywords : List Text
opt_out_keywords =
    codes "stop" ∷ codes "unsubscribe" ∷ codes "opt out" ∷ codes "opt-out" ∷ codes "remove me" ∷ []

-- `any(kw in body.lower() for kw in opt_out_keywords)`
abbrev pub says_opt_out : Text → Bool
says_opt_out body = any (λ k. occurs_in k (lower body)) opt_out_keywords

-- `_ensure_opt_out_footer`
abbrev pub ensure_opt_out_footer : Policy → Text → Text
ensure_opt_out_footer p body = if says_opt_out body then body else body ++ p.opt_out_footer

-- The body that is checked and sent.
abbrev pub final_body : Policy → MailRequest → Text
final_body p r =
    let short = enforce_max_words p r.body in
    if r.internal then short else ensure_opt_out_footer p short

map-append {ℓ} :
    {A B : Type ℓ} (f : A → B) (xs ys : List A) → map f (xs ++ ys) ≡ map f xs ++ map f ys
map-append f [] ys = refl
map-append f (x ∷ xs) ys = ap (λ zs. f x ∷ zs) (map-append f xs ys)

occurs_in-append : (p s t : Text) → occurs_in p t ≡ true → occurs_in p (s ++ t) ≡ true
occurs_in-append p [] t h = h
occurs_in-append p (c ∷ s) t h = ground (arith, occurs_in-append p s t h)

any_occurs-append :
    (ks : List Text) (s t : Text)
    → any (λ k. occurs_in k t) ks ≡ true
    → any (λ k. occurs_in k (s ++ t)) ks ≡ true
any_occurs-append [] s t h = h
any_occurs-append (k ∷ ks) s t h = elim (Bool-cases (occurs_in k t)) [
  | inl a ↦ rw (occurs_in-append k s t a) refl
  | inr n ↦ let rest = any_occurs-append ks s t (rw n at h) in ground arith
]

-- A mail with the footer says how to opt out, if the footer does.
pub ensure_opt_out_footer-says :
    (p : Policy) (body : Text)
    → says_opt_out p.opt_out_footer ≡ true
    → says_opt_out (ensure_opt_out_footer p body) ≡ true
ensure_opt_out_footer-says p body h = elim (Bool-cases (says_opt_out body)) [
  | inl a ↦ rw a a
  | inr n ↦ rw n (
      rw (map-append lower_code body p.opt_out_footer)
        (any_occurs-append opt_out_keywords (lower body) (lower p.opt_out_footer) h))
]
