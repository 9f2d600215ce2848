-- ===== src/Fallback/Blacklisting.antt =====
-- How long a provider stays on the blacklist.
use shiku_ai_powered_sales_d.Prelude.{
  Bool, Bool-cases, List, Option, Text, [], ap, arith, false, if◌then◌else◌, inl, inr, leb, ltb,
  none, not, refl, some, sym, text_eq, text_eq_sound, true, ℕ, ◌&&◌, ◌+◌, ◌∙◌, ◌∷◌, ◌≡◌,
}
use shiku_ai_powered_sales_d.Fallback.Models.{
  Blacklist, all_blacklisted, at_expiry, blacklist_duration, blacklist_provider, contains,
  expiry_of, forget, is_blacklisted, openrouter_providers, put_all, recover_blacklist,
}
use mathlib.Core.Path.{subst}

expiry_of-put_all :
    (expiry : ℕ) (names : List Text) (name : Text) (list : Blacklist)
    → contains names name ≡ true
    → expiry_of name (put_all expiry names list) ≡ some expiry
expiry_of-put_all expiry [] name list h = absurd (cc)
expiry_of-put_all expiry (n ∷ names) name list h = elim (Bool-cases (text_eq n name)) [
  | inl t ↦ simp t refl
  | inr f ↦ simp f (expiry_of-put_all expiry names name list (simp f at h))
]

-- The providers that share the credits of another: those of OpenRouter among themselves, and every
-- provider with itself.
abbrev pub shares_credits : Text → Text → Bool
shares_credits name other =
    if contains openrouter_providers name
    then contains openrouter_providers other
    else text_eq name other

expiry_of-blacklist_provider :
    (now : ℕ) (name other : Text) (list : Blacklist)
    → shares_credits name other ≡ true
    → expiry_of other (blacklist_provider now name list) ≡ some (now + blacklist_duration)
unfolding blacklist_provider
expiry_of-blacklist_provider now name other list h =
    elim (Bool-cases (contains openrouter_providers name)) [
      | inl t ↦ simp t (
          expiry_of-put_all (now + blacklist_duration) openrouter_providers other list
            (simp t at h))
      | inr f ↦ let e : text_eq name other ≡ true = simp f at h in simp (f, e) refl
    ]

at_expiry_listed :
    (later t : ℕ) (name : Text) (entries : Blacklist)
    → (at_expiry later name entries (some t)).0 ≡ leb later t
at_expiry_listed later t name entries = ground arith

listed-blacklist_provider :
    (now later : ℕ) (name other : Text) (list : Blacklist)
    → shares_credits name other ≡ true
    → (is_blacklisted later other (blacklist_provider now name list)).0
      ≡ leb later (now + blacklist_duration)
unfolding is_blacklisted
listed-blacklist_provider now later name other list h =
    let entries = blacklist_provider now name list in
    subst (λ o. (at_expiry later other entries o).0 ≡ leb later (now + blacklist_duration))
      (sym (expiry_of-blacklist_provider now name other list h))
      (at_expiry_listed later (now + blacklist_duration) other entries)

expiry_of-forget_same :
    (name other : Text) (list : Blacklist)
    → text_eq name other ≡ true
    → expiry_of other (forget name list) ≡ none
expiry_of-forget_same name other [] e = refl
expiry_of-forget_same name other ((n, t) ∷ rest) e = elim (Bool-cases (text_eq n name)) [
  | inl u ↦ rw u (expiry_of-forget_same name other rest e)
  | inr f ↦
      let apart : text_eq n other ≡ false =
        subst (λ x. text_eq n x ≡ false) (text_eq_sound name other e) f in
      rw f (rw apart (expiry_of-forget_same name other rest e))
]

expiry_of-forget_other :
    (name other : Text) (list : Blacklist)
    → text_eq name other ≡ false
    → expiry_of other (forget name list) ≡ expiry_of other list
expiry_of-forget_other name other [] e = refl
expiry_of-forget_other name other ((n, t) ∷ rest) e = elim (Bool-cases (text_eq n name)) [
  | inl u ↦
      let apart : text_eq n other ≡ false =
        subst (λ x. text_eq x other ≡ false) (sym (text_eq_sound n name u)) e in
      rw u (rw apart (expiry_of-forget_other name other rest e))
  | inr f ↦ elim (Bool-cases (text_eq n other)) [
    | inl v ↦ rw f (rw v refl)
    | inr w ↦ rw f (rw w (expiry_of-forget_other name other rest e))
  ]
]

-- Whether a name is on the list at a time.
abbrev pub is_listed_at : ℕ → Blacklist → Text → Bool
is_listed_at now list name = (is_blacklisted now name list).0

-- A test forgets at most an entry that has expired, so it changes no other test.
is_listed_at-forget :
    (now : ℕ) (name other : Text) (list : Blacklist)
    → is_listed_at now list name ≡ false
    → is_listed_at now (forget name list) other ≡ is_listed_at now list other
unfolding is_blacklisted
is_listed_at-forget now name other list h = elim (Bool-cases (text_eq name other)) [
  | inl e ↦
      let off : is_listed_at now list other ≡ false =
        subst (λ x. is_listed_at now list x ≡ false) (text_eq_sound name other e) h in
      subst (λ o. (at_expiry now other (forget name list) o).0 ≡ is_listed_at now list other)
        (sym (expiry_of-forget_same name other list e)) (sym off)
  | inr n ↦ go (expiry_of-forget_other name other list n)
]
  where
    same :
        (o : Option ℕ) (a b : Blacklist) → (at_expiry now other a o).0 ≡ (at_expiry now other b o).0
    same none a b = refl
    same (some t) a b = ground arith

    go :
        expiry_of other (forget name list) ≡ expiry_of other list
        → is_listed_at now (forget name list) other ≡ is_listed_at now list other
    go e =
        subst
          (λ o.
            (at_expiry now other (forget name list) o).0
            ≡ (at_expiry now other list (expiry_of other list)).0)
          (sym e) (same (expiry_of other list) (forget name list) list)

is_listed_at-test :
    (now : ℕ) (name other : Text) (list : Blacklist)
    → is_listed_at now (is_blacklisted now name list).1 other ≡ is_listed_at now list other
unfolding is_blacklisted
is_listed_at-test now name other list = kept (expiry_of name list) refl
  where
    kept :
        (o : Option ℕ)
        → (at_expiry now name list o).0 ≡ is_listed_at now list name
        → is_listed_at now (at_expiry now name list o).1 other ≡ is_listed_at now list other
    kept none e = refl
    kept (some t) e = elim (Bool-cases (ltb t now)) [
      | inl u ↦ rw u (is_listed_at-forget now name other list (sym (rw u at e)))
      | inr f ↦ rw f refl
    ]

-- Whether all the names are on the list.
abbrev pub are_listed_at : ℕ → Blacklist → List Text → Bool
are_listed_at now list [] = true
are_listed_at now list (name ∷ names) = is_listed_at now list name && are_listed_at now list names

are_listed_at-same :
    (now : ℕ) (a b : Blacklist) (names : List Text)
    → ((other : Text) → is_listed_at now a other ≡ is_listed_at now b other)
    → are_listed_at now a names ≡ are_listed_at now b names
are_listed_at-same now a b [] h = refl
are_listed_at-same now a b (n ∷ ns) h = rw (h n, are_listed_at-same now a b ns h) refl

all_blacklisted-lem :
    (now : ℕ) (names : List Text) (list : Blacklist)
    → ((all_blacklisted now names list).0 ≡ are_listed_at now list names)
      × ((other : Text)
          → is_listed_at now (all_blacklisted now names list).1 other ≡ is_listed_at now list other)
all_blacklisted-lem now [] list = (refl, λ other. refl)
all_blacklisted-lem now (name ∷ names) list =
    let next = (is_blacklisted now name list).1 in
    let same = λ (other : Text). is_listed_at-test now name other list in
    let rest = all_blacklisted-lem now names next in
    elim (Bool-cases (is_listed_at now list name)) [
      | inl t ↦
          rw t (
            rest.0 ∙ are_listed_at-same now next list names same,
            λ other. rest.1 other ∙ same other,
          )
      | inr f ↦ rw f (refl, same)
    ]

-- Some provider is configured, and all are on the list.
abbrev pub is_stuck : ℕ → Blacklist → List Text → Bool
is_stuck now list [] = false
is_stuck now list (name ∷ names) = are_listed_at now list (name ∷ names)

is_listed_at-recover :
    (now : ℕ) (names : List Text) (list : Blacklist) (other : Text)
    → is_listed_at now (recover_blacklist now names list) other
      ≡ (is_listed_at now list other && not (is_stuck now list names))
unfolding recover_blacklist is_blacklisted
is_listed_at-recover now [] list other = ground arith
is_listed_at-recover now (name ∷ names) list other =
    let found = all_blacklisted-lem now (name ∷ names) list in
    elim (Bool-cases (are_listed_at now list (name ∷ names))) [
      | inl t ↦ let all_listed = found.0 ∙ t in rw (all_listed, t) (ground arith)
      | inr f ↦ let some_free = found.0 ∙ f in rw (some_free, f) (found.1 other ∙ ground arith)
    ]

-- When a provider is put on the blacklist, then at a later request for the available providers it and
-- every provider that shares its credits are on it for 300 seconds and not longer, unless every
-- configured provider is on it, in which case none is.
pub is_blacklisted-blacklist_provider :
    (now later : ℕ) (name other : Text) (configured : List Text) (list : Blacklist)
    → shares_credits name other ≡ true
    → is_listed_at later
        (recover_blacklist later configured (blacklist_provider now name list))
        other
      ≡ (leb later (now + 300)
          && not (is_stuck later (blacklist_provider now name list) configured))
is_blacklisted-blacklist_provider now later name other configured list h =
    let entries = blacklist_provider now name list in
    is_listed_at-recover later configured entries other
    ∙ ap (λ b. b && not (is_stuck later entries configured))
        (listed-blacklist_provider now later name other list h)
