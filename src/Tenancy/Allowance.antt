-- ===== src/Tenancy/Allowance.antt =====
-- What a subscription allows.
use shiku_ai_powered_sales_d.Prelude.{
  All, Bool, Bool-cases, List, Option, Text, [], arith, codes, false, if◌then◌else◌, inl, inr, none,
  not, or_text, refl, select, select-All, some, sym, text_eq, text_eq_refl, text_eq_sound, true,
  upper, ℕ, ◌&&◌, ◌||◌, ◌↔◌, ◌∙◌, ◌∷◌, ◌≡◌, ◌≤◌, ◌⊎◌,
}
use shiku_ai_powered_sales_d.Tenancy.Routing.{
  RoutingPlan, SubscriptionRow, SubscriptionState, candidate_mode, cheapest, first_mode, has_ended,
  is_one_of, llm_routing_modes, modes_allowed, or_modes, plan_modes,
  resolve_allowed_llm_routing_mode, status_of, subscription_active_statuses, subscription_from_row,
}
use mathlib.Core.Path.{subst}

-- A mode that the program knows, and that is of the plan or the cheapest.
abbrev IsKnown : Text → Type 0
IsKnown m = is_one_of llm_routing_modes m ≡ true

or_modes-All :
    (P : Text → Type 0) (xs ys : List Text) → All P xs → All P ys → All P (or_modes xs ys)
or_modes-All P [] ys h k = k
or_modes-All P (x ∷ xs) ys h k = h

modes_allowed-All :
    (status : Text) (plan : Option RoutingPlan) → All IsKnown (modes_allowed status plan)
unfolding modes_allowed
modes_allowed-All status plan =
    let known = select (is_one_of llm_routing_modes) (plan_modes status plan) in
    or_modes-All IsKnown known cheapest
      (select-All (is_one_of llm_routing_modes) (plan_modes status plan)) (refl, tt)

is_one_of-All :
    (P : Text → Type 0) (ms : List Text) (m : Text) → All P ms → is_one_of ms m ≡ true → P m
is_one_of-All P [] m h e = absurd (cc)
is_one_of-All P (x ∷ ms) m h e = elim (Bool-cases (text_eq x m)) [
  | inl t ↦ subst P (text_eq_sound x m t) h.0
  | inr f ↦ is_one_of-All P ms m h.1 (ground arith)
]

first_mode-allowed :
    (xs : List Text) → is_one_of (or_modes xs cheapest) (first_mode (or_modes xs cheapest)) ≡ true
first_mode-allowed [] = refl
first_mode-allowed (x ∷ xs) = ground (arith, text_eq_refl x)

modes_allowed-first :
    (status : Text) (plan : Option RoutingPlan)
    → is_one_of (modes_allowed status plan) (first_mode (modes_allowed status plan)) ≡ true
unfolding modes_allowed
modes_allowed-first status plan =
    first_mode-allowed (select (is_one_of llm_routing_modes) (plan_modes status plan))

picked-IsKnown :
    (allowed : List Text) (c : Text)
    → All IsKnown allowed
    → is_one_of allowed (first_mode allowed) ≡ true
    → let m = if is_one_of allowed c then c else first_mode allowed in
      (is_one_of allowed m ≡ true) × IsKnown m × ((not (is_one_of allowed c) ≡ true) ⊎ (m ≡ c))
picked-IsKnown allowed c known first = elim (Bool-cases (is_one_of allowed c)) [
  | inl t ↦ simp t (refl, is_one_of-All IsKnown allowed c known t, inr refl)
  | inr f ↦ simp f (first, is_one_of-All IsKnown allowed (first_mode allowed) known first, inl refl)
]

is_one_of-select :
    (q : Text → Bool) (xs : List Text) (m : Text)
    → is_one_of (select q xs) m ≡ true
    → is_one_of xs m ≡ true
is_one_of-select q [] m h = h
is_one_of-select q (x ∷ xs) m h = elim (Bool-cases (q x)) [
  | inl t ↦ elim (Bool-cases (text_eq x m)) [
    | inl e ↦ rw e refl
    | inr n ↦ let rest = is_one_of-select q xs m (ground arith) in ground arith
  ]
  | inr f ↦ let rest = is_one_of-select q xs m (rw f at h) in ground arith
]

is_one_of-select_in :
    (q : Text → Bool) (xs : List Text) (m : Text)
    → q m ≡ true
    → is_one_of xs m ≡ true
    → is_one_of (select q xs) m ≡ true
is_one_of-select_in q [] m k h = h
is_one_of-select_in q (x ∷ xs) m k h = elim (Bool-cases (text_eq x m)) [
  | inl e ↦
      let here : q x ≡ true = subst (λ y. q y ≡ true) (sym (text_eq_sound x m e)) k in
      rw here (rw e refl)
  | inr n ↦
      let rest = is_one_of-select_in q xs m k (rw n at h) in
      elim (Bool-cases (q x)) [ inl t ↦ rw t (rw n rest) | inr f ↦ rw f rest ]
]

-- What stands in a list, or in the list with the cheapest mode where it is empty.
or_cheapest-cases :
    (xs : List Text) (m : Text)
    → is_one_of (or_modes xs cheapest) m ≡ true
    → (is_one_of xs m ≡ true) ⊎ (codes "cost_optimized" ≡ m)
or_cheapest-cases [] m h = inr (text_eq_sound (codes "cost_optimized") m (ground arith))
or_cheapest-cases (x ∷ xs) m h = inl h

or_modes-in :
    (xs ys : List Text) (m : Text) → is_one_of xs m ≡ true → is_one_of (or_modes xs ys) m ≡ true
or_modes-in [] ys m h = absurd (cc)
or_modes-in (x ∷ xs) ys m h = h

-- The mode is of the list, or the cheapest; and a known mode of the list is given to who asks for it.
abbrev pub IsOfModes : List Text → Text → Text → Type 0
IsOfModes modes c m =
    ((is_one_of modes m ≡ true) ⊎ (codes "cost_optimized" ≡ m))
    × (is_one_of llm_routing_modes c ≡ true → is_one_of modes c ≡ true → m ≡ c)

-- During a trial the mode is of those of a trial; otherwise it is of the paid ones, if the plan names
-- any.
abbrev pub IsEntitled : RoutingPlan → Text → Text → Text → Type 0
IsEntitled p status c m =
    (text_eq (codes "TRIALING") status ≡ true → IsOfModes p.trial_allowed_modes c m)
    × (text_eq (codes "TRIALING") status ≡ false
        → (p.allowed_modes ≡ []) ⊎ IsOfModes p.allowed_modes c m)

allowed-IsOfModes :
    (modes : List Text) (c m : Text)
    → let allowed = or_modes (select (is_one_of llm_routing_modes) modes) cheapest in
      is_one_of allowed m ≡ true
      → ((not (is_one_of allowed c) ≡ true) ⊎ (m ≡ c))
      → IsOfModes modes c m
allowed-IsOfModes modes c m h picked = (
  elim (or_cheapest-cases (select (is_one_of llm_routing_modes) modes) m h) [
    | inl e ↦ inl (is_one_of-select (is_one_of llm_routing_modes) modes m e)
    | inr e ↦ inr e
  ],
  λ known listed.
      let given =
        or_modes-in (select (is_one_of llm_routing_modes) modes) cheapest c
          (is_one_of-select_in (is_one_of llm_routing_modes) modes c known listed) in
      elim picked [ inl n ↦ absurd (cc (given, n)) | inr e ↦ e ],
)

trial-IsOfModes :
    (modes : List Text) (c m : Text) → IsOfModes (or_modes modes cheapest) c m → IsOfModes modes c m
trial-IsOfModes [] c m (inl e, given) = (or_cheapest-cases [] m e, λ k h. absurd (cc))
trial-IsOfModes [] c m (inr e, given) = (inr e, λ k h. absurd (cc))
trial-IsOfModes (x ∷ xs) c m h = h

paid-IsOfModes :
    (modes ys : List Text) (c m : Text)
    → IsOfModes (or_modes modes ys) c m
    → (modes ≡ []) ⊎ IsOfModes modes c m
paid-IsOfModes [] ys c m h = inl refl
paid-IsOfModes (x ∷ xs) ys c m h = inr h

plan-IsEntitled :
    (p : RoutingPlan) (status c m : Text)
    → IsOfModes (plan_modes status (some p)) c m
    → IsEntitled p status c m
plan-IsEntitled p status c m h = (
  λ t. trial-IsOfModes p.trial_allowed_modes c m (rw t at h),
  λ f. paid-IsOfModes p.allowed_modes _ c m (rw f at h),
)

-- For a subscription with a plan, whatever mode is asked for, the mode that
-- `resolve_allowed_llm_routing_mode` resolves is one of the three that the program knows. While the
-- effective status is TRIALING it is of the modes of the plan for a trial, or the cheapest; otherwise,
-- if the plan names modes, it is one of them or the cheapest. A known mode of that list is resolved as
-- it is asked for.
pub resolve_allowed_llm_routing_mode-IsEntitled :
    (subscription : SubscriptionState) (p : RoutingPlan) (requested : Option Text) (fallback : Text)
    → subscription.plan ≡ some p
    → let r = resolve_allowed_llm_routing_mode subscription requested fallback in
      (is_one_of llm_routing_modes r.resolved_mode ≡ true)
      × IsEntitled p
          (upper (or_text (some subscription.effective_status) subscription.status))
          (candidate_mode requested r.default_mode)
          r.resolved_mode
unfolding resolve_allowed_llm_routing_mode modes_allowed
resolve_allowed_llm_routing_mode-IsEntitled subscription p requested fallback e =
    let r = resolve_allowed_llm_routing_mode subscription requested fallback in
    let c = candidate_mode requested r.default_mode in
    let picked =
      picked-IsKnown r.allowed_modes c (modes_allowed-All r.subscription_status subscription.plan)
        (modes_allowed-first r.subscription_status subscription.plan) in
    (
      picked.1,
      plan-IsEntitled p r.subscription_status c r.resolved_mode (
          subst (λ o. IsOfModes (plan_modes r.subscription_status o) c r.resolved_mode) e
            (allowed-IsOfModes (plan_modes r.subscription_status subscription.plan) c
              r.resolved_mode picked.0 picked.2)),
    )

active_of :
    (status : Text) (ended : Bool)
    → is_one_of subscription_active_statuses
        (if text_eq (codes "TRIALING") status && ended then codes "EXPIRED" else status)
      ≡ (text_eq (codes "ACTIVE") status || text_eq (codes "TRIALING") status && not ended)
active_of status ended = elim (Bool-cases (text_eq (codes "TRIALING") status)) [
  | inl t ↦
      subst
        (λ x.
          is_one_of subscription_active_statuses
            (if text_eq (codes "TRIALING") x && ended then codes "EXPIRED" else x)
          ≡ (text_eq (codes "ACTIVE") x || text_eq (codes "TRIALING") x && not ended))
        (text_eq_sound (codes "TRIALING") status t) (trialing ended)
  | inr f ↦ simp f (elim (Bool-cases (text_eq (codes "ACTIVE") status)) [
    | inl a ↦ simp a refl
    | inr a ↦ simp a refl
  ])
]
  where
    trialing :
        (ended : Bool)
        → is_one_of subscription_active_statuses
            (if ended then codes "EXPIRED" else codes "TRIALING")
          ≡ not ended
    trialing true = refl
    trialing false = refl

-- A trial without an end, or one that ends now or later.
abbrev pub RunsAt : Option ℕ → ℕ → Type 0
RunsAt none now = Unit {0}
RunsAt (some t) now = now ≤ t

abbrev pub IsRunning : ℕ → Option SubscriptionRow → Type 0
IsRunning now none = ⊥
IsRunning now (some row) =
    (upper row.status ≡ codes "ACTIVE")
    ⊎ ((upper row.status ≡ codes "TRIALING") × RunsAt row.trial_ends_at now)

has_ended-RunsAt : (t : Option ℕ) (now : ℕ) → (has_ended t now ≡ false) ↔ RunsAt t now
has_ended-RunsAt none now = ((λ h. tt), (λ h. refl))
has_ended-RunsAt (some t) now = ((λ h. ground arith), (λ h. ground arith))

-- The status is read in capitals, and an empty one is none.
status_of-eq :
    (row : SubscriptionRow) (x : ℕ) (s : Text)
    → (text_eq (x ∷ s) (codes "NONE") ≡ false)
    → (text_eq (x ∷ s) (status_of row) ≡ true) ↔ (upper row.status ≡ x ∷ s)
status_of-eq row x s other = go row.status refl
  where
    go :
        (t : Text)
        → row.status ≡ t
        → (text_eq (x ∷ s) (status_of row) ≡ true) ↔ (upper row.status ≡ x ∷ s)
    go [] e = rw e ((λ h. absurd (cc (h, other))), (λ h. absurd (cc)))
    go (c ∷ t) e = rw e (
      (λ h. sym (text_eq_sound (x ∷ s) (upper (c ∷ t)) h)),
      (λ h. subst (λ y. text_eq (x ∷ s) y ≡ true) (sym h) (text_eq_refl (x ∷ s))),
    )

-- The subscription of an organization is active just where there is a row whose status, in capitals,
-- is ACTIVE, or is TRIALING with a trial that has no end or does not end before now.
pub subscription_from_row-active :
    (now : ℕ) (row : Option SubscriptionRow)
    → ((subscription_from_row now row).is_active ≡ true) ↔ IsRunning now row
unfolding subscription_from_row
subscription_from_row-active now none = ((λ h. absurd (cc)), (λ h. absurd h))
subscription_from_row-active now (some row) =
    let same = active_of (status_of row) (has_ended row.trial_ends_at now) in
    let active : (text_eq (codes "ACTIVE") (status_of row) ≡ true)
        ↔ (upper row.status ≡ codes "ACTIVE") =
      status_of-eq row _ _ refl in
    let trialing : (text_eq (codes "TRIALING") (status_of row) ≡ true)
        ↔ (upper row.status ≡ codes "TRIALING") =
      status_of-eq row _ _ refl in
    let runs = has_ended-RunsAt row.trial_ends_at now in
    (
      (λ h.
          let some_case = sym same ∙ h in
          elim (Bool-cases (text_eq (codes "ACTIVE") (status_of row))) [
            | inl t ↦ inl (active.0 t)
            | inr f ↦
                let on_trial : text_eq (codes "TRIALING") (status_of row) ≡ true = ground arith in
                let lasts : has_ended row.trial_ends_at now ≡ false = ground arith in
                inr (trialing.0 on_trial, runs.0 lasts)
          ]),
      (λ h. same ∙ elim h [
        | inl t ↦ rw (active.1 t) refl
        | inr (t, l) ↦ let on_trial = trialing.1 t in let lasts = runs.1 l in ground arith
      ]),
    )
