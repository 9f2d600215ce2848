-- ===== src/Leads/Statements.antt =====
-- What the statements of services/lead_service.py find and leave in the table of leads.
use shiku_ai_powered_sales_d.Prelude.{
  ==_refl, All, All-weaken, Bool, Bool-cases, List, Text, [], any, arith, find_row, inl, inr, lower,
  map, refl, select, some, some_eq, strip, true, update_rows, ℕ, ◌++◌, ◌∙◌, ◌∷◌, ◌≡◌,
}
use shiku_ai_powered_sales_d.Store.Schema.{LeadStatus}
use shiku_ai_powered_sales_d.Leads.Schema.{LeadOutcome, LeadRow, done, raised}
use shiku_ai_powered_sales_d.Leads.Normalize.{is_email, normalize_email, normalize_status}
use shiku_ai_powered_sales_d.Leads.Edit.{
  LeadChange, assignment_of, assignments_of, has_email, is_lead, set_column, set_email,
  set_email_opt_out, set_icp_score, set_phone_number, set_status, then_do,
}
use shiku_ai_powered_sales_d.Leads.Remove.{id_of_lead, is_own_listed}
use shiku_ai_powered_sales_d.Leads.Keeps.{KeepsAddress, KeepsOwner}
use mathlib.Core.Path.{subst}

pub any-find_row {ℓ} :
    {A : Type ℓ} (q : A → Bool) (xs : List A) {x : A} → find_row q xs ≡ some x → any q xs ≡ true
any-find_row q [] e = absurd (cc)
any-find_row q (x ∷ xs) e = elim (Bool-cases (q x)) [
  | inl t ↦ rw t refl
  | inr f ↦ rw f (any-find_row q xs (rw f at e))
]

pub any-last {ℓ} :
    {A : Type ℓ} (q : A → Bool) (xs : List A) (x : A) → q x ≡ true → any q (xs ++ x ∷ []) ≡ true
any-last q [] x h = rw h refl
any-last q (y ∷ ys) x h = ground (arith, any-last q ys x h)

pub any-update_rows {ℓ} :
    {A : Type ℓ} (p q : A → Bool) (f : A → A) (xs : List A)
    → ((x : A) → p (f x) ≡ p x)
    → any p (update_rows q f xs) ≡ any p xs
any-update_rows p q f [] same = refl
any-update_rows p q f (x ∷ xs) same = elim (Bool-cases (q x)) [
  | inl t ↦ rw (t, same x, any-update_rows p q f xs same) refl
  | inr n ↦ rw (n, any-update_rows p q f xs same) refl
]

pub is_lead-KeepsOwner :
    (k org : ℕ) (f : LeadRow → LeadRow)
    → KeepsOwner f
    → (x : LeadRow) → is_lead k org (f x) ≡ is_lead k org x
is_lead-KeepsOwner k org f keep x = rw ((keep x).0, (keep x).1) refl

abbrev pub HasAddress : LeadOutcome Text → Type 0
HasAddress (raised e) = Unit
HasAddress (done a) = is_email a ≡ true

pub normalize_email-HasAddress : (t : Text) → HasAddress (normalize_email t)
unfolding normalize_email
normalize_email-HasAddress t = elim (Bool-cases (is_email (lower (strip t)))) [
  | inl e ↦ rw e e
  | inr n ↦ rw n tt
]

-- The rows of the list that belong to the organization are there.
pub own_listed :
    (ks : List ℕ) (org : ℕ) (ls : List LeadRow)
    → All (λ k. any (is_lead k org) ls ≡ true) (map id_of_lead (select (is_own_listed ks org) ls))
own_listed ks org [] = tt
own_listed ks org (l ∷ ls) =
    let more =
      All-weaken (λ k. any (is_lead k org) ls ≡ true) (λ k. any (is_lead k org) (l ∷ ls) ≡ true)
        (map id_of_lead (select (is_own_listed ks org) ls)) (λ k e. ground arith)
        (own_listed ks org ls) in
    elim (Bool-cases (is_own_listed ks org l)) [
      | inl t ↦ rw t (ground (arith, ==_refl l.id), more)
      | inr n ↦ rw n more
    ]

-- The lead that a query by address finds is there under its identifier.
pub found_own :
    (org : ℕ) (a : Text) (ls : List LeadRow) {l : LeadRow}
    → find_row (has_email org a) ls ≡ some l
    → any (is_lead l.id org) ls ≡ true
found_own org a [] e = absurd (cc)
found_own org a (x ∷ ls) {l} e = elim (Bool-cases (has_email org a x)) [
  | inl t ↦
      let same : x ≡ l = some_eq (rw t at e) in
      subst (λ y. any (is_lead y.id org) (x ∷ ls) ≡ true) same (ground (arith, ==_refl x.id))
  | inr n ↦ let rest = found_own org a ls (rw n at e) in ground arith
]

-- What the changes of `update_lead` leave.
abbrev pub IsAssignment : LeadOutcome (LeadRow → LeadRow) → Type 0
IsAssignment (raised e) = Unit
IsAssignment (done f) = KeepsOwner f × KeepsAddress f

pub assignment_of-IsAssignment : (c : LeadChange) → IsAssignment (assignment_of c)
assignment_of-IsAssignment (set_email t) = go (normalize_email t) (normalize_email-HasAddress t)
  where
    go :
        (o : LeadOutcome Text)
        → HasAddress o
        → IsAssignment (then_do o (λ address. done (λ l. record l { email = address })))
    go (raised e) h = tt
    go (done a) h = (λ l. (refl, refl), λ l k. h)
assignment_of-IsAssignment (set_phone_number v) = (λ l. (refl, refl), λ l h. h)
assignment_of-IsAssignment (set_status v) = go (normalize_status v)
  where
    go :
        (o : LeadOutcome LeadStatus)
        → IsAssignment (then_do o (λ s. done (λ l. record l { status = s })))
    go (raised e) = tt
    go (done s) = (λ l. (refl, refl), λ l h. h)
assignment_of-IsAssignment (set_email_opt_out v) = (λ l. (refl, refl), λ l h. h)
assignment_of-IsAssignment (set_column c v) = (λ l. (refl, refl), λ l h. h)
assignment_of-IsAssignment (set_icp_score v) = (λ l. (refl, refl), λ l h. h)

pub assignments_of-IsAssignment : (cs : List LeadChange) → IsAssignment (assignments_of cs)
unfolding assignments_of
assignments_of-IsAssignment [] = (λ l. (refl, refl), λ l h. h)
assignments_of-IsAssignment (c ∷ cs) =
    both (assignment_of c) (assignments_of cs) (assignment_of-IsAssignment c)
      (assignments_of-IsAssignment cs)
  where
    both :
        (o r : LeadOutcome (LeadRow → LeadRow))
        → IsAssignment o
        → IsAssignment r
        → IsAssignment (then_do o (λ f. then_do r (λ g. done (λ l. g (f l)))))
    both (raised e) r a b = tt
    both (done f) (raised e) a b = tt
    both (done f) (done g) a b =
        (λ l. ((b.0 (f l)).0 ∙ (a.0 l).0, (b.0 (f l)).1 ∙ (a.0 l).1), λ l h. b.1 (f l) (a.1 l h))
