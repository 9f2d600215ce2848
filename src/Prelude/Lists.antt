-- ===== src/Prelude/Lists.antt =====
-- Lists measured by native numbers, and lists read as the rows of a table.
use Prim.Native.Nat.{ℕ, zero, suc, ◌+◌, ◌≤◌, min}
use mathlib.Core.Path.{◌≡◌, subst, refl, ap, ◌∙◌}
use mathlib.Core.Bool.{Bool, true, false, not, ◌||◌}
use mathlib.Core.List.{List, [], ◌∷◌, ◌++◌, map}
use mathlib.Core.Logic.{inl, inr}
use mathlib.Core.Option.{Option, none, some}
use mathlib.Core.Option
use native.Mathlib.Omega.{arith}
use shiku_ai_powered_sales_d.Prelude.Tests.{Bool-cases, if◌then◌else◌}

module _ {ℓ} {A : Type ℓ} where
  abbrev pub length : List A → ℕ
  length [] = 0
  length (x ∷ xs) = suc (length xs)

  abbrev pub take : ℕ → List A → List A
  take zero xs = []
  take (suc n) [] = []
  take (suc n) (x ∷ xs) = x ∷ take n xs

  -- `SELECT ... WHERE p`, in the order of the table.
  abbrev pub select : (A → Bool) → List A → List A
  select p [] = []
  select p (x ∷ xs) = let rest = select p xs in if p x then x ∷ rest else rest

  -- `SELECT ... WHERE p` followed by `fetchone`.
  abbrev pub find_row : (A → Bool) → List A → Option A
  find_row p [] = none
  find_row p (x ∷ xs) = if p x then some x else find_row p xs

  -- `UPDATE ... SET f WHERE p`.
  abbrev pub update_rows : (A → Bool) → (A → A) → List A → List A
  update_rows p f [] = []
  update_rows p f (x ∷ xs) = (if p x then f x else x) ∷ update_rows p f xs

  -- `DELETE ... WHERE p`.
  abbrev pub delete_rows : (A → Bool) → List A → List A
  delete_rows p = select (λ x. not (p x))

  abbrev pub any : (A → Bool) → List A → Bool
  any p [] = false
  any p (x ∷ xs) = p x || any p xs

  abbrev pub count_rows : (A → Bool) → List A → ℕ
  count_rows p xs = length (select p xs)

  -- A predicate on every row.
  abbrev pub All {κ} : (A → Type κ) → List A → Type κ
  All P [] = Unit
  All P (x ∷ xs) = P x × All P xs

pub some_eq {ℓ} : {A : Type ℓ} {a b : A} → some a ≡ some b → a ≡ b
some_eq e = cc

module _ {ℓ} {A : Type ℓ} where
  pub length-append : (xs ys : List A) → length (xs ++ ys) ≡ length xs + length ys
  length-append [] ys = omega arith
  length-append (x ∷ xs) ys = omega (arith, length-append xs ys)

  -- An update of columns that a query does not read leaves what the query finds, updated.
  pub find_row-unread :
      (p r : A → Bool) (f : A → A) (xs : List A)
      → ((x : A) → p (f x) ≡ p x)
      → find_row p (update_rows r f xs) ≡ Option.map (λ x. if r x then f x else x) (find_row p xs)
  find_row-unread p r f [] same = refl
  find_row-unread p r f (x ∷ xs) same = elim (Bool-cases (r x)) [
    | inl t ↦ elim (Bool-cases (p x)) [
      | inl u ↦ let u' : p (f x) ≡ true = same x ∙ u in simp (t, u, u') refl
      | inr u ↦
          let u' : p (f x) ≡ false = same x ∙ u in simp (t, u, u') (find_row-unread p r f xs same)
    ]
    | inr t ↦ elim (Bool-cases (p x)) [
      | inl u ↦ simp (t, u) refl
      | inr u ↦ simp (t, u) (find_row-unread p r f xs same)
    ]
  ]

  pub update_rows-append :
      (p : A → Bool) (f : A → A) (xs ys : List A)
      → update_rows p f (xs ++ ys) ≡ update_rows p f xs ++ update_rows p f ys
  update_rows-append p f [] ys = refl
  update_rows-append p f (x ∷ xs) ys =
      ap (λ r. (if p x then f x else x) ∷ r) (update_rows-append p f xs ys)

  pub update_rows_unmet :
      (p : A → Bool) (f : A → A) (xs : List A) → All (λ x. p x ≡ false) xs → update_rows p f xs ≡ xs
  update_rows_unmet p f [] h = refl
  update_rows_unmet p f (x ∷ xs) h = rw h.0 (ap (λ r. x ∷ r) (update_rows_unmet p f xs h.1))

  pub length-map {κ} : {B : Type κ} (f : A → B) (xs : List A) → length (map f xs) ≡ length xs
  length-map f [] = refl
  length-map f (x ∷ xs) = ap suc (length-map f xs)

  pub length-take : (n : ℕ) (xs : List A) → length (take n xs) ≡ min n (length xs)
  length-take zero xs = omega arith
  length-take (suc n) [] = omega arith
  length-take (suc n) (x ∷ xs) = omega (arith, length-take n xs)

  pub select-append :
      (p : A → Bool) (xs ys : List A) → select p (xs ++ ys) ≡ select p xs ++ select p ys
  select-append p [] ys = refl
  select-append p (x ∷ xs) ys = elim (Bool-cases (p x)) [
    | inl t ↦ rw t (ap (λ r. x ∷ r) (select-append p xs ys))
    | inr f ↦ rw f (select-append p xs ys)
  ]

  pub append-nil : (xs : List A) → xs ++ [] ≡ xs
  append-nil [] = refl
  append-nil (x ∷ xs) = ap (λ r. x ∷ r) (append-nil xs)

  pub append_assoc : (xs ys zs : List A) → xs ++ ys ++ zs ≡ xs ++ (ys ++ zs)
  append_assoc [] ys zs = refl
  append_assoc (x ∷ xs) ys zs = ap (λ r. x ∷ r) (append_assoc xs ys zs)

  pub select-last_out :
      (p : A → Bool) (xs : List A) (x : A) → p x ≡ false → select p (xs ++ x ∷ []) ≡ select p xs
  select-last_out p xs x h =
      let none_of : select p (x ∷ []) ≡ [] = rw h refl in
      select-append p xs (x ∷ []) ∙ ap (λ r. select p xs ++ r) none_of ∙ append-nil (select p xs)

  pub select-last_in :
      (p : A → Bool) (xs : List A) (x : A)
      → p x ≡ true
      → select p (xs ++ x ∷ []) ≡ select p xs ++ x ∷ []
  select-last_in p xs x h =
      let one : select p (x ∷ []) ≡ x ∷ [] = rw h refl in
      select-append p xs (x ∷ []) ∙ ap (λ r. select p xs ++ r) one

  -- An update that a test on the rows does not see leaves what the test finds, updated.
  pub find_row-update :
      (p : A → Bool) (f : A → A) (xs : List A)
      → ((x : A) → p (f x) ≡ p x)
      → find_row p (update_rows p f xs) ≡ Option.map f (find_row p xs)
  find_row-update p f [] same = refl
  find_row-update p f (x ∷ xs) same = elim (Bool-cases (p x)) [
    | inl t ↦ let t' : p (f x) ≡ true = same x ∙ t in rw t (rw t' refl)
    | inr e ↦ rw e (rw e (find_row-update p f xs same))
  ]

  pub length-select-le : (p : A → Bool) (xs : List A) → length (select p xs) ≤ length xs
  length-select-le p [] = omega arith
  length-select-le p (x ∷ xs) = ground (arith, length-select-le p xs)

  All-update_head {κ} :
      (P : A → Type κ) (p : A → Bool) (f : A → A) (x : A)
      → ((x : A) → P x → p x ≡ true → P (f x))
      → P x
      → P (if p x then f x else x)
  All-update_head P p f x keep h = elim (Bool-cases (p x)) [
    | inl t ↦ rw t (keep x h t)
    | inr f ↦ rw f h
  ]

  All-select_head {κ} :
      (P : A → Type κ) (p : A → Bool) (x : A) (rest : List A)
      → P x
      → All P rest
      → All P (if p x then x ∷ rest else rest)
  All-select_head P p x rest h r = elim (Bool-cases (p x)) [ inl t ↦ rw t (h, r) | inr f ↦ rw f r ]

  pub All-append {κ} : (P : A → Type κ) (xs ys : List A) → All P xs → All P ys → All P (xs ++ ys)
  All-append P [] ys hx hy = hy
  All-append P (x ∷ xs) ys hx hy = (hx.0, All-append P xs ys hx.1 hy)

  -- A property that an update keeps where it applies holds of every row after it.
  pub All-update_rows {κ} :
      (P : A → Type κ) (p : A → Bool) (f : A → A) (xs : List A)
      → ((x : A) → P x → p x ≡ true → P (f x))
      → All P xs
      → All P (update_rows p f xs)
  All-update_rows P p f [] keep h = tt
  All-update_rows P p f (x ∷ xs) keep h =
      (All-update_head P p f x keep h.0, All-update_rows P p f xs keep h.1)

  pub All-select {κ} :
      (P : A → Type κ) (p : A → Bool) (xs : List A) → All P xs → All P (select p xs)
  All-select P p [] h = tt
  All-select P p (x ∷ xs) h = All-select_head P p x (select p xs) h.0 (All-select P p xs h.1)

  -- The row that a query returns satisfies the query, and what holds of every row.
  pub find_row_holds : (p : A → Bool) (xs : List A) {x : A} → find_row p xs ≡ some x → p x ≡ true
  find_row_holds p [] e = cc
  find_row_holds p (x ∷ xs) e = elim (Bool-cases (p x)) [
    | inl t ↦ subst (λ y. p y ≡ true) (some_eq (rw t at e)) t
    | inr f ↦ find_row_holds p xs (rw f at e)
  ]

  pub All-find_row {κ} :
      (P : A → Type κ) (p : A → Bool) (xs : List A) {x : A}
      → All P xs
      → find_row p xs ≡ some x
      → P x
  All-find_row P p [] h e = absurd (cc)
  All-find_row P p (x ∷ xs) h e = elim (Bool-cases (p x)) [
    | inl t ↦ subst P (some_eq (rw t at e)) h.0
    | inr f ↦ All-find_row P p xs h.1 (rw f at e)
  ]

  -- A query that some row satisfies returns a row.
  pub find_row-any :
      (p : A → Bool) (xs : List A) → any p xs ≡ true → (x : A) × (find_row p xs ≡ some x)
  find_row-any p [] h = absurd (cc)
  find_row-any p (x ∷ xs) h = elim (Bool-cases (p x)) [
    | inl t ↦ (x, rw t)
    | inr f ↦ rw f (find_row-any p xs (rw f at h))
  ]

  pub All-take {κ} : (P : A → Type κ) (n : ℕ) (xs : List A) → All P xs → All P (take n xs)
  All-take P zero xs h = tt
  All-take P (suc n) [] h = tt
  All-take P (suc n) (x ∷ xs) h = (h.0, All-take P n xs h.1)

  pub All-weaken {κ μ} :
      (P : A → Type κ) (Q : A → Type μ) (xs : List A) → ((x : A) → P x → Q x) → All P xs → All Q xs
  All-weaken P Q [] f h = tt
  All-weaken P Q (x ∷ xs) f h = (f x h.0, All-weaken P Q xs f h.1)

  -- The rows that a selection keeps satisfy its test.
  pub select-All : (p : A → Bool) (xs : List A) → All (λ x. p x ≡ true) (select p xs)
  select-All p [] = tt
  select-All p (x ∷ xs) = elim (Bool-cases (p x)) [
    | inl t ↦ rw t (t, select-All p xs)
    | inr f ↦ rw f (select-All p xs)
  ]
