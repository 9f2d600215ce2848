-- ===== src/Prelude/Sort.antt =====
-- Sorting by a key, stable, and `sorted(set(...))`.
use Prim.Native.Nat.{ℕ, ◌≤◌}
use mathlib.Core.Logic.{inl, inr}
use mathlib.Core.List.{List, [], ◌∷◌, ◌++◌}
use mathlib.Core.Bool.{false}
use mathlib.Core.Path.{◌≡◌, refl, ap, ◌∙◌}
use native.Mathlib.Omega.{arith}
use shiku_ai_powered_sales_d.Prelude.Lists.{All}
use shiku_ai_powered_sales_d.Prelude.Tests.{Bool-cases, ltb, ◌==◌, if◌then◌else◌}

module _ {ℓ} {A : Type ℓ} (key : A → ℕ) where
  -- Before the first row with a greater key.
  abbrev pub insert_by : A → List A → List A
  insert_by x [] = x ∷ []
  insert_by x (y ∷ ys) = if ltb (key x) (key y) then x ∷ y ∷ ys else y ∷ insert_by x ys

  abbrev insert_all : List A → List A → List A
  insert_all [] out = out
  insert_all (x ∷ xs) out = insert_all xs (insert_by x out)

  -- `ORDER BY key ASC`: rows with one key keep the order of the table.
  unfoldable pub sort_by : List A → List A
  sort_by xs = insert_all xs []

-- Into a list in ascending order, unless it is there.
abbrev pub insert_new : ℕ → List ℕ → List ℕ
insert_new x [] = x ∷ []
insert_new x (y ∷ ys) =
    if x == y then y ∷ ys else if ltb x y then x ∷ y ∷ ys else y ∷ insert_new x ys

-- `sorted(set(xs))`
unfoldable pub sorted_set : List ℕ → List ℕ
sorted_set [] = []
sorted_set (x ∷ xs) = insert_new x (sorted_set xs)

module _ {ℓ κ} {A : Type ℓ} (key : A → ℕ) (P : A → Type κ) where
  All-insert_by : (x : A) (ys : List A) → P x → All P ys → All P (insert_by key x ys)
  All-insert_by x [] h hs = (h, tt)
  All-insert_by x (y ∷ ys) h hs = elim (Bool-cases (ltb (key x) (key y))) [
    | inl t ↦ rw t (h, hs)
    | inr f ↦ rw f (hs.0, All-insert_by x ys h hs.1)
  ]

  All-insert_all : (xs out : List A) → All P xs → All P out → All P (insert_all key xs out)
  All-insert_all [] out h ho = ho
  All-insert_all (x ∷ xs) out h ho =
      All-insert_all xs (insert_by key x out) h.1 (All-insert_by x out h.0 ho)

  -- Sorting keeps what holds of every row.
  pub All-sort_by : (xs : List A) → All P xs → All P (sort_by key xs)
  unfolding sort_by
  All-sort_by xs h = All-insert_all xs [] h tt

module _ {ℓ} {A : Type ℓ} (key : A → ℕ) where
  insert_by-last :
      (x : A) (ys : List A) → All (λ y. key y ≤ key x) ys → insert_by key x ys ≡ ys ++ x ∷ []
  insert_by-last x [] h = refl
  insert_by-last x (y ∷ ys) h =
      let f : ltb (key x) (key y) ≡ false = ground (arith, h.0) in
      rw f (ap (λ r. y ∷ r) (insert_by-last x ys h.1))

  insert_all-last :
      (xs out : List A) (x : A)
      → insert_all key (xs ++ x ∷ []) out ≡ insert_by key x (insert_all key xs out)
  insert_all-last [] out x = refl
  insert_all-last (y ∷ xs) out x = insert_all-last xs (insert_by key y out) x

  -- A last row whose key is the greatest stays the last.
  pub sort_by-last :
      (xs : List A) (x : A)
      → All (λ y. key y ≤ key x) xs
      → sort_by key (xs ++ x ∷ []) ≡ sort_by key xs ++ x ∷ []
  unfolding sort_by
  sort_by-last xs x h =
      insert_all-last xs [] x
      ∙ insert_by-last x (sort_by key xs) (All-sort_by key (λ y. key y ≤ key x) xs h)
