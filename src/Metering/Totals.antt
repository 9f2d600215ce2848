-- ===== src/Metering/Totals.antt =====
-- The groups of `get_action_unit_economics` account for every row of the query, once.
use shiku_ai_powered_sales_d.Prelude.{
  All, Bool-cases, List, Option, Text, [], arith, false, inl, inr, length, refl, text_eq, ℕ, ◌+◌,
  ◌∙◌, ◌∷◌, ◌≡◌,
}
use shiku_ai_powered_sales_d.Metering.Schema.{Meter}
use shiku_ai_powered_sales_d.Metering.Economics.{
  Bucket, Joined, add_row, add_to, get_action_unit_economics, group_rows, joined_rows, new_bucket,
  sum_of,
}

-- What a call of `add_row` adds to the total of one column.
sum-add_row :
    (f : Bucket → ℕ) (n : ℕ) (r : Joined) (bs : List Bucket)
    → f (new_bucket r.action_type) ≡ 0
    → ((b : Bucket) → f (add_to r b) ≡ f b + n)
    → sum_of f (add_row r bs) ≡ sum_of f bs + n
sum-add_row f n r [] z step = omega (arith, z, step (new_bucket r.action_type))
sum-add_row f n r (b ∷ bs) z step = elim (Bool-cases (text_eq b.action_type r.action_type)) [
  | inl e ↦ rw e (omega (arith, step b))
  | inr e ↦ rw e (omega (arith, sum-add_row f n r bs z step))
]

sum-group_rows :
    (f : Bucket → ℕ) (g : Joined → ℕ) (rs : List Joined) (bs : List Bucket)
    → ((t : Text) → f (new_bucket t) ≡ 0)
    → ((r : Joined) (b : Bucket) → f (add_to r b) ≡ f b + g r)
    → sum_of f (group_rows rs bs) ≡ sum_of f bs + sum_of g rs
unfolding group_rows
sum-group_rows f g [] bs z step = omega arith
sum-group_rows f g (r ∷ rs) bs z step = omega (
  arith,
  sum-group_rows f g rs (add_row r bs) z step,
  sum-add_row f (g r) r bs (z r.action_type) (step r),
)

sum-group_rows_nil :
    (f : Bucket → ℕ) (g : Joined → ℕ) (rs : List Joined)
    → ((t : Text) → f (new_bucket t) ≡ 0)
    → ((r : Joined) (b : Bucket) → f (add_to r b) ≡ f b + g r)
    → sum_of f (group_rows rs []) ≡ sum_of g rs
sum-group_rows_nil f g rs z step = omega (arith, sum-group_rows f g rs [] z step)

length-sum : (rs : List Joined) → sum_of (λ (r : Joined). 1) rs ≡ length rs
length-sum [] = refl
length-sum (r ∷ rs) = omega (arith, length-sum rs)

-- No two groups are of one type of action.
abbrev pub GroupsDistinct : List Bucket → Type 0
GroupsDistinct [] = Unit {0}
GroupsDistinct (b ∷ bs) =
    All (λ (c : Bucket). text_eq b.action_type c.action_type ≡ false) bs × GroupsDistinct bs

All-add_row :
    (t : Text) (r : Joined) (bs : List Bucket)
    → text_eq t r.action_type ≡ false
    → All (λ (c : Bucket). text_eq t c.action_type ≡ false) bs
    → All (λ (c : Bucket). text_eq t c.action_type ≡ false) (add_row r bs)
All-add_row t r [] n h = (n, tt)
All-add_row t r (b ∷ bs) n h = elim (Bool-cases (text_eq b.action_type r.action_type)) [
  | inl e ↦ rw e (h.0, h.1)
  | inr e ↦ rw e (h.0, All-add_row t r bs n h.1)
]

GroupsDistinct-add_row :
    (r : Joined) (bs : List Bucket) → GroupsDistinct bs → GroupsDistinct (add_row r bs)
GroupsDistinct-add_row r [] h = (tt, tt)
GroupsDistinct-add_row r (b ∷ bs) h = elim (Bool-cases (text_eq b.action_type r.action_type)) [
  | inl e ↦ rw e (h.0, h.1)
  | inr e ↦ rw e (All-add_row b.action_type r bs e h.0, GroupsDistinct-add_row r bs h.1)
]

GroupsDistinct-group_rows :
    (rs : List Joined) (bs : List Bucket) → GroupsDistinct bs → GroupsDistinct (group_rows rs bs)
unfolding group_rows
GroupsDistinct-group_rows [] bs h = h
GroupsDistinct-group_rows (r ∷ rs) bs h =
    GroupsDistinct-group_rows rs (add_row r bs) (GroupsDistinct-add_row r bs h)

-- The groups of `get_action_unit_economics` are of different types of action, and their counts of
-- actions, credits, tokens and calls sum to those of the rows of the query: no row is lost and none
-- is counted twice.
pub get_action_unit_economics-totals :
    (org : Option ℕ) (st : Meter)
    → let rows = joined_rows org st in
      let groups = get_action_unit_economics org st in
      GroupsDistinct groups
      × (sum_of (λ (b : Bucket). b.action_count) groups ≡ length rows)
      × (sum_of (λ (b : Bucket). b.credits_used) groups
          ≡ sum_of (λ (r : Joined). r.credits_used) rows)
      × (sum_of (λ (b : Bucket). b.total_tokens) groups
          ≡ sum_of (λ (r : Joined). r.total_tokens) rows)
      × (sum_of (λ (b : Bucket). b.llm_calls) groups ≡ sum_of (λ (r : Joined). r.llm_calls) rows)
unfolding get_action_unit_economics
get_action_unit_economics-totals org st =
    let rows = joined_rows org st in
    (
      GroupsDistinct-group_rows rows [] tt,
      sum-group_rows_nil (λ (b : Bucket). b.action_count) (λ (r : Joined). 1) rows (λ t. refl)
            (λ r b. refl)
          ∙ length-sum rows,
      sum-group_rows_nil (λ (b : Bucket). b.credits_used) (λ (r : Joined). r.credits_used) rows
          (λ t. refl) (λ r b. refl),
      sum-group_rows_nil (λ (b : Bucket). b.total_tokens) (λ (r : Joined). r.total_tokens) rows
          (λ t. refl) (λ r b. refl),
      sum-group_rows_nil (λ (b : Bucket). b.llm_calls) (λ (r : Joined). r.llm_calls) rows
          (λ t. refl) (λ r b. refl),
    )
