-- ===== src/Metering/Keys.antt =====
-- The idempotency keys of services/metering_service.py.
use shiku_ai_powered_sales_d.Prelude.{
  Bool, Bool-cases, List, Option, Text, [], find_row, inl, inr, none, refl, some, sym, text_eq_refl,
  true, ℕ, ◌++◌, ◌∙◌, ◌∷◌, ◌≡◌,
}
use shiku_ai_powered_sales_d.Metering.Schema.{Action, Meter, Period, Tenancy}
use shiku_ai_powered_sales_d.Metering.Periods.{ensure_billing_period_snapshot}
use shiku_ai_powered_sales_d.Metering.Actions.{
  Usage, existing, has_key, is_keyed, new_action, or_insert, record_ai_usage_action,
}
use mathlib.Core.Path.{subst}

find_row-append {ℓ} :
    {A : Type ℓ} (p : A → Bool) (xs : List A) (x : A)
    → find_row p xs ≡ none
    → p x ≡ true
    → find_row p (xs ++ x ∷ []) ≡ some x
find_row-append p [] x h t = rw t refl
find_row-append p (y ∷ xs) x h t = elim (Bool-cases (p y)) [
  | inl e ↦ let bad : find_row p (y ∷ xs) ≡ some y = rw e refl in absurd (cc)
  | inr e ↦ let tail : find_row p xs ≡ none = cc in rw e (find_row-append p xs x tail t)
]

actions-ensure :
    (t : Tenancy) (now org : ℕ) (st : Meter)
    → (ensure_billing_period_snapshot t now org st).1.actions ≡ st.actions
unfolding ensure_billing_period_snapshot
actions-ensure t now org st = refl

-- What the key finds after an insertion is the row of the insertion.
existing-or_insert :
    (u : Usage) (p : Period) (st : Meter) (c : ℕ) (key : Text) (o : Option Action)
    → u.idempotency_key ≡ some (c ∷ key)
    → existing u.idempotency_key st.actions ≡ o
    → existing u.idempotency_key (or_insert u p st o).1.actions ≡ some (or_insert u p st o).0
existing-or_insert u p st c key (some a) k e = e
existing-or_insert u p st c key none k e =
    subst (λ x. existing x (st.actions ++ new_action u p st ∷ []) ≡ some (new_action u p st))
      (sym k)
      (find_row-append (is_keyed (c ∷ key)) st.actions (new_action u p st)
        (subst (λ x. existing x st.actions ≡ none) k e)
        (subst (λ x. has_key (c ∷ key) x ≡ true) (sym k) (text_eq_refl (c ∷ key))))

existing-record :
    (t : Tenancy) (now : ℕ) (u : Usage) (st : Meter) (c : ℕ) (key : Text)
    → u.idempotency_key ≡ some (c ∷ key)
    → existing u.idempotency_key (record_ai_usage_action t now u st).1.actions
      ≡ some (record_ai_usage_action t now u st).0
unfolding record_ai_usage_action
existing-record t now u st c key k =
    let (p, st') = ensure_billing_period_snapshot t now u.organization_id st in
    existing-or_insert u p st' c key (existing u.idempotency_key st'.actions) k refl

record-existing :
    (t : Tenancy) (now : ℕ) (u : Usage) (st : Meter) (a : Action)
    → existing u.idempotency_key st.actions ≡ some a
    → let (b, st') = record_ai_usage_action t now u st in (b ≡ a) × (st'.actions ≡ st.actions)
unfolding record_ai_usage_action
record-existing t now u st a e =
    let st' = (ensure_billing_period_snapshot t now u.organization_id st).1 in
    let same : st'.actions ≡ st.actions = actions-ensure t now u.organization_id st in
    let e' : existing u.idempotency_key st'.actions ≡ some a = rw same e in rw e' (refl, same)

-- If two calls of `record_ai_usage_action` carry the same key and it is not empty, the second
-- returns the row that the first returned and leaves the table of actions as the first left it,
-- whatever the other arguments, the time and the organization of the two calls.
pub record_ai_usage_action-idempotent :
    (t : Tenancy) (now later : ℕ) (u v : Usage) (st : Meter) (c : ℕ) (key : Text)
    → u.idempotency_key ≡ some (c ∷ key)
    → v.idempotency_key ≡ some (c ∷ key)
    → let (a, first) = record_ai_usage_action t now u st in
      let (b, second) = record_ai_usage_action t later v first in
      (b ≡ a) × (second.actions ≡ first.actions)
record_ai_usage_action-idempotent t now later u v st c key ku kv =
    let first = (record_ai_usage_action t now u st).1 in
    let found = existing-record t now u st c key ku in
    record-existing t later v first (record_ai_usage_action t now u st).0 (
      subst (λ k. existing k first.actions ≡ some (record_ai_usage_action t now u st).0)
        (ku ∙ sym kv) found)
