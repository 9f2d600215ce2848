-- ===== src/Metering/Billing.antt =====
-- What a customer is billed, and the scope of one metered action.
use shiku_ai_powered_sales_d.Prelude.{
  ==_iff, All, Bool, List, Option, Text, [], any, ap, arith, false, none, refl, select,
  select-last_out, some, true, update_rows, update_rows-append, update_rows_unmet, ℕ, ◌++◌, ◌==◌,
  ◌∙◌, ◌∷◌, ◌≡◌,
}
use shiku_ai_powered_sales_d.Metering.Schema.{Action, Meter, Period, Tenancy}
use shiku_ai_powered_sales_d.Metering.Periods.{ensure_billing_period_snapshot}
use shiku_ai_powered_sales_d.Metering.Actions.{
  Change, Outcome, Usage, ai_usage_action_context, change_action, close_action, existing,
  has_action_id, mark_error, nonzero, raised, record_ai_usage_action, returned,
  set_current_ai_action_id, update_ai_usage_action,
}
use shiku_ai_powered_sales_d.Metering.Economics.{credits_of, is_billed, sum_of}

-- The credits that an organization is billed for a period.
abbrev pub billed_credits : ℕ → Period → List Action → ℕ
billed_credits org p actions = sum_of credits_of (select (is_billed org p) actions)

-- The identifier that comes next is no row's, and not 0.
abbrev pub IsFresh : Meter → Type 0
IsFresh st =
    (((st.next_action_id == 0) ≡ false))
    × All (λ (a : Action). has_action_id st.next_action_id a ≡ false) st.actions

-- A row that is marked as an error is not billed.
error-unbilled :
    (org : ℕ) (p : Period) (e : Text) (a : Action)
    → is_billed org p (change_action (mark_error e) a) ≡ false
error-unbilled org p e a = ground arith

any-last :
    (p : Action → Bool) (xs : List Action) (x : Action) → p x ≡ true → any p (xs ++ x ∷ []) ≡ true
any-last p [] x h = rw h refl
any-last p (y ∷ xs) x h = ground (arith, any-last p xs x h)

update_rows-last :
    (p : Action → Bool) (f : Action → Action) (xs : List Action) (x : Action)
    → All (λ y. p y ≡ false) xs
    → p x ≡ true
    → update_rows p f (xs ++ x ∷ []) ≡ xs ++ f x ∷ []
update_rows-last p f xs x fresh h =
    let one : update_rows p f (x ∷ []) ≡ f x ∷ [] = rw h refl in
    update_rows-append p f xs (x ∷ [])
    ∙ ap (λ r. update_rows p f xs ++ r) one
    ∙ ap (λ r. r ++ f x ∷ []) (update_rows_unmet p f xs fresh)

update-inserted :
    (k : ℕ) (c : Change) (st : Meter) (actions : List Action) (a : Action)
    → (k == 0) ≡ false
    → has_action_id k a ≡ true
    → All (λ (b : Action). has_action_id k b ≡ false) actions
    → st.actions ≡ actions ++ a ∷ []
    → (update_ai_usage_action k c st).1.actions ≡ actions ++ change_action c a ∷ []
unfolding update_ai_usage_action
update-inserted k c st actions a nonzero is_k fresh e =
    let there : any (has_action_id k) st.actions ≡ true =
      ap (any (has_action_id k)) e ∙ any-last (has_action_id k) actions a is_k in
    simp (nonzero, there)
      (ap (update_rows (has_action_id k) (change_action c)) e
        ∙ update_rows-last (has_action_id k) (change_action c) actions a fresh is_k)

close_raised :
    {A : Type 0} (k : ℕ) (r : Outcome A × Meter) (e : Text)
    → r.0 ≡ raised e
    → (close_action k r).1 ≡ (update_ai_usage_action k (mark_error e) r.1).1
close_raised k (returned x, st) e h = absurd (cc)
close_raised k (raised x, st) e h =
    let same : x ≡ e = cc in ap (λ y. (update_ai_usage_action k (mark_error y) st).1) same

existing-none : (o : Option Text) (actions : List Action) → o ≡ none → existing o actions ≡ none
existing-none none actions h = refl
existing-none (some x) actions h = absurd (cc)

-- What the record of a usage without a key inserts.
record-inserted :
    (t : Tenancy) (now : ℕ) (u : Usage) (st : Meter)
    → u.idempotency_key ≡ none
    → let (a, st1) = record_ai_usage_action t now u st in
      (a.id ≡ st.next_action_id) × (st1.actions ≡ st.actions ++ a ∷ [])
unfolding record_ai_usage_action ensure_billing_period_snapshot
record-inserted t now u st h = simp (existing-none u.idempotency_key st.actions h) (refl, refl)

-- An action whose body raises is not billed: if it carries no key, the next identifier is fresh and
-- not 0, and the body raises and leaves the table of actions as it finds it, then after the block the
-- credits billed to any organization for any period are those billed before it.
pub ai_usage_action_context-unbilled :
    {A : Type 0} (t : Tenancy) (now : ℕ) (u : Usage) (body : Action → Meter → Outcome A × Meter)
    (st : Meter) (e : Text) (org : ℕ) (p : Period)
    → u.idempotency_key ≡ none
    → IsFresh st
    → ((a : Action) (s : Meter) → (body a s).0 ≡ raised e)
    → ((a : Action) (s : Meter) → (body a s).1.actions ≡ s.actions)
    → billed_credits org p (ai_usage_action_context t now u body st).1.actions
      ≡ billed_credits org p st.actions
unfolding ai_usage_action_context
ai_usage_action_context-unbilled t now u body st e org p no_key fresh raises leaves =
    let (a, st1) = record_ai_usage_action t now u st in
    let (is_next, inserted) = record-inserted t now u st no_key in
    let entered = set_current_ai_action_id (nonzero a.id) st1 in
    let r = body a entered in
    let is_k : has_action_id st.next_action_id a ≡ true =
      (==_iff a.id st.next_action_id).1 is_next in
    let updated =
      update-inserted st.next_action_id (mark_error e) r.1 st.actions a fresh.0 is_k fresh.1
        (leaves a entered ∙ inserted) in
    ap (λ (m : Meter). billed_credits org p m.actions) (close_raised a.id r e (raises a entered))
    ∙ ap (λ k. billed_credits org p (update_ai_usage_action k (mark_error e) r.1).1.actions) is_next
    ∙ ap (billed_credits org p) updated
    ∙ ap (sum_of credits_of) (
        select-last_out (is_billed org p) st.actions (change_action (mark_error e) a)
          (error-unbilled org p e a))
