-- ===== src/Tenancy/Selection.antt =====
-- What the selection of a plan in services/tenant_service.py makes of the subscription.
use shiku_ai_powered_sales_d.Prelude.{
  ==_refl, Bool, Bool-cases, List, Option, [], ap, arith, false, find_row, find_row-unread, inl,
  inr, leb, ltb, none, refl, some, true, ℕ, ◌&&◌, ◌++◌, ◌==◌, ◌||◌, ◌∙◌, ◌∷◌, ◌≡◌,
}
use shiku_ai_powered_sales_d.Tenancy.Routing.{RoutingPlan, subscription_from_row}
use shiku_ai_powered_sales_d.Tenancy.Users.{AppUser}
use shiku_ai_powered_sales_d.Tenancy.Plans.{
  OrganizationSubscription, PlanOutcome, PlanRow, PlanTables, get_organization_subscription,
  get_subscription_plan, has_subscription_id, in_days, is_of_organization, new_subscription,
  put_plan, refused_plan, select_organization_plan, selected_status, set_plan, stored,
  subscription_row, trial_end,
}

find_row-last {ℓ} :
    {A : Type ℓ} (q : A → Bool) (xs : List A) (x : A)
    → find_row q xs ≡ none
    → q x ≡ true
    → find_row q (xs ++ x ∷ []) ≡ some x
find_row-last q [] x e t = rw t refl
find_row-last q (y ∷ ys) x e t = elim (Bool-cases (q y)) [
  | inl a ↦ absurd (cc (rw a at e))
  | inr b ↦ rw b (find_row-last q ys x (rw b at e) t)
]

-- What is active of a plan selected at a time.
abbrev pub is_running : ℕ → ℕ → PlanRow → Bool
is_running now later p = p.trial_days == 0 || leb later (in_days now p.trial_days)

state_of_selected :
    (now later : ℕ) (p : PlanRow) (r : RoutingPlan)
    → (subscription_from_row later (
        some (record {
          status = selected_status p;
          trial_ends_at = trial_end now p;
          plan = r;
        }))).is_active
      ≡ is_running now later p
unfolding subscription_from_row
state_of_selected now later p r = elim (Bool-cases (p.trial_days == 0)) [
  | inl t ↦ rw t refl
  | inr n ↦ elim (Bool-cases (ltb (in_days now p.trial_days) later)) [
    | inl a ↦
        let b : leb later (in_days now p.trial_days) ≡ false = ground arith in rw (n, a, b) refl
    | inr a ↦
        let b : leb later (in_days now p.trial_days) ≡ true = ground arith in rw (n, a, b) refl
  ]
]

-- Who may select, and the state that is read after a selection.
abbrev pub IsSelected : Bool → ℕ → ℕ → ℕ → PlanRow → PlanOutcome → Type 0
IsSelected allowed now later org p (refused_plan e) = allowed ≡ false
IsSelected allowed now later org p (stored db) =
    (allowed ≡ true)
    × ((get_organization_subscription later org db).is_active ≡ is_running now later p)

found_selected :
    (now later org : ℕ) (p : PlanRow) (db : PlanTables) (s : OrganizationSubscription)
    → find_row (is_of_organization org) db.subscriptions ≡ some s
    → s.plan_id ≡ p.id
    → s.status ≡ selected_status p
    → s.trial_ends_at ≡ trial_end now p
    → get_subscription_plan p.id db ≡ some p
    → (get_organization_subscription later org db).is_active ≡ is_running now later p
unfolding get_organization_subscription
found_selected now later org p db s f k st tr plan =
    let row : subscription_row (find_row (is_of_organization org) db.subscriptions) db
        ≡ some (record {
          status = selected_status p;
          trial_ends_at = trial_end now p;
          plan = p.routing;
        }) =
      ap (λ o. subscription_row o db) f ∙ rw (k, plan, st, tr) refl in
    rw row (state_of_selected now later p p.routing)

put_plan-is_running :
    (now later org : ℕ) (p : PlanRow) (db : PlanTables) (o : Option OrganizationSubscription)
    → find_row (is_of_organization org) db.subscriptions ≡ o
    → get_subscription_plan p.id db ≡ some p
    → (get_organization_subscription later org (put_plan now org p o db)).is_active
      ≡ is_running now later p
put_plan-is_running now later org p db none f plan =
    let row = new_subscription now p org db.next_subscription_id in
    found_selected now later org p (put_plan now org p none db) row
      (find_row-last (is_of_organization org) db.subscriptions row f (==_refl org)) refl refl refl
      plan
put_plan-is_running now later org p db (some s) f plan =
    found_selected now later org p (put_plan now org p (some s) db) (set_plan now p s)
      (find_row-unread (is_of_organization org) (has_subscription_id s.id) (set_plan now p)
          db.subscriptions (λ x. refl)
        ∙ rw (f, ==_refl s.id) refl)
      refl refl refl plan

-- A selection is stored exactly if the user is an owner of the platform and the plan is active; it
-- leaves the organization with a subscription that is active at a later
-- time exactly if the plan has no trial or the trial, counted from the selection, has not ended,
-- whatever subscription the organization had.
pub select_organization_plan-IsSelected :
    (u : AppUser) (now later org : ℕ) (p : PlanRow) (db : PlanTables)
    → get_subscription_plan p.id db ≡ some p
    → IsSelected
        (u.is_system_owner && p.active)
        now
        later
        org
        p
        (select_organization_plan u now org p.id db)
unfolding select_organization_plan
select_organization_plan-IsSelected u now later org p db plan =
    elim (Bool-cases u.is_system_owner) [
      | inr f ↦ rw f refl
      | inl t ↦ elim (Bool-cases p.active) [
        | inr n ↦ rw (t, plan, n) refl
        | inl a ↦
            rw (t, plan, a)
              (
                refl,
                put_plan-is_running now later org p db
                    (find_row (is_of_organization org) db.subscriptions) refl plan,
              )
      ]
    ]
