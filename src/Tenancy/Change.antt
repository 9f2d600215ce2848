-- ===== src/Tenancy/Change.antt =====
-- `update_organization_subscription` of services/tenant_service.py.
use shiku_ai_powered_sales_d.Prelude.{
  List, Option, Text, [], codes, find_row, if◌then◌else◌, none, or_text, some, text_eq, update_rows,
  upper, ℕ, ◌&&◌, ◌++◌, ◌+◌, ◌==◌, ◌∷◌,
}
use shiku_ai_powered_sales_d.Store.Rows.{coalesce, is_missing}
use shiku_ai_powered_sales_d.Tenancy.Routing.{is_one_of}
use shiku_ai_powered_sales_d.Tenancy.Users.{AppUser}
use shiku_ai_powered_sales_d.Tenancy.Plans.{
  OrganizationSubscription, PlanOutcome, PlanRow, PlanTables, get_subscription_plan,
  has_subscription_id, in_days, is_of_organization, log_plan, organization_subscription_updated,
  owner_required, plan_id_required, plan_inactive, plan_not_found, refused_plan, status_invalid,
  stored,
}

-- The changes of `update_organization_subscription`; a key that is there may be `None`.
pub record SubscriptionChange : Type 0 where
  pub plan_id : Option ℕ
  pub status : Option Text
  pub trial_ends_at : Option (Option ℕ)
  pub current_period_started_at : Option (Option ℕ)
  pub current_period_ends_at : Option (Option ℕ)

-- `updates.get(key, current.get(key))`
abbrev given_or : Option (Option ℕ) → Option ℕ → Option ℕ
given_or none current = current
given_or (some v) current = v

abbrev subscription_statuses : List Text
subscription_statuses =
    codes "TRIALING" ∷ codes "ACTIVE" ∷ codes "PAST_DUE" ∷ codes "CANCELED" ∷ codes "EXPIRED" ∷ []

abbrev running_statuses : List Text
running_statuses = codes "TRIALING" ∷ codes "ACTIVE" ∷ codes "PAST_DUE" ∷ []

-- `int((plan or {}).get("trial_days") or 14)`
abbrev trial_days_of : PlanRow → ℕ
trial_days_of p = if p.trial_days == 0 then 14 else p.trial_days

abbrev changed_trial : ℕ → Text → PlanRow → Option ℕ → Option ℕ
changed_trial now status p ends =
    if text_eq (codes "TRIALING") status && is_missing ends
    then some (in_days now (trial_days_of p))
    else ends

abbrev changed_period_end : ℕ → Text → Option ℕ → Option ℕ → Option ℕ
changed_period_end now status trial ends =
    if is_missing ends && is_one_of running_statuses status
    then (if text_eq (codes "TRIALING") status then trial else some (in_days now 30))
    else ends

abbrev period_end_of : Option OrganizationSubscription → Option ℕ
period_end_of none = none
period_end_of (some s) = s.current_period_ends_at

abbrev period_start_of : ℕ → Option OrganizationSubscription → Option ℕ
period_start_of now none = some now
period_start_of now (some s) = coalesce s.current_period_started_at (some now)

abbrev trial_of : Option OrganizationSubscription → Option ℕ
trial_of none = none
trial_of (some s) = s.trial_ends_at

abbrev status_or_none : Option OrganizationSubscription → Text
status_or_none none = codes "NONE"
status_or_none (some s) = or_text (some s.status) (codes "NONE")

abbrev changed_row :
    ℕ
    → ℕ
    → ℕ
    → SubscriptionChange
    → Text
    → PlanRow
    → Option OrganizationSubscription
    → OrganizationSubscription
changed_row now org id u status p current =
    let trial = changed_trial now status p (given_or u.trial_ends_at (trial_of current)) in
    record {
      id = id;
      organization_id = org;
      plan_id = p.id;
      status = status;
      trial_ends_at = trial;
      current_period_started_at =
          given_or u.current_period_started_at (period_start_of now current);
      current_period_ends_at =
          changed_period_end now status trial
            (given_or u.current_period_ends_at (period_end_of current));
      updated_at = now;
    }

abbrev pub store_change :
    ℕ
    → ℕ
    → SubscriptionChange
    → Text
    → PlanRow
    → Option OrganizationSubscription
    → PlanTables
    → PlanTables
store_change now org u status p (some s) db =
    log_plan (organization_subscription_updated org s.id p.id status) (record db {
      subscriptions =
          update_rows (has_subscription_id s.id)
            (λ x. changed_row now x.organization_id x.id u status p (some s)) db.subscriptions;
    })
store_change now org u status p none db =
    log_plan (organization_subscription_updated org db.next_subscription_id p.id status)
      (record db {
        subscriptions =
            db.subscriptions ++ changed_row now org db.next_subscription_id u status p none ∷ [];
        next_subscription_id = db.next_subscription_id + 1;
      })

abbrev with_status :
    ℕ
    → ℕ
    → SubscriptionChange
    → Text
    → PlanRow
    → Option OrganizationSubscription
    → PlanTables
    → PlanOutcome
with_status now org u status p current db =
    if is_one_of subscription_statuses status
    then stored (store_change now org u status p current db)
    else refused_plan status_invalid

-- `str(updates.get("status") or current.get("status") or "ACTIVE").upper()`
abbrev with_plan :
    ℕ
    → ℕ
    → SubscriptionChange
    → PlanRow
    → Option OrganizationSubscription
    → PlanTables
    → PlanOutcome
with_plan now org u p current db =
    with_status now org u (upper (or_text u.status (status_or_none current))) p current db

abbrev active_plan :
    ℕ
    → ℕ
    → SubscriptionChange
    → Option PlanRow
    → Option OrganizationSubscription
    → PlanTables
    → PlanOutcome
active_plan now org u none current db = refused_plan plan_not_found
active_plan now org u (some p) current db =
    if p.active then with_plan now org u p current db else refused_plan plan_inactive

abbrev current_plan :
    ℕ
    → ℕ
    → SubscriptionChange
    → Option PlanRow
    → Option OrganizationSubscription
    → PlanTables
    → PlanOutcome
current_plan now org u (some p) (some s) db = with_plan now org u p (some s) db
current_plan now org u _ _ db = refused_plan plan_id_required

abbrev plan_of : Option OrganizationSubscription → PlanTables → Option PlanRow
plan_of none db = none
plan_of (some s) db = get_subscription_plan s.plan_id db

-- `update_organization_subscription` for the user that `ensure_app_user` returned.
unfoldable pub update_organization_subscription :
    AppUser → ℕ → ℕ → SubscriptionChange → PlanTables → PlanOutcome
update_organization_subscription user now org u db =
    let current = find_row (is_of_organization org) db.subscriptions in
    if user.is_system_owner
    then elim u.plan_id [
      | some k ↦ active_plan now org u (get_subscription_plan k db) current db
      | none ↦ current_plan now org u (plan_of current db) current db
    ]
    else refused_plan owner_required
