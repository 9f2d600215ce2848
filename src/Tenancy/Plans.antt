-- ===== src/Tenancy/Plans.antt =====
-- `select_organization_plan` and `get_organization_subscription` of services/tenant_service.py.
use shiku_ai_powered_sales_d.Prelude.{
  Bool, List, Option, Text, [], codes, find_row, if◌then◌else◌, none, some, update_rows, ℕ, ◌*◌,
  ◌++◌, ◌+◌, ◌==◌, ◌∷◌,
}
use shiku_ai_powered_sales_d.Store.Rows.{coalesce}
use shiku_ai_powered_sales_d.Tenancy.Routing.{
  RoutingPlan, SubscriptionRow, SubscriptionState, subscription_from_row,
}
use shiku_ai_powered_sales_d.Tenancy.Users.{AppUser}

-- A row of `subscription_plans`, as `sanitize_plan` leaves it; no trial is one of 0 days.
pub record PlanRow : Type 0 where
  pub id : ℕ
  pub active : Bool
  pub trial_days : ℕ
  pub routing : RoutingPlan

-- A row of `organization_subscriptions`.
pub record OrganizationSubscription : Type 0 where
  pub id : ℕ
  pub organization_id : ℕ
  pub plan_id : ℕ
  pub status : Text
  pub trial_ends_at : Option ℕ
  pub current_period_started_at : Option ℕ
  pub current_period_ends_at : Option ℕ
  pub updated_at : ℕ

-- A row of `events`: what it says, the organization, the subscription, the plan and the status.
pub data PlanEvent : Type 0 where
  organization_plan_selected : ℕ → ℕ → ℕ → Text → PlanEvent
  organization_subscription_updated : ℕ → ℕ → ℕ → Text → PlanEvent

pub record PlanTables : Type 0 where
  pub plans : List PlanRow
  pub subscriptions : List OrganizationSubscription
  pub events : List PlanEvent
  pub next_subscription_id : ℕ

abbrev plan_with_id : ℕ → PlanRow → Bool
plan_with_id k p = p.id == k

-- `get_subscription_plan`
abbrev pub get_subscription_plan : ℕ → PlanTables → Option PlanRow
get_subscription_plan k db = find_row (plan_with_id k) db.plans

abbrev pub is_of_organization : ℕ → OrganizationSubscription → Bool
is_of_organization org s = s.organization_id == org

abbrev pub has_subscription_id : ℕ → OrganizationSubscription → Bool
has_subscription_id k s = s.id == k

-- The join of `get_organization_subscription`.
abbrev joined_plan : OrganizationSubscription → Option PlanRow → Option SubscriptionRow
joined_plan s none = none
joined_plan s (some p) =
    some (record { status = s.status; trial_ends_at = s.trial_ends_at; plan = p.routing })

abbrev pub subscription_row : Option OrganizationSubscription → PlanTables → Option SubscriptionRow
subscription_row none db = none
subscription_row (some s) db = joined_plan s (get_subscription_plan s.plan_id db)

unfoldable pub get_organization_subscription : ℕ → ℕ → PlanTables → SubscriptionState
get_organization_subscription now org db =
    subscription_from_row now
      (subscription_row (find_row (is_of_organization org) db.subscriptions) db)

-- `future_iso`, in seconds.
abbrev pub in_days : ℕ → ℕ → ℕ
in_days now n = now + n * 86400

abbrev pub trial_end : ℕ → PlanRow → Option ℕ
trial_end now p = if p.trial_days == 0 then none else some (in_days now p.trial_days)

abbrev pub selected_status : PlanRow → Text
selected_status p = if p.trial_days == 0 then codes "ACTIVE" else codes "TRIALING"

-- `trial_ends_at or future_iso(30)`
abbrev selected_period_end : ℕ → PlanRow → Option ℕ
selected_period_end now p = coalesce (trial_end now p) (some (in_days now 30))

abbrev pub set_plan : ℕ → PlanRow → OrganizationSubscription → OrganizationSubscription
set_plan now p s = record s {
  plan_id = p.id;
  status = selected_status p;
  trial_ends_at = trial_end now p;
  current_period_started_at = some now;
  current_period_ends_at = selected_period_end now p;
  updated_at = now;
}

abbrev pub new_subscription : ℕ → PlanRow → ℕ → ℕ → OrganizationSubscription
new_subscription now p org id = record {
  id = id;
  organization_id = org;
  plan_id = p.id;
  status = selected_status p;
  trial_ends_at = trial_end now p;
  current_period_started_at = some now;
  current_period_ends_at = selected_period_end now p;
  updated_at = now;
}

abbrev pub log_plan : PlanEvent → PlanTables → PlanTables
log_plan e db = record db { events = db.events ++ e ∷ [] }

abbrev pub put_plan : ℕ → ℕ → PlanRow → Option OrganizationSubscription → PlanTables → PlanTables
put_plan now org p (some s) db =
    log_plan (organization_plan_selected org s.id p.id (selected_status p)) (record db {
      subscriptions = update_rows (has_subscription_id s.id) (set_plan now p) db.subscriptions;
    })
put_plan now org p none db =
    log_plan (organization_plan_selected org db.next_subscription_id p.id (selected_status p))
      (record db {
        subscriptions = db.subscriptions ++ new_subscription now p org db.next_subscription_id ∷ [];
        next_subscription_id = db.next_subscription_id + 1;
      })

pub data PlanError : Type 0 where
  owner_required plan_not_found plan_inactive plan_id_required status_invalid : PlanError

pub data PlanOutcome : Type 0 where
  refused_plan : PlanError → PlanOutcome
  stored : PlanTables → PlanOutcome

abbrev pub select_found : ℕ → ℕ → Option PlanRow → PlanTables → PlanOutcome
select_found now org none db = refused_plan plan_not_found
select_found now org (some p) db =
    if p.active
    then stored (put_plan now org p (find_row (is_of_organization org) db.subscriptions) db)
    else refused_plan plan_inactive

-- `select_organization_plan` for the user that `ensure_app_user` returned.
unfoldable pub select_organization_plan : AppUser → ℕ → ℕ → ℕ → PlanTables → PlanOutcome
select_organization_plan u now org plan_id db =
    if u.is_system_owner
    then select_found now org (get_subscription_plan plan_id db) db
    else refused_plan owner_required
