-- ===== src/Tenancy/Tests.antt =====
-- A trial of a plan with all modes.
use shiku_ai_powered_sales_d.Prelude.{
  Bool, Text, [], codes, false, none, or_text, refl, some, sort_by, true, upper, ℕ, ◌↔◌, ◌∷◌, ◌≡◌,
}
use shiku_ai_powered_sales_d.Tenancy.Routing.{
  RoutingPlan, SubscriptionRow, candidate_mode, is_one_of, llm_routing_modes, modes_allowed,
  resolve_allowed_llm_routing_mode, subscription_from_row,
}
use shiku_ai_powered_sales_d.Tenancy.Users.{
  AppUser, Identity, Tenants, active, ensure_app_user, list_organizations, resolve_organization_id,
  sales_user, viewer, workflow_org_id, workflow_roles,
}
use shiku_ai_powered_sales_d.Tenancy.Access.{MayAct, respects, workflow_org_id-MayAct}
use shiku_ai_powered_sales_d.Tenancy.Owners.{KeepsOwners, ensure_app_user-KeepsOwners}
use shiku_ai_powered_sales_d.Tenancy.Modes.{
  AreFresh, joined_modes, routing_modes_list, routing_modes_list-routing_modes_value,
  routing_modes_value, value_modes,
}
use shiku_ai_powered_sales_d.Tenancy.Plans.{
  PlanRow, PlanTables, in_days, organization_subscription_updated, owner_required, refused_plan,
  select_organization_plan, stored,
}
use shiku_ai_powered_sales_d.Tenancy.Change.{SubscriptionChange, update_organization_subscription}
use shiku_ai_powered_sales_d.Tenancy.Selection.{IsSelected, select_organization_plan-IsSelected}
use shiku_ai_powered_sales_d.Tenancy.Allowance.{
  IsEntitled, IsRunning, resolve_allowed_llm_routing_mode-IsEntitled, subscription_from_row-active,
}

abbrev plan : RoutingPlan
plan = record {
  allowed_modes = llm_routing_modes;
  trial_allowed_modes = codes "cost_optimized" ∷ codes "balanced" ∷ [];
  default_mode = codes "balanced";
}

abbrev trial : SubscriptionRow
trial = record { status = codes "trialing"; trial_ends_at = some 100; plan = plan }

-- During the trial the best mode is refused, after it the modes are those of a paid plan.
refused :
    (resolve_allowed_llm_routing_mode
      (subscription_from_row 50 (some trial))
      (some (codes "quality_first"))
      (codes "balanced")).downgraded
    ≡ true
unfolding resolve_allowed_llm_routing_mode subscription_from_row modes_allowed
refused = refl

expired :
    (resolve_allowed_llm_routing_mode
      (subscription_from_row 150 (some trial))
      (some (codes "quality_first"))
      (codes "balanced")).resolved_mode
    ≡ codes "quality_first"
unfolding resolve_allowed_llm_routing_mode subscription_from_row modes_allowed
expired = refl

trial_plan : (subscription_from_row 50 (some trial)).plan ≡ some trial.plan
unfolding subscription_from_row
trial_plan = refl

resolve_allowed_llm_routing_mode-IsEntitled_example :
    let r =
      resolve_allowed_llm_routing_mode
        (subscription_from_row 50 (some trial))
        (some (codes "quality_first"))
        (codes "balanced") in
    (is_one_of llm_routing_modes r.resolved_mode ≡ true)
    × IsEntitled trial.plan
        (upper (or_text (some (codes "TRIALING")) trial.status))
        (candidate_mode (some (codes "quality_first")) r.default_mode)
        r.resolved_mode
unfolding subscription_from_row
resolve_allowed_llm_routing_mode-IsEntitled_example =
    resolve_allowed_llm_routing_mode-IsEntitled (subscription_from_row 50 (some trial)) trial.plan
      (some (codes "quality_first")) (codes "balanced") trial_plan

subscription_from_row-active_example :
    ((subscription_from_row 150 (some trial)).is_active ≡ true) ↔ IsRunning 150 (some trial)
subscription_from_row-active_example = subscription_from_row-active 150 (some trial)

abbrev user : ℕ → Text → Text → Bool → AppUser
user k clerk address owner = record {
  id = k;
  clerk_user_id = clerk;
  email = some address;
  name = none;
  is_system_owner = owner;
  last_seen_at = none;
}

abbrev ada : AppUser
ada = user 1 (codes "u1") (codes "ada@b.co") false

abbrev tenants : Tenants
tenants = record {
  users = ada ∷ user 2 (codes "u2") (codes "root@b.co") true ∷ [];
  members =
      record { organization_id = 4; user_id = 1; role = sales_user; status = active }
      ∷ record { organization_id = 5; user_id = 1; role = viewer; status = active }
      ∷ [];
  organizations =
      record { id = 4; name = codes "Four"; slug = codes "four" }
      ∷ record { id = 5; name = codes "Five"; slug = codes "five" }
      ∷ [];
  next_user_id = 3;
}

-- Without a request the newest organization is resolved, in which the user is only a viewer.
resolved : resolve_organization_id ada none workflow_roles tenants ≡ some 5
unfolding resolve_organization_id list_organizations sort_by
resolved = refl

let_through : workflow_org_id 1 ada (some 4) [] (λ o. true) tenants ≡ some 4
unfolding workflow_org_id resolve_organization_id
let_through = refl

workflow_org_id-MayAct_example :
    MayAct 1 ada workflow_roles tenants 4 × (true ≡ true) × (respects (some 4) 4 ≡ true)
workflow_org_id-MayAct_example =
    workflow_org_id-MayAct 1 ada (some 4) [] (λ o. true) tenants 4 let_through

abbrev claims : Identity
claims = record { clerk_user_id = codes "u9"; email = some (codes "ada@b.co"); name = none }

abbrev seen : Tenants
seen = record tenants {
  users =
      record ada { clerk_user_id = codes "u9"; last_seen_at = some 70 }
      ∷ user 2 (codes "u2") (codes "root@b.co") true
      ∷ [];
}

ensured :
    ensure_app_user [] claims 70 tenants
    ≡ some (record ada { clerk_user_id = codes "u9"; last_seen_at = some 70 }, seen)
unfolding ensure_app_user
ensured = refl

ensure_app_user-KeepsOwners_example : KeepsOwners [] claims tenants.users seen.users
ensure_app_user-KeepsOwners_example =
    ensure_app_user-KeepsOwners [] claims 70 tenants
      (record ada { clerk_user_id = codes "u9"; last_seen_at = some 70 }) seen ensured

written :
    routing_modes_value (some (codes " balanced,, quality_first,balanced")) (codes "balanced")
    ≡ some (codes "balanced,quality_first")
unfolding routing_modes_value value_modes
written = refl

routing_modes_list-routing_modes_value_example :
    AreFresh [] (routing_modes_list (some (codes "balanced,quality_first")) (codes "balanced"))
    × (joined_modes (routing_modes_list (some (codes "balanced,quality_first")) (codes "balanced"))
        ≡ codes "balanced,quality_first")
routing_modes_list-routing_modes_value_example =
    routing_modes_list-routing_modes_value (some (codes " balanced,, quality_first,balanced"))
      (codes "balanced") (codes "balanced") (codes "balanced,quality_first") refl written

abbrev plan_row : PlanRow
plan_row = record { id = 3; active = true; trial_days = 14; routing = plan }

abbrev tables : PlanTables
tables = record { plans = plan_row ∷ []; subscriptions = []; events = []; next_subscription_id = 1 }

select_organization_plan-IsSelected_example :
    IsSelected true 0 50 4 plan_row
      (select_organization_plan (user 2 (codes "u2") (codes "root@b.co") true) 0 4 3 tables)
select_organization_plan-IsSelected_example =
    select_organization_plan-IsSelected (user 2 (codes "u2") (codes "root@b.co") true) 0 50 4
      plan_row tables refl

-- The owner of the platform gives the plan without a trial; nobody else does.
abbrev change : SubscriptionChange
change = record {
  plan_id = some 3;
  status = some (codes "active");
  trial_ends_at = none;
  current_period_started_at = none;
  current_period_ends_at = none;
}

given :
    update_organization_subscription
      (user 2 (codes "u2") (codes "root@b.co") true)
      50
      4
      change
      tables
    ≡ stored (record tables {
      subscriptions =
          record {
            id = 1;
            organization_id = 4;
            plan_id = 3;
            status = codes "ACTIVE";
            trial_ends_at = none;
            current_period_started_at = some 50;
            current_period_ends_at = some (in_days 50 30);
            updated_at = 50;
          }
          ∷ [];
      events = organization_subscription_updated 4 1 3 (codes "ACTIVE") ∷ [];
      next_subscription_id = 2;
    })
unfolding update_organization_subscription
given = refl

not_given : update_organization_subscription ada 50 4 change tables ≡ refused_plan owner_required
unfolding update_organization_subscription
not_given = refl
