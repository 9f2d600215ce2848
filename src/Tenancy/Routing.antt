-- ===== src/Tenancy/Routing.antt =====
-- The status of a subscription and the routing mode that its plan allows, `_subscription_from_row`
-- and `resolve_allowed_llm_routing_mode` of services/tenant_service.py.
use shiku_ai_powered_sales_d.Prelude.{
  Bool, List, Option, Text, [], any, codes, false, if◌then◌else◌, ltb, none, not, or_text, select,
  some, strip, text_eq, upper, ℕ, ◌&&◌, ◌∷◌,
}

-- The columns of a plan that are read here, as `sanitize_plan` leaves them.
pub record RoutingPlan : Type 0 where
  pub allowed_modes : List Text
  pub trial_allowed_modes : List Text
  pub default_mode : Text

-- A row of the query of `get_organization_subscription`. A missing status is empty.
pub record SubscriptionRow : Type 0 where
  pub status : Text
  pub trial_ends_at : Option ℕ
  pub plan : RoutingPlan

-- What `_subscription_from_row` returns, as far as it is read here.
pub record SubscriptionState : Type 0 where
  pub status : Text
  pub effective_status : Text
  pub is_active : Bool
  pub plan : Option RoutingPlan

abbrev pub is_one_of : List Text → Text → Bool
is_one_of names t = any (λ x. text_eq x t) names

abbrev pub subscription_active_statuses : List Text
subscription_active_statuses = codes "ACTIVE" ∷ codes "TRIALING" ∷ []

abbrev pub llm_routing_modes : List Text
llm_routing_modes = codes "quality_first" ∷ codes "balanced" ∷ codes "cost_optimized" ∷ []

abbrev pub has_ended : Option ℕ → ℕ → Bool
has_ended none now = false
has_ended (some t) now = ltb t now

abbrev pub status_of : SubscriptionRow → Text
status_of row = upper (or_text (some row.status) (codes "NONE"))

abbrev effective_status_of : Text → Option ℕ → ℕ → Text
effective_status_of status trial_ends_at now =
    if text_eq (codes "TRIALING") status && has_ended trial_ends_at now
    then codes "EXPIRED"
    else status

unfoldable pub subscription_from_row : ℕ → Option SubscriptionRow → SubscriptionState
subscription_from_row now none = record {
  status = codes "NONE";
  effective_status = codes "NONE";
  is_active = false;
  plan = none;
}
subscription_from_row now (some row) =
    let effective = effective_status_of (status_of row) row.trial_ends_at now in
    record {
      status = row.status;
      effective_status = effective;
      is_active = is_one_of subscription_active_statuses effective;
      plan = some row.plan;
    }

-- The result of `resolve_allowed_llm_routing_mode`, the data of the plan apart.
pub record Resolution : Type 0 where
  pub requested_mode : Option Text
  pub default_mode : Text
  pub resolved_mode : Text
  pub allowed_modes : List Text
  pub subscription_status : Text
  pub downgraded : Bool

abbrev default_of : Option RoutingPlan → Text
default_of none = []
default_of (some p) = strip p.default_mode

abbrev pub or_modes : List Text → List Text → List Text
or_modes [] default = default
or_modes (m ∷ ms) default = m ∷ ms

abbrev pub cheapest : List Text
cheapest = codes "cost_optimized" ∷ []

abbrev every_mode : List Text
every_mode = codes "cost_optimized" ∷ codes "balanced" ∷ codes "quality_first" ∷ []

abbrev trial_modes_of : Option RoutingPlan → List Text
trial_modes_of none = []
trial_modes_of (some p) = p.trial_allowed_modes

abbrev paid_modes_of : Option RoutingPlan → List Text
paid_modes_of none = []
paid_modes_of (some p) = p.allowed_modes

-- The modes of the plan: those of a trial while the trial lasts.
abbrev pub plan_modes : Text → Option RoutingPlan → List Text
plan_modes status plan =
    if text_eq (codes "TRIALING") status
    then or_modes (trial_modes_of plan) cheapest
    else or_modes (paid_modes_of plan) every_mode

unfoldable pub modes_allowed : Text → Option RoutingPlan → List Text
modes_allowed status plan =
    or_modes (select (is_one_of llm_routing_modes) (plan_modes status plan)) cheapest

abbrev default_mode_of : Option RoutingPlan → Text → Text
default_mode_of plan fallback =
    if is_one_of llm_routing_modes (default_of plan)
    then default_of plan
    else or_text (some fallback) (codes "balanced")

-- The mode that is asked for, where it is one of the three, or the default.
abbrev pub candidate_mode : Option Text → Text → Text
candidate_mode none default = default
candidate_mode (some m) default = if is_one_of llm_routing_modes m then m else default

abbrev pub first_mode : List Text → Text
first_mode [] = []
first_mode (m ∷ ms) = m

unfoldable pub resolve_allowed_llm_routing_mode :
    SubscriptionState → Option Text → Text → Resolution
resolve_allowed_llm_routing_mode subscription requested fallback =
    let status = upper (or_text (some subscription.effective_status) subscription.status) in
    let default = default_mode_of subscription.plan fallback in
    let candidate = candidate_mode requested default in
    let allowed = modes_allowed status subscription.plan in
    record {
      requested_mode = requested;
      default_mode = default;
      resolved_mode = if is_one_of allowed candidate then candidate else first_mode allowed;
      allowed_modes = allowed;
      subscription_status = status;
      downgraded = not (is_one_of allowed candidate);
    }
