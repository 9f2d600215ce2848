-- ===== src/Metering/Tests.antt =====
-- The ledger of one organization with two actions.
use shiku_ai_powered_sales_d.Prelude.{
  Text, [], codes, length, none, pos, refl, some, true, ℕ, ℤ, ◌∷◌, ◌≡◌,
}
use shiku_ai_powered_sales_d.Metering.Schema.{Action, Meter, Period, Plan, Tenancy}
use shiku_ai_powered_sales_d.Metering.Periods.{
  ensure_billing_period_snapshot, resolve_billing_period,
}
use shiku_ai_powered_sales_d.Metering.Actions.{
  Outcome, Usage, ai_usage_action_context, raised, record_ai_usage_action,
}
use shiku_ai_powered_sales_d.Metering.Economics.{
  Bucket, Joined, get_action_unit_economics, get_customer_usage_summary, joined_rows, sum_of,
}
use shiku_ai_powered_sales_d.Metering.Keys.{record_ai_usage_action-idempotent}
use shiku_ai_powered_sales_d.Metering.Billing.{ai_usage_action_context-unbilled, billed_credits}
use shiku_ai_powered_sales_d.Metering.Totals.{GroupsDistinct, get_action_unit_economics-totals}

abbrev plan : Plan
plan = record {
  id = 1;
  max_monthly_ai_credits = some 10;
  max_monthly_emails = none;
  max_users = some 3;
  max_leads = none;
  overage_allowed = true;
  overage_price = some 2;
}

abbrev tenancy : Tenancy
tenancy = record {
  subscription_of = λ org. record {
    id = some 7;
    plan = some plan;
    period_started_at = some 100;
    period_ends_at = some 200;
  };
  month = λ now. (0, 1000);
}

abbrev usage : ℤ → Text → Usage
usage credits key = record {
  organization_id = 1;
  action_type = codes "draft_generated";
  user_id = none;
  quantity = pos 1;
  credits_used = some credits;
  source_object_type = none;
  source_object_id = none;
  status = codes "success";
  idempotency_key = some key;
  metadata = [];
  request_id = none;
}

abbrev empty : Meter
empty = record {
  periods = [];
  actions = [];
  platform_events = [];
  llm_events = [];
  next_action_id = 1;
  next_event_id = 1;
  current_user_id = some 4;
  current_action_id = some 9;
  request_id = none;
}

abbrev recorded : Meter
recorded = (record_ai_usage_action tenancy 150 (usage (pos 12) (codes "k")) empty).1

-- The second call of a key, with other credits.
record_ai_usage_action-idempotent_example :
    let (b, second) = record_ai_usage_action tenancy 160 (usage (pos 3) (codes "k")) recorded in
    (b ≡ (record_ai_usage_action tenancy 150 (usage (pos 12) (codes "k")) empty).0)
    × (second.actions ≡ recorded.actions)
record_ai_usage_action-idempotent_example =
    record_ai_usage_action-idempotent tenancy 150 160 (usage (pos 12) (codes "k"))
      (usage (pos 3) (codes "k")) empty b'k' [] refl refl

included_credits : (get_customer_usage_summary tenancy 170 1 recorded).0.included_credits ≡ some 10
unfolding get_customer_usage_summary ensure_billing_period_snapshot resolve_billing_period
included_credits = refl

nothing_remains : (get_customer_usage_summary tenancy 170 1 recorded).0.remaining_credits ≡ some 0
unfolding get_customer_usage_summary ensure_billing_period_snapshot resolve_billing_period
    record_ai_usage_action
nothing_remains = refl

abbrev failing : Action → Meter → Outcome ℕ × Meter
failing a st = (raised (codes "provider"), record st { current_action_id = none })

get_action_unit_economics-totals_example :
    let rows = joined_rows none recorded in
    let groups = get_action_unit_economics none recorded in
    GroupsDistinct groups
    × (sum_of (λ (b : Bucket). b.action_count) groups ≡ length rows)
    × (sum_of (λ (b : Bucket). b.credits_used) groups
        ≡ sum_of (λ (r : Joined). r.credits_used) rows)
    × (sum_of (λ (b : Bucket). b.total_tokens) groups
        ≡ sum_of (λ (r : Joined). r.total_tokens) rows)
    × (sum_of (λ (b : Bucket). b.llm_calls) groups ≡ sum_of (λ (r : Joined). r.llm_calls) rows)
get_action_unit_economics-totals_example = get_action_unit_economics-totals none recorded

abbrev paid : Action
paid = record {
  id = 1;
  organization_id = 1;
  user_id = none;
  request_id = none;
  action_type = codes "draft_generated";
  quantity = 1;
  credits_used = 5;
  billing_period_start = 100;
  billing_period_end = 200;
  source_object_type = none;
  source_object_id = none;
  status = codes "success";
  idempotency_key = none;
  metadata = [];
}

abbrev billed : Meter
billed = record empty { actions = paid ∷ []; next_action_id = 2 }

abbrev keyless : Usage
keyless = record (usage (pos 4) (codes "k")) { idempotency_key = none }

abbrev period : Period
period = resolve_billing_period tenancy 150 1

-- The five credits of the row that was there, and none for the failed action.
ai_usage_action_context-unbilled_example :
    billed_credits 1 period (ai_usage_action_context tenancy 150 keyless failing billed).1.actions
    ≡ billed_credits 1 period billed.actions
ai_usage_action_context-unbilled_example =
    ai_usage_action_context-unbilled tenancy 150 keyless failing billed (codes "provider") 1 period
      refl (refl, (refl, tt)) (λ a s. refl) (λ a s. refl)
