-- ===== src/Metering/Schema.antt =====
-- The rows that services/metering_service.py reads and writes. A point of time is a number of
-- seconds, and the JSON object of a column `metadata` is the list of its fields.
use shiku_ai_powered_sales_d.Prelude.{Bool, List, Option, Text, ℕ}

pub record Plan : Type 0 where
  pub id : ℕ
  pub max_monthly_ai_credits : Option ℕ
  pub max_monthly_emails : Option ℕ
  pub max_users : Option ℕ
  pub max_leads : Option ℕ
  pub overage_allowed : Bool
  pub overage_price : Option ℕ

-- What `tenant_service.get_organization_subscription` returns, as far as it is read here.
pub record Subscription : Type 0 where
  pub id : Option ℕ
  pub plan : Option Plan
  pub period_started_at : Option ℕ
  pub period_ends_at : Option ℕ

-- A row of `organization_billing_periods`, its columns `id` and `updated_at` apart.
pub record Period : Type 0 where
  pub subscription_id : Option ℕ
  pub plan_id : Option ℕ
  pub period_start : ℕ
  pub period_end : ℕ
  pub included_ai_credits : Option ℕ
  pub included_emails : Option ℕ
  pub included_users : Option ℕ
  pub included_leads : Option ℕ
  pub overage_allowed : Bool
  pub overage_price : Option ℕ

pub record PeriodRow : Type 0 where
  pub organization_id : ℕ
  pub period : Period
  pub updated_at : ℕ

-- A row of `ai_usage_actions`.
pub record Action : Type 0 where
  pub id : ℕ
  pub organization_id : ℕ
  pub user_id : Option ℕ
  pub request_id : Option Text
  pub action_type : Text
  pub quantity : ℕ
  pub credits_used : ℕ
  pub billing_period_start : ℕ
  pub billing_period_end : ℕ
  pub source_object_type : Option Text
  pub source_object_id : Option Text
  pub status : Text
  pub idempotency_key : Option Text
  pub metadata : List (Text × Text)

-- A row of `platform_usage_events`.
pub record PlatformEvent : Type 0 where
  pub id : ℕ
  pub organization_id : Option ℕ
  pub user_id : Option ℕ
  pub event_type : Text
  pub quantity : ℕ
  pub source_object_type : Option Text
  pub source_object_id : Option Text
  pub idempotency_key : Option Text
  pub metadata : List (Text × Text)

-- A row of `llm_usage_events`, as far as it is read here; its cost is not modelled.
pub record LlmEvent : Type 0 where
  pub ai_usage_action_id : Option ℕ
  pub total_tokens : ℕ

-- The tables and the context variables of one thread.
pub record Meter : Type 0 where
  pub periods : List PeriodRow
  pub actions : List Action
  pub platform_events : List PlatformEvent
  pub llm_events : List LlmEvent
  pub next_action_id : ℕ
  pub next_event_id : ℕ
  pub current_user_id : Option ℕ
  pub current_action_id : Option ℕ
  pub request_id : Option Text

-- What the service asks of other code: the subscription of an organization, the calendar month of
-- now, and the text of an exception.
pub record Tenancy : Type 0 where
  pub subscription_of : ℕ → Subscription
  pub month : ℕ → ℕ × ℕ
