-- ===== src/Metering/Economics.antt =====
-- `get_customer_usage_summary` and `get_action_unit_economics`, their whole numbers. The costs are
-- floating point numbers and are not modelled, nor is the order in which the groups are listed.
use shiku_ai_powered_sales_d.Prelude.{
  Bool, List, Option, Text, [], codes, false, if◌then◌else◌, length, map, none, or_text, select,
  some, text_eq, true, ℕ, ◌&&◌, ◌+◌, ◌-◌, ◌==◌, ◌∷◌,
}
use shiku_ai_powered_sales_d.Metering.Schema.{Action, LlmEvent, Meter, Period, Tenancy}
use shiku_ai_powered_sales_d.Metering.Periods.{ensure_billing_period_snapshot}

abbrev pub sum_of {ℓ} : {A : Type ℓ} → (A → ℕ) → List A → ℕ
sum_of f [] = 0
sum_of f (x ∷ xs) = f x + sum_of f xs

abbrev pub is_billed : ℕ → Period → Action → Bool
is_billed org p a =
    a.organization_id == org
    && a.billing_period_start == p.period_start
    && a.billing_period_end == p.period_end
    && text_eq a.status (codes "success")

abbrev pub credits_of : Action → ℕ
credits_of a = a.credits_used

-- The part `ai` of the summary.
pub record AiSummary : Type 0 where
  pub action_count : ℕ
  pub quantity : ℕ
  pub credits_used : ℕ
  pub included_credits : Option ℕ
  pub remaining_credits : Option ℕ
  pub overage_credits : ℕ

-- `max(a - b, 0)`
abbrev pub beyond : ℕ → ℕ → ℕ
beyond a b = a - b

abbrev pub remaining_of : Option ℕ → ℕ → Option ℕ
remaining_of none used = none
remaining_of (some included) used = some (beyond included used)

abbrev pub overage_of : Option ℕ → ℕ → ℕ
overage_of none used = 0
overage_of (some included) used = beyond used included

abbrev pub summary_of : ℕ → Period → List Action → AiSummary
summary_of org p actions =
    let billed = select (is_billed org p) actions in
    let used = sum_of credits_of billed in
    record {
      action_count = length billed;
      quantity = sum_of (λ (a : Action). a.quantity) billed;
      credits_used = used;
      included_credits = p.included_ai_credits;
      remaining_credits = remaining_of p.included_ai_credits used;
      overage_credits = overage_of p.included_ai_credits used;
    }

unfoldable pub get_customer_usage_summary : Tenancy → ℕ → ℕ → Meter → AiSummary × Meter
get_customer_usage_summary t now org st =
    let (p, st') = ensure_billing_period_snapshot t now org st in
    (summary_of org p st'.actions, st')

-- One row of the query of `get_action_unit_economics`.
pub record Joined : Type 0 where
  pub action_type : Text
  pub credits_used : ℕ
  pub total_tokens : ℕ
  pub llm_calls : ℕ

pub record Bucket : Type 0 where
  pub action_type : Text
  pub action_count : ℕ
  pub credits_used : ℕ
  pub total_tokens : ℕ
  pub llm_calls : ℕ

abbrev is_call_of : ℕ → LlmEvent → Bool
is_call_of k e = elim e.ai_usage_action_id [ none ↦ false | some j ↦ j == k ]

abbrev pub join_calls : List LlmEvent → Action → Joined
join_calls events a =
    let calls = select (is_call_of a.id) events in
    record {
      action_type = or_text (some a.action_type) (codes "unknown");
      credits_used = a.credits_used;
      total_tokens = sum_of (λ (e : LlmEvent). e.total_tokens) calls;
      llm_calls = length calls;
    }

abbrev of_org : Option ℕ → Action → Bool
of_org none a = true
of_org (some org) a = a.organization_id == org

unfoldable pub joined_rows : Option ℕ → Meter → List Joined
joined_rows org st = map (join_calls st.llm_events) (select (of_org org) st.actions)

abbrev pub add_to : Joined → Bucket → Bucket
add_to r b = record b {
  action_count = b.action_count + 1;
  credits_used = b.credits_used + r.credits_used;
  total_tokens = b.total_tokens + r.total_tokens;
  llm_calls = b.llm_calls + r.llm_calls;
}

abbrev pub new_bucket : Text → Bucket
new_bucket t = record {
  action_type = t;
  action_count = 0;
  credits_used = 0;
  total_tokens = 0;
  llm_calls = 0;
}

-- `setdefault` and the additions.
abbrev pub add_row : Joined → List Bucket → List Bucket
add_row r [] = add_to r (new_bucket r.action_type) ∷ []
add_row r (b ∷ bs) =
    if text_eq b.action_type r.action_type then add_to r b ∷ bs else b ∷ add_row r bs

unfoldable pub group_rows : List Joined → List Bucket → List Bucket
group_rows [] bs = bs
group_rows (r ∷ rs) bs = group_rows rs (add_row r bs)

unfoldable pub get_action_unit_economics : Option ℕ → Meter → List Bucket
get_action_unit_economics org st = group_rows (joined_rows org st) []
