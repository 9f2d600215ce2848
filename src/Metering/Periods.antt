-- ===== src/Metering/Periods.antt =====
-- The billing periods of services/metering_service.py.
use shiku_ai_powered_sales_d.Prelude.{
  Bool, Option, [], any, false, if◌then◌else◌, none, some, update_rows, ℕ, ◌&&◌, ◌++◌, ◌==◌, ◌∷◌,
}
use shiku_ai_powered_sales_d.Metering.Schema.{Meter, Period, PeriodRow, Plan, Tenancy}

-- `plan.get(...)`, where there may be no plan.
abbrev of_plan {ℓ} : {A : Type ℓ} → (Plan → Option A) → Option Plan → Option A
of_plan f none = none
of_plan f (some p) = f p

abbrev allows_overage : Option Plan → Bool
allows_overage none = false
allows_overage (some p) = p.overage_allowed

-- `_fallback_period`, or the period of the subscription where both its ends are known.
abbrev pub bounds_of : Tenancy → ℕ → Option ℕ → Option ℕ → ℕ × ℕ
bounds_of t now (some start) (some end) = (start, end)
bounds_of t now _ _ = t.month now

unfoldable pub resolve_billing_period : Tenancy → ℕ → ℕ → Period
resolve_billing_period t now org =
    let subscription = t.subscription_of org in
    let plan = subscription.plan in
    let (start, end) = bounds_of t now subscription.period_started_at subscription.period_ends_at in
    record {
      subscription_id = subscription.id;
      plan_id = of_plan (λ (p : Plan). some p.id) plan;
      period_start = start;
      period_end = end;
      included_ai_credits = of_plan (λ (p : Plan). p.max_monthly_ai_credits) plan;
      included_emails = of_plan (λ (p : Plan). p.max_monthly_emails) plan;
      included_users = of_plan (λ (p : Plan). p.max_users) plan;
      included_leads = of_plan (λ (p : Plan). p.max_leads) plan;
      overage_allowed = allows_overage plan;
      overage_price = of_plan (λ (p : Plan). p.overage_price) plan;
    }

abbrev pub is_row_of : ℕ → Period → PeriodRow → Bool
is_row_of org p r =
    r.organization_id == org
    && r.period.period_start == p.period_start
    && r.period.period_end == p.period_end

abbrev pub new_row : ℕ → Period → ℕ → PeriodRow
new_row org p now = record { organization_id = org; period = p; updated_at = now }

abbrev pub refresh : Period → ℕ → PeriodRow → PeriodRow
refresh p now r = record r { period = p; updated_at = now }

unfoldable pub ensure_billing_period_snapshot : Tenancy → ℕ → ℕ → Meter → Period × Meter
ensure_billing_period_snapshot t now org st =
    let p = resolve_billing_period t now org in
    (
      p,
      record st {
        periods =
            if any (is_row_of org p) st.periods
            then update_rows (is_row_of org p) (refresh p now) st.periods
            else st.periods ++ new_row org p now ∷ [];
      },
    )
