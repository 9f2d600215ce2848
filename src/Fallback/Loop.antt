-- ===== src/Fallback/Loop.antt =====
-- `_execute_with_retry` and `run_agent_with_fallback` of utils/model_fallback.py. The records of
-- latency and tokens, the traces and the log are not modelled.
use shiku_ai_powered_sales_d.Prelude.{
  Bool, List, Option, Text, [], any, codes, false, if◌then◌else◌, lower, none, not, occurs_in, pos,
  some, true, ℕ, ◌+◌, ◌==◌, ◌||◌, ◌∷◌,
}
use shiku_ai_powered_sales_d.Store.Rows.{is_missing}
use shiku_ai_powered_sales_d.Metering.Schema.{Meter, Tenancy}
use shiku_ai_powered_sales_d.Metering.Actions.{
  Usage, action_defaults_for_agent, credits_for_routing_mode, record_ai_usage_action,
}
use shiku_ai_powered_sales_d.Fallback.Models.{
  Blacklist, Profile, Provider, blacklist_provider, ordered_providers_for_agent, usable_providers,
}

abbrev fatal_blacklist_keywords : List Text
fatal_blacklist_keywords =
    codes "insufficient_quota"
    ∷ codes "invalid_api_key"
    ∷ codes "authentication_error"
    ∷ codes "unauthorized"
    ∷ codes "billing_hard_limit"
    ∷ codes "402"
    ∷ codes "insufficient credits"
    ∷ codes "wrong_api_format"
    ∷ codes "model_decommissioned"
    ∷ codes "quota exceeded"
    ∷ codes "exceeded your current quota"
    ∷ codes "credit limit"
    ∷ codes "tokens per day"
    ∷ []

abbrev fatal_skip_keywords : List Text
fatal_skip_keywords =
    codes "does not support response format"
    ∷ codes "no endpoints found"
    ∷ codes "context_length_exceeded"
    ∷ codes "404"
    ∷ codes "rate_limit_exceeded"
    ∷ codes "429"
    ∷ codes "too many requests"
    ∷ []

abbrev mentions : List Text → Text → Bool
mentions keywords error = any (λ k. occurs_in k (lower error)) keywords

unfoldable pub should_blacklist : Text → Bool
should_blacklist error = mentions fatal_blacklist_keywords error

unfoldable pub is_fatal_error : Text → Bool
is_fatal_error error = mentions fatal_blacklist_keywords error || mentions fatal_skip_keywords error

-- How one call of `Runner.run` ends.
pub data Run : Type 0 where
  finished : Text → Run
  failed : Text → Run

-- What `_execute_with_retry` raises, or returns.
pub data Execution : Type 0 where
  done : Text → Execution
  fatal : Text → Execution
  not_done : Text → Execution

abbrev pub classify : Run → Execution
classify (finished out) = done out
classify (failed error) = if is_fatal_error error then fatal error else not_done error

-- The outcome of the call number `n` with a provider.
abbrev pub Runner : Type 0
Runner = ℕ → Provider → Run

-- A second attempt where the first failed for a reason that may pass.
abbrev pub after_first : Runner → Provider → ℕ → Execution → Execution × ℕ
after_first run p calls (not_done error) = (classify (run (calls + 1) p), calls + 2)
after_first run p calls e = (e, calls + 1)

unfoldable pub execute_with_retry : Runner → Provider → ℕ → Execution × ℕ
execute_with_retry run p calls = after_first run p calls (classify (run calls p))

-- What the loop carries: the calls made, the blacklist, the errors so far and the ledger.
pub record Progress : Type 0 where
  pub calls : ℕ
  pub blacklist : Blacklist
  pub errors : ℕ
  pub meter : Meter

pub data Answer : Type 0 where
  answered : Text → Provider → Answer
  no_providers all_failed : Answer

-- The call of an agent: its name, the organization, the mode of the routing, the metadata that is
-- recorded for a provider, and whether the recording of the charge raises, which is only logged.
pub record Call : Type 0 where
  pub agent : Text
  pub organization_id : Option ℕ
  pub routing_mode : Text
  pub metadata_of : Provider → List (Text × Text)
  pub charge_raises : Bool

abbrev pub usage_of : Call → ℕ → Provider → Meter → Usage
usage_of c org p st =
    let (action_type, base) = action_defaults_for_agent c.agent in
    record {
      organization_id = org;
      action_type = action_type;
      user_id = st.current_user_id;
      quantity = pos 1;
      credits_used = some (pos (credits_for_routing_mode (pos base) (some c.routing_mode)));
      source_object_type = some (codes "agent");
      source_object_id = some c.agent;
      status = codes "success";
      idempotency_key = none;
      metadata = c.metadata_of p;
      request_id = st.request_id;
    }

-- `if organization_id and ai_action_id is None: record_ai_usage_action(...)`
unfoldable pub charge : Tenancy → ℕ → Call → Provider → Meter → Meter
charge t now c p st = elim c.organization_id [
  | none ↦ st
  | some org ↦
      if org == 0 || not (is_missing st.current_action_id) || c.charge_raises
      then st
      else (record_ai_usage_action t now (usage_of c org p st) st).1
]

module _ (run : Runner) (t : Tenancy) (now : ℕ) (c : Call) where
  -- One turn of the loop, with the rest of the loop as a function.
  abbrev pub turn :
      (Progress → Answer × Progress) → Provider → Progress → Execution × ℕ → Answer × Progress
  turn rest p g (done out, calls) =
      (answered out p, record g { calls = calls; meter = charge t now c p g.meter })
  turn rest p g (fatal error, calls) = rest (record g {
    calls = calls;
    errors = g.errors + 1;
    blacklist =
        if should_blacklist error then blacklist_provider now p.name g.blacklist else g.blacklist;
  })
  turn rest p g (not_done error, calls) = rest (record g { calls = calls; errors = g.errors + 1 })

  unfoldable pub try_providers : List Provider → Progress → Answer × Progress
  try_providers [] g = (all_failed, g)
  try_providers (p ∷ ps) g = turn (try_providers ps) p g (execute_with_retry run p g.calls)

  abbrev pub is_none_left : List Provider → Bool
  is_none_left [] = true
  is_none_left (p ∷ ps) = false

  unfoldable pub run_agent_with_fallback :
      Profile → Bool → Bool → List Provider → Progress → Answer × Progress
  run_agent_with_fallback profile has_tools has_output available g =
      let providers =
        ordered_providers_for_agent (usable_providers has_tools has_output available) profile
          c.routing_mode in
      let result = try_providers providers g in
      if is_none_left providers then (no_providers, g) else result
