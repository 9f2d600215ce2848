-- ===== src/Fallback/Tests.antt =====
-- A run over three providers, of which the first is out of quota and the second does not answer.
use shiku_ai_powered_sales_d.Prelude.{
  List, Text, [], codes, false, if◌then◌else◌, leb, none, not, refl, some, sort_by, true, ◌&&◌, ◌+◌,
  ◌==◌, ◌∷◌, ◌≡◌,
}
use shiku_ai_powered_sales_d.Metering.Schema.{Tenancy}
use shiku_ai_powered_sales_d.Fallback.Models.{
  Profile, Provider, blacklist_provider, is_blacklisted, ordered_providers_for_agent,
  provider_family_name, rank, recover_blacklist, usable_providers,
}
use shiku_ai_powered_sales_d.Fallback.Loop.{
  Call, Progress, Runner, answered, execute_with_retry, failed, finished, is_fatal_error,
  run_agent_with_fallback, should_blacklist, try_providers,
}
use shiku_ai_powered_sales_d.Fallback.Outcome.{IsOutcome, run_agent_with_fallback-IsOutcome}
use shiku_ai_powered_sales_d.Fallback.Blacklisting.{
  is_blacklisted-blacklist_provider, is_listed_at, is_stuck,
}

abbrev provider : Text → Provider
provider name = record {
  name = name;
  model = codes "m";
  billing_source = codes "platform";
  provider_credential_id = none;
}

abbrev available : List Provider
available =
    provider (codes "Groq-Llama")
    ∷ provider (codes "Google")
    ∷ provider (codes "OpenAI")
    ∷ provider (codes "Cerebras-1")
    ∷ []

abbrev profile : Profile
profile = record {
  quality_order = codes "OpenAI" ∷ codes "Groq" ∷ [];
  balanced_order = codes "Groq" ∷ codes "OpenAI" ∷ [];
  cost_order = codes "Google" ∷ [];
}

abbrev runner : Runner
runner n p =
    if n == 0
    then failed (codes "Error 402: Insufficient credits")
    else if n == 1
    then failed (codes "timeout")
    else finished (codes "a draft")

abbrev tenancy : Tenancy
tenancy = record {
  subscription_of =
      λ org. record { id = none; plan = none; period_started_at = none; period_ends_at = none };
  month = λ now. (0, 1000);
}

abbrev start : Progress
start = record {
  calls = 0;
  blacklist = [];
  errors = 0;
  meter = record {
    periods = [];
    actions = [];
    platform_events = [];
    llm_events = [];
    next_action_id = 1;
    next_event_id = 1;
    current_user_id = none;
    current_action_id = none;
    request_id = none;
  };
}

abbrev call : Call
call = record {
  agent = codes "DrafterAgent";
  organization_id = some 1;
  routing_mode = codes "cost_optimized";
  metadata_of = λ p. [];
  charge_raises = false;
}

abbrev tried : List Provider
tried =
    ordered_providers_for_agent (usable_providers true false available) profile
      (codes "cost_optimized")

-- Google comes first by the order of costs, and is out of quota; the answer is of the next.
answer_is :
    (run_agent_with_fallback runner tenancy 5 call profile true false available start).0
    ≡ answered (codes "a draft") (provider (codes "Groq-Llama"))
unfolding run_agent_with_fallback try_providers execute_with_retry is_fatal_error should_blacklist
    ordered_providers_for_agent usable_providers rank provider_family_name sort_by
answer_is = refl

run_agent_with_fallback-IsOutcome_example :
    IsOutcome runner tenancy 5 call tried start
      (run_agent_with_fallback runner tenancy 5 call profile true false available start)
run_agent_with_fallback-IsOutcome_example =
    run_agent_with_fallback-IsOutcome runner tenancy 5 call profile true false available start

is_blacklisted-blacklist_provider_example :
    is_listed_at 200
      (recover_blacklist 200
        (codes "OpenAI" ∷ codes "Google" ∷ [])
        (blacklist_provider 5 (codes "Google") []))
      (codes "DeepSeek")
    ≡ (leb 200 (5 + 300)
        && not (
            is_stuck 200
              (blacklist_provider 5 (codes "Google") [])
              (codes "OpenAI" ∷ codes "Google" ∷ [])))
is_blacklisted-blacklist_provider_example =
    is_blacklisted-blacklist_provider 5 200 (codes "Google") (codes "DeepSeek")
      (codes "OpenAI" ∷ codes "Google" ∷ []) [] refl

-- Where all the configured providers are on the blacklist, it is cleared.
recovered :
    recover_blacklist 200 (codes "Google" ∷ []) (blacklist_provider 5 (codes "Google") []) ≡ []
unfolding recover_blacklist blacklist_provider is_blacklisted
recovered = refl
