-- ===== src/Fallback/Outcome.antt =====
-- How a run over the providers ends.
use shiku_ai_powered_sales_d.Prelude.{
  All, Bool, Bool-cases, List, Text, [], ap, arith, false, if◌then◌else◌, inl, inr, length, refl,
  true, ℕ, ◌*◌, ◌++◌, ◌+◌, ◌∙◌, ◌∷◌, ◌≡◌, ◌≤◌,
}
use shiku_ai_powered_sales_d.Metering.Schema.{Tenancy}
use shiku_ai_powered_sales_d.Fallback.Models.{
  Profile, Provider, blacklist_provider, ordered_providers_for_agent, usable_providers,
}
use shiku_ai_powered_sales_d.Fallback.Loop.{
  Answer, Call, Execution, Progress, Run, Runner, after_first, all_failed, answered, charge,
  classify, done, execute_with_retry, failed, fatal, finished, is_fatal_error, is_none_left,
  no_providers, not_done, run_agent_with_fallback, should_blacklist, try_providers, turn,
}

calls_of_execution :
    (run : Runner) (p : Provider) (calls : ℕ) → (execute_with_retry run p calls).1 ≤ calls + 2
unfolding execute_with_retry
calls_of_execution run p calls = go (classify (run calls p))
  where
    go : (e : Execution) → (after_first run p calls e).1 ≤ calls + 2
    go (done out) = omega arith
    go (fatal error) = omega arith
    go (not_done error) = omega arith

-- What an outcome of `execute_with_retry` stands on: a call of the provider ended so.
abbrev IsExecution : Runner → Provider → Execution → Type 0
IsExecution run p (done out) = (n : ℕ) × (run n p ≡ finished out)
IsExecution run p (fatal error) = (n : ℕ) × (run n p ≡ failed error)
IsExecution run p (not_done error) = (n : ℕ) × (run n p ≡ failed error)

classify-IsExecution :
    (run : Runner) (p : Provider) (n : ℕ) (r : Run) → run n p ≡ r → IsExecution run p (classify r)
classify-IsExecution run p n (finished out) e = (n, e)
classify-IsExecution run p n (failed error) e = elim (Bool-cases (is_fatal_error error)) [
  | inl t ↦ rw t (n, e)
  | inr f ↦ rw f (n, e)
]

execute-IsExecution :
    (run : Runner) (p : Provider) (calls : ℕ) → IsExecution run p (execute_with_retry run p calls).0
unfolding execute_with_retry
execute-IsExecution run p calls =
    go (classify (run calls p)) (classify-IsExecution run p calls (run calls p) refl)
  where
    go : (e : Execution) → IsExecution run p e → IsExecution run p (after_first run p calls e).0
    go (done out) h = h
    go (fatal error) h = h
    go (not_done error) h = classify-IsExecution run p (calls + 1) (run (calls + 1) p) refl

-- A call of the provider has failed.
abbrev pub HasFailed : Runner → Provider → Type 0
HasFailed run p = (n : ℕ) × (error : Text) × (run n p ≡ failed error)

-- Where the run answers: a call of the provider returned the answer, those before it have failed, at
-- most two calls were made for each, and the answer is charged. Where all have failed: nothing is charged.
abbrev pub IsOutcome :
    Runner → Tenancy → ℕ → Call → List Provider → Progress → Answer × Progress → Type 0
IsOutcome run t now c ps g (answered out p, g') =
    (before : List Provider) × (after : List Provider) × (ps ≡ before ++ p ∷ after)
    × ((n : ℕ) × (run n p ≡ finished out))
    × All (HasFailed run) before
    × (g'.errors ≡ g.errors + length before)
    × (g'.calls ≤ g.calls + 2 * (length before + 1))
    × (g'.meter ≡ charge t now c p g.meter)
IsOutcome run t now c ps g (all_failed, g') =
    All (HasFailed run) ps
    × (g'.errors ≡ g.errors + length ps)
    × (g'.calls ≤ g.calls + 2 * length ps)
    × (g'.meter ≡ g.meter)
IsOutcome run t now c ps g (no_providers, g') = (ps ≡ []) × (g' ≡ g)

abbrev is_no_providers : Answer → Bool
is_no_providers no_providers = true
is_no_providers _ = false

module _ (run : Runner) (t : Tenancy) (now : ℕ) (c : Call) where
  -- One provider that failed, and the rest of the run.
  after_failure :
      (p : Provider) (ps : List Provider) (g g1 : Progress) (r : Answer × Progress)
      → HasFailed run p
      → g1.errors ≡ g.errors + 1
      → g1.calls ≤ g.calls + 2
      → g1.meter ≡ g.meter
      → is_no_providers r.0 ≡ false
      → IsOutcome run t now c ps g1 r
      → IsOutcome run t now c (p ∷ ps) g r
  after_failure p ps g g1 (answered out q, g') f e n m some_left
        (before, after, split, ran, fs, e', n', m') =
      (
        p ∷ before,
        after,
        ap (λ x. p ∷ x) split,
        ran,
        (f, fs),
        omega (arith, e, e'),
        omega (arith, n, n'),
        m' ∙ ap (charge t now c q) m,
      )
  after_failure p ps g g1 (all_failed, g') f e n m some_left (fs, e', n', m') =
      ((f, fs), omega (arith, e, e'), omega (arith, n, n'), m' ∙ m)
  after_failure p ps g g1 (no_providers, g') f e n m some_left h = absurd (cc)

  abbrev Ends : List Provider → Progress → Answer × Progress → Type 0
  Ends ps g r = IsOutcome run t now c ps g r × (is_no_providers r.0 ≡ false)

  turn-Ends :
      (p : Provider) (ps : List Provider) (g : Progress) (rest : Progress → Answer × Progress)
      (e : Execution) (calls : ℕ)
      → ((g1 : Progress) → Ends ps g1 (rest g1))
      → calls ≤ g.calls + 2
      → IsExecution run p e
      → Ends (p ∷ ps) g (turn run t now c rest p g (e, calls))
  turn-Ends p ps g rest (done out) calls ih n x =
      (([], ps, refl, x, tt, omega arith, omega (arith, n), refl), refl)
  turn-Ends p ps g rest (fatal error) calls ih n x =
      let g1 : Progress = record g {
        calls = calls;
        errors = g.errors + 1;
        blacklist =
            if should_blacklist error
            then blacklist_provider now p.name g.blacklist
            else g.blacklist;
      } in
      (
        after_failure p ps g g1 (rest g1) (x.0, error, x.1) refl n refl (ih g1).1 (ih g1).0,
        (ih g1).1,
      )
  turn-Ends p ps g rest (not_done error) calls ih n x =
      let g1 : Progress = record g { calls = calls; errors = g.errors + 1 } in
      (
        after_failure p ps g g1 (rest g1) (x.0, error, x.1) refl n refl (ih g1).1 (ih g1).0,
        (ih g1).1,
      )

  try_providers-Ends :
      (ps : List Provider) (g : Progress) → Ends ps g (try_providers run t now c ps g)
  unfolding try_providers
  try_providers-Ends [] g = ((tt, omega arith, omega arith, refl), refl)
  try_providers-Ends (p ∷ ps) g =
      let (e, calls) = execute_with_retry run p g.calls in
      turn-Ends p ps g (try_providers run t now c ps) e calls (try_providers-Ends ps)
        (calls_of_execution run p g.calls) (execute-IsExecution run p g.calls)

-- A run ends in one of three ways. A provider answers: a call of it returned that answer, a call of
-- every provider tried before it failed and each is counted as an error, there were at most two calls
-- for each provider tried, and the ledger is the one after the attempt to charge the answer. All fail:
-- a call of each failed, each is counted as an error, with at most two calls for each, and the ledger
-- is as it was. Or there is no provider, and nothing changes.
pub run_agent_with_fallback-IsOutcome :
    (run : Runner) (t : Tenancy) (now : ℕ) (c : Call) (profile : Profile)
    (has_tools has_output : Bool) (available : List Provider) (g : Progress)
    → IsOutcome run t now c
        (ordered_providers_for_agent
          (usable_providers has_tools has_output available)
          profile
          c.routing_mode)
        g
        (run_agent_with_fallback run t now c profile has_tools has_output available g)
unfolding run_agent_with_fallback
run_agent_with_fallback-IsOutcome run t now c profile has_tools has_output available g = go (
    ordered_providers_for_agent (usable_providers has_tools has_output available) profile
      c.routing_mode)
  where
    go :
        (ps : List Provider)
        → IsOutcome run t now c ps g (
            if is_none_left run t now c ps
            then (no_providers, g)
            else try_providers run t now c ps g)
    go [] = (refl, refl)
    go (p ∷ ps) = (try_providers-Ends run t now c (p ∷ ps) g).0
