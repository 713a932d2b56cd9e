-- ===== src/Budget/Examples.antt =====
-- A budget of 1000 tokens and 5 premium requests, used up step by step.

use mathlib.Core.List.{Memᴰ}
use ai_orchestration.Prelude.{◌≡◌, refl, ◌↔◌, true, none, some, [], ◌∷◌, str_eq}
use ai_orchestration.Prelude.Dict.{count_of, lookup, insert}
use ai_orchestration.Budget.Tracker.{
  Budget, BudgetTracker, BudgetConsumption, BudgetDimension, BudgetPeriod, max_concurrent_agents,
  max_subagents_per_run, max_tokens, provider_quota, status, record_delta, consume, new_tracker,
  check, meters, quota_meters, record_quotas,
}
use ai_orchestration.Budget.Monotone.{IsExhausted, status-IsExhausted_iff, record_delta-exhausted}

abbrev budget : Budget
budget = record {
  id = "daily";
  period = BudgetPeriod.day;
  limits = record {
    max_concurrent_agents = some 0;
    max_subagents_per_run = none;
    max_iterations = some 10;
    max_wall_clock_ms = none;
    max_tokens = some 1000;
    max_estimated_cost_usd = none;
    max_subscription_requests = none;
    provider_quotas = ("copilot.premium-requests", 5) ∷ [];
  };
}

abbrev spent : BudgetConsumption
spent = record {
  tokens = some 900;
  estimated_cost_usd = none;
  subscription_requests = none;
  iterations = some 1;
  wall_clock_ms = none;
  provider_quotas = ("copilot.premium-requests", 5) ∷ [];
}

program : Unit {0}
unfolding status record_delta consume new_tracker check meters quota_meters record_quotas count_of
    lookup insert str_eq
program = tt

used_up : BudgetTracker
unfolding program
used_up = consume (new_tracker budget 4 5) spent

warns_and_exhausts :
    ((record_delta (new_tracker budget 4 5) spent).1.exhausted_dimensions
      ≡ provider_quota "copilot.premium-requests" ∷ [])
    × ((record_delta (new_tracker budget 4 5) spent).1.warning_dimensions ≡ max_tokens ∷ [])
    × ((record_delta (new_tracker budget 4 5) spent).1.exhausted ≡ true)
unfolding program
warns_and_exhausts = (refl, refl, refl)

quota_is_used_up :
    Memᴰ (provider_quota "copilot.premium-requests") (status used_up).exhausted_dimensions
unfolding program used_up
quota_is_used_up = Memᴰ.head refl

status-IsExhausted_iff_example :
    ((d : BudgetDimension) → Memᴰ d (status used_up).exhausted_dimensions ↔ IsExhausted used_up d)
    × ¬ Memᴰ max_concurrent_agents (status used_up).exhausted_dimensions
    × ¬ Memᴰ max_subagents_per_run (status used_up).exhausted_dimensions
status-IsExhausted_iff_example = status-IsExhausted_iff used_up

record_delta-exhausted_example :
    Memᴰ
      (provider_quota "copilot.premium-requests")
      (record_delta used_up spent).1.exhausted_dimensions
record_delta-exhausted_example =
    record_delta-exhausted used_up spent (provider_quota "copilot.premium-requests")
      quota_is_used_up
