-- ===== src/Budget/Tracker.antt =====
-- packages/core/src/budget.ts: the data, `addTokenUsage` and `BudgetTracker`.
use ai_orchestration.Prelude.{
  ℕ, String, ◌+◌, ◌*◌, Bool, true, false, Option, none, some, List, [], ◌∷◌, ◌++◌, leb,
  if◌then◌else◌,
}
use ai_orchestration.Prelude.Dict.{Dict, count_of, insert}
use Prim.Native.Nat.{max}

pub record TokenUsage : Type 0 where
  pub input_tokens : ℕ
  pub output_tokens : ℕ
  pub cache_read_tokens : Option ℕ
  pub cache_write_tokens : Option ℕ

abbrev pub empty_token_usage : TokenUsage
empty_token_usage = record {
  input_tokens = 0;
  output_tokens = 0;
  cache_read_tokens = none;
  cache_write_tokens = none;
}

-- `x ?? 0`
abbrev pub or_zero : Option ℕ → ℕ
or_zero none = 0
or_zero (some n) = n

pub add_token_usage : TokenUsage → TokenUsage → TokenUsage
add_token_usage a b = record {
  input_tokens = a.input_tokens + b.input_tokens;
  output_tokens = a.output_tokens + b.output_tokens;
  cache_read_tokens = some (or_zero a.cache_read_tokens + or_zero b.cache_read_tokens);
  cache_write_tokens = some (or_zero a.cache_write_tokens + or_zero b.cache_write_tokens);
}

pub record UsageRecord : Type 0 where
  pub provider : String
  pub model : Option String
  pub tokens : TokenUsage
  pub estimated_cost_usd : Option ℕ
  pub subscription_requests : Option ℕ
  pub duration_ms : ℕ
  pub turns : ℕ
  pub subagents : ℕ

pub record BudgetLimits : Type 0 where
  pub max_concurrent_agents : Option ℕ
  pub max_subagents_per_run : Option ℕ
  pub max_iterations : Option ℕ
  pub max_wall_clock_ms : Option ℕ
  pub max_tokens : Option ℕ
  pub max_estimated_cost_usd : Option ℕ
  pub max_subscription_requests : Option ℕ
  pub provider_quotas : Dict ℕ

pub data BudgetPeriod : Type 0 where
  run day week month : BudgetPeriod

pub record Budget : Type 0 where
  pub id : String
  pub period : BudgetPeriod
  pub limits : BudgetLimits

pub data BudgetDimension : Type 0 where
  max_concurrent_agents max_subagents_per_run max_iterations max_wall_clock_ms : BudgetDimension
  max_tokens max_estimated_cost_usd max_subscription_requests : BudgetDimension
  provider_quota : String → BudgetDimension

pub record BudgetStatus : Type 0 where
  pub budget_id : String
  pub exhausted : Bool
  pub exhausted_dimensions : List BudgetDimension
  pub warning_dimensions : List BudgetDimension

pub record BudgetConsumption : Type 0 where
  pub tokens : Option ℕ
  pub estimated_cost_usd : Option ℕ
  pub subscription_requests : Option ℕ
  pub iterations : Option ℕ
  pub wall_clock_ms : Option ℕ
  pub provider_quotas : Dict ℕ

pub record BudgetTracker : Type 0 where
  pub tokens : ℕ
  pub cost_usd : ℕ
  pub requests : ℕ
  pub iterations : ℕ
  pub wall_clock_ms : ℕ
  pub quotas : Dict ℕ
  pub budget : Budget
  -- `warningRatio` is warning_num / warning_den, by default 4 / 5.
  pub warning_num : ℕ
  pub warning_den : ℕ

-- The constructor.
unfoldable pub new_tracker : Budget → ℕ → ℕ → BudgetTracker
new_tracker budget num den = record {
  tokens = 0;
  cost_usd = 0;
  requests = 0;
  iterations = 0;
  wall_clock_ms = 0;
  quotas = [];
  budget = budget;
  warning_num = num;
  warning_den = den;
}

-- The two lists that `status` fills: exhausted, then warning.
abbrev pub Found : Type 0
Found = List BudgetDimension × List BudgetDimension

unfoldable pub check : ℕ → ℕ → BudgetDimension → ℕ → Option ℕ → Found → Found
check num den dimension used none found = found
check num den dimension used (some limit) (exhausted, warning) =
    if leb limit used
    then (exhausted ++ dimension ∷ [], warning)
    else if leb (limit * num) (used * den)
    then (exhausted, warning ++ dimension ∷ [])
    else (exhausted, warning)

-- The arguments of one call of `check`.
pub record Meter : Type 0 where
  pub dimension : BudgetDimension
  pub used : ℕ
  pub limit : Option ℕ

unfoldable pub check_all : ℕ → ℕ → List Meter → Found → Found
check_all num den [] found = found
check_all num den (m ∷ rest) found =
    check_all num den rest (check num den m.dimension m.used m.limit found)

-- The loop over `limits.providerQuotas`.
unfoldable pub quota_meters : Dict ℕ → Dict ℕ → List Meter
quota_meters quotas [] = []
quota_meters quotas ((key, limit) ∷ rest) =
    record { dimension = provider_quota key; used = count_of key quotas; limit = some limit }
    ∷ quota_meters quotas rest

-- The calls of `check` that `status` makes, in order.
unfoldable pub meters : BudgetTracker → List Meter
meters t =
    record { dimension = max_tokens; used = t.tokens; limit = limits.max_tokens }
    ∷ record {
      dimension = max_estimated_cost_usd;
      used = t.cost_usd;
      limit = limits.max_estimated_cost_usd;
    }
    ∷ record {
      dimension = max_subscription_requests;
      used = t.requests;
      limit = limits.max_subscription_requests;
    }
    ∷ record { dimension = max_iterations; used = t.iterations; limit = limits.max_iterations }
    ∷ record {
      dimension = max_wall_clock_ms;
      used = t.wall_clock_ms;
      limit = limits.max_wall_clock_ms;
    }
    ∷ quota_meters t.quotas limits.provider_quotas
  where
    limits : BudgetLimits
    limits = t.budget.limits

abbrev is_nonempty : List BudgetDimension → Bool
is_nonempty [] = false
is_nonempty (_ ∷ _) = true

unfoldable pub status : BudgetTracker → BudgetStatus
unfolding check_all
status t =
    let (exhausted, warning) = check_all t.warning_num t.warning_den (meters t) ([], []) in
    record {
      budget_id = t.budget.id;
      exhausted = is_nonempty exhausted;
      exhausted_dimensions = exhausted;
      warning_dimensions = warning;
    }

unfoldable pub record_quotas : Dict ℕ → Dict ℕ → Dict ℕ
record_quotas quotas [] = quotas
record_quotas quotas ((key, value) ∷ rest) =
    record_quotas (insert key (count_of key quotas + value) quotas) rest

-- What `record` makes of the fields.
unfoldable pub consume : BudgetTracker → BudgetConsumption → BudgetTracker
consume t delta = record t {
  tokens = t.tokens + or_zero delta.tokens;
  cost_usd = t.cost_usd + or_zero delta.estimated_cost_usd;
  requests = t.requests + or_zero delta.subscription_requests;
  iterations = t.iterations + or_zero delta.iterations;
  wall_clock_ms = max t.wall_clock_ms (or_zero delta.wall_clock_ms);
  quotas = record_quotas t.quotas delta.provider_quotas;
}

-- `record(delta)`
unfoldable pub record_delta : BudgetTracker → BudgetConsumption → BudgetTracker × BudgetStatus
record_delta t delta = let next = consume t delta in (next, status next)
