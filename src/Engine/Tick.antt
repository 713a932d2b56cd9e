-- ===== src/Engine/Tick.antt =====
-- packages/workflow/src/graph-engine/engine.ts: `GraphEngine.tick`, its main loop, `thaw` and
-- `freeze`. The loop takes fuel, for rounds; `Termination` says how much is enough.
use ai_orchestration.Prelude.{
  ℕ, zero, suc, String, Bool, true, false, not, ◌&&◌, ◌||◌, Option, none, some, List, [], ◌∷◌, leb,
  if◌then◌else◌, is_none, Thrown, ok, throw,
}
use ai_orchestration.Prelude.Dict.{Dict}
use ai_orchestration.Prelude.Names.{add}
use ai_orchestration.ScopeExpr.Lexer.{ScopeError}
use ai_orchestration.Graph.{WorkflowGraph, TerminalOutcome}
use ai_orchestration.Waits.{WaitSatisfaction}
use ai_orchestration.Engine.State.{
  Tick, RunGraphState, GraphTickOutcome, GraphRunStatus, completed, failed, blocked, waiting,
  cancelled, TickError, backstop_exceeded, inconsistent, stalled, Environment,
}
use ai_orchestration.Engine.Settle.{activate}
use ai_orchestration.Engine.Execute.{sort, runnable, execute_all, process_all}

-- `new Set(ids)`
unfoldable pub set_of : List String → List String → List String
set_of acc [] = acc
set_of acc (x ∷ xs) = set_of (add x acc) xs

abbrev pub or_no_retries : Option (Dict ℕ) → Dict ℕ
or_no_retries none = []
or_no_retries (some m) = m

-- `thaw`, and the variables of `tick` at their first values.
unfoldable pub thaw : RunGraphState → Dict WaitSatisfaction → Tick
unfolding set_of
thaw state satisfactions = record {
  active = set_of [] state.active_node_ids;
  waiting = set_of [] state.waiting_node_ids;
  node_results = state.node_results;
  result_history = state.result_history;
  loop_counters = state.loop_counters;
  activations = state.activations;
  retries = or_no_retries state.retries;
  domain_name = state.domain.name;
  domain_data = state.domain.values;
  variables = state.variables;
  new_waits = [];
  projections = [];
  terminal = none;
  fatal_error = none;
  settlements = 0;
  pending_satisfactions = satisfactions;
  events = [];
}

unfoldable pub freeze : RunGraphState → Tick → ℕ → RunGraphState
freeze previous tick at = record previous {
  active_node_ids = sort tick.active;
  waiting_node_ids = sort tick.waiting;
  node_results = tick.node_results;
  result_history = tick.result_history;
  loop_counters = tick.loop_counters;
  activations = tick.activations;
  retries = some tick.retries;
  domain = record { name = tick.domain_name; values = tick.domain_data };
  variables = tick.variables;
  updated_at = at;
}

abbrev pub no_names : List String → Bool
no_names [] = true
no_names (_ ∷ _) = false

abbrev pub no_keys : Dict ℕ → Bool
no_keys [] = true
no_keys (_ ∷ _) = false

unfoldable pub is_fresh : Tick → Bool
is_fresh tick = no_names tick.active && (no_names tick.waiting && no_keys tick.activations)

-- The activation of the entry node in a fresh run.
unfoldable pub start : WorkflowGraph → Tick → Thrown ScopeError Tick
unfolding is_fresh
start graph tick = if is_fresh tick then activate graph graph.entry tick else ok tick

pub data LoopResult (W : Type 0) : Type 0 where
  finished : Tick → W → LoopResult W
  threw : ScopeError → LoopResult W
  out_of_rounds : LoopResult W

-- What throws in a batch leaves the loop.
unfoldable pub behind_batch :
    {W : Type 0} → Thrown ScopeError Tick × W → (Tick → W → LoopResult W) → LoopResult W
behind_batch (throw e, w) rest = threw e
behind_batch (ok after, w) rest = rest after w

module _ {W : Type 0} (env : Environment W) (graph : WorkflowGraph) (run_id : String)
    (max_settlements : ℕ) where
  unfoldable pub has_stopped : Tick → W → Bool
  has_stopped tick w =
      env.is_aborted w || (not (is_none tick.terminal) || not (is_none tick.fatal_error))

  -- One batch: what is runnable is executed, and its results are settled.
  unfoldable pub batch : Tick → W → Thrown ScopeError Tick × W
  unfolding execute_all process_all
  batch tick w =
      let (executions, ready, w1) = execute_all env graph run_id (runnable tick) tick w in
      process_all env graph run_id executions ready w1

  -- The `while` loop.
  unfoldable pub rounds : ℕ → Tick → W → LoopResult W
  unfolding has_stopped batch behind_batch
  rounds zero tick w = out_of_rounds
  rounds (suc fuel) tick w = elim (has_stopped tick w) [
    | true ↦ finished tick w
    | false ↦ elim (leb max_settlements tick.settlements) [
      | true ↦ finished (record tick { fatal_error = some (backstop_exceeded max_settlements) }) w
      | false ↦ elim (no_names (runnable tick)) [
        | true ↦ finished tick w
        | false ↦ behind_batch (batch tick w) (rounds fuel)
      ]
    ]
  ]

unfoldable pub status_of_terminal : TerminalOutcome → GraphRunStatus
status_of_terminal TerminalOutcome.completed = completed
status_of_terminal TerminalOutcome.blocked = blocked
status_of_terminal TerminalOutcome.failed = failed

abbrev pub outcome_with :
    RunGraphState
    → Tick
    → GraphRunStatus
    → Option TerminalOutcome
    → Option TickError
    → GraphTickOutcome
outcome_with frozen tick status terminal error = record {
  state = frozen;
  status = status;
  new_waits = tick.new_waits;
  projections = tick.projections;
  terminal = terminal;
  error = error;
  events = tick.events;
}

-- What a run without a terminal node or an error comes to.
unfoldable pub quiet_outcome : RunGraphState → Tick → GraphTickOutcome
quiet_outcome frozen tick =
    if not (no_names tick.waiting)
    then outcome_with frozen tick waiting none none
    else if not (no_names tick.active)
    then outcome_with frozen tick failed none (some inconsistent)
    else outcome_with frozen tick failed none (some stalled)

-- The part of `tick` behind the loop, with the abort signal as it is then.
unfoldable pub conclude : RunGraphState → Tick → Bool → GraphTickOutcome
unfolding status_of_terminal quiet_outcome
conclude frozen tick aborted =
    if aborted then outcome_with frozen tick cancelled none none else elim tick.fatal_error [
      | some error ↦ outcome_with frozen tick failed none (some error)
      | none ↦ elim tick.terminal [
        | some outcome ↦ outcome_with frozen tick (status_of_terminal outcome) (some outcome) none
        | none ↦ quiet_outcome frozen tick
      ]
    ]

pub data TickResult (W : Type 0) : Type 0 where
  returned : GraphTickOutcome → W → TickResult W
  rejected : ScopeError → TickResult W
  ran_out : TickResult W

-- `GraphEngine.tick`. Its default for `maxSettlementsPerTick` is 1000.
module _ {W : Type 0} (env : Environment W) (graph : WorkflowGraph) (max_settlements : ℕ) where
  unfoldable pub finish : RunGraphState → LoopResult W → TickResult W
  unfolding conclude freeze
  finish state (finished tick w) =
      let (at, w1) = env.now w in
      returned (conclude (freeze state tick at) tick (env.is_aborted w1)) w1
  finish state (threw e) = rejected e
  finish state out_of_rounds = ran_out

  unfoldable pub tick : ℕ → RunGraphState → Dict WaitSatisfaction → W → TickResult W
  unfolding start rounds thaw finish
  tick fuel state satisfactions w = elim (start graph (thaw state satisfactions)) [
    | throw e ↦ rejected e
    | ok begun ↦ finish state (rounds env graph state.run_id max_settlements fuel begun w)
  ]
