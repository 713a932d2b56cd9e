-- ===== src/Engine/Examples.antt =====
-- Ticks of the sample workflow, with executors that answer by the kind of the node: the first check
-- fails, the later ones succeed.
use ai_orchestration.Prelude.{
  ◌<◌, ◌≢◌, ◌∷◌, ℕ, suc, String, ◌≡◌, refl, ◌∙◌, arith, false, Option, none, some, [], Thrown, ok,
  ltb, if◌then◌else◌, str_eq,
}
use ai_orchestration.Prelude.Dict.{count_of, lookup, insert, delete}
use ai_orchestration.Prelude.Names.{has, add, remove}
use ai_orchestration.ScopeExpr.Eval.{evaluate_scope_expression}
use ai_orchestration.Engine.Join.{node_by_id, outgoing, join_satisfied}
use ai_orchestration.Engine.Settle.{
  activate, apply_effect, settle_node, fire, take_and_enter, enter_target,
}
use ai_orchestration.Engine.Execute.{sort, is_runnable, runnable, deliver}
use ai_orchestration.Graph.{GraphNode, GraphNodeKind, TerminalOutcome}
use ai_orchestration.Graph.Samples.{review_loop}
use ai_orchestration.Graph.Validate.{validate_graph}
use ai_orchestration.Engine.State.{
  Tick, RunGraphState, GraphTickOutcome, succeeded, failed, NodeExecutionContext, NodeYield,
  yields_result, Environment, initial_run_graph_state, completed,
}
use ai_orchestration.Engine.Measure.{IsKnown}
use ai_orchestration.Engine.Termination.{tick-ends, rounds_of_unknown}
use ai_orchestration.Engine.Tick.{
  rounds, out_of_rounds, ran_out, thaw, set_of, tick, TickResult, returned, status_of_terminal,
}
use ai_orchestration.Engine.Bounds.{IsBounded, tick-IsBounded}
use ai_orchestration.Engine.Joins.{IsAccounted, tick-IsAccounted}
use ai_orchestration.Engine.History.{IsLatest, IsExtended, last_of, tick-IsExtended}
use ai_orchestration.Engine.Terminals.{EndsAt, tick-EndsAt}

abbrev answer : GraphNode → NodeExecutionContext → ℕ → Thrown String NodeYield × ℕ
answer n context w = (ok (yields_result succeeded none none), suc w)

abbrev check_answer : GraphNode → NodeExecutionContext → ℕ → Thrown String NodeYield × ℕ
check_answer n context w =
    (ok (yields_result (if ltb context.attempt 2 then failed else succeeded) none none), suc w)

abbrev executor_of :
    GraphNodeKind → Option (GraphNode → NodeExecutionContext → ℕ → Thrown String NodeYield × ℕ)
executor_of GraphNodeKind.gate = some check_answer
executor_of _ = some answer

-- A clock that every call moves on, and no abort.
abbrev world : Environment ℕ
world = record { now = λ w. (w, suc w); is_aborted = λ w. false; executor = executor_of }

abbrev begin : RunGraphState
begin = initial_run_graph_state "run-1" "snapshot-1" []

abbrev outcome : TickResult ℕ → GraphTickOutcome
outcome (returned out w) = out
outcome _ = record {
  state = begin;
  status = completed;
  new_waits = [];
  projections = [];
  terminal = none;
  error = none;
  events = [];
}

abbrev clock : TickResult ℕ → ℕ
clock (returned out w) = w
clock _ = 0

abbrev run : TickResult ℕ
run = tick world review_loop 1000 20 begin [] 0

clean : validate_graph review_loop ≡ []
unfolding validate_graph str_eq has add
clean = refl

begin-IsBounded : IsBounded review_loop begin.loop_counters
unfolding IsBounded initial_run_graph_state count_of lookup
begin-IsBounded tr b at e = omega arith

begin-IsAccounted : IsAccounted review_loop begin.activations begin.loop_counters
unfolding IsAccounted initial_run_graph_state count_of lookup
begin-IsAccounted n there = omega arith

begin-IsLatest : IsLatest begin.node_results begin.result_history
unfolding IsLatest initial_run_graph_state last_of lookup
begin-IsLatest id = refl

terminal_completed : completed ≡ status_of_terminal TerminalOutcome.completed
unfolding status_of_terminal
terminal_completed = refl

run_completes : (outcome run).status ≡ completed
unfolding tick str_eq initial_run_graph_state activate node_by_id apply_effect runnable add remove
    settle_node fire outgoing take_and_enter enter_target join_satisfied count_of deliver insert
    lookup delete has evaluate_scope_expression
run_completes = refl

run_returns : run ≡ returned (outcome run) (clock run)
unfolding tick str_eq initial_run_graph_state activate node_by_id apply_effect runnable add remove
    settle_node fire outgoing take_and_enter enter_target join_satisfied count_of deliver insert
    lookup delete has evaluate_scope_expression
run_returns = refl

-- `t3` has been taken once, and `build` runs twice.
run_loops :
    (count_of "t3" (outcome run).state.loop_counters ≡ 1)
    × (count_of "build" (outcome run).state.activations ≡ 2)
unfolding tick str_eq initial_run_graph_state activate node_by_id apply_effect runnable add remove
    settle_node fire outgoing take_and_enter enter_target join_satisfied count_of deliver insert
    lookup delete has evaluate_scope_expression
run_loops = (refl, refl)

tick-IsBounded_example : IsBounded review_loop (outcome run).state.loop_counters
tick-IsBounded_example =
    tick-IsBounded world review_loop 1000 20 begin [] 0 (clock run) (outcome run) clean run_returns
      begin-IsBounded

tick-IsAccounted_example :
    IsAccounted review_loop (outcome run).state.activations (outcome run).state.loop_counters
tick-IsAccounted_example =
    tick-IsAccounted world review_loop 1000 20 begin [] 0 (clock run) (outcome run) run_returns
      begin-IsAccounted

tick-IsExtended_example :
    IsLatest (outcome run).state.node_results (outcome run).state.result_history
    × IsExtended review_loop begin.result_history (outcome run).state.result_history
tick-IsExtended_example =
    tick-IsExtended world review_loop 1000 20 begin [] 0 (clock run) (outcome run) run_returns
      begin-IsLatest

tick-EndsAt_example : EndsAt review_loop TerminalOutcome.completed (outcome run).state.node_results
tick-EndsAt_example =
    tick-EndsAt world review_loop 1000 20 begin [] 0 (clock run) (outcome run)
      TerminalOutcome.completed run_returns (run_completes ∙ terminal_completed) (λ e. cc)

begin-IsKnown : IsKnown review_loop begin.active_node_ids
unfolding IsKnown initial_run_graph_state has
begin-IsKnown id at = cc

tick-ends_example : tick world review_loop 1000 2002 begin [] 0 ≢ ran_out
tick-ends_example = tick-ends world review_loop 1000 2002 begin [] 0 begin-IsKnown (omega arith)

-- A state that a workflow without the node `ghost` cannot have left behind.
abbrev haunted : Tick
haunted = thaw (record begin { active_node_ids = "ghost" ∷ [] }) []

only_ghost_runs : runnable haunted ≡ "ghost" ∷ []
unfolding runnable sort is_runnable thaw set_of add has str_eq lookup initial_run_graph_state
only_ghost_runs = refl

no_ghost : node_by_id "ghost" review_loop.nodes ≡ none
unfolding node_by_id str_eq
no_ghost = refl

fresh_start :
    (haunted.terminal ≡ none) × (haunted.fatal_error ≡ none) × (haunted.settlements < 1000)
unfolding thaw
fresh_start = (refl, refl, omega arith)

rounds_of_unknown_example : rounds world review_loop "run-1" 1000 5000 haunted 0 ≡ out_of_rounds
rounds_of_unknown_example =
    rounds_of_unknown world review_loop "run-1" 1000 5000 haunted 0 "ghost" (λ v. refl)
      only_ghost_runs no_ghost fresh_start.0 fresh_start.1 fresh_start.2
