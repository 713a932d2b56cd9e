-- ===== src/Engine/Settle.antt =====
-- packages/workflow/src/graph-engine/engine.ts: the closures of `tick` that change its state:
-- `applyEffect`, `baseScope`, `activate` and `settleNode`. An expression that does not parse throws,
-- out of `tick`.
use ai_orchestration.Prelude.{
  ℕ, zero, suc, ◌+◌, String, Bool, true, false, ◌&&◌, Option, none, some, List, [], ◌∷◌, ◌++◌, ltb,
  leb, if◌then◌else◌, Thrown, ok, ◌>>=◌,
}
use ai_orchestration.Prelude.Dict.{Dict, count_of, insert, lookup}
use ai_orchestration.Prelude.Names.{add, remove}
use ai_orchestration.Value.{Value, Fields, undefined, boolean, string, object, field, end, built}
use ai_orchestration.ScopeExpr.Lexer.{ScopeError}
use ai_orchestration.ScopeExpr.Eval.{evaluate_scope_expression, evaluate_scope_value}
use ai_orchestration.Graph.{
  GraphNode, GraphNodeConfig, GraphTransition, LifecycleEffect, NodeRetry, TerminalOutcome,
  WorkflowGraph, terminal_config,
}
use ai_orchestration.Engine.State.{
  Tick, GraphNodeResult, GraphNodeStatus, succeeded, failed, skipped, node_activated, node_settled,
  transition_taken, domain_state_changed, loop_bound_exceeded, no_matching_transition,
}
use ai_orchestration.Engine.Join.{node_by_id, outgoing, join_satisfied}

-- The members of a record, as an object's own.
unfoldable pub fields_of : Dict Value → Fields
fields_of [] = end
fields_of ((k, v) ∷ rest) = field k v (fields_of rest)

abbrev pub or_undefined : Option String → Value
or_undefined none = undefined
or_undefined (some s) = string s

-- `{ ...base, ...more }`
unfoldable pub spread : Dict Value → Dict Value → Dict Value
spread base [] = base
spread base ((k, v) ∷ more) = spread (insert k v base) more

abbrev pub status_name : GraphNodeStatus → String
status_name succeeded = "succeeded"
status_name failed = "failed"
status_name skipped = "skipped"

abbrev pub is_failed : GraphNodeStatus → Bool
is_failed failed = true
is_failed _ = false

abbrev pub is_succeeded : GraphNodeStatus → Bool
is_succeeded succeeded = true
is_succeeded _ = false

-- `resultScope`
unfoldable pub result_scope : Dict GraphNodeResult → Fields
result_scope [] = end
result_scope ((id, r) ∷ rest) =
    field id
      (object (built ("results" ∷ id ∷ [])) (
        field "status" (string (status_name r.status)) (
          field "succeeded" (boolean (is_succeeded r.status)) (
            field "failed" (boolean (is_failed r.status))
              (field "outputs" (object r.outputs.identity r.outputs.members) end)))))
      (result_scope rest)

-- The members of `baseScope()`.
unfoldable pub base_fields : Tick → Fields
unfolding fields_of spread result_scope
base_fields tick =
    field "domain"
      (object (built ("domain" ∷ []))
        (fields_of (spread (("name", or_undefined tick.domain_name) ∷ []) tick.domain_data)))
      (field "vars" (object (built ("vars" ∷ [])) (fields_of tick.variables))
        (field "results" (object (built ("results" ∷ [])) (result_scope tick.node_results)) end))

unfoldable pub base_scope : Tick → Value
unfolding base_fields
base_scope tick = object (built []) (base_fields tick)

abbrev pub or_empty : Option String → String
or_empty none = ""
or_empty (some s) = s

-- The scope in which a settled node's effects and transitions are evaluated.
unfoldable pub settled_scope : GraphNodeResult → Tick → Value
unfolding base_fields
settled_scope result tick = object (built []) (
    field "outputs" (object result.outputs.identity result.outputs.members) (
      field "node"
        (object (built ("node" ∷ [])) (
          field "status" (string (status_name result.status))
            (field "error" (string (or_empty result.error)) end)))
        (base_fields tick)))

unfoldable pub set_domain_name : Option String → Tick → Tick
set_domain_name none tick = tick
set_domain_name (some name) tick = record tick {
  domain_name = some name;
  events = tick.events ++ domain_state_changed name ∷ [];
}

unfoldable pub set_data : Dict String → Value → Tick → Thrown ScopeError Tick
set_data [] scope tick = ok tick
set_data ((key, expression) ∷ rest) scope tick = do
  value ← evaluate_scope_value expression scope
  set_data rest scope (record tick { domain_data = insert key value tick.domain_data })

abbrev pub or_none : Option (Dict String) → Dict String
or_none none = []
or_none (some entries) = entries

unfoldable pub add_projection : Option String → Tick → Tick
add_projection none tick = tick
add_projection (some name) tick = record tick { projections = tick.projections ++ name ∷ [] }

-- `applyEffect`
unfoldable pub apply_effect : Option LifecycleEffect → Value → Tick → Thrown ScopeError Tick
unfolding set_domain_name set_data add_projection
apply_effect none scope tick = ok tick
apply_effect (some effect) scope tick = do
  after ← set_data (or_none effect.set_data) scope (set_domain_name effect.set_domain_state tick)
  ok (add_projection effect.project after)

-- What `activate` changes before the node's `onEnter`.
unfoldable pub mark_active : String → Tick → Tick
mark_active id tick =
    let count = count_of id tick.activations + 1 in
    record tick {
      activations = insert id count tick.activations;
      active = add id tick.active;
      waiting = remove id tick.waiting;
      events = tick.events ++ node_activated id count ∷ [];
    }

unfoldable pub activate : WorkflowGraph → String → Tick → Thrown ScopeError Tick
unfolding mark_active base_scope
activate graph id tick = elim (node_by_id id graph.nodes) [
  | none ↦ ok tick
  | some node ↦
      let marked = mark_active id tick in apply_effect node.on_enter (base_scope marked) marked
]

-- `settleNode` returns 'continue' or 'stop'.
pub data Control : Type 0 where
  go_on stop : Control

-- A bound that the counter has reached.
abbrev pub reached : Option ℕ → ℕ → Option ℕ
reached none count = none
reached (some bound) count = if leb bound count then some bound else none

-- What taking a transition changes before its effects.
unfoldable pub take_transition : GraphTransition → Tick → Tick
take_transition t tick = record tick {
  loop_counters = insert t.id (count_of t.id tick.loop_counters + 1) tick.loop_counters;
  events = tick.events ++ transition_taken t.id t.from t.to ∷ [];
}

abbrev pub passes : Option String → Value → Thrown ScopeError Bool
passes none scope = ok true
passes (some condition) scope = evaluate_scope_expression condition scope

-- The target is activated if it exists and its join is satisfied.
unfoldable pub enter_target : WorkflowGraph → String → Tick → Thrown ScopeError Tick
enter_target graph to tick = elim (node_by_id to graph.nodes) [
  | none ↦ ok tick
  | some target ↦
      if join_satisfied graph target tick then activate graph target.id tick else ok tick
]

unfoldable pub take_and_enter :
    WorkflowGraph → Value → GraphTransition → Tick → Thrown ScopeError Tick
unfolding take_transition
take_and_enter graph scope t tick = do
  after ← apply_effect t.effects scope (take_transition t tick)
  enter_target graph t.to after

-- What is left of the loop, given the count of those fired and the state.
abbrev pub Rest : Type 0
Rest = ℕ → Tick → Thrown ScopeError (Tick × ℕ × Control)

-- A transition whose condition holds: its bound may be reached.
unfoldable pub take_if_open :
    WorkflowGraph
    → Value
    → GraphTransition
    → ℕ
    → Tick
    → Option ℕ
    → Rest
    → Thrown ScopeError (Tick × ℕ × Control)
take_if_open graph scope t fired tick (some bound) rest =
    ok (record tick { fatal_error = some (loop_bound_exceeded t.id bound) }, fired, stop)
take_if_open graph scope t fired tick none rest = do
  after ← take_and_enter graph scope t tick
  rest (suc fired) after

unfoldable pub take_if_passed :
    WorkflowGraph
    → Value
    → GraphTransition
    → ℕ
    → Tick
    → Bool
    → Rest
    → Thrown ScopeError (Tick × ℕ × Control)
unfolding take_if_open
take_if_passed graph scope t fired tick false rest = rest fired tick
take_if_passed graph scope t fired tick true rest =
    take_if_open graph scope t fired tick (reached t.loop_bound (count_of t.id tick.loop_counters))
      rest

-- The loop over the outgoing transitions; `fired` counts those that were taken.
unfoldable pub fire :
    WorkflowGraph → Value → List GraphTransition → ℕ → Tick → Thrown ScopeError (Tick × ℕ × Control)
unfolding take_if_passed
fire graph scope [] fired tick = ok (tick, fired, go_on)
fire graph scope (t ∷ rest) fired tick = do
  passed ← passes t.condition scope
  take_if_passed graph scope t fired tick passed (fire graph scope rest)

-- What settling changes before the node's `onExit`.
unfoldable pub record_result : String → GraphNodeResult → Tick → Tick
record_result id result tick = record tick {
  active = remove id tick.active;
  waiting = remove id tick.waiting;
  node_results = insert id result tick.node_results;
  result_history = tick.result_history ++ result ∷ [];
  settlements = tick.settlements + 1;
  events = tick.events ++ node_settled id result.status result.attempt ∷ [];
}

abbrev pub can_retry : Option NodeRetry → ℕ → Bool
can_retry none attempt = false
can_retry (some retry) attempt = ltb attempt retry.max_attempts

-- `mutable.activations[id] ?? 1`
unfoldable pub count_or_one : String → Dict ℕ → ℕ
unfolding lookup
count_or_one id m = elim (lookup id m) [ none ↦ 1 | some n ↦ n ]

unfoldable pub retry_node : String → Tick → Tick
unfolding count_or_one
retry_node id tick =
    let count = count_of id tick.retries + 1 in
    record tick {
      retries = insert id count tick.retries;
      active = add id tick.active;
      waiting = remove id tick.waiting;
      events = tick.events ++ node_activated id (count_or_one id tick.activations + count) ∷ [];
    }

abbrev pub unknown_error : Option String → String
unknown_error none = "unknown error"
unknown_error (some e) = e

-- The end of `settleNode`, behind the loop over the transitions.
unfoldable pub after_firing : GraphNode → GraphNodeResult → Tick × ℕ × Control → Tick × Control
after_firing node result (tick, fired, stop) = (tick, stop)
after_firing node result (tick, zero, go_on) =
    if is_failed result.status
    then (
      record tick {
        fatal_error = some (no_matching_transition node.id (unknown_error result.error));
      },
      stop,
    )
    else (tick, go_on)
after_firing node result (tick, suc fired, go_on) = (tick, go_on)

-- Retry, or fire the declared transitions.
unfoldable pub leave_running :
    WorkflowGraph → GraphNode → GraphNodeResult → Value → Tick → Thrown ScopeError (Tick × Control)
unfolding retry_node after_firing
leave_running graph node result scope tick =
    if is_failed result.status && can_retry node.retry result.attempt
    then ok (retry_node node.id tick, go_on)
    else (do
      fired ← fire graph scope (outgoing node.id graph.transitions) 0 tick
      ok (after_firing node result fired))

abbrev pub terminal_outcome : GraphNodeConfig → Option TerminalOutcome
terminal_outcome (terminal_config outcome) = some outcome
terminal_outcome _ = none

-- The part of `settleNode` behind `onExit`.
unfoldable pub leave_node :
    WorkflowGraph → GraphNode → GraphNodeResult → Value → Tick → Thrown ScopeError (Tick × Control)
unfolding leave_running
leave_node graph node result scope tick = elim (terminal_outcome node.config) [
  | some outcome ↦ ok (record tick { terminal = some outcome }, stop)
  | none ↦ leave_running graph node result scope tick
]

unfoldable pub settle_node :
    WorkflowGraph → GraphNode → GraphNodeResult → Tick → Thrown ScopeError (Tick × Control)
unfolding record_result settled_scope leave_node
settle_node graph node result tick =
    let recorded = record_result node.id result tick in
    let scope = settled_scope result recorded in
    do after ← apply_effect node.on_exit scope recorded; leave_node graph node result scope after
