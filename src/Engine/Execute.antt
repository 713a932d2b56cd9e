-- ===== src/Engine/Execute.antt =====
-- packages/workflow/src/graph-engine/engine.ts: one batch of the main loop of `tick`: which nodes
-- are runnable, their guards and executors, and what becomes of what they yield.
use Prim.Native.Char.{code}
use Prim.Native.String.{◌++◌ as text_append}
use ai_orchestration.Prelude.{
  ℕ, ◌+◌, ◌-◌, ◌==◌, String, Bool, true, false, not, ◌&&◌, ◌||◌, Option, none, some, List, [], ◌∷◌,
  ◌++◌, ltb, if◌then◌else◌, is_none, filter, str_eq, Thrown, ok, throw,
}
use Prim.Native.Nat.{◌/◌, ◌%◌}
use ai_orchestration.Prelude.Dict.{lookup, delete, count_of}
use ai_orchestration.Prelude.Names.{has, add, remove}
use ai_orchestration.Value.{Value, built, end}
use ai_orchestration.ScopeExpr.Lexer.{
  ScopeError, unterminated_string, unexpected_character, unexpected_trailing, missing_rparen,
  unexpected_token, out_of_fuel,
}
use ai_orchestration.ScopeExpr.Eval.{evaluate_scope_expression}
use ai_orchestration.Graph.{
  GraphNode, GraphNodeKind, WorkflowGraph, WaitSpec, HumanInputRequestSpec, kind_of,
}
use ai_orchestration.Waits.{WaitSatisfaction}
use ai_orchestration.Engine.State.{
  Tick, GraphNodeResult, GraphNodeStatus, failed, NodeYield, yields_result, yields_wait,
  NodeExecutionContext, PendingWait, Outputs, wait_opened, Environment,
}
use ai_orchestration.Engine.Join.{node_by_id}
use ai_orchestration.Engine.Settle.{base_scope, count_or_one, Control, go_on, stop, settle_node}

-- The UTF-16 code units of a character, which JavaScript compares texts by.
unfoldable pub code_units : ℕ → List ℕ
code_units c =
    if ltb c 0x10000
    then c ∷ []
    else (0xd800 + (c - 0x10000) / 0x400) ∷ (0xdc00 + (c - 0x10000) % 0x400) ∷ []

unfoldable pub units : String → List ℕ
unfolding code_units
units String.[] = []
units (String.◌∷◌ c s) = code_units (code c) ++ units s

unfoldable pub units_le : List ℕ → List ℕ → Bool
units_le [] ys = true
units_le (x ∷ xs) [] = false
units_le (x ∷ xs) (y ∷ ys) = ltb x y || (x == y && units_le xs ys)

unfoldable pub insert_sorted : String → List String → List String
unfolding units units_le
insert_sorted s [] = s ∷ []
insert_sorted s (t ∷ ts) =
    let rest = insert_sorted s ts in if units_le (units s) (units t) then s ∷ t ∷ ts else t ∷ rest

-- `ids.sort()`
unfoldable pub sort : List String → List String
unfolding insert_sorted
sort [] = []
sort (s ∷ ts) = insert_sorted s (sort ts)

unfoldable pub is_runnable : Tick → String → Bool
is_runnable tick id =
    not (has id tick.waiting) || not (is_none (lookup id tick.pending_satisfactions))

unfoldable pub runnable : Tick → List String
unfolding sort is_runnable
runnable tick = sort (filter (is_runnable tick) tick.active)

-- What one element of `executions` holds.
pub record Execution : Type 0 where
  pub node_id : String
  pub yielded : NodeYield
  pub started_at : ℕ

abbrev pub fails_with : String → NodeYield
fails_with message = yields_result failed none (some message)

-- The message of a `ScopeExpressionError`, without the position.
unfoldable pub error_message : ScopeError → String
error_message unterminated_string = "unterminated string"
error_message unexpected_character = "unexpected character"
error_message unexpected_trailing = "unexpected trailing tokens"
error_message missing_rparen = "missing )"
error_message unexpected_token = "unexpected token"
error_message out_of_fuel = "out of fuel"

-- The first guard that does not hold gives the node's failure.
unfoldable pub check_guards : List String → Value → Option NodeYield
unfolding error_message
check_guards [] scope = none
check_guards (guard ∷ rest) scope =
    let later = check_guards rest scope in
    elim (evaluate_scope_expression guard scope) [
      | throw e ↦ some (fails_with (text_append "guard error: " (error_message e)))
      | ok passed ↦ if passed then later else some (fails_with (text_append "guard failed: " guard))
    ]

abbrev pub or_no_guards : Option (List String) → List String
or_no_guards none = []
or_no_guards (some guards) = guards

unfoldable pub kind_name : GraphNodeKind → String
kind_name GraphNodeKind.agent = "agent"
kind_name GraphNodeKind.command = "command"
kind_name GraphNodeKind.action = "action"
kind_name GraphNodeKind.gate = "gate"
kind_name GraphNodeKind.human_input = "human-input"
kind_name GraphNodeKind.wait = "wait"
kind_name GraphNodeKind.subworkflow = "subworkflow"
kind_name GraphNodeKind.experiment = "experiment"
kind_name GraphNodeKind.fan_out = "fan-out"
kind_name GraphNodeKind.terminal = "terminal"

-- `consumedSatisfaction`: the node waits, and this tick brings what it waits for.
unfoldable pub is_delivered : String → Tick → Bool
is_delivered id tick = has id tick.waiting && not (is_none (lookup id tick.pending_satisfactions))

unfoldable pub deliver : String → Tick → Tick
unfolding is_delivered
deliver id tick =
    if is_delivered id tick
    then record tick {
      pending_satisfactions = delete id tick.pending_satisfactions;
      waiting = remove id tick.waiting;
    }
    else tick

-- `newWaits` without the first wait of the node.
unfoldable pub drop_wait : String → List PendingWait → List PendingWait
drop_wait id [] = []
drop_wait id (p ∷ ps) = let rest = drop_wait id ps in if str_eq p.node_id id then ps else p ∷ rest

unfoldable pub open_wait : String → WaitSpec → Option HumanInputRequestSpec → Tick → Tick
unfolding drop_wait
open_wait id spec request tick = record tick {
  waiting = add id tick.waiting;
  new_waits =
      drop_wait id tick.new_waits ++ record { node_id = id; spec = spec; request = request } ∷ [];
  events = tick.events ++ wait_opened id spec.kind ∷ [];
}

-- `execution.yield.outputs ?? {}`: the object is new, so it is known by the result that it is of.
unfoldable pub or_new : Option Outputs → Tick → Outputs
or_new (some outputs) tick = outputs
or_new none tick = record {
  identity = built ("outputs" ∷ map_ids tick.result_history);
  members = end;
}
  where
    map_ids : List GraphNodeResult → List String
    map_ids [] = []
    map_ids (r ∷ rest) = r.node_id ∷ map_ids rest

unfoldable pub result_of :
    Execution → GraphNodeStatus → Option Outputs → Option String → ℕ → Tick → GraphNodeResult
unfolding or_new
result_of execution status outputs error settled_at tick = record {
  node_id = execution.node_id;
  attempt =
      count_or_one execution.node_id tick.activations + count_of execution.node_id tick.retries;
  status = status;
  outputs = or_new outputs tick;
  error = error;
  started_at = execution.started_at;
  settled_at = settled_at;
}

-- The loop over `executions` goes on, stops or throws by what `settleNode` comes to.
unfoldable pub go_through :
    {W : Type 0}
    → Thrown ScopeError (Tick × Control) × W
    → (Tick → W → Thrown ScopeError Tick × W)
    → Thrown ScopeError Tick × W
go_through (throw e, w) rest = (throw e, w)
go_through (ok (after, stop), w) rest = (ok after, w)
go_through (ok (after, go_on), w) rest = rest after w

module _ {W : Type 0} (env : Environment W) (graph : WorkflowGraph) (run_id : String) where
  -- The call of the executor; what it throws fails the node.
  unfoldable pub call : GraphNode → NodeExecutionContext → W → NodeYield × W
  unfolding kind_name
  call node context w = elim (env.executor (kind_of node.config)) [
    | none ↦ (
      fails_with (
          text_append "no executor for node kind '"
            (text_append (kind_name (kind_of node.config)) "'")),
      w,
    )
    | some execute ↦
        let (answer, after) = execute node context w in
        (elim answer [ ok y ↦ y | throw message ↦ fails_with message ], after)
  ]

  -- The guards, then the executor, for a node that is there. `tick` is the state behind `deliver`.
  unfoldable pub run_node : GraphNode → Option WaitSatisfaction → Tick → W → NodeYield × W
  unfolding check_guards call
  run_node node satisfaction tick w =
      elim (check_guards (or_no_guards node.guards) (base_scope tick)) [
        | some failure ↦ (failure, w)
        | none ↦
            call node
              (record {
                run_id = run_id;
                node = node;
                attempt = count_or_one node.id tick.activations + count_of node.id tick.retries;
                variables = tick.variables;
                domain = record { name = tick.domain_name; values = tick.domain_data };
                node_results = tick.node_results;
                satisfaction = satisfaction;
              })
              w
      ]

  -- One call of the `async` function that is mapped over the runnable ids.
  unfoldable pub execute_node : String → Tick → W → Execution × Tick × W
  unfolding run_node
  execute_node id tick w =
      let (started_at, w1) = env.now w in
      elim (node_by_id id graph.nodes) [
        | none ↦ (
          record {
            node_id = id;
            yielded = fails_with (text_append "unknown node '" (text_append id "'"));
            started_at = started_at;
          },
          tick,
          w1,
        )
        | some node ↦
            let satisfaction =
              if is_delivered id tick then lookup id tick.pending_satisfactions else none in
            let ready = deliver id tick in
            let (yielded, w2) = run_node node satisfaction ready w1 in
            (record { node_id = id; yielded = yielded; started_at = started_at }, ready, w2)
      ]

  -- The batch. Executors do not see one another's results: the state changes only behind it.
  unfoldable pub execute_all : List String → Tick → W → List Execution × Tick × W
  unfolding execute_node
  execute_all [] tick w = ([], tick, w)
  execute_all (id ∷ rest) tick w =
      let (first, tick1, w1) = execute_node id tick w in
      let (others, tick2, w2) = execute_all rest tick1 w1 in (first ∷ others, tick2, w2)

  -- The body of the loop over `executions`, for a node that is there.
  unfoldable pub process :
      GraphNode → Execution → NodeYield → Tick → W → Thrown ScopeError (Tick × Control) × W
  unfolding open_wait result_of
  process node execution (yields_wait spec request) tick w = (
    ok (
      if has execution.node_id tick.waiting
          then tick
          else open_wait execution.node_id spec request tick,
      go_on,
    ),
    w,
  )
  process node execution (yields_result status outputs error) tick w =
      let (settled_at, w1) = env.now w in
      (settle_node graph node (result_of execution status outputs error settled_at tick) tick, w1)

  unfoldable pub process_all : List Execution → Tick → W → Thrown ScopeError Tick × W
  unfolding process go_through
  process_all [] tick w = (ok tick, w)
  process_all (execution ∷ rest) tick w = elim (node_by_id execution.node_id graph.nodes) [
    | none ↦ process_all rest tick w
    | some node ↦ go_through (process node execution execution.yielded tick w) (process_all rest)
  ]
