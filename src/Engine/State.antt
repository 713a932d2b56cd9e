-- ===== src/Engine/State.antt =====
-- packages/core/src/run-graph.ts, and the types of packages/workflow/src/graph-engine/engine.ts.
use ai_orchestration.Prelude.{ℕ, String, Bool, Option, none, some, List, [], Thrown}
use ai_orchestration.Prelude.Dict.{Dict}
use ai_orchestration.Value.{Value, Fields, Identity}
use ai_orchestration.Graph.{
  GraphNode, GraphNodeKind, WaitSpec, HumanInputRequestSpec, TerminalOutcome, WaitKind,
}
use ai_orchestration.Waits.{WaitSatisfaction}

pub data GraphNodeStatus : Type 0 where
  succeeded failed skipped : GraphNodeStatus

-- An object that is known to be one: its identity and its own members.
pub record Outputs : Type 0 where
  pub identity : Identity
  pub members : Fields

pub record GraphNodeResult : Type 0 where
  pub node_id : String
  pub attempt : ℕ
  pub status : GraphNodeStatus
  pub outputs : Outputs
  pub error : Option String
  pub started_at : ℕ
  pub settled_at : ℕ

pub record DomainState : Type 0 where
  pub name : Option String
  pub values : Dict Value

pub data BranchStatus : Type 0 where
  pending active succeeded failed : BranchStatus

pub record FanOutBranchState : Type 0 where
  pub key : String
  pub child_run_id : Option String
  pub status : BranchStatus
  pub outputs : Option (Dict Value)

pub record FanOutState : Type 0 where
  pub node_id : String
  pub branches : List FanOutBranchState

pub record RunGraphState : Type 0 where
  pub run_id : String
  pub snapshot_id : String
  pub active_node_ids : List String
  pub waiting_node_ids : List String
  pub node_results : Dict GraphNodeResult
  pub result_history : List GraphNodeResult
  pub loop_counters : Dict ℕ
  pub activations : Dict ℕ
  pub retries : Option (Dict ℕ)
  pub domain : DomainState
  pub fan_outs : Dict FanOutState
  pub variables : Dict Value
  pub spec_revision : ℕ
  pub updated_at : ℕ

-- `initialRunGraphState`
unfoldable pub initial_run_graph_state : String → String → Dict Value → RunGraphState
initial_run_graph_state run_id snapshot_id variables = record {
  run_id = run_id;
  snapshot_id = snapshot_id;
  active_node_ids = [];
  waiting_node_ids = [];
  node_results = [];
  result_history = [];
  loop_counters = [];
  activations = [];
  retries = some [];
  domain = record { name = none; values = [] };
  fan_outs = [];
  variables = variables;
  spec_revision = 1;
  updated_at = 0;
}

-- `NodeYield`
pub data NodeYield : Type 0 where
  yields_result :
      (status : GraphNodeStatus) (outputs : Option Outputs) (error : Option String) → NodeYield
  yields_wait : (spec : WaitSpec) (request : Option HumanInputRequestSpec) → NodeYield

pub record NodeExecutionContext : Type 0 where
  pub run_id : String
  pub node : GraphNode
  pub attempt : ℕ
  pub variables : Dict Value
  pub domain : DomainState
  pub node_results : Dict GraphNodeResult
  pub satisfaction : Option WaitSatisfaction

pub record PendingWait : Type 0 where
  pub node_id : String
  pub spec : WaitSpec
  pub request : Option HumanInputRequestSpec

pub data GraphEngineEvent : Type 0 where
  node_activated : (node : String) (attempt : ℕ) → GraphEngineEvent
  node_settled : (node : String) (status : GraphNodeStatus) (attempt : ℕ) → GraphEngineEvent
  transition_taken : (transition from to : String) → GraphEngineEvent
  wait_opened : (node : String) (kind : WaitKind) → GraphEngineEvent
  domain_state_changed : (state : String) → GraphEngineEvent

pub data GraphRunStatus : Type 0 where
  running waiting completed failed blocked cancelled : GraphRunStatus

-- The messages of `error`.
pub data TickError : Type 0 where
  loop_bound_exceeded : (transition : String) (bound : ℕ) → TickError
  no_matching_transition : (node error : String) → TickError
  backstop_exceeded : (settlements : ℕ) → TickError
  inconsistent stalled : TickError

-- `MutableState`, and the variables of `tick` that the closures change.
pub record Tick : Type 0 where
  pub active : List String
  pub waiting : List String
  pub node_results : Dict GraphNodeResult
  pub result_history : List GraphNodeResult
  pub loop_counters : Dict ℕ
  pub activations : Dict ℕ
  pub retries : Dict ℕ
  pub domain_name : Option String
  pub domain_data : Dict Value
  pub variables : Dict Value
  pub new_waits : List PendingWait
  pub projections : List String
  pub terminal : Option TerminalOutcome
  pub fatal_error : Option TickError
  pub settlements : ℕ
  pub pending_satisfactions : Dict WaitSatisfaction
  pub events : List GraphEngineEvent

pub record GraphTickOutcome : Type 0 where
  pub state : RunGraphState
  pub status : GraphRunStatus
  pub new_waits : List PendingWait
  pub projections : List String
  pub terminal : Option TerminalOutcome
  pub error : Option TickError
  pub events : List GraphEngineEvent

-- What is around the engine: the clock, the abort signal, and the executors, which are effects
-- on a world of their own. A `Partial` record of executors has `none` for a kind that it lacks.
pub record Environment (W : Type 0) : Type 0 where
  pub now : W → ℕ × W
  pub is_aborted : W → Bool
  pub executor :
      GraphNodeKind → Option (GraphNode → NodeExecutionContext → W → Thrown String NodeYield × W)
