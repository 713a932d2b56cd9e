-- ===== src/Graph/Samples.antt =====
-- A workflow with a bounded loop, for tests: plan, build, and a gate that sends back to build.
use ai_orchestration.Prelude.{ℕ, String, Option, none, some, [], ◌∷◌}
use ai_orchestration.Graph.{
  WorkflowGraph, GraphNode, GraphNodeConfig, GraphTransition, action_config, gate_config,
  terminal_config, TerminalOutcome, JoinSpec, DefinitionRef,
}

abbrev pub checks : DefinitionRef
checks = record { name = "checks"; version = none }

abbrev pub node : String → GraphNodeConfig → Option JoinSpec → GraphNode
node id config join = record {
  id = id;
  config = config;
  join = join;
  guards = none;
  on_enter = none;
  on_exit = none;
  retry = none;
}

abbrev pub edge : String → String → String → Option String → Option ℕ → GraphTransition
edge id from to condition bound = record {
  id = id;
  from = from;
  to = to;
  condition = condition;
  loop_bound = bound;
  effects = none;
}

-- The gate goes back when it has failed, at most twice.
abbrev pub review_loop : WorkflowGraph
review_loop = record {
  name = "review";
  description = none;
  entry = "plan";
  nodes =
      node "plan" (action_config "plan" none) none
      ∷ node "build" (action_config "build" none) none
      ∷ node "check" (gate_config checks none none) none
      ∷ node "done" (terminal_config TerminalOutcome.completed) none
      ∷ [];
  transitions =
      edge "t1" "plan" "build" none none
      ∷ edge "t2" "build" "check" none (some 3)
      ∷ edge "t3" "check" "build" (some "node.status == 'failed'") (some 2)
      ∷ edge "t4" "check" "done" (some "node.status == 'succeeded'") none
      ∷ [];
  domain_states = none;
  projection = none;
  trigger = none;
  eligibility = none;
  default_profile = none;
  variables = none;
  workspace = none;
}
