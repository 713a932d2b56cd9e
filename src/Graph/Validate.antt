-- ===== src/Graph/Validate.antt =====
-- packages/core/src/graph-validate.ts: structural validation. Each message of the source is a
-- constructor of `GraphIssue`; `outgoing` is the list of declared transitions, read by source.
pub mod Chains
pub mod Reach
pub mod Spec
mod References
pub mod Sound
mod Examples
use ai_orchestration.Prelude.{
  ℕ, zero, suc, String, ◌+◌, Bool, true, false, not, ◌&&◌, ◌||◌, Option, none, some, List, [], ◌∷◌,
  ◌++◌, str_eq, ltb, if◌then◌else◌, any, length, is_none,
}
use ai_orchestration.Prelude.Names.{has, add}
use ai_orchestration.Graph.{
  WorkflowGraph, GraphNode, GraphTransition, GraphNodeConfig, JoinSpec, JoinMode, terminal_config,
  all, min,
}

pub data GraphIssue : Type 0 where
  duplicate_node : (node : String) → GraphIssue
  unknown_entry : (node : String) → GraphIssue
  duplicate_transition : (transition : String) → GraphIssue
  unknown_source : (transition node : String) → GraphIssue
  unknown_target : (transition node : String) → GraphIssue
  bound_below_one : (transition : String) → GraphIssue
  unreachable : (node : String) → GraphIssue
  no_terminal : GraphIssue
  terminal_has_outgoing : (node : String) → GraphIssue
  join_in_cycle : (node : String) (mode : JoinMode) → GraphIssue
  min_join_needs_n : (node : String) → GraphIssue
  cycle_needs_bound : (transition : String) → GraphIssue

abbrev issue_if : Bool → GraphIssue → List GraphIssue
issue_if test issue = if test then issue ∷ [] else []

-- `nodeIds`
unfoldable pub node_ids : List GraphNode → List String → List String
node_ids [] ids = ids
node_ids (node ∷ rest) ids = node_ids rest (add node.id ids)

duplicate_nodes : List GraphNode → List String → List GraphIssue
duplicate_nodes [] ids = []
duplicate_nodes (node ∷ rest) ids =
    issue_if (has node.id ids) (duplicate_node node.id) ++ duplicate_nodes rest (add node.id ids)

abbrev is_below_one : Option ℕ → Bool
is_below_one none = false
is_below_one (some bound) = ltb bound 1

transition_issues : List String → List GraphTransition → List String → List GraphIssue
transition_issues nodes [] ids = []
transition_issues nodes (t ∷ rest) ids =
    issue_if (has t.id ids) (duplicate_transition t.id)
    ++ (issue_if (not (has t.from nodes)) (unknown_source t.id t.from)
        ++ (issue_if (not (has t.to nodes)) (unknown_target t.id t.to)
            ++ (issue_if (is_below_one t.loop_bound) (bound_below_one t.id)
                ++ transition_issues nodes rest (add t.id ids))))

-- `outgoing.get(id) ?? []`
unfoldable pub targets : String → List GraphTransition → List String
targets id [] = []
targets id (t ∷ rest) = let more = targets id rest in if str_eq t.from id then t.to ∷ more else more

-- The loop that fills `reachable`, with the queue and the set as they stand.
unfoldable pub reach_from : ℕ → List GraphTransition → List String → List String → List String
reach_from zero ts queue seen = seen
reach_from (suc fuel) ts [] seen = seen
reach_from (suc fuel) ts (current ∷ queue) seen = elim (has current seen) [
  | true ↦ reach_from fuel ts queue seen
  | false ↦ reach_from fuel ts (queue ++ targets current ts) (add current seen)
]

-- Each round takes one id off the queue, and a transition puts one on it once at most.
abbrev pub enough : List GraphTransition → ℕ
enough ts = length ts + 2

unfoldable pub reachable : WorkflowGraph → List String
unfolding reach_from
reachable graph = reach_from (enough graph.transitions) graph.transitions (graph.entry ∷ []) []

-- The loop of `reachesBack`.
unfoldable pub finds : ℕ → List GraphTransition → String → List String → List String → Bool
finds zero ts target queue seen = false
finds (suc fuel) ts target [] seen = false
finds (suc fuel) ts target (current ∷ queue) seen = elim (has current seen) [
  | true ↦ finds fuel ts target queue seen
  | false ↦ elim (str_eq current target) [
    | true ↦ true
    | false ↦ finds fuel ts target (queue ++ targets current ts) (add current seen)
  ]
]

unfoldable pub reaches_back : String → String → List GraphTransition → Bool
unfolding finds
reaches_back from target ts = finds (enough ts) ts target (from ∷ []) []

unreachable_issues : List String → List GraphNode → List GraphIssue
unreachable_issues seen [] = []
unreachable_issues seen (node ∷ rest) =
    issue_if (not (has node.id seen)) (unreachable node.id) ++ unreachable_issues seen rest

abbrev pub is_terminal : GraphNodeConfig → Bool
is_terminal (terminal_config _) = true
is_terminal _ = false

abbrev pub is_empty : List String → Bool
is_empty [] = true
is_empty (_ ∷ _) = false

terminal_issues : List GraphTransition → List GraphNode → List GraphIssue
terminal_issues ts [] = []
terminal_issues ts (node ∷ rest) =
    issue_if (is_terminal node.config && not (is_empty (targets node.id ts)))
      (terminal_has_outgoing node.id)
    ++ terminal_issues ts rest

abbrev pub is_any : JoinMode → Bool
is_any JoinMode.any = true
is_any _ = false

abbrev is_min_without_n : JoinSpec → Bool
is_min_without_n join = elim join.mode [
  | min ↦ (elim join.n [ none ↦ true | some n ↦ ltb n 1 ])
  | _ ↦ false
]

in_cycle : String → List GraphTransition → Bool
unfolding targets reaches_back
in_cycle id ts = any (λ next. reaches_back next id ts) (targets id ts)

join_issue : String → List GraphTransition → Option JoinSpec → List GraphIssue
join_issue id ts none = []
join_issue id ts (some join) =
    issue_if (not (is_any join.mode) && in_cycle id ts) (join_in_cycle id join.mode)
    ++ issue_if (is_min_without_n join) (min_join_needs_n id)

join_issues : List GraphTransition → List GraphNode → List GraphIssue
join_issues ts [] = []
join_issues ts (node ∷ rest) = join_issue node.id ts node.join ++ join_issues ts rest

cycle_issues : List GraphTransition → List GraphTransition → List GraphIssue
cycle_issues ts [] = []
cycle_issues ts (t ∷ rest) =
    issue_if (is_none t.loop_bound && reaches_back t.to t.from ts) (cycle_needs_bound t.id)
    ++ cycle_issues ts rest

-- The checks up to `if (issues.length > 0) return issues`.
pub reference_issues : WorkflowGraph → List GraphIssue
unfolding node_ids duplicate_nodes transition_issues
reference_issues graph =
    duplicate_nodes graph.nodes []
    ++ (issue_if (not (has graph.entry (node_ids graph.nodes []))) (unknown_entry graph.entry)
        ++ transition_issues (node_ids graph.nodes []) graph.transitions [])

-- The checks behind it.
structure_issues : WorkflowGraph → List GraphIssue
unfolding reachable unreachable_issues terminal_issues join_issues join_issue in_cycle cycle_issues
structure_issues graph =
    let seen = reachable graph in
    unreachable_issues seen graph.nodes
    ++ (issue_if
          (not
            (any (λ (node : GraphNode). is_terminal node.config && has node.id seen) graph.nodes))
          no_terminal
        ++ (terminal_issues graph.transitions graph.nodes
            ++ (join_issues graph.transitions graph.nodes
                ++ cycle_issues graph.transitions graph.transitions)))

unfoldable pub validate_graph : WorkflowGraph → List GraphIssue
unfolding reference_issues structure_issues
validate_graph graph = elim (reference_issues graph) [
  | [] ↦ structure_issues graph
  | issue ∷ more ↦ issue ∷ more
]
