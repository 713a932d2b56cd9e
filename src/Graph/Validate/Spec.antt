-- ===== src/Graph/Validate/Spec.antt =====
-- packages/core/src/graph-validate.ts: what a valid graph is, stated without the searches.
use mathlib.Core.List.{Memᴰ}
use ai_orchestration.Prelude.{ℕ, String, ◌≤◌, ◌≡◌, ◌≢◌, true, some, List, [], ◌∷◌}
use ai_orchestration.Graph.{WorkflowGraph, GraphNode, GraphTransition, JoinSpec, JoinMode}
use ai_orchestration.Graph.Validate.{is_terminal}
use ai_orchestration.Graph.Validate.Chains.{Reaches}

abbrev pub DistinctNodes : List GraphNode → Type 0
DistinctNodes [] = Unit
DistinctNodes (n ∷ ns) = ((m : GraphNode) → Memᴰ m ns → n.id ≢ m.id) × DistinctNodes ns

abbrev pub DistinctTransitions : List GraphTransition → Type 0
DistinctTransitions [] = Unit
DistinctTransitions (t ∷ ts) =
    ((u : GraphTransition) → Memᴰ u ts → t.id ≢ u.id) × DistinctTransitions ts

abbrev pub IsNode : List GraphNode → String → Type 0
IsNode nodes id = (n : GraphNode) × Memᴰ n nodes × (n.id ≡ id)

-- The ids are distinct, and what refers to a node refers to one that there is.
pub record IsReferential (g : WorkflowGraph) : Type 0 where
  pub nodes_distinct : DistinctNodes g.nodes
  pub entry_exists : IsNode g.nodes g.entry
  pub transitions_distinct : DistinctTransitions g.transitions
  pub source_exists : (t : GraphTransition) → Memᴰ t g.transitions → IsNode g.nodes t.from
  pub target_exists : (t : GraphTransition) → Memᴰ t g.transitions → IsNode g.nodes t.to
  pub bound_positive :
      (t : GraphTransition) (b : ℕ) → Memᴰ t g.transitions → t.loop_bound ≡ some b → 1 ≤ b

-- Every node is reached, some terminal node is, terminal nodes end the run, and the cycles are
-- bounded and have no counting joins.
pub record IsStructured (g : WorkflowGraph) : Type 0 where
  pub connected : (n : GraphNode) → Memᴰ n g.nodes → Reaches g.transitions g.entry n.id
  pub has_terminal :
      (n : GraphNode) × Memᴰ n g.nodes
      × (is_terminal n.config ≡ true)
      × Reaches g.transitions g.entry n.id
  pub terminal_ends :
      (n : GraphNode) (t : GraphTransition)
      → Memᴰ n g.nodes
      → Memᴰ t g.transitions
      → is_terminal n.config ≡ true
      → t.from ≢ n.id
  pub join_outside_cycles :
      (n : GraphNode) (j : JoinSpec) (t : GraphTransition)
      → Memᴰ n g.nodes
      → n.join ≡ some j
      → j.mode ≢ JoinMode.any
      → Memᴰ t g.transitions
      → t.from ≡ n.id
      → ¬ Reaches g.transitions t.to n.id
  pub min_join_counts :
      (n : GraphNode) (j : JoinSpec)
      → Memᴰ n g.nodes
      → n.join ≡ some j
      → j.mode ≡ JoinMode.min
      → (k : ℕ) × (j.n ≡ some k) × (1 ≤ k)
  pub cycle_bounded :
      (t : GraphTransition)
      → Memᴰ t g.transitions
      → Reaches g.transitions t.to t.from
      → (b : ℕ) × (t.loop_bound ≡ some b)

unfoldable pub IsValid : WorkflowGraph → Type 0
IsValid g = IsReferential g × IsStructured g
