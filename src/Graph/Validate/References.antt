-- ===== src/Graph/Validate/References.antt =====
-- packages/core/src/graph-validate.ts: what the checks of ids and references establish.
use mathlib.Core.List.Memᴰ
use mathlib.Core.List.{Memᴰ, ◌++◌}
use ai_orchestration.Prelude.{
  ℕ, String, ◌≤◌, ◌≡◌, ◌≢◌, refl, Bool, true, false, not, Option, some, List, [], ◌∷◌, str_eq,
  str_eq_iff, for_cons, arith, Bool-cases, inl, inr,
}
use ai_orchestration.Prelude.Names.{has, add, has-add}
use ai_orchestration.Graph.{WorkflowGraph, GraphNode, GraphTransition}
use ai_orchestration.Graph.Validate.{
  GraphIssue, issue_if, node_ids, duplicate_nodes, transition_issues, is_below_one,
  reference_issues,
}
use ai_orchestration.Graph.Validate.Spec.{DistinctNodes, DistinctTransitions, IsNode, IsReferential}

-- A check that adds no issue.
pub clear :
    (test : Bool) (issue : GraphIssue) (rest : List GraphIssue)
    → issue_if test issue ++ rest ≡ []
    → (test ≡ false) × (rest ≡ [])
clear true issue rest h = cc
clear false issue rest h = (refl, h)

pub clear-append : (xs ys : List GraphIssue) → xs ++ ys ≡ [] → (xs ≡ []) × (ys ≡ [])
clear-append [] ys h = (refl, h)
clear-append (x ∷ xs) ys h = cc

-- An id in the set that the loop over the nodes fills is one that was there, or a node's.
has-node_ids :
    (nodes : List GraphNode) (ids : List String) (x : String)
    → has x (node_ids nodes ids) ≡ true
    → has x ids ≡ false
    → IsNode nodes x
unfolding node_ids
has-node_ids [] ids x h none_yet = cc
has-node_ids (n ∷ ns) ids x h none_yet = elim (Bool-cases (str_eq n.id x)) [
  | inl this ↦ (n, Memᴰ.head refl, (str_eq_iff n.id x).0 this)
  | inr other ↦
      let (m, at, e) = has-node_ids ns (add n.id ids) x h (ground (arith, has-add n.id x ids)) in
      (m, Memᴰ.tail at, e)
]

-- An id that is not among the old ones plus `a` is not an old one, and is not `a`.
outside-add :
    (a x : String) (ids : List String) → has x (add a ids) ≡ false → (has x ids ≡ false) × (a ≢ x)
outside-add a x ids h =
    (ground (arith, has-add a x ids), λ e. ground (arith, has-add a x ids, str_eq_iff a x))

DistinctNodes-from :
    (nodes : List GraphNode) (ids : List String)
    → duplicate_nodes nodes ids ≡ []
    → DistinctNodes nodes × ((n : GraphNode) → Memᴰ n nodes → has n.id ids ≡ false)
unfolding duplicate_nodes
DistinctNodes-from [] ids h = (tt, λ n m. absurd (Memᴰ.not-nil m))
DistinctNodes-from (n ∷ ns) ids h =
    let (fresh, rest) =
      clear (has n.id ids) (GraphIssue.duplicate_node n.id) (duplicate_nodes ns (add n.id ids)) h in
    let (distinct, outside) = DistinctNodes-from ns (add n.id ids) rest in
    (
      (λ m at. (outside-add n.id m.id ids (outside m at)).1, distinct),
      for_cons (λ (m : GraphNode). has m.id ids ≡ false) fresh
          (λ m at. (outside-add n.id m.id ids (outside m at)).0),
    )

abbrev HasEnds : List String → GraphTransition → Type 0
HasEnds nodes t =
    (has t.from nodes ≡ true) × (has t.to nodes ≡ true) × (is_below_one t.loop_bound ≡ false)

transition_facts :
    (nodes : List String) (ts : List GraphTransition) (ids : List String)
    → transition_issues nodes ts ids ≡ []
    → DistinctTransitions ts
      × ((t : GraphTransition) → Memᴰ t ts → has t.id ids ≡ false)
      × ((t : GraphTransition) → Memᴰ t ts → HasEnds nodes t)
unfolding transition_issues
transition_facts nodes [] ids h =
    (tt, λ t m. absurd (Memᴰ.not-nil m), λ t m. absurd (Memᴰ.not-nil m))
transition_facts nodes (t ∷ ts) ids h =
    let (fresh, h1) = clear (has t.id ids) (GraphIssue.duplicate_transition t.id) _ h in
    let (source, h2) =
      clear (not (has t.from nodes)) (GraphIssue.unknown_source t.id t.from) _ h1 in
    let (target, h3) = clear (not (has t.to nodes)) (GraphIssue.unknown_target t.id t.to) _ h2 in
    let (bound, h4) = clear (is_below_one t.loop_bound) (GraphIssue.bound_below_one t.id) _ h3 in
    let (distinct, outside, good) = transition_facts nodes ts (add t.id ids) h4 in
    (
      (λ u at. (outside-add t.id u.id ids (outside u at)).1, distinct),
      for_cons (λ (u : GraphTransition). has u.id ids ≡ false) fresh
          (λ u at. (outside-add t.id u.id ids (outside u at)).0),
      for_cons (HasEnds nodes) (ground arith, ground arith, bound) good,
    )

pub reference_issues-IsReferential : (g : WorkflowGraph) → reference_issues g ≡ [] → IsReferential g
unfolding reference_issues
reference_issues-IsReferential g h =
    let ids = node_ids g.nodes [] in
    let (h1, rest) = clear-append (duplicate_nodes g.nodes []) _ h in
    let (entry, h2) = clear (not (has g.entry ids)) (GraphIssue.unknown_entry g.entry) _ rest in
    let (distinct, outside, ends) = transition_facts ids g.transitions [] h2 in
    record {
      nodes_distinct = (DistinctNodes-from g.nodes [] h1).0;
      entry_exists = has-node_ids g.nodes [] g.entry (ground arith) (nothing _);
      transitions_distinct = distinct;
      source_exists = λ t m. has-node_ids g.nodes [] t.from (ends t m).0 (nothing _);
      target_exists = λ t m. has-node_ids g.nodes [] t.to (ends t m).1 (nothing _);
      bound_positive = λ t b m e. positive t.loop_bound b (ends t m).2 e;
    }
  where
    nothing : (x : String) → has x [] ≡ false
    nothing x = unfold has in refl

    positive : (o : Option ℕ) (b : ℕ) → is_below_one o ≡ false → o ≡ some b → 1 ≤ b
    positive o b h e = ground arith
