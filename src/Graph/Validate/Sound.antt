-- ===== src/Graph/Validate/Sound.antt =====
-- packages/core/src/graph-validate.ts: a graph without issues is valid.
use mathlib.Core.List.Memᴰ
use mathlib.Core.List.{Memᴰ}
use ai_orchestration.Prelude.{
  ℕ, String, ◌≤◌, ◌≡◌, ◌≢◌, refl, subst, Bool, true, false, not, ◌&&◌, none, some, List, [], ◌∷◌,
  any, any-mem, mem-any, for_cons, is_none, arith, Option-cases, inl, inr,
}
use ai_orchestration.Prelude.Names.{has}
use ai_orchestration.Graph.{WorkflowGraph, GraphNode, GraphTransition, JoinSpec, JoinMode}
use ai_orchestration.Graph.Validate.{
  GraphIssue, issue_if, targets, reachable, reaches_back, unreachable_issues, is_terminal, is_empty,
  terminal_issues, is_any, is_min_without_n, in_cycle, join_issue, join_issues, cycle_issues,
  reference_issues, structure_issues, validate_graph,
}
use ai_orchestration.Graph.Validate.Reach.{reachable_iff, reaches_back_iff}
use ai_orchestration.Graph.Validate.Chains.{Reaches, mem-targets}
use ai_orchestration.Graph.Validate.Spec.{IsStructured, IsValid}
use ai_orchestration.Graph.Validate.References.{clear, clear-append, reference_issues-IsReferential}

unreachable_none :
    (seen : List String) (nodes : List GraphNode)
    → unreachable_issues seen nodes ≡ []
    → (n : GraphNode) → Memᴰ n nodes
    → has n.id seen ≡ true
unfolding unreachable_issues
unreachable_none seen [] h = λ n m. absurd (Memᴰ.not-nil m)
unreachable_none seen (n ∷ ns) h =
    let (here, rest) = clear (not (has n.id seen)) (GraphIssue.unreachable n.id) _ h in
    for_cons (λ (m : GraphNode). has m.id seen ≡ true) (ground arith)
      (unreachable_none seen ns rest)

abbrev EndsRun : List GraphTransition → GraphNode → Type 0
EndsRun ts n = is_terminal n.config ≡ true → (t : GraphTransition) → Memᴰ t ts → t.from ≢ n.id

no_targets :
    (ts : List GraphTransition) (id : String)
    → is_empty (targets id ts) ≡ true
    → (t : GraphTransition) → Memᴰ t ts
    → t.from ≢ id
no_targets ts id h t m e = nonempty (targets id ts) h (mem-targets id ts t m e)
  where
    nonempty : (l : List String) → is_empty l ≡ true → Memᴰ t.to l → ⊥
    nonempty [] h at = Memᴰ.not-nil at
    nonempty (x ∷ l) h at = cc

terminal_none :
    (ts : List GraphTransition) (nodes : List GraphNode)
    → terminal_issues ts nodes ≡ []
    → (n : GraphNode) → Memᴰ n nodes
    → EndsRun ts n
unfolding terminal_issues
terminal_none ts [] h = λ n m. absurd (Memᴰ.not-nil m)
terminal_none ts (n ∷ ns) h =
    let (here, rest) =
      clear (is_terminal n.config && not (is_empty (targets n.id ts)))
        (GraphIssue.terminal_has_outgoing n.id) _ h in
    for_cons (EndsRun ts) (λ e. no_targets ts n.id (ground arith)) (terminal_none ts ns rest)

-- What the join rule says of one node.
abbrev JoinRule : List GraphTransition → GraphNode → Type 0
JoinRule ts n =
    (j : JoinSpec)
    → n.join ≡ some j
    → (j.mode ≢ JoinMode.any
        → (t : GraphTransition) → Memᴰ t ts
        → t.from ≡ n.id
        → ¬ Reaches ts t.to n.id)
      × (j.mode ≡ JoinMode.min → (k : ℕ) × (j.n ≡ some k) × (1 ≤ k))

in_cycle-false :
    (ts : List GraphTransition) (id : String)
    → in_cycle id ts ≡ false
    → (t : GraphTransition) → Memᴰ t ts
    → t.from ≡ id
    → ¬ Reaches ts t.to id
unfolding in_cycle
in_cycle-false ts id h t m e r =
    let found =
      mem-any (λ next. reaches_back next id ts) (targets id ts) (mem-targets id ts t m e)
        ((reaches_back_iff t.to id ts).1 r) in
    cc

min_has_n :
    (j : JoinSpec)
    → is_min_without_n j ≡ false
    → j.mode ≡ JoinMode.min
    → (k : ℕ) × (j.n ≡ some k) × (1 ≤ k)
min_has_n j h e = elim (Option-cases j.n) [
  | inl absent ↦ absurd (bad absent)
  | inr (k, is) ↦ (k, is, ground arith)
]
  where
    bad : j.n ≡ none → ⊥
    bad absent = ground arith

JoinRule-of :
    (ts : List GraphTransition) (n : GraphNode) → join_issue n.id ts n.join ≡ [] → JoinRule ts n
unfolding join_issue
JoinRule-of ts n h j e =
    let (cycles, mins) =
      clear-append
        (issue_if (not (is_any j.mode) && in_cycle n.id ts) (GraphIssue.join_in_cycle n.id j.mode))
        _ (subst (λ o. join_issue n.id ts o ≡ []) e h) in
    (
      λ counting. in_cycle-false ts n.id (outside counting (flag _ _ cycles)),
      λ is_min. min_has_n j (flag _ _ mins) is_min,
    )
  where
    flag : (test : Bool) (issue : GraphIssue) → issue_if test issue ≡ [] → test ≡ false
    flag test issue h = ground arith

    outside :
        j.mode ≢ JoinMode.any
        → (not (is_any j.mode) && in_cycle n.id ts) ≡ false
        → in_cycle n.id ts ≡ false
    outside counting h = ground arith

join_none :
    (ts : List GraphTransition) (nodes : List GraphNode)
    → join_issues ts nodes ≡ []
    → (n : GraphNode) → Memᴰ n nodes
    → JoinRule ts n
unfolding join_issues
join_none ts [] h = λ n m. absurd (Memᴰ.not-nil m)
join_none ts (n ∷ ns) h =
    let (here, rest) = clear-append (join_issue n.id ts n.join) _ h in
    for_cons (JoinRule ts) (JoinRule-of ts n here) (join_none ts ns rest)

abbrev CycleRule : List GraphTransition → GraphTransition → Type 0
CycleRule ts t = Reaches ts t.to t.from → (b : ℕ) × (t.loop_bound ≡ some b)

CycleRule-of :
    (ts : List GraphTransition) (t : GraphTransition)
    → (is_none t.loop_bound && reaches_back t.to t.from ts) ≡ false
    → CycleRule ts t
CycleRule-of ts t h r = elim (Option-cases t.loop_bound) [
  | inr (b, e) ↦ (b, e)
  | inl absent ↦ absurd (ground (arith, (reaches_back_iff t.to t.from ts).1 r))
]

cycle_none :
    (ts rest : List GraphTransition)
    → cycle_issues ts rest ≡ []
    → (t : GraphTransition) → Memᴰ t rest
    → CycleRule ts t
unfolding cycle_issues
cycle_none ts [] h = λ t m. absurd (Memᴰ.not-nil m)
cycle_none ts (t ∷ rest) h =
    let (here, more) =
      clear (is_none t.loop_bound && reaches_back t.to t.from ts)
        (GraphIssue.cycle_needs_bound t.id) _ h in
    for_cons (CycleRule ts) (CycleRule-of ts t here) (cycle_none ts rest more)

structure_issues-IsStructured : (g : WorkflowGraph) → structure_issues g ≡ [] → IsStructured g
unfolding structure_issues
structure_issues-IsStructured g h =
    let seen = reachable g in
    let (h1, r1) = clear-append (unreachable_issues seen g.nodes) _ h in
    let (h2, r2) =
      clear (not (any (λ (node : GraphNode). is_terminal node.config && has node.id seen) g.nodes))
        GraphIssue.no_terminal _ r1 in
    let (h3, r3) = clear-append (terminal_issues g.transitions g.nodes) _ r2 in
    let (h4, h5) = clear-append (join_issues g.transitions g.nodes) _ r3 in
    let (n, at, both) =
      any-mem (λ (node : GraphNode). is_terminal node.config && has node.id seen) g.nodes
        (ground arith) in
    record {
      connected = λ n m. (reachable_iff g n.id).0 (unreachable_none seen g.nodes h1 n m);
      has_terminal = (n, at, ground arith, (reachable_iff g n.id).0 (ground arith));
      terminal_ends = λ n t m at e. terminal_none g.transitions g.nodes h3 n m e t at;
      join_outside_cycles =
          λ n j t m e counting at f. (join_none g.transitions g.nodes h4 n m j e).0 counting t at f;
      min_join_counts = λ n j m e. (join_none g.transitions g.nodes h4 n m j e).1;
      cycle_bounded = cycle_none g.transitions g.transitions h5;
    }

-- A graph for which validation reports no issue is valid: its ids are distinct, its references
-- resolve, its bounds are positive, every node and some terminal node is reached from the entry,
-- no transition leaves a terminal node, counting joins are outside cycles, a `min` join has a
-- positive `n`, and every transition on a cycle has a bound.
pub validate_graph-IsValid : (g : WorkflowGraph) → validate_graph g ≡ [] → IsValid g
unfolding validate_graph IsValid
validate_graph-IsValid g h =
    let (e, rest) = nil-cases (reference_issues g) (structure_issues g) h in
    (reference_issues-IsReferential g e, structure_issues-IsStructured g rest)
  where
    nil-cases :
        (xs ys : List GraphIssue)
        → (elim xs [ [] ↦ ys | x ∷ r ↦ x ∷ r ]) ≡ []
        → (xs ≡ []) × (ys ≡ [])
    nil-cases [] ys h = (refl, h)
    nil-cases (x ∷ xs) ys h = cc
