-- ===== src/Engine/Measure.antt =====
-- packages/workflow/src/graph-engine/engine.ts: what a change cannot do to the settlements, to the
-- satisfactions that are left, and to the active nodes.
use ai_orchestration.Prelude.{
  ℕ, String, ◌≤◌, ◌<◌, ◌≡◌, refl, sym, ap, subst, ◌∙◌, inl, inr, true, some, List, [], ◌∷◌, arith,
  Bool-cases, length, str_eq, str_eq_iff,
}
use ai_orchestration.Prelude.Dict.{Dict, lookup, delete}
use ai_orchestration.Prelude.Names.{has, add, remove, has-add, has-remove}
use ai_orchestration.Graph.{WorkflowGraph, GraphNode}
use ai_orchestration.Waits.{WaitSatisfaction}
use ai_orchestration.Engine.State.{Tick}
use ai_orchestration.Engine.Join.{node_by_id}
use ai_orchestration.Engine.Settle.{mark_active, take_transition, record_result, retry_node}
use ai_orchestration.Engine.Execute.{open_wait, deliver, is_delivered}
use ai_orchestration.Engine.Changes.{Change, Changes, Changes-keep, control, deliver-keeps}

pub length-delete : {V : Type 0} (k : String) (m : Dict V) → length (delete k m) ≤ length m
unfolding delete
length-delete k [] = omega arith
length-delete k ((j, w) ∷ m) = let a = length-delete k m in ground arith

-- Deleting a key that is there leaves fewer.
pub length-delete-some :
    {V : Type 0} (k : String) (m : Dict V) (v : V)
    → lookup k m ≡ some v
    → length (delete k m) < length m
unfolding delete lookup
length-delete-some k [] v h = cc
length-delete-some k ((j, w) ∷ m) v h = elim (Bool-cases (str_eq j k)) [
  | inl here ↦ let a = length-delete k m in ground arith
  | inr other ↦ let a = length-delete-some k m v (ground arith) in ground arith
]

unfoldable pub pending_count : Tick → ℕ
pending_count t = length t.pending_satisfactions

deliver-pending : (id : String) (t : Tick) → pending_count (deliver id t) ≤ pending_count t
unfolding deliver pending_count
deliver-pending id t =
    let a = length-delete id t.pending_satisfactions in
    elim (Bool-cases (is_delivered id t)) [
      | inl here ↦ rw here a
      | inr absent ↦ rw absent (omega arith)
    ]

-- The active nodes are nodes of the graph.
unfoldable pub IsKnown : WorkflowGraph → List String → Type 0
IsKnown g ids =
    (id : String) → has id ids ≡ true → (n : GraphNode) × (node_by_id id g.nodes ≡ some n)

add-IsKnown :
    (g : WorkflowGraph) (id : String) (n : GraphNode) (ids : List String)
    → node_by_id id g.nodes ≡ some n
    → IsKnown g ids
    → IsKnown g (add id ids)
unfolding IsKnown
add-IsKnown g id n ids there h k at = elim (Bool-cases (str_eq id k)) [
  | inl same ↦ (n, ap (λ i. node_by_id i g.nodes) (sym ((str_eq_iff id k).0 same)) ∙ there)
  | inr other ↦ h k (ground (arith, has-add id k ids))
]

remove-IsKnown :
    (g : WorkflowGraph) (id : String) (ids : List String)
    → IsKnown g ids
    → IsKnown g (remove id ids)
unfolding IsKnown
remove-IsKnown g id ids h k at = h k (ground (arith, has-remove id k ids))

Change-settlements :
    (g : WorkflowGraph) (s : ℕ) (t u : Tick) → Change g t u → s ≤ t.settlements → s ≤ u.settlements
unfolding take_transition mark_active record_result retry_node open_wait control
Change-settlements g s t u (Change.effect e) h =
    subst (λ n. s ≤ n) (ap (λ (k : Tick). k.settlements) e) h
Change-settlements g s t u (Change.activated id n there due) h = h
Change-settlements g s t u (Change.taken tr at free) h = h
Change-settlements g s t u (Change.recorded id n r there named) h = omega arith
Change-settlements g s t u (Change.retried id n there) h = h
Change-settlements g s t u (Change.ended id n o r there settled ends) h = h
Change-settlements g s t u (Change.broke e) h = h
Change-settlements g s t u (Change.delivered id) h =
    subst (λ n. s ≤ n) (sym (deliver-keeps (λ (k : Tick). k.settlements) (λ _ _ _. refl) id t)) h
Change-settlements g s t u (Change.opened id spec request free) h = h

pub Changes-settlements :
    (g : WorkflowGraph) {t u : Tick} → Changes g t u → t.settlements ≤ u.settlements
Changes-settlements g {t} changes =
    Changes-keep (λ (k : Tick). t.settlements ≤ k.settlements) (Change-settlements g _) changes
      (omega arith)

-- What a tick keeps for its loop to end.
abbrev pub Goes : WorkflowGraph → ℕ → Tick → Type 0
Goes g pending t = (pending_count t ≤ pending) × IsKnown g t.active

Change-Goes : (g : WorkflowGraph) (p : ℕ) (t u : Tick) → Change g t u → Goes g p t → Goes g p u
unfolding take_transition mark_active record_result retry_node open_wait control pending_count
Change-Goes g p t u (Change.effect e) h =
    subst (λ (q : Dict WaitSatisfaction × List String). (length q.0 ≤ p) × IsKnown g q.1)
      (ap (λ (k : Tick). (k.pending_satisfactions, k.active)) e) h
Change-Goes g p t u (Change.activated id n there due) (b, c) =
    (b, add-IsKnown g id n t.active there c)
Change-Goes g p t u (Change.taken tr at free) h = h
Change-Goes g p t u (Change.recorded id n r there named) (b, c) =
    (b, remove-IsKnown g id t.active c)
Change-Goes g p t u (Change.retried id n there) (b, c) = (b, add-IsKnown g id n t.active there c)
Change-Goes g p t u (Change.ended id n o r there settled ends) h = h
Change-Goes g p t u (Change.broke e) h = h
Change-Goes g p t u (Change.delivered id) (b, c) = (
  (let less = deliver-pending id t in unfold pending_count in omega arith),
  subst (IsKnown g) (sym (deliver-keeps (λ (k : Tick). k.active) (λ _ _ _. refl) id t)) c,
)
Change-Goes g p t u (Change.opened id spec request free) h = h

pub Changes-Goes :
    (g : WorkflowGraph) {t u : Tick}
    → Changes g t u
    → IsKnown g t.active
    → Goes g (pending_count t) u
Changes-Goes g {t} changes known =
    Changes-keep (Goes g (pending_count t)) (Change-Goes g _) changes (omega arith, known)
