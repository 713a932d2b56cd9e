-- ===== src/Engine/Join.antt =====
-- packages/workflow/src/graph-engine/engine.ts: the lookups by id, and `joinSatisfied`.
use Prim.Native.Nat.{max}
use mathlib.Core.List.Memᴰ
use mathlib.Core.List.{Memᴰ}
use ai_orchestration.Prelude.{
  ◌≡◌, ℕ, ◌+◌, ◌==◌, String, Bool, ◌&&◌, Option, none, some, List, [], ◌∷◌, ltb, leb, if◌then◌else◌,
  str_eq, length, filter, sym, ap, ◌∙◌, inl, inr, arith, Bool-cases, Option-cases, str_eq_iff,
}
use ai_orchestration.Prelude.Dict.{Dict, count_of}
use ai_orchestration.Graph.{GraphNode, GraphTransition, WorkflowGraph, JoinSpec, all, any, min}
use ai_orchestration.Engine.State.{Tick}

-- `nodesById.get(id)`: of two nodes with one id the map keeps the later.
unfoldable pub node_by_id : String → List GraphNode → Option GraphNode
node_by_id id [] = none
node_by_id id (node ∷ rest) =
    let later = node_by_id id rest in
    elim later [ some n ↦ some n | none ↦ if str_eq node.id id then some node else none ]

-- `outgoing.get(id) ?? []`
unfoldable pub outgoing : String → List GraphTransition → List GraphTransition
outgoing id ts = filter (λ (t : GraphTransition). str_eq t.from id) ts

-- `incoming.get(id) ?? []`
unfoldable pub incoming : String → List GraphTransition → List GraphTransition
incoming id ts = filter (λ (t : GraphTransition). str_eq t.to id) ts

unfoldable pub total_firings : Dict ℕ → List GraphTransition → ℕ
total_firings counters [] = 0
total_firings counters (t ∷ ts) = count_of t.id counters + total_firings counters ts

unfoldable pub fired_count : Dict ℕ → List GraphTransition → ℕ
fired_count counters [] = 0
fired_count counters (t ∷ ts) =
    (if ltb 0 (count_of t.id counters) then 1 else 0) + fired_count counters ts

unfoldable pub max_single_firings : Dict ℕ → List GraphTransition → ℕ
max_single_firings counters [] = 0
max_single_firings counters (t ∷ ts) = max (count_of t.id counters) (max_single_firings counters ts)

abbrev pub entry_offset : String → String → ℕ
entry_offset node entry = if str_eq node entry then 1 else 0

abbrev or_else : Option ℕ → ℕ → ℕ
or_else none d = d
or_else (some n) d = n

-- The join of a node with `activated` activations. The source subtracts the entry's offset from
-- the activations, which may give -1; here it stands on the other side of each comparison.
unfoldable pub join_holds : Option JoinSpec → Dict ℕ → List GraphTransition → ℕ → ℕ → Bool
unfolding total_firings fired_count max_single_firings
join_holds none counters inbound activated offset =
    ltb activated (total_firings counters inbound + offset)
join_holds (some join) counters inbound activated offset = elim join.mode [
  | any ↦ ltb activated (max_single_firings counters inbound + offset)
  | all ↦ fired_count counters inbound == length inbound && activated == offset
  | min ↦
      leb (or_else join.n (length inbound)) (fired_count counters inbound) && activated == offset
]

unfoldable pub join_satisfied : WorkflowGraph → GraphNode → Tick → Bool
unfolding incoming join_holds
join_satisfied graph node tick =
    join_holds node.join tick.loop_counters (incoming node.id graph.transitions)
      (count_of node.id tick.activations) (entry_offset node.id graph.entry)

-- What the lookup finds is a node of the graph, under its id.
pub node_by_id-found :
    (id : String) (nodes : List GraphNode) (n : GraphNode)
    → node_by_id id nodes ≡ some n
    → Memᴰ n nodes × (n.id ≡ id)
unfolding node_by_id
node_by_id-found id [] n h = cc
node_by_id-found id (m ∷ ms) n h = elim (Option-cases (node_by_id id ms)) [
  | inr (later, there) ↦ let r = node_by_id-found id ms n (ground arith) in (Memᴰ.tail r.0, r.1)
  | inl absent ↦ elim (Bool-cases (str_eq m.id id)) [
    | inr other ↦ absurd (ground arith)
    | inl this ↦
        let same : n ≡ m = ground arith in
        (Memᴰ.head same, ap (λ (k : GraphNode). k.id) same ∙ (str_eq_iff m.id id).0 this)
  ]
]

-- A node of the graph is found under its id, if perhaps as another node of that id.
pub mem-node_by_id :
    (nodes : List GraphNode) (n : GraphNode)
    → Memᴰ n nodes
    → (m : GraphNode) × (node_by_id n.id nodes ≡ some m)
unfolding node_by_id
mem-node_by_id [] n at = absurd (Memᴰ.not-nil at)
mem-node_by_id (k ∷ ks) n at = elim (Option-cases (node_by_id n.id ks)) [
  | inr (later, there) ↦ (later, rw there)
  | inl absent ↦ elim (Memᴰ.cases_cons at) [
    | inl this ↦
        (k, rw absent (rw ((str_eq_iff k.id n.id).1 (ap (λ (i : GraphNode). i.id) (sym this)))))
    | inr rest ↦
        let (m, there) = mem-node_by_id ks n rest in absurd (none_some (sym absent ∙ there))
  ]
]
  where
    none_some : {a : GraphNode} → none ≡ some a → ⊥
    none_some e = cc
