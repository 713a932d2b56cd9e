-- ===== src/Engine/History.antt =====
-- packages/workflow/src/graph-engine/engine.ts: the results of nodes, which the state keeps twice:
-- all of them in order, and the latest of each node.
use mathlib.Core.List.Memᴰ
use mathlib.Core.List.{Memᴰ}
use ai_orchestration.Prelude.{
  ℕ, String, ◌≡◌, ◌⊎◌, refl, sym, ap, subst, ◌∙◌, inl, inr, Option, none, some, List, [], ◌∷◌, ◌++◌,
  arith, str_eq, if◌then◌else◌,
}
use ai_orchestration.Prelude.Dict.{Dict, insert, lookup, lookup-insert}
use ai_orchestration.Graph.{WorkflowGraph, GraphNode}
use ai_orchestration.Waits.{WaitSatisfaction}
use ai_orchestration.Engine.State.{
  Tick, RunGraphState, GraphNodeResult, GraphTickOutcome, Environment,
}
use ai_orchestration.Engine.Join.{node_by_id}
use ai_orchestration.Engine.Settle.{mark_active, take_transition, record_result, retry_node}
use ai_orchestration.Engine.Execute.{open_wait}
use ai_orchestration.Engine.Tick.{tick, returned, thaw, freeze}
use ai_orchestration.Engine.Changes.{Change, Changes-keep, control, deliver-keeps}
use ai_orchestration.Engine.Outcome.{tick-Ending, Ending-state}

-- The last result of a node in a history.
unfoldable pub last_of : String → List GraphNodeResult → Option GraphNodeResult
last_of id [] = none
last_of id (r ∷ rs) = elim (last_of id rs) [
  | some later ↦ some later
  | none ↦ if str_eq r.node_id id then some r else none
]

last_of-append :
    (id : String) (rs : List GraphNodeResult) (r : GraphNodeResult)
    → last_of id (rs ++ r ∷ []) ≡ (if str_eq r.node_id id then some r else last_of id rs)
unfolding last_of
last_of-append id [] r = refl
last_of-append id (x ∷ xs) r = ground (arith, last_of-append id xs r)

-- The results by node are the last ones of the history.
unfoldable pub IsLatest : Dict GraphNodeResult → List GraphNodeResult → Type 0
unfolding last_of
IsLatest results history = (id : String) → lookup id results ≡ last_of id history

-- What a history has become: results of nodes of the graph are appended, as many as `count`.
unfoldable pub IsExtended : WorkflowGraph → List GraphNodeResult → List GraphNodeResult → Type 0
IsExtended g before after =
    (added : List GraphNodeResult) × (after ≡ before ++ added)
    × ((r : GraphNodeResult)
        → Memᴰ r added
        → (n : GraphNode) × (node_by_id r.node_id g.nodes ≡ some n))

record-IsLatest :
    (r : GraphNodeResult) (results : Dict GraphNodeResult) (history : List GraphNodeResult)
    → IsLatest results history
    → IsLatest (insert r.node_id r results) (history ++ r ∷ [])
unfolding IsLatest
record-IsLatest r results history h id =
    rw (lookup-insert r.node_id id r results) (rw (last_of-append id history r) (rw (h id) refl))

append_assoc : {A : Type 0} (xs ys zs : List A) → (xs ++ ys) ++ zs ≡ xs ++ (ys ++ zs)
append_assoc [] ys zs = refl
append_assoc (x ∷ xs) ys zs = ap (λ l. x ∷ l) (append_assoc xs ys zs)

append_nil : {A : Type 0} (xs : List A) → xs ++ [] ≡ xs
append_nil [] = refl
append_nil (x ∷ xs) = ap (λ l. x ∷ l) (append_nil xs)

mem-append : {A : Type 0} (xs ys : List A) (a : A) → Memᴰ a (xs ++ ys) → Memᴰ a xs ⊎ Memᴰ a ys
mem-append [] ys a m = inr m
mem-append (x ∷ xs) ys a m = elim (Memᴰ.cases_cons m) [
  | inl e ↦ inl (Memᴰ.head e)
  | inr rest ↦ elim (mem-append xs ys a rest) [ inl l ↦ inl (Memᴰ.tail l) | inr r ↦ inr r ]
]

record-IsExtended :
    (g : WorkflowGraph) (n : GraphNode) (r : GraphNodeResult) (before after : List GraphNodeResult)
    → node_by_id r.node_id g.nodes ≡ some n
    → IsExtended g before after
    → IsExtended g before (after ++ r ∷ [])
unfolding IsExtended
record-IsExtended g n r before after there (added, e, known) =
    (added ++ r ∷ [], ap (λ l. l ++ r ∷ []) e ∙ append_assoc before added (r ∷ []), both)
  where
    both :
        (s : GraphNodeResult)
        → Memᴰ s (added ++ r ∷ [])
        → (k : GraphNode) × (node_by_id s.node_id g.nodes ≡ some k)
    both s m = elim (mem-append added (r ∷ []) s m) [
      | inl old ↦ known s old
      | inr new ↦ elim (Memᴰ.cases_cons new) [
        | inl e ↦ (n, ap (λ (k : GraphNodeResult). node_by_id k.node_id g.nodes) e ∙ there)
        | inr none_left ↦ absurd (Memᴰ.not-nil none_left)
      ]
    ]

-- What holds of the two as they are kept, and how they relate to the history before the tick.
abbrev KeepsHistory :
    WorkflowGraph → List GraphNodeResult → Dict GraphNodeResult × List GraphNodeResult → Type 0
KeepsHistory g before p = IsLatest p.0 p.1 × IsExtended g before p.1

abbrev kept : Tick → Dict GraphNodeResult × List GraphNodeResult
kept t = (t.node_results, t.result_history)

Change-KeepsHistory :
    (g : WorkflowGraph) (before : List GraphNodeResult) (t u : Tick)
    → Change g t u
    → KeepsHistory g before (kept t)
    → KeepsHistory g before (kept u)
unfolding take_transition mark_active record_result retry_node open_wait control
Change-KeepsHistory g before t u (Change.effect e) h = subst (KeepsHistory g before) (ap kept e) h
Change-KeepsHistory g before t u (Change.activated id n there due) h = h
Change-KeepsHistory g before t u (Change.taken tr at free) h = h
Change-KeepsHistory g before t u (Change.recorded id n r there named) h = (
  subst (λ i. IsLatest (insert i r t.node_results) (t.result_history ++ r ∷ [])) named
      (record-IsLatest r t.node_results t.result_history h.0),
  record-IsExtended g n r before t.result_history (ap (λ i. node_by_id i g.nodes) named ∙ there)
      h.1,
)
Change-KeepsHistory g before t u (Change.retried id n there) h = h
Change-KeepsHistory g before t u (Change.ended id n o r there settled ends) h = h
Change-KeepsHistory g before t u (Change.broke e) h = h
Change-KeepsHistory g before t u (Change.delivered id) h =
    subst (KeepsHistory g before) (sym (deliver-keeps kept (λ _ _ _. refl) id t)) h
Change-KeepsHistory g before t u (Change.opened id spec request free) h = h

module _ {W : Type 0} (env : Environment W) (g : WorkflowGraph) (limit : ℕ) where
  -- A tick that returns only appends to the history, results of nodes of the graph, and the results
  -- by node stay the last ones of the history if they are before the tick.
  pub tick-IsExtended :
      (fuel : ℕ) (state : RunGraphState) (satisfactions : Dict WaitSatisfaction) (w v : W)
      (out : GraphTickOutcome)
      → tick env g limit fuel state satisfactions w ≡ returned out v
      → IsLatest state.node_results state.result_history
      → IsLatest out.state.node_results out.state.result_history
        × IsExtended g state.result_history out.state.result_history
  unfolding thaw freeze IsExtended
  tick-IsExtended fuel state satisfactions w v out h latest =
      let end = tick-Ending env g limit fuel state satisfactions w v out h in
      let same =
        ap (λ (s : RunGraphState). (s.node_results, s.result_history)) (Ending-state end) in
      subst (KeepsHistory g state.result_history) (sym same) (
        Changes-keep (λ (t : Tick). KeepsHistory g state.result_history (kept t))
          (Change-KeepsHistory g state.result_history) end.reached
          (latest, ([], sym (append_nil state.result_history), λ r m. absurd (Memᴰ.not-nil m))))
