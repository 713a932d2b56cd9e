-- ===== src/Engine/Terminals.antt =====
-- packages/workflow/src/graph-engine/engine.ts: which node a completed or blocked run has ended at.

use mathlib.Core.List.{Memᴰ}
use mathlib.Core.Option.{some-injective}
use ai_orchestration.Prelude.{
  ℕ, String, ◌≡◌, ◌≢◌, refl, sym, ap, subst, ◌∙◌, inl, inr, Option, none, some, Bool-cases, str_eq,
}
use ai_orchestration.Prelude.Dict.{Dict, insert, lookup, lookup-insert}
use ai_orchestration.Graph.{WorkflowGraph, GraphNode, TerminalOutcome, terminal_config}
use ai_orchestration.Waits.{WaitSatisfaction}
use ai_orchestration.Engine.State.{
  Tick, RunGraphState, GraphNodeResult, GraphTickOutcome, Environment,
}
use ai_orchestration.Engine.Join.{node_by_id-found}
use ai_orchestration.Engine.Settle.{mark_active, take_transition, record_result, retry_node}
use ai_orchestration.Engine.Execute.{open_wait}
use ai_orchestration.Engine.Tick.{tick, returned, thaw, freeze, status_of_terminal}
use ai_orchestration.Engine.Changes.{Change, Changes-keep, control, deliver-keeps}
use ai_orchestration.Engine.Outcome.{tick-Ending, Ending-state, conclude-terminal}

-- The graph has a terminal node with this outcome, and the node has a result.
unfoldable pub EndsAt : WorkflowGraph → TerminalOutcome → Dict GraphNodeResult → Type 0
EndsAt g o results =
    (n : GraphNode) × Memᴰ n g.nodes
    × (n.config ≡ terminal_config o)
    × (r : GraphNodeResult) × (lookup n.id results ≡ some r)

abbrev Kept : Type 0
Kept = Option TerminalOutcome × Dict GraphNodeResult

abbrev kept : Tick → Kept
kept t = (t.terminal, t.node_results)

abbrev IsEarned : WorkflowGraph → Kept → Type 0
IsEarned g p = (o : TerminalOutcome) → p.0 ≡ some o → EndsAt g o p.1

insert-EndsAt :
    (g : WorkflowGraph) (o : TerminalOutcome) (results : Dict GraphNodeResult) (id : String)
    (r : GraphNodeResult)
    → EndsAt g o results
    → EndsAt g o (insert id r results)
unfolding EndsAt
insert-EndsAt g o results id r (n, at, ends, old, there) = elim (Bool-cases (str_eq id n.id)) [
  | inl same ↦ (n, at, ends, r, lookup-insert id n.id r results ∙ rw same refl)
  | inr other ↦ (n, at, ends, old, lookup-insert id n.id r results ∙ rw other there)
]

Change-IsEarned :
    (g : WorkflowGraph) (t u : Tick) → Change g t u → IsEarned g (kept t) → IsEarned g (kept u)
unfolding take_transition mark_active record_result retry_node open_wait control EndsAt
Change-IsEarned g t u (Change.effect e) h = subst (IsEarned g) (ap kept e) h
Change-IsEarned g t u (Change.activated id n there due) h = h
Change-IsEarned g t u (Change.taken tr at free) h = h
Change-IsEarned g t u (Change.recorded id n r there named) h =
    λ o e. insert-EndsAt g o t.node_results id r (h o e)
Change-IsEarned g t u (Change.retried id n there) h = h
Change-IsEarned g t u (Change.ended id n o r there settled ends) h = λ o' e.
    let (at, name) = node_by_id-found id g.nodes n there in
    (
      n,
      at,
      ends ∙ ap terminal_config (some-injective o o' e),
      r,
      ap (λ i. lookup i t.node_results) name ∙ settled,
    )
Change-IsEarned g t u (Change.broke e) h = h
Change-IsEarned g t u (Change.delivered id) h =
    subst (IsEarned g) (sym (deliver-keeps kept (λ _ _ _. refl) id t)) h
Change-IsEarned g t u (Change.opened id spec request free) h = h

module _ {W : Type 0} (env : Environment W) (g : WorkflowGraph) (limit : ℕ) where
  -- If a tick returns with the status completed or blocked, the graph has a terminal node with that
  -- outcome, and the returned state has a result of that node.
  pub tick-EndsAt :
      (fuel : ℕ) (state : RunGraphState) (satisfactions : Dict WaitSatisfaction) (w v : W)
      (out : GraphTickOutcome) (o : TerminalOutcome)
      → tick env g limit fuel state satisfactions w ≡ returned out v
      → out.status ≡ status_of_terminal o
      → o ≢ TerminalOutcome.failed
      → EndsAt g o out.state.node_results
  unfolding thaw freeze
  tick-EndsAt fuel state satisfactions w v out o h ends good =
      let end = tick-Ending env g limit fuel state satisfactions w v out h in
      let same = ap (λ (s : RunGraphState). s.node_results) (Ending-state end) in
      let status = ap (λ (q : GraphTickOutcome). q.status) (sym end.concluded) ∙ ends in
      let terminal = conclude-terminal _ end.last end.aborted o status good in
      subst (EndsAt g o) (sym same) (
        Changes-keep (λ (t : Tick). IsEarned g (kept t)) (Change-IsEarned g) end.reached
          (λ o' e. absurd (none_some e)) o terminal)
    where
      none_some : {a : TerminalOutcome} → none ≡ some a → ⊥
      none_some e = cc
