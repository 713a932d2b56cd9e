-- ===== src/Engine/Bounds.antt =====
-- packages/workflow/src/graph-engine/engine.ts: the loop bounds of transitions.
use mathlib.Core.List.Memᴰ
use mathlib.Core.List.{Memᴰ}
use ai_orchestration.Prelude.{
  ℕ, ◌+◌, ◌≤◌, ◌≡◌, refl, sym, ap, subst, ◌∙◌, inl, inr, Option, none, some, List, [], ◌∷◌, arith,
  Bool-cases, str_eq, str_eq_iff,
}
use ai_orchestration.Prelude.Dict.{Dict, count_of, insert, count_of-insert}
use ai_orchestration.Graph.{WorkflowGraph, GraphTransition}
use ai_orchestration.Graph.Validate.{validate_graph}
use ai_orchestration.Graph.Validate.Spec.{DistinctTransitions, IsValid}
use ai_orchestration.Graph.Validate.Sound.{validate_graph-IsValid}
use ai_orchestration.Waits.{WaitSatisfaction}
use ai_orchestration.Engine.State.{Tick, RunGraphState, GraphTickOutcome, Environment}
use ai_orchestration.Engine.Settle.{
  reached, mark_active, take_transition, record_result, retry_node,
}
use ai_orchestration.Engine.Execute.{deliver, open_wait}
use ai_orchestration.Engine.Tick.{tick, returned, thaw, freeze}
use ai_orchestration.Engine.Changes.{Change, Changes-keep, control, deliver-keeps}
use ai_orchestration.Engine.Outcome.{tick-Ending, Ending-state}

-- Every transition has been taken at most as often as its bound says.
unfoldable pub IsBounded : WorkflowGraph → Dict ℕ → Type 0
IsBounded g counters =
    (tr : GraphTransition) (b : ℕ)
    → Memᴰ tr g.transitions
    → tr.loop_bound ≡ some b
    → count_of tr.id counters ≤ b

distinct_ids :
    (ts : List GraphTransition)
    → DistinctTransitions ts
    → (a b : GraphTransition) → Memᴰ a ts
    → Memᴰ b ts
    → a.id ≡ b.id
    → a ≡ b
distinct_ids [] d a b at bt e = absurd (Memᴰ.not-nil at)
distinct_ids (t ∷ ts) (fresh, d) a b at bt e = elim (Memᴰ.cases_cons at) [
  | inl at_head ↦ elim (Memᴰ.cases_cons bt) [
    | inl bt_head ↦ at_head ∙ sym bt_head
    | inr bt_tail ↦ absurd (fresh b bt_tail (ap (λ (k : GraphTransition). k.id) (sym at_head) ∙ e))
  ]
  | inr at_tail ↦ elim (Memᴰ.cases_cons bt) [
    | inl bt_head ↦
        absurd (fresh a at_tail (ap (λ (k : GraphTransition). k.id) (sym bt_head) ∙ sym e))
    | inr bt_tail ↦ distinct_ids ts d a b at_tail bt_tail e
  ]
]

reached-none : (o : Option ℕ) (b n : ℕ) → o ≡ some b → reached o n ≡ none → n + 1 ≤ b
reached-none none b n e h = cc
reached-none (some c) b n e h = ground arith

take-IsBounded :
    (g : WorkflowGraph) (tr : GraphTransition) (counters : Dict ℕ)
    → DistinctTransitions g.transitions
    → Memᴰ tr g.transitions
    → reached tr.loop_bound (count_of tr.id counters) ≡ none
    → IsBounded g counters
    → IsBounded g (insert tr.id (count_of tr.id counters + 1) counters)
unfolding IsBounded
take-IsBounded g tr counters distinct at free h tr' b at' bounded =
    rw (count_of-insert tr.id tr'.id (count_of tr.id counters + 1) counters)
      (elim (Bool-cases (str_eq tr.id tr'.id)) [
        | inl same ↦
            let e =
              distinct_ids g.transitions distinct tr tr' at at'
                ((str_eq_iff tr.id tr'.id).0 same) in
            rw same (
              reached-none tr.loop_bound b (count_of tr.id counters)
                (ap (λ (k : GraphTransition). k.loop_bound) e ∙ bounded) free)
        | inr other ↦ rw other (h tr' b at' bounded)
      ])

Change-IsBounded :
    (g : WorkflowGraph)
    → DistinctTransitions g.transitions
    → (t u : Tick) → Change g t u
    → IsBounded g t.loop_counters
    → IsBounded g u.loop_counters
unfolding take_transition mark_active record_result retry_node deliver open_wait control
Change-IsBounded g distinct t u (Change.effect e) h =
    subst (IsBounded g) (ap (λ (k : Tick). k.loop_counters) e) h
Change-IsBounded g distinct t u (Change.activated id n there due) h = h
Change-IsBounded g distinct t u (Change.taken tr at free) h =
    take-IsBounded g tr t.loop_counters distinct at free h
Change-IsBounded g distinct t u (Change.recorded id n r there named) h = h
Change-IsBounded g distinct t u (Change.retried id n there) h = h
Change-IsBounded g distinct t u (Change.ended id n o r there settled ends) h = h
Change-IsBounded g distinct t u (Change.broke e) h = h
Change-IsBounded g distinct t u (Change.delivered id) h =
    subst (IsBounded g) (sym (deliver-keeps (λ (k : Tick). k.loop_counters) (λ _ _ _. refl) id t)) h
Change-IsBounded g distinct t u (Change.opened id spec request free) h = h

module _ {W : Type 0} (env : Environment W) (g : WorkflowGraph) (limit : ℕ) where
  -- The bounds hold behind every tick that returns, in a graph that the validator has no complaint
  -- about, if they hold before it.
  pub tick-IsBounded :
      (fuel : ℕ) (state : RunGraphState) (satisfactions : Dict WaitSatisfaction) (w v : W)
      (out : GraphTickOutcome)
      → validate_graph g ≡ []
      → tick env g limit fuel state satisfactions w ≡ returned out v
      → IsBounded g state.loop_counters
      → IsBounded g out.state.loop_counters
  unfolding thaw freeze IsValid
  tick-IsBounded fuel state satisfactions w v out valid h before =
      let end = tick-Ending env g limit fuel state satisfactions w v out h in
      let same = ap (λ (s : RunGraphState). s.loop_counters) (Ending-state end) in
      subst (IsBounded g) (sym same) (
        Changes-keep (λ (t : Tick). IsBounded g t.loop_counters)
          (Change-IsBounded g (validate_graph-IsValid g valid).0.transitions_distinct) end.reached
          before)
