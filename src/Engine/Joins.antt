-- ===== src/Engine/Joins.antt =====
-- packages/workflow/src/graph-engine/engine.ts: how often a node is activated, by its join.
use ai_orchestration.Prelude.{
  ℕ, String, ◌+◌, ◌≤◌, ◌≡◌, refl, sym, ap, subst, ◌∙◌, inl, inr, true, Option, none, some, List, [],
  ◌∷◌, arith, Bool-cases, str_eq, str_eq_iff, and-eq-true,
}
use ai_orchestration.Prelude.Dict.{Dict, count_of, insert, lookup, count_of-insert}
use ai_orchestration.Graph.{WorkflowGraph, GraphNode, GraphTransition, JoinSpec, all, any, min}
use ai_orchestration.Waits.{WaitSatisfaction}
use mathlib.Core.Option.{some-injective}
use ai_orchestration.Engine.State.{Tick, RunGraphState, GraphTickOutcome, Environment}
use ai_orchestration.Engine.Join.{
  node_by_id, incoming, total_firings, max_single_firings, entry_offset, join_holds, join_satisfied,
}
use ai_orchestration.Engine.Settle.{mark_active, take_transition, record_result, retry_node}
use ai_orchestration.Engine.Execute.{open_wait}
use ai_orchestration.Engine.Tick.{tick, returned, thaw, freeze, is_fresh, no_keys}
use ai_orchestration.Engine.Changes.{Change, Changes-keep, control, deliver-keeps, IsDue}
use ai_orchestration.Engine.Outcome.{tick-Ending, Ending-state}

-- How often a node may have been activated, by the firings of the transitions into it: once per
-- firing, per firing of the transition that fired most, or once at all; the entry node once more.
unfoldable pub capacity : Option JoinSpec → Dict ℕ → List GraphTransition → ℕ → ℕ
capacity none counters inbound offset = total_firings counters inbound + offset
capacity (some join) counters inbound offset = elim join.mode [
  | any ↦ max_single_firings counters inbound + offset
  | all ↦ 1 + offset
  | min ↦ 1 + offset
]

-- No node has been activated more often than its join lets it.
unfoldable pub IsAccounted : WorkflowGraph → Dict ℕ → Dict ℕ → Type 0
unfolding capacity
IsAccounted g activations counters =
    (n : GraphNode)
    → node_by_id n.id g.nodes ≡ some n
    → count_of n.id activations
      ≤ capacity n.join counters (incoming n.id g.transitions) (entry_offset n.id g.entry)

abbrev Grows : Dict ℕ → Dict ℕ → Type 0
Grows c d = (k : String) → count_of k c ≤ count_of k d

total_firings-Grows :
    (c d : Dict ℕ) (ts : List GraphTransition) → Grows c d → total_firings c ts ≤ total_firings d ts
unfolding total_firings
total_firings-Grows c d [] grows = omega arith
total_firings-Grows c d (t ∷ ts) grows =
    let a = grows t.id in let b = total_firings-Grows c d ts grows in omega arith

max_single_firings-Grows :
    (c d : Dict ℕ) (ts : List GraphTransition)
    → Grows c d
    → max_single_firings c ts ≤ max_single_firings d ts
unfolding max_single_firings
max_single_firings-Grows c d [] grows = omega arith
max_single_firings-Grows c d (t ∷ ts) grows =
    let a = grows t.id in let b = max_single_firings-Grows c d ts grows in ground arith

capacity-Grows :
    (join : Option JoinSpec) (c d : Dict ℕ) (ts : List GraphTransition) (offset : ℕ)
    → Grows c d
    → capacity join c ts offset ≤ capacity join d ts offset
unfolding capacity
capacity-Grows none c d ts offset grows = let a = total_firings-Grows c d ts grows in omega arith
capacity-Grows (some join) c d ts offset grows =
    let a = max_single_firings-Grows c d ts grows in ground arith

-- A join that holds leaves room for the activation.
join_holds-capacity :
    (join : Option JoinSpec) (c : Dict ℕ) (ts : List GraphTransition) (activated offset : ℕ)
    → join_holds join c ts activated offset ≡ true
    → activated + 1 ≤ capacity join c ts offset
unfolding join_holds capacity
join_holds-capacity none c ts activated offset h = ground arith
join_holds-capacity (some join) c ts activated offset h = ground arith

offset-capacity :
    (join : Option JoinSpec) (c : Dict ℕ) (ts : List GraphTransition) (offset : ℕ)
    → offset ≤ capacity join c ts offset
unfolding capacity
offset-capacity none c ts offset = omega arith
offset-capacity (some join) c ts offset = ground arith

no_keys-count : (m : Dict ℕ) (id : String) → no_keys m ≡ true → count_of id m ≡ 0
unfolding count_of lookup
no_keys-count [] id h = refl
no_keys-count (_ ∷ _) id h = cc

fresh-count : (t : Tick) (id : String) → is_fresh t ≡ true → count_of id t.activations ≡ 0
unfolding is_fresh
fresh-count t id h =
    let keys = (and-eq-true _ (no_keys t.activations) (and-eq-true _ _ h).1).1 in
    no_keys-count t.activations id keys

-- A node that is due may be activated once more.
due-capacity :
    (g : WorkflowGraph) (n : GraphNode) (t : Tick)
    → IsDue g n t
    → count_of n.id t.activations + 1
      ≤ capacity n.join t.loop_counters (incoming n.id g.transitions) (entry_offset n.id g.entry)
unfolding join_satisfied
due-capacity g n t (inl (fresh, entry)) = rw (fresh-count t n.id fresh) (
    subst (λ o. 1 ≤ capacity n.join t.loop_counters (incoming n.id g.transitions) o)
      (sym (rw ((str_eq_iff n.id g.entry).1 entry) refl))
      (offset-capacity n.join t.loop_counters (incoming n.id g.transitions) 1))
due-capacity g n t (inr holds) = join_holds-capacity n.join t.loop_counters _ _ _ holds

take-Grows : (tr : GraphTransition) (c : Dict ℕ) → Grows c (insert tr.id (count_of tr.id c + 1) c)
take-Grows tr c k = elim (Bool-cases (str_eq tr.id k)) [
  | inl same ↦
      let e = count_of-insert tr.id k (count_of tr.id c + 1) c in
      let id = (str_eq_iff tr.id k).0 same in
      let s = ap (λ i. count_of i c) id in rw e (rw same (omega arith))
  | inr other ↦ rw (count_of-insert tr.id k (count_of tr.id c + 1) c) (rw other (omega arith))
]

take-IsAccounted :
    (g : WorkflowGraph) (tr : GraphTransition) (activations counters : Dict ℕ)
    → IsAccounted g activations counters
    → IsAccounted g activations (insert tr.id (count_of tr.id counters + 1) counters)
unfolding IsAccounted
take-IsAccounted g tr activations counters h n there =
    let a = h n there in
    let b =
      capacity-Grows n.join counters _ (incoming n.id g.transitions) (entry_offset n.id g.entry)
        (take-Grows tr counters) in
    omega arith

activate-IsAccounted :
    (g : WorkflowGraph) (id : String) (n : GraphNode) (t : Tick)
    → node_by_id id g.nodes ≡ some n
    → IsDue g n t
    → IsAccounted g t.activations t.loop_counters
    → IsAccounted g (insert id (count_of id t.activations + 1) t.activations) t.loop_counters
unfolding IsAccounted
activate-IsAccounted g id n t there due h m at =
    rw (count_of-insert id m.id (count_of id t.activations + 1) t.activations)
      (elim (Bool-cases (str_eq id m.id)) [
        | inr other ↦ rw other (h m at)
        | inl same ↦
            let e = (str_eq_iff id m.id).0 same in
            let k : n ≡ m =
              some-injective n m (sym there ∙ ap (λ i. node_by_id i g.nodes) e ∙ at) in
            rw same (
              rw (ap (λ i. count_of i t.activations) e) (
                subst
                  (λ (x : GraphNode).
                    count_of x.id t.activations + 1
                    ≤ capacity x.join t.loop_counters (incoming x.id g.transitions)
                        (entry_offset x.id g.entry))
                  k (due-capacity g n t due)))
      ])

abbrev KeepsAccounts : WorkflowGraph → Tick → Type 0
KeepsAccounts g t = IsAccounted g t.activations t.loop_counters

Change-IsAccounted :
    (g : WorkflowGraph) (t u : Tick) → Change g t u → KeepsAccounts g t → KeepsAccounts g u
unfolding take_transition mark_active record_result retry_node open_wait control
Change-IsAccounted g t u (Change.effect e) h = subst (KeepsAccounts g) (ap control e) h
Change-IsAccounted g t u (Change.activated id n there due) h =
    activate-IsAccounted g id n t there due h
Change-IsAccounted g t u (Change.taken tr at free) h =
    take-IsAccounted g tr t.activations t.loop_counters h
Change-IsAccounted g t u (Change.recorded id n r there named) h = h
Change-IsAccounted g t u (Change.retried id n there) h = h
Change-IsAccounted g t u (Change.ended id n o r there settled ends) h = h
Change-IsAccounted g t u (Change.broke e) h = h
Change-IsAccounted g t u (Change.delivered id) h =
    subst (λ (p : Dict ℕ × Dict ℕ). IsAccounted g p.0 p.1)
      (sym (deliver-keeps (λ (k : Tick). (k.activations, k.loop_counters)) (λ _ _ _. refl) id t)) h
Change-IsAccounted g t u (Change.opened id spec request free) h = h

module _ {W : Type 0} (env : Environment W) (g : WorkflowGraph) (limit : ℕ) where
  -- Behind every tick that returns, no node has been activated more often than its join lets it,
  -- if that held before the tick.
  pub tick-IsAccounted :
      (fuel : ℕ) (state : RunGraphState) (satisfactions : Dict WaitSatisfaction) (w v : W)
      (out : GraphTickOutcome)
      → tick env g limit fuel state satisfactions w ≡ returned out v
      → IsAccounted g state.activations state.loop_counters
      → IsAccounted g out.state.activations out.state.loop_counters
  unfolding thaw freeze
  tick-IsAccounted fuel state satisfactions w v out h before =
      let end = tick-Ending env g limit fuel state satisfactions w v out h in
      let same = ap (λ (s : RunGraphState). (s.activations, s.loop_counters)) (Ending-state end) in
      subst (λ (p : Dict ℕ × Dict ℕ). IsAccounted g p.0 p.1) (sym same)
        (Changes-keep (KeepsAccounts g) (Change-IsAccounted g) end.reached before)
