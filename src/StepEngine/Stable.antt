-- ===== src/StepEngine/Stable.antt =====
-- packages/workflow/src/engine.ts: a result, once recorded, is the step's result for good.
use ai_orchestration.Prelude.{
  String, true, false, not, ◌||◌, ◌≡◌, sym, ◌∙◌, some, List, [], ◌∷◌, is_none, str_eq, str_eq_iff,
  Bool-cases, inl, inr, Thrown, ok, throw, arith,
}
use ai_orchestration.Prelude.Dict.{Dict, lookup, insert, lookup-insert}
use ai_orchestration.Prelude.Names.{has, add}
use ai_orchestration.Value.{Value}
use ai_orchestration.Workflow.{WorkflowStep, StepResult}
use ai_orchestration.StepEngine.State.{
  Execution, Progress, eligible, ineligible, Verdict, EngineError, is_eligible,
}
use ai_orchestration.StepEngine.Pass.{launch_as, skipped_result, abandon, to_launch}
use ai_orchestration.StepEngine.Machine.{complete, EngineState, Reachable, Leads}
use ai_orchestration.StepEngine.Ids.{ids, has-ids_mem}
use ai_orchestration.StepEngine.Launching.{
  launched, launch_all-keeps, to_launch-Ready, to_launch-Distinct,
}
use ai_orchestration.StepEngine.Kept.{Kept, Leads-kept}
use ai_orchestration.StepEngine.Exclusive.{
  IsExclusive, IsExclusive-kept, launch_as-IsExclusive, Reachable-IsExclusive, is_pending,
  is_running, has_result,
}

-- Recording another step's result.
lookup-insert_other :
    (i j : String) (r q : StepResult) (m : Dict StepResult)
    → lookup j m ≡ some r
    → not (is_none (lookup i m)) ≡ false
    → lookup j (insert i q m) ≡ some r
lookup-insert_other i j r q m h fresh = elim (Bool-cases (str_eq i j)) [
  | inl e ↦ absurd (clash (rw (sym (sym ((str_eq_iff i j).0 e)), h) at fresh))
  | inr e ↦ lookup-insert i j q m ∙ rw e h
]
  where
    clash : true ≡ false → ⊥
    clash e = cc

-- A pending or running step has no result yet.
pub no_result :
    (p : Progress) (i : String)
    → IsExclusive p
    → (is_pending p i || is_running p i) ≡ true
    → has_result p i ≡ false
no_result p i e h = ground (arith, e.1 i, h)

lookup-launch_as :
    (s : WorkflowStep) (p : Progress) (v : Thrown EngineError Verdict) (j : String) (r : StepResult)
    → IsExclusive p
    → is_pending p s.id ≡ true
    → lookup j p.results ≡ some r
    → lookup j (launched (launch_as s p v)).results ≡ some r
unfolding launch_as
lookup-launch_as s p (throw e) j r i h found = found
lookup-launch_as s p (ok eligible) j r i h found = found
lookup-launch_as s p (ok (ineligible reason t)) j r i h found =
    lookup-insert_other s.id j r (skipped_result s.id reason) p.results found
      (no_result p s.id i (ground (arith, h)))

lookup-abandon :
    (ss : List WorkflowStep) (p : Progress) (j : String) (r : StepResult)
    → has j (ids ss) ≡ false
    → lookup j p.results ≡ some r
    → lookup j (abandon ss p).results ≡ some r
unfolding abandon has
lookup-abandon [] p j r h found = found
lookup-abandon (s ∷ ss) p j r h found = lookup-abandon ss (next s p) j r (ground (arith, h)) (
    lookup-insert s.id j (skipped_result s.id "unresolved dependency graph") p.results
    ∙ ground (arith, h, found))
  where
    next : WorkflowStep → Progress → Progress
    next s p = record p {
      results = insert s.id (skipped_result s.id "unresolved dependency graph") p.results;
      tainted = add s.id p.tainted;
    }

module _ (json : Value → String) (x : Execution) where
  result-kept :
      (j : String) (r : StepResult)
      → Kept json x (λ p. IsExclusive p × (lookup j p.results ≡ some r))
  unfolding complete insert
  result-kept j r =
      let e = IsExclusive-kept json x in
      record {
        by_pass = λ p i.
            launch_all-keeps x (λ q. IsExclusive q × (lookup j q.results ≡ some r))
              (λ s q ready k. (
                launch_as-IsExclusive s q (is_eligible x q s) ready.0 k.0,
                lookup-launch_as s q (is_eligible x q s) j r k.0 ready.0 k.1,
              ))
              (to_launch x p) p (to_launch-Distinct x p i.0.0) (to_launch-Ready x p) i;
        by_abandon = λ p i.
            (e.by_abandon p i.0, lookup-abandon p.pending p j r (ground (arith, i.0.1 j, i.1)) i.1);
        by_complete = λ task attempts started finished q p m ran i. (
          e.by_complete task attempts started finished q p m ran i.0,
          lookup-insert_other task.id j r q p.results i.1
              (no_result p task.id i.0 (ground (arith, has-ids_mem task p.tasks m))),
        );
        by_rejection = λ id p i. (e.by_rejection id p i.0, i.1);
        by_retire = λ id p i. (e.by_retire id p i.0, i.1);
      }

  -- In every state that follows, a step that has a result has that result.
  pub Leads-lookup :
      (st last : EngineState) (j : String) (r : StepResult)
      → Reachable json x st
      → Leads json x st last
      → lookup j st.progress.results ≡ some r
      → lookup j last.progress.results ≡ some r
  Leads-lookup st last j r reached leads found =
      let i = Reachable-IsExclusive json x st reached in
      (Leads-kept x (result-kept j r) st last leads (i, found)).1
