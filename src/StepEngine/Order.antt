-- ===== src/StepEngine/Order.antt =====
-- packages/workflow/src/engine.ts: "steps run once every dependency has settled".
use mathlib.Core.List.{Memᴰ}
use ai_orchestration.Prelude.{
  String, true, ◌≡◌, List, [], ◌∷◌, All, All-map, All-filter, All-append_one, All-mem, Thrown, ok,
  throw,
}
use ai_orchestration.Prelude.Dict.{Dict, insert}
use ai_orchestration.Prelude.Names.{add}
use ai_orchestration.Value.{Value}
use ai_orchestration.Workflow.{WorkflowStep, StepResult}
use ai_orchestration.StepEngine.State.{
  Execution, Progress, initial, deps_settled, eligible, ineligible, Verdict, EngineError,
  is_eligible,
}
use ai_orchestration.StepEngine.Pass.{launch_as, skipped_result, abandon, to_launch, drop_step}
use ai_orchestration.StepEngine.Machine.{complete, EngineState, Reachable}
use ai_orchestration.StepEngine.Ids.{ids, Distinct, Distinct-ids-filter}
use ai_orchestration.StepEngine.Launching.{
  launched, Ready, launch_all-keeps, to_launch-Ready, to_launch-Distinct, deps_settled-insert,
}
use ai_orchestration.StepEngine.Kept.{Kept, Reachable-kept}
use ai_orchestration.StepEngine.Initial.{initial-Distinct}

-- Every task that runs has the results of its dependencies.
abbrev pub InOrder : Progress → Type 0
InOrder p = Distinct (ids p.pending) × All (λ s. deps_settled p.results s ≡ true) p.tasks

InOrder-insert :
    (k : String) (r : StepResult) (results : Dict StepResult) (tasks : List WorkflowStep)
    → All (λ s. deps_settled results s ≡ true) tasks
    → All (λ s. deps_settled (insert k r results) s ≡ true) tasks
InOrder-insert k r results tasks h =
    All-map (λ s. deps_settled results s ≡ true) (λ s. deps_settled (insert k r results) s ≡ true)
      tasks (λ s. deps_settled-insert k r results s) h

launch_as-InOrder :
    (s : WorkflowStep) (p : Progress) (v : Thrown EngineError Verdict)
    → Ready p s
    → InOrder p
    → InOrder (launched (launch_as s p v))
unfolding launch_as
launch_as-InOrder s p (throw e) r i = (Distinct-ids-filter _ p.pending i.0, i.1)
launch_as-InOrder s p (ok eligible) r i = (
  Distinct-ids-filter _ p.pending i.0,
  All-append_one (λ s. deps_settled p.results s ≡ true) p.tasks s i.1 r.1,
)
launch_as-InOrder s p (ok (ineligible reason t)) r i = (
  Distinct-ids-filter _ p.pending i.0,
  InOrder-insert s.id (skipped_result s.id reason) p.results p.tasks i.1,
)

abandon-InOrder : (ss : List WorkflowStep) (p : Progress) → InOrder p → InOrder (abandon ss p)
unfolding abandon
abandon-InOrder [] p i = (tt, i.1)
abandon-InOrder (s ∷ ss) p i = abandon-InOrder ss (next s p) (
  i.0,
  InOrder-insert s.id (skipped_result s.id "unresolved dependency graph") p.results p.tasks i.1,
)
  where
    next : WorkflowStep → Progress → Progress
    next s p = record p {
      results = insert s.id (skipped_result s.id "unresolved dependency graph") p.results;
      tainted = add s.id p.tainted;
    }

module _ (json : Value → String) (x : Execution) where
  InOrder-kept : Kept json x InOrder
  unfolding complete drop_step
  InOrder-kept = record {
    by_pass = λ p i.
        launch_all-keeps x InOrder (λ s q r k. launch_as-InOrder s q (is_eligible x q s) r k)
          (to_launch x p) p (to_launch-Distinct x p i.0) (to_launch-Ready x p) i;
    by_abandon = λ p i. abandon-InOrder p.pending p i;
    by_complete = λ task attempts started finished r p m ran i. (
      i.0,
      InOrder-insert task.id r p.results (drop_step task.id p.tasks)
          (All-filter (λ s. deps_settled p.results s ≡ true) _ p.tasks i.1),
    );
    by_rejection = λ id p i. (i.0, All-filter (λ s. deps_settled p.results s ≡ true) _ p.tasks i.1);
    by_retire = λ id p i. i;
  }

  initial-InOrder : InOrder (initial x)
  unfolding initial
  initial-InOrder = (initial-Distinct x, tt)

  -- However the tasks interleave, a step whose task runs has a result for each of its dependencies.
  pub Reachable-InOrder :
      (st : EngineState) (step : WorkflowStep)
      → Reachable json x st
      → Memᴰ step st.progress.tasks
      → deps_settled st.progress.results step ≡ true
  Reachable-InOrder st step reached m =
      All-mem (λ s. deps_settled st.progress.results s ≡ true) st.progress.tasks
        (Reachable-kept x InOrder-kept initial-InOrder st reached).1 m
