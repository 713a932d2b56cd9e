-- ===== src/StepEngine/Exclusive.antt =====
-- packages/workflow/src/engine.ts: a step is pending, runs, or has its result, and never two of
-- these at once; so no result is ever replaced.
use ai_orchestration.Prelude.{
  String, Bool, true, not, ◌&&◌, ◌≡◌, refl, List, [], ◌∷◌, is_none, str_eq_iff, subst, sym, ◌∙◌,
  ◌||◌, Thrown, ok, throw, arith,
}
use ai_orchestration.Prelude.Dict.{lookup, insert, lookup-insert}
use ai_orchestration.Prelude.Names.{has, add}
use ai_orchestration.Value.{Value}
use ai_orchestration.Workflow.{WorkflowStep, StepResult}
use ai_orchestration.StepEngine.State.{
  Execution, Progress, initial, eligible, ineligible, Verdict, EngineError, is_eligible,
}
use ai_orchestration.StepEngine.Pass.{start, skip, launch_as, skipped_result, abandon, to_launch}
use ai_orchestration.StepEngine.Machine.{complete, EngineState, Reachable}
use ai_orchestration.StepEngine.Ids.{
  ids, Distinct, Distinct-ids-filter, has-drop_step, has-ids_append_one, has-ids_mem,
}
use ai_orchestration.StepEngine.Launching.{
  launched, launch_all-keeps, to_launch-Ready, to_launch-Distinct,
}
use ai_orchestration.StepEngine.Initial.{initial-Distinct}
use ai_orchestration.StepEngine.Kept.{Kept, Reachable-kept}

abbrev pub is_pending : Progress → String → Bool
is_pending p j = has j (ids p.pending)

abbrev pub is_running : Progress → String → Bool
is_running p j = has j (ids p.tasks)

abbrev pub has_result : Progress → String → Bool
has_result p j = not (is_none (lookup j p.results))

-- At most one of three.
abbrev pub apart : Bool → Bool → Bool → Bool
apart a b c = not (a && b) && (not (a && c) && not (b && c))

abbrev pub IsExclusive : Progress → Type 0
IsExclusive p =
    Distinct (ids p.pending)
    × ((j : String) → apart (is_pending p j) (is_running p j) (has_result p j) ≡ true)

start-IsExclusive :
    (s : WorkflowStep) (p : Progress)
    → is_pending p s.id ≡ true
    → IsExclusive p
    → IsExclusive (start s p)
unfolding start
start-IsExclusive s p h i = (Distinct-ids-filter _ p.pending i.0, at)
  where
    at :
        (j : String)
        → apart (is_pending (start s p) j) (is_running (start s p) j) (has_result (start s p) j)
          ≡ true
    at j = ground (
      arith,
      h,
      i.1 j,
      i.1 s.id,
      has-drop_step s.id j p.pending,
      has-ids_append_one j p.tasks s,
      str_eq_iff s.id j,
    )

skip-IsExclusive :
    (s : WorkflowStep) (reason : String) (t : Bool) (p : Progress)
    → is_pending p s.id ≡ true
    → IsExclusive p
    → IsExclusive (skip s reason t p)
unfolding skip
skip-IsExclusive s reason t p h i = (Distinct-ids-filter _ p.pending i.0, at)
  where
    at :
        (j : String)
        → apart
            (is_pending (skip s reason t p) j)
            (is_running (skip s reason t p) j)
            (has_result (skip s reason t p) j)
          ≡ true
    at j = ground (
      arith,
      h,
      i.1 j,
      i.1 s.id,
      has-drop_step s.id j p.pending,
      lookup-insert s.id j (skipped_result s.id reason) p.results,
      str_eq_iff s.id j,
    )

complete-IsExclusive :
    (s : WorkflowStep) (r : StepResult) (p : Progress)
    → is_running p s.id ≡ true
    → IsExclusive p
    → IsExclusive (complete s r p)
unfolding complete
complete-IsExclusive s r p h i = (i.0, at)
  where
    at :
        (j : String)
        → apart
            (is_pending (complete s r p) j)
            (is_running (complete s r p) j)
            (has_result (complete s r p) j)
          ≡ true
    at j = ground (
      arith,
      h,
      i.1 j,
      i.1 s.id,
      has-drop_step s.id j p.tasks,
      lookup-insert s.id j r p.results,
      str_eq_iff s.id j,
    )

-- Abandoned steps are those that have a result afterwards.
pub has_result-abandon :
    (j : String) (ss : List WorkflowStep) (p : Progress)
    → has_result (abandon ss p) j ≡ (has j (ids ss) || has_result p j)
unfolding abandon has
has_result-abandon j [] p = refl
has_result-abandon j (s ∷ ss) p =
    has_result-abandon j ss (next s p)
    ∙ ground
        (arith, lookup-insert s.id j (skipped_result s.id "unresolved dependency graph") p.results)
  where
    next : WorkflowStep → Progress → Progress
    next s p = record p {
      results = insert s.id (skipped_result s.id "unresolved dependency graph") p.results;
      tainted = add s.id p.tainted;
    }

pub tasks-abandon : (ss : List WorkflowStep) (p : Progress) → (abandon ss p).tasks ≡ p.tasks
unfolding abandon
tasks-abandon [] p = refl
tasks-abandon (s ∷ ss) p = tasks-abandon ss _

pub pending-abandon : (ss : List WorkflowStep) (p : Progress) → (abandon ss p).pending ≡ []
unfolding abandon
pending-abandon [] p = refl
pending-abandon (s ∷ ss) p = pending-abandon ss _

abandon-IsExclusive : (p : Progress) → IsExclusive p → IsExclusive (abandon p.pending p)
unfolding has
abandon-IsExclusive p i = (
  subst (λ (ss : List WorkflowStep). Distinct (ids ss)) (sym (pending-abandon p.pending p)) tt,
  at,
)
  where
    at :
        (j : String)
        → apart
            (is_pending (abandon p.pending p) j)
            (is_running (abandon p.pending p) j)
            (has_result (abandon p.pending p) j)
          ≡ true
    at j =
        rw
          (pending-abandon p.pending p, tasks-abandon p.pending p, has_result-abandon j p.pending p)
          (ground (arith, i.1 j))

pub launch_as-IsExclusive :
    (s : WorkflowStep) (p : Progress) (v : Thrown EngineError Verdict)
    → is_pending p s.id ≡ true
    → IsExclusive p
    → IsExclusive (launched (launch_as s p v))
unfolding launch_as
launch_as-IsExclusive s p (throw e) h i = (
  Distinct-ids-filter _ p.pending i.0,
  λ j. ground (arith, i.1 j, has-drop_step s.id j p.pending),
)
launch_as-IsExclusive s p (ok eligible) h i = start-IsExclusive s p h i
launch_as-IsExclusive s p (ok (ineligible reason t)) h i = skip-IsExclusive s reason t p h i

module _ (json : Value → String) (x : Execution) where
  initial-IsExclusive : IsExclusive (initial x)
  unfolding initial has lookup
  initial-IsExclusive = (initial-Distinct x, λ j. ground arith)

  pub IsExclusive-kept : Kept json x IsExclusive
  IsExclusive-kept = record {
    by_pass = λ p i.
        launch_all-keeps x IsExclusive
          (λ s q r k. launch_as-IsExclusive s q (is_eligible x q s) r.0 k) (to_launch x p) p
          (to_launch-Distinct x p i.0) (to_launch-Ready x p) i;
    by_abandon = abandon-IsExclusive;
    by_complete = λ task attempts started finished r p m ran i.
        complete-IsExclusive task r p (has-ids_mem task p.tasks m) i;
    by_rejection = λ id p i. (i.0, λ j. ground (arith, i.1 j, has-drop_step id j p.tasks));
    by_retire = λ id p i. i;
  }

  -- However the tasks interleave, a step is at no moment two of these: pending, running, or with
  -- its result.
  pub Reachable-IsExclusive : (st : EngineState) → Reachable json x st → IsExclusive st.progress
  Reachable-IsExclusive = Reachable-kept x IsExclusive-kept initial-IsExclusive
