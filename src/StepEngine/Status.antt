-- ===== src/StepEngine/Status.antt =====
-- packages/workflow/src/engine.ts: the status of the workflow, by how its terminal steps ended.

use mathlib.Core.List.{Memᴰ}
use mathlib.Core.Option.{some-injective}
use ai_orchestration.Prelude.{
  String, Bool, true, false, not, ◌≡◌, refl, sym, subst, ◌∙◌, ◌⊎◌, ◌↔◌, inl, inr, some, List, [],
  ◌∷◌, All, any, any-mem, mem-any, filter, mem-filter, filter-mem, if◌then◌else◌, str_eq,
  Bool-cases, Option-cases, Thrown, ok, throw, arith,
}
use ai_orchestration.Prelude.Dict.{Dict, lookup, insert}
use ai_orchestration.Prelude.Names.{has, add}
use ai_orchestration.Value.{Value}
use ai_orchestration.Workflow.{WorkflowStep, WorkflowDefinition, StepResult, StepStatus}
use ai_orchestration.StepEngine.State.{
  Execution, Progress, initial, eligible, ineligible, Verdict, EngineError, is_eligible,
  WorkflowRunStatus, WorkflowResult, forgives,
}
use ai_orchestration.StepEngine.Pass.{
  launch_as, skipped_result, abandon, to_launch, compute_status, ended_badly, is_depended_on,
  result_with,
}
use ai_orchestration.StepEngine.Machine.{complete, EngineState, Reachable, returned}
use ai_orchestration.StepEngine.Ids.{ids, Distinct, Distinct-ids-filter}
use ai_orchestration.StepEngine.Launching.{
  launched, launch_all-keeps, to_launch-Ready, to_launch-Distinct,
}
use ai_orchestration.StepEngine.Kept.{Kept, Reachable-kept}
use ai_orchestration.StepEngine.Initial.{initial-Distinct}
use ai_orchestration.StepEngine.Endings.{run_step-status}
use ai_orchestration.StepEngine.Returned.{returned-EndedAs}

-- A result is of a step that ended.
abbrev IsFinal : StepStatus → Type 0
IsFinal s = (s ≡ StepStatus.succeeded) ⊎ ((s ≡ StepStatus.failed) ⊎ (s ≡ StepStatus.skipped))

abbrev AllFinal : Dict StepResult → Type 0
AllFinal m = All (λ (entry : String × StepResult). IsFinal entry.1.status) m

AllFinal-insert :
    (k : String) (r : StepResult) (m : Dict StepResult)
    → IsFinal r.status
    → AllFinal m
    → AllFinal (insert k r m)
unfolding insert
AllFinal-insert k r [] f h = (f, tt)
AllFinal-insert k r ((j, q) ∷ m) f h = elim (Bool-cases (str_eq j k)) [
  | inl e ↦ rw e (f, h.1)
  | inr e ↦ rw e (h.0, AllFinal-insert k r m f h.1)
]

lookup-AllFinal :
    (k : String) (r : StepResult) (m : Dict StepResult)
    → AllFinal m
    → lookup k m ≡ some r
    → IsFinal r.status
unfolding lookup
lookup-AllFinal k r [] h e = cc
lookup-AllFinal k r ((j, q) ∷ m) h e = elim (Bool-cases (str_eq j k)) [
  | inl s ↦ subst (λ (z : StepResult). IsFinal z.status) (some-injective q r (rw s at e)) h.0
  | inr s ↦ lookup-AllFinal k r m h.1 (rw s at e)
]

abbrev HasFinal : Progress → Type 0
HasFinal p = Distinct (ids p.pending) × AllFinal p.results

launch_as-HasFinal :
    (s : WorkflowStep) (p : Progress) (v : Thrown EngineError Verdict)
    → HasFinal p
    → HasFinal (launched (launch_as s p v))
unfolding launch_as
launch_as-HasFinal s p (throw e) i = (Distinct-ids-filter _ p.pending i.0, i.1)
launch_as-HasFinal s p (ok eligible) i = (Distinct-ids-filter _ p.pending i.0, i.1)
launch_as-HasFinal s p (ok (ineligible reason t)) i = (
  Distinct-ids-filter _ p.pending i.0,
  AllFinal-insert s.id (skipped_result s.id reason) p.results (inr (inr refl)) i.1,
)

abandon-HasFinal : (ss : List WorkflowStep) (p : Progress) → HasFinal p → HasFinal (abandon ss p)
unfolding abandon
abandon-HasFinal [] p i = (tt, i.1)
abandon-HasFinal (s ∷ ss) p i =
    let result = skipped_result s.id "unresolved dependency graph" in
    abandon-HasFinal ss
      (record p { results = insert s.id result p.results; tainted = add s.id p.tainted })
      (i.0, AllFinal-insert s.id result p.results (inr (inr refl)) i.1)

module _ (json : Value → String) (x : Execution) where
  HasFinal-kept : Kept json x HasFinal
  unfolding complete
  HasFinal-kept = record {
    by_pass = λ p i.
        launch_all-keeps x HasFinal (λ s q r k. launch_as-HasFinal s q (is_eligible x q s) k)
          (to_launch x p) p (to_launch-Distinct x p i.0) (to_launch-Ready x p) i;
    by_abandon = λ p i. abandon-HasFinal p.pending p i;
    by_complete = λ task attempts started finished r p m ran i. (
      i.0,
      AllFinal-insert task.id r p.results
          (elim (run_step-status json task attempts started finished r ran).1 [
            | inl e ↦ inl e
            | inr e ↦ inr (inl e)
          ])
          i.1,
    );
    by_rejection = λ id p i. i;
    by_retire = λ id p i. i;
  }

  initial-HasFinal : HasFinal (initial x)
  unfolding initial
  initial-HasFinal = (initial-Distinct x, tt)

-- The ends of a terminal step that a successful workflow allows.
abbrev pub EndedWell : Dict StepResult → List String → WorkflowStep → Type 0
EndedWell results tainted step =
    (r : StepResult) × (lookup step.id results ≡ some r)
    × ((r.status ≡ StepStatus.succeeded)
        ⊎ (((r.status ≡ StepStatus.skipped) × (has step.id tainted ≡ false))
            ⊎ ((r.status ≡ StepStatus.failed) × (forgives step ≡ true))))

EndedWell-ended_badly :
    (results : Dict StepResult) (tainted : List String) (step : WorkflowStep)
    → EndedWell results tainted step
    → ended_badly results tainted step ≡ false
unfolding ended_badly
EndedWell-ended_badly results tainted step (r, e, inl s) = rw (e, s, ended_badly) refl
EndedWell-ended_badly results tainted step (r, e, inr (inl (s, t))) = rw (e, s, t, ended_badly) refl
EndedWell-ended_badly results tainted step (r, e, inr (inr (s, f))) = rw (e, s, f, ended_badly) refl

ended_badly-EndedWell :
    (results : Dict StepResult) (tainted : List String) (step : WorkflowStep)
    → AllFinal results
    → ended_badly results tainted step ≡ false
    → EndedWell results tainted step
unfolding ended_badly
ended_badly-EndedWell results tainted step all h = elim (Option-cases (lookup step.id results)) [
  | inl e ↦ absurd (clash (rw (e, ended_badly) at h))
  | inr (r, e) ↦ elim (lookup-AllFinal step.id r results all e) [
    | inl s ↦ (r, e, inl s)
    | inr (inl s) ↦ (r, e, inr (inr (s, ground (arith, rw (e, s, ended_badly) at h))))
    | inr (inr s) ↦ (r, e, inr (inl (s, ground (arith, rw (e, s, ended_badly) at h))))
  ]
]
  where
    clash : true ≡ false → ⊥
    clash e = cc

-- Every step of the definition on which no step depends.
abbrev pub TerminalsEndedWell : WorkflowDefinition → Dict StepResult → List String → Type 0
TerminalsEndedWell definition results tainted =
    (step : WorkflowStep)
    → Memᴰ step definition.steps
    → is_depended_on definition step.id ≡ false
    → EndedWell results tainted step

compute_status-succeeded_iff :
    (definition : WorkflowDefinition) (results : Dict StepResult) (tainted : List String)
    → AllFinal results
    → (compute_status definition results tainted ≡ WorkflowRunStatus.succeeded)
      ↔ TerminalsEndedWell definition results tainted
unfolding compute_status
compute_status-succeeded_iff definition results tainted all = (onto, back)
  where
    terminal : List WorkflowStep
    terminal = filter (λ (s : WorkflowStep). not (is_depended_on definition s.id)) definition.steps

    none_badly :
        (b : Bool)
        → (if b then WorkflowRunStatus.failed else WorkflowRunStatus.succeeded)
          ≡ WorkflowRunStatus.succeeded
        → b ≡ false
    none_badly true h = cc
    none_badly false h = refl

    onto :
        compute_status definition results tainted ≡ WorkflowRunStatus.succeeded
        → TerminalsEndedWell definition results tainted
    onto h step m t = ended_badly-EndedWell results tainted step all (
        ground (
          arith,
          none_badly (any (ended_badly results tainted) terminal) h,
          mem-any (ended_badly results tainted) terminal (
              filter-mem (λ (s : WorkflowStep). not (is_depended_on definition s.id))
                definition.steps m (ground (arith, t))),
        ))

    back :
        TerminalsEndedWell definition results tainted
        → compute_status definition results tainted ≡ WorkflowRunStatus.succeeded
    back h = elim (Bool-cases (any (ended_badly results tainted) terminal)) [
      | inr e ↦ rw (e, compute_status) refl
      | inl e ↦
          let (step, m, bad) = any-mem (ended_badly results tainted) terminal e in
          let (there, t) =
            mem-filter (λ (s : WorkflowStep). not (is_depended_on definition s.id)) definition.steps
              m in
          absurd (
            clash (
              sym bad
              ∙ EndedWell-ended_badly results tainted step (h step there (ground (arith, t)))))
    ]
      where
        clash : true ≡ false → ⊥
        clash e = cc

-- An execution that was not cancelled returns `succeeded` exactly when every step of the definition
-- on which no step depends has a result in the returned map that succeeded, or was skipped without
-- being tainted, or failed with its own `continueOnFailure`.
pub returned-succeeded_iff :
    (json : Value → String) (x : Execution) (st : EngineState) (w : WorkflowResult)
    → Reachable json x st
    → st.phase ≡ returned w
    → st.was_cancelled ≡ false
    → (w.status ≡ WorkflowRunStatus.succeeded)
      ↔ TerminalsEndedWell x.definition w.step_results st.progress.tainted
unfolding result_with
returned-succeeded_iff json x st w reached now live =
    elim (returned-EndedAs json x st w reached now) [
      | inl (_, _, e) ↦ rw e (
          compute_status-succeeded_iff x.definition st.progress.results st.progress.tainted
            (Reachable-kept x (HasFinal-kept json x) (initial-HasFinal json x) st reached).1)
      | inr (cancelled, _) ↦ absurd (clash (sym cancelled ∙ live))
    ]
  where
    clash : true ≡ false → ⊥
    clash e = cc
