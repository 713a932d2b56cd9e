-- ===== src/StepEngine/Pass.antt =====
-- packages/workflow/src/engine.ts: one round of the loop of `execute`, and what follows the loop.
use ai_orchestration.Prelude.{
  ℕ, zero, suc, ◌-◌, String, Bool, true, false, not, ◌&&◌, ◌||◌, Option, none, some, List, [], ◌∷◌,
  ◌++◌, if◌then◌else◌, is_none, str_eq, length, any, filter, Thrown, ok, throw,
}
use ai_orchestration.Prelude.Dict.{Dict, lookup, insert}
use ai_orchestration.Prelude.Names.{has, add}
use ai_orchestration.Value.{end}
use ai_orchestration.Workflow.{
  WorkflowStep, WorkflowDefinition, WorkflowTransitions, StepResult, StepStatus,
}
use ai_orchestration.StepExpr.Eval.{is_failed, is_skipped}
use ai_orchestration.StepEngine.State.{
  step_started, step_skipped, WorkflowRunStatus, succeeded, failed, cancelled,
  WorkflowTransitionKind, success, failure, blocked, WorkflowResult, EngineError, Execution,
  Progress, dependencies, forgives, concurrency_limit, deps_settled, Verdict, eligible, ineligible,
  is_eligible,
}

abbrev pub is_empty {ℓ} : {A : Type ℓ} → List A → Bool
is_empty [] = true
is_empty (_ ∷ _) = false

abbrev pub take {ℓ} : {A : Type ℓ} → ℕ → List A → List A
take zero xs = []
take (suc n) [] = []
take (suc n) (x ∷ xs) = x ∷ take n xs

unfoldable pub drop_step : String → List WorkflowStep → List WorkflowStep
drop_step id steps = filter (λ s. not (str_eq s.id id)) steps

abbrev pub skipped_result : String → String → StepResult
skipped_result id reason = record {
  step_id = id;
  status = StepStatus.skipped;
  outputs = end;
  error = some reason;
  started_at = none;
  finished_at = none;
}

-- The launch of steps, up to the first whose `isEligible` throws.
pub data Launched : Type 0 where
  go : Progress → Launched
  stop : Progress → EngineError → Launched

unfoldable pub start : WorkflowStep → Progress → Progress
unfolding drop_step add
start step p = record p {
  pending = drop_step step.id p.pending;
  tasks = p.tasks ++ step ∷ [];
  in_flight = add step.id p.in_flight;
  events = p.events ++ step_started step.id ∷ [];
}

unfoldable pub skip : WorkflowStep → String → Bool → Progress → Progress
unfolding drop_step insert add
skip step reason is_tainted p = record p {
  pending = drop_step step.id p.pending;
  results = insert step.id (skipped_result step.id reason) p.results;
  tainted = if is_tainted then add step.id p.tainted else p.tainted;
  events = p.events ++ step_skipped step.id reason ∷ [];
}

unfoldable pub launch_as : WorkflowStep → Progress → Thrown EngineError Verdict → Launched
unfolding drop_step start skip
launch_as step p (throw e) = stop (record p { pending = drop_step step.id p.pending }) e
launch_as step p (ok eligible) = go (start step p)
launch_as step p (ok (ineligible reason is_tainted)) = go (skip step reason is_tainted p)

-- The remaining steps, without a result.
unfoldable pub abandon : List WorkflowStep → Progress → Progress
unfolding insert add
abandon [] p = record p { pending = [] }
abandon (s ∷ ss) p = abandon ss (record p {
  results = insert s.id (skipped_result s.id "unresolved dependency graph") p.results;
  tainted = add s.id p.tainted;
})

-- Behind the loop of a cancelled execution.
unfoldable pub cancel_pending : List WorkflowStep → Dict StepResult → Dict StepResult
unfolding lookup insert
cancel_pending [] results = results
cancel_pending (s ∷ ss) results =
    let next =
      if is_none (lookup s.id results)
      then insert s.id (skipped_result s.id "workflow cancelled") results
      else results in
    cancel_pending ss next

-- What ends the workflow badly, of a terminal step.
unfoldable pub ended_badly : Dict StepResult → List String → WorkflowStep → Bool
unfolding lookup has
ended_badly results tainted step = elim (lookup step.id results) [
  | none ↦ true
  | some r ↦
      (is_failed r.status && not (forgives step)) || (is_skipped r.status && has step.id tainted)
]

-- Some step depends on this one.
unfoldable pub is_depended_on : WorkflowDefinition → String → Bool
unfolding has
is_depended_on definition id = any (λ s. has id (dependencies s)) definition.steps

unfoldable pub compute_status :
    WorkflowDefinition → Dict StepResult → List String → WorkflowRunStatus
unfolding ended_badly is_depended_on
compute_status definition results tainted =
    let terminal = filter (λ s. not (is_depended_on definition s.id)) definition.steps in
    if any (ended_badly results tainted) terminal then failed else succeeded

abbrev pub transition_of : WorkflowRunStatus → WorkflowTransitionKind
transition_of succeeded = success
transition_of cancelled = blocked
transition_of failed = failure

abbrev pub target_of : WorkflowTransitionKind → WorkflowTransitions → Option String
target_of success t = t.success
target_of failure t = t.failure
target_of blocked t = t.blocked

module _ (x : Execution) where
  unfoldable pub launch : WorkflowStep → Progress → Launched
  unfolding launch_as is_eligible
  launch step p = launch_as step p (is_eligible x p step)

  unfoldable pub launch_all : List WorkflowStep → Progress → Launched
  unfolding launch
  launch_all [] p = go p
  launch_all (s ∷ ss) p = elim (launch s p) [ go q ↦ launch_all ss q | stop q e ↦ stop q e ]

  abbrev pub within {ℓ} : {A : Type ℓ} → ℕ → List A → List A
  within running steps = elim (concurrency_limit x) [
    | none ↦ steps
    | some n ↦ take (n - running) steps
  ]

  unfoldable pub to_launch : Progress → List WorkflowStep
  unfolding deps_settled
  to_launch p = within (length p.in_flight) (filter (deps_settled p.results) p.pending)

  unfoldable pub result_with : WorkflowRunStatus → Dict StepResult → WorkflowResult
  result_with status results = record {
    status = status;
    step_results = results;
    transition = transition_of status;
    transition_target = elim x.definition.transitions [
      | none ↦ none
      | some t ↦ target_of (transition_of status) t
    ];
  }
