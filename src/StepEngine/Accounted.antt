-- ===== src/StepEngine/Accounted.antt =====
-- packages/workflow/src/engine.ts: no step is lost while `execute` runs.
use ai_orchestration.Prelude.{
  String, Bool, true, false, ◌&&◌, ◌||◌, ◌≡◌, refl, Option, none, some, List, [], ◌∷◌, str_eq_iff,
  Bool-cases, inl, inr, Thrown, ok, throw, arith,
}
use ai_orchestration.Prelude.Dict.{lookup, lookup-insert}
use ai_orchestration.Prelude.Names.{has}
use ai_orchestration.Value.{Value}
use ai_orchestration.Workflow.{WorkflowStep, StepResult}
use ai_orchestration.StepExpr.Tokens.{ExpressionError}
use ai_orchestration.StepEngine.State.{
  Execution, Progress, eligible, ineligible, Verdict, EngineError, is_eligible,
}
use ai_orchestration.StepEngine.Pass.{
  Launched, go, stop, launch_as, launch, launch_all, skipped_result, abandon, to_launch, is_empty,
}
use ai_orchestration.StepEngine.Machine.{
  Phase, rejected, EngineState, start_state, complete, settle, retire, resume, after_launch,
  loop_round, end_cancelled, Step, loops, settles, retires, resumes, resumes_aborted, rejects,
  aborts, drains, Reachable, starts, steps,
}
use ai_orchestration.StepEngine.Ids.{ids, has-drop_step, has-ids_append_one}
use ai_orchestration.StepEngine.Initial.{has-initial}
use ai_orchestration.StepEngine.Exclusive.{
  is_pending, is_running, has_result, has_result-abandon, tasks-abandon, pending-abandon,
}

abbrev pub is_known : Progress → String → Bool
is_known p j = is_pending p j || (is_running p j || has_result p j)

abbrev pub is_rejected : Phase → Bool
is_rejected (rejected _) = true
is_rejected _ = false

abbrev ended_rejected : Option (Option ExpressionError) → Bool
ended_rejected (some (some e)) = true
ended_rejected _ = false

-- The task of the step was rejected.
abbrev pub was_rejected : EngineState → String → Bool
was_rejected st j = ended_rejected (lookup j st.settled)

-- After the launches: the step is known, or they stopped.
abbrev known_after : Launched → String → Bool
known_after (go q) j = is_known q j
known_after (stop q e) j = true

launch_as-known :
    (s : WorkflowStep) (p : Progress) (v : Thrown EngineError Verdict) (j : String)
    → is_known p j ≡ true
    → known_after (launch_as s p v) j ≡ true
unfolding launch_as
launch_as-known s p (throw e) j h = refl
launch_as-known s p (ok eligible) j h =
    ground
      (arith, h, has-drop_step s.id j p.pending, has-ids_append_one j p.tasks s, str_eq_iff s.id j)
launch_as-known s p (ok (ineligible reason t)) j h = ground (
  arith,
  h,
  has-drop_step s.id j p.pending,
  lookup-insert s.id j (skipped_result s.id reason) p.results,
  str_eq_iff s.id j,
)

launch_all-known :
    (x : Execution) (ss : List WorkflowStep) (p : Progress) (j : String)
    → is_known p j ≡ true
    → known_after (launch_all x ss p) j ≡ true
unfolding launch_all launch
launch_all-known x [] p j h = h
launch_all-known x (s ∷ ss) p j h =
    onwards (launch_as s p (is_eligible x p s)) (launch_as-known s p (is_eligible x p s) j h)
      (λ q k. launch_all-known x ss q j k)
  where
    onwards :
        (l : Launched)
        → known_after l j ≡ true
        → ((q : Progress) → is_known q j ≡ true → known_after (launch_all x ss q) j ≡ true)
        → known_after (elim l [ go q ↦ launch_all x ss q | stop q e ↦ stop q e ]) j ≡ true
    onwards (go q) h k = k q h
    onwards (stop q e) h k = refl

abandon-known :
    (p : Progress) (j : String) → is_known p j ≡ true → is_known (abandon p.pending p) j ≡ true
unfolding has
abandon-known p j h =
    rw (pending-abandon p.pending p, tasks-abandon p.pending p, has_result-abandon j p.pending p)
      (ground (arith, h))

-- The step is pending, runs, has its result or was rejected; or the execution was.
abbrev pub accounts_for : EngineState → String → Bool
accounts_for st j = is_rejected st.phase || (is_known st.progress j || was_rejected st j)

complete-known :
    (s : WorkflowStep) (r : StepResult) (p : Progress) (j : String)
    → is_known p j ≡ true
    → is_known (complete s r p) j ≡ true
unfolding complete
complete-known s r p j h =
    ground
      (arith, h, has-drop_step s.id j p.tasks, lookup-insert s.id j r p.results, str_eq_iff s.id j)

settle-accounts_for :
    (s : WorkflowStep) (ended : Thrown ExpressionError StepResult) (st : EngineState) (j : String)
    → accounts_for st j ≡ true
    → accounts_for (settle s ended st) j ≡ true
unfolding settle complete
settle-accounts_for s (ok r) st j h = ground (
  arith,
  h,
  complete-known s r st.progress j,
  lookup-insert s.id j r st.progress.results,
  lookup-insert s.id j none st.settled,
  str_eq_iff s.id j,
)
settle-accounts_for s (throw e) st j h = ground (
  arith,
  h,
  has-drop_step s.id j st.progress.tasks,
  lookup-insert s.id j (some e) st.settled,
  str_eq_iff s.id j,
)

module _ (json : Value → String) (x : Execution) where
  after_launch-accounts_for :
      (st : EngineState) (j : String) (l : Launched)
      → (is_known st.progress j ≡ true → known_after l j ≡ true)
      → (is_known st.progress j || was_rejected st j) ≡ true
      → accounts_for (after_launch x st l) j ≡ true
  unfolding after_launch
  after_launch-accounts_for st j (stop q e) k h = refl
  after_launch-accounts_for st j (go q) k h = ground (arith, h, k)

  loop_round-accounts_for :
      (st : EngineState) (j : String)
      → (is_known st.progress j || was_rejected st j) ≡ true
      → accounts_for (loop_round x st) j ≡ true
  unfolding loop_round
  loop_round-accounts_for st j h =
      elim (Bool-cases (is_empty st.progress.pending || st.was_cancelled)) [
        | inl e ↦ rw e (ground (arith, h))
        | inr e ↦
            elim (Bool-cases
              (is_empty (to_launch x st.progress) && is_empty st.progress.in_flight)) [
                | inl f ↦ rw (e, f) (ground (arith, h, abandon-known st.progress j))
                | inr f ↦
                    rw (e, f)
                      (after_launch-accounts_for st j
                        (launch_all x (to_launch x st.progress) st.progress)
                        (launch_all-known x (to_launch x st.progress) st.progress j) h)
              ]
      ]

  Step-accounts_for :
      (st next : EngineState) (j : String)
      → Step json x st next
      → accounts_for st j ≡ true
      → accounts_for next j ≡ true
  unfolding retire resume end_cancelled
  Step-accounts_for st _ j (loops _ now) h = loop_round-accounts_for st j (rw now at h)
  Step-accounts_for st _ j (settles _ task attempts started finished ended now m ran) h =
      settle-accounts_for task ended st j h
  Step-accounts_for st _ j (retires _ id now done there) h = h
  Step-accounts_for st _ j (resumes _ ws id now w s gone) h = rw now at h
  Step-accounts_for st _ j (resumes_aborted _ ws now a) h = rw now at h
  Step-accounts_for st _ j (rejects _ ws id e now w s gone) h = refl
  Step-accounts_for st _ j (aborts _ a) h = h
  Step-accounts_for st _ j (drains _ ws now all) h = rw now at h

  -- While `execute` has not been rejected, every step of the definition is pending, runs, has its
  -- result, or had its task rejected.
  pub Reachable-accounts_for :
      (st : EngineState) (step : WorkflowStep)
      → Reachable json x st
      → has step.id (ids x.definition.steps) ≡ true
      → accounts_for st step.id ≡ true
  unfolding start_state
  Reachable-accounts_for _ step (starts aborted) h = ground (arith, h, has-initial x step.id)
  Reachable-accounts_for _ step (steps st next r s) h =
      Step-accounts_for st next step.id s (Reachable-accounts_for st step r h)
