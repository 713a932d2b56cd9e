-- ===== src/StepEngine/Machine.antt =====
-- packages/workflow/src/engine.ts: `execute` among the tasks that it has started. Its code between
-- two awaits is one step; the other steps are those of a task that settles, of the `finally` that
-- takes it out of `inFlight`, and of the signal. Which of several settled tasks decides a race is
-- left open. The `finally` of a task is attached before any race, so it has run when the task
-- decides one.
use mathlib.Core.List.{Memᴰ}
use ai_orchestration.Prelude.{
  ℕ, String, Bool, true, false, not, ◌&&◌, ◌||◌, ◌≡◌, Option, none, some, List, [], ◌∷◌, ◌++◌,
  if◌then◌else◌, is_none, all, Thrown, ok, throw,
}
use ai_orchestration.Prelude.Dict.{Dict, lookup, insert}
use ai_orchestration.Prelude.Names.{has, add, remove}
use ai_orchestration.Value.{Value}
use ai_orchestration.Workflow.{WorkflowStep, StepResult}
use ai_orchestration.StepExpr.Tokens.{ExpressionError}
use ai_orchestration.StepExpr.Eval.{is_failed}
use ai_orchestration.StepEngine.Attempts.{Attempt, run_step}
use ai_orchestration.StepEngine.State.{
  step_completed, WorkflowResult, cancelled, EngineError, expression, Execution, Progress, initial,
  forgives,
}
use ai_orchestration.StepEngine.Pass.{
  is_empty, drop_step, go, stop, abandon, cancel_pending, compute_status, launch_all, to_launch,
  result_with, Launched,
}

-- Where the code of `execute` stands.
pub data Phase : Type 0 where
  -- At the head of the loop.
  looping : Phase
  -- At the race, of these tasks.
  awaiting : (waiters : List String) → Phase
  -- Behind the loop, for all of these tasks.
  draining : (waiters : List String) → Phase
  returned : WorkflowResult → Phase
  rejected : EngineError → Phase

pub record EngineState : Type 0 where
  pub progress : Progress
  -- How each task ended that has settled: with an error, when it was rejected.
  pub settled : Dict (Option ExpressionError)
  -- The signal, and the variable `cancelled`.
  pub aborted : Bool
  pub was_cancelled : Bool
  pub phase : Phase

unfoldable pub start_state : Execution → Bool → EngineState
unfolding initial
start_state x aborted = record {
  progress = initial x;
  settled = [];
  aborted = aborted;
  was_cancelled = aborted;
  phase = looping;
}

-- The `then` of a task, or its rejection.
unfoldable pub complete : WorkflowStep → StepResult → Progress → Progress
unfolding drop_step insert add
complete step r p = record p {
  tasks = drop_step step.id p.tasks;
  results = insert step.id r p.results;
  tainted = if is_failed r.status && not (forgives step) then add step.id p.tainted else p.tainted;
  events = p.events ++ step_completed step.id r.status ∷ [];
}

unfoldable pub settle : WorkflowStep → Thrown ExpressionError StepResult → EngineState → EngineState
unfolding drop_step complete insert
settle step (ok r) st = record st {
  progress = complete step r st.progress;
  settled = insert step.id none st.settled;
}
settle step (throw e) st = record st {
  progress = record st.progress { tasks = drop_step step.id st.progress.tasks };
  settled = insert step.id (some e) st.settled;
}

unfoldable pub retire : String → EngineState → EngineState
unfolding remove
retire id st = record st {
  progress = record st.progress { in_flight = remove id st.progress.in_flight };
}

-- `if (context.signal?.aborted) cancelled = true`
unfoldable pub resume : EngineState → EngineState
resume st = record st { was_cancelled = st.was_cancelled || st.aborted; phase = looping }

module _ (x : Execution) where
  unfoldable pub after_launch : EngineState → Launched → EngineState
  after_launch st (stop q e) = record st { progress = q; phase = rejected e }
  after_launch st (go q) = record st {
    progress = q;
    phase = if is_empty q.in_flight then looping else awaiting q.in_flight;
  }

  unfoldable pub loop_round : EngineState → EngineState
  unfolding compute_status result_with abandon to_launch launch_all after_launch
  loop_round st =
      let p = st.progress in
      if is_empty p.pending || st.was_cancelled
      then record st {
        phase =
            if st.was_cancelled
            then draining p.in_flight
            else returned
                (result_with x (compute_status x.definition p.results p.tainted) p.results);
      }
      else if is_empty (to_launch x p) && is_empty p.in_flight
      then record st { progress = abandon p.pending p }
      else after_launch st (launch_all x (to_launch x p) p)

  -- The results are those that `execute` returns.
  unfoldable pub end_cancelled : EngineState → EngineState
  unfolding cancel_pending result_with
  end_cancelled st = record st {
    phase =
        returned (result_with x cancelled (cancel_pending st.progress.pending st.progress.results));
  }

-- `execute` waits for its tasks.
abbrev pub is_suspended : Phase → Bool
is_suspended (awaiting _) = true
is_suspended (draining _) = true
is_suspended _ = false

-- It has ended.
abbrev pub is_over : Phase → Bool
is_over (returned _) = true
is_over (rejected _) = true
is_over _ = false

abbrev pub has_settled : Dict (Option ExpressionError) → String → Bool
has_settled settled id = not (is_none (lookup id settled))

pub data Step (json : Value → String) (x : Execution) : EngineState → EngineState → Type 0 where
  loops : (st : EngineState) → st.phase ≡ looping → Step json x st (loop_round x st)
  settles :
      (st : EngineState) (task : WorkflowStep) (attempts : ℕ → Attempt) (started finished : ℕ)
      (ended : Thrown ExpressionError StepResult)
      → is_suspended st.phase ≡ true
      → Memᴰ task st.progress.tasks
      → run_step json task attempts started finished ≡ some ended
      → Step json x st (settle task ended st)
  retires :
      (st : EngineState) (id : String)
      → is_suspended st.phase ≡ true
      → has_settled st.settled id ≡ true
      → has id st.progress.in_flight ≡ true
      → Step json x st (retire id st)
  resumes :
      (st : EngineState) (waiters : List String) (id : String)
      → st.phase ≡ awaiting waiters
      → has id waiters ≡ true
      → lookup id st.settled ≡ some none
      → has id st.progress.in_flight ≡ false
      → Step json x st (resume st)
  resumes_aborted :
      (st : EngineState) (waiters : List String)
      → st.phase ≡ awaiting waiters
      → st.aborted ≡ true
      → Step json x st (resume st)
  rejects :
      (st : EngineState) (waiters : List String) (id : String) (e : ExpressionError)
      → st.phase ≡ awaiting waiters
      → has id waiters ≡ true
      → lookup id st.settled ≡ some (some e)
      → has id st.progress.in_flight ≡ false
      → Step json x st (record st { phase = rejected (expression e) })
  aborts : (st : EngineState) → st.aborted ≡ false → Step json x st (record st { aborted = true })
  drains :
      (st : EngineState) (waiters : List String)
      → st.phase ≡ draining waiters
      → all (has_settled st.settled) waiters ≡ true
      → Step json x st (end_cancelled x st)

-- The states that an execution comes through.
pub data Reachable (json : Value → String) (x : Execution) : EngineState → Type 0 where
  starts : (aborted : Bool) → Reachable json x (start_state x aborted)
  steps :
      (st next : EngineState) → Reachable json x st → Step json x st next → Reachable json x next

-- The states that follow a state.
pub data Leads (json : Value → String) (x : Execution) (st : EngineState)
    : EngineState → Type 0 where
  here : Leads json x st st
  onwards :
      (middle next : EngineState)
      → Leads json x st middle
      → Step json x middle next
      → Leads json x st next
