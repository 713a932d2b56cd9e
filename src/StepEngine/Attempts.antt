-- ===== src/StepEngine/Attempts.antt =====
-- packages/workflow/src/engine.ts: `runStep` and `waitForTimeout`. The executor, the clock and the
-- abort signal are the environment of a step: what each attempt meets is an `Attempt`.
use ai_orchestration.Prelude.{
  ℕ, zero, suc, String, Bool, true, false, Option, none, some, [], ◌∷◌, texts, ltb, leb, ◌==◌, ◌||◌,
  ◌&&◌, if◌then◌else◌, Thrown, ok, throw,
}
use ai_orchestration.Value.{Value, Fields, end}
use ai_orchestration.Workflow.{WorkflowStep, StepResult, StepStatus}
use ai_orchestration.StepExpr.Tokens.{ExpressionError}
use ai_orchestration.StepExpr.Eval.{ExpressionContext}
use ai_orchestration.StepExpr.Template.{decimal_text}
use ai_orchestration.StepEngine.Interpolate.{interpolate_step}

pub data StepExecutorResult : Type 0 where
  succeeded : (outputs : Option Fields) → StepExecutorResult
  failed : (outputs : Option Fields) (error : Option String) → StepExecutorResult

-- How the executor's promise settles, and after how many milliseconds, 0 if it does before any timer
-- fires; or never. A promise that settles when the timeout fires is first, or not. `throws` is a
-- call that throws before it returns a promise.
pub data Settlement : Type 0 where
  throws : (message : String) → Settlement
  resolves : (after : ℕ) (is_first : Bool) → StepExecutorResult → Settlement
  rejects : (after : ℕ) (is_first : Bool) (message : String) → Settlement
  hangs : Settlement

pub record Attempt : Type 0 where
  -- The engine's maps when the attempt starts.
  pub context : ExpressionContext
  -- What the executor does with the interpolated step.
  pub executor : WorkflowStep → Settlement
  -- `parentSignal.aborted` when the attempt is over, and after the pause behind it.
  pub aborted : Bool
  pub aborted_in_pause : Bool

-- The end of the `try` block: the outcome, or the message of what was thrown.
pub data Outcome : Type 0 where
  outcome : StepExecutorResult → Outcome
  caught : String → Outcome

unfoldable pub timed_out : WorkflowStep → ℕ → Outcome
unfolding decimal_text
timed_out step ms =
    caught (texts ("step '" ∷ step.id ∷ "' timed out after " ∷ decimal_text ms ∷ "ms" ∷ []))

abbrev pub as_outcome : Settlement → Option Outcome
as_outcome (throws message) = some (caught message)
as_outcome (resolves _ _ r) = some (outcome r)
as_outcome (rejects _ _ message) = some (caught message)
as_outcome hangs = none

-- Whether a promise that settles after some time does so before the timeout signal fires, which is
-- never before the tasks at hand are done.
abbrev pub wins : (ms after : ℕ) → Bool → Bool
wins ms after is_first = after == 0 || (ltb after ms || (after == ms && is_first))

abbrev pub in_time : ℕ → Settlement → Bool
in_time ms (throws _) = true
in_time ms (resolves after is_first _) = wins ms after is_first
in_time ms (rejects after is_first _) = wins ms after is_first
in_time ms hangs = false

-- The awaited promise: the executor's alone, or its race with the timeout. `none` when the await
-- never ends.
unfoldable pub awaited : WorkflowStep → Settlement → Option Outcome
unfolding timed_out
awaited step s = elim step.timeout_ms [
  | none ↦ as_outcome s
  | some ms ↦ if in_time ms s then as_outcome s else some (timed_out step ms)
]

abbrev pub or_no_outputs : Option Fields → Fields
or_no_outputs none = end
or_no_outputs (some f) = f

abbrev pub max_attempts : WorkflowStep → ℕ
max_attempts step = elim step.retry [ none ↦ 1 | some r ↦ r.max_attempts ]

-- What follows an attempt that did not succeed: the end, or the rest of the loop.
abbrev pub after_failure :
    Attempt
    → (is_last : Bool) → StepResult
    → Option (Thrown ExpressionError StepResult)
    → Option (Thrown ExpressionError StepResult)
after_failure a is_last result rest =
    if a.aborted
    then some (ok result)
    else if is_last
    then some (ok result)
    else if a.aborted_in_pause
    then some (ok result)
    else rest

module _ (json : Value → String) (step : WorkflowStep) (attempts : ℕ → Attempt)
    (started finished : ℕ) where
  -- The result behind the loop.
  unfoldable pub gives_up : Option String → Fields → StepResult
  gives_up error outputs = record {
    step_id = step.id;
    status = StepStatus.failed;
    outputs = outputs;
    error = error;
    started_at = some started;
    finished_at = some finished;
  }

  unfoldable pub succeeds : Option Fields → StepResult
  succeeds outputs = record {
    step_id = step.id;
    status = StepStatus.succeeded;
    outputs = or_no_outputs outputs;
    error = none;
    started_at = some started;
    finished_at = some finished;
  }

  -- What an attempt's outcome leads to. The loop goes on with `lastError` and `lastOutputs`.
  unfoldable pub finish_attempt :
      Attempt
      → (is_last : Bool) → Fields
      → Outcome
      → (Option String → Fields → Option (Thrown ExpressionError StepResult))
      → Option (Thrown ExpressionError StepResult)
  unfolding gives_up succeeds
  finish_attempt a is_last outputs (outcome (succeeded given)) rest = some (ok (succeeds given))
  finish_attempt a is_last outputs (outcome (failed given message)) rest =
      after_failure a is_last (gives_up message (or_no_outputs given))
        (rest message (or_no_outputs given))
  finish_attempt a is_last outputs (caught message) rest =
      after_failure a is_last (gives_up (some message) outputs) (rest (some message) outputs)

  -- The loop with `left` attempts to go. The interpolation stands in front of the `try` block, so
  -- what it throws leaves the function. `none` when it never returns.
  unfoldable pub attempt_from :
      (left attempt : ℕ) → Option String → Fields → Option (Thrown ExpressionError StepResult)
  unfolding interpolate_step awaited gives_up finish_attempt
  attempt_from zero attempt error outputs = some (ok (gives_up error outputs))
  attempt_from (suc left) attempt error outputs =
      let a = attempts attempt in
      elim (interpolate_step json a.context step) [
        | throw e ↦ some (throw e)
        | ok ready ↦ elim (awaited step (a.executor ready)) [
          | none ↦ none
          | some o ↦
              finish_attempt a (leb left 0) outputs o
                (λ message given. attempt_from left (suc attempt) message given)
        ]
      ]

  unfoldable pub run_step : Option (Thrown ExpressionError StepResult)
  unfolding attempt_from
  run_step = attempt_from (max_attempts step) 1 none end
