-- ===== src/StepEngine/Endings.antt =====
-- packages/workflow/src/engine.ts: `runStep` ends, and what its result says of the step.
use ai_orchestration.Prelude.{
  ℕ, zero, suc, ◌+◌, ◌<◌, ◌≤◌, arith, String, Bool, ◌≡◌, refl, sym, ap, ◌⊎◌, inl, inr, Option, none,
  some, leb, Bool-cases, Option-cases, Thrown, ok, throw, Thrown-cases, ok-injective,
}
use mathlib.Core.Option.{some-injective}
use ai_orchestration.Value.{Value, Fields, end}
use ai_orchestration.Workflow.{WorkflowStep, StepResult, StepStatus}
use ai_orchestration.StepExpr.Tokens.{ExpressionError}
use ai_orchestration.StepEngine.Interpolate.{interpolate_step}
use ai_orchestration.StepEngine.Attempts.{
  succeeded, failed, Settlement, Attempt, Outcome, outcome, caught, awaited, max_attempts,
  attempt_from, run_step, succeeds, gives_up, after_failure, finish_attempt, in_time, timed_out,
  throws, resolves, rejects, hangs,
}
use ai_orchestration.StepEngine.Retries.{after_failure-cases}

-- The await of a step with a timeout ends, whatever the executor does.
awaited-ends :
    (step : WorkflowStep) (ms : ℕ) (s : Settlement)
    → step.timeout_ms ≡ some ms
    → (o : Outcome) × (awaited step s ≡ some o)
unfolding awaited
awaited-ends step ms (throws message) e = (caught message, rw (e, awaited) refl)
awaited-ends step ms hangs e = (timed_out step ms, rw (e, awaited) refl)
awaited-ends step ms (resolves after f r) e = elim (Bool-cases (in_time ms (resolves after f r))) [
  | inl h ↦ (outcome r, rw (e, awaited, h) refl)
  | inr h ↦ (timed_out step ms, rw (e, awaited, h) refl)
]
awaited-ends step ms (rejects after f m) e = elim (Bool-cases (in_time ms (rejects after f m))) [
  | inl h ↦ (caught m, rw (e, awaited, h) refl)
  | inr h ↦ (timed_out step ms, rw (e, awaited, h) refl)
]

after_failure-holds :
    (P : Option (Thrown ExpressionError StepResult) → Type 0) (a : Attempt) (is_last : Bool)
    (result : StepResult) (rest : Option (Thrown ExpressionError StepResult))
    → P (some (ok result))
    → P rest
    → P (after_failure a is_last result rest)
after_failure-holds P a is_last result rest now later = elim (Bool-cases a.aborted) [
  | inl e ↦ rw e now
  | inr e ↦ elim (Bool-cases is_last) [
    | inl l ↦ rw (e, l) now
    | inr l ↦ elim (Bool-cases a.aborted_in_pause) [
      | inl q ↦ rw (e, l, q) now
      | inr q ↦ rw (e, l, q) later
    ]
  ]
]

module _ (json : Value → String) (step : WorkflowStep) (attempts : ℕ → Attempt)
    (started finished : ℕ) where
  -- A result is returned; or the interpolation of the step throws, in one of `left` attempts from
  -- `n` on, and its error is thrown.
  abbrev pub Settles : (n left : ℕ) → Option (Thrown ExpressionError StepResult) → Type 0
  Settles n left o =
      ((r : StepResult) × (o ≡ some (ok r)))
      ⊎ ((m : ℕ) × (e : ExpressionError) × (n ≤ m)
          × (m < n + left)
          × (interpolate_step json (attempts m).context step ≡ throw e)
          × (o ≡ some (throw e)))

  Settles-later :
      (n left : ℕ) (o : Option (Thrown ExpressionError StepResult))
      → Settles (suc n) left o
      → Settles n (suc left) o
  Settles-later n left o (inl r) = inl r
  Settles-later n left o (inr (m, e, low, high, thrown, eq)) =
      inr (m, e, omega (arith, low), omega (arith, high), thrown, eq)

  finish_attempt-holds :
      (P : Option (Thrown ExpressionError StepResult) → Type 0) (a : Attempt) (is_last : Bool)
      (outputs : Fields) (o : Outcome)
      (rest : Option String → Fields → Option (Thrown ExpressionError StepResult))
      → ((r : StepResult) → P (some (ok r)))
      → ((error : Option String) (given : Fields) → P (rest error given))
      → P (finish_attempt json step attempts started finished a is_last outputs o rest)
  unfolding finish_attempt
  finish_attempt-holds P a l outputs (outcome (succeeded given)) rest now later = now _
  finish_attempt-holds P a l outputs (outcome (failed given message)) rest now later =
      after_failure-holds P a l _ _ (now _) (later message _)
  finish_attempt-holds P a l outputs (caught message) rest now later =
      after_failure-holds P a l _ _ (now _) (later (some message) outputs)

  attempt_from-Settles :
      (ms : ℕ)
      → step.timeout_ms ≡ some ms
      → (left n : ℕ) (error : Option String) (outputs : Fields)
      → Settles n left (attempt_from json step attempts started finished left n error outputs)
  unfolding attempt_from
  attempt_from-Settles ms e zero n error outputs = inl (_, refl)
  attempt_from-Settles ms e (suc left) n error outputs =
      elim (Thrown-cases (interpolate_step json (attempts n).context step)) [
        | inl (x, thrown) ↦
            inr (n, x, omega arith, omega arith, thrown, rw (thrown, attempt_from) refl)
        | inr (ready, i) ↦
            let (o, w) = awaited-ends step ms ((attempts n).executor ready) e in
            rw (i, w, attempt_from)
              (finish_attempt-holds (Settles n (suc left)) (attempts n) (leb left 0) outputs o _
                (λ r. inl (r, refl))
                (λ message given.
                  Settles-later n left _ (attempt_from-Settles ms e left (suc n) message given)))
      ]

  -- The promise of a step with a timeout settles, even when its executor never does: `runStep`
  -- returns a result, or throws the error that the interpolation of the step throws in one of the
  -- attempts allowed.
  pub run_step-Settles :
      (ms : ℕ)
      → step.timeout_ms ≡ some ms
      → Settles 1 (max_attempts step) (run_step json step attempts started finished)
  unfolding run_step
  run_step-Settles ms e = attempt_from-Settles ms e (max_attempts step) 1 none end

  -- The two results that the function builds.
  abbrev Built : StepResult → Type 0
  Built r =
      ((given : Option Fields) × (r ≡ succeeds json step attempts started finished given))
      ⊎ ((error : Option String) × (outputs : Fields) × (r
            ≡ gives_up json step attempts started finished error outputs))

  after_failure-Built :
      (a : Attempt) (is_last : Bool) (error : Option String) (outputs : Fields) (r : StepResult)
      (rest : Option (Thrown ExpressionError StepResult))
      → (rest ≡ some (ok r) → Built r)
      → after_failure a is_last (gives_up json step attempts started finished error outputs) rest
        ≡ some (ok r)
      → Built r
  after_failure-Built a is_last error outputs r rest k h =
      elim (after_failure-cases a is_last _ rest (ok r) h) [
        | inl q ↦ inr (error, outputs, sym (ok-injective q))
        | inr (_, _, called) ↦ k called
      ]

  finish_attempt-Built :
      (a : Attempt) (is_last : Bool) (outputs : Fields) (o : Outcome) (r : StepResult)
      (rest : Option String → Fields → Option (Thrown ExpressionError StepResult))
      → ((error : Option String) (given : Fields) → rest error given ≡ some (ok r) → Built r)
      → finish_attempt json step attempts started finished a is_last outputs o rest ≡ some (ok r)
      → Built r
  unfolding finish_attempt
  finish_attempt-Built a l outputs (outcome (succeeded given)) r rest k h =
      inl (given, sym (ok-injective (some-injective _ _ h)))
  finish_attempt-Built a l outputs (outcome (failed given message)) r rest k h =
      after_failure-Built a l message _ r _ (k message _) h
  finish_attempt-Built a l outputs (caught message) r rest k h =
      after_failure-Built a l (some message) outputs r _ (k (some message) outputs) h

  attempt_from-Built :
      (left n : ℕ) (error : Option String) (outputs : Fields) (r : StepResult)
      → attempt_from json step attempts started finished left n error outputs ≡ some (ok r)
      → Built r
  unfolding attempt_from
  attempt_from-Built zero n error outputs r h =
      inr (error, outputs, sym (ok-injective (some-injective _ _ h)))
  attempt_from-Built (suc left) n error outputs r h =
      elim (Thrown-cases (interpolate_step json (attempts n).context step)) [
        | inl (e, eq) ↦ absurd (thrown e (rw (eq, attempt_from) at h))
        | inr (ready, eq) ↦ elim (Option-cases (awaited step ((attempts n).executor ready))) [
          | inl hang ↦ absurd (hung (rw (eq, hang, attempt_from) at h))
          | inr (o, ends) ↦
              finish_attempt-Built (attempts n) (leb left 0) outputs o r _
                (λ message given called. attempt_from-Built left (suc n) message given r called)
                (rw (eq, ends, attempt_from) at h)
        ]
      ]
    where
      thrown :
          (e : ExpressionError)
          → ◌≡◌ {A = Option (Thrown ExpressionError StepResult)} (some (throw e)) (some (ok r))
          → ⊥
      thrown e q = cc

      hung : ◌≡◌ {A = Option (Thrown ExpressionError StepResult)} none (some (ok r)) → ⊥
      hung q = cc

  -- A result of `runStep` is the step's own, and a success or a failure.
  pub run_step-status :
      (r : StepResult)
      → run_step json step attempts started finished ≡ some (ok r)
      → (r.step_id ≡ step.id) × ((r.status ≡ StepStatus.succeeded) ⊎ (r.status ≡ StepStatus.failed))
  unfolding run_step succeeds gives_up
  run_step-status r h = elim (attempt_from-Built (max_attempts step) 1 none end r h) [
    | inl (given, e) ↦
        (ap (λ (z : StepResult). z.step_id) e, inl (ap (λ (z : StepResult). z.status) e))
    | inr (error, outputs, e) ↦
        (ap (λ (z : StepResult). z.step_id) e, inr (ap (λ (z : StepResult). z.status) e))
  ]
