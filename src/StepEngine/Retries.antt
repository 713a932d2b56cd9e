-- ===== src/StepEngine/Retries.antt =====
-- packages/workflow/src/engine.ts: what `runStep` returns, over all its attempts.
use ai_orchestration.Prelude.{
  ℕ, zero, suc, ◌+◌, ◌<◌, ◌≤◌, String, Bool, true, false, ◌≡◌, refl, sym, subst, ◌∙◌, ap, ◌⊎◌, ◌↔◌,
  inl, inr, Option, none, some, leb, ◌==◌, Bool-cases, Option-cases, Thrown, ok, throw,
  Thrown-cases, ok-injective, arith,
}
use mathlib.Core.Option.{some-injective}
use ai_orchestration.Value.{Value, Fields, end}
use ai_orchestration.Workflow.{WorkflowStep, StepResult, StepStatus}
use ai_orchestration.StepExpr.Tokens.{ExpressionError}
use ai_orchestration.StepEngine.Interpolate.{interpolate_step}
use ai_orchestration.StepEngine.Attempts.{
  succeeded, failed, Attempt, Outcome, outcome, caught, awaited, max_attempts, attempt_from,
  run_step, succeeds, gives_up, after_failure, finish_attempt,
}

abbrev pub is_failure : Outcome → Bool
is_failure (outcome (succeeded _)) = false
is_failure _ = true

-- The next attempt is made only where some are left and the signal has not fired.
pub after_failure-cases :
    (a : Attempt) (is_last : Bool) (result : StepResult)
    (rest : Option (Thrown ExpressionError StepResult)) (ended : Thrown ExpressionError StepResult)
    → after_failure a is_last result rest ≡ some ended
    → (ok result ≡ ended)
      ⊎ ((a.aborted ≡ false) × (a.aborted_in_pause ≡ false) × (rest ≡ some ended))
after_failure-cases a is_last result rest ended h = elim (Bool-cases a.aborted) [
  | inl e ↦ inl (some-injective (ok result) ended (rw e at h))
  | inr e ↦ elim (Bool-cases is_last) [
    | inl l ↦ inl (some-injective (ok result) ended (rw (e, l) at h))
    | inr l ↦ elim (Bool-cases a.aborted_in_pause) [
      | inl q ↦ inl (some-injective (ok result) ended (rw (e, l, q) at h))
      | inr q ↦ inr (e, q, rw (e, l, q) at h)
    ]
  ]
]

module _ (json : Value → String) (step : WorkflowStep) (attempts : ℕ → Attempt)
    (started finished : ℕ) where
  -- An attempt whose executor is called and succeeds.
  pub record SucceedsAt (n : ℕ) (outputs : Option Fields) : Type 0 where
    pub ready : WorkflowStep
    pub interpolated : interpolate_step json (attempts n).context step ≡ ok ready
    pub ends : awaited step ((attempts n).executor ready) ≡ some (outcome (succeeded outputs))

  -- An attempt that fails and that the next one follows.
  pub record RetriesAt (n : ℕ) : Type 0 where
    pub ready : WorkflowStep
    pub interpolated : interpolate_step json (attempts n).context step ≡ ok ready
    pub ended : Outcome
    pub ends : awaited step ((attempts n).executor ready) ≡ some ended
    pub fails : is_failure ended ≡ true
    pub is_alive : (attempts n).aborted ≡ false
    pub is_alive_in_pause : (attempts n).aborted_in_pause ≡ false

  -- Of `left` attempts from `n` on, one succeeds, and those in front of it fail.
  abbrev pub FirstSuccess : (n left : ℕ) → Option Fields → Type 0
  FirstSuccess n left outputs =
      (m : ℕ) × (n ≤ m)
      × (m < n + left)
      × SucceedsAt m outputs
      × ((i : ℕ) → n ≤ i → i < m → RetriesAt i)

  -- A success with the outputs that the executor gave, or none.
  abbrev pub success_with : Option Fields → StepResult
  success_with outputs = record {
    step_id = step.id;
    status = StepStatus.succeeded;
    outputs = elim outputs [ none ↦ end | some given ↦ given ];
    error = none;
    started_at = some started;
    finished_at = some finished;
  }

  -- The loop returns a success only so.
  abbrev pub Returns : (n left : ℕ) → StepResult → Type 0
  Returns n left r =
      (outputs : Option Fields) × FirstSuccess n left outputs × (r ≡ success_with outputs)

  later :
      (n left : ℕ) (r : StepResult) → RetriesAt n → Returns (suc n) left r → Returns n (suc left) r
  later n left r here (outputs, (m, low, high, found, before), e) =
      (outputs, (m, omega (arith, low), omega (arith, high), found, all), e)
    where
      all : (i : ℕ) → n ≤ i → i < m → RetriesAt i
      all i le lt = elim (Bool-cases (n == i)) [
        | inl same ↦ subst RetriesAt (ground (arith, same)) here
        | inr other ↦ before i (ground (arith, other, le)) lt
      ]

  given_up-status :
      (error : Option String) (outputs : Fields) (r : StepResult)
      → gives_up json step attempts started finished error outputs ≡ r
      → r.status ≡ StepStatus.succeeded
      → ⊥
  unfolding gives_up
  given_up-status error outputs r e s =
      let q : StepStatus.failed ≡ StepStatus.succeeded = ap (λ (z : StepResult). z.status) e ∙ s in
      cc

  retried :
      (n left : ℕ) (ready : WorkflowStep) (o : Outcome) (r : StepResult) (error : Option String)
      (given : Fields) (rest : Option (Thrown ExpressionError StepResult))
      → interpolate_step json (attempts n).context step ≡ ok ready
      → awaited step ((attempts n).executor ready) ≡ some o
      → is_failure o ≡ true
      → (rest ≡ some (ok r) → Returns (suc n) left r)
      → after_failure
          (attempts n)
          (leb left 0)
          (gives_up json step attempts started finished error given)
          rest
        ≡ some (ok r)
      → r.status ≡ StepStatus.succeeded
      → Returns n (suc left) r
  retried n left ready o r error given rest i w f k h s =
      elim (after_failure-cases (attempts n) (leb left 0) _ rest (ok r) h) [
        | inl q ↦ absurd (given_up-status error given r (ok-injective q) s)
        | inr (alive, alive_in_pause, called) ↦
            later n left r
              (record {
                ready = ready;
                interpolated = i;
                ended = o;
                ends = w;
                fails = f;
                is_alive = alive;
                is_alive_in_pause = alive_in_pause;
              })
              (k called)
      ]

  finish_attempt-Returns :
      (n left : ℕ) (ready : WorkflowStep) (outputs : Fields) (o : Outcome) (r : StepResult)
      (rest : Option String → Fields → Option (Thrown ExpressionError StepResult))
      → interpolate_step json (attempts n).context step ≡ ok ready
      → awaited step ((attempts n).executor ready) ≡ some o
      → ((error : Option String) (given : Fields)
          → rest error given ≡ some (ok r)
          → Returns (suc n) left r)
      → finish_attempt json step attempts started finished (attempts n) (leb left 0) outputs o rest
        ≡ some (ok r)
      → r.status ≡ StepStatus.succeeded
      → Returns n (suc left) r
  unfolding finish_attempt succeeds
  finish_attempt-Returns n left ready outputs (outcome (succeeded given)) r rest i w k h s = (
    given,
    (
      n,
      omega arith,
      omega arith,
      record { ready = ready; interpolated = i; ends = w },
      λ j le lt. absurd (omega (arith, le, lt)),
    ),
    sym (ok-injective (some-injective _ _ h)),
  )
  finish_attempt-Returns n left ready outputs (outcome (failed given message)) r rest i w k h s =
      retried n left ready _ r message _ (rest message _) i w refl (k message _) h s
  finish_attempt-Returns n left ready outputs (caught message) r rest i w k h s =
      retried n left ready _ r (some message) outputs (rest (some message) outputs) i w refl
        (k (some message) outputs) h s

  attempt_from-Returns :
      (left n : ℕ) (error : Option String) (outputs : Fields) (r : StepResult)
      → attempt_from json step attempts started finished left n error outputs ≡ some (ok r)
      → r.status ≡ StepStatus.succeeded
      → Returns n left r
  unfolding attempt_from
  attempt_from-Returns zero n error outputs r h s =
      absurd (given_up-status error outputs r (ok-injective (some-injective _ _ h)) s)
  attempt_from-Returns (suc left) n error outputs r h s =
      elim (Thrown-cases (interpolate_step json (attempts n).context step)) [
        | inl (e, eq) ↦ absurd (thrown e (rw (eq, attempt_from) at h))
        | inr (ready, eq) ↦ elim (Option-cases (awaited step ((attempts n).executor ready))) [
          | inl hang ↦ absurd (hung (rw (eq, hang, attempt_from) at h))
          | inr (o, ends) ↦
              finish_attempt-Returns n left ready outputs o r _ eq ends
                (λ error given called. attempt_from-Returns left (suc n) error given r called s)
                (rw (eq, ends, attempt_from) at h) s
        ]
      ]
    where
      thrown :
          (e : ExpressionError)
          → ◌≡◌ {A = Option (Thrown ExpressionError StepResult)} (some (throw e)) (some (ok r))
          → ⊥
      thrown e q = cc

      hung : ◌≡◌ {A = Option (Thrown ExpressionError StepResult)} none (some (ok r)) → ⊥
      hung q = cc

  -- A failure that the next attempt follows.
  after_failure-goes_on :
      (n left : ℕ) (result : StepResult) (rest : Option (Thrown ExpressionError StepResult))
      → (attempts n).aborted ≡ false
      → (attempts n).aborted_in_pause ≡ false
      → 0 < left
      → after_failure (attempts n) (leb left 0) result rest ≡ rest
  after_failure-goes_on n left result rest a q l = rw (a, last, q) refl
    where
      last : leb left 0 ≡ false
      last = ground (arith, l)

  attempt_from-retried :
      (n left : ℕ) (error : Option String) (outputs : Fields)
      (ended : Option (Thrown ExpressionError StepResult))
      → RetriesAt n
      → 0 < left
      → ((message : Option String) (given : Fields)
          → attempt_from json step attempts started finished left (suc n) message given ≡ ended)
      → attempt_from json step attempts started finished (suc left) n error outputs ≡ ended
  unfolding attempt_from finish_attempt
  attempt_from-retried n left error outputs ended t l k =
      rw (t.interpolated, t.ends, attempt_from) (by_outcome t.ended t.fails)
    where
      rest : Option String → Fields → Option (Thrown ExpressionError StepResult)
      rest message given =
          attempt_from json step attempts started finished left (suc n) message given

      by_outcome :
          (o : Outcome)
          → is_failure o ≡ true
          → finish_attempt json step attempts started finished
              (attempts n)
              (leb left 0)
              outputs
              o
              rest
            ≡ ended
      by_outcome (outcome (succeeded _)) f = cc
      by_outcome (outcome (failed given message)) f =
          after_failure-goes_on n left _ _ t.is_alive t.is_alive_in_pause l ∙ k message _
      by_outcome (caught message) f =
          after_failure-goes_on n left _ _ t.is_alive t.is_alive_in_pause l
          ∙ k (some message) outputs

  attempt_from-FirstSuccess :
      (left n : ℕ) (error : Option String) (outputs : Fields) (given : Option Fields)
      → FirstSuccess n left given
      → attempt_from json step attempts started finished left n error outputs
        ≡ some (ok (success_with given))
  unfolding attempt_from finish_attempt succeeds
  attempt_from-FirstSuccess zero n error outputs given (m, low, high, found, before) =
      absurd (omega (arith, low, high))
  attempt_from-FirstSuccess (suc left) n error outputs given (m, low, high, found, before) =
      elim (Bool-cases (n == m)) [
        | inl same ↦
            let back : m ≡ n = ground (arith, same) in
            let here = subst (λ i. SucceedsAt i given) back found in
            rw (here.interpolated, here.ends, attempt_from) refl
        | inr other ↦
            attempt_from-retried n left error outputs _
              (before n (omega arith) (ground (arith, other, low)))
              (ground (arith, other, low, high))
              (λ message rest. attempt_from-FirstSuccess left (suc n) message rest given (
                m,
                ground (arith, other, low),
                omega (arith, high),
                found,
                λ i le lt. before i (omega (arith, le)) lt,
              ))
      ]

  -- A step returns a success exactly when one of its attempts succeeds, the first by the number of
  -- attempts allowed, and each attempt in front of that one fails without the signal having fired.
  -- The result is a success of the step, without an error, with the
  -- outputs that the executor gave in that attempt, or with none when it gave none.
  pub run_step-succeeded_iff :
      (r : StepResult)
      → ((run_step json step attempts started finished ≡ some (ok r))
          × (r.status ≡ StepStatus.succeeded))
        ↔ Returns 1 (max_attempts step) r
  unfolding run_step succeeds
  run_step-succeeded_iff r = (
    λ h. attempt_from-Returns (max_attempts step) 1 none end r h.0 h.1,
    λ (given, first, e). (
      attempt_from-FirstSuccess (max_attempts step) 1 none end given first
          ∙ ap (λ z. some (ok z)) (sym e),
      ap (λ (z : StepResult). z.status) e,
    ),
  )
