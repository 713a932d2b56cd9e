-- ===== src/StepEngine/Bounds.antt =====
-- packages/workflow/src/engine.ts: `context.concurrency` bounds the steps that run at once.
use ai_orchestration.Prelude.{
  ℕ, zero, suc, ◌+◌, ◌-◌, ◌≤◌, String, ◌≡◌, refl, Option, none, some, List, [], ◌∷◌, length,
  length-append, filter, sym, subst, Option-cases, inl, inr, Thrown, ok, throw, arith,
}
use ai_orchestration.Prelude.Names.{add, remove}
use ai_orchestration.Value.{Value}
use ai_orchestration.Workflow.{WorkflowStep}
use ai_orchestration.StepEngine.State.{
  Execution, Progress, initial, concurrency_limit, deps_settled, eligible, ineligible, Verdict,
  EngineError, is_eligible,
}
use ai_orchestration.StepEngine.Pass.{
  Launched, go, stop, launch_as, launch, launch_all, abandon, to_launch, within, take,
}
use ai_orchestration.StepEngine.Machine.{complete, EngineState, Reachable}
use ai_orchestration.StepEngine.Launching.{launched}
use ai_orchestration.StepEngine.Kept.{Kept, Reachable-kept}

pub length-add : (a : String) (xs : List String) → length (add a xs) ≤ suc (length xs)
unfolding add
length-add a xs = ground (arith, length-append xs (a ∷ []))

pub length-remove : (a : String) (xs : List String) → length (remove a xs) ≤ length xs
unfolding remove
length-remove a [] = ground arith
length-remove a (x ∷ xs) = ground (arith, length-remove a xs)

length-take : {A : Type 0} (n : ℕ) (xs : List A) → length (take n xs) ≤ n
length-take zero xs = omega arith
length-take (suc n) [] = omega arith
length-take (suc n) (x ∷ xs) = omega (arith, length-take n xs)

-- A launch adds one task at most.
launch_as-in_flight :
    (s : WorkflowStep) (p : Progress) (v : Thrown EngineError Verdict)
    → length (launched (launch_as s p v)).in_flight ≤ suc (length p.in_flight)
unfolding launch_as
launch_as-in_flight s p (throw e) = omega arith
launch_as-in_flight s p (ok eligible) = length-add s.id p.in_flight
launch_as-in_flight s p (ok (ineligible reason t)) = omega arith

module _ (x : Execution) where
  launch_all-in_flight :
      (ss : List WorkflowStep) (p : Progress)
      → length (launched (launch_all x ss p)).in_flight ≤ length p.in_flight + length ss
  unfolding launch_all launch
  launch_all-in_flight [] p = omega arith
  launch_all-in_flight (s ∷ ss) p =
      onwards (launch_as s p (is_eligible x p s)) (launch_as-in_flight s p (is_eligible x p s))
        (λ q. launch_all-in_flight ss q)
    where
      onwards :
          (l : Launched)
          → length (launched l).in_flight ≤ suc (length p.in_flight)
          → ((q : Progress)
              → length (launched (launch_all x ss q)).in_flight ≤ length q.in_flight + length ss)
          → length (launched (elim l [ go q ↦ launch_all x ss q | stop q e ↦ stop q e ])).in_flight
            ≤ length p.in_flight + suc (length ss)
      onwards (go q) h k = omega (arith, h, k q)
      onwards (stop q e) h k = omega (arith, h)

pub in_flight-abandon :
    (ss : List WorkflowStep) (p : Progress) → (abandon ss p).in_flight ≡ p.in_flight
unfolding abandon
in_flight-abandon [] p = refl
in_flight-abandon (s ∷ ss) p = in_flight-abandon ss _

-- No more tasks are in flight than the limit, where there is one.
abbrev pub IsWithin : Option ℕ → ℕ → Type 0
IsWithin none n = Unit
IsWithin (some limit) n = n ≤ limit

module _ (json : Value → String) (x : Execution) where
  abbrev IsBounded : Progress → Type 0
  IsBounded p = IsWithin (concurrency_limit x) (length p.in_flight)

  to_launch-length :
      (p : Progress) (limit : ℕ)
      → concurrency_limit x ≡ some limit
      → length (to_launch x p) ≤ limit - length p.in_flight
  unfolding to_launch
  to_launch-length p limit e =
      rw (e, within)
        (length-take (limit - length p.in_flight) (filter (deps_settled p.results) p.pending))

  pass-IsBounded :
      (p : Progress) → IsBounded p → IsBounded (launched (launch_all x (to_launch x p) p))
  pass-IsBounded p h = elim (Option-cases (concurrency_limit x)) [
    | inl e ↦ rw e tt
    | inr (limit, e) ↦ rw e (
        omega (
          arith,
          unfolded limit e,
          to_launch-length p limit e,
          launch_all-in_flight x (to_launch x p) p,
        ))
  ]
    where
      unfolded : (limit : ℕ) → concurrency_limit x ≡ some limit → length p.in_flight ≤ limit
      unfolded limit e = rw e at h

  IsBounded-kept : Kept json x IsBounded
  unfolding complete
  IsBounded-kept = record {
    by_pass = pass-IsBounded;
    by_abandon = λ p h.
        subst (λ (xs : List String). IsWithin (concurrency_limit x) (length xs))
          (sym (in_flight-abandon p.pending p)) h;
    by_complete = λ task attempts started finished r p m ran h. h;
    by_rejection = λ id p h. h;
    by_retire = λ id p h. shorter (concurrency_limit x) (length-remove id p.in_flight) h;
  }
    where
      shorter : {m n : ℕ} (limit : Option ℕ) → m ≤ n → IsWithin limit n → IsWithin limit m
      shorter none le h = tt
      shorter (some limit) le h = omega (arith, le, h)

  initial-IsBounded : IsBounded (initial x)
  unfolding initial
  initial-IsBounded = none_yet (concurrency_limit x)
    where
      none_yet : (limit : Option ℕ) → IsWithin limit 0
      none_yet none = tt
      none_yet (some limit) = omega arith

  -- Where the context sets a concurrency above zero, the tasks in flight are never more than it.
  pub Reachable-IsWithin :
      (st : EngineState)
      → Reachable json x st
      → IsWithin (concurrency_limit x) (length st.progress.in_flight)
  Reachable-IsWithin = Reachable-kept x IsBounded-kept initial-IsBounded
