-- ===== src/StepEngine/Returned.antt =====
-- packages/workflow/src/engine.ts: where the value that `execute` returns comes from.
use ai_orchestration.Prelude.{
  String, Bool, true, false, ◌&&◌, ◌||◌, ◌≡◌, refl, subst, ◌⊎◌, inl, inr, Bool-cases, ok, throw,
  arith,
}
use ai_orchestration.Value.{Value}
use ai_orchestration.StepEngine.State.{Execution, Progress, WorkflowResult, cancelled}
use ai_orchestration.StepEngine.Pass.{
  Launched, go, stop, is_empty, compute_status, cancel_pending, result_with, launch_all, to_launch,
}
use ai_orchestration.StepEngine.Machine.{
  Phase, looping, awaiting, draining, returned, rejected, EngineState, start_state, settle, retire,
  resume, after_launch, loop_round, end_cancelled, is_suspended, Step, loops, settles, retires,
  resumes, resumes_aborted, rejects, aborts, drains, Reachable, starts, steps,
}

module _ (json : Value → String) (x : Execution) where
  -- The computed status with the results there are, once nothing is pending; or, where the
  -- execution is cancelled, the results completed by those of the pending steps.
  abbrev pub EndedAs : Progress → Bool → WorkflowResult → Type 0
  EndedAs p was_cancelled w =
      ((was_cancelled ≡ false)
        × (is_empty p.pending ≡ true)
        × (w ≡ result_with x (compute_status x.definition p.results p.tainted) p.results))
      ⊎ ((was_cancelled ≡ true)
          × (w ≡ result_with x cancelled (cancel_pending p.pending p.results)))

  abbrev IsConsistent : Progress → Bool → Phase → Type 0
  IsConsistent p c (returned w) = EndedAs p c w
  IsConsistent p c (draining _) = c ≡ true
  IsConsistent p c _ = Unit

  suspended-IsConsistent :
      (p q : Progress) (c : Bool) (ph : Phase)
      → is_suspended ph ≡ true
      → IsConsistent p c ph
      → IsConsistent q c ph
  suspended-IsConsistent p q c looping e h = tt
  suspended-IsConsistent p q c (awaiting _) e h = tt
  suspended-IsConsistent p q c (draining _) e h = h
  suspended-IsConsistent p q c (returned _) e h = cc
  suspended-IsConsistent p q c (rejected _) e h = tt

  after_launch-IsConsistent :
      (st : EngineState) (l : Launched)
      → IsConsistent
          (after_launch x st l).progress
          (after_launch x st l).was_cancelled
          (after_launch x st l).phase
  unfolding after_launch
  after_launch-IsConsistent st (stop q e) = tt
  after_launch-IsConsistent st (go q) = elim (Bool-cases (is_empty q.in_flight)) [
    | inl e ↦ rw e tt
    | inr e ↦ rw e tt
  ]

  loop_round-IsConsistent :
      (st : EngineState)
      → st.phase ≡ looping
      → IsConsistent
          (loop_round x st).progress
          (loop_round x st).was_cancelled
          (loop_round x st).phase
  unfolding loop_round
  loop_round-IsConsistent st now =
      elim (Bool-cases (is_empty st.progress.pending || st.was_cancelled)) [
        | inl e ↦ elim (Bool-cases st.was_cancelled) [
          | inl c ↦ rw (e, c) refl
          | inr c ↦ rw (e, c) (inl (refl, ground (arith, e, c), refl))
        ]
        | inr e ↦
            elim (Bool-cases
              (is_empty (to_launch x st.progress) && is_empty st.progress.in_flight)) [
                | inl f ↦ rw (e, f, now) tt
                | inr f ↦
                    rw (e, f)
                      (after_launch-IsConsistent st
                        (launch_all x (to_launch x st.progress) st.progress))
              ]
      ]

  Step-IsConsistent :
      (st next : EngineState)
      → Step json x st next
      → IsConsistent st.progress st.was_cancelled st.phase
      → IsConsistent next.progress next.was_cancelled next.phase
  unfolding settle retire resume end_cancelled
  Step-IsConsistent st _ (loops _ now) h = loop_round-IsConsistent st now
  Step-IsConsistent st _ (settles _ task attempts started finished (ok r) now m ran) h =
      suspended-IsConsistent st.progress (settle task (ok r) st).progress st.was_cancelled st.phase
        now h
  Step-IsConsistent st _ (settles _ task attempts started finished (throw e) now m ran) h =
      suspended-IsConsistent st.progress (settle task (throw e) st).progress st.was_cancelled
        st.phase now h
  Step-IsConsistent st _ (retires _ id now done there) h =
      suspended-IsConsistent st.progress (retire id st).progress st.was_cancelled st.phase now h
  Step-IsConsistent st _ (resumes _ ws id now w s gone) h = tt
  Step-IsConsistent st _ (resumes_aborted _ ws now a) h = tt
  Step-IsConsistent st _ (rejects _ ws id e now w s gone) h = tt
  Step-IsConsistent st _ (aborts _ a) h = h
  Step-IsConsistent st _ (drains _ ws now all) h =
      inr (subst (λ ph. IsConsistent st.progress st.was_cancelled ph) now h, refl)

  Reachable-IsConsistent :
      (st : EngineState) → Reachable json x st → IsConsistent st.progress st.was_cancelled st.phase
  unfolding start_state
  Reachable-IsConsistent _ (starts aborted) = tt
  Reachable-IsConsistent _ (steps st next r s) =
      Step-IsConsistent st next s (Reachable-IsConsistent st r)

  pub returned-EndedAs :
      (st : EngineState) (w : WorkflowResult)
      → Reachable json x st
      → st.phase ≡ returned w
      → EndedAs st.progress st.was_cancelled w
  returned-EndedAs st w reached now =
      subst (λ ph. IsConsistent st.progress st.was_cancelled ph) now
        (Reachable-IsConsistent st reached)
