-- ===== src/StepEngine/Termination.antt =====
-- packages/workflow/src/engine.ts: an execution takes finitely many steps.
use mathlib.Core.List.{Memᴰ}
use ai_orchestration.Prelude.{
  ℕ, ◌+◌, ◌≤◌, ◌<◌, String, Bool, true, false, ◌&&◌, ◌||◌, ◌≡◌, subst, List, [], ◌∷◌, length,
  Bool-cases, inl, inr, Thrown, ok, throw, arith,
}
use ai_orchestration.Prelude.Names.{has, remove}
use ai_orchestration.Value.{Value}
use ai_orchestration.Workflow.{WorkflowStep, StepResult}
use ai_orchestration.StepExpr.Tokens.{ExpressionError}
use ai_orchestration.StepEngine.State.{Execution, Progress, EngineError}
use ai_orchestration.StepEngine.Pass.{Launched, go, stop, is_empty, launch_all, to_launch, abandon}
use ai_orchestration.StepEngine.Machine.{
  Phase, looping, awaiting, draining, returned, rejected, EngineState, start_state, complete,
  settle, retire, resume, after_launch, loop_round, end_cancelled, is_suspended, Step, loops,
  settles, retires, resumes, resumes_aborted, rejects, aborts, drains, Reachable, starts, steps,
}
use ai_orchestration.StepEngine.Ids.{has-ids_mem}
use ai_orchestration.StepEngine.Launching.{launched, to_launch-Distinct, to_launch-Ready}
use ai_orchestration.StepEngine.Exclusive.{Reachable-IsExclusive, pending-abandon, tasks-abandon}
use ai_orchestration.StepEngine.Bounds.{in_flight-abandon}
use ai_orchestration.StepEngine.Sublists.{
  Sublist, Sublist-refl, Sublist-remove, Sublist-length, Sublist-missing, length-remove-has,
}
use ai_orchestration.StepEngine.Measure.{
  weight, phase_weight, load, length-drop_step, load-launch_all, at_least,
}

-- At a race, what is in flight is what is left of the tasks that race, and `cancelled` is not set.
abbrev IsWaiting : List String → Bool → Phase → Type 0
IsWaiting in_flight c (awaiting waiters) = (c ≡ false) × Sublist in_flight waiters
IsWaiting in_flight c _ = Unit

abbrev Waits : EngineState → Type 0
Waits st = IsWaiting st.progress.in_flight st.was_cancelled st.phase

after_launch-Waits :
    (x : Execution) (st : EngineState) (l : Launched)
    → st.was_cancelled ≡ false
    → Waits (after_launch x st l)
unfolding after_launch
after_launch-Waits x st (stop q e) c = tt
after_launch-Waits x st (go q) c = elim (Bool-cases (is_empty q.in_flight)) [
  | inl e ↦ rw e tt
  | inr e ↦ rw e (c, Sublist-refl q.in_flight)
]

loop_round-Waits : (x : Execution) (st : EngineState) → st.phase ≡ looping → Waits (loop_round x st)
unfolding loop_round
loop_round-Waits x st now = elim (Bool-cases (is_empty st.progress.pending || st.was_cancelled)) [
  | inl e ↦ elim (Bool-cases st.was_cancelled) [ inl c ↦ rw (e, c) tt | inr c ↦ rw (e, c) tt ]
  | inr e ↦
      elim (Bool-cases (is_empty (to_launch x st.progress) && is_empty st.progress.in_flight)) [
        | inl f ↦ rw (e, f, now) tt
        | inr f ↦
            rw (e, f)
              (after_launch-Waits x st (launch_all x (to_launch x st.progress) st.progress)
                (ground (arith, e)))
      ]
]

retire-Waits :
    (id : String) (in_flight : List String) (c : Bool) (ph : Phase)
    → IsWaiting in_flight c ph
    → IsWaiting (remove id in_flight) c ph
retire-Waits id in_flight c looping h = tt
retire-Waits id in_flight c (awaiting ws) h = (h.0, Sublist-remove id in_flight ws h.1)
retire-Waits id in_flight c (draining _) h = tt
retire-Waits id in_flight c (returned _) h = tt
retire-Waits id in_flight c (rejected _) h = tt

module _ (json : Value → String) (x : Execution) where
  Step-Waits : (st next : EngineState) → Step json x st next → Waits st → Waits next
  unfolding settle complete retire resume end_cancelled
  Step-Waits st _ (loops _ now) h = loop_round-Waits x st now
  Step-Waits st _ (settles _ task attempts started finished (ok r) now m ran) h = h
  Step-Waits st _ (settles _ task attempts started finished (throw e) now m ran) h = h
  Step-Waits st _ (retires _ id now done there) h =
      retire-Waits id st.progress.in_flight st.was_cancelled st.phase h
  Step-Waits st _ (resumes _ ws id now w s gone) h = tt
  Step-Waits st _ (resumes_aborted _ ws now a) h = tt
  Step-Waits st _ (rejects _ ws id e now w s gone) h = tt
  Step-Waits st _ (aborts _ a) h = h
  Step-Waits st _ (drains _ ws now all) h = tt

  pub Reachable-Waits : (st : EngineState) → Reachable json x st → Waits st
  unfolding start_state
  Reachable-Waits _ (starts aborted) = tt
  Reachable-Waits _ (steps st next r s) = Step-Waits st next s (Reachable-Waits st r)

  weight-stop :
      (st : EngineState) (q : Progress) (e : EngineError) (n : ℕ)
      → st.phase ≡ looping
      → load q + n ≤ load st.progress
      → weight (after_launch x st (stop q e)) < weight st
  unfolding after_launch
  weight-stop st q e n now less = rw now (omega (arith, less))

  weight-go_waiting :
      (st : EngineState) (q : Progress) (n : ℕ)
      → st.phase ≡ looping
      → is_empty q.in_flight ≡ false
      → load q + n ≤ load st.progress
      → weight (after_launch x st (go q)) < weight st
  unfolding after_launch
  weight-go_waiting st q n now some_left less = rw (now, some_left) (omega (arith, less))

  weight-go_looping :
      (st : EngineState) (q : Progress)
      → st.phase ≡ looping
      → is_empty q.in_flight ≡ true
      → load q + 2 ≤ load st.progress
      → weight (after_launch x st (go q)) < weight st
  unfolding after_launch
  weight-go_looping st q now none_left less = rw (now, none_left) (omega (arith, less))

  -- After the launches of a pass.
  weight-after_launch :
      (st : EngineState) (ss : List WorkflowStep)
      → st.phase ≡ looping
      → (is_empty ss && is_empty st.progress.in_flight) ≡ false
      → load (launched (launch_all x ss st.progress)) + at_least ss ≤ load st.progress
      → weight (after_launch x st (launch_all x ss st.progress)) < weight st
  unfolding launch_all
  weight-after_launch st [] now f less = weight-go_waiting st st.progress 0 now f less
  weight-after_launch st (s ∷ ss) now f less = by_launch (launch_all x (s ∷ ss) st.progress) less
    where
      by_launch :
          (l : Launched)
          → load (launched l) + 2 ≤ load st.progress
          → weight (after_launch x st l) < weight st
      by_launch (stop q e) less = weight-stop st q e 2 now less
      by_launch (go q) less = elim (Bool-cases (is_empty q.in_flight)) [
        | inl e ↦ weight-go_looping st q now e less
        | inr e ↦ weight-go_waiting st q 2 now e less
      ]

  weight-abandon :
      (st : EngineState)
      → is_empty st.progress.pending ≡ false
      → weight (record st { progress = abandon st.progress.pending st.progress }) < weight st
  weight-abandon st e =
      rw
        (
          pending-abandon st.progress.pending st.progress,
          tasks-abandon st.progress.pending st.progress,
          in_flight-abandon st.progress.pending st.progress,
        )
        (omega (arith, not_empty st.progress.pending e))
    where
      not_empty : (ss : List WorkflowStep) → is_empty ss ≡ false → 0 < length ss
      not_empty [] e = cc
      not_empty (s ∷ ss) e = omega arith

  weight-loop_round :
      (st : EngineState)
      → Reachable json x st
      → st.phase ≡ looping
      → weight (loop_round x st) < weight st
  unfolding loop_round
  weight-loop_round st r now =
      elim (Bool-cases (is_empty st.progress.pending || st.was_cancelled)) [
        | inl e ↦ elim (Bool-cases st.was_cancelled) [
          | inl c ↦ rw (e, c, now) (omega arith)
          | inr c ↦ rw (e, c, now) (omega arith)
        ]
        | inr e ↦
            elim (Bool-cases
              (is_empty (to_launch x st.progress) && is_empty st.progress.in_flight)) [
                | inl f ↦ rw (e, f) (weight-abandon st (ground (arith, e)))
                | inr f ↦
                    rw (e, f)
                      (weight-after_launch st (to_launch x st.progress) now f (
                        load-launch_all x (to_launch x st.progress) st.progress
                          (to_launch-Distinct x st.progress (Reachable-IsExclusive json x st r).0)
                          (to_launch-Ready x st.progress)))
              ]
      ]

  weight-settle :
      (st : EngineState) (task : WorkflowStep) (ended : Thrown ExpressionError StepResult)
      → Memᴰ task st.progress.tasks
      → weight (settle task ended st) < weight st
  unfolding settle complete
  weight-settle st task (ok r) m =
      omega
        (arith, length-drop_step task.id st.progress.tasks (has-ids_mem task st.progress.tasks m))
  weight-settle st task (throw e) m =
      omega
        (arith, length-drop_step task.id st.progress.tasks (has-ids_mem task st.progress.tasks m))

  weight-retire :
      (in_flight : List String) (id : String) (ph : Phase)
      → is_suspended ph ≡ true
      → has id in_flight ≡ true
      → phase_weight ph (length (remove id in_flight)) < phase_weight ph (length in_flight)
  weight-retire in_flight id looping s h = cc
  weight-retire in_flight id (awaiting ws) s h = omega (arith, length-remove-has id in_flight h)
  weight-retire in_flight id (draining ws) s h = omega (arith, length-remove-has id in_flight h)
  weight-retire in_flight id (returned w) s h = cc
  weight-retire in_flight id (rejected e) s h = cc

  -- What the wait says of the lengths.
  waiting :
      (st : EngineState) (ws : List String)
      → Reachable json x st
      → st.phase ≡ awaiting ws
      → (st.was_cancelled ≡ false) × Sublist st.progress.in_flight ws
  waiting st ws r now =
      subst (λ ph. IsWaiting st.progress.in_flight st.was_cancelled ph) now (Reachable-Waits st r)

  -- Every step of an execution lowers the weight of its state, so that no execution takes more
  -- steps than the weight it starts with.
  pub Step-weight :
      (st next : EngineState) → Reachable json x st → Step json x st next → weight next < weight st
  unfolding retire resume end_cancelled
  Step-weight st _ r (loops _ now) = weight-loop_round st r now
  Step-weight st _ r (settles _ task attempts started finished ended now m ran) =
      weight-settle st task ended m
  Step-weight st _ r (retires _ id now done there) =
      omega (arith, weight-retire st.progress.in_flight id st.phase now there)
  Step-weight st _ r (resumes _ ws id now w s gone) =
      let (c, sub) = waiting st ws r now in
      let missing = Sublist-missing id st.progress.in_flight ws sub w gone in
      rw now (elim (Bool-cases st.aborted) [
        | inl a ↦ rw (c, a) (omega (arith, missing))
        | inr a ↦ rw (c, a) (omega (arith, missing))
      ])
  Step-weight st _ r (resumes_aborted _ ws now a) =
      let (c, sub) = waiting st ws r now in
      rw (now, c, a) (omega (arith, Sublist-length st.progress.in_flight ws sub))
  Step-weight st _ r (rejects _ ws id e now w s gone) = rw now (omega arith)
  Step-weight st _ r (aborts _ a) = rw a (omega arith)
  Step-weight st _ r (drains _ ws now all) = rw now (omega arith)
