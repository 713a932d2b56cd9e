-- ===== src/StepEngine/Live.antt =====
-- packages/workflow/src/engine.ts: `execute` never waits for nothing.
use ai_orchestration.Prelude.{
  String, Bool, true, false, not, ◌&&◌, ◌||◌, ◌≡◌, refl, Option, none, some, List, [], ◌∷◌, all,
  str_eq_refl, Bool-cases, Option-cases, inl, inr, Thrown, ok, throw, arith,
}
use ai_orchestration.Prelude.Dict.{Dict, lookup, lookup-insert}
use ai_orchestration.Prelude.Names.{has, has-add, has-remove}
use ai_orchestration.Value.{Value}
use ai_orchestration.Workflow.{WorkflowStep, StepResult}
use ai_orchestration.StepExpr.Tokens.{ExpressionError}
use ai_orchestration.StepEngine.State.{
  Execution, Progress, initial, eligible, ineligible, Verdict, EngineError, is_eligible,
}
use ai_orchestration.StepEngine.Pass.{
  Launched, go, stop, launch_as, launch_all, to_launch, abandon, is_empty,
}
use ai_orchestration.StepEngine.Machine.{
  Phase, looping, awaiting, draining, returned, rejected, EngineState, start_state, complete,
  settle, retire, resume, after_launch, loop_round, end_cancelled, has_settled, is_over, Step,
  loops, settles, retires, resumes, resumes_aborted, rejects, aborts, drains, Reachable, starts,
  steps,
}
use ai_orchestration.StepEngine.Ids.{has-drop_step, has-ids_append_one}
use ai_orchestration.StepEngine.Launching.{
  launched, launch_all-keeps, to_launch-Distinct, to_launch-Ready,
}
use ai_orchestration.StepEngine.Exclusive.{is_running, Reachable-IsExclusive, tasks-abandon}
use ai_orchestration.StepEngine.Bounds.{in_flight-abandon}

abbrev Settled : Type 0
Settled = Dict (Option ExpressionError)

-- A name of the list is of a task that runs or has settled.
abbrev is_tracked : Progress → Settled → List String → String → Bool
is_tracked p settled names j = not (has j names) || (is_running p j || has_settled settled j)

abbrev TracksAll : Progress → Settled → List String → Type 0
TracksAll p settled names = (j : String) → is_tracked p settled names j ≡ true

abbrev TracksPhase : Progress → Settled → Phase → Type 0
TracksPhase p settled (awaiting ws) = (is_empty ws ≡ false) × TracksAll p settled ws
TracksPhase p settled (draining ws) = TracksAll p settled ws
TracksPhase p settled _ = Unit

abbrev Tracks : EngineState → Type 0
Tracks st =
    TracksAll st.progress st.settled st.progress.in_flight
    × TracksPhase st.progress st.settled st.phase

launch_as-TracksAll :
    (settled : Settled) (s : WorkflowStep) (p : Progress) (v : Thrown EngineError Verdict)
    → TracksAll p settled p.in_flight
    → TracksAll (launched (launch_as s p v)) settled (launched (launch_as s p v)).in_flight
unfolding launch_as
launch_as-TracksAll settled s p (throw e) h j = h j
launch_as-TracksAll settled s p (ok eligible) h j =
    ground (arith, h j, has-add s.id j p.in_flight, has-ids_append_one j p.tasks s)
launch_as-TracksAll settled s p (ok (ineligible reason t)) h j = h j

after_launch-Tracks :
    (x : Execution) (st : EngineState) (l : Launched)
    → TracksAll (launched l) st.settled (launched l).in_flight
    → Tracks (after_launch x st l)
unfolding after_launch
after_launch-Tracks x st (stop q e) h = (h, tt)
after_launch-Tracks x st (go q) h = elim (Bool-cases (is_empty q.in_flight)) [
  | inl e ↦ rw e (h, tt)
  | inr e ↦ rw e (h, (e, h))
]

abandon-TracksAll :
    (settled : Settled) (p : Progress)
    → TracksAll p settled p.in_flight
    → TracksAll (abandon p.pending p) settled (abandon p.pending p).in_flight
abandon-TracksAll settled p h j =
    rw (in_flight-abandon p.pending p, tasks-abandon p.pending p) (h j)

-- A task that settles is tracked as settled.
settle-TracksAll :
    (task : WorkflowStep) (ended : Thrown ExpressionError StepResult) (st : EngineState)
    (names : List String)
    → TracksAll st.progress st.settled names
    → TracksAll (settle task ended st).progress (settle task ended st).settled names
unfolding settle complete
settle-TracksAll task (ok r) st names h j =
    ground (
      arith,
      h j,
      has-drop_step task.id j st.progress.tasks,
      lookup-insert task.id j none st.settled,
    )
settle-TracksAll task (throw e) st names h j = ground (
  arith,
  h j,
  has-drop_step task.id j st.progress.tasks,
  lookup-insert task.id j (some e) st.settled,
)

settle-TracksPhase :
    (task : WorkflowStep) (ended : Thrown ExpressionError StepResult) (st : EngineState)
    (ph : Phase)
    → TracksPhase st.progress st.settled ph
    → TracksPhase (settle task ended st).progress (settle task ended st).settled ph
settle-TracksPhase task ended st looping h = tt
settle-TracksPhase task ended st (awaiting ws) h = (h.0, settle-TracksAll task ended st ws h.1)
settle-TracksPhase task ended st (draining ws) h = settle-TracksAll task ended st ws h
settle-TracksPhase task ended st (returned w) h = tt
settle-TracksPhase task ended st (rejected e) h = tt

settle-Tracks :
    (task : WorkflowStep) (ended : Thrown ExpressionError StepResult) (st : EngineState)
    → Tracks st
    → Tracks (settle task ended st)
unfolding settle complete
settle-Tracks task (ok r) st h = (
  settle-TracksAll task (ok r) st st.progress.in_flight h.0,
  settle-TracksPhase task (ok r) st st.phase h.1,
)
settle-Tracks task (throw e) st h = (
  settle-TracksAll task (throw e) st st.progress.in_flight h.0,
  settle-TracksPhase task (throw e) st st.phase h.1,
)

retire-TracksPhase :
    (id : String) (st : EngineState) (ph : Phase)
    → TracksPhase st.progress st.settled ph
    → TracksPhase (retire id st).progress st.settled ph
unfolding retire
retire-TracksPhase id st looping h = tt
retire-TracksPhase id st (awaiting ws) h = h
retire-TracksPhase id st (draining ws) h = h
retire-TracksPhase id st (returned w) h = tt
retire-TracksPhase id st (rejected e) h = tt

module _ (json : Value → String) (x : Execution) where
  loop_round-Tracks :
      (st : EngineState)
      → Reachable json x st
      → st.phase ≡ looping
      → TracksAll st.progress st.settled st.progress.in_flight
      → Tracks (loop_round x st)
  unfolding loop_round
  loop_round-Tracks st r now h =
      elim (Bool-cases (is_empty st.progress.pending || st.was_cancelled)) [
        | inl e ↦ elim (Bool-cases st.was_cancelled) [
          | inl c ↦ rw (e, c) (h, h)
          | inr c ↦ rw (e, c) (h, tt)
        ]
        | inr e ↦
            elim (Bool-cases
              (is_empty (to_launch x st.progress) && is_empty st.progress.in_flight)) [
                | inl f ↦ rw (e, f, now) (abandon-TracksAll st.settled st.progress h, tt)
                | inr f ↦
                    rw (e, f)
                      (after_launch-Tracks x st (launch_all x (to_launch x st.progress) st.progress)
                        (launch_all-keeps x (λ q. TracksAll q st.settled q.in_flight)
                          (λ s q _ k. launch_as-TracksAll st.settled s q (is_eligible x q s) k)
                          (to_launch x st.progress) st.progress
                          (to_launch-Distinct x st.progress (Reachable-IsExclusive json x st r).0)
                          (to_launch-Ready x st.progress) h))
              ]
      ]

  Step-Tracks :
      (st next : EngineState) → Reachable json x st → Step json x st next → Tracks st → Tracks next
  unfolding retire resume end_cancelled
  Step-Tracks st _ r (loops _ now) h = loop_round-Tracks st r now h.0
  Step-Tracks st _ r (settles _ task attempts started finished ended now m ran) h =
      settle-Tracks task ended st h
  Step-Tracks st _ r (retires _ id now done there) h = (
    λ j. ground (arith, h.0 j, has-remove id j st.progress.in_flight),
    retire-TracksPhase id st st.phase h.1,
  )
  Step-Tracks st _ r (resumes _ ws id now w s gone) h = (h.0, tt)
  Step-Tracks st _ r (resumes_aborted _ ws now a) h = (h.0, tt)
  Step-Tracks st _ r (rejects _ ws id e now w s gone) h = (h.0, tt)
  Step-Tracks st _ r (aborts _ a) h = h
  Step-Tracks st _ r (drains _ ws now all) h = (h.0, tt)

  Reachable-Tracks : (st : EngineState) → Reachable json x st → Tracks st
  unfolding start_state initial has
  Reachable-Tracks _ (starts aborted) = (λ j. refl, tt)
  Reachable-Tracks _ (steps st next r s) = Step-Tracks st next r s (Reachable-Tracks st r)

  -- The state has a next step that is not the signal's.
  abbrev pub Moves : EngineState → Type 0
  Moves st = (next : EngineState) × Step json x st next × (next.aborted ≡ st.aborted)

  loop_round-aborted : (st : EngineState) → (loop_round x st).aborted ≡ st.aborted
  unfolding loop_round after_launch
  loop_round-aborted st = elim (Bool-cases (is_empty st.progress.pending || st.was_cancelled)) [
    | inl e ↦ rw e refl
    | inr e ↦
        elim (Bool-cases (is_empty (to_launch x st.progress) && is_empty st.progress.in_flight)) [
          | inl f ↦ rw (e, f) refl
          | inr f ↦ rw (e, f) (by_launch (launch_all x (to_launch x st.progress) st.progress))
        ]
  ]
    where
      by_launch : (l : Launched) → (after_launch x st l).aborted ≡ st.aborted
      by_launch (go q) = refl
      by_launch (stop q e) = refl

  awaiting-Moves :
      (st : EngineState) (ws : List String) (w : String)
      → st.phase ≡ awaiting ws
      → has w ws ≡ true
      → has_settled st.settled w ≡ true
      → Moves st
  unfolding retire resume
  awaiting-Moves st ws w now there done = elim (Bool-cases (has w st.progress.in_flight)) [
    | inl e ↦ (retire w st, retires st w (rw now refl) done e, refl)
    | inr gone ↦ elim (Option-cases (lookup w st.settled)) [
      | inl e ↦ absurd (clash (rw e at done))
      | inr (none, e) ↦ (resume st, resumes st ws w now there e gone, refl)
      | inr (some error, e) ↦ (_, rejects st ws w error now there e gone, refl)
    ]
  ]
    where
      clash : false ≡ true → ⊥
      clash e = cc

  all-of :
      (settled : Settled) (ws : List String)
      → ((j : String) → (not (has j ws) || has_settled settled j) ≡ true)
      → all (has_settled settled) ws ≡ true
  unfolding has
  all-of settled [] h = refl
  all-of settled (w ∷ ws) h =
      ground (arith, h w, str_eq_refl w, all-of settled ws (λ j. ground (arith, h j)))

  Moves-in :
      (st : EngineState) (ph : Phase)
      → st.phase ≡ ph
      → is_over ph ≡ false
      → st.progress.tasks ≡ []
      → TracksPhase st.progress st.settled ph
      → Moves st
  unfolding has retire resume end_cancelled
  Moves-in st looping now h idle t = (loop_round x st, loops st now, loop_round-aborted st)
  Moves-in st (awaiting []) now h idle t = absurd (clash t.0)
    where
      clash : true ≡ false → ⊥
      clash e = cc
  Moves-in st (awaiting (w ∷ ws)) now h idle t =
      awaiting-Moves st (w ∷ ws) w now (ground (arith, str_eq_refl w))
        (ground (arith, str_eq_refl w, rw idle at (t.1 w)))
  Moves-in st (draining ws) now h idle t =
      (end_cancelled x st, drains st ws now (all-of st.settled ws (λ j. rw idle at (t j))), refl)
  Moves-in st (returned w) now h idle t = cc
  Moves-in st (rejected e) now h idle t = cc

  -- An execution that has not ended has a next step whenever no task of it runs, and one that
  -- is not the signal's; so it waits only while a task runs.
  pub Reachable-Moves :
      (st : EngineState)
      → Reachable json x st
      → is_over st.phase ≡ false
      → st.progress.tasks ≡ []
      → Moves st
  Reachable-Moves st r h idle = Moves-in st st.phase refl h idle (Reachable-Tracks st r).1
