-- ===== src/StepEngine/Kept.antt =====
-- packages/workflow/src/engine.ts: invariants of the variables of `execute`, by induction on the
-- steps that lead to a state.
use mathlib.Core.List.{Memᴰ}
use ai_orchestration.Prelude.{ℕ, String, ◌&&◌, ◌||◌, ◌≡◌, some, Bool-cases, inl, inr, ok, throw}
use ai_orchestration.Prelude.Names.{remove}
use ai_orchestration.Value.{Value}
use ai_orchestration.Workflow.{WorkflowStep, StepResult}
use ai_orchestration.StepEngine.Attempts.{Attempt, run_step}
use ai_orchestration.StepEngine.State.{Execution, Progress, initial}
use ai_orchestration.StepEngine.Pass.{
  Launched, go, stop, is_empty, drop_step, abandon, launch_all, to_launch,
}
use ai_orchestration.StepEngine.Machine.{
  EngineState, start_state, complete, settle, retire, resume, after_launch, loop_round,
  end_cancelled, Step, loops, settles, retires, resumes, resumes_aborted, rejects, aborts, drains,
  Reachable, starts, steps, Leads, here, onwards,
}
use ai_orchestration.StepEngine.Launching.{launched}

-- What every piece of the code that changes the variables keeps.
pub record Kept {ℓ} (json : Value → String) (x : Execution) (I : Progress → Type ℓ) : Type ℓ where
  pub by_pass : (p : Progress) → I p → I (launched (launch_all x (to_launch x p) p))
  pub by_abandon : (p : Progress) → I p → I (abandon p.pending p)
  pub by_complete :
      (task : WorkflowStep) (attempts : ℕ → Attempt) (started finished : ℕ) (r : StepResult)
      (p : Progress)
      → Memᴰ task p.tasks
      → run_step json task attempts started finished ≡ some (ok r)
      → I p
      → I (complete task r p)
  pub by_rejection :
      (id : String) (p : Progress) → I p → I (record p { tasks = drop_step id p.tasks })
  pub by_retire :
      (id : String) (p : Progress) → I p → I (record p { in_flight = remove id p.in_flight })

module _ {ℓ} {json : Value → String} (x : Execution) {I : Progress → Type ℓ}
    (k : Kept json x I) where
  loop_round-kept : (st : EngineState) → I st.progress → I (loop_round x st).progress
  unfolding loop_round after_launch
  loop_round-kept st h = elim (Bool-cases (is_empty st.progress.pending || st.was_cancelled)) [
    | inl e ↦ rw e h
    | inr e ↦
        elim (Bool-cases (is_empty (to_launch x st.progress) && is_empty st.progress.in_flight)) [
          | inl f ↦ rw (e, f) (k.by_abandon st.progress h)
          | inr f ↦
              rw (e, f)
                (by_launch (launch_all x (to_launch x st.progress) st.progress)
                  (k.by_pass st.progress h))
        ]
  ]
    where
      by_launch : (l : Launched) → I (launched l) → I (after_launch x st l).progress
      by_launch (go q) h = h
      by_launch (stop q e) h = h

  Step-kept : (st next : EngineState) → Step json x st next → I st.progress → I next.progress
  unfolding settle retire resume end_cancelled
  Step-kept st _ (loops _ at) h = loop_round-kept st h
  Step-kept st _ (settles _ task attempts started finished (ok r) at m ran) h =
      k.by_complete task attempts started finished r st.progress m ran h
  Step-kept st _ (settles _ task attempts started finished (throw e) at m ran) h =
      k.by_rejection task.id st.progress h
  Step-kept st _ (retires _ id at done there) h = k.by_retire id st.progress h
  Step-kept st _ (resumes _ ws id at w s gone) h = h
  Step-kept st _ (resumes_aborted _ ws at a) h = h
  Step-kept st _ (rejects _ ws id e at w s gone) h = h
  Step-kept st _ (aborts _ a) h = h
  Step-kept st _ (drains _ ws at all) h = h

  pub Leads-kept : (st last : EngineState) → Leads json x st last → I st.progress → I last.progress
  Leads-kept st _ here h = h
  Leads-kept st _ (onwards middle next l s) h = Step-kept middle next s (Leads-kept st middle l h)

  pub Reachable-kept : I (initial x) → (st : EngineState) → Reachable json x st → I st.progress
  unfolding start_state
  Reachable-kept h _ (starts aborted) = h
  Reachable-kept h _ (steps st next r s) = Step-kept st next s (Reachable-kept h st r)
