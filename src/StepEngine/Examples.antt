-- ===== src/StepEngine/Examples.antt =====
-- Two steps that run at once, and one that depends on the first; every step is tried twice.

use mathlib.Core.List.{Memᴰ}
use ai_orchestration.Prelude.{
  ℕ, String, true, false, ◌≡◌, ◌↔◌, ◌<◌, refl, Option, none, some, [], ◌∷◌, ok, str_eq, length,
  List, if◌then◌else◌, ◌==◌,
}
use ai_orchestration.Prelude.Dict.{lookup}
use ai_orchestration.Prelude.Names.{has}
use ai_orchestration.Value.{Value, end}
use ai_orchestration.Workflow.{WorkflowDefinition, WorkflowStep, StepResult, StepStatus, action}
use ai_orchestration.StepExpr.Eval.{ExpressionContext}
use ai_orchestration.StepEngine.Attempts.{
  Attempt, resolves, hangs, succeeded, run_step, max_attempts,
}
use ai_orchestration.StepEngine.State.{
  Execution, WorkflowRunStatus, WorkflowResult, failure, deps_settled, concurrency_limit,
}
use ai_orchestration.StepEngine.Machine.{
  EngineState, start_state, loop_round, settle, retire, resume, Reachable, starts, steps, loops,
  settles, retires, resumes, Leads, here, onwards, awaiting, returned,
}
use ai_orchestration.StepEngine.Machine.{Step, is_over}
use ai_orchestration.StepEngine.Ids.{ids}
use ai_orchestration.StepEngine.Exclusive.{IsExclusive, Reachable-IsExclusive}
use ai_orchestration.StepEngine.Stable.{Leads-lookup}
use ai_orchestration.StepEngine.Order.{Reachable-InOrder}
use ai_orchestration.StepEngine.Bounds.{IsWithin, Reachable-IsWithin}
use ai_orchestration.StepEngine.Accounted.{accounts_for, Reachable-accounts_for}
use ai_orchestration.StepEngine.Status.{TerminalsEndedWell, returned-succeeded_iff}
use ai_orchestration.StepEngine.Measure.{weight}
use ai_orchestration.StepEngine.Termination.{Step-weight}
use ai_orchestration.StepEngine.Live.{Moves, Reachable-Moves}
use ai_orchestration.StepEngine.Retries.{Returns, run_step-succeeded_iff}
use ai_orchestration.StepEngine.Endings.{Settles, run_step-Settles}

abbrev no_json : Value → String
no_json v = ""

abbrev step_after : Option (List String) → String → WorkflowStep
step_after deps id = record {
  id = id;
  kind = action "noop" none;
  depends_on = deps;
  when = none;
  timeout_ms = some 50;
  retry = some (record { max_attempts = 2; backoff_ms = none });
  continue_on_failure = none;
}

abbrev a : WorkflowStep
a = step_after none "a"

abbrev b : WorkflowStep
b = step_after none "b"

abbrev c : WorkflowStep
c = step_after (some ("a" ∷ [])) "c"

abbrev definition : WorkflowDefinition
definition = record {
  name = "trio";
  description = none;
  trigger = none;
  eligibility = none;
  workspace = none;
  variables = none;
  steps = a ∷ b ∷ c ∷ [];
  transitions = none;
  budget = none;
}

abbrev trio : Execution
trio = record { definition = definition; variables = none; concurrency = some 2 }

abbrev nothing : ExpressionContext
nothing = record { steps = []; vars = end }

-- The first attempt never settles; the second succeeds.
abbrev attempts : ℕ → Attempt
attempts n = record {
  context = nothing;
  executor = λ step. if n == 1 then hangs else resolves 5 true (succeeded none);
  aborted = false;
  aborted_in_pause = false;
}

abbrev success_of : String → StepResult
success_of id = record {
  step_id = id;
  status = StepStatus.succeeded;
  outputs = end;
  error = none;
  started_at = some 0;
  finished_at = some 60;
}

a_ran : run_step no_json a attempts 0 60 ≡ some (ok (success_of "a"))
unfolding run_step
a_ran = refl

c_ran : run_step no_json c attempts 0 60 ≡ some (ok (success_of "c"))
unfolding run_step
c_ran = refl

abbrev s0 : EngineState
s0 = start_state trio false

abbrev s1 : EngineState
s1 = loop_round trio s0

abbrev s2 : EngineState
s2 = settle a (ok (success_of "a")) s1

abbrev s3 : EngineState
s3 = retire "a" s2

abbrev s4 : EngineState
s4 = resume s3

abbrev s5 : EngineState
s5 = loop_round trio s4

abbrev s6 : EngineState
s6 = settle c (ok (success_of "c")) s5

abbrev s7 : EngineState
s7 = retire "c" s6

abbrev s8 : EngineState
s8 = resume s7

abbrev s9 : EngineState
s9 = loop_round trio s8

s1_phase : s1.phase ≡ awaiting ("a" ∷ "b" ∷ [])
unfolding start_state loop_round str_eq
s1_phase = refl

s5_phase : s5.phase ≡ awaiting ("b" ∷ "c" ∷ [])
unfolding start_state loop_round str_eq settle retire resume
s5_phase = refl

s2_reached : Reachable no_json trio s2
unfolding start_state loop_round str_eq
s2_reached =
    steps s1 s2 (steps s0 s1 (starts false) (loops s0 refl))
      (settles s1 a attempts 0 60 (ok (success_of "a")) refl (Memᴰ.head refl) a_ran)

s2-s5 : Leads no_json trio s2 s5
unfolding start_state loop_round str_eq settle retire resume
s2-s5 =
    onwards s4 s5
      (onwards s3 s4 (onwards s2 s3 here (retires s2 "a" refl refl refl))
        (resumes s3 ("a" ∷ "b" ∷ []) "a" refl refl refl refl))
      (loops s4 refl)

s5_reached : Reachable no_json trio s5
unfolding start_state loop_round str_eq settle retire resume
s5_reached =
    steps s4 s5
      (steps s3 s4 (steps s2 s3 s2_reached (retires s2 "a" refl refl refl))
        (resumes s3 ("a" ∷ "b" ∷ []) "a" refl refl refl refl))
      (loops s4 refl)

s9_reached : Reachable no_json trio s9
unfolding start_state loop_round str_eq settle retire resume
s9_reached =
    steps s8 s9
      (steps s7 s8
        (steps s6 s7
          (steps s5 s6 s5_reached (
            settles s5 c attempts 0 60 (ok (success_of "c")) refl (Memᴰ.tail (Memᴰ.head refl))
              c_ran))
          (retires s6 "c" refl refl refl))
        (resumes s7 ("b" ∷ "c" ∷ []) "c" refl refl refl refl))
      (loops s8 refl)

-- `b` still runs when the last pending step has been launched and has settled: nothing is pending
-- any more, so `execute` returns without the result of `b`, and calls the workflow failed.
abbrev early : WorkflowResult
early = record {
  status = WorkflowRunStatus.failed;
  step_results = ("a", success_of "a") ∷ ("c", success_of "c") ∷ [];
  transition = failure;
  transition_target = none;
}

s9_phase : s9.phase ≡ returned early
unfolding start_state loop_round str_eq settle retire resume
s9_phase = refl

s9_running : s9.progress.tasks ≡ b ∷ []
unfolding start_state loop_round str_eq settle retire resume
s9_running = refl

Reachable-IsExclusive_example : IsExclusive s9.progress
Reachable-IsExclusive_example = Reachable-IsExclusive no_json trio s9 s9_reached

found_a : lookup "a" s2.progress.results ≡ some (success_of "a")
unfolding start_state loop_round str_eq settle
found_a = refl

Leads-lookup_example : lookup "a" s5.progress.results ≡ some (success_of "a")
Leads-lookup_example = Leads-lookup no_json trio s2 s5 "a" (success_of "a") s2_reached s2-s5 found_a

c_runs : Memᴰ c s5.progress.tasks
unfolding start_state loop_round str_eq settle retire resume
c_runs = Memᴰ.tail (Memᴰ.head refl)

Reachable-InOrder_example : deps_settled s5.progress.results c ≡ true
Reachable-InOrder_example = Reachable-InOrder no_json trio s5 c s5_reached c_runs

Reachable-IsWithin_example : IsWithin (concurrency_limit trio) (length s5.progress.in_flight)
Reachable-IsWithin_example = Reachable-IsWithin no_json trio s5 s5_reached

b_known : has "b" (ids definition.steps) ≡ true
unfolding has str_eq
b_known = refl

Reachable-accounts_for_example : accounts_for s9 "b" ≡ true
Reachable-accounts_for_example = Reachable-accounts_for no_json trio s9 b s9_reached b_known

not_cancelled : s9.was_cancelled ≡ false
unfolding start_state loop_round str_eq settle retire resume
not_cancelled = refl

returned-succeeded_iff_example :
    (early.status ≡ WorkflowRunStatus.succeeded)
    ↔ TerminalsEndedWell definition early.step_results s9.progress.tainted
returned-succeeded_iff_example =
    returned-succeeded_iff no_json trio s9 early s9_reached s9_phase not_cancelled

s9-Step : Step no_json trio s8 s9
unfolding start_state loop_round str_eq settle retire resume
s9-Step = loops s8 refl

s8_reached : Reachable no_json trio s8
unfolding start_state loop_round str_eq settle retire resume
s8_reached =
    steps s7 s8
      (steps s6 s7
        (steps s5 s6 s5_reached (
          settles s5 c attempts 0 60 (ok (success_of "c")) refl (Memᴰ.tail (Memᴰ.head refl)) c_ran))
        (retires s6 "c" refl refl refl))
      (resumes s7 ("b" ∷ "c" ∷ []) "c" refl refl refl refl)

Step-weight_example : weight s9 < weight s8
Step-weight_example = Step-weight no_json trio s8 s9 s8_reached s9-Step

-- A definition without steps is at the head of the loop, and no task of it runs.
abbrev empty : Execution
empty = record {
  definition = record definition { steps = [] };
  variables = none;
  concurrency = none;
}

nothing_runs : (start_state empty false).progress.tasks ≡ []
unfolding start_state
nothing_runs = refl

not_over : is_over (start_state empty false).phase ≡ false
unfolding start_state
not_over = refl

Reachable-Moves_example : Moves no_json empty (start_state empty false)
Reachable-Moves_example =
    Reachable-Moves no_json empty (start_state empty false) (starts false) not_over nothing_runs

run_step-succeeded_iff_example :
    ((run_step no_json a attempts 0 60 ≡ some (ok (success_of "a")))
      × ((success_of "a").status ≡ StepStatus.succeeded))
    ↔ Returns no_json a attempts 0 60 1 (max_attempts a) (success_of "a")
run_step-succeeded_iff_example = run_step-succeeded_iff no_json a attempts 0 60 (success_of "a")

run_step-Settles_example :
    Settles no_json a attempts 0 60 1 (max_attempts a) (run_step no_json a attempts 0 60)
run_step-Settles_example = run_step-Settles no_json a attempts 0 60 50 refl
