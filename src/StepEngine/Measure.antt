-- ===== src/StepEngine/Measure.antt =====
-- packages/workflow/src/engine.ts: a number that every step of an execution lowers.

use ai_orchestration.Prelude.{
  ℕ, ◌+◌, ◌*◌, ◌≤◌, ◌<◌, String, Bool, true, false, not, ◌≡◌, List, [], ◌∷◌, length, length-append,
  filter, All, str_eq, Thrown, ok, throw, arith,
}
use ai_orchestration.Prelude.Names.{has}
use ai_orchestration.Workflow.{WorkflowStep}
use ai_orchestration.StepEngine.State.{
  Execution, Progress, eligible, ineligible, Verdict, EngineError, is_eligible,
}
use ai_orchestration.StepEngine.Pass.{Launched, go, stop, launch_as, launch, launch_all, drop_step}
use ai_orchestration.StepEngine.Machine.{
  Phase, looping, awaiting, draining, returned, rejected, EngineState,
}
use ai_orchestration.StepEngine.Ids.{ids, Distinct}
use ai_orchestration.StepEngine.Launching.{launched, Ready, Ready-rest}
use ai_orchestration.StepEngine.Bounds.{length-add}

abbrev pub load : Progress → ℕ
load p = 8 * length p.pending + (2 * length p.tasks + 4 * length p.in_flight)

abbrev pub phase_weight : Phase → ℕ → ℕ
phase_weight looping n = 4 * n + 2
phase_weight (awaiting waiters) n = 2 * length waiters + (2 * n + 1)
phase_weight (draining waiters) n = 2 * n + 1
phase_weight (returned w) n = 2 * n
phase_weight (rejected e) n = 2 * n

abbrev flag : Bool → ℕ → ℕ
flag true n = 0
flag false n = n

abbrev pub weight : EngineState → ℕ
weight st =
    8 * length st.progress.pending
    + (2 * length st.progress.tasks
        + (phase_weight st.phase (length st.progress.in_flight)
            + (flag st.was_cancelled 2 + flag st.aborted 1)))

pub length-filter :
    (p : WorkflowStep → Bool) (ss : List WorkflowStep) → length (filter p ss) ≤ length ss
length-filter p [] = omega arith
length-filter p (s ∷ ss) = ground (arith, length-filter p ss)

-- A step that is there makes the list shorter when it leaves.
pub length-drop_step :
    (id : String) (ss : List WorkflowStep)
    → has id (ids ss) ≡ true
    → length (drop_step id ss) < length ss
unfolding drop_step has
length-drop_step id [] h = cc
length-drop_step id (s ∷ ss) h =
    ground (arith, h, length-drop_step id ss, length-filter (λ t. not (str_eq t.id id)) ss)

load-launch_as :
    (s : WorkflowStep) (p : Progress) (v : Thrown EngineError Verdict)
    → has s.id (ids p.pending) ≡ true
    → load (launched (launch_as s p v)) + 2 ≤ load p
unfolding launch_as
load-launch_as s p (throw e) h = omega (arith, length-drop_step s.id p.pending h)
load-launch_as s p (ok eligible) h = omega (
  arith,
  length-drop_step s.id p.pending h,
  length-append p.tasks (s ∷ []),
  length-add s.id p.in_flight,
)
load-launch_as s p (ok (ineligible reason t)) h = omega (arith, length-drop_step s.id p.pending h)

-- The launches of a pass lower the load by two for each, at least.
abbrev pub at_least : List WorkflowStep → ℕ
at_least [] = 0
at_least (_ ∷ _) = 2

pub load-launch_all :
    (x : Execution) (ss : List WorkflowStep) (p : Progress)
    → Distinct (ids ss)
    → All (Ready p) ss
    → load (launched (launch_all x ss p)) + at_least ss ≤ load p
unfolding launch_all launch
load-launch_all x [] p d r = omega arith
load-launch_all x (s ∷ ss) p d r =
    onwards (launch_as s p (is_eligible x p s)) (load-launch_as s p (is_eligible x p s) r.0.0)
      (Ready-rest s p (is_eligible x p s) ss d.0 r.1) (λ q rest. load-launch_all x ss q d.1 rest)
  where
    onwards :
        (l : Launched)
        → load (launched l) + 2 ≤ load p
        → All (Ready (launched l)) ss
        → ((q : Progress)
            → All (Ready q) ss
            → load (launched (launch_all x ss q)) + at_least ss ≤ load q)
        → load (launched (elim l [ go q ↦ launch_all x ss q | stop q e ↦ stop q e ])) + 2 ≤ load p
    onwards (go q) h rest k = omega (arith, h, k q rest)
    onwards (stop q e) h rest k = omega (arith, h)
