-- ===== src/Run/Machine.antt =====
-- packages/core/src/run.ts: what the transition table allows.
use mathlib.Core.Logic.{inl, inr}
use ai_orchestration.Prelude.{◌≡◌, ◌≢◌, ◌⊎◌, Bool, true, false, arith}
use ai_orchestration.Run.{
  RunState, queued, preparing, running, completed, failed, cancelled, AgentOutcome, can_transition,
  is_terminal, is_active, run_state_for_outcome, human_input_required,
}

-- A run walks along transitions that `assertTransition` accepts.
pub data Walk : RunState → RunState → Type 0 where
  stay : {s : RunState} → Walk s s
  go : {s t u : RunState} → Walk s t → can_transition t u ≡ true → Walk s u

-- A run that ended is not active, and leaves its state only to be queued again or to be
-- cancelled; a completed one never leaves it.
pub terminal_leaves :
    (s t : RunState)
    → is_terminal s ≡ true
    → can_transition s t ≡ true
    → (is_active s ≡ false) × (s ≢ completed) × ((t ≡ queued) ⊎ (t ≡ cancelled))
unfolding is_terminal is_active can_transition
terminal_leaves s t h k = ground arith

-- Every outcome of an agent is a state that a running run may enter, and it ends the run unless
-- the agent asks for human input.
outcome_enters :
    (o : AgentOutcome)
    → (can_transition running (run_state_for_outcome o) ≡ true)
      × ((o ≡ human_input_required) ⊎ (is_terminal (run_state_for_outcome o) ≡ true))
unfolding can_transition run_state_for_outcome is_terminal
outcome_enters o = ground arith

-- Every run that has not ended can be cancelled in one transition.
pub cancel_allowed : (s : RunState) → is_terminal s ≡ false → can_transition s cancelled ≡ true
unfolding is_terminal can_transition
cancel_allowed s h = ground arith

-- Work is done only after it was prepared: a state outside the queue, reached from it.
abbrev pub has_started : RunState → Bool
has_started queued = false
has_started cancelled = false
has_started failed = false
has_started preparing = false
has_started _ = true

-- The walk passes the transition from `preparing` to `running`.
abbrev pub PassesStart : {s t : RunState} → Walk s t → Type 0
PassesStart stay = ⊥
PassesStart (go {t} {u} w h) = PassesStart w ⊎ ((t ≡ preparing) × (u ≡ running))

started_step :
    (t u : RunState)
    → can_transition t u ≡ true
    → has_started u ≡ true
    → (has_started t ≡ true) ⊎ ((t ≡ preparing) × (u ≡ running))
unfolding can_transition
started_step t u h k = ground arith

-- A run that starts in the queue and is now running, waiting, verifying, completed or blocked has
-- been prepared, and has gone from `preparing` to `running`.
pub started-PassesStart : {t : RunState} (w : Walk queued t) → has_started t ≡ true → PassesStart w
started-PassesStart stay h = absurd (false-ne-true h)
  where
    false-ne-true : ◌≡◌ {A = Bool} false true → ⊥
    false-ne-true e = cc
started-PassesStart (go {t} {u} w k) h = elim (started_step t u k h) [
  | inl earlier ↦ inl (started-PassesStart w earlier)
  | inr here ↦ inr here
]
