-- ===== src/Run.antt =====
-- packages/core/src/run.ts: the run entity, its state machine, and the outcomes of an agent.
-- The children prove what the table allows, and model the writers of a run's state.
pub mod Machine
pub mod Writers
mod Examples
use ai_orchestration.Prelude.{
  ℕ, String, ◌≡◌, ◌↔◌, ◌==◌, true, arith, Bool, Option, none, some, if◌then◌else◌, List, [], ◌∷◌,
  any,
}
use ai_orchestration.Budget.{UsageRecord}

pub data RunState : Type 0 where
  queued preparing running waiting waiting_for_tool waiting_for_subagent : RunState
  waiting_for_human verifying completed failed blocked cancelled : RunState

-- The states are compared as their wire names are, by their place in `RunState`.
abbrev pub place : RunState → ℕ
place queued = 0
place preparing = 1
place running = 2
place waiting = 3
place waiting_for_tool = 4
place waiting_for_subagent = 5
place waiting_for_human = 6
place verifying = 7
place completed = 8
place failed = 9
place blocked = 10
place cancelled = 11

-- `a === b`
unfoldable pub state_eq : RunState → RunState → Bool
state_eq a b = place a == place b

pub state_eq_iff : (a b : RunState) → (state_eq a b ≡ true) ↔ (a ≡ b)
unfolding state_eq
state_eq_iff a b = ground arith

abbrev pub terminal_run_states : List RunState
terminal_run_states = completed ∷ failed ∷ blocked ∷ cancelled ∷ []

abbrev pub active_states : List RunState
active_states =
    running ∷ waiting ∷ waiting_for_tool ∷ waiting_for_subagent ∷ waiting_for_human ∷ verifying ∷ []

unfoldable pub run_transitions : RunState → List RunState
run_transitions queued = preparing ∷ cancelled ∷ failed ∷ []
run_transitions preparing = running ∷ failed ∷ cancelled ∷ []
run_transitions running =
    waiting ∷ waiting_for_tool ∷ waiting_for_subagent ∷ waiting_for_human ∷ verifying ∷ completed
    ∷ failed ∷ blocked ∷ cancelled ∷ []
run_transitions waiting = running ∷ waiting_for_human ∷ blocked ∷ failed ∷ cancelled ∷ []
run_transitions waiting_for_tool = running ∷ failed ∷ cancelled ∷ []
run_transitions waiting_for_subagent = running ∷ failed ∷ cancelled ∷ []
run_transitions waiting_for_human = running ∷ waiting ∷ blocked ∷ cancelled ∷ []
run_transitions verifying = running ∷ completed ∷ failed ∷ cancelled ∷ []
run_transitions completed = []
run_transitions failed = queued ∷ []
run_transitions blocked = queued ∷ cancelled ∷ []
run_transitions cancelled = queued ∷ []

-- `list.includes(state)`
abbrev pub includes : List RunState → RunState → Bool
includes l s = any (λ x. state_eq x s) l

unfoldable pub is_terminal : RunState → Bool
unfolding state_eq
is_terminal s = includes terminal_run_states s

unfoldable pub is_active : RunState → Bool
unfolding state_eq
is_active s = includes active_states s

unfoldable pub can_transition : RunState → RunState → Bool
unfolding state_eq run_transitions
can_transition from to = includes (run_transitions from) to

-- `IllegalTransitionError`
pub record IllegalTransition : Type 0 where
  pub from : RunState
  pub to : RunState

-- `assertTransition` throws the error, or returns.
unfoldable pub assert_transition : RunState → RunState → Option IllegalTransition
unfolding can_transition
assert_transition from to =
    if can_transition from to then none else some (record { from = from; to = to })

pub data AgentOutcome : Type 0 where
  goal_completed goal_blocked human_input_required policy_blocked : AgentOutcome
  budget_exhausted outcome_cancelled fatal_failure : AgentOutcome

unfoldable pub run_state_for_outcome : AgentOutcome → RunState
run_state_for_outcome goal_completed = completed
run_state_for_outcome outcome_cancelled = cancelled
run_state_for_outcome human_input_required = waiting_for_human
run_state_for_outcome goal_blocked = blocked
run_state_for_outcome policy_blocked = blocked
run_state_for_outcome budget_exhausted = failed
run_state_for_outcome fatal_failure = failed

pub record RunStateChange : Type 0 where
  pub from : RunState
  pub to : RunState
  pub at : ℕ
  pub reason : Option String

pub record Run : Type 0 where
  pub id : String
  pub work_item_id : String
  pub workflow_name : String
  pub state : RunState
  pub current_step_id : Option String
  pub workspace_id : Option String
  pub session_ids : List String
  pub usage : Option UsageRecord
  pub outcome : Option AgentOutcome
  pub error : Option String
  pub created_at : ℕ
  pub updated_at : ℕ
  pub history : List RunStateChange
