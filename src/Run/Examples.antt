-- ===== src/Run/Examples.antt =====
-- One run through the table, and one that recovery finds waiting for a human.
use ai_orchestration.Prelude.{◌≡◌, refl, ◌≢◌, ◌↔◌, ◌⊎◌, true, false, none, some, [], ◌∷◌}
use ai_orchestration.Prelude.Dict.{lookup}
use ai_orchestration.Run.{
  Run, queued, preparing, running, waiting_for_human, completed, can_transition, is_terminal,
}
use ai_orchestration.Run.Machine.{Walk, stay, go, PassesStart, started-PassesStart}
use ai_orchestration.Run.Writers.{
  Store, threw, moved, IsLegal, transition, interrupted, is_left_alone, transition-IsLegal_iff,
  interrupted-IsLegal_iff,
}

abbrev fresh : Run
fresh = record {
  id = "run-1";
  work_item_id = "github:7";
  workflow_name = "software-development";
  state = queued;
  current_step_id = none;
  workspace_id = none;
  session_ids = [];
  usage = none;
  outcome = none;
  error = none;
  created_at = 10;
  updated_at = 10;
  history = [];
}

abbrev asking : Run
asking = record fresh { state = waiting_for_human }

abbrev empty : Store
empty = record { runs = []; events = [] }

walk_to_completed : Walk queued completed
unfolding can_transition
walk_to_completed = go {t = running} (go {t = preparing} (go {t = queued} stay refl) refl) refl

started-PassesStart_example : PassesStart (walk_to_completed)
started-PassesStart_example = started-PassesStart walk_to_completed refl

transition-IsLegal_iff_example :
    (can_transition queued preparing ≡ false)
      × (transition 20 fresh preparing none empty
          ≡ threw (record { from = queued; to = preparing }))
    ⊎ (can_transition queued preparing ≡ true)
      × ((next : Run) × (after : Store) × (transition 20 fresh preparing none empty
            ≡ moved next after)
          × (lookup "run-1" after.runs ≡ some next)
          × (next.state ≡ preparing)
          × (after.events
              ≡ record { run_id = "run-1"; from = queued; to = preparing; reason = none } ∷ [])
          × (IsLegal next ↔ IsLegal fresh))
transition-IsLegal_iff_example = transition-IsLegal_iff 20 fresh preparing none empty

interrupted-IsLegal_iff_example :
    IsLegal (interrupted 20 asking) ↔ IsLegal asking × (waiting_for_human ≢ waiting_for_human)
unfolding is_left_alone is_terminal
interrupted-IsLegal_iff_example = interrupted-IsLegal_iff 20 asking refl
