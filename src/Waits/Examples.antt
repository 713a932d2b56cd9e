-- ===== src/Waits/Examples.antt =====
-- A wait that two people answer, of a run that is cancelled in between.
use ai_orchestration.Prelude.{
  ℕ, String, true, false, ◌≡◌, ◌↔◌, refl, arith, none, some, List, [], ◌∷◌, str_eq, ok,
}
use ai_orchestration.Prelude.Dict.{lookup, insert}
use ai_orchestration.Value.{string, array, object, heap, cons, nil, field, end}
use ai_orchestration.Graph.{WaitKind, HumanInputRequestSpec, HumanInputType, Surface}
use ai_orchestration.Waits.{WaitCondition, WaitConditionStatus, WaitSatisfaction, HumanInputChannel}
use ai_orchestration.Waits.Contract.{satisfy, on_some}
use ai_orchestration.Waits.Validate.{
  validate_human_input_value, validate_human_input_value-Accepts_iff, Accepts,
}
use ai_orchestration.Waits.Memory.{memory_waits, Waits}
use ai_orchestration.Waits.Memory
use ai_orchestration.Waits.Json.{
  AreJson, IsTime, is_json, IsStorable, IsStorableSatisfaction, copy_of_condition,
}
use ai_orchestration.Waits.Sqlite.{
  row_to_condition, condition_to_row, row_to_condition-condition_to_row,
}
use ai_orchestration.Waits.Samples.{documents}
use ai_orchestration.Waits.Table.{sqlite_waits, Tables}
use ai_orchestration.Waits.Table
use ai_orchestration.Waits.FirstWins.{
  WaitOp, saves, responds, cancels, steps, answers, no_waits, no_rows, try_satisfy-first_wins,
  adapters_of_waits_agree,
}

abbrev question : HumanInputRequestSpec
question = record {
  type = HumanInputType.single_choice;
  prompt = "Which?";
  surface = Surface.both;
  choices = some ("left" ∷ "right" ∷ []);
  secret_name = none;
  timeout_ms = none;
}

abbrev answer_of : String → ℕ → WaitSatisfaction
answer_of who at = record {
  kind = WaitKind.human_input;
  at = at;
  input = some (record {
    request_id = "w1";
    responder = who;
    channel = HumanInputChannel.app;
    at = at;
    value = string "left";
  });
  event = none;
}

abbrev wait : WaitCondition
wait = record {
  id = "w1";
  run_id = "r1";
  node_id = "ask";
  kind = WaitKind.human_input;
  parameters = [];
  request = some question;
  status = WaitConditionStatus.is_open;
  created_at = 1;
  due_at = some 9;
  satisfied_at = none;
  satisfaction = none;
}

abbrev race : List WaitOp
race =
    saves wait
    ∷ responds "w1" (answer_of "ann" 5)
    ∷ cancels "r1"
    ∷ responds "w1" (answer_of "bob" 6)
    ∷ []

raced : answers memory_waits race no_waits ≡ [] ∷ (true ∷ []) ∷ [] ∷ (false ∷ []) ∷ []
unfolding answers Memory.save Memory.get Memory.try_satisfy Memory.cancel_for_run lookup insert
    str_eq
raced = refl

wait-IsStorable : IsStorable wait
unfolding AreJson IsTime
wait-IsStorable = (tt, omega arith, omega arith, tt, tt)

answer-IsStorable : (who : String) → IsStorableSatisfaction (answer_of who 5)
unfolding is_json IsTime
answer-IsStorable who = (omega arith, (omega arith, refl), tt)

late_answer-IsStorable : (who : String) → IsStorableSatisfaction (answer_of who 6)
unfolding is_json IsTime
late_answer-IsStorable who = (omega arith, (omega arith, refl), tt)

adapters_of_waits_agree_example :
    (answers (sqlite_waits documents) race no_rows ≡ answers memory_waits race no_waits)
    × ((id : String)
        → on_some copy_of_condition
            (Table.get documents id (steps (sqlite_waits documents) race no_rows))
          ≡ on_some copy_of_condition (Memory.get id (steps memory_waits race no_waits)))
adapters_of_waits_agree_example =
    adapters_of_waits_agree documents race
      (wait-IsStorable, (answer-IsStorable "ann", (tt, (late_answer-IsStorable "bob", tt))))

-- The same wait, satisfied, with parameters and an event that hold objects.
abbrev settled : WaitCondition
settled = record wait {
  parameters =
      ("fields", array (heap 1) (cons (object (heap 2) (field "name" (string "x") end)) nil)) ∷ [];
  status = WaitConditionStatus.satisfied;
  satisfied_at = some 5;
  satisfaction = some (answer_of "ann" 5);
}

settled-IsStorable : IsStorable settled
unfolding AreJson IsTime
settled-IsStorable = ((refl, tt), omega arith, omega arith, omega arith, answer-IsStorable "ann")

row_to_condition-condition_to_row_example :
    copy_of_condition (row_to_condition documents "w1" (condition_to_row documents settled))
    ≡ copy_of_condition settled
row_to_condition-condition_to_row_example =
    row_to_condition-condition_to_row documents settled settled-IsStorable

abbrev saved : Waits
saved = Memory.save wait no_waits

first_won : (Memory.try_satisfy "w1" (answer_of "ann" 5) saved).1 ≡ true
unfolding Memory.save Memory.try_satisfy lookup insert str_eq
first_won = refl

try_satisfy-first_wins_example :
    let t =
      steps memory_waits
        (cancels "r1" ∷ [])
        (Memory.try_satisfy "w1" (answer_of "ann" 5) saved).0 in
    (Memory.get "w1" t ≡ on_some (satisfy (5, answer_of "ann" 5)) (Memory.get "w1" saved))
    × ((Memory.try_satisfy "w1" (answer_of "bob" 6) t).1 ≡ false)
    × (Memory.get "w1" (Memory.try_satisfy "w1" (answer_of "bob" 6) t).0
        ≡ on_some (satisfy (5, answer_of "ann" 5)) (Memory.get "w1" saved))
try_satisfy-first_wins_example =
    try_satisfy-first_wins memory_waits saved "w1" (answer_of "ann" 5) (answer_of "bob" 6)
      (cancels "r1" ∷ []) first_won (refl, tt)

validate_human_input_value-Accepts_iff_example :
    (validate_human_input_value question (string "left") ≡ ok tt)
    ↔ Accepts HumanInputType.single_choice ("left" ∷ "right" ∷ []) (string "left")
validate_human_input_value-Accepts_iff_example =
    validate_human_input_value-Accepts_iff question (string "left")
