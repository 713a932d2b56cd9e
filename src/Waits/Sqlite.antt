-- ===== src/Waits/Sqlite.antt =====
-- packages/persistence/src/wait-repository.ts: the rows of `SqliteWaitRepository`. The table
-- `wait_conditions` has one row for each id, its primary key.
use ai_orchestration.Prelude.{ℕ, String, ◌≡◌, refl, ap, ◌∙◌, Option, none, some}
use ai_orchestration.Graph.{WaitKind, HumanInputRequestSpec}
use ai_orchestration.Waits.{
  WaitCondition, WaitConditionStatus, WaitSatisfaction, HumanInput, StoredHumanInput,
  StoredSatisfaction,
}
use ai_orchestration.Waits.Json.{
  Codec, on, Each, IsTime, IsStorableInput, IsStorableSatisfaction, IsStorable, HasJson,
  HasJsonInput, copy_of_stored, copy_of_stored_input, copy_of_input, copy_of_satisfaction,
  copy_of_condition, copy_of_dict,
}

pub record WaitConditionRow (Iso Json : Type 0) : Type 0 where
  pub run_id : String
  pub node_id : String
  pub kind : WaitKind
  pub parameters : Json
  pub request : Option Json
  pub status : WaitConditionStatus
  pub created_at : Iso
  pub due_at : Option Iso
  pub satisfied_at : Option Iso
  pub satisfaction : Option Json

pub record SupplementalRow (Iso Json : Type 0) : Type 0 where
  pub wait_id : String
  pub run_id : String
  pub input : Json
  pub promoted_at : Option Iso

module _ {Iso Json : Type 0} (codec : Codec Iso Json) where
  unfoldable pub to_stored_input : HumanInput → StoredHumanInput Iso
  to_stored_input i = record {
    request_id = i.request_id;
    responder = i.responder;
    channel = i.channel;
    at = codec.iso i.at;
    value = i.value;
  }

  unfoldable pub from_stored_input : StoredHumanInput Iso → HumanInput
  from_stored_input i = record {
    request_id = i.request_id;
    responder = i.responder;
    channel = i.channel;
    at = codec.date i.at;
    value = i.value;
  }

  unfoldable pub to_stored_satisfaction : WaitSatisfaction → StoredSatisfaction Iso
  unfolding to_stored_input
  to_stored_satisfaction s = record {
    kind = s.kind;
    at = codec.iso s.at;
    input = on to_stored_input s.input;
    event = s.event;
  }

  unfoldable pub from_stored_satisfaction : StoredSatisfaction Iso → WaitSatisfaction
  unfolding from_stored_input
  from_stored_satisfaction s = record {
    kind = s.kind;
    at = codec.date s.at;
    input = on from_stored_input s.input;
    event = s.event;
  }

  -- The columns that `save` writes, and the condition that a row is read as.
  unfoldable pub condition_to_row : WaitCondition → WaitConditionRow Iso Json
  unfolding to_stored_satisfaction
  condition_to_row c = record {
    run_id = c.run_id;
    node_id = c.node_id;
    kind = c.kind;
    parameters = codec.parameters_json c.parameters;
    request = on codec.request_json c.request;
    status = c.status;
    created_at = codec.iso c.created_at;
    due_at = on codec.iso c.due_at;
    satisfied_at = on codec.iso c.satisfied_at;
    satisfaction = on (λ s. codec.satisfaction_json (to_stored_satisfaction s)) c.satisfaction;
  }

  unfoldable pub row_to_condition : String → WaitConditionRow Iso Json → WaitCondition
  unfolding from_stored_satisfaction
  row_to_condition id row = record {
    id = id;
    run_id = row.run_id;
    node_id = row.node_id;
    kind = row.kind;
    parameters = codec.json_parameters row.parameters;
    request = on codec.json_request row.request;
    status = row.status;
    created_at = codec.date row.created_at;
    due_at = on codec.date row.due_at;
    satisfied_at = on codec.date row.satisfied_at;
    satisfaction = on (λ j. from_stored_satisfaction (codec.json_satisfaction j)) row.satisfaction;
  }

  -- What comes back of a time that may be missing, and of a request.
  times-back : (o : Option ℕ) → Each IsTime o → on codec.date (on codec.iso o) ≡ o
  times-back none h = refl
  times-back (some t) h = ap some (codec.date-iso t h)

  requests-back :
      (o : Option HumanInputRequestSpec) → on codec.json_request (on codec.request_json o) ≡ o
  requests-back none = refl
  requests-back (some r) = ap some (codec.json_request-json r)

  -- A copy of what is read is what is read of a copy.
  inputs_of_copies :
      (o : Option (StoredHumanInput Iso))
      → on copy_of_input (on from_stored_input o) ≡ on from_stored_input (on copy_of_stored_input o)
  unfolding from_stored_input
  inputs_of_copies none = refl
  inputs_of_copies (some i) = refl

  copy_of_satisfaction-from :
      (s : StoredSatisfaction Iso)
      → copy_of_satisfaction (from_stored_satisfaction s)
        ≡ from_stored_satisfaction (copy_of_stored s)
  unfolding from_stored_satisfaction
  copy_of_satisfaction-from s =
      ap (λ (o : Option HumanInput). with_input s o) (inputs_of_copies s.input)
    where
      with_input : StoredSatisfaction Iso → Option HumanInput → WaitSatisfaction
      with_input s o = record {
        kind = s.kind;
        at = codec.date s.at;
        input = o;
        event = on copy_of_dict s.event;
      }

  inputs-back :
      (o : Option HumanInput)
      → Each IsStorableInput o
      → on from_stored_input (on copy_of_stored_input (on to_stored_input o)) ≡ on copy_of_input o
  unfolding from_stored_input to_stored_input
  inputs-back none h = refl
  inputs-back (some i) h = rw (codec.date-iso i.at h.0) refl

  HasJsonInput-to :
      (o : Option HumanInput) → Each IsStorableInput o → Each HasJsonInput (on to_stored_input o)
  unfolding to_stored_input
  HasJsonInput-to none h = tt
  HasJsonInput-to (some i) h = h.1

  HasJson-to :
      (s : WaitSatisfaction) → IsStorableSatisfaction s → HasJson (to_stored_satisfaction s)
  unfolding to_stored_satisfaction
  HasJson-to s h = (HasJsonInput-to s.input h.1, h.2)

  -- A response that is written and read back.
  unfoldable pub kept_satisfaction : WaitSatisfaction → WaitSatisfaction
  unfolding from_stored_satisfaction to_stored_satisfaction
  kept_satisfaction s =
      from_stored_satisfaction
        (codec.json_satisfaction (codec.satisfaction_json (to_stored_satisfaction s)))

  pub kept_satisfaction-copy :
      (s : WaitSatisfaction)
      → IsStorableSatisfaction s
      → copy_of_satisfaction (kept_satisfaction s) ≡ copy_of_satisfaction s
  unfolding kept_satisfaction from_stored_satisfaction to_stored_satisfaction
  kept_satisfaction-copy s h =
      copy_of_satisfaction-from
        (codec.json_satisfaction (codec.satisfaction_json (to_stored_satisfaction s)))
      ∙ ap from_stored_satisfaction
          (codec.json_satisfaction-json (to_stored_satisfaction s) (HasJson-to s h))
      ∙ rw (codec.date-iso s.at h.0, inputs-back s.input h.1) refl

  satisfactions-back :
      (o : Option WaitSatisfaction)
      → Each IsStorableSatisfaction o
      → on copy_of_satisfaction (
          on
            (λ j. from_stored_satisfaction (codec.json_satisfaction j))
            (on (λ s. codec.satisfaction_json (to_stored_satisfaction s)) o))
        ≡ on copy_of_satisfaction o
  unfolding kept_satisfaction
  satisfactions-back none h = refl
  satisfactions-back (some s) h = ap some (kept_satisfaction-copy s h)

  -- A condition whose times are times of a `Date`, and whose parameters, response and event are
  -- JSON data, is the same when it is written to a row and read back, whatever its state and its
  -- optional parts, but for the identities of the arrays and objects in that data.
  pub row_to_condition-condition_to_row :
      (c : WaitCondition)
      → IsStorable c
      → copy_of_condition (row_to_condition c.id (condition_to_row c)) ≡ copy_of_condition c
  unfolding row_to_condition condition_to_row
  row_to_condition-condition_to_row c (parameters, created, due, at, satisfaction) =
      rw
        (
          codec.json_parameters-json c.parameters parameters,
          requests-back c.request,
          codec.date-iso c.created_at created,
          times-back c.due_at due,
          times-back c.satisfied_at at,
          satisfactions-back c.satisfaction satisfaction,
        )
        refl
