-- ===== src/Waits/Samples.antt =====
-- A codec on documents: what `JSON.parse` makes of what `JSON.stringify` writes, for data and for what
-- is none.
use ai_orchestration.Prelude.{
  ℕ, String, ◌≡◌, refl, ap, ◌∙◌, true, Option, none, some, [], ◌∷◌, leb, if◌then◌else◌, arith,
}
use mathlib.Core.Path.{ap₂}
use ai_orchestration.Prelude.Dict.{Dict}
use ai_orchestration.Value.{
  Value, Items, Fields, undefined, null, boolean, number, nan, string, array, object, inherited,
  nil, cons, end, field, built,
}
use ai_orchestration.Graph.{WaitKind, HumanInputRequestSpec, HumanInputType, Surface}
use ai_orchestration.Waits.{StoredHumanInput, StoredSatisfaction, HumanInputChannel}
use ai_orchestration.Waits.Json.{
  Codec, is_json, are_items_json, are_fields_json, copy_of, copy_of_items, copy_of_fields,
  copy_of_dict, copy_of_stored_input, AreJson, IsTime, HasJsonInput, Each, on,
}

-- A member that is `undefined` or a function is left out.
written_field : String → (v reread : Value) → Fields → Fields
written_field k undefined r rest = rest
written_field k (inherited _) r rest = rest
written_field k _ r rest = field k r rest

mutual
  pub reread : Value → Value
  reread undefined = null
  reread nan = null
  reread (inherited _) = null
  reread null = null
  reread (boolean b) = boolean b
  reread (number n) = number n
  reread (string s) = string s
  reread (array _ items) = array (built ("parsed" ∷ [])) (reread_items items)
  reread (object _ fields) = object (built ("parsed" ∷ [])) (reread_fields fields)

  reread_items : Items → Items
  reread_items nil = nil
  reread_items (cons v rest) = cons (reread v) (reread_items rest)

  reread_fields : Fields → Fields
  reread_fields end = end
  reread_fields (field k v rest) = written_field k v (reread v) (reread_fields rest)

written_field-json :
    (k : String) (v r : Value) (rest : Fields)
    → is_json v ≡ true
    → written_field k v r rest ≡ field k r rest
unfolding written_field is_json
written_field-json k undefined r rest h = cc
written_field-json k nan r rest h = cc
written_field-json k (inherited _) r rest h = cc
written_field-json k null r rest h = refl
written_field-json k (boolean _) r rest h = refl
written_field-json k (number _) r rest h = refl
written_field-json k (string _) r rest h = refl
written_field-json k (array _ _) r rest h = refl
written_field-json k (object _ _) r rest h = refl

mutual
  unfolding reread copy_of is_json

  pub copy_of-reread : (v : Value) → is_json v ≡ true → copy_of (reread v) ≡ copy_of v
  copy_of-reread undefined h = cc
  copy_of-reread nan h = cc
  copy_of-reread (inherited _) h = cc
  copy_of-reread null h = refl
  copy_of-reread (boolean _) h = refl
  copy_of-reread (number _) h = refl
  copy_of-reread (string _) h = refl
  copy_of-reread (array _ items) h = ap (array (built [])) (copy_of_items-reread items h)
  copy_of-reread (object _ fields) h = ap (object (built [])) (copy_of_fields-reread fields h)

  copy_of_items-reread :
      (items : Items)
      → are_items_json items ≡ true
      → copy_of_items (reread_items items) ≡ copy_of_items items
  copy_of_items-reread nil h = refl
  copy_of_items-reread (cons v rest) h =
      ap₂ cons (copy_of-reread v (ground (arith, h)))
        (copy_of_items-reread rest (ground (arith, h)))

  copy_of_fields-reread :
      (fields : Fields)
      → are_fields_json fields ≡ true
      → copy_of_fields (reread_fields fields) ≡ copy_of_fields fields
  copy_of_fields-reread end h = refl
  copy_of_fields-reread (field k v rest) h =
      let here : is_json v ≡ true = ground (arith, h) in
      ap copy_of_fields (written_field-json k v (reread v) (reread_fields rest) here)
      ∙ ap₂ (field k) (copy_of-reread v here) (copy_of_fields-reread rest (ground (arith, h)))

written_member : String → (v reread : Value) → Dict Value → Dict Value
written_member k undefined r rest = rest
written_member k (inherited _) r rest = rest
written_member k _ r rest = (k, r) ∷ rest

pub reread_dict : Dict Value → Dict Value
unfolding written_member reread
reread_dict [] = []
reread_dict ((k, v) ∷ rest) = written_member k v (reread v) (reread_dict rest)

written_member-json :
    (k : String) (v r : Value) (rest : Dict Value)
    → is_json v ≡ true
    → written_member k v r rest ≡ (k, r) ∷ rest
unfolding written_member is_json
written_member-json k undefined r rest h = cc
written_member-json k nan r rest h = cc
written_member-json k (inherited _) r rest h = cc
written_member-json k null r rest h = refl
written_member-json k (boolean _) r rest h = refl
written_member-json k (number _) r rest h = refl
written_member-json k (string _) r rest h = refl
written_member-json k (array _ _) r rest h = refl
written_member-json k (object _ _) r rest h = refl

pub copy_of_dict-reread :
    (d : Dict Value) → AreJson d → copy_of_dict (reread_dict d) ≡ copy_of_dict d
unfolding reread_dict copy_of_dict AreJson
copy_of_dict-reread [] h = refl
copy_of_dict-reread ((k, v) ∷ rest) h =
    ap copy_of_dict (written_member-json k v (reread v) (reread_dict rest) h.0)
    ∙ ap₂ (λ (c : Value) (cs : Dict Value). (k, c) ∷ cs) (copy_of-reread v h.0)
        (copy_of_dict-reread rest h.1)

-- The documents of the four types that are written.
pub data Document : Type 0 where
  of_parameters : Dict Value → Document
  of_request : HumanInputRequestSpec → Document
  of_satisfaction : StoredSatisfaction ℕ → Document
  of_input : StoredHumanInput ℕ → Document

abbrev reread_input : StoredHumanInput ℕ → StoredHumanInput ℕ
reread_input i = record i { value = reread i.value }

abbrev as_parameters : Document → Dict Value
as_parameters (of_parameters p) = reread_dict p
as_parameters _ = []

abbrev as_request : Document → HumanInputRequestSpec
as_request (of_request r) = r
as_request _ = record {
  type = HumanInputType.text;
  prompt = "";
  surface = Surface.both;
  choices = none;
  secret_name = none;
  timeout_ms = none;
}

abbrev as_input : Document → StoredHumanInput ℕ
as_input (of_input i) = reread_input i
as_input _ = record {
  request_id = "";
  responder = "";
  channel = HumanInputChannel.app;
  at = 0;
  value = null;
}

abbrev as_satisfaction : Document → StoredSatisfaction ℕ
as_satisfaction (of_satisfaction s) = record s {
  input = on reread_input s.input;
  event = on reread_dict s.event;
}
as_satisfaction _ = record { kind = WaitKind.time; at = 0; input = none; event = none }

pub inputs-reread :
    (o : Option (StoredHumanInput ℕ))
    → Each HasJsonInput o
    → on copy_of_stored_input (on reread_input o) ≡ on copy_of_stored_input o
inputs-reread none h = refl
inputs-reread (some i) h = ap (λ (v : Value). some (with_value i v)) (copy_of-reread i.value h)
  where
    with_value : StoredHumanInput ℕ → Value → StoredHumanInput ℕ
    with_value i v = record i { value = v }

pub events-reread :
    (o : Option (Dict Value))
    → Each AreJson o
    → on copy_of_dict (on reread_dict o) ≡ on copy_of_dict o
events-reread none h = refl
events-reread (some d) h = ap some (copy_of_dict-reread d h)

-- A time out of range is no date.
abbrev as_date : ℕ → ℕ
as_date t = if leb t 8640000000000000 then t else 0

pub as_date-time : (t : ℕ) → IsTime t → as_date t ≡ t
unfolding IsTime
as_date-time t h = ground (arith, h)

abbrev pub documents : Codec ℕ Document
documents = record {
  iso = λ t. t;
  date = as_date;
  date-iso = as_date-time;
  parameters_json = of_parameters;
  json_parameters = as_parameters;
  json_parameters-json = copy_of_dict-reread;
  request_json = of_request;
  json_request = as_request;
  json_request-json = λ r. refl;
  satisfaction_json = of_satisfaction;
  json_satisfaction = as_satisfaction;
  json_satisfaction-json = λ s h. rw (inputs-reread s.input h.0, events-reread s.event h.1) refl;
  input_json = of_input;
  json_input = as_input;
  json_input-json = λ i h. rw (copy_of-reread i.value h) refl;
}
