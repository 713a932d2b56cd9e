-- ===== src/Waits/Json.antt =====
-- What packages/persistence/src/serde.ts relies on: `JSON.stringify` and `JSON.parse` give data back
-- as a copy, whose arrays and objects are new ones; `undefined`, `NaN` and functions are no data.
-- `toISOString` and `new Date` give back a time in the range that a `Date` has. What
-- they throw otherwise is left out.
use ai_orchestration.Prelude.{ℕ, ◌≤◌, ◌≡◌, Bool, true, false, ◌&&◌, Option, none, some, [], ◌∷◌}
use ai_orchestration.Prelude.Dict.{Dict}
use ai_orchestration.Value.{
  Value, Items, Fields, undefined, null, boolean, number, nan, string, array, object, inherited,
  nil, cons, end, field, built,
}
use ai_orchestration.Graph.{HumanInputRequestSpec}
use ai_orchestration.Waits.{
  WaitCondition, WaitSatisfaction, HumanInput, StoredHumanInput, StoredSatisfaction,
}

unfoldable mutual
  -- Whether a value is JSON data.
  pub is_json : Value → Bool
  is_json undefined = false
  is_json nan = false
  is_json (inherited _) = false
  is_json null = true
  is_json (boolean _) = true
  is_json (number _) = true
  is_json (string _) = true
  is_json (array _ items) = are_items_json items
  is_json (object _ fields) = are_fields_json fields

  pub are_items_json : Items → Bool
  are_items_json nil = true
  are_items_json (cons v rest) = is_json v && are_items_json rest

  pub are_fields_json : Fields → Bool
  are_fields_json end = true
  are_fields_json (field _ v rest) = is_json v && are_fields_json rest

unfoldable mutual
  -- A value without the identities of its arrays and objects: two values have the same copy if they
  -- differ in identities alone.
  pub copy_of : Value → Value
  copy_of (array _ items) = array (built []) (copy_of_items items)
  copy_of (object _ fields) = object (built []) (copy_of_fields fields)
  copy_of undefined = undefined
  copy_of null = null
  copy_of (boolean b) = boolean b
  copy_of (number n) = number n
  copy_of nan = nan
  copy_of (string s) = string s
  copy_of (inherited s) = inherited s

  pub copy_of_items : Items → Items
  copy_of_items nil = nil
  copy_of_items (cons v rest) = cons (copy_of v) (copy_of_items rest)

  pub copy_of_fields : Fields → Fields
  copy_of_fields end = end
  copy_of_fields (field k v rest) = field k (copy_of v) (copy_of_fields rest)

abbrev pub on {ℓ κ} : {A : Type ℓ} {B : Type κ} → (A → B) → Option A → Option B
on f none = none
on f (some a) = some (f a)

-- What holds of the value, if there is one.
abbrev pub Each {ℓ} : {A : Type ℓ} → (A → Type 0) → Option A → Type 0
Each P none = Unit
Each P (some a) = P a

unfoldable pub copy_of_dict : Dict Value → Dict Value
unfolding copy_of
copy_of_dict [] = []
copy_of_dict ((k, v) ∷ rest) = (k, copy_of v) ∷ copy_of_dict rest

unfoldable pub AreJson : Dict Value → Type 0
unfolding is_json
AreJson [] = Unit
AreJson ((k, v) ∷ rest) = (is_json v ≡ true) × AreJson rest

-- A time that a `Date` has.
unfoldable pub IsTime : ℕ → Type 0
IsTime t = t ≤ 8640000000000000

abbrev pub copy_of_stored_input : {Iso : Type 0} → StoredHumanInput Iso → StoredHumanInput Iso
copy_of_stored_input i = record i { value = copy_of i.value }

abbrev pub copy_of_stored : {Iso : Type 0} → StoredSatisfaction Iso → StoredSatisfaction Iso
copy_of_stored s = record s {
  input = on copy_of_stored_input s.input;
  event = on copy_of_dict s.event;
}

abbrev pub copy_of_input : HumanInput → HumanInput
copy_of_input i = record i { value = copy_of i.value }

abbrev pub copy_of_satisfaction : WaitSatisfaction → WaitSatisfaction
copy_of_satisfaction s = record s {
  input = on copy_of_input s.input;
  event = on copy_of_dict s.event;
}

abbrev pub copy_of_condition : WaitCondition → WaitCondition
copy_of_condition c = record c {
  parameters = copy_of_dict c.parameters;
  satisfaction = on copy_of_satisfaction c.satisfaction;
}

-- What an adapter can store: times of a `Date`, and JSON data.
abbrev pub IsStorableInput : HumanInput → Type 0
IsStorableInput i = IsTime i.at × (is_json i.value ≡ true)

abbrev pub IsStorableSatisfaction : WaitSatisfaction → Type 0
IsStorableSatisfaction s = IsTime s.at × Each IsStorableInput s.input × Each AreJson s.event

abbrev pub IsStorable : WaitCondition → Type 0
IsStorable c =
    AreJson c.parameters
    × IsTime c.created_at
    × Each IsTime c.due_at
    × Each IsTime c.satisfied_at
    × Each IsStorableSatisfaction c.satisfaction

-- The data of a stored satisfaction and of a stored input is JSON.
abbrev pub HasJsonInput : {Iso : Type 0} → StoredHumanInput Iso → Type 0
HasJsonInput i = is_json i.value ≡ true

abbrev pub HasJson : {Iso : Type 0} → StoredSatisfaction Iso → Type 0
HasJson s = Each HasJsonInput s.input × Each AreJson s.event

-- The texts of times and of JSON.
pub record Codec (Iso Json : Type 0) : Type 0 where
  pub iso : ℕ → Iso
  pub date : Iso → ℕ
  pub date-iso : (t : ℕ) → IsTime t → date (iso t) ≡ t
  pub parameters_json : Dict Value → Json
  pub json_parameters : Json → Dict Value
  pub json_parameters-json :
      (p : Dict Value)
      → AreJson p
      → copy_of_dict (json_parameters (parameters_json p)) ≡ copy_of_dict p
  pub request_json : HumanInputRequestSpec → Json
  pub json_request : Json → HumanInputRequestSpec
  pub json_request-json : (r : HumanInputRequestSpec) → json_request (request_json r) ≡ r
  pub satisfaction_json : StoredSatisfaction Iso → Json
  pub json_satisfaction : Json → StoredSatisfaction Iso
  pub json_satisfaction-json :
      (s : StoredSatisfaction Iso)
      → HasJson s
      → copy_of_stored (json_satisfaction (satisfaction_json s)) ≡ copy_of_stored s
  pub input_json : StoredHumanInput Iso → Json
  pub json_input : Json → StoredHumanInput Iso
  pub json_input-json :
      (i : StoredHumanInput Iso)
      → HasJsonInput i
      → copy_of_stored_input (json_input (input_json i)) ≡ copy_of_stored_input i
