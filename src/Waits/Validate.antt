-- ===== src/Waits/Validate.antt =====
-- packages/core/src/waits.ts: `validateHumanInputValue`.

use mathlib.Core.List.{Memᴰ}
use ai_orchestration.Prelude.{
  String, Bool, true, false, not, ◌&&◌, ◌≡◌, ◌≢◌, ◌↔◌, refl, none, some, List, [], any, any-mem,
  mem-any, str_eq, str_eq_iff, str_eq_refl, str_eq-false, and-eq-true, Thrown, ok, throw, subst,
  arith,
}
use ai_orchestration.Value.{
  Value, Items, Identity, string, boolean, array, nil, cons, undefined, null, number, nan, object,
  inherited,
}
use ai_orchestration.Graph.{HumanInputRequestSpec, HumanInputType}

-- `InputValidationFailure`, by its message.
pub data InputValidationFailure : Type 0 where
  requires_text requires_secret_name requires_boolean : InputValidationFailure
  requires_choice requires_choices : InputValidationFailure

abbrev text_given : Value → Bool
text_given (string s) = not (str_eq s "")
text_given _ = false

abbrev boolean_given : Value → Bool
boolean_given (boolean b) = true
boolean_given _ = false

-- `(spec.choices ?? []).includes(value)`, for a text.
abbrev offers : List String → String → Bool
offers choices s = any (λ c. str_eq c s) choices

abbrev choice_given : List String → Value → Bool
choice_given choices (string s) = offers choices s
choice_given choices _ = false

abbrev all_chosen : List String → Items → Bool
all_chosen choices nil = true
all_chosen choices (cons v rest) = choice_given choices v && all_chosen choices rest

abbrev choices_given : List String → Value → Bool
choices_given choices (array id (cons v rest)) = all_chosen choices (cons v rest)
choices_given choices _ = false

abbrev pub offered : HumanInputRequestSpec → List String
offered spec = elim spec.choices [ none ↦ [] | some cs ↦ cs ]

abbrev demand : Bool → InputValidationFailure → Thrown {0} InputValidationFailure Unit
demand true e = ok tt
demand false e = throw e

abbrev check_value : HumanInputType → List String → Value → Thrown {0} InputValidationFailure Unit
check_value HumanInputType.text choices value = demand (text_given value) requires_text
check_value HumanInputType.free_form choices value = demand (text_given value) requires_text
check_value HumanInputType.file_reference choices value = demand (text_given value) requires_text
check_value HumanInputType.secret choices value = demand (text_given value) requires_secret_name
check_value HumanInputType.boolean choices value = demand (boolean_given value) requires_boolean
check_value HumanInputType.approval choices value = demand (boolean_given value) requires_boolean
check_value HumanInputType.single_choice choices value =
    demand (choice_given choices value) requires_choice
check_value HumanInputType.multiple_choice choices value =
    demand (choices_given choices value) requires_choices

unfoldable pub validate_human_input_value :
    HumanInputRequestSpec → Value → Thrown {0} InputValidationFailure Unit
validate_human_input_value spec value = check_value spec.type (offered spec) value

-- The members of an array.
abbrev AllItems : (Value → Type 0) → Items → Type 0
AllItems P nil = Unit
AllItems P (cons v rest) = P v × AllItems P rest

abbrev IsText : Value → Type 0
IsText v = (s : String) × (v ≡ string s) × (s ≢ "")

abbrev IsBoolean : Value → Type 0
IsBoolean v = (b : Bool) × (v ≡ boolean b)

abbrev IsChoice : List String → Value → Type 0
IsChoice choices v = (s : String) × (v ≡ string s) × Memᴰ s choices

abbrev IsChoices : List String → Value → Type 0
IsChoices choices v =
    (id : Identity) × (first : Value) × (rest : Items) × (v ≡ array id (cons first rest))
    × AllItems (IsChoice choices) (cons first rest)

-- What a request of each type accepts.
abbrev pub Accepts : HumanInputType → List String → Value → Type 0
Accepts HumanInputType.text choices v = IsText v
Accepts HumanInputType.free_form choices v = IsText v
Accepts HumanInputType.file_reference choices v = IsText v
Accepts HumanInputType.secret choices v = IsText v
Accepts HumanInputType.boolean choices v = IsBoolean v
Accepts HumanInputType.approval choices v = IsBoolean v
Accepts HumanInputType.single_choice choices v = IsChoice choices v
Accepts HumanInputType.multiple_choice choices v = IsChoices choices v

text_given_iff : (v : Value) → (text_given v ≡ true) ↔ IsText v
text_given_iff v = (onto v, λ (s, e, ne). rw (e, str_eq-false s "" ne) refl)
  where
    onto : (v : Value) → text_given v ≡ true → IsText v
    onto (string s) h = (s, refl, λ e. not_empty s e h)
      where
        not_empty : (s : String) → s ≡ "" → not (str_eq s "") ≡ true → ⊥
        not_empty s e h = ground (arith, h, str_eq_iff s "", e)
    onto undefined h = cc
    onto null h = cc
    onto (boolean b) h = cc
    onto (number n) h = cc
    onto nan h = cc
    onto (array i items) h = cc
    onto (object i fields) h = cc
    onto (inherited n) h = cc

boolean_given_iff : (v : Value) → (boolean_given v ≡ true) ↔ IsBoolean v
boolean_given_iff v = (onto v, λ (b, e). rw e refl)
  where
    onto : (v : Value) → boolean_given v ≡ true → IsBoolean v
    onto (boolean b) h = (b, refl)
    onto undefined h = cc
    onto null h = cc
    onto (string s) h = cc
    onto (number n) h = cc
    onto nan h = cc
    onto (array i items) h = cc
    onto (object i fields) h = cc
    onto (inherited n) h = cc

choice_given_iff :
    (choices : List String) (v : Value) → (choice_given choices v ≡ true) ↔ IsChoice choices v
choice_given_iff choices v =
    (onto v, λ (s, e, m). rw e (mem-any (λ c. str_eq c s) choices m (str_eq_refl s)))
  where
    onto : (v : Value) → choice_given choices v ≡ true → IsChoice choices v
    onto (string s) h =
        let (c, m, e) = any-mem (λ c. str_eq c s) choices h in
        (s, refl, subst (λ t. Memᴰ t choices) ((str_eq_iff c s).0 e) m)
    onto undefined h = cc
    onto null h = cc
    onto (boolean b) h = cc
    onto (number n) h = cc
    onto nan h = cc
    onto (array i items) h = cc
    onto (object i fields) h = cc
    onto (inherited n) h = cc

all_chosen-AllItems :
    (choices : List String) (items : Items)
    → all_chosen choices items ≡ true
    → AllItems (IsChoice choices) items
all_chosen-AllItems choices nil h = tt
all_chosen-AllItems choices (cons v rest) h =
    let (here, later) = and-eq-true (choice_given choices v) (all_chosen choices rest) h in
    ((choice_given_iff choices v).0 here, all_chosen-AllItems choices rest later)

AllItems-all_chosen :
    (choices : List String) (items : Items)
    → AllItems (IsChoice choices) items
    → all_chosen choices items ≡ true
AllItems-all_chosen choices nil h = refl
AllItems-all_chosen choices (cons v rest) h =
    rw ((choice_given_iff choices v).1 h.0) (AllItems-all_chosen choices rest h.1)

choices_given_iff :
    (choices : List String) (v : Value) → (choices_given choices v ≡ true) ↔ IsChoices choices v
choices_given_iff choices v =
    (onto v, λ (id, first, rest, e, all). rw e (AllItems-all_chosen choices (cons first rest) all))
  where
    onto : (v : Value) → choices_given choices v ≡ true → IsChoices choices v
    onto (array i (cons first rest)) h =
        (i, first, rest, refl, all_chosen-AllItems choices (cons first rest) h)
    onto (array i nil) h = cc
    onto (string s) h = cc
    onto undefined h = cc
    onto null h = cc
    onto (boolean b) h = cc
    onto (number n) h = cc
    onto nan h = cc
    onto (object i fields) h = cc
    onto (inherited n) h = cc

demand_iff : (b : Bool) (e : InputValidationFailure) → (demand b e ≡ ok tt) ↔ (b ≡ true)
demand_iff true e = (λ h. refl, λ h. refl)
demand_iff false e = (λ h. cc, λ h. cc)

-- A response is let through exactly when its value is of the kind that the request asks for: a
-- non-empty text, a boolean, one of the offered choices, or a non-empty array of them.
pub validate_human_input_value-Accepts_iff :
    (spec : HumanInputRequestSpec) (value : Value)
    → (validate_human_input_value spec value ≡ ok tt) ↔ Accepts spec.type (offered spec) value
unfolding validate_human_input_value
validate_human_input_value-Accepts_iff spec value = by_type spec.type (offered spec)
  where
    through :
        {P : Type 0} {b : Bool} (e : InputValidationFailure)
        → ((b ≡ true) ↔ P)
        → (demand b e ≡ ok tt) ↔ P
    through {P} {b} e i = (λ h. i.0 ((demand_iff b e).0 h), λ p. (demand_iff b e).1 (i.1 p))

    by_type :
        (t : HumanInputType) (cs : List String)
        → (check_value t cs value ≡ ok tt) ↔ Accepts t cs value
    by_type HumanInputType.text cs = through requires_text (text_given_iff value)
    by_type HumanInputType.free_form cs = through requires_text (text_given_iff value)
    by_type HumanInputType.file_reference cs = through requires_text (text_given_iff value)
    by_type HumanInputType.secret cs = through requires_secret_name (text_given_iff value)
    by_type HumanInputType.boolean cs = through requires_boolean (boolean_given_iff value)
    by_type HumanInputType.approval cs = through requires_boolean (boolean_given_iff value)
    by_type HumanInputType.single_choice cs = through requires_choice (choice_given_iff cs value)
    by_type HumanInputType.multiple_choice cs =
        through requires_choices (choices_given_iff cs value)
