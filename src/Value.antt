-- ===== src/Value.antt =====
-- The JavaScript values that expressions see: what packages/workflow/src/graph-engine/scope-expr.ts
-- calls `unknown`, and its `Scope`. `===` compares objects by identity, so an object and an array
-- carry the identity that they have.
use ai_orchestration.Prelude.{ℕ, String, Bool, true, false, ◌&&◌, ◌==◌, List, [], ◌∷◌, str_eq}

-- ± digits · 10 ^ (- places), with no zero at the end of the places, and zero not negative.
pub record Decimal : Type 0 where
  pub is_negative : Bool
  pub digits : ℕ
  pub places : ℕ

-- An object of the program's heap, or one that the engine builds for an evaluation, which is
-- known by the path under which the scope holds it.
pub data Identity : Type 0 where
  heap : ℕ → Identity
  built : List String → Identity

mutual
  pub data Value : Type 0 where
    undefined : Value
    null : Value
    boolean : Bool → Value
    number : Decimal → Value
    -- `NaN`
    nan : Value
    string : String → Value
    array : Identity → Items → Value
    object : Identity → Fields → Value
    -- A member that every object or every array inherits, such as `toString`.
    inherited : String → Value

  pub data Items : Type 0 where
    nil : Items
    cons : Value → Items → Items

  pub data Fields : Type 0 where
    end : Fields
    field : String → Value → Fields → Fields

abbrev pub bool_eq : Bool → Bool → Bool
bool_eq true b = b
bool_eq false true = false
bool_eq false false = true

abbrev pub decimal_eq : Decimal → Decimal → Bool
decimal_eq a b = bool_eq a.is_negative b.is_negative && a.digits == b.digits && a.places == b.places

abbrev pub names_eq : List String → List String → Bool
names_eq [] [] = true
names_eq (x ∷ xs) (y ∷ ys) = str_eq x y && names_eq xs ys
names_eq _ _ = false

abbrev pub same_object : Identity → Identity → Bool
same_object (heap a) (heap b) = a == b
same_object (built p) (built q) = names_eq p q
same_object _ _ = false
