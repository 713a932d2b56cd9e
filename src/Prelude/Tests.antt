-- ===== src/Prelude/Tests.antt =====
-- Boolean tests on numbers and texts, the conditional, and results that may be thrown errors.
use Prim.Native.Nat.{ℕ, ◌≤◌, ◌<◌, compare, Ordering}
use Prim.Native.String.{String, ◌++◌ as ◌⊕◌}
use text.Mathlib.Text.{◌==◌ as text_eq}
use text.Mathlib.TextEquality.{eq_iff}
use mathlib.Core.Path.{◌≡◌, refl, ap}
use mathlib.Core.Logic.{◌↔◌, ◌≢◌, ◌⊎◌, inl, inr}
use mathlib.Core.Bool.{Bool, true, false, ◌&&◌}
use mathlib.Core.Option.{Option, none, some}
use mathlib.Core.List.{List, [], ◌∷◌}
use native.Mathlib.Omega.{arith}

abbrev pub ltb : ℕ → ℕ → Bool
ltb a b = elim (compare a b) [ Ordering.lt ↦ true | _ ↦ false ]

abbrev pub leb : ℕ → ℕ → Bool
leb a b = elim (compare a b) [ Ordering.gt ↦ false | _ ↦ true ]

infix 50 ◌==◌
abbrev pub ◌==◌ : ℕ → ℕ → Bool
a == b = elim (compare a b) [ Ordering.eq ↦ true | _ ↦ false ]

infix 1 if◌then◌else◌
abbrev pub if◌then◌else◌ {ℓ} : {A : Type ℓ} → Bool → A → A → A
if true then x else y = x
if false then x else y = y

pub ltb→lt : (a b : ℕ) → ltb a b ≡ true → a < b
ltb→lt a b h = ground arith

pub lt→ltb : (a b : ℕ) → a < b → ltb a b ≡ true
lt→ltb a b h = ground arith

pub leb→le : (a b : ℕ) → leb a b ≡ true → a ≤ b
leb→le a b h = ground arith

-- To split on a computed value and keep the equation.
pub Bool-cases : (b : Bool) → (b ≡ true) ⊎ (b ≡ false)
Bool-cases true = inl refl
Bool-cases false = inr refl

pub Option-cases {ℓ} : {A : Type ℓ} (o : Option A) → (o ≡ none) ⊎ ((a : A) × (o ≡ some a))
Option-cases none = inl refl
Option-cases (some a) = inr (a, refl)

-- `x === undefined`, and `!x` for an optional object.
abbrev pub is_none {ℓ} : {A : Type ℓ} → Option A → Bool
is_none none = true
is_none (some _) = false

pub and-eq-true : (a b : Bool) → (a && b) ≡ true → (a ≡ true) × (b ≡ true)
and-eq-true a b h = ground arith

-- Texts. The test stays shut: the three lemmas below are all that proofs use of it.
unfoldable pub str_eq : String → String → Bool
str_eq a b = text_eq a b

pub str_eq_iff : (a b : String) → (str_eq a b ≡ true) ↔ (a ≡ b)
unfolding str_eq
str_eq_iff a b = eq_iff a b

pub str_eq_refl : (a : String) → str_eq a a ≡ true
str_eq_refl a = (str_eq_iff a a).1 refl

pub str_eq-false : (a b : String) → a ≢ b → str_eq a b ≡ false
str_eq-false a b ne = elim (Bool-cases (str_eq a b)) [
  | inl e ↦ absurd (ne ((str_eq_iff a b).0 e))
  | inr e ↦ e
]

-- A call that returns, or throws.
pub data Thrown {ℓ} (E : Type 0) (A : Type ℓ) : Type ℓ where
  ok : A → Thrown E A
  throw : E → Thrown E A

module _ {ℓ κ} {E : Type 0} {A : Type ℓ} {B : Type κ} where
  infixl 5 ◌>>=◌
  abbrev pub ◌>>=◌ : Thrown E A → (A → Thrown E B) → Thrown E B
  throw e >>= next = throw e
  ok a >>= next = next a

  -- A chain that returns has returned at its first step, with what the rest goes on from.
  pub >>=-eq-ok :
      (first : Thrown E A) (next : A → Thrown E B) {result : B}
      → (first >>= next) ≡ ok result
      → (x : A) × (first ≡ ok x) × (next x ≡ ok result)
  >>=-eq-ok (throw e) next returns = cc
  >>=-eq-ok (ok x) next returns = (x, refl, returns)

pub ok-injective {ℓ} :
    {E : Type 0} {A : Type ℓ} {x y : A} → ◌≡◌ {A = Thrown E A} (ok x) (ok y) → x ≡ y
ok-injective {E} {A} {x} e = ap value e
  where
    value : Thrown E A → A
    value (ok a) = a
    value (throw _) = x

pub Thrown-cases {ℓ} :
    {E : Type 0} {A : Type ℓ} (t : Thrown E A) → ((e : E) × (t ≡ throw e)) ⊎ ((x : A) × (t ≡ ok x))
Thrown-cases (throw e) = inl (e, refl)
Thrown-cases (ok x) = inr (x, refl)

-- A template literal, by its parts.
abbrev pub texts : List String → String
texts [] = ""
texts (s ∷ ss) = s ⊕ texts ss
