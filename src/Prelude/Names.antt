-- ===== src/Prelude/Names.antt =====
-- A `Set<string>` as the list of its elements in insertion order.
use mathlib.Core.Path.{◌≡◌, refl}
use mathlib.Core.Bool.{Bool, true, false, not, ◌&&◌, ◌||◌}
use mathlib.Core.List.{List, [], ◌∷◌, ◌++◌}
use mathlib.Core.Logic.{inl, inr}
use Prim.Native.String.{String}
use native.Mathlib.Omega.{arith}
use ai_orchestration.Prelude.Tests.{Bool-cases, if◌then◌else◌, str_eq, str_eq_iff}

unfoldable pub has : String → List String → Bool
has a [] = false
has a (x ∷ xs) = str_eq x a || has a xs

-- `set.add(a)`: at the end, unless it is there.
unfoldable pub add : String → List String → List String
unfolding has
add a xs = if has a xs then xs else xs ++ a ∷ []

-- `set.delete(a)`
unfoldable pub remove : String → List String → List String
remove a [] = []
remove a (x ∷ xs) = let rest = remove a xs in if str_eq x a then rest else x ∷ rest

pub has-append : (a : String) (xs ys : List String) → has a (xs ++ ys) ≡ (has a xs || has a ys)
unfolding has
has-append a [] ys = refl
has-append a (x ∷ xs) ys = ground (arith, has-append a xs ys)

has_of_eq : (a b : String) → str_eq a b ≡ true → (xs : List String) → has a xs ≡ has b xs
has_of_eq a b e xs = rw ((str_eq_iff a b).0 e)

pub has-add : (a b : String) (xs : List String) → has b (add a xs) ≡ (str_eq a b || has b xs)
unfolding add has
has-add a b xs = ground (arith, has-append b xs (a ∷ []), has_of_eq a b, str_eq_iff a b)

pub has-remove :
    (a b : String) (xs : List String) → has b (remove a xs) ≡ (not (str_eq a b) && has b xs)
unfolding remove has
has-remove a b [] = ground arith
has-remove a b (x ∷ xs) =
    ground (arith, has-remove a b xs, str_eq_iff x a, str_eq_iff x b, str_eq_iff a b)

-- No name stands twice.
abbrev pub Distinct : List String → Type 0
Distinct [] = Unit
Distinct (a ∷ rest) = (has a rest ≡ false) × Distinct rest

Distinct-append :
    (a : String) (xs : List String) → has a xs ≡ false → Distinct xs → Distinct (xs ++ a ∷ [])
unfolding has
Distinct-append a [] h d = (refl, tt)
Distinct-append a (x ∷ xs) h d = (
  ground (arith, has-append x xs (a ∷ []), d.0, h, str_eq_iff x a, str_eq_iff a x),
  Distinct-append a xs (ground (arith, h)) d.1,
)

pub Distinct-add : (a : String) (xs : List String) → Distinct xs → Distinct (add a xs)
unfolding add
Distinct-add a xs d = elim (Bool-cases (has a xs)) [
  | inl e ↦ rw e d
  | inr e ↦ rw e (Distinct-append a xs e d)
]
