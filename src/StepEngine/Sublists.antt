-- ===== src/StepEngine/Sublists.antt =====
-- packages/workflow/src/engine.ts: what is left in `inFlight` of the tasks of a race.
use ai_orchestration.Prelude.{
  ◌≤◌, ◌<◌, String, true, false, ◌≡◌, List, [], ◌∷◌, length, str_eq, Bool-cases, inl, inr, arith,
}
use ai_orchestration.Prelude.Names.{has, remove}
use ai_orchestration.StepEngine.Bounds.{length-remove}

pub data Sublist : List String → List String → Type 0 where
  empty : Sublist [] []
  keep : (a : String) (xs ys : List String) → Sublist xs ys → Sublist (a ∷ xs) (a ∷ ys)
  omit : (a : String) (xs ys : List String) → Sublist xs ys → Sublist xs (a ∷ ys)

pub Sublist-refl : (xs : List String) → Sublist xs xs
Sublist-refl [] = empty
Sublist-refl (a ∷ xs) = keep a xs xs (Sublist-refl xs)

pub Sublist-remove : (a : String) (xs ys : List String) → Sublist xs ys → Sublist (remove a xs) ys
unfolding remove
Sublist-remove a _ _ empty = empty
Sublist-remove a _ _ (keep b xs ys s) = elim (Bool-cases (str_eq b a)) [
  | inl e ↦ rw e (omit b (remove a xs) ys (Sublist-remove a xs ys s))
  | inr e ↦ rw e (keep b (remove a xs) ys (Sublist-remove a xs ys s))
]
Sublist-remove a _ _ (omit b xs ys s) = omit b (remove a xs) ys (Sublist-remove a xs ys s)

pub Sublist-length : (xs ys : List String) → Sublist xs ys → length xs ≤ length ys
Sublist-length _ _ empty = omega arith
Sublist-length _ _ (keep b xs ys s) = omega (arith, Sublist-length xs ys s)
Sublist-length _ _ (omit b xs ys s) = omega (arith, Sublist-length xs ys s)

-- One that is missing.
pub Sublist-missing :
    (a : String) (xs ys : List String)
    → Sublist xs ys
    → has a ys ≡ true
    → has a xs ≡ false
    → length xs < length ys
unfolding has
Sublist-missing a _ _ empty there gone = cc
Sublist-missing a _ _ (keep b xs ys s) there gone =
    ground (arith, there, gone, Sublist-missing a xs ys s)
Sublist-missing a _ _ (omit b xs ys s) there gone = omega (arith, Sublist-length xs ys s)

pub length-remove-has :
    (a : String) (xs : List String) → has a xs ≡ true → length (remove a xs) < length xs
unfolding remove has
length-remove-has a [] h = cc
length-remove-has a (x ∷ xs) h = ground (arith, h, length-remove-has a xs, length-remove a xs)
