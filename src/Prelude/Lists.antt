-- ===== src/Prelude/Lists.antt =====
-- Lists measured by native numbers, Boolean searches of them, and predicates by recursion.
use Prim.Native.Nat.{ℕ, suc, ◌+◌}
use mathlib.Core.Path.{◌≡◌, refl, sym, subst}
use mathlib.Core.Logic.{inl, inr}
use mathlib.Core.Bool.{Bool, true, false, ◌&&◌, ◌||◌}
use mathlib.Core.Option.{Option, none, some, some-injective}
use mathlib.Core.List.Memᴰ
use mathlib.Core.List.{List, [], ◌∷◌, ◌++◌, Memᴰ}
use native.Mathlib.Omega.{arith}
use ai_orchestration.Prelude.Tests.{if◌then◌else◌, Bool-cases}

module _ {ℓ} {A : Type ℓ} where
  abbrev pub length : List A → ℕ
  length [] = 0
  length (x ∷ xs) = suc (length xs)

  pub length-append : (xs ys : List A) → length (xs ++ ys) ≡ length xs + length ys
  length-append [] ys = omega arith
  length-append (x ∷ xs) ys = omega (arith, length-append xs ys)

  abbrev pub any : (A → Bool) → List A → Bool
  any p [] = false
  any p (x ∷ xs) = p x || any p xs

  abbrev pub all : (A → Bool) → List A → Bool
  all p [] = true
  all p (x ∷ xs) = p x && all p xs

  abbrev pub filter : (A → Bool) → List A → List A
  filter p [] = []
  filter p (x ∷ xs) = let rest = filter p xs in if p x then x ∷ rest else rest

  abbrev pub find : (A → Bool) → List A → Option A
  find p [] = none
  find p (x ∷ xs) = if p x then some x else find p xs

  abbrev pub All {κ} : (A → Type κ) → List A → Type κ
  All P [] = Unit
  All P (x ∷ xs) = P x × All P xs

  pub All-mem {κ} : (P : A → Type κ) {x : A} (xs : List A) → All P xs → Memᴰ x xs → P x
  All-mem P [] h m = absurd (Memᴰ.not-nil m)
  All-mem P (y ∷ xs) h (Memᴰ.head e) = subst P (sym e) h.0
  All-mem P (y ∷ xs) h (Memᴰ.tail m) = All-mem P xs h.1 m

  pub All-of_mem {κ} : (P : A → Type κ) (xs : List A) → ((x : A) → Memᴰ x xs → P x) → All P xs
  All-of_mem P [] h = tt
  All-of_mem P (x ∷ xs) h = (h x (Memᴰ.head refl), All-of_mem P xs (λ y m. h y (Memᴰ.tail m)))

  -- What a filter keeps is in the list and passes the test, and the other way round.
  pub mem-filter :
      (p : A → Bool) {x : A} (xs : List A) → Memᴰ x (filter p xs) → Memᴰ x xs × (p x ≡ true)
  mem-filter p [] m = absurd (Memᴰ.not-nil m)
  mem-filter p {x} (y ∷ xs) m = elim (Bool-cases (p y)) [
    | inl e ↦ elim (Memᴰ.cases_cons (rw e at m)) [
      | inl q ↦ (Memᴰ.head q, rw q e)
      | inr r ↦ (Memᴰ.tail (mem-filter p xs r).0, (mem-filter p xs r).1)
    ]
    | inr e ↦ let r = mem-filter p xs (rw e at m) in (Memᴰ.tail r.0, r.1)
  ]

  pub filter-mem :
      (p : A → Bool) {x : A} (xs : List A) → Memᴰ x xs → p x ≡ true → Memᴰ x (filter p xs)
  filter-mem p [] m e = absurd (Memᴰ.not-nil m)
  filter-mem p {x} (y ∷ xs) (Memᴰ.head q) e = rw (← q, e) (Memᴰ.head refl)
  filter-mem p (y ∷ xs) (Memᴰ.tail m) e = elim (Bool-cases (p y)) [
    | inl h ↦ rw h (Memᴰ.tail (filter-mem p xs m e))
    | inr h ↦ rw h (filter-mem p xs m e)
  ]

  pub find-some :
      (p : A → Bool) {x : A} (xs : List A) → find p xs ≡ some x → Memᴰ x xs × (p x ≡ true)
  find-some p [] h = cc
  find-some p {x} (y ∷ xs) h = elim (Bool-cases (p y)) [
    | inl e ↦
        let q : y ≡ x = some-injective y x (rw e at h) in
        (Memᴰ.head (sym q), subst (λ z. p z ≡ true) q e)
    | inr e ↦ let r = find-some p xs (rw e at h) in (Memᴰ.tail r.0, r.1)
  ]

  pub any-mem : (p : A → Bool) (xs : List A) → any p xs ≡ true → (x : A) × Memᴰ x xs × (p x ≡ true)
  any-mem p [] h = cc
  any-mem p (y ∷ xs) h = elim (Bool-cases (p y)) [
    | inl e ↦ (y, Memᴰ.head refl, e)
    | inr e ↦ let r = any-mem p xs (rw e at h) in (r.0, Memᴰ.tail r.1, r.2)
  ]

  pub mem-any : (p : A → Bool) {x : A} (xs : List A) → Memᴰ x xs → p x ≡ true → any p xs ≡ true
  mem-any p [] m h = absurd (Memᴰ.not-nil m)
  mem-any p (y ∷ xs) (Memᴰ.head e) h = rw (← e, h)
  mem-any p (y ∷ xs) (Memᴰ.tail m) h = ground (arith, mem-any p xs m h)

  -- A property of the members of a list, from the head and from the rest.
  pub for_cons {κ} :
      (P : A → Type κ) {x : A} {xs : List A}
      → P x
      → ((y : A) → Memᴰ y xs → P y)
      → (y : A) → Memᴰ y (x ∷ xs)
      → P y
  for_cons P h rest y (Memᴰ.head e) = subst P (sym e) h
  for_cons P h rest y (Memᴰ.tail m) = rest y m

  pub All-map {κ μ} :
      (P : A → Type κ) (Q : A → Type μ) (xs : List A) → ((x : A) → P x → Q x) → All P xs → All Q xs
  All-map P Q [] f h = tt
  All-map P Q (x ∷ xs) f h = (f x h.0, All-map P Q xs f h.1)

  pub All-filter {κ} :
      (P : A → Type κ) (p : A → Bool) (xs : List A) → All P xs → All P (filter p xs)
  All-filter P p [] h = tt
  All-filter P p (x ∷ xs) h = elim (Bool-cases (p x)) [
    | inl e ↦ rw e (h.0, All-filter P p xs h.1)
    | inr e ↦ rw e (All-filter P p xs h.1)
  ]

  pub All-append_one {κ} :
      (P : A → Type κ) (xs : List A) (x : A) → All P xs → P x → All P (xs ++ x ∷ [])
  All-append_one P [] x h q = (q, tt)
  All-append_one P (y ∷ xs) x h q = (h.0, All-append_one P xs x h.1 q)
