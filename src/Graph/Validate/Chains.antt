-- ===== src/Graph/Validate/Chains.antt =====
-- packages/core/src/graph-validate.ts: chains of declared transitions, and the transitions that lead
-- out of nodes that a search has not visited.
use mathlib.Core.List.Memᴰ
use mathlib.Core.List.{Memᴰ}
use ai_orchestration.Prelude.{
  ℕ, suc, String, ◌+◌, ◌≤◌, ◌≡◌, refl, ap, subst, inl, inr, true, false, List, [], ◌∷◌, str_eq,
  str_eq_iff, if◌then◌else◌, length, arith, Bool-cases,
}
use ai_orchestration.Prelude.Names.{has, add, has-add}
use ai_orchestration.Graph.{GraphTransition}
use ai_orchestration.Graph.Validate.{targets}

-- There is a chain of declared transitions.
pub data Reaches (ts : List GraphTransition) (a : String) : String → Type 0 where
  here : Reaches ts a a
  next :
      {b c : String} (t : GraphTransition)
      → Reaches ts a b
      → Memᴰ t ts
      → t.from ≡ b
      → t.to ≡ c
      → Reaches ts a c

pub targets_sound :
    (c : String) (ts : List GraphTransition) (x : String)
    → has x (targets c ts) ≡ true
    → (t : GraphTransition) × Memᴰ t ts × (t.from ≡ c) × (t.to ≡ x)
unfolding targets has
targets_sound c [] x h = cc
targets_sound c (t ∷ ts) x h = elim (Bool-cases (str_eq t.from c)) [
  | inr other ↦ let (u, m, f, e) = targets_sound c ts x (rw other at h) in (u, Memᴰ.tail m, f, e)
  | inl same ↦ elim (Bool-cases (str_eq t.to x)) [
    | inl this ↦ (t, Memᴰ.head refl, (str_eq_iff t.from c).0 same, (str_eq_iff t.to x).0 this)
    | inr later ↦
        let (u, m, f, e) = targets_sound c ts x (rw (same, later) at h) in (u, Memᴰ.tail m, f, e)
  ]
]

pub targets_complete :
    (c : String) (ts : List GraphTransition) (t : GraphTransition)
    → Memᴰ t ts
    → t.from ≡ c
    → has t.to (targets c ts) ≡ true
unfolding targets has
targets_complete c [] t m e = absurd (Memᴰ.not-nil m)
targets_complete c (u ∷ ts) t (Memᴰ.head q) e =
    subst
      (λ (v : GraphTransition).
        has t.to (if str_eq v.from c then v.to ∷ targets c ts else targets c ts) ≡ true)
      q (rw ((str_eq_iff t.from c).1 e) (ground (arith, str_eq_iff t.to t.to)))
targets_complete c (u ∷ ts) t (Memᴰ.tail m) e = elim (Bool-cases (str_eq u.from c)) [
  | inl same ↦ rw same (ground (arith, targets_complete c ts t m e))
  | inr other ↦ rw other (targets_complete c ts t m e)
]

pub mem-targets :
    (c : String) (ts : List GraphTransition) (t : GraphTransition)
    → Memᴰ t ts
    → t.from ≡ c
    → Memᴰ t.to (targets c ts)
unfolding targets
mem-targets c [] t m e = absurd (Memᴰ.not-nil m)
mem-targets c (u ∷ ts) t (Memᴰ.head q) e =
    subst
      (λ (v : GraphTransition).
        Memᴰ t.to (if str_eq v.from c then v.to ∷ targets c ts else targets c ts))
      q (rw ((str_eq_iff t.from c).1 e) (Memᴰ.head refl))
mem-targets c (u ∷ ts) t (Memᴰ.tail m) e = elim (Bool-cases (str_eq u.from c)) [
  | inl same ↦ rw same (Memᴰ.tail (mem-targets c ts t m e))
  | inr other ↦ rw other (mem-targets c ts t m e)
]

-- The transitions whose source was not visited.
pub unseen : List String → List GraphTransition → ℕ
unseen seen [] = 0
unseen seen (t ∷ ts) = let more = unseen seen ts in if has t.from seen then more else suc more

pub unseen-add :
    (c : String) (seen : List String) (ts : List GraphTransition)
    → has c seen ≡ false
    → length (targets c ts) + unseen (add c seen) ts ≡ unseen seen ts
unfolding unseen targets
unseen-add c seen [] h = omega arith
unseen-add c seen (t ∷ ts) h = ground (
  arith,
  unseen-add c seen ts h,
  has-add c t.from seen,
  str_eq_iff t.from c,
  str_eq_iff c t.from,
  same,
)
  where
    same : c ≡ t.from → has c seen ≡ has t.from seen
    same e = ap (λ x. has x seen) e

pub unseen-le : (seen : List String) (ts : List GraphTransition) → unseen seen ts ≤ length ts
unfolding unseen
unseen-le seen [] = omega arith
unseen-le seen (t ∷ ts) = ground (arith, unseen-le seen ts)
