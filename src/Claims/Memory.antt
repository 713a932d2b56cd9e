-- ===== src/Claims/Memory.antt =====
-- packages/persistence/src/in-memory-persistence-provider.ts: `InMemoryClaimStore`.

use mathlib.Core.List.{Memᴰ}
use mathlib.Core.Option.{some-injective}
use mathlib.Core.Path.{ap₂}
use ai_orchestration.Prelude.{
  ℕ, String, ◌≡◌, sym, ◌&&◌, Bool, true, Option, none, some, List, [], ◌∷◌, str_eq, str_eq_iff,
  if◌then◌else◌, is_none, arith, Bool-cases, Option-cases, inl, inr,
}
use ai_orchestration.Prelude.Dict.{Dict, lookup, insert, lookup-insert, lookup_of_eq}
use ai_orchestration.Claims.Contract.{ClaimStore, is_free_for, claimed, released}

pub record StoredClaim : Type 0 where
  pub run_id : String
  pub released_at : Option ℕ

abbrev pub Claims : Type 0
Claims = Dict StoredClaim

abbrev fresh : String → StoredClaim
fresh run = record { run_id = run; released_at = none }

-- The body of `tryClaim`, given `existing`.
claim_over : String → String → Option StoredClaim → Claims → Claims × Bool
claim_over w run none m = (insert w (fresh run) m, true)
claim_over w run (some existing) m =
    if is_none existing.released_at
    then (m, str_eq existing.run_id run)
    else (insert w (fresh run) m, true)

unfoldable pub try_claim : String → String → ℕ → Claims → Claims × Bool
unfolding claim_over
try_claim w run at m = claim_over w run (lookup w m) m

release_over : String → String → ℕ → Option StoredClaim → Claims → Claims
release_over w run at none m = m
release_over w run at (some existing) m =
    if str_eq existing.run_id run && is_none existing.released_at
    then insert w (record { run_id = run; released_at = some at }) m
    else m

unfoldable pub release : String → String → ℕ → Claims → Claims
unfolding release_over
release w run at m = release_over w run at (lookup w m) m

active_run : Option StoredClaim → Option String
active_run none = none
active_run (some c) = if is_none c.released_at then some c.run_id else none

unfoldable pub active_claim : String → Claims → Option String
unfolding active_run
active_claim w m = active_run (lookup w m)

unfoldable pub list_active : Claims → List (String × String)
list_active [] = []
list_active ((w, c) ∷ m) =
    let rest = list_active m in if is_none c.released_at then (w, c.run_id) ∷ rest else rest

pub try_claim-result :
    (w r : String) (at : ℕ) (m : Claims) → (try_claim w r at m).1 ≡ is_free_for r (active_claim w m)
unfolding try_claim active_claim
try_claim-result w r at m = ground arith

pub active_claim-try_claim :
    (w r : String) (at : ℕ) (m : Claims) (v : String)
    → active_claim v (try_claim w r at m).0
      ≡ (if str_eq w v then claimed r (active_claim w m) else active_claim v m)
unfolding try_claim active_claim
active_claim-try_claim w r at m v = elim (Option-cases (lookup w m)) [
  | inl absent ↦ ground (arith, lookup-insert w v (fresh r) m, str_eq_iff w v, lookup_of_eq w v m)
  | inr (c, there) ↦ ground (
    arith,
    lookup-insert w v (fresh r) m,
    str_eq_iff w v,
    lookup_of_eq w v m,
    str_eq_iff c.run_id r,
  )
]

pub active_claim-release :
    (w r : String) (at : ℕ) (m : Claims) (v : String)
    → active_claim v (release w r at m)
      ≡ (if str_eq w v then released r (active_claim w m) else active_claim v m)
unfolding release active_claim
active_claim-release w r at m v = ground (
  arith,
  lookup-insert w v (record { run_id = r; released_at = some at }) m,
  str_eq_iff w v,
  lookup_of_eq w v m,
)

pub list_active-mem :
    (m : Claims) (w r : String) → active_claim w m ≡ some r → Memᴰ (w, r) (list_active m)
unfolding active_claim list_active lookup
list_active-mem [] w r h = cc
list_active-mem ((v, c) ∷ m) w r h = elim (Bool-cases (str_eq v w)) [
  | inl same ↦ elim (Bool-cases (is_none c.released_at)) [
    | inl live ↦ rw live (
        Memᴰ.head (
          ap₂ (λ (a b : String). (a, b)) (sym ((str_eq_iff v w).0 same))
            (some-injective r c.run_id (sym (rw (same, live, active_run) at h)))))
    | inr dead ↦ absurd (none-ne-some (rw (same, dead, active_run) at h))
  ]
  | inr other ↦ elim (Bool-cases (is_none c.released_at)) [
    | inl live ↦ rw live (Memᴰ.tail (list_active-mem m w r (rw other at h)))
    | inr dead ↦ rw dead (list_active-mem m w r (rw other at h))
  ]
]
  where
    none-ne-some : {a : String} → none ≡ some a → ⊥
    none-ne-some e = cc

-- The in-memory adapter meets the contract of the port.
instance abbrev pub memory_claims : ClaimStore Claims
memory_claims = record {
  try_claim = try_claim;
  release = release;
  active_claim = active_claim;
  list_active = list_active;
  try_claim-result = try_claim-result;
  active_claim-try_claim = active_claim-try_claim;
  active_claim-release = active_claim-release;
  list_active-mem = list_active-mem;
}
