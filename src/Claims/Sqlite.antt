-- ===== src/Claims/Sqlite.antt =====
-- packages/persistence/src/claim-store.ts: `SqliteClaimStore`. The table `claims` has one row for
-- each work item, its primary key. A statement is one atomic step of the database.

use mathlib.Core.List.{Memᴰ}
use mathlib.Core.Option.{some-injective}
use mathlib.Core.Path.{ap₂}
use ai_orchestration.Prelude.{
  ℕ, String, ◌≡◌, sym, ◌||◌, ◌&&◌, not, Bool, true, false, Option, none, some, List, [], ◌∷◌,
  str_eq, str_eq_iff, if◌then◌else◌, arith, Bool-cases, inl, inr,
}
use ai_orchestration.Prelude.Dict.{Dict, lookup, insert, lookup-insert, lookup_of_eq}
use ai_orchestration.Claims.Contract.{ClaimStore, is_free_for, claimed, released}

pub record ClaimRow : Type 0 where
  pub run_id : String
  pub claimed_at : ℕ
  pub released_at : Option ℕ

abbrev pub ClaimTable : Type 0
ClaimTable = Dict ClaimRow

abbrev is_null : Option ℕ → Bool
is_null none = true
is_null (some _) = false

-- `INSERT … ON CONFLICT(work_item_id) DO UPDATE … WHERE`: what the statement writes, given the
-- row that is there.
upsert : String → ℕ → Option ClaimRow → Option ClaimRow
upsert run at none = some (record { run_id = run; claimed_at = at; released_at = none })
upsert run at (some row) =
    if not (is_null row.released_at) || str_eq row.run_id run
    then some (record { run_id = run; claimed_at = at; released_at = none })
    else none

write : String → Option ClaimRow → ClaimTable → ClaimTable
write w none t = t
write w (some row) t = insert w row t

-- `SELECT … WHERE work_item_id = ?` and the test of the row.
holds : String → Option ClaimRow → Bool
holds run none = false
holds run (some row) = is_null row.released_at && str_eq row.run_id run

unfoldable pub try_claim : String → String → ℕ → ClaimTable → ClaimTable × Bool
unfolding upsert write holds
try_claim w run at t =
    let after = write w (upsert run at (lookup w t)) t in (after, holds run (lookup w after))

-- `UPDATE claims SET released_at = ? WHERE work_item_id = ? AND run_id = ? AND released_at IS NULL`
release_row : String → ℕ → Option ClaimRow → Option ClaimRow
release_row run at none = none
release_row run at (some row) =
    if str_eq row.run_id run && is_null row.released_at
    then some (record row { released_at = some at })
    else none

unfoldable pub release : String → String → ℕ → ClaimTable → ClaimTable
unfolding release_row write
release w run at t = write w (release_row run at (lookup w t)) t

active_run : Option ClaimRow → Option String
active_run none = none
active_run (some row) = if is_null row.released_at then some row.run_id else none

unfoldable pub active_claim : String → ClaimTable → Option String
unfolding active_run
active_claim w t = active_run (lookup w t)

unfoldable pub list_active : ClaimTable → List (String × String)
list_active [] = []
list_active ((w, row) ∷ t) =
    let rest = list_active t in if is_null row.released_at then (w, row.run_id) ∷ rest else rest

lookup-write :
    (w v : String) (o : Option ClaimRow) (t : ClaimTable)
    → lookup v (write w o t)
      ≡ (if str_eq w v then elim o [ none ↦ lookup v t | some row ↦ some row ] else lookup v t)
unfolding write
lookup-write w v none t = ground arith
lookup-write w v (some row) t = lookup-insert w v row t

pub try_claim-result :
    (w r : String) (at : ℕ) (t : ClaimTable)
    → (try_claim w r at t).1 ≡ is_free_for r (active_claim w t)
unfolding try_claim upsert holds active_claim
try_claim-result w r at t =
    ground (arith, lookup-write w w (upsert r at (lookup w t)) t, str_eq_iff w w, str_eq_iff r r)

pub active_claim-try_claim :
    (w r : String) (at : ℕ) (t : ClaimTable) (v : String)
    → active_claim v (try_claim w r at t).0
      ≡ (if str_eq w v then claimed r (active_claim w t) else active_claim v t)
unfolding try_claim upsert active_claim
active_claim-try_claim w r at t v =
    ground
      (arith, lookup-write w v (upsert r at (lookup w t)) t, str_eq_iff w v, lookup_of_eq w v t)

pub active_claim-release :
    (w r : String) (at : ℕ) (t : ClaimTable) (v : String)
    → active_claim v (release w r at t)
      ≡ (if str_eq w v then released r (active_claim w t) else active_claim v t)
unfolding release release_row active_claim
active_claim-release w r at t v =
    ground (
      arith,
      lookup-write w v (release_row r at (lookup w t)) t,
      str_eq_iff w v,
      lookup_of_eq w v t,
    )

pub list_active-mem :
    (t : ClaimTable) (w r : String) → active_claim w t ≡ some r → Memᴰ (w, r) (list_active t)
unfolding active_claim list_active lookup
list_active-mem [] w r h = cc
list_active-mem ((v, row) ∷ t) w r h = elim (Bool-cases (str_eq v w)) [
  | inl same ↦ elim (Bool-cases (is_null row.released_at)) [
    | inl live ↦ rw live (
        Memᴰ.head (
          ap₂ (λ (a b : String). (a, b)) (sym ((str_eq_iff v w).0 same))
            (some-injective r row.run_id (sym (rw (same, live, active_run) at h)))))
    | inr dead ↦ absurd (none-ne-some (rw (same, dead, active_run) at h))
  ]
  | inr other ↦ elim (Bool-cases (is_null row.released_at)) [
    | inl live ↦ rw live (Memᴰ.tail (list_active-mem t w r (rw other at h)))
    | inr dead ↦ rw dead (list_active-mem t w r (rw other at h))
  ]
]
  where
    none-ne-some : {a : String} → none ≡ some a → ⊥
    none-ne-some e = cc

-- The SQLite adapter meets the contract of the port.
instance abbrev pub sqlite_claims : ClaimStore ClaimTable
sqlite_claims = record {
  try_claim = try_claim;
  release = release;
  active_claim = active_claim;
  list_active = list_active;
  try_claim-result = try_claim-result;
  active_claim-try_claim = active_claim-try_claim;
  active_claim-release = active_claim-release;
  list_active-mem = list_active-mem;
}
