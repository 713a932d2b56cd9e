-- ===== src/Engine/Waiting.antt =====
-- packages/workflow/src/graph-engine/engine.ts: which nodes are runnable, and what delivering a
-- satisfaction and opening a wait do to the nodes that wait.

use ai_orchestration.Prelude.{
  ℕ, String, ◌<◌, ◌≡◌, refl, ap, ◌∙◌, inl, inr, Bool, true, false, ◌&&◌, ◌||◌, Option, List, [],
  ◌∷◌, arith, Bool-cases, Option-cases, filter, str_eq, str_eq_iff, if◌then◌else◌,
}
use ai_orchestration.Prelude.Dict.{lookup}
use ai_orchestration.Prelude.Names.{has, has-add, has-remove}
use ai_orchestration.Graph.{WaitSpec, HumanInputRequestSpec}
use ai_orchestration.Engine.State.{Tick}
use ai_orchestration.Engine.Execute.{
  insert_sorted, sort, is_runnable, runnable, open_wait, deliver, is_delivered,
}
use ai_orchestration.Engine.Measure.{pending_count, length-delete-some}

has-insert_sorted :
    (k s : String) (ts : List String) → has k (insert_sorted s ts) ≡ (str_eq s k || has k ts)
unfolding insert_sorted has
has-insert_sorted k s [] = refl
has-insert_sorted k s (t ∷ ts) = ground (arith, has-insert_sorted k s ts)

has-sort : (k : String) (ts : List String) → has k (sort ts) ≡ has k ts
unfolding sort has
has-sort k [] = refl
has-sort k (t ∷ ts) = has-insert_sorted k t (sort ts) ∙ ap (λ b. str_eq t k || b) (has-sort k ts)

has-filter :
    (p : String → Bool) (k : String) (xs : List String) → has k (filter p xs) ≡ (p k && has k xs)
unfolding has
has-filter p k [] = ground arith
has-filter p k (x ∷ xs) = elim (Bool-cases (str_eq x k)) [
  | inl same ↦ let e = ap p ((str_eq_iff x k).0 same) in ground (arith, has-filter p k xs)
  | inr other ↦ ground (arith, has-filter p k xs)
]

pub has-runnable :
    (k : String) (t : Tick) → has k (runnable t) ≡ (is_runnable t k && has k t.active)
unfolding runnable
has-runnable k t =
    has-sort k (filter (is_runnable t) t.active) ∙ has-filter (is_runnable t) k t.active

abbrev pub fixed : Tick → List String × ℕ
fixed t = (t.active, t.settlements)

-- The same nodes are active, and those that wait go on waiting.
abbrev pub StillWaits : Tick → Tick → Type 0
StillWaits t u =
    (fixed t ≡ fixed u) × ((k : String) → has k t.waiting ≡ true → has k u.waiting ≡ true)

-- The state behind an execution that yields a wait.
abbrev pub behind_wait : String → WaitSpec → Option HumanInputRequestSpec → Tick → Tick
behind_wait id spec request t = if has id t.waiting then t else open_wait id spec request t

pub behind_wait-StillWaits :
    (id : String) (spec : WaitSpec) (request : Option HumanInputRequestSpec) (t : Tick)
    → StillWaits t (behind_wait id spec request t)
      × (has id (behind_wait id spec request t).waiting ≡ true)
unfolding open_wait
behind_wait-StillWaits id spec request t = elim (Bool-cases (has id t.waiting)) [
  | inl there ↦ rw there ((refl, λ k at. at), there)
  | inr free ↦ rw free (
    (refl, λ k at. ground (arith, has-add id k t.waiting)),
    ground (arith, has-add id id t.waiting, str_eq_iff id id),
  )
]

pub deliver-StillWaits :
    (id : String) (t : Tick)
    → (fixed t ≡ fixed (deliver id t))
      × ((k : String)
          → str_eq id k ≡ false
          → has k t.waiting ≡ true
          → has k (deliver id t).waiting ≡ true)
unfolding deliver
deliver-StillWaits id t = elim (Bool-cases (is_delivered id t)) [
  | inr absent ↦ rw absent (refl, λ k other at. at)
  | inl here ↦ rw here (refl, λ k other at. ground (arith, has-remove id k t.waiting))
]

pub first_has : (id : String) (ids : List String) → has id (id ∷ ids) ≡ true
unfolding has
first_has id ids = ground (arith, str_eq_iff id id)

pub ready_delivered :
    (id : String) (t : Tick)
    → has id t.waiting ≡ true
    → is_runnable t id ≡ true
    → is_delivered id t ≡ true
unfolding is_runnable is_delivered
ready_delivered id t waits ready = ground arith

pub delivered-pending :
    (id : String) (t : Tick)
    → is_delivered id t ≡ true
    → pending_count (deliver id t) < pending_count t
unfolding is_delivered deliver pending_count
delivered-pending id t here = elim (Option-cases (lookup id t.pending_satisfactions)) [
  | inl absent ↦ absurd (ground arith)
  | inr (v, there) ↦
      let less = length-delete-some id t.pending_satisfactions v there in ground arith
]
