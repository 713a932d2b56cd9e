-- ===== src/Claims/Exclusive.antt =====
-- packages/core/src/persistence.ts: "a work item can be claimed by at most one active run".
-- Runs race for the items of a store; an adapter's operations are atomic, so a race is a sequence
-- of them. Everything here holds of every store that meets the contract.
use ai_orchestration.Prelude.{
  ℕ, String, ◌≡◌, refl, ap, ◌≢◌, Bool, true, false, not, ◌&&◌, some, List, [], ◌∷◌, str_eq,
  str_eq_iff, arith,
}
use ai_orchestration.Claims.Contract.{ClaimStore, is_free_for}
use ai_orchestration.Prelude.Dict.{lookup}
use ai_orchestration.Claims.Sqlite
use ai_orchestration.Claims.Memory
use ai_orchestration.Claims.Sqlite.{sqlite_claims, ClaimTable}
use ai_orchestration.Claims.Memory.{memory_claims, Claims}

pub data ClaimOp : Type 0 where
  claim : (work_item run : String) (at : ℕ) → ClaimOp
  let_go : (work_item run : String) (at : ℕ) → ClaimOp

module _ {S : Type 0} ⦃c : ClaimStore S⦄ where
  unfoldable pub step : ClaimOp → S → S
  step (claim w r at) s = (c.try_claim w r at s).0
  step (let_go w r at) s = c.release w r at s

  unfoldable pub steps : List ClaimOp → S → S
  unfolding step
  steps [] s = s
  steps (o ∷ os) s = steps os (step o s)

-- The sequence does not release the item for the run.
abbrev keeps : String → String → ClaimOp → Bool
keeps w r (claim _ _ _) = true
keeps w r (let_go v q _) = not (str_eq v w && str_eq q r)

abbrev pub Keeps : String → String → List ClaimOp → Type 0
Keeps w r [] = Unit
Keeps w r (o ∷ os) = (keeps w r o ≡ true) × Keeps w r os

module _ {S : Type 0} ⦃c : ClaimStore S⦄ where
  step-holder :
      (o : ClaimOp) (s : S) (w r : String)
      → keeps w r o ≡ true
      → c.active_claim w s ≡ some r
      → c.active_claim w (step o s) ≡ some r
  unfolding step
  step-holder (claim v q at) s w r k h =
      ground
        (arith, c.active_claim-try_claim v q at s w, str_eq_iff v w, str_eq_iff r q, same v w s)
    where
      same : (v w : String) (s : S) → v ≡ w → c.active_claim v s ≡ c.active_claim w s
      same v w s e = ap (λ u. c.active_claim u s) e
  step-holder (let_go v q at) s w r k h = ground (
    arith,
    c.active_claim-release v q at s w,
    str_eq_iff v w,
    str_eq_iff r q,
    str_eq_iff q r,
    same v w s,
  )
    where
      same : (v w : String) (s : S) → v ≡ w → c.active_claim v s ≡ c.active_claim w s
      same v w s e = ap (λ u. c.active_claim u s) e

  steps-holder :
      (os : List ClaimOp) (s : S) (w r : String)
      → Keeps w r os
      → c.active_claim w s ≡ some r
      → c.active_claim w (steps os s) ≡ some r
  unfolding steps
  steps-holder [] s w r k h = h
  steps-holder (o ∷ os) s w r k h = steps-holder os (step o s) w r k.1 (step-holder o s w r k.0 h)

  -- Once a run has won the claim of an item, and until it releases it, the item is its own: a claim
  -- by any other run is refused, and does not change the holder, whatever happened in between.
  pub claim-exclusive :
      (s : S) (w r q : String) (at at' : ℕ) (os : List ClaimOp)
      → (c.try_claim w r at s).1 ≡ true
      → Keeps w r os
      → q ≢ r
      → let t = steps os (c.try_claim w r at s).0 in
        ((c.try_claim w q at' t).1 ≡ false) × (c.active_claim w (c.try_claim w q at' t).0 ≡ some r)
  claim-exclusive s w r q at at' os won k ne =
      let won_holds : c.active_claim w (c.try_claim w r at s).0 ≡ some r =
        ground (
          arith,
          c.active_claim-try_claim w r at s w,
          c.try_claim-result w r at s,
          str_eq_iff w w,
        ) in
      let held = steps-holder os (c.try_claim w r at s).0 w r k won_holds in
      let t = steps os (c.try_claim w r at s).0 in
      (
        ground (arith, c.try_claim-result w q at' t, str_eq_iff r q, ne),
        ground (arith, c.active_claim-try_claim w q at' t w, str_eq_iff r q, str_eq_iff w w, ne),
      )

-- What the claims among a sequence of operations answer.
module _ {S : Type 0} ⦃c : ClaimStore S⦄ where
  unfoldable pub answers : List ClaimOp → S → List Bool
  unfolding step
  answers [] s = []
  answers (claim w r at ∷ os) s = (c.try_claim w r at s).1 ∷ answers os (step (claim w r at) s)
  answers (let_go w r at ∷ os) s = answers os (step (let_go w r at) s)

-- Two stores that show a client the same holders.
abbrev Agree : {S T : Type 0} → ClaimStore S → ClaimStore T → S → T → Type 0
Agree c d s t = (w : String) → c.active_claim w s ≡ d.active_claim w t

module _ {S T : Type 0} (c : ClaimStore S) (d : ClaimStore T) where
  step-Agree :
      (o : ClaimOp) (s : S) (t : T)
      → Agree c d s t
      → Agree c d (step ⦃c = c⦄ o s) (step ⦃c = d⦄ o t)
  unfolding step
  step-Agree (claim w r at) s t h v =
      rw (c.active_claim-try_claim w r at s v, d.active_claim-try_claim w r at t v, h w, h v)
  step-Agree (let_go w r at) s t h v =
      rw (c.active_claim-release w r at s v, d.active_claim-release w r at t v, h w, h v)

  answers-Agree :
      (os : List ClaimOp) (s : S) (t : T)
      → Agree c d s t
      → answers ⦃c = c⦄ os s ≡ answers ⦃c = d⦄ os t
  unfolding answers
  answers-Agree [] s t h = refl
  answers-Agree (claim w r at ∷ os) s t h =
      rw (c.try_claim-result w r at s, d.try_claim-result w r at t, h w)
        (ap (λ l. is_free_for r (d.active_claim w t) ∷ l)
          (answers-Agree os _ _ (step-Agree (claim w r at) s t h)))
  answers-Agree (let_go w r at ∷ os) s t h = answers-Agree os _ _ (step-Agree (let_go w r at) s t h)

-- From an empty table and an empty map, the SQLite adapter and the in-memory one give the same
-- answers to every sequence of claims and releases, and end with the same holder of every item.
pub adapters_agree :
    (os : List ClaimOp)
    → (answers ⦃c = sqlite_claims⦄ os [] ≡ answers ⦃c = memory_claims⦄ os [])
      × ((w : String)
          → Sqlite.active_claim w (steps ⦃c = sqlite_claims⦄ os [])
            ≡ Memory.active_claim w (steps ⦃c = memory_claims⦄ os []))
unfolding steps Sqlite.active_claim Memory.active_claim lookup
adapters_agree os = (answers-Agree sqlite_claims memory_claims os [] [] start, final os [] [] start)
  where
    start : Agree sqlite_claims memory_claims [] []
    start w = refl

    final :
        (os : List ClaimOp) (s : ClaimTable) (t : Claims)
        → Agree sqlite_claims memory_claims s t
        → Agree sqlite_claims memory_claims
            (steps ⦃c = sqlite_claims⦄ os s)
            (steps ⦃c = memory_claims⦄ os t)
    final [] s t h = h
    final (o ∷ os) s t h = final os _ _ (step-Agree sqlite_claims memory_claims o s t h)
