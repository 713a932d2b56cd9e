-- ===== src/Claims/Examples.antt =====
-- Two runs that race for one work item, in both adapters.
use ai_orchestration.Prelude.{
  ◌≡◌, refl, ◌≢◌, true, false, some, [], ◌∷◌, str_eq, str_eq_iff, List, String,
}
use ai_orchestration.Prelude.Dict.{lookup, insert}
use ai_orchestration.Claims.Sqlite
use ai_orchestration.Claims.Memory
use ai_orchestration.Claims.Sqlite.{sqlite_claims}
use ai_orchestration.Claims.Memory.{memory_claims}
use ai_orchestration.Claims.Exclusive.{
  ClaimOp, claim, let_go, steps, answers, claim-exclusive, adapters_agree,
}

-- `run-2` and `run-3` try, and `run-2` releases what it does not hold.
abbrev race : List ClaimOp
race =
    claim "item-1" "run-2" 2
    ∷ let_go "item-1" "run-2" 3
    ∷ claim "item-2" "run-2" 4
    ∷ let_go "item-2" "run-2" 5
    ∷ []

not_true : false ≡ true → ⊥
not_true h = cc

distinct : ◌≢◌ {A = String} "run-3" "run-1"
unfolding str_eq
distinct e = not_true ((str_eq_iff "run-3" "run-1").1 e)

claim-exclusive_example :
    let t = steps ⦃c = sqlite_claims⦄ race (Sqlite.try_claim "item-1" "run-1" 1 []).0 in
    ((Sqlite.try_claim "item-1" "run-3" 9 t).1 ≡ false)
    × (Sqlite.active_claim "item-1" (Sqlite.try_claim "item-1" "run-3" 9 t).0 ≡ some "run-1")
unfolding Sqlite.try_claim Sqlite.active_claim steps str_eq lookup insert
claim-exclusive_example =
    claim-exclusive ⦃c = sqlite_claims⦄ [] "item-1" "run-1" "run-3" 1 9 race refl
      (refl, (refl, (refl, (refl, tt)))) distinct

adapters_agree_example :
    (answers ⦃c = sqlite_claims⦄ race [] ≡ answers ⦃c = memory_claims⦄ race [])
    × ((w : String)
        → Sqlite.active_claim w (steps ⦃c = sqlite_claims⦄ race [])
          ≡ Memory.active_claim w (steps ⦃c = memory_claims⦄ race []))
adapters_agree_example = adapters_agree race
