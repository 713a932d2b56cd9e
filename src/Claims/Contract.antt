-- ===== src/Claims/Contract.antt =====
-- packages/core/src/persistence.ts: `ClaimStore`. A client sees a store as the partial map from a
-- work item to the run that holds it.
use mathlib.Core.List.{Memᴰ}
use ai_orchestration.Prelude.{
  ℕ, String, ◌≡◌, Bool, true, Option, none, some, List, str_eq, if◌then◌else◌,
}

-- Whether a run may take an item with this holder: nobody holds it, or the run itself does.
abbrev pub is_free_for : String → Option String → Bool
is_free_for run none = true
is_free_for run (some holder) = str_eq holder run

-- The holder after a claim, and after a release.
abbrev pub claimed : String → Option String → Option String
claimed run holder = if is_free_for run holder then some run else holder

abbrev pub released : String → Option String → Option String
released run none = none
released run (some holder) = if str_eq holder run then none else some holder

-- `at` is the time that the operation reads from the clock.
pub record ClaimStore (S : Type 0) : Type 0 where
  pub try_claim : (work_item run : String) (at : ℕ) → S → S × Bool
  pub release : (work_item run : String) (at : ℕ) → S → S
  pub active_claim : String → S → Option String
  pub list_active : S → List (String × String)
  pub try_claim-result :
      (w r : String) (at : ℕ) (s : S) → (try_claim w r at s).1 ≡ is_free_for r (active_claim w s)
  pub active_claim-try_claim :
      (w r : String) (at : ℕ) (s : S) (v : String)
      → active_claim v (try_claim w r at s).0
        ≡ (if str_eq w v then claimed r (active_claim w s) else active_claim v s)
  pub active_claim-release :
      (w r : String) (at : ℕ) (s : S) (v : String)
      → active_claim v (release w r at s)
        ≡ (if str_eq w v then released r (active_claim w s) else active_claim v s)
  pub list_active-mem :
      (s : S) (w r : String) → active_claim w s ≡ some r → Memᴰ (w, r) (list_active s)
