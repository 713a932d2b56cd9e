-- ===== src/Waits/Contract.antt =====
-- packages/core/src/waits.ts: `WaitRepository`. A client sees a repository as the partial map from
-- an id to its condition, as the repository keeps it.
use ai_orchestration.Prelude.{
  ℕ, String, ◌≡◌, refl, Bool-cases, inl, inr, Bool, true, false, ◌&&◌, Option, none, some, str_eq,
  if◌then◌else◌,
}
use ai_orchestration.Waits.{
  WaitCondition, WaitConditionStatus, is_open, satisfied, cancelled, WaitSatisfaction,
}

abbrev pub status_is_open : WaitConditionStatus → Bool
status_is_open is_open = true
status_is_open _ = false

-- A response as a repository keeps it: the time of the satisfaction, and the satisfaction.
abbrev pub Kept : Type 0
Kept = ℕ × WaitSatisfaction

-- The condition behind `trySatisfy`, and behind `cancelForRun`.
abbrev pub satisfy : Kept → WaitCondition → WaitCondition
satisfy s c =
    if status_is_open c.status
    then record c { status = satisfied; satisfied_at = some s.0; satisfaction = some s.1 }
    else c

abbrev pub cancel : String → WaitCondition → WaitCondition
cancel run c =
    if str_eq c.run_id run && status_is_open c.status then record c { status = cancelled } else c

abbrev pub on_some : (WaitCondition → WaitCondition) → Option WaitCondition → Option WaitCondition
on_some f none = none
on_some f (some c) = some (f c)

abbrev pub found_open : Option WaitCondition → Bool
found_open none = false
found_open (some c) = status_is_open c.status

pub record WaitRepository (S : Type 0) : Type 0 where
  pub save : WaitCondition → S → S
  pub get : String → S → Option WaitCondition
  pub try_satisfy : String → WaitSatisfaction → S → S × Bool
  pub cancel_for_run : String → S → S
  -- What `get` gives of a condition that was saved, and of a response that satisfied it.
  pub kept : WaitCondition → WaitCondition
  pub kept_response : WaitSatisfaction → Kept
  pub kept-same :
      (c : WaitCondition)
      → ((kept c).id ≡ c.id) × ((kept c).run_id ≡ c.run_id) × ((kept c).status ≡ c.status)
  pub get-save :
      (c : WaitCondition) (s : S) (j : String)
      → get j (save c s) ≡ (if str_eq c.id j then some (kept c) else get j s)
  pub try_satisfy-result :
      (id : String) (w : WaitSatisfaction) (s : S) → (try_satisfy id w s).1 ≡ found_open (get id s)
  pub get-try_satisfy :
      (id : String) (w : WaitSatisfaction) (s : S) (j : String)
      → get j (try_satisfy id w s).0
        ≡ (if str_eq id j then on_some (satisfy (kept_response w)) (get j s) else get j s)
  pub get-cancel_for_run :
      (run : String) (s : S) (j : String)
      → get j (cancel_for_run run s) ≡ on_some (cancel run) (get j s)

-- A condition that is not open stays as it is.
pub satisfy-closed :
    (w : Kept) (o : Option WaitCondition) → found_open o ≡ false → on_some (satisfy w) o ≡ o
satisfy-closed w none h = refl
satisfy-closed w (some c) h = rw h refl

pub cancel-closed :
    (run : String) (o : Option WaitCondition) → found_open o ≡ false → on_some (cancel run) o ≡ o
cancel-closed run none h = refl
cancel-closed run (some c) h = elim (Bool-cases (str_eq c.run_id run)) [
  | inl e ↦ rw (e, h) refl
  | inr e ↦ rw e refl
]
