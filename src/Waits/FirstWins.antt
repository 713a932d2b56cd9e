-- ===== src/Waits/FirstWins.antt =====
-- packages/core/src/waits.ts: "the first valid response wins atomically". Responses, cancellations
-- and saves race for a repository; an adapter's operations are atomic, so a race is a sequence of
-- them.
use ai_orchestration.Prelude.{
  ℕ, String, ◌&&◌, All, ◌≡◌, refl, sym, ap, ◌∙◌, Bool, true, false, not, Option, none, some, List,
  [], ◌∷◌, str_eq, str_eq_refl, if◌then◌else◌, Bool-cases, inl, inr, arith,
}
use mathlib.Core.Path.{ap₂}
use ai_orchestration.Prelude.Dict.{lookup}
use ai_orchestration.Waits.{WaitCondition, WaitSatisfaction}
use ai_orchestration.Waits.Contract.{
  WaitRepository, Kept, found_open, on_some, satisfy, cancel, satisfy-closed, cancel-closed,
  status_is_open,
}
use ai_orchestration.Waits.Memory.{memory_waits, Waits}
use ai_orchestration.Waits.Json.{
  Codec, IsStorable, IsStorableSatisfaction, copy_of_condition, copy_of_satisfaction,
}
use ai_orchestration.Waits.Sqlite.{row_to_condition-condition_to_row, kept_satisfaction-copy}
use ai_orchestration.Waits.Table.{sqlite_waits, Tables}
use ai_orchestration.Waits.Memory
use ai_orchestration.Waits.Table

pub data WaitOp : Type 0 where
  saves : WaitCondition → WaitOp
  responds : (id : String) → WaitSatisfaction → WaitOp
  cancels : (run_id : String) → WaitOp

-- The operation does not save a condition under the id.
abbrev keeps : String → WaitOp → Bool
keeps id (saves c) = not (str_eq c.id id)
keeps id _ = true

abbrev pub Keeps : String → List WaitOp → Type 0
Keeps id [] = Unit
Keeps id (o ∷ os) = (keeps id o ≡ true) × Keeps id os

module _ {S : Type 0} (c : WaitRepository S) where
  -- The state behind an operation, and what it answers to a response.
  unfoldable pub step : WaitOp → S → S
  step (saves condition) s = c.save condition s
  step (responds id w) s = (c.try_satisfy id w s).0
  step (cancels run) s = c.cancel_for_run run s

  unfoldable pub answer : WaitOp → S → List Bool
  answer (responds id w) s = (c.try_satisfy id w s).1 ∷ []
  answer _ s = []

  unfoldable pub steps : List WaitOp → S → S
  unfolding step
  steps [] s = s
  steps (o ∷ os) s = steps os (step o s)

  unfoldable pub answers : List WaitOp → S → List (List Bool)
  unfolding step answer
  answers [] s = []
  answers (o ∷ os) s = answer o s ∷ answers os (step o s)

  -- A condition that is not open stays as it is until it is saved again.
  step-closed :
      (o : WaitOp) (s : S) (id : String)
      → keeps id o ≡ true
      → found_open (c.get id s) ≡ false
      → c.get id (step o s) ≡ c.get id s
  unfolding step
  step-closed (saves condition) s id k h = c.get-save condition s id ∙ ground (arith, k)
  step-closed (responds j w) s id k h = elim (Bool-cases (str_eq j id)) [
    | inl e ↦ c.get-try_satisfy j w s id ∙ rw e (satisfy-closed (c.kept_response w) (c.get id s) h)
    | inr e ↦ c.get-try_satisfy j w s id ∙ rw e refl
  ]
  step-closed (cancels run) s id k h =
      c.get-cancel_for_run run s id ∙ cancel-closed run (c.get id s) h

  steps-closed :
      (os : List WaitOp) (s : S) (id : String)
      → Keeps id os
      → found_open (c.get id s) ≡ false
      → c.get id (steps os s) ≡ c.get id s
  unfolding steps
  steps-closed [] s id k h = refl
  steps-closed (o ∷ os) s id k h =
      let same = step-closed o s id k.0 h in
      steps-closed os (step o s) id k.1 (ap found_open same ∙ h) ∙ same

  satisfied-closed :
      (w : Kept) (o : Option WaitCondition) → found_open (on_some (satisfy w) o) ≡ false
  satisfied-closed w none = refl
  satisfied-closed w (some condition) = elim (Bool-cases (status_is_open condition.status)) [
    | inl e ↦ rw e refl
    | inr e ↦ rw (e, e) refl
  ]

  -- Once a response has satisfied a condition, and until a condition is saved under its id, the
  -- condition is the satisfied one, with that response as the repository keeps it: a later response
  -- is refused and changes nothing of it, whatever responses, cancellations and other saves happen
  -- in between.
  pub try_satisfy-first_wins :
      (s : S) (id : String) (w w' : WaitSatisfaction) (os : List WaitOp)
      → (c.try_satisfy id w s).1 ≡ true
      → Keeps id os
      → let t = steps os (c.try_satisfy id w s).0 in
        (c.get id t ≡ on_some (satisfy (c.kept_response w)) (c.get id s))
        × ((c.try_satisfy id w' t).1 ≡ false)
        × (c.get id (c.try_satisfy id w' t).0 ≡ on_some (satisfy (c.kept_response w)) (c.get id s))
  unfolding step
  try_satisfy-first_wins s id w w' os won k =
      let first : S = (c.try_satisfy id w s).0 in
      let t : S = steps os first in
      let here : c.get id first ≡ on_some (satisfy (c.kept_response w)) (c.get id s) =
        c.get-try_satisfy id w s id ∙ rw (str_eq_refl id) refl in
      let closed = ap found_open here ∙ satisfied-closed (c.kept_response w) (c.get id s) in
      let there = steps-closed os first id k closed in
      let closed_there = ap found_open there ∙ closed in
      (
        there ∙ here,
        c.try_satisfy-result id w' t ∙ closed_there,
        step-closed (responds id w') t id refl closed_there ∙ there ∙ here,
      )

-- A copy of what an operation leaves is what it leaves of a copy.
abbrev copy_of_kept : Kept → Kept
copy_of_kept k = (k.0, copy_of_satisfaction k.1)

abbrev copy : Option WaitCondition → Option WaitCondition
copy o = on_some copy_of_condition o

copy-satisfy :
    (k : Kept) (o : Option WaitCondition)
    → copy (on_some (satisfy k) o) ≡ on_some (satisfy (copy_of_kept k)) (copy o)
copy-satisfy k none = refl
copy-satisfy k (some c) = elim (Bool-cases (status_is_open c.status)) [
  | inl e ↦ rw e refl
  | inr e ↦ rw e refl
]

copy-cancel :
    (run : String) (o : Option WaitCondition)
    → copy (on_some (cancel run) o) ≡ on_some (cancel run) (copy o)
copy-cancel run none = refl
copy-cancel run (some c) = elim (Bool-cases (str_eq c.run_id run && status_is_open c.status)) [
  | inl e ↦ rw e refl
  | inr e ↦ rw e refl
]

found_open-copy : (o : Option WaitCondition) → found_open (copy o) ≡ found_open o
found_open-copy none = refl
found_open-copy (some c) = refl

copy-if :
    (b : Bool) (x y : Option WaitCondition)
    → copy (if b then x else y) ≡ (if b then copy x else copy y)
copy-if true x y = refl
copy-if false x y = refl

-- Two repositories that hold the same conditions, but for the identities in their data.
module _ {S T : Type 0} (c : WaitRepository S) (d : WaitRepository T) where
  abbrev Agree : S → T → Type 0
  Agree s t = (j : String) → copy (c.get j s) ≡ copy (d.get j t)

  -- They keep the same of what an operation is handed.
  abbrev KeepAlike : WaitOp → Type 0
  KeepAlike (saves condition) =
      copy_of_condition (c.kept condition) ≡ copy_of_condition (d.kept condition)
  KeepAlike (responds id w) = copy_of_kept (c.kept_response w) ≡ copy_of_kept (d.kept_response w)
  KeepAlike (cancels run) = Unit

  Agree-step :
      (o : WaitOp) (s : S) (t : T) → KeepAlike o → Agree s t → Agree (step c o s) (step d o t)
  unfolding step
  Agree-step (saves condition) s t k h j =
      ap copy (c.get-save condition s j)
      ∙ copy-if (str_eq condition.id j) _ _
      ∙ ap₂ (λ x y. if str_eq condition.id j then some x else y) k (h j)
      ∙ sym (copy-if (str_eq condition.id j) _ _)
      ∙ ap copy (sym (d.get-save condition t j))
  Agree-step (responds id w) s t k h j =
      ap copy (c.get-try_satisfy id w s j)
      ∙ copy-if (str_eq id j) _ _
      ∙ ap (λ x. if str_eq id j then x else copy (c.get j s))
          (copy-satisfy (c.kept_response w) (c.get j s))
      ∙ ap₂ (λ x y. if str_eq id j then on_some (satisfy x) y else y) k (h j)
      ∙ ap (λ x. if str_eq id j then x else copy (d.get j t))
          (sym (copy-satisfy (d.kept_response w) (d.get j t)))
      ∙ sym (copy-if (str_eq id j) _ _)
      ∙ ap copy (sym (d.get-try_satisfy id w t j))
  Agree-step (cancels run) s t k h j =
      ap copy (c.get-cancel_for_run run s j)
      ∙ copy-cancel run (c.get j s)
      ∙ ap (on_some (cancel run)) (h j)
      ∙ sym (copy-cancel run (d.get j t))
      ∙ ap copy (sym (d.get-cancel_for_run run t j))

  answer-Agree : (o : WaitOp) (s : S) (t : T) → Agree s t → answer c o s ≡ answer d o t
  unfolding answer
  answer-Agree (saves condition) s t h = refl
  answer-Agree (responds id w) s t h =
      ap (λ b. b ∷ [])
        (c.try_satisfy-result id w s
          ∙ sym (found_open-copy (c.get id s))
          ∙ ap found_open (h id)
          ∙ found_open-copy (d.get id t)
          ∙ sym (d.try_satisfy-result id w t))
  answer-Agree (cancels run) s t h = refl

  steps-Agree :
      (os : List WaitOp) (s : S) (t : T)
      → All KeepAlike os
      → Agree s t
      → (answers c os s ≡ answers d os t) × Agree (steps c os s) (steps d os t)
  unfolding answers steps
  steps-Agree [] s t k h = (refl, h)
  steps-Agree (o ∷ os) s t k h =
      let (same, after) = steps-Agree os (step c o s) (step d o t) k.1 (Agree-step o s t k.0 h) in
      (ap₂ (λ a rest. a ∷ rest) (answer-Agree o s t h) same, after)

abbrev pub no_waits : Waits
no_waits = record { conditions = []; supplementals = [] }

abbrev pub no_rows : {Iso Json : Type 0} → Tables Iso Json
no_rows = record { conditions = []; supplementals = [] }

-- What is saved and what responses bring can be stored.
abbrev pub IsStorableOp : WaitOp → Type 0
IsStorableOp (saves condition) = IsStorable condition
IsStorableOp (responds _ w) = IsStorableSatisfaction w
IsStorableOp (cancels _) = Unit

module _ {Iso Json : Type 0} (codec : Codec Iso Json) where
  KeepAlike-storable : (o : WaitOp) → IsStorableOp o → KeepAlike (sqlite_waits codec) memory_waits o
  KeepAlike-storable (saves condition) h = row_to_condition-condition_to_row codec condition h
  KeepAlike-storable (responds id w) h =
      ap₂ (λ (at : ℕ) (kept : WaitSatisfaction). (at, kept)) (codec.date-iso w.at h.0)
        (kept_satisfaction-copy codec w h)
  KeepAlike-storable (cancels run) h = tt

  All-KeepAlike :
      (os : List WaitOp)
      → All IsStorableOp os
      → All (KeepAlike (sqlite_waits codec) memory_waits) os
  All-KeepAlike [] h = tt
  All-KeepAlike (o ∷ os) h = (KeepAlike-storable o h.0, All-KeepAlike os h.1)

  -- From the empty repository, the SQLite adapter gives the same answers as the in-memory one to
  -- every sequence of saves, responses and cancellations whose times are times of a `Date` and
  -- whose parameters, responses and events are JSON data, and it holds the same conditions behind
  -- the sequence, but for the identities of the arrays and objects in that data.
  pub adapters_of_waits_agree :
      (os : List WaitOp)
      → All IsStorableOp os
      → (answers (sqlite_waits codec) os no_rows ≡ answers memory_waits os no_waits)
        × ((id : String)
            → on_some copy_of_condition (Table.get codec id (steps (sqlite_waits codec) os no_rows))
              ≡ on_some copy_of_condition (Memory.get id (steps memory_waits os no_waits)))
  unfolding Memory.get Table.get lookup
  adapters_of_waits_agree os h =
      steps-Agree (sqlite_waits codec) memory_waits os no_rows no_waits (All-KeepAlike os h)
        (λ j. refl)
