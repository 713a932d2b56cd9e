-- ===== src/StepEngine/Ids.antt =====
-- packages/workflow/src/engine.ts: lists of steps by their ids, as the sets and maps of `execute`
-- hold them.
use mathlib.Core.List.Memᴰ
use mathlib.Core.List.{Memᴰ}
use ai_orchestration.Prelude.{
  ℕ, zero, suc, String, Bool, true, false, not, ◌&&◌, ◌||◌, ◌≡◌, refl, List, [], ◌∷◌, ◌++◌, map,
  str_eq, str_eq_iff, str_eq_refl, filter, Bool-cases, inl, inr, arith,
}
pub use ai_orchestration.Prelude.Names.{Distinct}
use ai_orchestration.Prelude.Names.{has}
use ai_orchestration.Workflow.{WorkflowStep}
use ai_orchestration.StepEngine.Pass.{take, drop_step}

abbrev pub ids : List WorkflowStep → List String
ids ss = map (λ (s : WorkflowStep). s.id) ss

pub has-ids-filter :
    (p : WorkflowStep → Bool) (j : String) (ss : List WorkflowStep)
    → has j (ids ss) ≡ false
    → has j (ids (filter p ss)) ≡ false
unfolding has
has-ids-filter p j [] h = refl
has-ids-filter p j (s ∷ ss) h = ground (arith, has-ids-filter p j ss)

pub Distinct-ids-filter :
    (p : WorkflowStep → Bool) (ss : List WorkflowStep)
    → Distinct (ids ss)
    → Distinct (ids (filter p ss))
Distinct-ids-filter p [] h = tt
Distinct-ids-filter p (s ∷ ss) h = elim (Bool-cases (p s)) [
  | inl e ↦ rw e (has-ids-filter p s.id ss h.0, Distinct-ids-filter p ss h.1)
  | inr e ↦ rw e (Distinct-ids-filter p ss h.1)
]

has-ids-take :
    (n : ℕ) (j : String) (ss : List WorkflowStep)
    → has j (ids ss) ≡ false
    → has j (ids (take n ss)) ≡ false
unfolding has
has-ids-take zero j ss h = refl
has-ids-take (suc n) j [] h = refl
has-ids-take (suc n) j (s ∷ ss) h = ground (arith, has-ids-take n j ss)

pub Distinct-ids-take :
    (n : ℕ) (ss : List WorkflowStep) → Distinct (ids ss) → Distinct (ids (take n ss))
Distinct-ids-take zero ss h = tt
Distinct-ids-take (suc n) [] h = tt
Distinct-ids-take (suc n) (s ∷ ss) h = (has-ids-take n s.id ss h.0, Distinct-ids-take n ss h.1)

pub mem-take {ℓ} : {A : Type ℓ} (n : ℕ) {x : A} (xs : List A) → Memᴰ x (take n xs) → Memᴰ x xs
mem-take zero xs m = absurd (Memᴰ.not-nil m)
mem-take (suc n) [] m = absurd (Memᴰ.not-nil m)
mem-take (suc n) (y ∷ ys) (Memᴰ.head e) = Memᴰ.head e
mem-take (suc n) (y ∷ ys) (Memᴰ.tail m) = Memᴰ.tail (mem-take n ys m)

pub has-ids_mem : (s : WorkflowStep) (ss : List WorkflowStep) → Memᴰ s ss → has s.id (ids ss) ≡ true
unfolding has
has-ids_mem s [] m = absurd (Memᴰ.not-nil m)
has-ids_mem s (t ∷ ss) (Memᴰ.head e) = rw (← e, str_eq_refl s.id) refl
has-ids_mem s (t ∷ ss) (Memᴰ.tail m) = ground (arith, has-ids_mem s ss m)

pub has-drop_step :
    (i j : String) (ss : List WorkflowStep)
    → has j (ids (drop_step i ss)) ≡ (not (str_eq i j) && has j (ids ss))
unfolding has drop_step
has-drop_step i j [] = ground arith
has-drop_step i j (s ∷ ss) =
    ground (arith, has-drop_step i j ss, str_eq_iff s.id i, str_eq_iff s.id j, str_eq_iff i j)

pub has-ids_append_one :
    (j : String) (ss : List WorkflowStep) (s : WorkflowStep)
    → has j (ids (ss ++ s ∷ [])) ≡ (has j (ids ss) || str_eq s.id j)
unfolding has
has-ids_append_one j [] s = ground arith
has-ids_append_one j (t ∷ ss) s = ground (arith, has-ids_append_one j ss s)
