-- ===== src/StepEngine/Initial.antt =====
-- packages/workflow/src/engine.ts: `byId` and `pendingIds` when `execute` starts.
use ai_orchestration.Prelude.{
  String, false, ◌||◌, ◌≡◌, refl, sym, ap, ◌∙◌, List, [], ◌∷◌, map, All, str_eq, str_eq_iff,
  Bool-cases, inl, inr, arith,
}
use ai_orchestration.Prelude.Dict.{Dict, insert}
use ai_orchestration.Prelude.Names.{has}
use ai_orchestration.Workflow.{WorkflowStep}
use ai_orchestration.StepEngine.State.{Execution, initial, steps_map}
use ai_orchestration.StepEngine.Ids.{ids, Distinct}

abbrev values : Dict WorkflowStep → List WorkflowStep
values m = map (λ (entry : String × WorkflowStep). entry.1) m

-- Every step stands under its id.
abbrev Keyed : Dict WorkflowStep → Type 0
Keyed m = All (λ (entry : String × WorkflowStep). entry.0 ≡ entry.1.id) m

Keyed-insert : (s : WorkflowStep) (m : Dict WorkflowStep) → Keyed m → Keyed (insert s.id s m)
unfolding insert
Keyed-insert s [] h = (refl, tt)
Keyed-insert s ((k, w) ∷ m) h = elim (Bool-cases (str_eq k s.id)) [
  | inl e ↦ rw e ((str_eq_iff k s.id).0 e, h.1)
  | inr e ↦ rw e (h.0, Keyed-insert s m h.1)
]

has-insert :
    (j : String) (s : WorkflowStep) (m : Dict WorkflowStep)
    → Keyed m
    → has j (ids (values (insert s.id s m))) ≡ (str_eq s.id j || has j (ids (values m)))
unfolding insert has
has-insert j s [] h = ground arith
has-insert j s ((k, w) ∷ m) h =
    ground
      (arith, h.0, has-insert j s m h.1, str_eq_iff k s.id, str_eq_iff s.id j, str_eq_iff w.id j)

Distinct-insert :
    (s : WorkflowStep) (m : Dict WorkflowStep)
    → Keyed m
    → Distinct (ids (values m))
    → Distinct (ids (values (insert s.id s m)))
unfolding insert has
Distinct-insert s [] h d = (refl, tt)
Distinct-insert s ((k, w) ∷ m) h d = elim (Bool-cases (str_eq k s.id)) [
  | inl e ↦ rw e (ap (λ i. has i (ids (values m))) (sym ((str_eq_iff k s.id).0 e) ∙ h.0) ∙ d.0, d.1)
  | inr e ↦ rw e (fresh e, Distinct-insert s m h.1 d.1)
]
  where
    fresh : str_eq k s.id ≡ false → has w.id (ids (values (insert s.id s m))) ≡ false
    fresh e =
        ground
          (arith, e, d.0, h.0, has-insert w.id s m h.1, str_eq_iff s.id w.id, str_eq_iff k s.id)

steps_map-Distinct :
    (m : Dict WorkflowStep) (ss : List WorkflowStep)
    → Keyed m
    → Distinct (ids (values m))
    → Distinct (ids (values (steps_map m ss)))
unfolding steps_map
steps_map-Distinct m [] h d = d
steps_map-Distinct m (s ∷ ss) h d =
    steps_map-Distinct (insert s.id s m) ss (Keyed-insert s m h) (Distinct-insert s m h d)

has-steps_map :
    (j : String) (m : Dict WorkflowStep) (ss : List WorkflowStep)
    → Keyed m
    → has j (ids (values (steps_map m ss))) ≡ (has j (ids (values m)) || has j (ids ss))
unfolding steps_map has
has-steps_map j m [] h = ground arith
has-steps_map j m (s ∷ ss) h =
    ground (arith, has-steps_map j (insert s.id s m) ss (Keyed-insert s m h), has-insert j s m h)

module _ (x : Execution) where
  pub initial-Distinct : Distinct (ids (initial x).pending)
  unfolding initial
  initial-Distinct = steps_map-Distinct [] x.definition.steps tt tt

  -- The steps that are pending at first are those of the definition.
  pub has-initial : (j : String) → has j (ids (initial x).pending) ≡ has j (ids x.definition.steps)
  unfolding initial has
  has-initial j = has-steps_map j [] x.definition.steps tt
