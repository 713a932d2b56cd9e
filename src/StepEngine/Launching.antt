-- ===== src/StepEngine/Launching.antt =====
-- packages/workflow/src/engine.ts: what the launches of one pass have in common.
use mathlib.Core.List.{Memᴰ}
use ai_orchestration.Prelude.{
  ◌-◌, String, true, false, not, ◌&&◌, ◌≡◌, refl, List, [], ◌∷◌, str_eq, str_eq_iff, all, All,
  All-of_mem, mem-filter, length, is_none, Option-cases, inl, inr, filter, ◌∙◌, Thrown, ok, throw,
  arith,
}
use ai_orchestration.Prelude.Dict.{Dict, lookup, insert, lookup-insert}
use ai_orchestration.Prelude.Names.{has}
use ai_orchestration.Workflow.{WorkflowStep, StepResult}
use ai_orchestration.StepEngine.State.{
  Execution, Progress, EngineError, Verdict, eligible, ineligible, is_eligible, deps_settled,
  dependencies, concurrency_limit,
}
use ai_orchestration.StepEngine.Pass.{
  Launched, go, stop, launch, launch_as, launch_all, to_launch, skipped_result, within,
}
use ai_orchestration.StepEngine.Ids.{
  ids, Distinct, Distinct-ids-filter, Distinct-ids-take, mem-take, has-ids_mem, has-drop_step,
}

abbrev pub launched : Launched → Progress
launched (go q) = q
launched (stop q _) = q

-- A result stays when another is recorded.
pub deps_settled-insert :
    (k : String) (r : StepResult) (results : Dict StepResult) (s : WorkflowStep)
    → deps_settled results s ≡ true
    → deps_settled (insert k r results) s ≡ true
unfolding deps_settled
deps_settled-insert k r results s h = over (dependencies s) h
  where
    over :
        (ds : List String)
        → all (λ d. not (is_none (lookup d results))) ds ≡ true
        → all (λ d. not (is_none (lookup d (insert k r results)))) ds ≡ true
    over [] h = refl
    over (d ∷ ds) h = ground (arith, over ds, lookup-insert k d r results)

-- A step that the pass may launch.
abbrev pub Ready : Progress → WorkflowStep → Type 0
Ready p s = (has s.id (ids p.pending) ≡ true) × (deps_settled p.results s ≡ true)

-- The launch of one step leaves those of other steps as they are.
Ready-launch_as :
    (s t : WorkflowStep) (p : Progress) (v : Thrown EngineError Verdict)
    → str_eq t.id s.id ≡ false
    → Ready p t
    → Ready (launched (launch_as s p v)) t
unfolding launch_as
Ready-launch_as s t p v other h = (pending v, settled v)
  where
    apart : (not (str_eq s.id t.id) && has t.id (ids p.pending)) ≡ true
    apart = ground (arith, h.0, str_eq_iff s.id t.id, str_eq_iff t.id s.id)

    pending :
        (v : Thrown EngineError Verdict)
        → has t.id (ids (launched (launch_as s p v)).pending) ≡ true
    pending (throw e) = has-drop_step s.id t.id p.pending ∙ apart
    pending (ok eligible) = has-drop_step s.id t.id p.pending ∙ apart
    pending (ok (ineligible _ _)) = has-drop_step s.id t.id p.pending ∙ apart

    settled :
        (v : Thrown EngineError Verdict)
        → deps_settled (launched (launch_as s p v)).results t ≡ true
    settled (throw e) = h.1
    settled (ok eligible) = h.1
    settled (ok (ineligible reason _)) =
        deps_settled-insert s.id (skipped_result s.id reason) p.results t h.1

pub Ready-rest :
    (s : WorkflowStep) (p : Progress) (v : Thrown EngineError Verdict) (ss : List WorkflowStep)
    → has s.id (ids ss) ≡ false
    → All (Ready p) ss
    → All (Ready (launched (launch_as s p v))) ss
unfolding has
Ready-rest s p v [] h r = tt
Ready-rest s p v (t ∷ ss) h r =
    (Ready-launch_as s t p v (ground arith) r.0, Ready-rest s p v ss (ground arith) r.1)

module _ (x : Execution) where
  -- What one launch of a ready step keeps, all launches of a pass keep.
  pub launch_all-keeps {ℓ} :
      (I : Progress → Type ℓ)
      → ((s : WorkflowStep) (p : Progress)
          → Ready p s
          → I p
          → I (launched (launch_as s p (is_eligible x p s))))
      → (ss : List WorkflowStep) (p : Progress) → Distinct (ids ss)
      → All (Ready p) ss
      → I p
      → I (launched (launch_all x ss p))
  unfolding launch_all launch
  launch_all-keeps I one [] p d r h = h
  launch_all-keeps I one (s ∷ ss) p d r h =
      onwards (launch_as s p (is_eligible x p s)) (one s p r.0 h)
        (Ready-rest s p (is_eligible x p s) ss d.0 r.1)
        (λ q i rest. launch_all-keeps I one ss q d.1 rest i)
    where
      onwards :
          (l : Launched)
          → I (launched l)
          → All (Ready (launched l)) ss
          → ((q : Progress) → I q → All (Ready q) ss → I (launched (launch_all x ss q)))
          → I (launched (elim l [ go q ↦ launch_all x ss q | stop q e ↦ stop q e ]))
      onwards (go q) i rest k = k q i rest
      onwards (stop q e) i rest k = i

  pub to_launch-mem :
      (p : Progress) (s : WorkflowStep)
      → Memᴰ s (to_launch x p)
      → Memᴰ s p.pending × (deps_settled p.results s ≡ true)
  unfolding to_launch
  to_launch-mem p s m = elim (Option-cases (concurrency_limit x)) [
    | inl e ↦ mem-filter (deps_settled p.results) p.pending (rw (e, within) at m)
    | inr (n, e) ↦ mem-filter (deps_settled p.results) p.pending (
        mem-take (n - length p.in_flight) (filter (deps_settled p.results) p.pending)
          (rw (e, within) at m))
  ]

  pub to_launch-Ready : (p : Progress) → All (Ready p) (to_launch x p)
  to_launch-Ready p = All-of_mem (Ready p) (to_launch x p) (λ s m.
      let (pending, settled) = to_launch-mem p s m in (has-ids_mem s p.pending pending, settled))

  pub to_launch-Distinct :
      (p : Progress) → Distinct (ids p.pending) → Distinct (ids (to_launch x p))
  unfolding to_launch
  to_launch-Distinct p d = elim (Option-cases (concurrency_limit x)) [
    | inl e ↦ rw (e, within) (Distinct-ids-filter (deps_settled p.results) p.pending d)
    | inr (n, e) ↦
        rw (e, within)
          (Distinct-ids-take (n - length p.in_flight) (filter (deps_settled p.results) p.pending)
            (Distinct-ids-filter (deps_settled p.results) p.pending d))
  ]
