-- ===== src/Engine/Runs.antt =====
-- packages/workflow/src/graph-engine/engine.ts: every function of the engine that returns a state
-- has made a sequence of changes.

use mathlib.Core.List.{Memᴰ}
use ai_orchestration.Prelude.{
  ℕ, zero, suc, String, ◌≡◌, refl, sym, ap, subst, ◌∙◌, inl, inr, Bool, true, false, ◌&&◌, Option,
  none, some, List, [], ◌∷◌, Bool-cases, Option-cases, mem-filter, Thrown, ok, throw, >>=-eq-ok,
  str_eq,
}
use ai_orchestration.Prelude.Dict.{Dict, count_of, insert}
use ai_orchestration.Value.{Value}
use ai_orchestration.ScopeExpr.Lexer.{ScopeError}
use ai_orchestration.ScopeExpr.Eval.{evaluate_scope_value}
use ai_orchestration.Graph.{WorkflowGraph, GraphNode, GraphTransition, LifecycleEffect}
use ai_orchestration.Engine.State.{loop_bound_exceeded, Tick, GraphNodeResult}
use mathlib.Core.Option.{some-injective}
use ai_orchestration.Engine.Join.{node_by_id, node_by_id-found, outgoing, join_satisfied}
use ai_orchestration.Engine.Settle.{
  apply_effect, set_domain_name, set_data, add_projection, activate, mark_active, enter_target,
  take_and_enter, take_transition, fire, passes, reached, Control, go_on, stop, Rest,
  take_if_passed, take_if_open, is_failed, can_retry, retry_node, leave_running, after_firing,
  or_none,
}
use ai_orchestration.Engine.Changes.{Change, Changes, nothing, one, Changes-trans, control, IsDue}

pub ok-injective : {A : Type 0} (a b : A) → ◌≡◌ {A = Thrown ScopeError A} (ok a) (ok b) → a ≡ b
ok-injective {A} a b e = ap (λ (r : Thrown ScopeError A). elim r [ ok x ↦ x | throw e ↦ a ]) e

set_data-control :
    (entries : Dict String) (scope : Value) (t u : Tick)
    → set_data entries scope t ≡ ok u
    → control t ≡ control u
unfolding set_data
set_data-control [] scope t u h = ap control (ok-injective t u h)
set_data-control ((key, expression) ∷ rest) scope t u h =
    let (value, _, after) = >>=-eq-ok (evaluate_scope_value expression scope) _ h in
    same value ∙ set_data-control rest scope _ u after
  where
    same :
        (value : Value)
        → control t ≡ control (record t { domain_data = insert key value t.domain_data })
    same value = unfold control in refl

pub apply_effect-control :
    (effect : Option LifecycleEffect) (scope : Value) (t u : Tick)
    → apply_effect effect scope t ≡ ok u
    → control t ≡ control u
unfolding apply_effect
apply_effect-control none scope t u h = ap control (ok-injective t u h)
apply_effect-control (some effect) scope t u h =
    let (after, data_set, last) =
      >>=-eq-ok
        (set_data (or_none effect.set_data) scope (set_domain_name effect.set_domain_state t)) _
        h in
    name_control effect.set_domain_state
    ∙ set_data-control (or_none effect.set_data) scope _ after data_set
    ∙ project_control effect.project after
    ∙ ap control (ok-injective _ u last)
  where
    name_control : (name : Option String) → control t ≡ control (set_domain_name name t)
    name_control none = unfold set_domain_name in refl
    name_control (some name) = unfold set_domain_name control in refl

    project_control :
        (name : Option String) (a : Tick) → control a ≡ control (add_projection name a)
    project_control none a = unfold add_projection in refl
    project_control (some name) a = unfold add_projection control in refl

pub effect_change :
    (g : WorkflowGraph) (effect : Option LifecycleEffect) (scope : Value) (t u : Tick)
    → apply_effect effect scope t ≡ ok u
    → Changes g t u
effect_change g effect scope t u h = one (Change.effect (apply_effect-control effect scope t u h))

module _ (g : WorkflowGraph) where
  pub activate-Changes :
      (id : String) (t u : Tick)
      → ((n : GraphNode) → node_by_id id g.nodes ≡ some n → IsDue g n t)
      → activate g id t ≡ ok u
      → Changes g t u
  unfolding activate
  activate-Changes id t u due h = elim (Option-cases (node_by_id id g.nodes)) [
    | inl absent ↦ subst (Changes g t) (ok-injective t u (rw (absent, activate) at h)) nothing
    | inr (n, there) ↦
        Changes-trans (one (Change.activated id n there (due n there)))
          (effect_change g n.on_enter _ (mark_active id t) u (rw (there, activate) at h))
  ]

  enter_target-Changes : (to : String) (t u : Tick) → enter_target g to t ≡ ok u → Changes g t u
  unfolding enter_target
  enter_target-Changes to t u h = elim (Option-cases (node_by_id to g.nodes)) [
    | inl absent ↦ subst (Changes g t) (ok-injective t u (rw (absent, enter_target) at h)) nothing
    | inr (target, there) ↦ elim (Bool-cases (join_satisfied g target t)) [
      | inr unsatisfied ↦
          subst (Changes g t)
            (ok-injective t u (rw (unsatisfied, enter_target) at (rw (there, enter_target) at h)))
            nothing
      | inl satisfied ↦
          activate-Changes target.id t u
            (λ n found.
              inr (subst (λ k. join_satisfied g k t ≡ true) (same target n there found) satisfied))
            (rw (satisfied, enter_target) at (rw (there, enter_target) at h))
    ]
  ]
    where
      same :
          (target n : GraphNode)
          → node_by_id to g.nodes ≡ some target
          → node_by_id target.id g.nodes ≡ some n
          → target ≡ n
      same target n there found =
          let e = (node_by_id-found to g.nodes target there).1 in
          some-injective target n (sym there ∙ ap (λ i. node_by_id i g.nodes) (sym e) ∙ found)

  take_and_enter-Changes :
      (scope : Value) (tr : GraphTransition) (t u : Tick)
      → Memᴰ tr g.transitions
      → reached tr.loop_bound (count_of tr.id t.loop_counters) ≡ none
      → take_and_enter g scope tr t ≡ ok u
      → Changes g t u
  unfolding take_and_enter
  take_and_enter-Changes scope tr t u at open_bound h =
      let (after, effects, last) =
        >>=-eq-ok (apply_effect tr.effects scope (take_transition tr t)) _ h in
      Changes-trans (one (Change.taken tr at open_bound)) (
        Changes-trans (effect_change g tr.effects scope _ after effects)
          (enter_target-Changes tr.to after u last))

  -- The rest of a loop makes changes only.
  abbrev RestChanges : Rest → Type 0
  RestChanges k =
      (fired : ℕ) (t u : Tick) (n : ℕ) (c : Control) → k fired t ≡ ok (u, n, c) → Changes g t u

  take_if_passed-Changes :
      (scope : Value) (tr : GraphTransition) (fired : ℕ) (t u : Tick) (passed : Bool) (k : Rest)
      (n : ℕ) (c : Control)
      → Memᴰ tr g.transitions
      → RestChanges k
      → take_if_passed g scope tr fired t passed k ≡ ok (u, n, c)
      → Changes g t u
  unfolding take_if_passed
  take_if_passed-Changes scope tr fired t u false k n c at rest h = rest fired t u n c h
  take_if_passed-Changes scope tr fired t u true k n c at rest h =
      elim (Option-cases (reached tr.loop_bound (count_of tr.id t.loop_counters))) [
        | inr (bound, full) ↦
            subst (Changes g t)
              (ap (λ (p : Tick × ℕ × Control). p.0)
                (ok-injective
                  (record t { fatal_error = some (loop_bound_exceeded tr.id bound) }, fired, stop)
                  (u, n, c) (rw (full, take_if_open) at h)))
              (one (Change.broke (loop_bound_exceeded tr.id bound)))
        | inl free ↦
            let (after, taken, last) =
              >>=-eq-ok (take_and_enter g scope tr t) _ (rw (free, take_if_open) at h) in
            Changes-trans (take_and_enter-Changes scope tr t after at free taken)
              (rest (suc fired) after u n c last)
      ]

  fire-Changes :
      (scope : Value) (ts : List GraphTransition)
      → ((tr : GraphTransition) → Memᴰ tr ts → Memᴰ tr g.transitions)
      → RestChanges (fire g scope ts)
  unfolding fire
  fire-Changes scope [] sub fired t u n c h =
      subst (Changes g t)
        (ap (λ (p : Tick × ℕ × Control). p.0) (ok-injective (t, fired, go_on) (u, n, c) h)) nothing
  fire-Changes scope (tr ∷ rest) sub fired t u n c h =
      let (passed, test, h1) = >>=-eq-ok (passes tr.condition scope) _ h in
      take_if_passed-Changes scope tr fired t u passed (fire g scope rest) n c
        (sub tr (Memᴰ.head refl)) (fire-Changes scope rest (λ tr' m. sub tr' (Memᴰ.tail m))) h1

  after_firing-Changes :
      (n : GraphNode) (r : GraphNodeResult) (p : Tick × ℕ × Control)
      → Changes g p.0 (after_firing n r p).0
  unfolding after_firing
  after_firing-Changes n r (t, k, stop) = nothing
  after_firing-Changes n r (t, suc k, go_on) = nothing
  after_firing-Changes n r (t, zero, go_on) = elim (Bool-cases (is_failed r.status)) [
    | inl bad ↦ rw bad (one (Change.broke _))
    | inr good ↦ rw good nothing
  ]

  -- The config of a node that is not terminal.
  pub leave_running-Changes :
      (n : GraphNode) (r : GraphNodeResult) (scope : Value) (t u : Tick) (c : Control)
      → node_by_id n.id g.nodes ≡ some n
      → leave_running g n r scope t ≡ ok (u, c)
      → Changes g t u
  unfolding leave_running
  leave_running-Changes n r scope t u c there h =
      elim (Bool-cases (is_failed r.status && can_retry n.retry r.attempt)) [
        | inl again ↦
            subst (Changes g t)
              (ap (λ (p : Tick × Control). p.0)
                (ok-injective (retry_node n.id t, go_on) (u, c) (rw again at h)))
              (one (Change.retried n.id n there))
        | inr no_more ↦
            let (p, fired, last) =
              >>=-eq-ok (fire g scope (outgoing n.id g.transitions) 0 t) _ (rw no_more at h) in
            subst (Changes g t)
              (ap (λ (q : Tick × Control). q.0) (ok-injective (after_firing n r p) (u, c) last))
              (Changes-trans
                (fire-Changes scope (outgoing n.id g.transitions) declared 0 t p.0 p.1 p.2 fired)
                (after_firing-Changes n r p))
      ]
    where
      declared :
          (tr : GraphTransition) → Memᴰ tr (outgoing n.id g.transitions) → Memᴰ tr g.transitions
      declared tr m =
          unfold outgoing in
          (mem-filter (λ (x : GraphTransition). str_eq x.from n.id) g.transitions m).0
