-- ===== src/Engine/Ticks.antt =====
-- packages/workflow/src/graph-engine/engine.ts: settling a node, a batch, the loop and a whole
-- tick are sequences of changes.
use mathlib.Core.Option.{some-injective}
use ai_orchestration.Prelude.{
  ℕ, zero, suc, String, ◌≡◌, refl, sym, ap, subst, ◌∙◌, inl, inr, Option, none, some, List, [], ◌∷◌,
  if◌then◌else◌, leb, Bool-cases, Option-cases, Thrown, ok, throw, >>=-eq-ok,
}
use ai_orchestration.Prelude.Dict.{lookup, lookup-insert_self}
use ai_orchestration.Prelude.Names.{has}
use ai_orchestration.Value.{Value}
use ai_orchestration.ScopeExpr.Lexer.{ScopeError}
use ai_orchestration.Graph.{
  WorkflowGraph, GraphNode, GraphNodeConfig, TerminalOutcome, terminal_config, WaitSpec,
  HumanInputRequestSpec,
}
use ai_orchestration.Engine.State.{
  Tick, GraphNodeResult, Environment, NodeYield, yields_result, yields_wait,
}
use ai_orchestration.Engine.Join.{node_by_id, node_by_id-found}
use ai_orchestration.Engine.Settle.{
  apply_effect, record_result, settled_scope, terminal_outcome, leave_node, settle_node, Control,
  go_on, stop,
}
use ai_orchestration.Engine.Execute.{
  Execution, execute_node, execute_all, open_wait, process, process_all, go_through, runnable,
  result_of,
}
use ai_orchestration.Engine.Tick.{
  batch, rounds, has_stopped, LoopResult, finished, behind_batch, start, is_fresh, no_names,
}
use ai_orchestration.Engine.Changes.{Change, Changes, nothing, one, Changes-trans, control}
use ai_orchestration.Engine.Runs.{
  ok-injective, effect_change, apply_effect-control, leave_running-Changes, activate-Changes,
}

terminal_outcome-eq :
    (c : GraphNodeConfig) (o : TerminalOutcome)
    → terminal_outcome c ≡ some o
    → c ≡ terminal_config o
terminal_outcome-eq c o h =
    elim c as (λ k. terminal_outcome k ≡ some o → k ≡ terminal_config o) [
      | terminal_config k ↦ λ e. ap terminal_config (some-injective k o e)
      | _ ↦ λ e. absurd (none_some e)
    ]
      h
  where
    none_some : {a : TerminalOutcome} → none ≡ some a → ⊥
    none_some e = cc

module _ (g : WorkflowGraph) where
  leave_node-Changes :
      (n : GraphNode) (r : GraphNodeResult) (scope : Value) (t u : Tick) (c : Control)
      → node_by_id n.id g.nodes ≡ some n
      → lookup n.id t.node_results ≡ some r
      → leave_node g n r scope t ≡ ok (u, c)
      → Changes g t u
  unfolding leave_node
  leave_node-Changes n r scope t u c there settled h =
      elim (Option-cases (terminal_outcome n.config)) [
        | inl running ↦
            leave_running-Changes g n r scope t u c there (rw (running, leave_node) at h)
        | inr (o, ends) ↦
            subst (Changes g t)
              (ap (λ (p : Tick × Control). p.0)
                (ok-injective (record t { terminal = some o }, stop) (u, c)
                  (rw (ends, leave_node) at h)))
              (one (Change.ended n.id n o r there settled (terminal_outcome-eq n.config o ends)))
      ]

  -- Settling a node first records the result.
  pub settle_node-recorded :
      (n : GraphNode) (r : GraphNodeResult) (t u : Tick) (c : Control)
      → node_by_id n.id g.nodes ≡ some n
      → settle_node g n r t ≡ ok (u, c)
      → Changes g (record_result n.id r t) u
  unfolding settle_node record_result control
  settle_node-recorded n r t u c there h =
      let recorded = record_result n.id r t in
      let (after, exit, last) =
        >>=-eq-ok (apply_effect n.on_exit (settled_scope r recorded) recorded) _ h in
      Changes-trans (effect_change g n.on_exit _ recorded after exit) (
        leave_node-Changes n r _ after u c there
          (ap (λ (k : Tick). lookup n.id k.node_results)
              (sym (apply_effect-control n.on_exit _ recorded after exit))
            ∙ lookup-insert_self n.id r t.node_results)
          last)

  settle_node-Changes :
      (n : GraphNode) (r : GraphNodeResult) (t u : Tick) (c : Control)
      → node_by_id n.id g.nodes ≡ some n
      → r.node_id ≡ n.id
      → settle_node g n r t ≡ ok (u, c)
      → Changes g t u
  settle_node-Changes n r t u c there named h =
      Changes-trans (one (Change.recorded n.id n r there named))
        (settle_node-recorded n r t u c there h)

module _ {W : Type 0} (env : Environment W) (g : WorkflowGraph) (run_id : String) where
  execute_node-Changes :
      (id : String) (t : Tick) (w : W) → Changes g t (execute_node env g run_id id t w).1
  unfolding execute_node
  execute_node-Changes id t w = elim (Option-cases (node_by_id id g.nodes)) [
    | inl absent ↦ rw (absent, execute_node) nothing
    | inr (n, there) ↦ rw (there, execute_node) (one (Change.delivered id))
  ]

  pub execute_all-Changes :
      (ids : List String) (t : Tick) (w : W) → Changes g t (execute_all env g run_id ids t w).1
  unfolding execute_all
  execute_all-Changes [] t w = nothing
  execute_all-Changes (id ∷ rest) t w =
      Changes-trans (execute_node-Changes id t w) (execute_all-Changes rest _ _)

  wait_or_keep :
      (id : String) (spec : WaitSpec) (request : Option HumanInputRequestSpec) (t : Tick)
      → Changes g t (if has id t.waiting then t else open_wait id spec request t)
  wait_or_keep id spec request t = elim (Bool-cases (has id t.waiting)) [
    | inl waits ↦ rw waits nothing
    | inr free ↦ rw free (one (Change.opened id spec request free))
  ]

  pub process-Changes :
      (n : GraphNode) (x : Execution) (y : NodeYield) (t u : Tick) (w : W) (c : Control)
      → node_by_id x.node_id g.nodes ≡ some n
      → (process env g run_id n x y t w).0 ≡ ok (u, c)
      → Changes g t u
  unfolding process result_of
  process-Changes n x (yields_wait spec request) t u w c there h =
      subst (Changes g t) (ap (λ (p : Tick × Control). p.0) (ok-injective _ (u, c) h))
        (wait_or_keep x.node_id spec request t)
  process-Changes n x (yields_result status outputs error) t u w c there h =
      let named = (node_by_id-found x.node_id g.nodes n there).1 in
      settle_node-Changes g n _ t u c (ap (λ i. node_by_id i g.nodes) named ∙ there) (sym named) h

  go_through-Changes :
      (s : Tick) (p : Thrown ScopeError (Tick × Control) × W)
      (rest : Tick → W → Thrown ScopeError Tick × W) (u : Tick)
      → ((t : Tick) (c : Control) → p.0 ≡ ok (t, c) → Changes g s t)
      → ((t v : Tick) (w : W) → (rest t w).0 ≡ ok v → Changes g t v)
      → (go_through p rest).0 ≡ ok u
      → Changes g s u
  unfolding go_through
  go_through-Changes s (throw e, w) rest u first next h = cc
  go_through-Changes s (ok (t, stop), w) rest u first next h =
      subst (Changes g s) (ok-injective t u h) (first t stop refl)
  go_through-Changes s (ok (t, go_on), w) rest u first next h =
      Changes-trans (first t go_on refl) (next t u w h)

  pub process_all-Changes :
      (xs : List Execution) (t u : Tick) (w : W)
      → (process_all env g run_id xs t w).0 ≡ ok u
      → Changes g t u
  unfolding process_all
  process_all-Changes [] t u w h = subst (Changes g t) (ok-injective t u h) nothing
  process_all-Changes (x ∷ xs) t u w h = elim (Option-cases (node_by_id x.node_id g.nodes)) [
    | inl absent ↦ process_all-Changes xs t u w (rw (absent, process_all) at h)
    | inr (n, there) ↦
        go_through-Changes t (process env g run_id n x x.yielded t w) (process_all env g run_id xs)
          u (λ t' c e. process-Changes n x x.yielded t t' w c there e)
          (λ t' v w' e. process_all-Changes xs t' v w' e) (rw (there, process_all) at h)
  ]

  pub batch-Changes :
      (limit : ℕ) (t u : Tick) (w : W) → (batch env g run_id limit t w).0 ≡ ok u → Changes g t u
  unfolding batch
  batch-Changes limit t u w h =
      Changes-trans (execute_all-Changes (runnable t) t w) (process_all-Changes _ _ u _ h)

  behind_batch-Changes :
      (s : Tick) (p : Thrown ScopeError Tick × W) (rest : Tick → W → LoopResult W) (u : Tick)
      (v : W)
      → ((t : Tick) → p.0 ≡ ok t → Changes g s t)
      → ((t : Tick) (w : W) → rest t w ≡ finished u v → Changes g t u)
      → behind_batch p rest ≡ finished u v
      → Changes g s u
  unfolding behind_batch
  behind_batch-Changes s (throw e, w) rest u v first next h = cc
  behind_batch-Changes s (ok t, w) rest u v first next h = Changes-trans (first t refl) (next t w h)

  -- Whatever the loop ends with has come of changes.
  pub rounds-Changes :
      (limit fuel : ℕ) (t u : Tick) (w v : W)
      → rounds env g run_id limit fuel t w ≡ finished u v
      → Changes g t u
  unfolding rounds
  rounds-Changes limit zero t u w v h = cc
  rounds-Changes limit (suc fuel) t u w v h =
      elim (Bool-cases (has_stopped env g run_id limit t w)) [
        | inl stopped ↦ subst (Changes g t) (finished_tick t w (rw (stopped, rounds) at h)) nothing
        | inr going ↦ elim (Bool-cases (leb limit t.settlements)) [
          | inl spent ↦
              subst (Changes g t)
                (finished_tick _ w (rw (spent, rounds) at (rw (going, rounds) at h)))
                (one (Change.broke _))
          | inr left ↦ elim (Bool-cases (no_names (runnable t))) [
            | inl idle ↦
                subst (Changes g t)
                  (finished_tick t w
                    (rw (idle, rounds) at (rw (left, rounds) at (rw (going, rounds) at h))))
                  nothing
            | inr busy ↦
                behind_batch-Changes t (batch env g run_id limit t w)
                  (rounds env g run_id limit fuel) u v (λ t' e. batch-Changes limit t t' w e)
                  (λ t' w' e. rounds-Changes limit fuel t' u w' v e)
                  (rw (busy, rounds) at (rw (left, rounds) at (rw (going, rounds) at h)))
          ]
        ]
      ]
    where
      finished_tick : (a : Tick) (b : W) → finished a b ≡ finished u v → a ≡ u
      finished_tick a b e = cc

module _ (g : WorkflowGraph) where
  -- `start`
  pub start-Changes : (t u : Tick) → start g t ≡ ok u → Changes g t u
  unfolding start
  start-Changes t u h = elim (Bool-cases (is_fresh t)) [
    | inr old ↦ subst (Changes g t) (ok-injective t u (rw (old, start) at h)) nothing
    | inl fresh ↦
        activate-Changes g g.entry t u
          (λ n found. inl (fresh, (node_by_id-found g.entry g.nodes n found).1))
          (rw (fresh, start) at h)
  ]
