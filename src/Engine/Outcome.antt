-- ===== src/Engine/Outcome.antt =====
-- packages/workflow/src/graph-engine/engine.ts: what `tick` returns is the end of a sequence of
-- changes, frozen and concluded.
use ai_orchestration.Prelude.{
  ℕ, ◌≡◌, refl, ap, ◌∙◌, inl, inr, Bool, true, false, some, Option-cases, arith, ◌≢◌, Thrown, ok,
  throw,
}
use ai_orchestration.Prelude.Dict.{Dict}
use ai_orchestration.ScopeExpr.Lexer.{ScopeError}
use ai_orchestration.Graph.{WorkflowGraph, TerminalOutcome}
use ai_orchestration.Waits.{WaitSatisfaction}
use ai_orchestration.Engine.State.{Tick, RunGraphState, GraphTickOutcome, Environment}
use ai_orchestration.Engine.Tick.{
  thaw, freeze, start, rounds, LoopResult, finished, threw, out_of_rounds, finish, conclude, tick,
  returned, rejected, quiet_outcome, status_of_terminal,
}
use ai_orchestration.Engine.Changes.{Changes, Changes-trans}
use ai_orchestration.Engine.Ticks.{rounds-Changes, start-Changes}

-- The state that the loop ends with, the time of freezing, and whether the run is then aborted.
pub record Ending (g : WorkflowGraph) (state : RunGraphState)
    (satisfactions : Dict WaitSatisfaction) (out : GraphTickOutcome) : Type 0 where
  pub last : Tick
  pub at : ℕ
  pub aborted : Bool
  pub reached : Changes g (thaw state satisfactions) last
  pub concluded : out ≡ conclude (freeze state last at) last aborted

module _ {W : Type 0} (env : Environment W) (g : WorkflowGraph) (limit : ℕ) where
  finish-Ending :
      (fuel : ℕ) (state : RunGraphState) (satisfactions : Dict WaitSatisfaction) (begun : Tick)
      (w : W) (r : LoopResult W) (out : GraphTickOutcome) (v : W)
      → Changes g (thaw state satisfactions) begun
      → rounds env g state.run_id limit fuel begun w ≡ r
      → finish env g limit state r ≡ returned out v
      → Ending g state satisfactions out
  unfolding finish
  finish-Ending fuel state satisfactions begun w (finished t w') out v before ran h = record {
    last = t;
    at = (env.now w').0;
    aborted = env.is_aborted (env.now w').1;
    reached = Changes-trans before (rounds-Changes env g state.run_id limit fuel begun t w w' ran);
    concluded = cc;
  }
  finish-Ending fuel state satisfactions begun w (threw e) out v before ran h = cc
  finish-Ending fuel state satisfactions begun w out_of_rounds out v before ran h = cc

  never_rejected :
      {e : ScopeError} {out : GraphTickOutcome} {v : W} → rejected e ≡ returned out v → ⊥
  never_rejected h = cc

  behind_start :
      (fuel : ℕ) (state : RunGraphState) (satisfactions : Dict WaitSatisfaction) (w : W)
      (r : Thrown ScopeError Tick) (out : GraphTickOutcome) (v : W)
      → start g (thaw state satisfactions) ≡ r
      → tick env g limit fuel state satisfactions w ≡ returned out v
      → Ending g state satisfactions out
  unfolding tick
  behind_start fuel state satisfactions w (throw e) out v begins h =
      absurd (never_rejected (rw (begins, tick) at h))
  behind_start fuel state satisfactions w (ok begun) out v begins h =
      finish-Ending fuel state satisfactions begun w _ out v
        (start-Changes g (thaw state satisfactions) begun begins) refl (rw (begins, tick) at h)

  pub tick-Ending :
      (fuel : ℕ) (state : RunGraphState) (satisfactions : Dict WaitSatisfaction) (w v : W)
      (out : GraphTickOutcome)
      → tick env g limit fuel state satisfactions w ≡ returned out v
      → Ending g state satisfactions out
  tick-Ending fuel state satisfactions w v out h =
      behind_start fuel state satisfactions w _ out v refl h

-- The outcome has the frozen state, whatever its status.
pub conclude-state : (s : RunGraphState) (t : Tick) (b : Bool) → (conclude s t b).state ≡ s
unfolding conclude quiet_outcome
conclude-state s t b = ground arith

pub Ending-state :
    {g : WorkflowGraph} {state : RunGraphState} {satisfactions : Dict WaitSatisfaction}
    {out : GraphTickOutcome} (e : Ending g state satisfactions out)
    → out.state ≡ freeze state e.last e.at
Ending-state {g} {state} e =
    ap (λ (o : GraphTickOutcome). o.state) e.concluded
    ∙ conclude-state (freeze state e.last e.at) e.last e.aborted

-- The status of an outcome that ends well, or is blocked, is that of a terminal node.
pub conclude-terminal :
    (s : RunGraphState) (t : Tick) (b : Bool) (o : TerminalOutcome)
    → (conclude s t b).status ≡ status_of_terminal o
    → o ≢ TerminalOutcome.failed
    → t.terminal ≡ some o
unfolding conclude quiet_outcome status_of_terminal
conclude-terminal s t true TerminalOutcome.completed h other = cc
conclude-terminal s t true TerminalOutcome.blocked h other = cc
conclude-terminal s t b TerminalOutcome.failed h other = absurd (other refl)
conclude-terminal s t false TerminalOutcome.completed h other = elim (Option-cases t.fatal_error) [
  | inr (e, fatal) ↦ ground arith
  | inl sound ↦ elim (Option-cases t.terminal) [
    | inl none_yet ↦ ground arith
    | inr (k, ends) ↦
        elim k as (λ o'. t.terminal ≡ some o' → t.terminal ≡ some TerminalOutcome.completed) [
          | TerminalOutcome.completed ↦ λ e. e
          | TerminalOutcome.blocked ↦ λ e. ground arith
          | TerminalOutcome.failed ↦ λ e. ground arith
        ]
          ends
  ]
]
conclude-terminal s t false TerminalOutcome.blocked h other = elim (Option-cases t.fatal_error) [
  | inr (e, fatal) ↦ ground arith
  | inl sound ↦ elim (Option-cases t.terminal) [
    | inl none_yet ↦ ground arith
    | inr (k, ends) ↦
        elim k as (λ o'. t.terminal ≡ some o' → t.terminal ≡ some TerminalOutcome.blocked) [
          | TerminalOutcome.completed ↦ λ e. ground arith
          | TerminalOutcome.blocked ↦ λ e. e
          | TerminalOutcome.failed ↦ λ e. ground arith
        ]
          ends
  ]
]
