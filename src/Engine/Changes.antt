-- ===== src/Engine/Changes.antt =====
-- packages/workflow/src/graph-engine/engine.ts: the changes of the state that a tick is made of,
-- as a step relation. `Runs` shows that every tick is a sequence of them, whatever the executors
-- yield, so what every change keeps holds at the end of every tick.
use mathlib.Core.List.{Memᴰ}
use ai_orchestration.Prelude.{
  String, ◌≡◌, ◌⊎◌, true, false, Option, none, some, [], List, refl, inl, inr, Bool-cases,
}
use ai_orchestration.Prelude.Names.{has}
use ai_orchestration.Prelude.Dict.{Dict, count_of, lookup}
use ai_orchestration.Waits.{WaitSatisfaction}
use ai_orchestration.Graph.{
  WorkflowGraph, GraphNode, GraphTransition, TerminalOutcome, WaitSpec, HumanInputRequestSpec,
  terminal_config,
}
use ai_orchestration.Engine.State.{Tick, TickError, GraphNodeResult}
use ai_orchestration.Engine.Join.{node_by_id, join_satisfied}
use ai_orchestration.Engine.Settle.{
  mark_active, take_transition, record_result, retry_node, reached,
}
use ai_orchestration.Engine.Execute.{deliver, is_delivered, open_wait}
use ai_orchestration.Engine.Tick.{is_fresh}

-- The state without what effects change: the domain, the projections and the events.
unfoldable pub control : Tick → Tick
control t = record t { domain_name = none; domain_data = []; projections = []; events = [] }

-- Why a node is activated: it is the entry of a fresh run, or its join is satisfied.
abbrev pub IsDue : WorkflowGraph → GraphNode → Tick → Type 0
IsDue g n t = ((is_fresh t ≡ true) × (n.id ≡ g.entry)) ⊎ (join_satisfied g n t ≡ true)

pub data Change (g : WorkflowGraph) : Tick → Tick → Type 0 where
  effect : {t u : Tick} → control t ≡ control u → Change g t u
  activated :
      {t : Tick} (id : String) (n : GraphNode)
      → node_by_id id g.nodes ≡ some n
      → IsDue g n t
      → Change g t (mark_active id t)
  taken :
      {t : Tick} (tr : GraphTransition)
      → Memᴰ tr g.transitions
      → reached tr.loop_bound (count_of tr.id t.loop_counters) ≡ none
      → Change g t (take_transition tr t)
  recorded :
      {t : Tick} (id : String) (n : GraphNode) (r : GraphNodeResult)
      → node_by_id id g.nodes ≡ some n
      → r.node_id ≡ id
      → Change g t (record_result id r t)
  retried :
      {t : Tick} (id : String) (n : GraphNode)
      → node_by_id id g.nodes ≡ some n
      → Change g t (retry_node id t)
  ended :
      {t : Tick} (id : String) (n : GraphNode) (o : TerminalOutcome) (r : GraphNodeResult)
      → node_by_id id g.nodes ≡ some n
      → lookup id t.node_results ≡ some r
      → n.config ≡ terminal_config o
      → Change g t (record t { terminal = some o })
  broke : {t : Tick} (e : TickError) → Change g t (record t { fatal_error = some e })
  delivered : {t : Tick} (id : String) → Change g t (deliver id t)
  opened :
      {t : Tick} (id : String) (spec : WaitSpec) (request : Option HumanInputRequestSpec)
      → has id t.waiting ≡ false
      → Change g t (open_wait id spec request t)

-- What neither the waiting nodes nor the satisfactions concern is kept when one is delivered.
pub deliver-keeps :
    {A : Type 0} (f : Tick → A)
    → ((t : Tick) (waits : List String) (left : Dict WaitSatisfaction)
        → f (record t { waiting = waits; pending_satisfactions = left }) ≡ f t)
    → (id : String) (t : Tick) → f (deliver id t) ≡ f t
unfolding deliver
deliver-keeps f same id t = elim (Bool-cases (is_delivered id t)) [
  | inl here ↦ rw here (same t _ _)
  | inr absent ↦ rw absent refl
]

pub data Changes (g : WorkflowGraph) (s : Tick) : Tick → Type 0 where
  nothing : Changes g s s
  more : {t u : Tick} → Changes g s t → Change g t u → Changes g s u

pub one : {g : WorkflowGraph} {s t : Tick} → Change g s t → Changes g s t
one c = more nothing c

pub Changes-trans :
    {g : WorkflowGraph} {s t u : Tick} → Changes g s t → Changes g t u → Changes g s u
Changes-trans a nothing = a
Changes-trans a (more b c) = more (Changes-trans a b) c

-- What every change keeps, every sequence of changes keeps.
pub Changes-keep {ℓ} :
    {g : WorkflowGraph} (P : Tick → Type ℓ)
    → ((t u : Tick) → Change g t u → P t → P u)
    → {s t : Tick} → Changes g s t
    → P s
    → P t
Changes-keep P keep nothing h = h
Changes-keep P keep (more {t} {u} a c) h = keep t u c (Changes-keep P keep a h)
