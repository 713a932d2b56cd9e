-- ===== src/Engine/Termination.antt =====
-- packages/workflow/src/graph-engine/engine.ts: the main loop of `tick` ends, and how many rounds
-- it takes at most.
use ai_orchestration.Prelude.{
  ℕ, zero, suc, String, ◌+◌, ◌-◌, ◌*◌, ◌≤◌, ◌<◌, ◌≡◌, ◌≢◌, ◌⊎◌, refl, sym, ap, ◌∙◌, inl, inr, true,
  false, ◌||◌, none, List, [], ◌∷◌, arith, Bool-cases, length, leb, Thrown, ok, throw,
}
use ai_orchestration.Prelude.Dict.{Dict}
use ai_orchestration.Prelude.Names.{has, add, has-add}
use ai_orchestration.ScopeExpr.Lexer.{ScopeError}
use ai_orchestration.Graph.{WorkflowGraph}
use ai_orchestration.Waits.{WaitSatisfaction}
use ai_orchestration.Engine.State.{Tick, Environment, RunGraphState}
use ai_orchestration.Engine.Execute.{runnable, execute_node, execute_all, process_all}
use ai_orchestration.Engine.Join.{node_by_id}
use ai_orchestration.Engine.Tick.{
  batch, rounds, has_stopped, LoopResult, finished, threw, out_of_rounds, behind_batch, start, thaw,
  set_of, tick, TickResult, ran_out, rejected, finish, no_names,
}
use ai_orchestration.Engine.Ticks.{batch-Changes, start-Changes}
use ai_orchestration.Engine.Measure.{IsKnown, pending_count, Changes-Goes, Changes-settlements}
use ai_orchestration.Engine.Batches.{AllWait, batch-Progress, batch-pending}

times_mono : (a b c : ℕ) → a ≤ b → a * c ≤ b * c
times_mono a b c h = grind arith

times_drop : (a b c : ℕ) → a < b → a * c + c ≤ b * c
times_drop a b c h = grind arith

List-cases :
    (ids : List String)
    → (no_names ids ≡ true) ⊎ ((id : String) × (rest : List String) × (ids ≡ id ∷ rest))
List-cases [] = inl refl
List-cases (id ∷ rest) = inr (id, rest, refl)

module _ {W : Type 0} (env : Environment W) (g : WorkflowGraph) (run_id : String)
    (limit most : ℕ) where
  -- What a state may still cost in rounds, if at most `most` satisfactions are left.
  abbrev cost : Tick → ℕ
  cost t = (limit - t.settlements) * (most + 2) + pending_count t

  -- The fuel is enough for a state.
  abbrev Enough : ℕ → Tick → Type 0
  Enough fuel t = (AllWait env g run_id t × (cost t + 1 ≤ fuel)) ⊎ (cost t + 2 ≤ fuel)

  -- One round that does not end the loop takes one off the fuel that is enough.
  batch-Enough :
      (fuel : ℕ) (t u : Tick) (w : W) (id : String) (ids : List String)
      → IsKnown g t.active
      → pending_count t ≤ most
      → t.settlements < limit
      → runnable t ≡ id ∷ ids
      → (batch env g run_id limit t w).0 ≡ ok u
      → Enough (suc fuel) t
      → Enough fuel u
  batch-Enough fuel t u w id ids known few left runs h enough =
      let changes = batch-Changes env g run_id limit t u w h in
      let grows = Changes-settlements g changes in
      let less : pending_count u ≤ pending_count t = (Changes-Goes g changes known).0 in
      elim (batch-Progress env g run_id limit t u w known h) [
        | inl more ↦
            let drop =
              times_drop (limit - u.settlements) (limit - t.settlements) (most + 2) (omega arith) in
            inr (elim enough [ inl (_, e) ↦ omega arith | inr e ↦ omega arith ])
        | inr all_wait ↦
            let keep =
              times_mono (limit - u.settlements) (limit - t.settlements) (most + 2) (omega arith) in
            inl (
              all_wait,
              elim enough [
                | inl (waits, e) ↦
                    let fewer = batch-pending env g run_id limit t u w id ids known waits runs h in
                    omega arith
                | inr e ↦ omega arith
              ],
            )
      ]

  behind_batch-ends :
      (p : Thrown ScopeError Tick × W) (rest : Tick → W → LoopResult W)
      → ((u : Tick) (w : W) → p.0 ≡ ok u → rest u w ≢ out_of_rounds)
      → behind_batch p rest ≢ out_of_rounds
  unfolding behind_batch
  behind_batch-ends (throw e, w) rest next h = cc
  behind_batch-ends (ok u, w) rest next h = next u w refl h

  rounds-ends :
      (fuel : ℕ) (t : Tick) (w : W)
      → IsKnown g t.active
      → pending_count t ≤ most
      → Enough fuel t
      → rounds env g run_id limit fuel t w ≢ out_of_rounds
  unfolding rounds
  rounds-ends zero t w known few enough h = elim enough [
    | inl (_, e) ↦ omega arith
    | inr e ↦ omega arith
  ]
  rounds-ends (suc fuel) t w known few enough h =
      elim (Bool-cases (has_stopped env g run_id limit t w)) [
        | inl stopped ↦ not_out (rw (stopped, rounds) at h)
        | inr going ↦ elim (Bool-cases (leb limit t.settlements)) [
          | inl spent ↦ not_out (rw (spent, rounds) at (rw (going, rounds) at h))
          | inr left ↦ elim (List-cases (runnable t)) [
            | inl idle ↦
                not_out (rw (idle, rounds) at (rw (left, rounds) at (rw (going, rounds) at h)))
            | inr (id, ids, runs) ↦
                behind_batch-ends (batch env g run_id limit t w) (rounds env g run_id limit fuel)
                  (λ u w' done.
                    let goes = Changes-Goes g (batch-Changes env g run_id limit t u w done) known in
                    rounds-ends fuel u w' goes.1 (omega arith)
                      (batch-Enough fuel t u w id ids known few (ground arith) runs done enough))
                  (rw (ap no_names runs, rounds) at
                    (rw (left, rounds) at (rw (going, rounds) at h)))
          ]
        ]
      ]
    where
      not_out : {a : Tick} {b : W} → finished a b ≡ out_of_rounds → ⊥
      not_out e = cc

has-set_of : (k : String) (acc xs : List String) → has k (set_of acc xs) ≡ (has k acc || has k xs)
unfolding set_of has
has-set_of k acc [] = ground arith
has-set_of k acc (x ∷ xs) = ground (arith, has-set_of k (add x acc) xs, has-add x k acc)

module _ {W : Type 0} (env : Environment W) (g : WorkflowGraph) (limit : ℕ) where
  finish-ends :
      (state : RunGraphState) (r : LoopResult W)
      → r ≢ out_of_rounds
      → finish env g limit state r ≢ ran_out
  unfolding finish
  finish-ends state (finished t w) other h = cc
  finish-ends state (threw e) other h = cc
  finish-ends state out_of_rounds other h = other refl

  thaw-IsKnown :
      (state : RunGraphState) (satisfactions : Dict WaitSatisfaction)
      → IsKnown g state.active_node_ids
      → IsKnown g (thaw state satisfactions).active
  unfolding IsKnown thaw
  thaw-IsKnown state satisfactions known id at =
      known id (sym (has-set_of id [] state.active_node_ids ∙ none_before) ∙ at)
    where
      none_before : (has id [] || has id state.active_node_ids) ≡ has id state.active_node_ids
      none_before = unfold has in refl

  started-ends :
      (fuel : ℕ) (state : RunGraphState) (satisfactions : Dict WaitSatisfaction) (w : W)
      (r : Thrown ScopeError Tick)
      → IsKnown g state.active_node_ids
      → (limit + 1) * (length satisfactions + 2) ≤ fuel
      → start g (thaw state satisfactions) ≡ r
      → tick env g limit fuel state satisfactions w ≢ ran_out
  unfolding tick
  started-ends fuel state satisfactions w (throw e) known enough starts h =
      not_out (rw (starts, tick) at h)
    where
      not_out : {e : ScopeError} → ◌≡◌ {A = TickResult W} (rejected e) ran_out → ⊥
      not_out e = cc
  started-ends fuel state satisfactions w (ok begun) known enough starts h =
      let (few, known') =
        Changes-Goes g (start-Changes g (thaw state satisfactions) begun starts)
          (thaw-IsKnown state satisfactions known) in
      let few' : pending_count begun ≤ length satisfactions = unfold pending_count thaw in few in
      let most = length satisfactions in
      let keep = times_mono (limit - begun.settlements) limit (most + 2) (omega arith) in
      let whole : (limit + 1) * (most + 2) ≡ limit * (most + 2) + (most + 2) = grind arith in
      finish-ends state _
        (rounds-ends env g state.run_id limit most fuel begun w known' few' (inr (omega arith)))
        (rw (starts, tick) at h)

  -- If the active nodes of the state are nodes of the graph, a tick returns or throws within
  -- (limit + 1) * (s + 2) rounds, where s is the number of satisfactions that it is given.
  pub tick-ends :
      (fuel : ℕ) (state : RunGraphState) (satisfactions : Dict WaitSatisfaction) (w : W)
      → IsKnown g state.active_node_ids
      → (limit + 1) * (length satisfactions + 2) ≤ fuel
      → tick env g limit fuel state satisfactions w ≢ ran_out
  tick-ends fuel state satisfactions w known enough =
      started-ends fuel state satisfactions w _ known enough refl

module _ {W : Type 0} (env : Environment W) (g : WorkflowGraph) (run_id : String) (limit : ℕ) where
  batch_of_unknown :
      (t : Tick) (w : W) (id : String)
      → runnable t ≡ id ∷ []
      → node_by_id id g.nodes ≡ none
      → batch env g run_id limit t w ≡ (ok t, (env.now w).1)
  unfolding batch execute_all execute_node process_all
  batch_of_unknown t w id active absent =
      rw (active, batch, execute_all) (rw (absent, execute_node) (rw (absent, process_all) refl))

  -- If the one runnable node of a state is not a node of the graph, the loop does not end in any
  -- number of rounds, as long as the run is not aborted, nothing has stopped it before and the
  -- settlements are below the limit.
  pub rounds_of_unknown :
      (fuel : ℕ) (t : Tick) (w : W) (id : String)
      → ((v : W) → env.is_aborted v ≡ false)
      → runnable t ≡ id ∷ []
      → node_by_id id g.nodes ≡ none
      → t.terminal ≡ none
      → t.fatal_error ≡ none
      → t.settlements < limit
      → rounds env g run_id limit fuel t w ≡ out_of_rounds
  unfolding rounds behind_batch
  rounds_of_unknown zero t w id runs_on active absent no_terminal no_error left = refl
  rounds_of_unknown (suc fuel) t w id runs_on active absent no_terminal no_error left =
      rw (going, rounds)
        (rw (lt_leb left, rounds)
          (rw (ap no_names active, rounds)
            (rw (batch_of_unknown t w id active absent)
              (rounds_of_unknown fuel t _ id runs_on active absent no_terminal no_error left))))
    where
      lt_leb : {a b : ℕ} → a < b → leb b a ≡ false
      lt_leb h = ground arith

      going : has_stopped env g run_id limit t w ≡ false
      going = unfold has_stopped in rw (runs_on w) (rw (no_terminal) (rw no_error refl))
