-- ===== src/Engine/Batches.antt =====
-- packages/workflow/src/graph-engine/engine.ts: a batch settles a node, or leaves every active node
-- waiting; and when all of them wait, it uses up a satisfaction.
use mathlib.Core.List.Memᴰ
use mathlib.Core.List.{Memᴰ}
use ai_orchestration.Prelude.{
  ℕ, String, ◌≤◌, ◌<◌, ◌≡◌, ◌⊎◌, refl, sym, ap, subst, ◌∙◌, inl, inr, true, false, some, List, [],
  ◌∷◌, arith, Bool-cases, and-eq-true, str_eq, str_eq_iff, Thrown, ok, throw,
}
use ai_orchestration.Prelude.Names.{has}
use ai_orchestration.ScopeExpr.Lexer.{ScopeError}
use ai_orchestration.Graph.{WorkflowGraph, GraphNode}
use ai_orchestration.Engine.State.{
  Tick, GraphNodeResult, Environment, NodeYield, yields_result, yields_wait,
}
use ai_orchestration.Engine.Join.{node_by_id, node_by_id-found}
use ai_orchestration.Engine.Settle.{record_result, settle_node, Control, go_on, stop}
use ai_orchestration.Engine.Execute.{
  is_runnable, runnable, deliver, is_delivered, Execution, execute_node, execute_all, process,
  process_all, go_through,
}
use ai_orchestration.Engine.Tick.{batch}
use ai_orchestration.Engine.Runs.{ok-injective}
use ai_orchestration.Engine.Ticks.{settle_node-recorded, execute_all-Changes, process_all-Changes}
use ai_orchestration.Engine.Measure.{IsKnown, pending_count, Changes-Goes, Changes-settlements}
use ai_orchestration.Engine.Waiting.{
  has-runnable, fixed, StillWaits, behind_wait, behind_wait-StillWaits, deliver-StillWaits,
  first_has, ready_delivered, delivered-pending,
}

not_true : false ≡ true → ⊥
not_true h = cc

module _ {W : Type 0} (env : Environment W) (g : WorkflowGraph) (run_id : String) where
  abbrev IsExecutable : List Execution → Type 0
  IsExecutable xs =
      (x : Execution) → Memᴰ x xs → (n : GraphNode) × (node_by_id x.node_id g.nodes ≡ some n)

  settled-more :
      (n : GraphNode) (r : GraphNodeResult) (t u : Tick) (w : W) (xs : List Execution)
      (p : Thrown ScopeError (Tick × Control))
      → node_by_id n.id g.nodes ≡ some n
      → settle_node g n r t ≡ p
      → (go_through (p, w) (process_all env g run_id xs)).0 ≡ ok u
      → t.settlements < u.settlements
  unfolding go_through record_result
  settled-more n r t u w xs (throw e) there settles h = cc
  settled-more n r t u w xs (ok (a, stop)) there settles h =
      let more = Changes-settlements g (settle_node-recorded g n r t a stop there settles) in
      subst (λ (k : Tick). t.settlements < k.settlements) (ok-injective a u h) (omega arith)
  settled-more n r t u w xs (ok (a, go_on)) there settles h =
      let more = Changes-settlements g (settle_node-recorded g n r t a go_on there settles) in
      let rest = Changes-settlements g (process_all-Changes env g run_id xs a u w h) in omega arith

  -- One execution settles its node, or it leaves the node waiting and the loop goes on.
  process-Progress :
      (n : GraphNode) (x : Execution) (y : NodeYield) (t u : Tick) (w : W) (xs : List Execution)
      → node_by_id x.node_id g.nodes ≡ some n
      → (go_through (process env g run_id n x y t w) (process_all env g run_id xs)).0 ≡ ok u
      → (t.settlements < u.settlements)
        ⊎ ((t' : Tick) × StillWaits t t'
            × (has x.node_id t'.waiting ≡ true)
            × (w' : W) × ((process_all env g run_id xs t' w').0 ≡ ok u))
  unfolding process go_through
  process-Progress n x (yields_wait spec request) t u w xs there h =
      let (still, waits) = behind_wait-StillWaits x.node_id spec request t in
      inr (behind_wait x.node_id spec request t, still, waits, w, h)
  process-Progress n x (yields_result status outputs error) t u w xs there h =
      let named = (node_by_id-found x.node_id g.nodes n there).1 in
      inl (settled-more n _ t u _ xs _ (ap (λ i. node_by_id i g.nodes) named ∙ there) refl h)

  process_all-Progress :
      (xs : List Execution) (t u : Tick) (w : W)
      → IsExecutable xs
      → (process_all env g run_id xs t w).0 ≡ ok u
      → (t.settlements < u.settlements)
        ⊎ (StillWaits t u × ((x : Execution) → Memᴰ x xs → has x.node_id u.waiting ≡ true))
  unfolding process_all
  process_all-Progress [] t u w known h =
      let e = ok-injective t u h in
      inr (
        (ap fixed e, λ k at. ap (λ (v : Tick). has k v.waiting) (sym e) ∙ at),
        λ x m. absurd (Memᴰ.not-nil m),
      )
  process_all-Progress (x ∷ xs) t u w known h =
      let (n, there) = known x (Memᴰ.head refl) in
      elim (process-Progress n x x.yielded t u w xs there (rw (there, process_all) at h)) [
        | inl more ↦ inl more
        | inr (t', still, waits, w', rest) ↦
            elim (process_all-Progress xs t' u w' (λ y m. known y (Memᴰ.tail m)) rest) [
              | inl more ↦
                  inl (subst (λ (q : List String × ℕ). q.1 < u.settlements) (sym still.0) more)
              | inr (still', all_wait) ↦ inr (
                (still.0 ∙ still'.0, λ k at. still'.1 k (still.1 k at)),
                λ y m. elim (Memᴰ.cases_cons m) [
                  | inl e ↦
                      ap (λ (z : Execution). has z.node_id u.waiting) e ∙ still'.1 x.node_id waits
                  | inr m' ↦ all_wait y m'
                ],
              )
            ]
      ]

  -- What the executions of a batch change: some nodes among them no longer wait.
  abbrev Executed : List String → Tick → List Execution → Tick → Type 0
  Executed ids t xs u =
      (fixed t ≡ fixed u)
      × ((k : String) → has k ids ≡ false → has k t.waiting ≡ true → has k u.waiting ≡ true)
      × ((k : String) → has k ids ≡ true → (x : Execution) × Memᴰ x xs × (x.node_id ≡ k))
      × IsExecutable xs

  execute_node-deliver :
      (id : String) (n : GraphNode) (t : Tick) (w : W)
      → node_by_id id g.nodes ≡ some n
      → ((execute_node env g run_id id t w).1 ≡ deliver id t)
        × ((execute_node env g run_id id t w).0.node_id ≡ id)
  unfolding execute_node
  execute_node-deliver id n t w there =
      (rw (there, execute_node) refl, rw (there, execute_node) refl)

  execute_all-Executed :
      (ids : List String) (t : Tick) (w : W)
      → ((k : String) → has k ids ≡ true → (n : GraphNode) × (node_by_id k g.nodes ≡ some n))
      → let (xs, u, _) = execute_all env g run_id ids t w in Executed ids t xs u
  unfolding execute_all has
  execute_all-Executed [] t w known =
      (refl, (λ k out at. at), (λ k at. absurd (not_true at)), λ x m. absurd (Memᴰ.not-nil m))
  execute_all-Executed (id ∷ rest) t w known =
      let (n, there) = known id (ground (arith, str_eq_iff id id)) in
      let (e, name) = execute_node-deliver id n t w there in
      let (kept, waits) = deliver-StillWaits id t in
      let (kept', waits', all_run, all_known) =
        execute_all-Executed rest _ _ (λ k at. known k (ground arith)) in
      (
        kept ∙ ap fixed (sym e) ∙ kept',
        (λ k out at.
            waits' k (ground arith)
              (ap (λ (v : Tick). has k v.waiting) e ∙ waits k (ground arith) at)),
        (λ k at. elim (Bool-cases (str_eq id k)) [
          | inl same ↦ (_, Memᴰ.head refl, name ∙ (str_eq_iff id k).0 same)
          | inr other ↦ let (x, m, named) = all_run k (ground arith) in (x, Memᴰ.tail m, named)
        ]),
        λ x m. elim (Memᴰ.cases_cons m) [
          | inl h ↦ (
            n,
            ap (λ (y : Execution). node_by_id y.node_id g.nodes) h
                ∙ ap (λ i. node_by_id i g.nodes) name
                ∙ there,
          )
          | inr m' ↦ all_known x m'
        ],
      )

  -- Every active node waits.
  abbrev pub AllWait : Tick → Type 0
  AllWait t = (k : String) → has k t.active ≡ true → has k t.waiting ≡ true

  -- A batch settles a node, or behind it every active node waits.
  pub batch-Progress :
      (limit : ℕ) (t u : Tick) (w : W)
      → IsKnown g t.active
      → (batch env g run_id limit t w).0 ≡ ok u
      → (t.settlements < u.settlements) ⊎ AllWait u
  unfolding batch IsKnown
  batch-Progress limit t u w known h =
      let (kept, waits, all_run, all_known) =
        execute_all-Executed (runnable t) t w
          (λ k at. known k (ground (arith, has-runnable k t))) in
      elim (process_all-Progress _ _ u _ all_known h) [
        | inl more ↦ inl (subst (λ (q : List String × ℕ). q.1 < u.settlements) (sym kept) more)
        | inr (still, all_wait) ↦ inr (λ k at. elim (Bool-cases (has k (runnable t))) [
          | inl run ↦
              let (x, m, named) = all_run k run in
              ap (λ i. has i u.waiting) (sym named) ∙ all_wait x m
          | inr idle ↦
              let active = ap (λ (q : List String × ℕ). has k q.0) (kept ∙ still.0) ∙ at in
              still.1 k (waits k idle (idle_waits k idle active))
        ])
      ]
    where
      idle_waits :
          (k : String) → has k (runnable t) ≡ false → has k t.active ≡ true → has k t.waiting ≡ true
      idle_waits k idle active = unfold is_runnable in ground (arith, has-runnable k t)

  executed-pending :
      (id : String) (ids : List String) (t : Tick) (w : W)
      → IsKnown g t.active
      → has id t.active ≡ true
      → is_delivered id t ≡ true
      → pending_count (execute_all env g run_id (id ∷ ids) t w).1 < pending_count t
  unfolding execute_all
  executed-pending id ids t w known active here =
      let (n, there) : (n : GraphNode) × (node_by_id id g.nodes ≡ some n) =
        unfold IsKnown in known id active in
      let after = execute_node env g run_id id t w in
      let e : after.1 ≡ deliver id t = (execute_node-deliver id n t w there).0 in
      let same : pending_count after.1 ≡ pending_count (deliver id t) = ap pending_count e in
      let first = delivered-pending id t here in
      let known' : IsKnown g after.1.active =
        subst (IsKnown g)
          (ap (λ (q : List String × ℕ). q.0) ((deliver-StillWaits id t).0 ∙ ap fixed (sym e)))
          known in
      let rest : pending_count (execute_all env g run_id ids after.1 after.2).1
          ≤ pending_count after.1 =
        (Changes-Goes g (execute_all-Changes env g run_id ids after.1 after.2) known').0 in
      omega arith

  -- If every active node waits, the first one that is runnable uses up its satisfaction.
  pub batch-pending :
      (limit : ℕ) (t u : Tick) (w : W) (id : String) (ids : List String)
      → IsKnown g t.active
      → AllWait t
      → runnable t ≡ id ∷ ids
      → (batch env g run_id limit t w).0 ≡ ok u
      → pending_count u < pending_count t
  unfolding batch
  batch-pending limit t u w id ids known all_wait runs h =
      let at : has id (runnable t) ≡ true = ap (has id) runs ∙ first_has id ids in
      let (ready, active) =
        and-eq-true (is_runnable t id) (has id t.active) (sym (has-runnable id t) ∙ at) in
      let known' = (Changes-Goes g (execute_all-Changes env g run_id (runnable t) t w) known).1 in
      let rest = (Changes-Goes g (process_all-Changes env g run_id _ _ u _ h) known').0 in
      let first =
        executed-pending id ids t w known active
          (ready_delivered id t (all_wait id active) ready) in
      let first' =
        subst (λ l. pending_count (execute_all env g run_id l t w).1 < pending_count t) (sym runs)
          first in
      omega arith
