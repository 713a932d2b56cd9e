-- ===== src/Run/Writers.antt =====
-- The two writers of a run's state: packages/orchestrator/src/run-coordinator.ts (`transition`) and
-- packages/orchestrator/src/scheduler.ts (`recover`), over the repository of runs, the claims and
-- the events that they publish. A time is a number of milliseconds; `now` is what the clock says.
use ai_orchestration.Prelude.{
  ℕ, String, ◌≡◌, refl, sym, ◌≢◌, Bool-cases, ◌↔◌, ◌⊎◌, ◌||◌, Bool, true, false, Option, none, some,
  List, [], ◌∷◌, ◌++◌, str_eq, if◌then◌else◌, arith, inl, inr,
}
use ai_orchestration.Prelude.Dict.{Dict, lookup, insert, lookup-insert_self}
use ai_orchestration.Claims.Contract.{ClaimStore}
use ai_orchestration.Run.{
  Run, RunState, RunStateChange, IllegalTransition, queued, failed, waiting_for_human,
  can_transition, assert_transition, is_terminal, state_eq,
}

-- `reason ? { reason } : {}`: an empty text is left out too.
abbrev pub given_reason : Option String → Option String
given_reason none = none
given_reason (some text) = if str_eq text "" then none else some text

-- The event `run.state.changed`.
pub record StateChanged : Type 0 where
  pub run_id : String
  pub from : RunState
  pub to : RunState
  pub reason : Option String

pub record Store : Type 0 where
  pub runs : Dict Run
  pub events : List StateChanged

-- A call throws, or returns the updated run and leaves the store changed.
pub data Transitioned : Type 0 where
  threw : IllegalTransition → Transitioned
  moved : Run → Store → Transitioned

-- The run with its new state, and the change at the end of its history.
unfoldable pub moved_to : Run → RunState → ℕ → Option String → Run
moved_to run to now reason = record run {
  state = to;
  updated_at = now;
  history =
      run.history
      ++ record { from = run.state; to = to; at = now; reason = given_reason reason } ∷ [];
}

-- `RunCoordinator.transition`
unfoldable pub transition : ℕ → Run → RunState → Option String → Store → Transitioned
unfolding moved_to
transition now run to reason store = elim (assert_transition run.state to) [
  | some error ↦ threw error
  | none ↦
      let updated = moved_to run to now reason in
      moved updated (record {
        runs = insert run.id updated store.runs;
        events =
            store.events
            ++ record { run_id = run.id; from = run.state; to = to; reason = given_reason reason }
              ∷ [];
      })
]

-- The body of the loop of `Scheduler.recover`: the run that it writes, unless it `continue`s.
unfoldable pub interrupted : ℕ → Run → Run
interrupted now run = record run {
  state = failed;
  updated_at = now;
  error = some "interrupted by orchestrator restart";
  history =
      run.history
      ++ record { from = run.state; to = failed; at = now; reason = some "interrupted by restart" }
        ∷ [];
}

unfoldable pub is_left_alone : Run → Bool
is_left_alone run = is_terminal run.state || state_eq run.state queued

-- The loop over `runs.list()`, with the clock's reading for each run.
module _ {S : Type 0} ⦃c : ClaimStore S⦄ where
  unfoldable pub recover : (String → ℕ) → List Run → Dict Run × S → Dict Run × S
  recover clock [] store = store
  recover clock (run ∷ rest) (runs, claims) =
      let now = clock run.id in
      recover clock rest (
        if is_left_alone run then (runs, claims) else (
          insert run.id (interrupted now run) runs,
          c.release run.work_item_id run.id now claims,
        ))

-- A history is legal if it leads from the queue to the state, by changes that the table allows.
abbrev pub Leads : RunState → List RunStateChange → RunState → Type 0
Leads s [] t = s ≡ t
Leads s (c ∷ cs) t = (c.from ≡ s) × (can_transition c.from c.to ≡ true) × Leads c.to cs t

unfoldable pub IsLegal : Run → Type 0
IsLegal run = Leads queued run.history run.state

Leads-append :
    (s : RunState) (cs : List RunStateChange) (c : RunStateChange)
    → Leads s (cs ++ c ∷ []) c.to ↔ Leads s cs c.from × (can_transition c.from c.to ≡ true)
Leads-append s [] c = (λ h. (sym h.0, h.1), λ h. (sym h.0, h.1, refl))
Leads-append s (b ∷ cs) c = (
  λ h. let r = (Leads-append b.to cs c).0 h.2 in ((h.0, h.1, r.0), r.1),
  λ h. let (l, ok) = h in (l.0, l.1, (Leads-append b.to cs c).1 (l.2, ok)),
)

left_alone : RunState → Bool
left_alone s = is_terminal s || state_eq s queued

failed_edge :
    (s : RunState)
    → left_alone s ≡ false
    → (can_transition s failed ≡ true) ↔ (s ≢ waiting_for_human)
unfolding left_alone can_transition is_terminal state_eq
failed_edge s h = ground arith

-- `transition` throws exactly when the table does not allow the change, and then writes nothing.
-- Otherwise it returns and stores the run with its new state, publishes the change behind the
-- other events, and the new history is legal exactly when the old one was.
pub transition-IsLegal_iff :
    (now : ℕ) (run : Run) (to : RunState) (reason : Option String) (store : Store)
    → (can_transition run.state to ≡ false)
        × (transition now run to reason store ≡ threw (record { from = run.state; to = to }))
      ⊎ (can_transition run.state to ≡ true)
        × ((next : Run) × (after : Store) × (transition now run to reason store ≡ moved next after)
            × (lookup run.id after.runs ≡ some next)
            × (next.state ≡ to)
            × (after.events
                ≡ store.events
                  ++ record {
                    run_id = run.id;
                    from = run.state;
                    to = to;
                    reason = given_reason reason;
                  }
                    ∷ [])
            × (IsLegal next ↔ IsLegal run))
unfolding transition assert_transition IsLegal
transition-IsLegal_iff now run to reason store = elim (Bool-cases (can_transition run.state to)) [
  | inr no_edge ↦ inl (no_edge, rw (no_edge, transition))
  | inl edge ↦ inr (
    edge,
    (
      moved_to run to now reason,
      record {
        runs = insert run.id (moved_to run to now reason) store.runs;
        events =
            store.events
            ++ record { run_id = run.id; from = run.state; to = to; reason = given_reason reason }
              ∷ [];
      },
      rw (edge, transition),
      lookup-insert_self run.id (moved_to run to now reason) store.runs,
      refl,
      refl,
      (λ legal. ((changed edge).0 legal).0, λ legal. (changed edge).1 (legal, edge)),
    ),
  )
]
  where
    changed :
        can_transition run.state to ≡ true
        → Leads queued (moved_to run to now reason).history to
          ↔ Leads queued run.history run.state × (can_transition run.state to ≡ true)
    changed edge =
        Leads-append queued run.history
          (record { from = run.state; to = to; at = now; reason = given_reason reason })

-- Recovery writes every run that it does not leave alone as failed. The history that it writes is
-- legal exactly when it was legal before and the run was not waiting for a human: the table has
-- no transition from `waiting_for_human` to `failed`, and recovery does not consult it.
pub interrupted-IsLegal_iff :
    (now : ℕ) (run : Run)
    → is_left_alone run ≡ false
    → IsLegal (interrupted now run) ↔ IsLegal run × (run.state ≢ waiting_for_human)
unfolding interrupted IsLegal is_left_alone left_alone
interrupted-IsLegal_iff now run h = (
  λ legal. let r = (Leads-append queued run.history change).0 legal in (r.0, not_human r.1),
  λ both. (Leads-append queued run.history change).1 (both.0, edge both.1),
)
  where
    change : RunStateChange
    change = record {
      from = run.state;
      to = failed;
      at = now;
      reason = some "interrupted by restart";
    }

    not_human : can_transition run.state failed ≡ true → run.state ≢ waiting_for_human
    not_human e = (failed_edge run.state h).0 e

    edge : run.state ≢ waiting_for_human → can_transition run.state failed ≡ true
    edge e = (failed_edge run.state h).1 e
