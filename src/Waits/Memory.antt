-- ===== src/Waits/Memory.antt =====
-- packages/persistence/src/in-memory-persistence-provider.ts: `InMemoryWaitRepository`. A clone of a
-- condition is the condition; that `structuredClone` throws at a function is left out.
use ai_orchestration.Prelude.{
  String, ◌≡◌, refl, Bool, true, false, not, ◌&&◌, Option, none, some, List, [], ◌∷◌, ◌++◌, filter,
  str_eq, str_eq_iff, if◌then◌else◌, Option-cases, inl, inr, arith,
}
use ai_orchestration.Prelude.{ℕ}
use ai_orchestration.Prelude.Dict.{Dict, lookup, insert, lookup-insert, lookup_of_eq}
use ai_orchestration.Waits.{
  WaitCondition, satisfied, cancelled, WaitSatisfaction, SupplementalInput,
}
use ai_orchestration.Waits.Contract.{
  WaitRepository, status_is_open, satisfy, cancel, on_some, found_open,
}

pub record Waits : Type 0 where
  pub conditions : Dict WaitCondition
  pub supplementals : List SupplementalInput

unfoldable pub save : WaitCondition → Waits → Waits
unfolding insert
save c m = record m { conditions = insert c.id c m.conditions }

unfoldable pub get : String → Waits → Option WaitCondition
unfolding lookup
get id m = lookup id m.conditions

-- The body of `trySatisfy`, given `condition`.
satisfy_found : String → WaitSatisfaction → Option WaitCondition → Waits → Waits × Bool
unfolding insert
satisfy_found id w none m = (m, false)
satisfy_found id w (some c) m = if not (status_is_open c.status) then (m, false) else (
  record m {
    conditions =
        insert id (record c { status = satisfied; satisfied_at = some w.at; satisfaction = some w })
          m.conditions;
  },
  true,
)

unfoldable pub try_satisfy : String → WaitSatisfaction → Waits → Waits × Bool
unfolding lookup satisfy_found
try_satisfy id w m = satisfy_found id w (lookup id m.conditions) m

-- The loop sets every entry in place.
cancel_entries : String → Dict WaitCondition → Dict WaitCondition
cancel_entries run [] = []
cancel_entries run ((id, c) ∷ rest) =
    let done = cancel_entries run rest in
    if str_eq c.run_id run && status_is_open c.status
    then (id, record c { status = cancelled }) ∷ done
    else (id, c) ∷ done

unfoldable pub cancel_for_run : String → Waits → Waits
unfolding cancel_entries
cancel_for_run run m = record m { conditions = cancel_entries run m.conditions }

unfoldable pub add_supplemental : SupplementalInput → Waits → Waits
add_supplemental entry m = record m { supplementals = m.supplementals ++ entry ∷ [] }

unfoldable pub list_supplemental : String → Waits → List SupplementalInput
list_supplemental run m = filter (λ entry. str_eq entry.run_id run) m.supplementals

promote : String → ℕ → List SupplementalInput → List SupplementalInput
promote wait at [] = []
promote wait at (entry ∷ rest) =
    let done = promote wait at rest in
    if str_eq entry.wait_id wait
    then record entry { promoted_at = some at } ∷ done
    else entry ∷ done

unfoldable pub mark_supplemental_promoted : String → ℕ → Waits → Waits
unfolding promote
mark_supplemental_promoted wait at m = record m { supplementals = promote wait at m.supplementals }

pub get-save :
    (c : WaitCondition) (m : Waits) (j : String)
    → get j (save c m) ≡ (if str_eq c.id j then some c else get j m)
unfolding get save
get-save c m j = lookup-insert c.id j c m.conditions

pub try_satisfy-result :
    (id : String) (w : WaitSatisfaction) (m : Waits)
    → (try_satisfy id w m).1 ≡ found_open (get id m)
unfolding try_satisfy get
try_satisfy-result id w m = ground arith

pub get-try_satisfy :
    (id : String) (w : WaitSatisfaction) (m : Waits) (j : String)
    → get j (try_satisfy id w m).0
      ≡ (if str_eq id j then on_some (satisfy (w.at, w)) (get j m) else get j m)
unfolding try_satisfy get
get-try_satisfy id w m j = elim (Option-cases (lookup id m.conditions)) [
  | inl absent ↦ rw absent (ground (arith, absent, str_eq_iff id j, lookup_of_eq id j m.conditions))
  | inr (c, there) ↦ rw there (
      ground (
        arith,
        there,
        lookup-insert id j
            (record c { status = satisfied; satisfied_at = some w.at; satisfaction = some w })
            m.conditions,
        str_eq_iff id j,
        lookup_of_eq id j m.conditions,
      ))
]

lookup-cancel_entries :
    (run j : String) (m : Dict WaitCondition)
    → lookup j (cancel_entries run m) ≡ on_some (cancel run) (lookup j m)
unfolding lookup cancel_entries
lookup-cancel_entries run j [] = refl
lookup-cancel_entries run j ((id, c) ∷ m) = ground (arith, lookup-cancel_entries run j m)

pub get-cancel_for_run :
    (run : String) (m : Waits) (j : String)
    → get j (cancel_for_run run m) ≡ on_some (cancel run) (get j m)
unfolding get cancel_for_run
get-cancel_for_run run m j = lookup-cancel_entries run j m.conditions

-- The in-memory adapter meets the contract of the port.
instance abbrev pub memory_waits : WaitRepository Waits
memory_waits = record {
  save = save;
  get = get;
  try_satisfy = try_satisfy;
  cancel_for_run = cancel_for_run;
  kept = λ c. c;
  kept_response = λ w. (w.at, w);
  kept-same = λ c. (refl, refl, refl);
  get-save = get-save;
  try_satisfy-result = try_satisfy-result;
  get-try_satisfy = get-try_satisfy;
  get-cancel_for_run = get-cancel_for_run;
}
