-- ===== src/Waits/Table.antt =====
-- packages/persistence/src/wait-repository.ts: the statements of `SqliteWaitRepository` on the
-- tables `wait_conditions` and `supplemental_inputs`.
use ai_orchestration.Prelude.{
  ℕ, String, ◌≡◌, refl, ap, ◌∙◌, sym, subst, Bool, true, false, ◌&&◌, Option, none, some, List, [],
  ◌∷◌, ◌++◌, filter, map, str_eq, str_eq_iff, if◌then◌else◌, Option-cases, Bool-cases, inl, inr,
}
use ai_orchestration.Prelude.Dict.{Dict, lookup, insert, lookup-insert, lookup_of_eq}
use ai_orchestration.Waits.{
  WaitCondition, satisfied, cancelled, WaitSatisfaction, SupplementalInput,
}
use ai_orchestration.Waits.Contract.{
  WaitRepository, Kept, status_is_open, satisfy, cancel, on_some, found_open, satisfy-closed,
}
use ai_orchestration.Waits.Json.{Codec, on}
use ai_orchestration.Waits.Sqlite.{
  WaitConditionRow, SupplementalRow, condition_to_row, row_to_condition, to_stored_satisfaction,
  to_stored_input, from_stored_input, kept_satisfaction,
}

pub record Tables (Iso Json : Type 0) : Type 0 where
  pub conditions : Dict (WaitConditionRow Iso Json)
  pub supplementals : List (SupplementalRow Iso Json)

module _ {Iso Json : Type 0} (codec : Codec Iso Json) where
  abbrev Row : Type 0
  Row = WaitConditionRow Iso Json

  -- `INSERT … ON CONFLICT(id) DO UPDATE SET` every column
  unfoldable pub save : WaitCondition → Tables Iso Json → Tables Iso Json
  unfolding insert condition_to_row
  save c t = record t { conditions = insert c.id (condition_to_row codec c) t.conditions }

  unfoldable pub get : String → Tables Iso Json → Option WaitCondition
  unfolding lookup row_to_condition
  get id t = on (row_to_condition codec id) (lookup id t.conditions)

  -- `UPDATE … SET status = 'satisfied', … WHERE id = ? AND status = 'open'`: the row that the
  -- statement changes, given the row with the id.
  satisfy_row : WaitSatisfaction → Option Row → Option Row
  unfolding to_stored_satisfaction
  satisfy_row w none = none
  satisfy_row w (some row) =
      if status_is_open row.status
      then some (record row {
        status = satisfied;
        satisfied_at = some (codec.iso w.at);
        satisfaction = some (codec.satisfaction_json (to_stored_satisfaction codec w));
      })
      else none

  -- The table behind the statement, and whether it changed a row.
  write : String → Option Row → Tables Iso Json → Tables Iso Json × Bool
  unfolding insert
  write id none t = (t, false)
  write id (some row) t = (record t { conditions = insert id row t.conditions }, true)

  unfoldable pub try_satisfy : String → WaitSatisfaction → Tables Iso Json → Tables Iso Json × Bool
  unfolding lookup satisfy_row write
  try_satisfy id w t = write id (satisfy_row w (lookup id t.conditions)) t

  -- `UPDATE … SET status = 'cancelled' WHERE run_id = ? AND status = 'open'`
  cancel_rows : String → Dict Row → Dict Row
  cancel_rows run [] = []
  cancel_rows run ((id, row) ∷ rest) =
      let done = cancel_rows run rest in
      if str_eq row.run_id run && status_is_open row.status
      then (id, record row { status = cancelled }) ∷ done
      else (id, row) ∷ done

  unfoldable pub cancel_for_run : String → Tables Iso Json → Tables Iso Json
  unfolding cancel_rows
  cancel_for_run run t = record t { conditions = cancel_rows run t.conditions }

  unfoldable pub add_supplemental : SupplementalInput → Tables Iso Json → Tables Iso Json
  unfolding to_stored_input
  add_supplemental entry t = record t {
    supplementals =
        t.supplementals
        ++ record {
          wait_id = entry.wait_id;
          run_id = entry.run_id;
          input = codec.input_json (to_stored_input codec entry.input);
          promoted_at = on codec.iso entry.promoted_at;
        }
          ∷ [];
  }

  -- `SELECT … WHERE run_id = ? ORDER BY seq`, and the entries of the rows.
  unfoldable pub list_supplemental : String → Tables Iso Json → List SupplementalInput
  unfolding from_stored_input
  list_supplemental run t =
      map
        (λ (row : SupplementalRow Iso Json). record {
          wait_id = row.wait_id;
          run_id = row.run_id;
          input = from_stored_input codec (codec.json_input row.input);
          promoted_at = on codec.date row.promoted_at;
        })
        (filter (λ (row : SupplementalRow Iso Json). str_eq row.run_id run) t.supplementals)

  promote : String → ℕ → List (SupplementalRow Iso Json) → List (SupplementalRow Iso Json)
  promote wait at [] = []
  promote wait at (row ∷ rest) =
      let done = promote wait at rest in
      if str_eq row.wait_id wait
      then record row { promoted_at = some (codec.iso at) } ∷ done
      else row ∷ done

  unfoldable pub mark_supplemental_promoted : String → ℕ → Tables Iso Json → Tables Iso Json
  unfolding promote
  mark_supplemental_promoted wait at t = record t {
    supplementals = promote wait at t.supplementals;
  }

  pub try_satisfy-result :
      (id : String) (w : WaitSatisfaction) (t : Tables Iso Json)
      → (try_satisfy id w t).1 ≡ found_open (get id t)
  unfolding try_satisfy get
  try_satisfy-result id w t = elim (Option-cases (lookup id t.conditions)) [
    | inl e ↦ rw (e, try_satisfy, get) refl
    | inr (row, e) ↦ elim (Bool-cases (status_is_open row.status)) [
      | inl o ↦ rw (e, o, try_satisfy, get) refl
      | inr o ↦ rw (e, o, try_satisfy, get) refl
    ]
  ]

  -- What `get` gives of a condition that was saved, and of a response that satisfied it.
  abbrev pub kept : WaitCondition → WaitCondition
  kept c = row_to_condition codec c.id (condition_to_row codec c)

  abbrev pub kept_response : WaitSatisfaction → Kept
  kept_response w = (codec.date (codec.iso w.at), kept_satisfaction codec w)

  pub kept-same :
      (c : WaitCondition)
      → ((kept c).id ≡ c.id) × ((kept c).run_id ≡ c.run_id) × ((kept c).status ≡ c.status)
  unfolding row_to_condition condition_to_row
  kept-same c = (refl, refl, refl)

  pub get-save :
      (c : WaitCondition) (t : Tables Iso Json) (j : String)
      → get j (save c t) ≡ (if str_eq c.id j then some (kept c) else get j t)
  unfolding get save
  get-save c t j = elim (Bool-cases (str_eq c.id j)) [
    | inl e ↦
        rw (lookup-insert c.id j (condition_to_row codec c) t.conditions, e)
          (ap (λ i. some (row_to_condition codec i (condition_to_row codec c)))
            (sym ((str_eq_iff c.id j).0 e)))
    | inr e ↦ rw (lookup-insert c.id j (condition_to_row codec c) t.conditions, e) refl
  ]

  -- A row that the statement changes is read as the satisfied condition.
  satisfied_row :
      (id : String) (w : WaitSatisfaction) (row : Row)
      → row_to_condition codec id (record row {
        status = satisfied;
        satisfied_at = some (codec.iso w.at);
        satisfaction = some (codec.satisfaction_json (to_stored_satisfaction codec w));
      })
        ≡ record (row_to_condition codec id row) {
          status = satisfied;
          satisfied_at = some (kept_response w).0;
          satisfaction = some (kept_response w).1;
        }
  unfolding row_to_condition kept_satisfaction
  satisfied_row id w row = refl

  lookup-cancel_rows :
      (run j : String) (m : Dict Row)
      → on (row_to_condition codec j) (lookup j (cancel_rows run m))
        ≡ on_some (cancel run) (on (row_to_condition codec j) (lookup j m))
  unfolding lookup cancel_rows row_to_condition
  lookup-cancel_rows run j [] = refl
  lookup-cancel_rows run j ((id, row) ∷ m) =
      elim (Bool-cases (str_eq row.run_id run && status_is_open row.status)) [
        | inl e ↦ elim (Bool-cases (str_eq id j)) [
          | inl s ↦ rw (e, s, e) refl
          | inr s ↦ rw (e, s) (lookup-cancel_rows run j m)
        ]
        | inr e ↦ elim (Bool-cases (str_eq id j)) [
          | inl s ↦ rw (e, s, e) refl
          | inr s ↦ rw (e, s) (lookup-cancel_rows run j m)
        ]
      ]

  pub get-cancel_for_run :
      (run : String) (t : Tables Iso Json) (j : String)
      → get j (cancel_for_run run t) ≡ on_some (cancel run) (get j t)
  unfolding get cancel_for_run
  get-cancel_for_run run t j = lookup-cancel_rows run j t.conditions

  -- The row that `trySatisfy` writes, read under any id.
  get-write :
      (id : String) (w : WaitSatisfaction) (t : Tables Iso Json) (j : String) (row : Row)
      → lookup id t.conditions ≡ some row
      → status_is_open row.status ≡ true
      → get j (try_satisfy id w t).0
        ≡ (if str_eq id j then on_some (satisfy (kept_response w)) (get j t) else get j t)
  unfolding get try_satisfy
  get-write id w t j row there live = elim (Bool-cases (str_eq id j)) [
    | inl e ↦
        let at_j : lookup j t.conditions ≡ some row =
          sym (lookup_of_eq id j t.conditions ((str_eq_iff id j).0 e)) ∙ there in
        rw (there, live, try_satisfy, lookup-insert id j _ t.conditions, e, at_j, get)
          (ap some (satisfied_row j w row) ∙ still_open j row live)
    | inr e ↦ rw (there, live, try_satisfy, lookup-insert id j _ t.conditions, e) refl
  ]
    where
      still_open :
          (j : String) (row : Row)
          → status_is_open row.status ≡ true
          → some (record (row_to_condition codec j row) {
            status = satisfied;
            satisfied_at = some (kept_response w).0;
            satisfaction = some (kept_response w).1;
          })
            ≡ some (satisfy (kept_response w) (row_to_condition codec j row))
      still_open j row live = rw (live, row_to_condition) refl

  get-unwritten :
      (id : String) (w : WaitSatisfaction) (t : Tables Iso Json) (j : String)
      → (try_satisfy id w t).0 ≡ t
      → found_open (get id t) ≡ false
      → get j (try_satisfy id w t).0
        ≡ (if str_eq id j then on_some (satisfy (kept_response w)) (get j t) else get j t)
  get-unwritten id w t j same closed = rw same (elim (Bool-cases (str_eq id j)) [
    | inl e ↦ rw e (
        sym (
          satisfy-closed (kept_response w) (get j t)
            (subst (λ i. found_open (get i t) ≡ false) ((str_eq_iff id j).0 e) closed)))
    | inr e ↦ rw e refl
  ])

  pub get-try_satisfy :
      (id : String) (w : WaitSatisfaction) (t : Tables Iso Json) (j : String)
      → get j (try_satisfy id w t).0
        ≡ (if str_eq id j then on_some (satisfy (kept_response w)) (get j t) else get j t)
  unfolding try_satisfy get row_to_condition
  get-try_satisfy id w t j = elim (Option-cases (lookup id t.conditions)) [
    | inl e ↦ get-unwritten id w t j (untouched e) (closed e)
    | inr (row, e) ↦ elim (Bool-cases (status_is_open row.status)) [
      | inl live ↦ get-write id w t j row e live
      | inr dead ↦ get-unwritten id w t j (untouched_row row e dead) (closed_row row e dead)
    ]
  ]
    where
      untouched : lookup id t.conditions ≡ none → (try_satisfy id w t).0 ≡ t
      untouched e = rw (e, try_satisfy) refl

      closed : lookup id t.conditions ≡ none → found_open (get id t) ≡ false
      closed e = rw (e, get) refl

      untouched_row :
          (row : Row)
          → lookup id t.conditions ≡ some row
          → status_is_open row.status ≡ false
          → (try_satisfy id w t).0 ≡ t
      untouched_row row e d = rw (e, d, try_satisfy) refl

      closed_row :
          (row : Row)
          → lookup id t.conditions ≡ some row
          → status_is_open row.status ≡ false
          → found_open (get id t) ≡ false
      closed_row row e d = rw (e, get) d

  -- The SQLite adapter meets the contract of the port.
  abbrev pub sqlite_waits : WaitRepository (Tables Iso Json)
  sqlite_waits = record {
    save = save;
    get = get;
    try_satisfy = try_satisfy;
    cancel_for_run = cancel_for_run;
    kept = kept;
    kept_response = kept_response;
    kept-same = kept-same;
    get-save = get-save;
    try_satisfy-result = try_satisfy-result;
    get-try_satisfy = get-try_satisfy;
    get-cancel_for_run = get-cancel_for_run;
  }
