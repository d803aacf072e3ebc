-- ===== src/Repo/Failed.antt =====
-- What `mark_run_start_failed` does to the tables.
use z_apply_backend.Base.{
  ℕ, String, ◌≡◌, refl, ap, ◌∙◌, Bool, true, Option, none, some, List, [], ◌∷◌, ◌++◌, arith, ◌==◌,
  any, find?, update_where,
}
use z_apply_backend.Json.{Python, str, obj, end, field}
use z_apply_backend.Models.{Uuid, Datetime, RunRow, RunEventRow, Db}
use z_apply_backend.Repo.{ok, pure}
use z_apply_backend.Repo.Binds.{bind-ok}
use z_apply_backend.Repo.Events.{has_run, next_run_sequence, insert_event, update_run}
use z_apply_backend.Repo.Runs.{
  get_run, start_failed, fail_run, mark_run_start_failed, row_view_snapshot,
}
use z_apply_backend.Repo.Valid.{
  IsValid, made, with_event, insert_event-ok, with_event-IsValid, update_run-IsValid,
  has_run-update, next_run_sequence-fresh,
}
use z_apply_backend.Sql.{Postgres}

abbrev map_run : (RunRow → RunRow) → Option RunRow → Option RunRow
map_run f none = none
map_run f (some r) = some (f r)

find?-update :
    (p : RunRow → Bool) (f : RunRow → RunRow) (rows : List RunRow)
    → ((r : RunRow) → p (f r) ≡ p r)
    → find? p (update_where p f rows) ≡ map_run f (find? p rows)
find?-update p f [] same = refl
find?-update p f (r ∷ rows) same = ground (arith, same r, find?-update p f rows same)

find?-any :
    (p : RunRow → Bool) (rows : List RunRow) (r : RunRow)
    → find? p rows ≡ some r
    → any p rows ≡ true
find?-any p [] r e = cc
find?-any p (x ∷ rows) r e = ground (arith, find?-any p rows r)

pub get_run-known :
    (db : Db) (run_id : Uuid) (row : RunRow)
    → get_run db run_id ≡ some row
    → has_run run_id db.runs ≡ true
unfolding get_run has_run
get_run-known db run_id row e = find?-any (λ r. r.id == run_id) db.runs row e

module _ (pg : Postgres) (py : Python) (t : Datetime) (code : String) (run_id : Uuid) where
  abbrev sequence_of : Db → RunRow → ℕ
  sequence_of db row = next_run_sequence db run_id row.latest_run_sequence

  -- The row, as it stands after the mutation and after the flush.
  abbrev failed : ℕ → RunRow → RunRow
  failed sequence row = record (start_failed t sequence row) { updated_at = t }

  abbrev updated : Db → RunRow → Db
  updated db row = record db {
    runs = update_where (λ r. r.id == run_id) (failed (sequence_of db row)) db.runs;
  }

  abbrev event_for : ℕ → RunRow → ℕ → RunEventRow
  event_for sequence row id = record {
    id = id;
    run_id = run_id;
    run_sequence = sequence;
    occurred_at = t;
    kind = "run.start_failed";
    source = field "component" (str "backend") end;
    level = "error";
    payload =
        field "error_code" (str code)
          (field "view" (obj (row_view_snapshot py (start_failed t sequence row) sequence)) end);
  }

  start_failed-id : (sequence : ℕ) (r : RunRow) → (start_failed t sequence r).id ≡ r.id
  unfolding start_failed
  start_failed-id sequence r = refl

  known :
      (db : Db) (row : RunRow)
      → has_run run_id db.runs ≡ true
      → has_run run_id (updated db row).runs ≡ true
  known db row h =
      has_run-update run_id (λ r. r.id == run_id) _ db.runs (start_failed-id (sequence_of db row))
      ∙ h

  fail_run-ok :
      (db : Db) (row : RunRow)
      → has_run run_id db.runs ≡ true
      → fail_run pg py t code run_id row db
        ≡ ok (
          some (made pg (event_for (sequence_of db row) row) (updated db row)),
          with_event pg (event_for (sequence_of db row) row) (updated db row),
        )
  unfolding fail_run update_run
  fail_run-ok db row h =
      bind-ok (insert_event pg (event_for (sequence_of db row) row)) (λ event. pure (some event))
        (updated db row) (with_event pg (event_for (sequence_of db row) row) (updated db row))
        (made pg (event_for (sequence_of db row) row) (updated db row))
        (insert_event-ok pg (event_for (sequence_of db row) row) (updated db row) (known db row h)
          (next_run_sequence-fresh db run_id row.latest_run_sequence))

  mark-direct :
      (db : Db) (row : RunRow)
      → get_run db run_id ≡ some row
      → mark_run_start_failed pg py t run_id code db ≡ fail_run pg py t code run_id row db
  unfolding mark_run_start_failed
  mark-direct db row e = ground arith

  get_run-updated :
      (db : Db) (row : RunRow) (events : List RunEventRow) (last : ℕ)
      → get_run db run_id ≡ some row
      → get_run (record (updated db row) { events = events; last_event_id = last }) run_id
        ≡ some (failed (sequence_of db row) row)
  unfolding get_run
  get_run-updated db row events last e =
      find?-update (λ r. r.id == run_id) (failed (sequence_of db row)) db.runs
        (λ r. ap (λ i. i == run_id) (start_failed-id (sequence_of db row) r))
      ∙ ap (map_run (failed (sequence_of db row))) e

  -- What is told of a run whose start failed: its row is closed as failed, and one event says so.
  pub record Failed (db : Db) (row : RunRow) (event : RunEventRow) (db' : Db) : Type 0 where
    pub valid : IsValid db'
    pub appended : db'.events ≡ db.events ++ event ∷ []
    pub owner : event.run_id ≡ run_id
    pub kind : event.kind ≡ "run.start_failed"
    pub closed :
        get_run db' run_id
        ≡ some (record row {
          status = "terminal";
          phase = "terminal";
          outcome = some "failed";
          summary = some "Core rejected or failed to start this run.";
          latest_run_sequence = event.run_sequence;
          finished_at = some t;
          updated_at = t;
        })

  -- The event that is told stands behind those of any tables that have the run.
  pub mark_run_start_failed-appends :
      (db : Db) (row : RunRow)
      → get_run db run_id ≡ some row
      → (event : RunEventRow) × (db' : Db) × (mark_run_start_failed pg py t run_id code db
          ≡ ok (some event, db'))
        × (db'.events ≡ db.events ++ event ∷ [])
  mark_run_start_failed-appends db row e =
      let make : ℕ → RunEventRow = event_for (sequence_of db row) row in
      (
        made pg make (updated db row),
        with_event pg make (updated db row),
        mark-direct db row e ∙ fail_run-ok db row (get_run-known db run_id row e),
        refl,
      )

  -- On valid tables with the run, `mark_run_start_failed` succeeds: it closes the run as failed,
  -- with the sequence number of the one event that it adds, and leaves valid tables.
  pub mark_run_start_failed-Failed :
      (db : Db) (row : RunRow)
      → IsValid db
      → get_run db run_id ≡ some row
      → (event : RunEventRow) × (db' : Db) × (mark_run_start_failed pg py t run_id code db
          ≡ ok (some event, db'))
        × Failed db row event db'
  unfolding start_failed
  mark_run_start_failed-Failed db row v e =
      let h = get_run-known db run_id row e in
      let make : ℕ → RunEventRow = event_for (sequence_of db row) row in
      (
        made pg make (updated db row),
        with_event pg make (updated db row),
        mark-direct db row e ∙ fail_run-ok db row h,
        record {
          valid =
              with_event-IsValid pg make (updated db row) (λ n. refl) (known db row h)
                (next_run_sequence-fresh db run_id row.latest_run_sequence)
                (update_run-IsValid run_id t (start_failed t (sequence_of db row)) db
                  (start_failed-id (sequence_of db row)) v);
          appended = refl;
          owner = refl;
          kind = refl;
          closed = get_run-updated db row _ _ e;
        },
      )
