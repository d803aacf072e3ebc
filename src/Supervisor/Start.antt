-- ===== src/Supervisor/Start.antt =====
-- `RunSupervisor.create`, up to the start by the Core and after a failed one.
use z_apply_backend.Base.{
  String, ◌≡◌, refl, ap, ◌∙◌, Bool, true, false, ◌||◌, Option, some, List, [], ◌∷◌, ◌++◌, arith,
  if◌then◌else◌, ◌==◌, find?, any, All-map,
}
use z_apply_backend.Hub.{EventHub, publish}
use z_apply_backend.Hub.Laws.{publish-total}
use z_apply_backend.Json.{Python}
use z_apply_backend.Models.{Uuid, Datetime, RunRow, RunEventRow, Db, CoreRunView}
use z_apply_backend.Repo.{Tx, Result, ok, accepted, session_scope}
use z_apply_backend.Repo.Binds.{bind-ok}
use z_apply_backend.Repo.Events.{has_run}
use z_apply_backend.Repo.Failed.{Failed, mark_run_start_failed-Failed}
use z_apply_backend.Repo.Runs.{get_run, new_run, insert_row, insert_run, mark_run_start_failed}
use z_apply_backend.Repo.Valid.{IsValid, has_run-snoc, UniqueKeys-snoc}
use z_apply_backend.Sql.{Postgres}
use z_apply_backend.Store.{Backend}
use z_apply_backend.Supervisor.{
  StartRunRequest, RunSupervisor, Created, stopping, start_failed, Defaults, queued_view,
  failed_event, announce, report, handle_failure, after_start, after_insert, create,
}

-- The tables with one more run.
abbrev pub with_run : RunRow → Db → Db
with_run row db = record db { runs = db.runs ++ row ∷ [] }

insert_row-ok :
    (row : RunRow) (db : Db)
    → has_run row.id db.runs ≡ false
    → insert_row row db ≡ ok (tt, with_run row db)
unfolding insert_row
insert_row-ok row db free = rw free

pub with_run-IsValid :
    (row : RunRow) (db : Db)
    → has_run row.id db.runs ≡ false
    → IsValid db
    → IsValid (with_run row db)
with_run-IsValid row db free v = record {
  ordered = v.ordered;
  numbered = v.numbered;
  sequences = v.sequences;
  owned =
      All-map _ _ (λ e h. has_run-snoc e.run_id db.runs row ∙ ap (λ k. k || (row.id == e.run_id)) h)
        db.events v.owned;
  keys = UniqueKeys-snoc db.runs row free v.keys;
}

find?-snoc :
    (p : RunRow → Bool) (rows : List RunRow) (row : RunRow)
    → any p rows ≡ false
    → p row ≡ true
    → find? p (rows ++ row ∷ []) ≡ some row
find?-snoc p [] row none_before found = ground arith
find?-snoc p (r ∷ rows) row none_before found = ground (arith, find?-snoc p rows row)

pub get_run-with_run :
    (row : RunRow) (db : Db)
    → has_run row.id db.runs ≡ false
    → get_run (with_run row db) row.id ≡ some row
unfolding get_run has_run
get_run-with_run row db free = find?-snoc (λ r. r.id == row.id) db.runs row free (ground arith)

module _ (pg : Postgres) (py : Python) (core : Defaults) (id : Uuid) (now t : Datetime)
    (request : StartRunRequest) where
  abbrev pub view : CoreRunView
  view = queued_view core request (py.print_uuid id) now

  new_run-id : (new_run id view).id ≡ id
  unfolding new_run
  new_run-id = refl

  queued_view-id : view.run_id ≡ py.print_uuid id
  unfolding queued_view
  queued_view-id = refl

  -- The backend when the Core is asked to start the run.
  abbrev pub inserted : Backend → Backend
  inserted b = record b { db = with_run (new_run id view) b.db }

  pub insert_run-ok :
      (db : Db)
      → has_run id db.runs ≡ false
      → insert_run py view db ≡ ok (tt, with_run (new_run id view) db)
  unfolding insert_run new_run
  insert_run-ok db free =
      bind-ok (accepted (py.parse_uuid view.run_id)) (λ i. insert_row (new_run i view)) db db id
        (parsed (ap py.parse_uuid queued_view-id ∙ py.parse-print id))
      ∙ insert_row-ok (new_run id view) db free
    where
      parsed :
          py.parse_uuid view.run_id ≡ some id
          → accepted (py.parse_uuid view.run_id) db ≡ ok (id, db)
      parsed e = rw e

  pub session_scope-ok :
      {A : Type 0} (m : Tx A) (a : A) (db db' : Db)
      → m db ≡ ok (a, db')
      → session_scope m db ≡ (ok a, db')
  unfolding session_scope
  session_scope-ok m a db db' e = ground arith

  module _ (answer : Option String) (meanwhile : Backend → Backend) (s : RunSupervisor)
      (b : Backend) (accepting : s.accepting ≡ true) (free : has_run id b.db.runs ≡ false) where
    create-direct :
        create pg py core id now t request answer meanwhile s b
        ≡ after_start pg py t id s answer (meanwhile (inserted b))
    unfolding create after_insert
    create-direct =
        ap (λ a. if a then after_insert pg py t id s answer meanwhile b.hub scope else stopped)
          accepting
        ∙ ap (after_insert pg py t id s answer meanwhile b.hub) (
            session_scope-ok (insert_run py view) tt b.db (inserted b).db (insert_run-ok b.db free))
      where
        scope : Result (Unit {0}) × Db
        scope = session_scope (insert_run py view) b.db

        stopped : RunSupervisor × (Created × Backend)
        stopped = (s, (stopping, b))

    -- While the supervisor accepts, a run with a fresh id has its row in valid tables at the moment
    -- when the Core is asked to start it; all that `create` does later is decided by the answer.
    pub create-inserted :
        IsValid b.db
        → (create pg py core id now t request answer meanwhile s b
            ≡ after_start pg py t id s answer (meanwhile (inserted b)))
          × IsValid (inserted b).db
          × (get_run (inserted b).db id ≡ some (new_run id view))
    unfolding new_run
    create-inserted v = (
      create-direct,
      with_run-IsValid (new_run id view) b.db free v,
      get_run-with_run (new_run id view) b.db free,
    )

  report-ok :
      (name : String) (b : Backend) (event : RunEventRow) (db' : Db)
      → (r : Result (Option RunEventRow) × Db) → r ≡ (ok (some event), db')
      → (hub : EventHub) × (report py name b.hub r
          ≡ (start_failed name, record { db = db'; hub = hub }))
        × (publish b.hub (failed_event py event) ≡ some hub)
  unfolding report announce
  report-ok name b event db' r e =
      let total = publish-total b.hub (failed_event py event) in
      (_, ap (report py name b.hub) e ∙ ap (announce name db' b.hub) total, total)

  handle-ok :
      (name : String) (b : Backend) (event : RunEventRow) (db' : Db)
      → mark_run_start_failed pg py t id name b.db ≡ ok (some event, db')
      → (hub : EventHub) × (handle_failure pg py t name b (py.parse_uuid (py.print_uuid id))
          ≡ (start_failed name, record { db = db'; hub = hub }))
        × (publish b.hub (failed_event py event) ≡ some hub)
  unfolding handle_failure
  handle-ok name b event db' marked =
      let (hub, e, sent) =
        report-ok name b event db' _
          (session_scope-ok (mark_run_start_failed pg py t id name) (some event) b.db db' marked) in
      (hub, ap (handle_failure pg py t name b) (py.parse-print id) ∙ e, sent)

  after_start-some :
      (s : RunSupervisor) (name : String) (b : Backend)
      → after_start pg py t id s (some name) b
        ≡ (s, handle_failure pg py t name b (py.parse_uuid (py.print_uuid id)))
  unfolding after_start
  after_start-some s name b = refl

  -- If the Core then raises, and the tables are still valid with the run in them, `create` raises
  -- the same exception. Before that it has closed the run as failed, with one event for it, and has
  -- published that event, with its key, to every subscriber.
  pub create-refused :
      (name : String) (meanwhile : Backend → Backend) (s : RunSupervisor) (b : Backend)
      (row : RunRow)
      → s.accepting ≡ true
      → has_run id b.db.runs ≡ false
      → IsValid (meanwhile (inserted b)).db
      → get_run (meanwhile (inserted b)).db id ≡ some row
      → (event : RunEventRow) × (db' : Db) × (hub : EventHub) × (create pg py core id now t request
            (some name)
            meanwhile
            s
            b
          ≡ (s, (start_failed name, record { db = db'; hub = hub })))
        × Failed pg py t name id (meanwhile (inserted b)).db row event db'
        × (publish (meanwhile (inserted b)).hub (failed_event py event) ≡ some hub)
  create-refused name meanwhile s b row accepting free v found =
      let reached : Backend = meanwhile (inserted b) in
      let (event, db', marked, told) =
        mark_run_start_failed-Failed pg py t name id reached.db row v found in
      let (hub, e, sent) = handle-ok name reached event db' marked in
      (
        event,
        db',
        hub,
        create-direct (some name) meanwhile s b accepting free
            ∙ after_start-some s name reached
            ∙ ap (λ r. (s, r)) e,
        told,
        sent,
      )
