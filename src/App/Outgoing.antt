-- ===== src/App/Outgoing.antt =====
-- What an event of the Core and a request for a new run publish.
use z_apply_backend.App.Announced.{Publishes, nothing, unchanged, one, Publishes-trans}
use z_apply_backend.App.Silent.{session_scope-events, insert_run-events}
use z_apply_backend.Base.{
  ℕ, String, ◌≡◌, refl, sym, ap, subst, inl, inr, Bool, true, false, Option, none, some, [], ◌∷◌,
  ◌++◌, arith, if◌then◌else◌, Option-cases,
}
use z_apply_backend.Hub.{StoredEvent, publish}
use z_apply_backend.Hub.Laws.{offered_each, publish-total}
use z_apply_backend.Json.{Python}
use z_apply_backend.Models.{Uuid, Datetime, RunEventRow, Db, CoreEvent}
use z_apply_backend.Repo.{Result, ok, err, Tx, session_scope}
use z_apply_backend.Repo.Failed.{mark_run_start_failed-appends}
use z_apply_backend.Repo.Runs.{get_run, insert_run, mark_run_start_failed}
use z_apply_backend.Sql.{Postgres}
use z_apply_backend.Store.{Core, Backend, Outcome}
use z_apply_backend.Store.Atomic.{Accepts}
use z_apply_backend.Supervisor.{
  StartRunRequest, RunSupervisor, Created, Defaults, stopping, start_failed, failed_event,
  queued_view, announce, report, handle_failure, after_start, after_insert, create,
}

module _ (P : ℕ → Type 0) (pg : Postgres) (py : Python) where
  pub Accepts-Publishes :
      (core : Core) (now : Datetime) (event : CoreEvent) (b : Backend) (o : Outcome) (b' : Backend)
      → Accepts pg py core now event b o b'
      → Publishes P b b'
  Accepts-Publishes core now event b (Outcome.stored row) b' (w, (sent, id, kind, body, out)) =
      one b b' row sent w.appended out id kind
  Accepts-Publishes core now event b Outcome.publish_failed b' h = absurd h
  Accepts-Publishes core now event b Outcome.ignored b' h = unchanged b b' h
  Accepts-Publishes core now event b Outcome.core_failed b' h = unchanged b b' h
  Accepts-Publishes core now event b (Outcome.tx_failed e) b' h = unchanged b b' h

  announce-Publishes :
      (name : String) (b : Backend) (db : Db) (row : RunEventRow)
      → db.events ≡ b.db.events ++ row ∷ []
      → Publishes P b (announce name db b.hub (publish b.hub (failed_event py row))).1
  unfolding announce failed_event
  announce-Publishes name b db row appended =
      let event : StoredEvent = failed_event py row in
      let total = publish-total b.hub event in
      subst (λ o. Publishes P b (announce name db b.hub o).1) (sym total)
        (one b (record { db = db; hub = record b.hub { queues = offered_each event b.hub.queues } })
          row event appended total refl refl)

  report-absent :
      (t : Datetime) (name : String) (b : Backend) (id : Uuid)
      → get_run b.db id ≡ none
      → report py name b.hub (session_scope (mark_run_start_failed pg py t id name) b.db)
        ≡ (start_failed name, b)
  unfolding report session_scope mark_run_start_failed
  report-absent t name b id absent = ground arith

  report-found :
      (t : Datetime) (name : String) (b : Backend) (id : Uuid) (row : RunEventRow) (db : Db)
      → mark_run_start_failed pg py t id name b.db ≡ ok (some row, db)
      → report py name b.hub (session_scope (mark_run_start_failed pg py t id name) b.db)
        ≡ announce name db b.hub (publish b.hub (failed_event py row))
  unfolding report session_scope
  report-found t name b id row db marked = ground arith

  handle_failure-Publishes :
      (t : Datetime) (name : String) (b : Backend) (id : Option Uuid)
      → Publishes P b (handle_failure pg py t name b id).1
  unfolding handle_failure
  handle_failure-Publishes t name b none = nothing b b refl refl
  handle_failure-Publishes t name b (some id) = elim (Option-cases (get_run b.db id)) [
    | inl absent ↦ unchanged b _ (ap (λ r. r.1) (report-absent t name b id absent))
    | inr (row, found) ↦
        let (event, db, marked, appended) =
          mark_run_start_failed-appends pg py t name id b.db row found in
        subst (λ r. Publishes P b r.1) (sym (report-found t name b id event db marked))
          (announce-Publishes name b db event appended)
  ]

  after_start-Publishes :
      (t : Datetime) (id : Uuid) (s : RunSupervisor) (answer : Option String) (b : Backend)
      → Publishes P b (after_start pg py t id s answer b).1.1
  unfolding after_start
  after_start-Publishes t id s none b = nothing b b refl refl
  after_start-Publishes t id s (some name) b =
      handle_failure-Publishes t name b (py.parse_uuid (py.print_uuid id))

  module _ (defaults : Defaults) (id : Uuid) (now t : Datetime) (request : StartRunRequest)
      (answer : Option String) (meanwhile : Backend → Backend)
      (sends : (b : Backend) → Publishes P b (meanwhile b)) (s : RunSupervisor) where
    after_insert-Publishes :
        (b : Backend) (r : Result (Unit {0}) × Db)
        → r.1.events ≡ b.db.events
        → Publishes P b (after_insert pg py t id s answer meanwhile b.hub r).1.1
    unfolding after_insert
    after_insert-Publishes b (err e, db) same = nothing b _ same refl
    after_insert-Publishes b (ok finished', db) same =
        let mid : Backend = record { db = db; hub = b.hub } in
        Publishes-trans b mid (after_start pg py t id s answer (meanwhile mid)).1.1
          (nothing b mid same refl)
          (Publishes-trans mid (meanwhile mid) (after_start pg py t id s answer (meanwhile mid)).1.1
            (sends mid) (after_start-Publishes t id s answer (meanwhile mid)))

    pub create-Publishes :
        (b : Backend)
        → Publishes P b (create pg py defaults id now t request answer meanwhile s b).1.1
    unfolding create
    create-Publishes b = settle s.accepting
      where
        insert : Tx (Unit {0})
        insert = insert_run py (queued_view defaults request (py.print_uuid id) now)

        stopped : RunSupervisor × (Created × Backend)
        stopped = (s, (stopping, b))

        settle :
            (a : Bool)
            → Publishes P b
                (if a
                  then after_insert pg py t id s answer meanwhile b.hub (session_scope insert b.db)
                  else stopped).1.1
        settle true =
            after_insert-Publishes b (session_scope insert b.db)
              (session_scope-events insert b.db (λ u db' e. insert_run-events py _ b.db db' e))
        settle false = nothing b b refl refl
