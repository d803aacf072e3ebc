-- ===== src/App/Kept.antt =====
-- What the operations that write to the tables keep: their validity, and the events in them.
use z_apply_backend.Base.{
  String, ◌≡◌, refl, sym, ap, ◌∙◌, subst, inl, inr, Bool, true, false, Option, none, some, List, [],
  ◌∷◌, ◌++◌, arith, append_nil, append_assoc, if◌then◌else◌, Option-cases,
}
use z_apply_backend.Human.{Reply, Response, refused, core_failed, tx_failed, answered}
use z_apply_backend.Human.Answers.{Answers}
use z_apply_backend.Human.Listing.{Listing}
use z_apply_backend.Human.Lists.{Lists}
use z_apply_backend.Hub.{EventHub, publish}
use z_apply_backend.Json.{Python}
use z_apply_backend.Models.{
  Uuid, Datetime, RunRow, RunEventRow, Db, CoreEvent, CoreRunView, CoreHumanRequest,
}
use z_apply_backend.Repo.{integrity_error, Result, ok, err, Tx, accepted, session_scope}
use z_apply_backend.Repo.Events.{has_run}
use z_apply_backend.Repo.Failed.{mark_run_start_failed-Failed}
use z_apply_backend.Repo.Quiet.{SameRuns, SameRuns-IsValid, upsert_human_request-Quiet, >>=-eq-ok}
use z_apply_backend.Repo.Runs.{get_run, new_run, insert_row, insert_run, mark_run_start_failed}
use z_apply_backend.Repo.Valid.{IsValid}
use z_apply_backend.Sql.{Postgres}
use z_apply_backend.Store.{Core, Backend, Outcome}
use z_apply_backend.Store.Atomic.{Accepts}
use z_apply_backend.Supervisor.{
  StartRunRequest, RunSupervisor, Created, Defaults, stopping, failed_event, queued_view, announce,
  report, handle_failure, after_start, after_insert, create,
}
use z_apply_backend.Supervisor.Start.{with_run, with_run-IsValid}

-- Valid tables stay valid, and events are only added behind those that there are.
abbrev pub Keeps : Db → Db → Type 0
Keeps db db' =
    IsValid db → IsValid db' × ((rest : List RunEventRow) × (db'.events ≡ db.events ++ rest))

pub Keeps-same : (db db' : Db) → db' ≡ db → Keeps db db'
Keeps-same db db' e v =
    (subst IsValid (sym e) v, ([], ap (λ d. d.events) e ∙ sym (append_nil db.events)))

pub Keeps-trans : (a b c : Db) → Keeps a b → Keeps b c → Keeps a c
Keeps-trans a b c first second v =
    let (u, (more, e)) = first v in
    let (w, (rest, f)) = second u in
    (w, (more ++ rest, f ∙ ap (λ l. l ++ rest) e ∙ append_assoc a.events more rest))

SameRuns-Keeps : (db db' : Db) → SameRuns db db' → Keeps db db'
SameRuns-Keeps db db' s v = (SameRuns-IsValid db db' s v, ([], s.1 ∙ sym (append_nil db.events)))

-- A transaction keeps what its body keeps when it succeeds.
session_scope-Keeps :
    {A : Type 0} (m : Tx A) (db : Db)
    → ((a : A) (db' : Db) → m db ≡ ok (a, db') → Keeps db db')
    → Keeps db (session_scope m db).1
unfolding session_scope
session_scope-Keeps {A} m db keep = settle (m db) refl
  where
    settle : (r : Result (A × Db)) → m db ≡ r → Keeps db (session_scope (λ _. r) db).1
    settle (err e) failed = Keeps-same db db refl
    settle (ok (a, db')) good = keep a db' good

module _ (pg : Postgres) (py : Python) (core : Core) where
  pub Accepts-Keeps :
      (now : Datetime) (event : CoreEvent) (b : Backend) (o : Outcome) (b' : Backend)
      → Accepts pg py core now event b o b'
      → Keeps b.db b'.db
  Accepts-Keeps now event b (Outcome.stored row) b' (w, sent) =
      λ v. (w.valid v, (row ∷ [], w.appended))
  Accepts-Keeps now event b Outcome.publish_failed b' h = absurd h
  Accepts-Keeps now event b Outcome.ignored b' h = Keeps-same b.db b'.db (ap (λ x. x.db) h)
  Accepts-Keeps now event b Outcome.core_failed b' h = Keeps-same b.db b'.db (ap (λ x. x.db) h)
  Accepts-Keeps now event b (Outcome.tx_failed e) b' h = Keeps-same b.db b'.db (ap (λ x. x.db) h)

pub Answers-Keeps :
    (py : Python) (db : Db) (request_id : Uuid) (live : Option (Option (List CoreHumanRequest)))
    (reply : String → Reply) (o : Response) (db' : Db)
    → Answers py db request_id live reply o db'
    → Keeps db db'
Answers-Keeps py db request_id live reply (answered result) db'
      (items, id, known, listed, replied, put) =
    SameRuns-Keeps db db' ((upsert_human_request-Quiet py result).same tt db db' put)
Answers-Keeps py db request_id live reply (refused e) db' h = Keeps-same db db' h
Answers-Keeps py db request_id live reply core_failed db' h = Keeps-same db db' h
Answers-Keeps py db request_id live reply (tx_failed e) db' h = Keeps-same db db' h

pub Lists-Keeps :
    (pg : Postgres) (py : Python) (run_id : Uuid) (live : Option (Option (List CoreHumanRequest)))
    (db : Db) (o : Listing) (db' : Db)
    → Lists pg py run_id live db o db'
    → Keeps db db'
Lists-Keeps pg py run_id live db (Listing.listed rows) db' (has, same, e, all) =
    SameRuns-Keeps db db' same
Lists-Keeps pg py run_id live db Listing.run_missing db' (held, same, missing) =
    Keeps-same db db' same
Lists-Keeps pg py run_id live db Listing.core_failed db' h = Keeps-same db db' h
Lists-Keeps pg py run_id live db (Listing.tx_failed e) db' h = Keeps-same db db' h

pub accepted-same :
    {A : Type 0} (o : Option A) (a : A) (db mid : Db) → accepted o db ≡ ok (a, mid) → mid ≡ db
accepted-same o a db mid e = ground arith

insert_row-Keeps : (row : RunRow) (db db' : Db) → insert_row row db ≡ ok (tt, db') → Keeps db db'
unfolding insert_row
insert_row-Keeps row db db' e = settle (has_run row.id db.runs) refl e
  where
    kept : Result (Unit {0} × Db)
    kept = ok (tt, with_run row db)

    refused' : Result (Unit {0} × Db)
    refused' = err integrity_error

    settle :
        (known : Bool)
        → has_run row.id db.runs ≡ known
        → (if known then refused' else kept) ≡ ok (tt, db')
        → Keeps db db'
    settle true known h = ground arith
    settle false free h =
        let same : with_run row db ≡ db' = ground arith in
        λ v. (
          subst IsValid same (with_run-IsValid row db free v),
          ([], ap (λ d. d.events) (sym same) ∙ sym (append_nil db.events)),
        )

insert_run-Keeps :
    (py : Python) (view : CoreRunView) (db db' : Db)
    → insert_run py view db ≡ ok (tt, db')
    → Keeps db db'
unfolding insert_run
insert_run-Keeps py view db db' e =
    let (id, mid, parsed, put) =
      >>=-eq-ok (accepted (py.parse_uuid view.run_id)) (λ i. insert_row (new_run i view)) db db' tt
        e in
    Keeps-trans db mid db'
      (Keeps-same db mid (accepted-same (py.parse_uuid view.run_id) id db mid parsed))
      (insert_row-Keeps (new_run id view) mid db' put)

module _ (pg : Postgres) (py : Python) where
  mark-Keeps :
      (t : Datetime) (id : Uuid) (name : String) (db : Db) (o : Option RunEventRow) (db' : Db)
      → mark_run_start_failed pg py t id name db ≡ ok (o, db')
      → Keeps db db'
  unfolding mark_run_start_failed
  mark-Keeps t id name db o db' e = elim (Option-cases (get_run db id)) [
    | inl absent ↦ Keeps-same db db' (ground arith)
    | inr (row, found) ↦ λ v.
        let (event, db'', marked, told) =
          mark_run_start_failed-Failed pg py t name id db row v found in
        let same : db'' ≡ db' = ground arith in
        (subst IsValid same told.valid, (event ∷ [], ap (λ d. d.events) (sym same) ∙ told.appended))
  ]

  report-db :
      (name : String) (hub : EventHub) (r : Result (Option RunEventRow) × Db)
      → (report py name hub r).1.db ≡ r.1
  unfolding report announce
  report-db name hub (err e, db) = refl
  report-db name hub (ok none, db) = refl
  report-db name hub (ok (some row), db) = announced (publish hub (failed_event py row))
    where
      announced : (h : Option EventHub) → (announce name db hub h).1.db ≡ db
      announced none = refl
      announced (some hub') = refl

  handle_failure-Keeps :
      (t : Datetime) (name : String) (b : Backend) (id : Option Uuid)
      → Keeps b.db (handle_failure pg py t name b id).1.db
  unfolding handle_failure
  handle_failure-Keeps t name b none = Keeps-same b.db b.db refl
  handle_failure-Keeps t name b (some id) =
      let m : Tx (Option RunEventRow) = mark_run_start_failed pg py t id name in
      subst (Keeps b.db) (sym (report-db name b.hub (session_scope m b.db)))
        (session_scope-Keeps m b.db (λ o db' e. mark-Keeps t id name b.db o db' e))

  after_start-Keeps :
      (t : Datetime) (id : Uuid) (s : RunSupervisor) (answer : Option String) (b : Backend)
      → Keeps b.db (after_start pg py t id s answer b).1.1.db
  unfolding after_start
  after_start-Keeps t id s none b = Keeps-same b.db b.db refl
  after_start-Keeps t id s (some name) b =
      handle_failure-Keeps t name b (py.parse_uuid (py.print_uuid id))

  module _ (defaults : Defaults) (id : Uuid) (now t : Datetime) (request : StartRunRequest)
      (answer : Option String) (meanwhile : Backend → Backend)
      (keep : (b : Backend) → Keeps b.db (meanwhile b).db) (s : RunSupervisor) where
    after_insert-Keeps :
        (hub : EventHub) (r : Result (Unit {0}) × Db)
        → Keeps r.1 (after_insert pg py t id s answer meanwhile hub r).1.1.db
    unfolding after_insert
    after_insert-Keeps hub (err e, db) = Keeps-same db db refl
    after_insert-Keeps hub (ok done', db) =
        let b : Backend = record { db = db; hub = hub } in
        Keeps-trans db (meanwhile b).db (after_start pg py t id s answer (meanwhile b)).1.1.db
          (keep b) (after_start-Keeps t id s answer (meanwhile b))

    -- The tables are kept through a request for a new run, if they are while the Core starts it.
    pub create-Keeps :
        (b : Backend)
        → Keeps b.db (create pg py defaults id now t request answer meanwhile s b).1.1.db
    unfolding create
    create-Keeps b = settle s.accepting
      where
        scope : Result (Unit {0}) × Db
        scope =
            session_scope (insert_run py (queued_view defaults request (py.print_uuid id) now)) b.db

        stopped : RunSupervisor × (Created × Backend)
        stopped = (s, (stopping, b))

        settle :
            (a : Bool)
            → Keeps b.db
                (if a
                  then after_insert pg py t id s answer meanwhile b.hub scope
                  else stopped).1.1.db
        settle true =
            Keeps-trans b.db scope.1 (after_insert pg py t id s answer meanwhile b.hub scope).1.1.db
              (session_scope-Keeps
                (insert_run py (queued_view defaults request (py.print_uuid id) now)) b.db
                (λ u db' e. insert_run-Keeps py _ b.db db' e))
              (after_insert-Keeps b.hub scope)
        settle false = Keeps-same b.db b.db refl
