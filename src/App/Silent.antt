-- ===== src/App/Silent.antt =====
-- The transactions that write no event.
use z_apply_backend.App.Kept.{accepted-same}
use z_apply_backend.Base.{String, ◌≡◌, refl, ap, ◌∙◌, Option, List, arith}
use z_apply_backend.Human.{Reply, Response, refused, core_failed, tx_failed, answered}
use z_apply_backend.Human.Answers.{Answers}
use z_apply_backend.Human.Listing.{Listing}
use z_apply_backend.Human.Lists.{Lists}
use z_apply_backend.Json.{Python}
use z_apply_backend.Models.{Uuid, RunRow, Db, CoreRunView, CoreHumanRequest}
use z_apply_backend.Repo.{Result, ok, err, Tx, accepted, session_scope}
use z_apply_backend.Repo.Quiet.{upsert_human_request-Quiet, >>=-eq-ok}
use z_apply_backend.Repo.Runs.{new_run, insert_row, insert_run}
use z_apply_backend.Sql.{Postgres}

pub session_scope-events :
    {A : Type 0} (m : Tx A) (db : Db)
    → ((a : A) (db' : Db) → m db ≡ ok (a, db') → db'.events ≡ db.events)
    → (session_scope m db).1.events ≡ db.events
unfolding session_scope
session_scope-events {A} m db same = settle (m db) refl
  where
    settle : (r : Result (A × Db)) → m db ≡ r → (session_scope (λ _. r) db).1.events ≡ db.events
    settle (err e) failed = refl
    settle (ok (a, db')) good = same a db' good

insert_row-events :
    (row : RunRow) (db db' : Db) → insert_row row db ≡ ok (tt, db') → db'.events ≡ db.events
unfolding insert_row
insert_row-events row db db' e = ground arith

pub insert_run-events :
    (py : Python) (view : CoreRunView) (db db' : Db)
    → insert_run py view db ≡ ok (tt, db')
    → db'.events ≡ db.events
unfolding insert_run
insert_run-events py view db db' e =
    let (id, mid, parsed, put) =
      >>=-eq-ok (accepted (py.parse_uuid view.run_id)) (λ i. insert_row (new_run i view)) db db' tt
        e in
    insert_row-events (new_run id view) mid db' put
    ∙ ap (λ d. d.events) (accepted-same (py.parse_uuid view.run_id) id db mid parsed)

pub Answers-events :
    (py : Python) (db : Db) (request_id : Uuid) (live : Option (Option (List CoreHumanRequest)))
    (reply : String → Reply) (o : Response) (db' : Db)
    → Answers py db request_id live reply o db'
    → db'.events ≡ db.events
Answers-events py db request_id live reply (answered result) db'
      (items, id, known, listed, replied, put) =
    ((upsert_human_request-Quiet py result).same tt db db' put).1
Answers-events py db request_id live reply (refused e) db' h = ap (λ d. d.events) h
Answers-events py db request_id live reply core_failed db' h = ap (λ d. d.events) h
Answers-events py db request_id live reply (tx_failed e) db' h = ap (λ d. d.events) h

pub Lists-events :
    (pg : Postgres) (py : Python) (run_id : Uuid) (live : Option (Option (List CoreHumanRequest)))
    (db : Db) (o : Listing) (db' : Db)
    → Lists pg py run_id live db o db'
    → db'.events ≡ db.events
Lists-events pg py run_id live db (Listing.listed rows) db' (has, same, e, all) = same.1
Lists-events pg py run_id live db Listing.run_missing db' (held, same, missing) =
    ap (λ d. d.events) same
Lists-events pg py run_id live db Listing.core_failed db' h = ap (λ d. d.events) h
Lists-events pg py run_id live db (Listing.tx_failed e) db' h = ap (λ d. d.events) h
