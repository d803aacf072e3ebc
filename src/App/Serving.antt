-- ===== src/App/Serving.antt =====
-- What every request keeps, and so every sequence of them.
use z_apply_backend.App.{start_up, default_queue_size}
use z_apply_backend.App.Lifespan.{start_up_lem}
use z_apply_backend.App.Kept.{
  Keeps, Keeps-same, Keeps-trans, Accepts-Keeps, Answers-Keeps, Lists-Keeps, create-Keeps,
}
use z_apply_backend.App.Requests.{
  Request, accepts, creates, answers, decides, polls, subscribes, unsubscribes, Requests, done',
  then', serve, serve_all,
}
use z_apply_backend.Base.{
  ◌≡◌, refl, ap, sym, subst, ◌∙◌, true, false, List, [], ◌∷◌, ◌++◌, str_eq, append_assoc, All,
}
use z_apply_backend.Human.{answer, submission_decision}
use z_apply_backend.Human.Answers.{answer-Answers, submission_decision-Answers}
use z_apply_backend.Hub.{init}
use z_apply_backend.Human.Listing.{human_requests}
use z_apply_backend.Human.Lists.{human_requests-Lists}
use z_apply_backend.Json.{Python}
use z_apply_backend.Models.{Datetime, RunEventRow, Db}
use z_apply_backend.Repo.Interrupt.{is_active}
use z_apply_backend.Repo.Valid.{IsValid}
use z_apply_backend.Sql.{Postgres}
use z_apply_backend.Store.{Core, Backend, accept}
use z_apply_backend.Store.Atomic.{accept_atomic}
use z_apply_backend.Supervisor.{Defaults}

module _ (pg : Postgres) (py : Python) (core : Core) (defaults : Defaults) where
  mutual
    unfolding serve serve_all

    serve-Keeps :
        (request : Request) (b : Backend) → Keeps b.db (serve pg py core defaults request b).db
    serve-Keeps (accepts now event) b =
        let (o, b') = accept pg py core now event b in
        Accepts-Keeps pg py core now event b o b' (accept_atomic pg py core now event b)
    serve-Keeps (creates id now t request reply s meanwhile) b =
        create-Keeps pg py defaults id now t request reply (serve_all pg py core defaults meanwhile)
          (λ b'. served meanwhile b') s b
    serve-Keeps (answers request_id live method text) b =
        let (o, db') = answer py b.db request_id live method text in
        Answers-Keeps py b.db request_id live (λ id. method id text) o db'
          (answer-Answers py b.db request_id live method text)
    serve-Keeps (decides request_id live method decision) b =
        let (o, db') = submission_decision py b.db request_id live method decision in
        Answers-Keeps py b.db request_id live (λ id. method id (str_eq decision "approve")) o db'
          (submission_decision-Answers py b.db request_id live method decision).0
    serve-Keeps (polls run_id live) b =
        let (o, db') = human_requests pg py run_id live b.db in
        Lists-Keeps pg py run_id live b.db o db' (human_requests-Lists pg py run_id live b.db)
    serve-Keeps subscribes b = Keeps-same b.db b.db refl
    serve-Keeps (unsubscribes key) b = Keeps-same b.db b.db refl

    served :
        (requests : Requests) (b : Backend)
        → Keeps b.db (serve_all pg py core defaults requests b).db
    served done' b = Keeps-same b.db b.db refl
    served (then' request requests) b =
        Keeps-trans b.db (serve pg py core defaults request b).db
          (serve_all pg py core defaults requests (serve pg py core defaults request b)).db
          (serve-Keeps request b) (served requests (serve pg py core defaults request b))

  -- Every sequence of requests and of events of the Core, failing ones and those that are served
  -- while the Core starts a run included, leaves valid tables valid, and only adds events behind
  -- those that there are: no event is changed or removed.
  pub serve_all-kept :
      (requests : Requests) (b : Backend)
      → IsValid b.db
      → IsValid (serve_all pg py core defaults requests b).db
        × ((rest : List RunEventRow) × ((serve_all pg py core defaults requests b).db.events
              ≡ b.db.events ++ rest))
  serve_all-kept requests b v = served requests b v

  -- What the lifetimes of the process do to the tables: each starts at a time, on what the one
  -- before left, serves its requests, and then stops or is killed.
  abbrev pub lifetimes : List (Datetime × Requests) → Db → Db
  lifetimes [] db = db
  lifetimes ((t, requests) ∷ more) db =
      lifetimes more
        (serve_all pg py core defaults requests
          (record { db = (start_up pg py t true true db).1; hub = init default_queue_size })).db

  start_up-Keeps : (t : Datetime) (db : Db) → Keeps db (start_up pg py t true true db).1
  start_up-Keeps t db v =
      let (events, db', e, valid, none_active, appended, count, nobody) =
        start_up_lem pg py t true db v in
      subst (λ d. IsValid d × ((more : List RunEventRow) × (d.events ≡ db.events ++ more)))
        (sym (ap (λ r. r.1) e)) (valid, (events, appended))

  lifetimes-Keeps : (lives : List (Datetime × Requests)) (db : Db) → Keeps db (lifetimes lives db)
  lifetimes-Keeps [] db = Keeps-same db db refl
  lifetimes-Keeps ((t, requests) ∷ more) db =
      let b : Backend = record {
        db = (start_up pg py t true true db).1;
        hub = init default_queue_size;
      } in
      let b' : Backend = serve_all pg py core defaults requests b in
      Keeps-trans db b.db (lifetimes more b'.db) (start_up-Keeps t db) (
        Keeps-trans b.db b'.db (lifetimes more b'.db) (served requests b)
          (lifetimes-Keeps more b'.db))

  -- The same over any number of lifetimes of the process, from valid tables. The start after them
  -- finds valid tables too, so it leaves no run active, and whatever events were there at first are
  -- there still, in front.
  pub lifetimes-kept :
      (lives : List (Datetime × Requests)) (t : Datetime) (db : Db)
      → IsValid db
      → let db' = (start_up pg py t true true (lifetimes lives db)).1 in
        IsValid db'
        × All (λ r. is_active r ≡ false) db'.runs
        × ((rest : List RunEventRow) × (db'.events ≡ db.events ++ rest))
  lifetimes-kept lives t db v =
      let (w, (more, e)) = lifetimes-Keeps lives db v in
      let (events, db', s, valid, none_active, appended, count, nobody) =
        start_up_lem pg py t true (lifetimes lives db) w in
      subst
        (λ d.
          IsValid d
          × All (λ r. is_active r ≡ false) d.runs
          × ((rest : List RunEventRow) × (d.events ≡ db.events ++ rest)))
        (sym (ap (λ r. r.1) s))
        (
          valid,
          none_active,
          (more ++ events, appended ∙ ap (λ l. l ++ events) e ∙ append_assoc db.events more events),
        )
