-- ===== src/Api/Started.antt =====
-- POST of a run, from its body to the answer: api/runs.py with the supervisor, the tables, the hub and
-- the Core.
use z_apply_backend.Api.{Answer, refused, response, view_answer, response_of}
use z_apply_backend.Api.Commands.{started_answer, start_answer, start_run}
use z_apply_backend.Base.{String, ◌≡◌, ap, ◌∙◌, true, false, Option, none, some, ◌∷◌, All}
use z_apply_backend.Human.{Raised, integration_error}
use z_apply_backend.Hub.{EventHub, publish}
use z_apply_backend.Json.{Python, Fields}
use z_apply_backend.Migrations.{runs}
use z_apply_backend.Migrations.Declared.{declared}
use z_apply_backend.Models.{Uuid, Datetime, RunRow, RunEventRow, Db, CoreRunView}
use z_apply_backend.Repo.Events.{has_run}
use z_apply_backend.Repo.Failed.{Failed}
use z_apply_backend.Repo.Runs.{get_run, new_run}
use z_apply_backend.Repo.Valid.{IsValid}
use z_apply_backend.Schemas.{RunResponse, from_core_view}
use z_apply_backend.Schemas.Bodies.{Pydantic, StartRunBody, start_run_body, start_request}
use z_apply_backend.Schemas.Widths.{Fits, texts, IsShort, new_run-Fits}
use z_apply_backend.Sql.{Postgres}
use z_apply_backend.Store.{Core, Backend}
use z_apply_backend.Supervisor.{
  RunSupervisor, Created, started, start_failed, Defaults, queued_view, failed_event, create,
  after_start,
}
use z_apply_backend.Supervisor.Start.{inserted, create-inserted, create-refused}

-- What a client is answered: 422 for a body that pydantic refuses, or what the handler gives.
pub data Posted : Type 0 where
  unprocessable : Posted
  handled : Answer RunResponse → Posted

module _ (pg : Postgres) (py : Python) (core : Core) (p : Pydantic) (classes : String → Raised)
    (defaults : Defaults) (id : Uuid) (now t : Datetime) (answer : Option String)
    (meanwhile : Backend → Backend) where
  unfoldable pub with_body :
      Option StartRunBody → RunSupervisor → Backend → Posted × (RunSupervisor × Backend)
  with_body none s b = (unprocessable, (s, b))
  with_body (some body) s b =
      let (a, rest) =
        start_run py core pg classes defaults id now t (start_request body) answer meanwhile s b in
      (handled a, rest)

  -- The route: the body, and then the handler.
  unfoldable pub post_run : Fields → RunSupervisor → Backend → Posted × (RunSupervisor × Backend)
  unfolding with_body
  post_run fields s b = with_body (start_run_body p fields) s b

module _ (pg : Postgres) (py : Python) (core : Core) (p : Pydantic) (classes : String → Raised)
    (defaults : Defaults) (id : Uuid) (now t : Datetime) (meanwhile : Backend → Backend)
    (fields : Fields) (body : StartRunBody) (s : RunSupervisor) (b : Backend)
    (read : start_run_body p fields ≡ some body) (accepting : s.accepting ≡ true)
    (free : has_run id b.db.runs ≡ false) where
  -- The backend when the Core is asked to start the run.
  abbrev pub asked : Backend
  asked = inserted pg py defaults id now t (start_request body) b

  post_run-created :
      (answer : Option String) (s' : RunSupervisor) (c : Created) (b' : Backend)
      → create pg py defaults id now t (start_request body) answer meanwhile s b ≡ (s', (c, b'))
      → post_run pg py core p classes defaults id now t answer meanwhile fields s b
        ≡ (handled (start_answer py core classes c), (s', b'))
  unfolding post_run with_body start_run
  post_run-created answer s' c b' e =
      ap (λ o. with_body pg py core p classes defaults id now t answer meanwhile o s b) read
      ∙ ap (λ (m, (a, b'')). (handled (start_answer py core classes a), (m, b''))) e

  shown_answer :
      (handle : core.Handle) (shown : CoreRunView) (r : RunResponse)
      → core.get_run (py.print_uuid id) ≡ some handle
      → core.view handle ≡ some shown
      → from_core_view py shown ≡ some r
      → start_answer py core classes (started id) ≡ response r
  unfolding start_answer started_answer view_answer response_of
  shown_answer handle shown r held seen valid =
      ap (started_answer py core) held ∙ ap (view_answer py) seen ∙ ap response_of valid

  -- While the supervisor accepts runs, a body that is accepted, with a fresh id and on valid tables, is
  -- answered with the run that the Core shows for that id, if the Core starts it, its view is valid,
  -- and its own values are no wider than their columns. When the Core was asked, the row of the run
  -- was in valid tables, with texts that fit its columns; and the run has an observer.
  pub post_run-started :
      (handle : core.Handle) (shown : CoreRunView) (r : RunResponse)
      → IsValid b.db
      → IsShort defaults
      → core.get_run (py.print_uuid id) ≡ some handle
      → core.view handle ≡ some shown
      → from_core_view py shown ≡ some r
      → (post_run pg py core p classes defaults id now t none meanwhile fields s b
          ≡ (handled (response r), (record s { observers = id ∷ s.observers }, meanwhile asked)))
        × IsValid asked.db
        × ((row : RunRow) × (get_run asked.db id ≡ some row)
            × All (Fits (declared runs)) (texts row))
  unfolding after_start
  post_run-started handle shown r v short held seen valid =
      let (created, kept, found) =
        create-inserted pg py defaults id now t (start_request body) none meanwhile s b accepting
          free v in
      (
        post_run-created none (record s { observers = id ∷ s.observers }) (started id)
              (meanwhile asked) created
            ∙ ap (λ a. (handled a, (record s { observers = id ∷ s.observers }, meanwhile asked)))
                (shown_answer handle shown r held seen valid),
        kept,
        (
          new_run id (queued_view defaults (start_request body) (py.print_uuid id) now),
          found,
          new_run-Fits p defaults fields body id (py.print_uuid id) now short read,
        ),
      )

  -- If the Core raises instead, and the tables are still valid with the run in them, the answer to the
  -- accepted body is the error that is meant for the exception; the run is closed as failed, with one
  -- event for it, and that event is published.
  pub post_run-refused :
      (name : String) (row : RunRow)
      → IsValid (meanwhile asked).db
      → get_run (meanwhile asked).db id ≡ some row
      → (event : RunEventRow) × (db' : Db) × (hub : EventHub) × (post_run pg py core p classes
            defaults id now t
            (some name)
            meanwhile
            fields
            s
            b
          ≡ (
            handled (refused (integration_error (classes name))),
            (s, record { db = db'; hub = hub }),
          ))
        × Failed pg py t name id (meanwhile asked).db row event db'
        × (publish (meanwhile asked).hub (failed_event py event) ≡ some hub)
  unfolding start_answer
  post_run-refused name row v found =
      let (event, db', hub, e, told, sent) =
        create-refused pg py defaults id now t (start_request body) name meanwhile s b row accepting
          free v found in
      (event, db', hub, post_run-created (some name) s (start_failed name) _ e, told, sent)
