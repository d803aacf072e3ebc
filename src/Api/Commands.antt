-- ===== src/Api/Commands.antt =====
-- api/runs.py: the handlers that start, list and cancel runs, and send context to one.
use z_apply_backend.Api.{Answer, refused, uncaught, response, run_missing, view_answer}
use z_apply_backend.Base.{ℕ, String, true, false, Option, none, some, List, [], ◌∷◌}
use z_apply_backend.Human.{Raised, invalid_run_transition, integration_error}
use z_apply_backend.Json.{Fields, Python}
use z_apply_backend.Models.{Uuid, Datetime, RunRow, Db}
use z_apply_backend.Repo.Runs.{list_runs}
use z_apply_backend.Schemas.{RunResponse, from_row}
use z_apply_backend.Sql.{Postgres}
use z_apply_backend.Store.{Core, Backend}
use z_apply_backend.Supervisor.{
  StartRunRequest, RunSupervisor, Created, stopping, publish_failed, insert_failed, mark_failed,
  start_failed, started, Defaults, create,
}

-- An exception that is none of the Core's contract.
abbrev foreign : Raised
foreign c = false

module _ (py : Python) (core : Core) where
  -- `assert handle is not None`
  unfoldable pub started_answer : Option core.Handle → Answer RunResponse
  started_answer none = uncaught
  started_answer (some handle) = view_answer py (core.view handle)

  -- What `start_run` makes of the end of `create`; `classes` has the classes of the exception with
  -- a type name. The RuntimeError of a supervisor that is stopping is none of the Core's.
  unfoldable pub start_answer : (String → Raised) → Created → Answer RunResponse
  start_answer classes stopping = refused (integration_error foreign)
  start_answer classes publish_failed = refused (integration_error foreign)
  start_answer classes (insert_failed e) = refused (integration_error foreign)
  start_answer classes (mark_failed e) = refused (integration_error foreign)
  start_answer classes (start_failed name) = refused (integration_error (classes name))
  start_answer classes (started run_id) = started_answer (core.get_run (py.print_uuid run_id))

  -- `start_run`; the other arguments are those of `create`.
  unfoldable pub start_run :
      Postgres
      → (String → Raised)
      → Defaults
      → Uuid
      → Datetime
      → Datetime
      → StartRunRequest
      → Option String
      → (Backend → Backend)
      → RunSupervisor
      → Backend
      → Answer RunResponse × (RunSupervisor × Backend)
  start_run pg classes defaults id now t request answer meanwhile s b =
      let (s', (created, b')) = create pg py defaults id now t request answer meanwhile s b in
      (start_answer classes created, (s', b'))

  -- `cancel_run`: what `cancel()` raises, and the view after it. Only InvalidRunTransition is caught.
  unfoldable pub cancelled : Option Raised → core.Handle → Answer RunResponse
  cancelled none handle = view_answer py (core.view handle)
  cancelled (some exc) handle = elim (exc invalid_run_transition) [
    | true ↦ refused (record { status = 409; code = "invalid_run_transition" })
    | false ↦ uncaught
  ]

  unfoldable pub cancel_run : (core.Handle → Option Raised) → Uuid → Answer RunResponse
  cancel_run cancel run_id = elim (core.get_run (py.print_uuid run_id)) [
    | none ↦ refused run_missing
    | some handle ↦ cancelled (cancel handle) handle
  ]

-- What the Core gives for a context: an exception, or a result as a dict.
pub data Sent : Type 0 where
  raised : Raised → Sent
  accepted : Fields → Sent

unfoldable pub sent_answer : Sent → Answer Fields
sent_answer (raised exc) = refused (integration_error exc)
sent_answer (accepted fields) = response fields

unfoldable pub send_context :
    Python → (core : Core) → (core.Handle → String → String → Sent) → Uuid → String → Answer Fields
send_context py core method run_id content = elim (core.get_run (py.print_uuid run_id)) [
  | none ↦ refused run_missing
  | some handle ↦ sent_answer (method handle content "web")
]

-- One invalid row makes the whole answer fail.
unfoldable pub also : Option RunResponse → Option (List RunResponse) → Option (List RunResponse)
also (some r) (some rs) = some (r ∷ rs)
also _ _ = none

unfoldable pub all_responses : List RunRow → Option (List RunResponse)
all_responses [] = some []
all_responses (row ∷ rows) = also (from_row row) (all_responses rows)

unfoldable pub rows_answer : Option (List RunResponse) → Answer (List RunResponse)
rows_answer none = uncaught
rows_answer (some responses) = response responses

-- `get_runs`
unfoldable pub get_runs :
    Postgres → Db → ℕ → Option Datetime → Option String → Option String → Answer (List RunResponse)
get_runs pg db limit cursor status outcome =
    rows_answer (all_responses (list_runs pg db limit cursor status outcome))
