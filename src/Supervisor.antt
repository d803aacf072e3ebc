-- ===== src/Supervisor.antt =====
-- services/run_supervisor.py: a run gets its row before the Core is asked to start it.
pub mod Start
use z_apply_backend.Base.{
  ℕ, ◌+◌, String, Bool, false, Option, none, some, List, [], ◌∷◌, ◌==◌, select, not, if◌then◌else◌,
}
use z_apply_backend.Hub.{StoredEvent, EventHub, publish}
use z_apply_backend.Json.{Python}
use z_apply_backend.Models.{Uuid, Datetime, RunRow, RunEventRow, Db, CoreRunView}
use z_apply_backend.Repo.{Error, Result, value_error, ok, err, session_scope}
use z_apply_backend.Repo.Runs.{insert_run, mark_run_start_failed}
use z_apply_backend.Schemas.{serialize_event_row}
use z_apply_backend.Sql.{Postgres}
use z_apply_backend.Store.{Backend}

-- The Core's StartRunRequest.
pub record StartRunRequest : Type 0 where
  pub job_url : String
  pub task : Option String
  pub provider : Option String
  pub model : Option String

-- `accepting`, and the observer tasks that run: the runs that they wait for.
pub record RunSupervisor : Type 0 where
  pub accepting : Bool
  pub observers : List Uuid

-- How `create` ends: refused, since the supervisor is stopping; the first transaction or the one
-- after a failed start raised; the Core raised an exception of this type, which goes on to the
-- caller; publishing raised; or the run has started.
pub data Created : Type 0 where
  stopping publish_failed : Created
  insert_failed mark_failed : Error → Created
  start_failed : String → Created
  started : Uuid → Created

-- What `_queued_view` takes from the Core: the values of its enumerations, and the defaults of the
-- view's reasoning settings.
pub record Defaults : Type 0 where
  pub status_queued : String
  pub phase_queued : String
  pub tab_pending : String
  pub agent_control : String
  pub reasoning : String
  pub reasoning_effort : Option String

unfoldable pub queued_view : Defaults → StartRunRequest → String → Datetime → CoreRunView
queued_view core request run_id now = record {
  run_id = run_id;
  job_url = request.job_url;
  task = request.task;
  company = none;
  role = none;
  status = core.status_queued;
  phase = core.phase_queued;
  outcome = none;
  summary = none;
  current_agent = none;
  current_model = request.model;
  current_provider = request.provider;
  browser_tab_state = core.tab_pending;
  control_mode = core.agent_control;
  pending_human_request_id = none;
  latest_event_sequence = 0;
  created_at = now;
  started_at = none;
  finished_at = none;
  current_reasoning = core.reasoning;
  current_reasoning_effort = core.reasoning_effort;
}

unfoldable pub failed_event : Python → RunEventRow → StoredEvent
failed_event py row = record {
  id = row.id;
  event_type = row.kind;
  body = serialize_event_row py row;
}

-- After a failed start: publishing what the transaction returned, and raising again.
unfoldable pub announce : String → Db → EventHub → Option EventHub → Created × Backend
announce name db hub none = (publish_failed, record { db = db; hub = hub })
announce name db hub (some hub') = (start_failed name, record { db = db; hub = hub' })

unfoldable pub report :
    Python → String → EventHub → Result (Option RunEventRow) × Db → Created × Backend
report py name hub (err e, db) = (mark_failed e, record { db = db; hub = hub })
report py name hub (ok none, db) = (start_failed name, record { db = db; hub = hub })
report py name hub (ok (some row), db) = announce name db hub (publish hub (failed_event py row))

module _ (pg : Postgres) (py : Python) where
  -- The handler of the exception with the type name `name`; `none` is a ValueError of `UUID(run_id)`.
  unfoldable pub handle_failure : Datetime → String → Backend → Option Uuid → Created × Backend
  handle_failure t name b none = (mark_failed value_error, b)
  handle_failure t name b (some id) =
      report py name b.hub (session_scope (mark_run_start_failed pg py t id name) b.db)

  -- The answer of `start_run`: none, or the type name of its exception.
  unfoldable pub after_start :
      Datetime
      → Uuid
      → RunSupervisor
      → Option String
      → Backend
      → RunSupervisor × (Created × Backend)
  after_start t id s none b = (record s { observers = id ∷ s.observers }, (started id, b))
  after_start t id s (some name) b = (s, handle_failure t name b (py.parse_uuid (py.print_uuid id)))

  unfoldable pub after_insert :
      Datetime
      → Uuid
      → RunSupervisor
      → Option String
      → (Backend → Backend)
      → EventHub
      → Result (Unit {0}) × Db
      → RunSupervisor × (Created × Backend)
  after_insert t id s answer meanwhile hub (err e, db) =
      (s, (insert_failed e, record { db = db; hub = hub }))
  after_insert t id s answer meanwhile hub (ok done', db) =
      after_start t id s answer (meanwhile (record { db = db; hub = hub }))

  -- `id` is what `uuid4()` gives, `now` and `t` are the times that the clock shows, `answer` is what
  -- the Core does, and `meanwhile` what other tasks do to the backend until then.
  unfoldable pub create :
      Defaults
      → Uuid
      → Datetime
      → Datetime
      → StartRunRequest
      → Option String
      → (Backend → Backend)
      → RunSupervisor
      → Backend
      → RunSupervisor × (Created × Backend)
  create core id now t request answer meanwhile s b =
      if s.accepting
      then after_insert t id s answer meanwhile b.hub
          (session_scope (insert_run py (queued_view core request (py.print_uuid id) now)) b.db)
      else (s, (stopping, b))

-- How the wait for a run ends, and how the task that observes it does: an exception of the run is
-- taken in, and only a CancelledError goes on.
pub data Waited : Type 0 where
  ran was_cancelled wait_failed : Waited

pub data ObserverEnd : Type 0 where
  observer_returned observer_cancelled : ObserverEnd

unfoldable pub observe : Waited → ObserverEnd
observe ran = observer_returned
observe was_cancelled = observer_cancelled
observe wait_failed = observer_returned

-- An observer that ends, however its run ended, takes itself off.
unfoldable pub observed : Uuid → RunSupervisor → RunSupervisor
observed id s = record s { observers = select (λ o. not (o == id)) s.observers }

-- Every observer is cancelled and awaited.
unfoldable pub close : RunSupervisor → RunSupervisor
close s = record s { accepting = false; observers = [] }
