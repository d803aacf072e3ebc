-- ===== src/App.antt =====
-- app.py: what the lifespan does before the first request and after the last one.
mod Announced
pub mod Driver
pub mod Kept
mod Killed
pub mod Lifespan
mod Outgoing
pub mod Published
pub mod Requests
pub mod Serving
mod Silent
mod Tests
use z_apply_backend.Base.{
  ℕ, Bool, true, false, Option, none, some, List, [], ◌∷◌, ◌++◌, if◌then◌else◌,
}
use z_apply_backend.Hub.{StoredEvent, EventHub, init, publish}
use z_apply_backend.Json.{Python}
use z_apply_backend.Models.{Datetime, RunEventRow, Db}
use z_apply_backend.Repo.{Error, Result, ok, err, session_scope}
use z_apply_backend.Repo.Interrupt.{interrupt_active_runs}
use z_apply_backend.Schemas.{serialize_event_row}
use z_apply_backend.Sql.{Postgres}
use z_apply_backend.Store.{Backend}
use z_apply_backend.Supervisor.{RunSupervisor}

-- How the part before the `yield` ends: the database is not reachable, the transaction failed,
-- publishing raised, the Core did not start, or requests are served.
pub data Startup : Type 0 where
  unreachable publish_failed core_failed : Startup
  interrupt_failed : Error → Startup
  ready : EventHub → RunSupervisor → Startup

unfoldable pub wire_event : Python → RunEventRow → StoredEvent
wire_event py row = record { id = row.id; event_type = row.kind; body = serialize_event_row py row }

-- `for row in interrupted_events: await hub.publish(…)`
unfoldable pub publish_all : Python → EventHub → List RunEventRow → Option EventHub
publish_all py hub [] = some hub
publish_all py hub (row ∷ rows) = elim (publish hub (wire_event py row)) [
  | none ↦ none
  | some hub' ↦ publish_all py hub' rows
]

-- `EventHub()`
abbrev pub default_queue_size : ℕ
default_queue_size = 256

unfoldable pub new_supervisor : RunSupervisor
new_supervisor = record { accepting = true; observers = [] }

-- From the sink of the events on; `starts` is whether `core.start()` returns.
unfoldable pub serve : Bool → Option EventHub → Startup
serve starts none = publish_failed
serve true (some hub) = ready hub new_supervisor
serve false (some hub) = core_failed

unfoldable pub after_interrupt : Python → Bool → Result (List RunEventRow) × Db → Startup × Db
after_interrupt py starts (err e, db) = (interrupt_failed e, db)
after_interrupt py starts (ok events, db) =
    (serve starts (publish_all py (init default_queue_size) events), db)

-- Everything before the `yield`, at the time `t`; `reachable` is whether "SELECT 1" succeeds. The
-- look at the model settings only writes to the log.
unfoldable pub start_up : Postgres → Python → Datetime → Bool → Bool → Db → Startup × Db
start_up pg py t reachable starts db =
    if reachable
    then after_interrupt py starts (session_scope (interrupt_active_runs pg py t) db)
    else (unreachable, db)

-- How one awaited step of the teardown ends.
pub data Ending : Type 0 where
  finished timed_out raised : Ending

pub data Action : Type 0 where
  close_supervisor close_bridge close_core kill_driver dispose_engine dispose_again : Action

unfoldable pub dispose : Ending → List Action
dispose finished = dispose_engine ∷ []
dispose timed_out = dispose_engine ∷ dispose_again ∷ []
dispose raised = dispose_engine ∷ []

unfoldable pub after_core : Ending → List Action → List Action
after_core finished more = more
after_core timed_out more = kill_driver ∷ more
after_core raised more = []

-- Everything after the `yield`: what is begun, by how the closing of the Core and of the engine
-- end. The two steps before them suppress every exception.
unfoldable pub shut_down : Ending → Ending → List Action
unfolding dispose after_core
shut_down core_ends engine_ends =
    close_supervisor ∷ close_bridge ∷ close_core ∷ after_core core_ends (dispose engine_ends)
