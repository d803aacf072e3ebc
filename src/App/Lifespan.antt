-- ===== src/App/Lifespan.antt =====
-- The state in which the first request finds the backend, and what the teardown begins.
use z_apply_backend.App.{
  Startup, ready, core_failed, publish_all, wire_event, new_supervisor, default_queue_size, serve,
  after_interrupt, start_up, Ending, finished, timed_out, raised, Action, close_supervisor,
  close_bridge, close_core, kill_driver, dispose_engine, dispose_again, shut_down,
}
use z_apply_backend.Base.{
  ℕ, ◌≡◌, ◌==◌, any, not, refl, ap, ◌∙◌, Bool, true, false, some, List, [], ◌∷◌, ◌++◌, arith, All,
  length, select,
}
use z_apply_backend.Hub.{EventHub, init, publish, publish_each}
use z_apply_backend.Json.{Python}
use z_apply_backend.Models.{Datetime, RunEventRow, Db}
use z_apply_backend.Repo.{Tx, ok, session_scope}
use z_apply_backend.Repo.Interrupt.{is_active, interrupt_active_runs}
use z_apply_backend.Repo.Restart.{interrupt_active_runs_lem}
use z_apply_backend.Repo.Valid.{IsValid}
use z_apply_backend.Sql.{Postgres}

publish-nobody :
    (hub : EventHub) (py : Python) (row : RunEventRow)
    → hub.queues ≡ []
    → publish hub (wire_event py row) ≡ some hub
unfolding publish publish_each
publish-nobody hub py row e = ground arith

publish_all-nobody :
    (py : Python) (hub : EventHub) (rows : List RunEventRow)
    → hub.queues ≡ []
    → publish_all py hub rows ≡ some hub
unfolding publish_all
publish_all-nobody py hub [] e = refl
publish_all-nobody py hub (row ∷ rows) e =
    ground (arith, publish-nobody hub py row e, publish_all-nobody py hub rows e)

init-queues : (init default_queue_size).queues ≡ []
unfolding init
init-queues = refl

session_scope-ok :
    {A : Type 0} (m : Tx A) (a : A) (db db' : Db)
    → m db ≡ ok (a, db')
    → session_scope m db ≡ (ok a, db')
unfolding session_scope
session_scope-ok m a db db' e = ground arith

abbrev pub outcome_of : Bool → Startup
outcome_of true = ready (init default_queue_size) new_supervisor
outcome_of false = core_failed

serve-init : (starts : Bool) → serve starts (some (init default_queue_size)) ≡ outcome_of starts
unfolding serve
serve-init true = refl
serve-init false = refl

-- On valid tables and with the database there, nothing before the Core's own start can fail. The
-- tables are valid then, no run is active, one event was added for each run that was, and the hub
-- has no subscriber: the events of the interruption are published to nobody, and reach a client
-- only by its replay.
pub start_up_lem :
    (pg : Postgres) (py : Python) (t : Datetime) (starts : Bool) (db : Db)
    → IsValid db
    → (events : List RunEventRow) × (db' : Db) × (start_up pg py t true starts db
        ≡ (outcome_of starts, db'))
      × IsValid db'
      × All (λ r. is_active r ≡ false) db'.runs
      × (db'.events ≡ db.events ++ events)
      × (length events ≡ length (select is_active db.runs))
      × ((init default_queue_size).queues ≡ [])
unfolding start_up after_interrupt
start_up_lem pg py t starts db v =
    let (events, db', done', valid, appended, count, kinds, runs, none_active) =
      interrupt_active_runs_lem pg py t db v in
    (
      events,
      db',
      ap (after_interrupt py starts)
            (session_scope-ok (interrupt_active_runs pg py t) events db db' done')
          ∙ ap (λ h. (serve starts h, db'))
              (publish_all-nobody py (init default_queue_size) events init-queues)
          ∙ ap (λ o. (o, db')) (serve-init starts),
      valid,
      none_active,
      appended,
      count,
      init-queues,
    )

abbrev number : Action → ℕ
number close_supervisor = 0
number close_bridge = 1
number close_core = 2
number kill_driver = 3
number dispose_engine = 4
number dispose_again = 5

abbrev begun : Action → List Action → Bool
begun a = any (λ b. number a == number b)

abbrev is_timed_out : Ending → Bool
is_timed_out timed_out = true
is_timed_out _ = false

abbrev is_raised : Ending → Bool
is_raised raised = true
is_raised _ = false

-- The teardown always begins to close the supervisor, the bridge and the Core, in this order. The
-- browser's driver is killed exactly when the Core's closing timed out. The engine is disposed of
-- unless that closing raised: then an exception leaves the lifespan before it.
shut_down_lem :
    (core_ends engine_ends : Ending)
    → ((rest : List Action) × (shut_down core_ends engine_ends
          ≡ close_supervisor ∷ close_bridge ∷ close_core ∷ rest))
      × (begun kill_driver (shut_down core_ends engine_ends) ≡ is_timed_out core_ends)
      × (begun dispose_engine (shut_down core_ends engine_ends) ≡ not (is_raised core_ends))
unfolding shut_down
shut_down_lem finished finished = ((_, refl), refl, refl)
shut_down_lem finished timed_out = ((_, refl), refl, refl)
shut_down_lem finished raised = ((_, refl), refl, refl)
shut_down_lem timed_out finished = ((_, refl), refl, refl)
shut_down_lem timed_out timed_out = ((_, refl), refl, refl)
shut_down_lem timed_out raised = ((_, refl), refl, refl)
shut_down_lem raised finished = ((_, refl), refl, refl)
shut_down_lem raised timed_out = ((_, refl), refl, refl)
shut_down_lem raised raised = ((_, refl), refl, refl)
