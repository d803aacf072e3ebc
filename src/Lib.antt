-- ===== src/Lib.antt =====
-- The backend of z-apply: runs of a job-application agent are kept in PostgreSQL, their events are
-- appended to a table and fanned out to the browsers that follow them by server-sent events.
--
-- Parts and files (paths from the repository's root):
--   * Models.antt is src/z_apply_backend/persistence/models.py: a record for each row class, and
--     `Db` for the tables with the last numbers of their sequences. It also has the views and events
--     of the package z_apply_core that the backend reads.
--   * Json.antt has the values of event payloads, and the record `Python` of what the code uses of
--     the standard library (UUID, int, str, isoformat).
--   * Sql.antt has the record `Postgres`: ORDER BY, sequences and column values, with their
--     documented laws; Sql/Order.antt says what an ordering is, Sql/Sorting.antt is an instance.
--   * Repo.antt and Repo/ are persistence/repositories.py and the transactions of
--     persistence/database.py. A function is an action `Tx` on the tables with a result or an error.
--     Repo/Events, Runs, Interrupt, Records and Calls have the functions (`persist_event`,
--     `list_events`, `insert_run`, `mark_run_start_failed`, `interrupt_active_runs`, the upserts, the
--     ledger of model calls); Repo/Valid, Persist, Binds, Quiet, Queries, Pages, Failed, Restart, Upserts
--     and Totals have the proofs.
--   * Database.antt is `session_scope` of persistence/database.py once more, cut at its awaits, each of
--     which may be cancelled or fail; Database/Calm.antt leads back to the one of Repo.antt.
--   * Hub.antt is services/event_hub.py: `EventHub` with `publish`, `register`, `unregister`.
--   * Store.antt is services/event_store.py: `accept`, cut where it calls the Core; it uses the
--     repository functions and then the hub, as the code does.
--   * Stream.antt is GET /events/stream of api/events.py: the generator cut at its suspensions.
--     Stream/System.antt sets one subscriber among the writers as a step relation.
--   * Schemas.antt and Schemas/Rows.antt are schemas.py: the wire forms of runs and events, and the
--     responses made from the rows of human requests and artifacts; Schemas/Bodies.antt has the bodies
--     of requests, with the parameter `Pydantic` for URLs and UUIDs.
--   * Supervisor.antt is services/run_supervisor.py: `create` and `close`; it uses the repository
--     functions, the hub and the wire form of events.
--   * Human.antt is the two POST handlers of api/human.py, with api/errors.py for the errors of the
--     Core; an exception is the set of the classes that it is an instance of. Human/Listing.antt is
--     the GET, which stores what the Core holds before it lists.
--   * Api.antt is api/runs.py: GET of a run, its calls and its events, and the commands that are
--     passed on to the Core. Api/Commands.antt has the start, the list and the cancelling of runs,
--     Api/Started.antt the start with the body of the request.
--   * Vnc.antt is services/vnc_bridge.py: `issue_access`, `bridge` cut at its suspensions, `close` and
--     the two pumps. Vnc/System.antt sets any number of sockets side by side as a step relation.
--   * Browser.antt is api/browser.py; `live_view` uses the bridge.
--   * App.antt is the lifespan of app.py: the steps before the `yield`, which use the repository
--     functions and the hub, and the teardown. App/Requests.antt has the requests and the events of
--     the Core that change the tables as one type, for what holds in sequences of them.
--     App/Driver.antt is the scan of /proc that kills the driver of the browser.
--   * Migrations.antt is alembic/versions: each revision as a list of operations. The columns that
--     persistence/models.py declares are Migrations/Declared.antt. What PostgreSQL does with the
--     operations is the parameter `Ddl` of Migrations/Reversible.antt.
--   * Sse.antt is the text that both streams of api/events.py write, and GET /events/live.
--     Sse/Client.antt is the reader in the browser, after the HTML standard.
--   * Artifacts.antt is api/artifacts.py; pathlib is its parameter `Files`.
--   * Log.antt and Log/Text.antt are GET of a run's log in api/runs.py.
--   * Routes.antt is `create_app` of app.py with the routers of api/. Config.antt is config.py, with the
--     parameter `Paths` for pathlib, and cli.py. Diagnostics.antt is api/diagnostics.py, and
--     Providers.antt is api/providers.py.
--   * Fixtures.antt and the modules named Tests have concrete instances and runs.
--
-- The Core (z_apply_core), PostgreSQL with SQLAlchemy, and Python's standard library are parameters.
-- A UUID is its 128-bit number, a datetime its number of microseconds, a float its bit pattern.
-- The loop that empties a queue is given as many rounds as the queue has items, which is enough
-- (`drain-items` in Hub/Laws.antt); every other loop is over a list, or is one round per step of the
-- stream's relation; `replay_loop` runs the rounds of the replay on a given number of them.
--
-- Assumed of the surroundings: the theorems of Stream/Delivery.antt are about runs in which event
-- keys grow with the commits and events are published in the order of their commits (`Orderly` in
-- Stream/System.antt, a hypothesis of theirs; writers that overlap may break it: Stream/Late.antt
-- says what is lost then, and Stream/Ascending.antt and Stream/Committed.antt have what holds of
-- any writers). Of the replay loop, the test whether the client is gone is left to the step
-- `disconnect` of that relation: `replay_loop` is of a client that stays. The lock of the hub is
-- never held across a suspension. A transaction is one step, since it locks the rows that it
-- changes; one that fails gives its tables back whole, so the numbers that it drew from a sequence
-- are drawn again, where PostgreSQL skips them.
--
-- The sequences of App/Requests.antt are of requests whose tasks are not cancelled between their
-- steps; Database.antt has a transaction that is.
--
-- Not modelled: the width of text and integer columns in the tables (Schemas/Widths.antt compares the
-- texts of a new run with the declared columns), time zones, the sockets of HTTP and WebSocket, the
-- engine and its pool, alembic/env.py, and of the schema the indexes of the models.
pub mod Api
pub mod App
pub mod Artifacts
pub mod Base
pub mod Browser
pub mod Config
pub mod Database
pub mod Diagnostics
pub mod Fixtures
pub mod Hub
pub mod Human
pub mod Json
pub mod Log
pub mod Migrations
pub mod Models
pub mod Providers
pub mod Repo
pub mod Routes
pub mod Schemas
pub mod Sql
pub mod Sse
pub mod Store
pub mod Stream
pub mod Supervisor
pub mod Vnc
