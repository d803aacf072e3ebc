-- ===== src/Repo/Events.antt =====
-- The table of run events: inserts and queries of persistence/repositories.py.
use mathlib.Core.List.{reverse}
use z_apply_backend.Base.{
  ℕ, ◌+◌, Bool, true, Option, none, some, List, [], ◌∷◌, ◌++◌, ◌&&◌, max, ◌==◌, ltb, select, take,
  any, get_or, max_of, update_where, if◌then◌else◌,
}
use z_apply_backend.Json.{Python}
use z_apply_backend.Models.{Uuid, Datetime, RunRow, RunEventRow, Db, CoreRunView, CoreEvent}
use z_apply_backend.Repo.{ok, err, Tx, ◌>>=◌, ◌>>◌, pure, accepted, integrity_error}
use z_apply_backend.Sql.{Postgres}
use z_apply_backend.Sql.Order.{asc, desc}

-- `_run_values(view)` as the SET clause that it is used for.
unfoldable pub run_values : CoreRunView → RunRow → RunRow
run_values view row = record row {
  job_url = view.job_url;
  task = get_or view.task "";
  company = view.company;
  role = view.role;
  status = view.status;
  phase = view.phase;
  outcome = view.outcome;
  summary = view.summary;
  current_agent = view.current_agent;
  current_model = view.current_model;
  current_provider = view.current_provider;
  browser_tab_state = view.browser_tab_state;
  control_mode = view.control_mode;
  pending_human_request_id = view.pending_human_request_id;
  latest_run_sequence = view.latest_event_sequence;
  started_at = view.started_at;
  finished_at = view.finished_at;
  current_reasoning = view.current_reasoning;
  current_reasoning_effort = view.current_reasoning_effort;
}

-- The foreign key of `run_events.run_id`, and `uq_run_events_sequence`.
unfoldable pub has_run : Uuid → List RunRow → Bool
has_run run_id = any (λ r. r.id == run_id)

unfoldable pub has_sequence : Uuid → ℕ → List RunEventRow → Bool
has_sequence run_id sequence = any (λ e. (e.run_id == run_id) && (e.run_sequence == sequence))

unfoldable pub max_event_id : Db → ℕ
max_event_id db = get_or (max_of (λ (e : RunEventRow). e.id) db.events) 0

-- `_next_run_sequence`
unfoldable pub next_run_sequence : Db → Uuid → ℕ → ℕ
next_run_sequence db run_id cached = max cached (get_or durable 0) + 1
  where
    durable : Option ℕ
    durable =
        max_of (λ (e : RunEventRow). e.run_sequence) (select (λ e. e.run_id == run_id) db.events)

-- `updated_at` has `onupdate=func.now()`.
unfoldable pub update_run : Uuid → Datetime → (RunRow → RunRow) → Tx Unit
update_run run_id now change db = ok (
  tt,
  record db {
    runs = update_where (λ r. r.id == run_id) (λ r. record (change r) { updated_at = now }) db.runs;
  },
)

-- The WHERE clause of `list_events`: `if after:` and `if run_id:` leave a part out.
unfoldable pub event_filter : ℕ → Option Uuid → RunEventRow → Bool
event_filter after run_id e =
    (if after == 0 then true else ltb after e.id)
    && (elim run_id [ none ↦ true | some r ↦ e.run_id == r ])

module _ (pg : Postgres) where
  -- The INSERT of a row that `session.add` holds, with the key that the sequence gives it.
  unfoldable pub insert_event : (ℕ → RunEventRow) → Tx RunEventRow
  unfolding has_run has_sequence
  insert_event make db =
      if has_run row.run_id db.runs
      then (if has_sequence row.run_id row.run_sequence db.events
          then err integrity_error
          else ok (row, added))
      else err integrity_error
    where
      row : RunEventRow
      row = make (pg.nextval db.last_event_id)

      added : Db
      added = record db {
        events = db.events ++ row ∷ [];
        last_event_id = pg.nextval db.last_event_id;
      }

  unfoldable pub persist_event : Python → Datetime → CoreEvent → CoreRunView → Tx RunEventRow
  persist_event py now event view = do
    run_id ← accepted (py.parse_uuid event.run_id)
    row ← insert_event λ id. record {
      id = id;
      run_id = run_id;
      run_sequence = event.sequence;
      occurred_at = event.occurred_at;
      kind = event.kind;
      source = event.source;
      level = event.level;
      payload = event.payload;
    }
    update_run run_id now (run_values view)
    pure row

  unfoldable pub list_events : Db → ℕ → Option Uuid → ℕ → Bool → List RunEventRow
  unfolding event_filter
  list_events db after run_id limit newest_first =
      if newest_first
      then reverse (take limit (pg.order_by (desc (λ e. e.id)) matching))
      else take limit (pg.order_by (asc (λ e. e.id)) matching)
    where
      matching : List RunEventRow
      matching = select (event_filter after run_id) db.events
