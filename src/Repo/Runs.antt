-- ===== src/Repo/Runs.antt =====
-- The table of runs: inserts, queries and the failed start of persistence/repositories.py.
use z_apply_backend.Base.Int.{pos}
use z_apply_backend.Base.{
  ℕ, String, Bool, true, false, Option, none, some, List, ◌&&◌, ◌==◌, str_eq, ltb, select, take,
  find?, get_or, ◌++◌, [], ◌∷◌, if◌then◌else◌,
}
use z_apply_backend.Json.{Python, Value, null, int, str, obj, Fields, end, field, opt_str}
use z_apply_backend.Models.{Uuid, Datetime, RunRow, RunEventRow, Db, CoreRunView}
use z_apply_backend.Repo.{ok, err, Tx, ◌>>=◌, ◌>>◌, pure, tables, accepted, integrity_error}
use z_apply_backend.Repo.Events.{has_run, next_run_sequence, insert_event, update_run}
use z_apply_backend.Sql.{Postgres}
use z_apply_backend.Sql.Order.{desc}

-- The row of a new run; the primary key must be free.
unfoldable pub new_run : Uuid → CoreRunView → RunRow
new_run id view = record {
  id = id;
  job_url = view.job_url;
  task = get_or view.task "";
  company = view.company;
  role = view.role;
  status = view.status;
  phase = view.phase;
  outcome = view.outcome;
  summary = view.summary;
  current_agent = view.current_agent;
  current_model = view.current_model;
  current_provider = view.current_provider;
  browser_tab_state = view.browser_tab_state;
  control_mode = view.control_mode;
  pending_human_request_id = view.pending_human_request_id;
  current_reasoning = view.current_reasoning;
  current_reasoning_effort = view.current_reasoning_effort;
  latest_run_sequence = view.latest_event_sequence;
  created_at = view.created_at;
  started_at = view.started_at;
  finished_at = view.finished_at;
  updated_at = view.created_at;
}

unfoldable pub insert_row : RunRow → Tx Unit
unfolding has_run
insert_row row db =
    if has_run row.id db.runs
    then err integrity_error
    else ok (tt, record db { runs = db.runs ++ row ∷ [] })

unfoldable pub insert_run : Python → CoreRunView → Tx Unit
unfolding insert_row new_run
insert_run py view = do id ← accepted (py.parse_uuid view.run_id); insert_row (new_run id view)

-- `session.get(RunRow, run_id)`
unfoldable pub get_run : Db → Uuid → Option RunRow
get_run db run_id = find? (λ r. r.id == run_id) db.runs

-- The WHERE clause of `list_runs`: `if status:` and `if outcome:` leave out an empty text too, and
-- a missing outcome equals nothing.
abbrev same_text : Option String → String → Bool
same_text none s = false
same_text (some t) s = str_eq t s

abbrev wanted : Option String → Option String → Bool
wanted none column = true
wanted (some s) column = if str_eq s "" then true else same_text column s

abbrev earlier : Option Datetime → Datetime → Bool
earlier none t = true
earlier (some cursor) t = ltb t cursor

unfoldable pub run_filter : Option Datetime → Option String → Option String → RunRow → Bool
run_filter cursor status outcome r =
    earlier cursor r.created_at && wanted status (some r.status) && wanted outcome r.outcome

unfoldable pub list_runs :
    Postgres → Db → ℕ → Option Datetime → Option String → Option String → List RunRow
unfolding run_filter
list_runs pg db limit cursor status outcome = take limit (
    pg.order_by (desc (λ (r : RunRow). r.created_at))
      (select (run_filter cursor status outcome) db.runs))

abbrev iso : Python → Option Datetime → Value
iso py none = null
iso py (some t) = str (py.isoformat t)

-- `_row_view_snapshot`
unfoldable pub row_view_snapshot : Python → RunRow → ℕ → Fields
row_view_snapshot py row latest_event_sequence = field "run_id" (str (py.print_uuid row.id)) (
    field "job_url" (str row.job_url) (
      field "task" (str row.task) (
        field "company" (opt_str row.company) (
          field "role" (opt_str row.role) (
            field "status" (str row.status) (
              field "phase" (str row.phase) (
                field "outcome" (opt_str row.outcome) (
                  field "summary" (opt_str row.summary) (
                    field "current_agent" (opt_str row.current_agent) (
                      field "current_model" (opt_str row.current_model)
                        (field "current_provider" (opt_str row.current_provider) more)))))))))))
  where
    more : Fields
    more = field "browser_tab_state" (str row.browser_tab_state) (
        field "control_mode" (str row.control_mode) (
          field "pending_human_request_id" (opt_str row.pending_human_request_id) (
            field "latest_event_sequence" (int (pos latest_event_sequence)) (
              field "created_at" (str (py.isoformat row.created_at)) (
                field "started_at" (iso py row.started_at) (
                  field "finished_at" (iso py row.finished_at) (
                    field "current_reasoning" (str row.current_reasoning) (
                      field "current_reasoning_effort" (opt_str row.current_reasoning_effort)
                        end))))))))

abbrev pub start_failed_summary : String
start_failed_summary = "Core rejected or failed to start this run."

-- The mutation of the row in `mark_run_start_failed`.
unfoldable pub start_failed : Datetime → ℕ → RunRow → RunRow
start_failed occurred_at sequence row = record row {
  status = "terminal";
  phase = "terminal";
  outcome = some "failed";
  summary = some start_failed_summary;
  latest_run_sequence = sequence;
  finished_at = some occurred_at;
}

module _ (pg : Postgres) (py : Python) where
  unfoldable pub fail_run : Datetime → String → Uuid → RunRow → Tx (Option RunEventRow)
  unfolding start_failed row_view_snapshot insert_event update_run next_run_sequence
  fail_run occurred_at error_code run_id row = do
    db ← tables
    let sequence = next_run_sequence db run_id row.latest_run_sequence
    update_run run_id occurred_at (start_failed occurred_at sequence)
    event ← insert_event pg λ id. record {
      id = id;
      run_id = run_id;
      run_sequence = sequence;
      occurred_at = occurred_at;
      kind = "run.start_failed";
      source = field "component" (str "backend") end;
      level = "error";
      payload = field "error_code" (str error_code) (
          field "view" (obj (row_view_snapshot py (start_failed occurred_at sequence row) sequence))
            end);
    }
    pure (some event)

  unfoldable pub mark_run_start_failed : Datetime → Uuid → String → Tx (Option RunEventRow)
  unfolding fail_run get_run
  mark_run_start_failed occurred_at run_id error_code db = elim (get_run db run_id) [
    | none ↦ pure none db
    | some row ↦ fail_run occurred_at error_code run_id row db
  ]
