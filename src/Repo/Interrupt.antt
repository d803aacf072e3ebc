-- ===== src/Repo/Interrupt.antt =====
-- `interrupt_active_runs` of persistence/repositories.py: what a restart does to the runs that the
-- last process left active.
use z_apply_backend.Base.{String, Bool, some, List, [], ◌∷◌, ℕ, str_eq, select, any}
use z_apply_backend.Json.{Python, str, obj, end, field}
use z_apply_backend.Models.{Datetime, RunRow, RunEventRow}
use z_apply_backend.Repo.{Tx, ◌>>=◌, ◌>>◌, pure, tables}
use z_apply_backend.Repo.Events.{next_run_sequence, insert_event, update_run}
use z_apply_backend.Repo.Runs.{row_view_snapshot}
use z_apply_backend.Sql.{Postgres}
use z_apply_backend.Sql.Order.{unordered}

abbrev pub active_statuses : List String
active_statuses = "queued" ∷ "starting" ∷ "running" ∷ "waiting_human" ∷ "human_control" ∷ []

unfoldable pub is_active : RunRow → Bool
is_active row = any (λ s. str_eq row.status s) active_statuses

abbrev pub interrupted_summary : String
interrupted_summary = "Backend restarted while this application was active; it was not retried."

-- The mutation of one row.
unfoldable pub interrupted : Datetime → ℕ → RunRow → RunRow
interrupted occurred_at sequence row = record row {
  status = "terminal";
  phase = "terminal";
  outcome = some "interrupted";
  summary = some interrupted_summary;
  browser_tab_state = "closed";
  latest_run_sequence = sequence;
  finished_at = some occurred_at;
}

unfoldable pub interrupted_event : Python → Datetime → ℕ → RunRow → ℕ → RunEventRow
unfolding interrupted row_view_snapshot
interrupted_event py occurred_at sequence row id = record {
  id = id;
  run_id = row.id;
  run_sequence = sequence;
  occurred_at = occurred_at;
  kind = "run.interrupted";
  source = field "component" (str "backend") (field "reason" (str "process_restart") end);
  level = "warning";
  payload = field "outcome" (str "interrupted") (
      field "summary" (str interrupted_summary) (
        field "view" (obj (row_view_snapshot py (interrupted occurred_at sequence row) sequence))
          end));
}

module _ (pg : Postgres) (py : Python) where
  -- One round of the loop. The query of the next sequence flushes what was added before it.
  unfoldable pub interrupt_run : Datetime → RunRow → Tx RunEventRow
  unfolding interrupted_event interrupted insert_event update_run next_run_sequence
  interrupt_run occurred_at row = do
    db ← tables
    let sequence = next_run_sequence db row.id row.latest_run_sequence
    update_run row.id occurred_at (interrupted occurred_at sequence)
    insert_event pg (interrupted_event py occurred_at sequence row)

  unfoldable pub interrupt_each : Datetime → List RunRow → Tx (List RunEventRow)
  interrupt_each occurred_at [] = pure []
  interrupt_each occurred_at (row ∷ rows) = do
    event ← interrupt_run occurred_at row
    events ← interrupt_each occurred_at rows
    pure (event ∷ events)

  unfoldable pub interrupt_active_runs : Datetime → Tx (List RunEventRow)
  interrupt_active_runs occurred_at = do
    db ← tables
    let rows = pg.order_by unordered (select is_active db.runs)
    interrupt_each occurred_at rows
