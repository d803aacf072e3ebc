-- ===== src/Log/Tests.antt =====
-- The log of a run with a text of two lines.
use z_apply_backend.Api.{response}
use z_apply_backend.Base.{
  ℕ, String, ◌≡◌, ◌≢◌, refl, arith, some, List, [], ◌∷◌, map, take, select, All,
}
use z_apply_backend.Fixtures.{python, run_row, event_row, two_runs}
use z_apply_backend.Json.{str, field, end, or_else, get_or_null}
use z_apply_backend.Log.{
  run_log, render_log_line, agent_name, tool_name, tool_status, phase_name, question_kind,
  evidence_status, get_default, output_status,
}
use z_apply_backend.Log.Lines.{Unbroken, lines_of, run_log-lines}
use z_apply_backend.Models.{Datetime, RunEventRow, Db}
use z_apply_backend.Repo.Events.{event_filter, has_sequence, has_run}
use z_apply_backend.Repo.Runs.{get_run}
use z_apply_backend.Repo.Valid.{IsValid}
use z_apply_backend.Sql.Sorting.{in_memory}

abbrev clock : Datetime → String
clock t = "12:00:00"

-- Two lines of a turn, and a tool whose input has two lines.
abbrev turn : RunEventRow
turn = record (event_row 1 2 1) {
  kind = "agent.turn";
  payload = field "text" (str "first\nsecond") (field "agent" (str "planner") end);
}

abbrev tool : RunEventRow
tool = record (event_row 4 2 2) {
  kind = "tool.started";
  payload = field "tool_name" (str "click") (field "input" (str "a\nb") end);
}

abbrev db : Db
db = record two_runs { events = turn ∷ tool ∷ [] }

db-IsValid : IsValid db
unfolding has_sequence has_run
db-IsValid = record {
  ordered = ((refl, tt), (tt, tt));
  numbered = (ground arith, (ground arith, tt));
  sequences = (refl, (refl, tt));
  owned = (refl, (refl, tt));
  keys = (refl, (refl, tt));
}

abbrev rows : List RunEventRow
rows = take 10 (select (event_filter 0 (some 2)) db.events)

known : get_run db 2 ≡ some (run_row 2 "running")
unfolding get_run
known = refl

turn-Unbroken : Unbroken python clock turn
unfolding agent_name tool_name tool_status phase_name question_kind evidence_status or_else
    get_or_null get_default output_status
turn-Unbroken = record {
  time = refl;
  kind = refl;
  agent = refl;
  tool = refl;
  outcome = refl;
  phase = refl;
  question = refl;
  evidence = refl;
}

tool-Unbroken : Unbroken python clock tool
unfolding agent_name tool_name tool_status phase_name question_kind evidence_status or_else
    get_or_null get_default output_status
tool-Unbroken = record {
  time = refl;
  kind = refl;
  agent = refl;
  tool = refl;
  outcome = refl;
  phase = refl;
  question = refl;
  evidence = refl;
}

unbroken : All (Unbroken python clock) rows
unfolding event_filter
unbroken = (turn-Unbroken, (tool-Unbroken, tt))

some_row : rows ≢ []
unfolding event_filter
some_row e = cc

run_log-lines_example :
    (text : List ℕ) × (run_log in_memory python clock db 2 10 ≡ response text)
    × (lines_of text ≡ map (render_log_line python clock) rows)
run_log-lines_example =
    run_log-lines in_memory python clock db db-IsValid 2 10 (run_row 2 "running") known some_row
      unbroken
