-- ===== src/Api/Tests.antt =====
-- A run that the Core holds, and the same run after the Core has let go of it; and a run that is
-- posted.
use z_apply_backend.Api.{refused, response}
use z_apply_backend.Api.Started.{handled, post_run, asked, post_run-started, post_run-refused}
use z_apply_backend.Base.{true, false, String, All}
use z_apply_backend.Fixtures.{defaults, supervisor, two_runs-IsValid}
use z_apply_backend.Human.{Raised, integration_error}
use z_apply_backend.Hub.{EventHub, init, publish}
use z_apply_backend.Json.{Fields, str, end, field, get, get_or_null}
use z_apply_backend.Migrations.{runs}
use z_apply_backend.Migrations.Declared.{declared}
use z_apply_backend.Models.{RunEventRow}
use z_apply_backend.Repo.Events.{has_run}
use z_apply_backend.Repo.Failed.{Failed}
use z_apply_backend.Repo.Valid.{IsValid}
use z_apply_backend.Schemas.{RunResponse, from_core_view, validated}
use z_apply_backend.Schemas.Bodies.{
  Pydantic, StartRunBody, required, optional, nullable, text, start_run_body, start_request,
}
use z_apply_backend.Schemas.Widths.{Fits, texts, IsShort}
use z_apply_backend.Sql.Sorting.{in_memory}
use z_apply_backend.Store.{Backend}
use z_apply_backend.Supervisor.{failed_event, queued_view}
use z_apply_backend.Supervisor.Start.{create-inserted}
use z_apply_backend.Base.{arith}
use z_apply_backend.Api.{get_run_detail}
use z_apply_backend.Api.Forgotten.{get_run_detail-forgotten}
use z_apply_backend.Base.{◌≡◌, refl, some, none, [], ◌∷◌}
use z_apply_backend.Fixtures.{python, core, view, two_runs}
use z_apply_backend.Models.{RunRow, Db}
use z_apply_backend.Repo.Events.{run_values}
use z_apply_backend.Repo.Runs.{get_run, new_run}
use z_apply_backend.Store.{Core}

abbrev empty_core : Core
empty_core = record core { get_run = λ run_id. none }

abbrev row : RunRow
row = record (run_values (view "xx" "running") (new_run 2 (view "xx" "queued"))) { updated_at = 30 }

abbrev db : Db
db = record two_runs { runs = row ∷ [] }

db-get_run : get_run db 2 ≡ some row
unfolding get_run run_values new_run
db-get_run = refl

get_run_detail-forgotten_example :
    get_run_detail python core db 2 ≡ get_run_detail python empty_core db 2
get_run_detail-forgotten_example =
    get_run_detail-forgotten python db 2 core empty_core 0 (view "xx" "queued")
      (view "xx" "running") 30 refl refl refl db-get_run refl refl

abbrev holding : Core
holding = record core { get_run = λ run_id. some 0; view = λ handle. some (view "xxxxx" "running") }

abbrev pydantic : Pydantic
pydantic = record { http_url = some; uuid = python.parse_uuid }

abbrev fields : Fields
fields = field "job_url" (str "https://jobs.example/2") end

abbrev body : StartRunBody
body = record { job_url = "https://jobs.example/2"; task = none; provider = none; model = none }

fields_read : start_run_body pydantic fields ≡ some body
unfolding start_run_body required optional nullable text get get_or_null
fields_read = refl

abbrev backend : Backend
backend = record { db = two_runs; hub = init 2 }

free : has_run 5 two_runs.runs ≡ false
unfolding has_run
free = refl

abbrev stay : Backend → Backend
stay b = b

abbrev classes : String → Raised
classes name class' = true

abbrev shown : RunResponse
shown = record {
  id = 5;
  job_url = "https://jobs.example/1";
  task = "apply";
  company = none;
  role = none;
  status = "running";
  phase = "browsing";
  outcome = none;
  summary = none;
  current_agent = some "navigator";
  current_model = none;
  current_provider = none;
  browser_tab_state = "open";
  control_mode = "agent";
  pending_human_request_id = none;
  latest_run_sequence = 1;
  created_at = 10;
  started_at = some 11;
  finished_at = none;
  current_reasoning = "auto";
  current_reasoning_effort = none;
}

shown_valid : from_core_view python (view "xxxxx" "running") ≡ some shown
unfolding from_core_view validated
shown_valid = refl

defaults-IsShort : IsShort defaults
defaults-IsShort = record {
  status = omega arith;
  phase = omega arith;
  tab = omega arith;
  control = omega arith;
  reasoning = omega arith;
  effort = omega arith;
}

abbrev reached : Backend
reached =
    asked in_memory python core pydantic classes defaults 5 40 41 stay fields body supervisor
      backend fields_read refl free

post_run-started_example :
    (post_run in_memory python holding pydantic classes defaults 5 40 41 none stay fields supervisor
        backend
      ≡ (handled (response shown), (record supervisor { observers = 5 ∷ [] }, reached)))
    × IsValid reached.db
    × ((row : RunRow) × (get_run reached.db 5 ≡ some row) × All (Fits (declared runs)) (texts row))
post_run-started_example =
    post_run-started in_memory python holding pydantic classes defaults 5 40 41 stay fields body
      supervisor backend fields_read refl free 0 (view "xxxxx" "running") shown two_runs-IsValid
      defaults-IsShort refl refl shown_valid

abbrev new_row : RunRow
new_row = new_run 5 (queued_view defaults (start_request body) "xxxxx" 40)

reached-IsValid : IsValid reached.db
reached-IsValid =
    let (c, v, g) =
      create-inserted in_memory python defaults 5 40 41 (start_request body) none stay supervisor
        backend refl free two_runs-IsValid in
    v

reached_found : get_run reached.db 5 ≡ some new_row
reached_found =
    let (c, v, g) =
      create-inserted in_memory python defaults 5 40 41 (start_request body) none stay supervisor
        backend refl free two_runs-IsValid in
    g

post_run-refused_example :
    (event : RunEventRow) × (db' : Db) × (hub : EventHub) × (post_run in_memory python core pydantic
        classes defaults 5 40 41
        (some "CoreShuttingDown")
        stay
        fields
        supervisor
        backend
      ≡ (
        handled (refused (integration_error (classes "CoreShuttingDown"))),
        (supervisor, record { db = db'; hub = hub }),
      ))
    × Failed in_memory python 41 "CoreShuttingDown" 5 reached.db new_row event db'
    × (publish reached.hub (failed_event python event) ≡ some hub)
post_run-refused_example =
    post_run-refused in_memory python core pydantic classes defaults 5 40 41 stay fields body
      supervisor backend fields_read refl free "CoreShuttingDown" new_row reached-IsValid
      reached_found
