-- ===== src/Schemas/Tests.antt =====
-- Some bodies of requests.
use z_apply_backend.Json.{Fields, str, null, end, field, get, get_or_null}
use z_apply_backend.Migrations.Declared.{declared}
use z_apply_backend.Migrations.{runs}
use z_apply_backend.Schemas.Bodies.{
  Pydantic, StartRunBody, map_some, required, optional, nullable, text, start_run_body,
  start_request, answer_body, reasoning_body,
}
use z_apply_backend.Schemas.Reasoning.{settings_of, asked, reasoning_body-validated}
use z_apply_backend.Schemas.Widths.{Fits, texts, IsShort, new_run-Fits}
use z_apply_backend.Supervisor.{queued_view}
use z_apply_backend.Base.{◌≡◌, refl, All, arith, some, none}
use z_apply_backend.Fixtures.{python, defaults}
use z_apply_backend.Repo.Runs.{new_run}
use z_apply_backend.Schemas.{RunResponse, validated}

-- An HttpUrl is any text here, and a UUID is read as in the other tests.
abbrev pydantic : Pydantic
pydantic = record { http_url = some; uuid = python.parse_uuid }

abbrev fields : Fields
fields =
    field "job_url" (str "https://jobs.example/1")
      (field "provider" (str "openai") (field "task" null end))

abbrev body : StartRunBody
body = record {
  job_url = "https://jobs.example/1";
  task = none;
  provider = some "openai";
  model = none;
}

fields_read : start_run_body pydantic fields ≡ some body
unfolding start_run_body required optional nullable text get get_or_null
fields_read = refl

-- An empty answer, and one that is not a text, are refused.
empty_answer : answer_body (field "answer" (str "") end) ≡ none
unfolding answer_body required text get
empty_answer = refl

null_answer : answer_body (field "answer" null end) ≡ none
unfolding answer_body required text get
null_answer = refl

defaults-IsShort : IsShort defaults
defaults-IsShort = record {
  status = omega arith;
  phase = omega arith;
  tab = omega arith;
  control = omega arith;
  reasoning = omega arith;
  effort = omega arith;
}

new_run-Fits_example :
    All
      (Fits (declared runs))
      (texts (new_run 5 (queued_view defaults (start_request body) "xxxxx" 40)))
new_run-Fits_example =
    new_run-Fits pydantic defaults fields body 5 "xxxxx" 40 defaults-IsShort fields_read

abbrev response : RunResponse
response = record {
  id = 2;
  job_url = "https://jobs.example/1";
  task = "apply";
  company = none;
  role = none;
  status = "running";
  phase = "browsing";
  outcome = none;
  summary = none;
  current_agent = none;
  current_model = none;
  current_provider = none;
  browser_tab_state = "open";
  control_mode = "agent";
  pending_human_request_id = none;
  latest_run_sequence = 1;
  created_at = 10;
  started_at = some 11;
  finished_at = none;
  current_reasoning = "off";
  current_reasoning_effort = some "max";
}

reasoning_body-validated_example :
    reasoning_body (settings_of response) ≡ map_some asked (validated response)
reasoning_body-validated_example = reasoning_body-validated response
