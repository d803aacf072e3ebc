-- ===== src/Fixtures.antt =====
-- Concrete parameters and small tables, for the tests and the witnesses.
use Prim.Native.Char.{code}
use Prim.Native.String as Str
use z_apply_backend.Base.Int.{ℤ}
use z_apply_backend.Base.{
  ℕ, zero, suc, ◌≡◌, refl, ap, String, Option, none, some, [], ◌∷◌, ◌==◌, str_eq, arith,
  if◌then◌else◌, true,
}
use z_apply_backend.Hub.{StoredEvent}
use z_apply_backend.Json.{Value, str, int, end, Python}
use z_apply_backend.Models.{RunRow, RunEventRow, Db, CoreRunView, CoreEvent, CoreArtifact}
use z_apply_backend.Repo.Events.{has_run, has_sequence}
use z_apply_backend.Repo.Valid.{IsValid}
use z_apply_backend.Store.{Core}
use z_apply_backend.Supervisor.{StartRunRequest, RunSupervisor, Defaults}

-- A UUID written as so many marks.
abbrev unary : ℕ → String
unary zero = ""
unary (suc n) = Str.◌∷◌ "x" (unary n)

abbrev bump : Option ℕ → Option ℕ
bump none = none
bump (some n) = some (suc n)

abbrev marks : String → Option ℕ
marks Str.[] = some 0
marks (Str.◌∷◌ c s) = if code c == 120 then bump (marks s) else none

pub marks-unary : (n : ℕ) → marks (unary n) ≡ some n
marks-unary zero = refl
marks-unary (suc n) = ap bump (marks-unary n)

abbrev text_of : Value → String
text_of (str s) = s
text_of _ = "?"

abbrev int_of : Value → Option ℤ
int_of (int n) = some n
int_of _ = none

abbrev pub python : Python
python = record {
  parse_uuid = marks;
  print_uuid = unary;
  parse-print = marks-unary;
  isoformat = unary;
  str_of = text_of;
  str_of-str = λ s. refl;
  int_of = int_of;
  int_of-int = λ n. refl;
}

abbrev pub view : String → String → CoreRunView
view run_id status = record {
  run_id = run_id;
  job_url = "https://jobs.example/1";
  task = some "apply";
  company = none;
  role = none;
  status = status;
  phase = "browsing";
  outcome = none;
  summary = none;
  current_agent = some "navigator";
  current_model = none;
  current_provider = none;
  browser_tab_state = "open";
  control_mode = "agent";
  pending_human_request_id = none;
  latest_event_sequence = 1;
  created_at = 10;
  started_at = some 11;
  finished_at = none;
  current_reasoning = "auto";
  current_reasoning_effort = none;
}

abbrev pub event : String → ℕ → CoreEvent
event run_id sequence = record {
  run_id = run_id;
  sequence = sequence;
  occurred_at = 20;
  kind = "agent.step";
  source = end;
  level = "info";
  payload = end;
}

-- A Core that knows the run "xx" only.
abbrev known : String → Option ℕ
known run_id = if str_eq run_id "xx" then some 0 else none

abbrev pub core : Core
core = record {
  Handle = ℕ;
  get_run = known;
  view = λ _. some (view "xx" "running");
  human_requests = λ _. some [];
  artifacts = λ _. none;
  to_dict = λ e. e.payload;
}

abbrev pub run_row : ℕ → String → RunRow
run_row id status = record {
  id = id;
  job_url = "https://jobs.example/1";
  task = "apply";
  company = none;
  role = none;
  status = status;
  phase = "browsing";
  outcome = none;
  summary = none;
  current_agent = none;
  current_model = none;
  current_provider = none;
  browser_tab_state = "open";
  control_mode = "agent";
  pending_human_request_id = none;
  current_reasoning = "auto";
  current_reasoning_effort = none;
  latest_run_sequence = 1;
  created_at = 10;
  started_at = some 11;
  finished_at = none;
  updated_at = 12;
}

abbrev pub event_row : ℕ → ℕ → ℕ → RunEventRow
event_row id run_id sequence = record {
  id = id;
  run_id = run_id;
  run_sequence = sequence;
  occurred_at = 15;
  kind = "run.created";
  source = end;
  level = "info";
  payload = end;
}

-- A running run and a finished one, with two events of the first.
abbrev pub two_runs : Db
two_runs = record {
  runs = run_row 2 "running" ∷ run_row 3 "terminal" ∷ [];
  events = event_row 1 2 1 ∷ event_row 4 2 2 ∷ [];
  human_requests = [];
  artifacts = [];
  model_calls = [];
  last_event_id = 5;
  last_call_id = 0;
}

pub two_runs-IsValid : IsValid two_runs
unfolding has_sequence has_run
two_runs-IsValid = record {
  ordered = ((refl, tt), (tt, tt));
  numbered = (ground arith, (ground arith, tt));
  sequences = (refl, (refl, tt));
  owned = (refl, (refl, tt));
  keys = (refl, (refl, tt));
}

abbrev pub stored_event : ℕ → StoredEvent
stored_event id = record { id = id; event_type = "agent.step"; body = end }

abbrev pub defaults : Defaults
defaults = record {
  status_queued = "queued";
  phase_queued = "queued";
  tab_pending = "pending";
  agent_control = "agent_control";
  reasoning = "auto";
  reasoning_effort = none;
}

abbrev pub request : StartRunRequest
request = record { job_url = "https://jobs.example/2"; task = none; provider = none; model = none }

abbrev pub supervisor : RunSupervisor
supervisor = record { accepting = true; observers = [] }

abbrev pub screenshot : CoreArtifact
screenshot = record {
  artifact_id = "xxxxxxx";
  run_id = "xx";
  kind = "screenshot";
  filename = "page.png";
  relative_path = "xx/page.png";
  mime_type = "image/png";
  size_bytes = 9;
  sha256 = "00";
  created_at = 21;
}
