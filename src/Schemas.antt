-- ===== src/Schemas.antt =====
-- schemas.py: the wire forms of runs and events.
pub mod Agreement
pub mod Bodies
pub mod Reasoning
pub mod Rows
pub mod Widths
mod Tests
use z_apply_backend.Base.Int.{pos}
use z_apply_backend.Base.{
  ℕ, String, Bool, true, false, Option, none, some, List, [], ◌∷◌, ◌&&◌, any, get_or, str_eq,
  if◌then◌else◌,
}
use z_apply_backend.Json.{Fields, end, field, str, int, obj, Python}
use z_apply_backend.Models.{Uuid, Datetime, RunRow, RunEventRow, CoreRunView}

-- `serialize_event_row`: RunEventResponse.from_row(row).to_wire()
unfoldable pub serialize_event_row : Python → RunEventRow → Fields
serialize_event_row py row = field "database_id" (int (pos row.id)) (
    field "run_id" (str (py.print_uuid row.run_id)) (
      field "sequence" (int (pos row.run_sequence)) (
        field "occurred_at" (str (py.isoformat row.occurred_at)) (
          field "type" (str row.kind) (
            field "source" (obj row.source)
              (field "level" (str row.level) (field "payload" (obj row.payload) end)))))))

-- class RunResponse
pub record RunResponse : Type 0 where
  pub id : Uuid
  pub job_url : String
  pub task : String
  pub company : Option String
  pub role : Option String
  pub status : String
  pub phase : String
  pub outcome : Option String
  pub summary : Option String
  pub current_agent : Option String
  pub current_model : Option String
  pub current_provider : Option String
  pub browser_tab_state : String
  pub control_mode : String
  pub pending_human_request_id : Option String
  pub latest_run_sequence : ℕ
  pub created_at : Datetime
  pub started_at : Option Datetime
  pub finished_at : Option Datetime
  pub current_reasoning : String
  pub current_reasoning_effort : Option String

abbrev pub reasonings : List String
reasonings = "auto" ∷ "off" ∷ "on" ∷ []

abbrev pub efforts : List String
efforts = "low" ∷ "medium" ∷ "high" ∷ "max" ∷ []

abbrev pub effort_allowed : Option String → Bool
effort_allowed none = true
effort_allowed (some e) = any (str_eq e) efforts

-- The two Literal fields are all that the validation of a response can refuse.
unfoldable pub validated : RunResponse → Option RunResponse
validated r =
    if any (str_eq r.current_reasoning) reasonings && effort_allowed r.current_reasoning_effort
    then some r
    else none

-- `RunResponse.from_core_view(view)`; `none` is a ValidationError.
unfoldable pub from_core_view : Python → CoreRunView → Option RunResponse
from_core_view py view = elim (py.parse_uuid view.run_id) [
  | none ↦ none
  | some id ↦ validated (record {
    id = id;
    job_url = view.job_url;
    task = get_or view.task "";
    company = view.company;
    role = view.role;
    status = view.status;
    phase = view.phase;
    outcome = view.outcome;
    summary = view.summary;
    current_agent = view.current_agent;
    current_model = view.current_model;
    current_provider = view.current_provider;
    browser_tab_state = view.browser_tab_state;
    control_mode = view.control_mode;
    pending_human_request_id = view.pending_human_request_id;
    latest_run_sequence = view.latest_event_sequence;
    created_at = view.created_at;
    started_at = view.started_at;
    finished_at = view.finished_at;
    current_reasoning = view.current_reasoning;
    current_reasoning_effort = view.current_reasoning_effort;
  })
]

-- `RunResponse.model_validate(row)`
unfoldable pub from_row : RunRow → Option RunResponse
from_row row = validated (record {
  id = row.id;
  job_url = row.job_url;
  task = row.task;
  company = row.company;
  role = row.role;
  status = row.status;
  phase = row.phase;
  outcome = row.outcome;
  summary = row.summary;
  current_agent = row.current_agent;
  current_model = row.current_model;
  current_provider = row.current_provider;
  browser_tab_state = row.browser_tab_state;
  control_mode = row.control_mode;
  pending_human_request_id = row.pending_human_request_id;
  latest_run_sequence = row.latest_run_sequence;
  created_at = row.created_at;
  started_at = row.started_at;
  finished_at = row.finished_at;
  current_reasoning = row.current_reasoning;
  current_reasoning_effort = row.current_reasoning_effort;
})
