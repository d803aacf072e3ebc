-- ===== src/Models.antt =====
-- The rows of persistence/models.py, and the values of the Core's public contract
-- (z_apply_core.integrations) that the backend reads. Of an enumeration of the Core the backend
-- only reads `.value`, so the views below hold that text.
use z_apply_backend.Base.{ℕ, String, Bool, Option, List}
use z_apply_backend.Base.Int.{ℤ}
use z_apply_backend.Json.{Fields}

abbrev pub Uuid : Type 0
Uuid = ℕ

abbrev pub Datetime : Type 0
Datetime = ℕ

-- class RunRow
pub record RunRow : Type 0 where
  pub id : Uuid
  pub job_url : String
  pub task : String
  pub company : Option String
  pub role : Option String
  pub status : String
  pub phase : String
  pub outcome : Option String
  pub summary : Option String
  pub current_agent : Option String
  pub current_model : Option String
  pub current_provider : Option String
  pub browser_tab_state : String
  pub control_mode : String
  pub pending_human_request_id : Option String
  pub current_reasoning : String
  pub current_reasoning_effort : Option String
  pub latest_run_sequence : ℕ
  pub created_at : Datetime
  pub started_at : Option Datetime
  pub finished_at : Option Datetime
  pub updated_at : Datetime

-- class RunEventRow
pub record RunEventRow : Type 0 where
  pub id : ℕ
  pub run_id : Uuid
  pub run_sequence : ℕ
  pub occurred_at : Datetime
  pub kind : String
  pub source : Fields
  pub level : String
  pub payload : Fields

-- class HumanRequestRow
pub record HumanRequestRow : Type 0 where
  pub id : Uuid
  pub run_id : Uuid
  pub kind : String
  pub question : String
  pub context : String
  pub options : List String
  pub risk : String
  pub allow_free_text : Bool
  pub image_artifact_id : Option Uuid
  pub status : String
  pub answer : Option String
  pub approved : Option Bool
  pub responder : Option String
  pub created_at : Datetime
  pub resolved_at : Option Datetime

-- class ArtifactRow
pub record ArtifactRow : Type 0 where
  pub id : Uuid
  pub run_id : Uuid
  pub kind : String
  pub filename : String
  pub relative_path : String
  pub mime_type : String
  pub size_bytes : ℕ
  pub sha256 : String
  pub created_at : Datetime

-- class ModelCallRow; a float is its bit pattern
pub record ModelCallRow : Type 0 where
  pub id : ℕ
  pub run_id : Uuid
  pub sequence : ℕ
  pub agent : String
  pub model : String
  pub provider : String
  pub input_tokens : ℤ
  pub output_tokens : ℤ
  pub cache_read_tokens : ℤ
  pub ttft_ms : Option ℤ
  pub duration_ms : Option ℤ
  pub tok_per_second : Option ℕ
  pub cost_usd : Option ℕ
  pub occurred_at : Datetime

-- The tables, and for each autoincrement key the last number that its sequence gave out.
pub record Db : Type 0 where
  pub runs : List RunRow
  pub events : List RunEventRow
  pub human_requests : List HumanRequestRow
  pub artifacts : List ArtifactRow
  pub model_calls : List ModelCallRow
  pub last_event_id : ℕ
  pub last_call_id : ℕ

-- The Core's view of a run.
pub record CoreRunView : Type 0 where
  pub run_id : String
  pub job_url : String
  pub task : Option String
  pub company : Option String
  pub role : Option String
  pub status : String
  pub phase : String
  pub outcome : Option String
  pub summary : Option String
  pub current_agent : Option String
  pub current_model : Option String
  pub current_provider : Option String
  pub browser_tab_state : String
  pub control_mode : String
  pub pending_human_request_id : Option String
  pub latest_event_sequence : ℕ
  pub created_at : Datetime
  pub started_at : Option Datetime
  pub finished_at : Option Datetime
  pub current_reasoning : String
  pub current_reasoning_effort : Option String

-- An event of the Core.
pub record CoreEvent : Type 0 where
  pub run_id : String
  pub sequence : ℕ
  pub occurred_at : Datetime
  pub kind : String
  pub source : Fields
  pub level : String
  pub payload : Fields

-- A human request and an artifact of the Core, by the Core's opaque identifiers.
pub record CoreHumanRequest : Type 0 where
  pub request_id : String
  pub run_id : String
  pub kind : String
  pub question : String
  pub context : String
  pub options : List String
  pub risk : String
  pub allow_free_text : Bool
  pub image_artifact_id : Option String
  pub status : String
  pub answer : Option String
  pub approved : Option Bool
  pub responder : Option String
  pub created_at : Datetime
  pub resolved_at : Option Datetime

pub record CoreArtifact : Type 0 where
  pub artifact_id : String
  pub run_id : String
  pub kind : String
  pub filename : String
  pub relative_path : String
  pub mime_type : String
  pub size_bytes : ℕ
  pub sha256 : String
  pub created_at : Datetime
