-- ===== src/Schemas/Rows.antt =====
-- The responses of schemas.py that are made from the rows of human requests and artifacts.
use z_apply_backend.Base.Int.{pos}
use z_apply_backend.Base.{ℕ, String, Bool, Option, none, some, List, [], ◌∷◌}
use z_apply_backend.Json.{
  Python, Value, Fields, Elements, null, bool, int, str, arr, no_elements, element, field, end,
  opt_str,
}
use z_apply_backend.Models.{Uuid, Datetime, HumanRequestRow, ArtifactRow}

-- class HumanRequestResponse
pub record HumanRequestResponse : Type 0 where
  pub request_id : String
  pub run_id : String
  pub kind : String
  pub question : String
  pub context : String
  pub options : List String
  pub risk : String
  pub allow_free_text : Bool
  pub image_artifact_id : Option String
  pub status : String
  pub answer : Option String
  pub approved : Option Bool
  pub responder : Option String
  pub created_at : Datetime
  pub resolved_at : Option Datetime

-- A UUID is always true in Python.
abbrev printed : Python → Option Uuid → Option String
printed py none = none
printed py (some id) = some (py.print_uuid id)

unfoldable pub human_from_row : Python → HumanRequestRow → HumanRequestResponse
human_from_row py row = record {
  request_id = py.print_uuid row.id;
  run_id = py.print_uuid row.run_id;
  kind = row.kind;
  question = row.question;
  context = row.context;
  options = row.options;
  risk = row.risk;
  allow_free_text = row.allow_free_text;
  image_artifact_id = printed py row.image_artifact_id;
  status = row.status;
  answer = row.answer;
  approved = row.approved;
  responder = row.responder;
  created_at = row.created_at;
  resolved_at = row.resolved_at;
}

-- class ArtifactResponse
pub record ArtifactResponse : Type 0 where
  pub artifact_id : String
  pub run_id : String
  pub kind : String
  pub filename : String
  pub relative_path : String
  pub mime_type : String
  pub size_bytes : ℕ
  pub sha256 : String
  pub created_at : Datetime

unfoldable pub artifact_from_row : Python → ArtifactRow → ArtifactResponse
artifact_from_row py row = record {
  artifact_id = py.print_uuid row.id;
  run_id = py.print_uuid row.run_id;
  kind = row.kind;
  filename = row.filename;
  relative_path = row.relative_path;
  mime_type = row.mime_type;
  size_bytes = row.size_bytes;
  sha256 = row.sha256;
  created_at = row.created_at;
}

options_of : List String → Elements
options_of [] = no_elements
options_of (s ∷ options) = element (str s) (options_of options)

opt_bool : Option Bool → Value
opt_bool none = null
opt_bool (some b) = bool b

opt_time : Python → Option Datetime → Value
opt_time py none = null
opt_time py (some t) = str (py.isoformat t)

-- HumanRequestResponse.to_wire; the encoder of the answer writes a datetime by `isoformat`.
unfoldable pub human_to_wire : Python → HumanRequestResponse → Fields
unfolding options_of opt_bool opt_time
human_to_wire py r = field "request_id" (str r.request_id) (
    field "run_id" (str r.run_id) (
      field "kind" (str r.kind) (
        field "question" (str r.question) (
          field "context" (str r.context) (
            field "options" (arr (options_of r.options)) (
              field "risk" (str r.risk) (
                field "allow_free_text" (bool r.allow_free_text) (
                  field "image_artifact_id" (opt_str r.image_artifact_id) (
                    field "status" (str r.status) (
                      field "answer" (opt_str r.answer) (
                        field "approved" (opt_bool r.approved) (
                          field "responder" (opt_str r.responder) (
                            field "created_at" (str (py.isoformat r.created_at))
                              (field "resolved_at" (opt_time py r.resolved_at) end))))))))))))))

unfoldable pub serialize_human_row : Python → HumanRequestRow → Fields
unfolding human_from_row human_to_wire
serialize_human_row py row = human_to_wire py (human_from_row py row)

-- ArtifactResponse.to_wire
unfoldable pub artifact_to_wire : Python → ArtifactResponse → Fields
artifact_to_wire py r = field "artifact_id" (str r.artifact_id) (
    field "run_id" (str r.run_id) (
      field "kind" (str r.kind) (
        field "filename" (str r.filename) (
          field "relative_path" (str r.relative_path) (
            field "mime_type" (str r.mime_type) (
              field "size_bytes" (int (pos r.size_bytes)) (
                field "sha256" (str r.sha256)
                  (field "created_at" (str (py.isoformat r.created_at)) end))))))))

unfoldable pub serialize_artifact_row : Python → ArtifactRow → Fields
unfolding artifact_from_row artifact_to_wire
serialize_artifact_row py row = artifact_to_wire py (artifact_from_row py row)
