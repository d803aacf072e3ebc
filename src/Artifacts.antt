-- ===== src/Artifacts.antt =====
-- api/artifacts.py: the list of a run's artifacts, and the file of one.
pub mod Inside
mod Tests
use z_apply_backend.Api.{Answer, refused, response, run_missing}
use z_apply_backend.Base.{
  String, Bool, true, false, not, ◌||◌, ◌&&◌, Option, none, some, List, [], ◌∷◌, map, str_eq,
  if◌then◌else◌,
}
use z_apply_backend.Human.{HttpError}
use z_apply_backend.Json.{Fields, Python}
use z_apply_backend.Models.{Uuid, RunRow, ArtifactRow, Db}
use z_apply_backend.Repo.Records.{get_artifact, list_artifacts}
use z_apply_backend.Repo.Runs.{get_run}
use z_apply_backend.Schemas.Rows.{serialize_artifact_row}
use z_apply_backend.Sql.{Postgres}

-- pathlib: `/`, `resolve()`, `parts` and `is_file()`. A resolved path has no part "..", whatever
-- links it went through.
pub record Files : Type 1 where
  pub Path' : Type 0
  pub slash : Path' → String → Path'
  pub resolve : Path' → Path'
  pub parts : Path' → List String
  pub is_file : Path' → Bool

-- `is_relative_to` compares the parts.
unfoldable pub begins : List String → List String → Bool
begins [] parts = true
begins (p ∷ prefix) [] = false
begins (p ∷ prefix) (q ∷ parts) = str_eq p q && begins prefix parts

-- FileResponse
pub record FileResponse (files : Files) : Type 0 where
  pub path : files.Path'
  pub media_type : String
  pub filename : String

abbrev pub artifact_missing : HttpError
artifact_missing = record { status = 404; code = "artifact_not_found" }

-- `GET /runs/{run_id}/artifacts`
unfoldable pub listed : Postgres → Python → Db → Uuid → Option RunRow → Answer (List Fields)
listed pg py db run_id none = refused run_missing
listed pg py db run_id (some run) =
    response (map (serialize_artifact_row py) (list_artifacts pg db run_id))

unfoldable pub artifacts : Postgres → Python → Db → Uuid → Answer (List Fields)
artifacts pg py db run_id = listed pg py db run_id (get_run db run_id)

module _ (files : Files) where
  -- What is sent for a row, by the resolved path of its file.
  unfoldable pub guarded : files.Path' → files.Path' → ArtifactRow → Answer (FileResponse files)
  unfolding begins
  guarded root path item =
      if not (begins (files.parts root) (files.parts path)) || not (files.is_file path)
      then refused artifact_missing
      else response (record { path = path; media_type = item.mime_type; filename = item.filename })

  unfoldable pub file_of : files.Path' → Option ArtifactRow → Answer (FileResponse files)
  file_of root none = refused artifact_missing
  file_of root (some item) = guarded root (files.resolve (files.slash root item.relative_path)) item

  -- `GET /artifacts/{artifact_id}`; `artifact_root` is the setting.
  unfoldable pub artifact : files.Path' → Db → Uuid → Answer (FileResponse files)
  artifact artifact_root db artifact_id =
      file_of (files.resolve artifact_root) (get_artifact db artifact_id)
