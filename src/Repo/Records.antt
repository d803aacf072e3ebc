-- ===== src/Repo/Records.antt =====
-- Human requests and artifacts: the upserts and queries of persistence/repositories.py.
use z_apply_backend.Base.{
  Bool, true, Option, none, some, List, [], ◌∷◌, ◌++◌, ◌==◌, any, find?, select, update_where,
  if◌then◌else◌, String,
}
use z_apply_backend.Json.{Python}
use z_apply_backend.Models.{Uuid, HumanRequestRow, ArtifactRow, Db, CoreHumanRequest, CoreArtifact}
use z_apply_backend.Repo.{err, ok, Tx, ◌>>=◌, pure, accepted, integrity_error}
use z_apply_backend.Repo.Events.{has_run}
use z_apply_backend.Sql.{Postgres}
use z_apply_backend.Sql.Order.{asc}

-- The foreign key of `human_requests.image_artifact_id`.
unfoldable pub has_image : Option Uuid → List ArtifactRow → Bool
has_image none artifacts = true
has_image (some id) artifacts = any (λ a. a.id == id) artifacts

-- ON CONFLICT (id) DO UPDATE: everything but `id` and `run_id` is taken from the new row.
unfoldable pub store_human : HumanRequestRow → Tx Unit
unfolding has_run has_image
store_human row db =
    if any (λ r. r.id == row.id) db.human_requests
    then (if has_image row.image_artifact_id db.artifacts
        then ok (tt, updated)
        else err integrity_error)
    else (if has_run row.run_id db.runs
        then (if has_image row.image_artifact_id db.artifacts
            then ok (tt, inserted)
            else err integrity_error)
        else err integrity_error)
  where
    updated : Db
    updated = record db {
      human_requests =
          update_where (λ r. r.id == row.id) (λ r. record row { id = r.id; run_id = r.run_id })
            db.human_requests;
    }

    inserted : Db
    inserted = record db { human_requests = db.human_requests ++ row ∷ [] }

-- `UUID(text) if text is not None else None`
unfoldable pub parse_optional : Python → Option String → Tx (Option Uuid)
parse_optional py none = pure none
parse_optional py (some text) = do id ← accepted (py.parse_uuid text); pure (some id)

unfoldable pub upsert_human_request : Python → CoreHumanRequest → Tx Unit
upsert_human_request py request = do
  id ← accepted (py.parse_uuid request.request_id)
  run_id ← accepted (py.parse_uuid request.run_id)
  image ← parse_optional py request.image_artifact_id
  store_human (record {
    id = id;
    run_id = run_id;
    kind = request.kind;
    question = request.question;
    context = request.context;
    options = request.options;
    risk = request.risk;
    allow_free_text = request.allow_free_text;
    image_artifact_id = image;
    status = request.status;
    answer = request.answer;
    approved = request.approved;
    responder = request.responder;
    created_at = request.created_at;
    resolved_at = request.resolved_at;
  })

unfoldable pub list_human_requests : Postgres → Db → Uuid → List HumanRequestRow
list_human_requests pg db run_id =
    pg.order_by (asc (λ (r : HumanRequestRow). r.created_at))
      (select (λ r. r.run_id == run_id) db.human_requests)

unfoldable pub store_artifact : ArtifactRow → Tx Unit
unfolding has_run
store_artifact row db =
    if any (λ a. a.id == row.id) db.artifacts
    then ok (tt, updated)
    else (if has_run row.run_id db.runs then ok (tt, inserted) else err integrity_error)
  where
    updated : Db
    updated = record db {
      artifacts =
          update_where (λ a. a.id == row.id) (λ a. record row { id = a.id; run_id = a.run_id })
            db.artifacts;
    }

    inserted : Db
    inserted = record db { artifacts = db.artifacts ++ row ∷ [] }

unfoldable pub upsert_artifact : Python → CoreArtifact → Tx Unit
upsert_artifact py artifact = do
  id ← accepted (py.parse_uuid artifact.artifact_id)
  run_id ← accepted (py.parse_uuid artifact.run_id)
  store_artifact (record {
    id = id;
    run_id = run_id;
    kind = artifact.kind;
    filename = artifact.filename;
    relative_path = artifact.relative_path;
    mime_type = artifact.mime_type;
    size_bytes = artifact.size_bytes;
    sha256 = artifact.sha256;
    created_at = artifact.created_at;
  })

unfoldable pub list_artifacts : Postgres → Db → Uuid → List ArtifactRow
list_artifacts pg db run_id =
    pg.order_by (asc (λ (a : ArtifactRow). a.created_at))
      (select (λ a. a.run_id == run_id) db.artifacts)

unfoldable pub get_artifact : Db → Uuid → Option ArtifactRow
get_artifact db id = find? (λ a. a.id == id) db.artifacts

unfoldable pub get_human : Db → Uuid → Option HumanRequestRow
get_human db id = find? (λ r. r.id == id) db.human_requests
