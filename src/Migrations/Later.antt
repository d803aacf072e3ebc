-- ===== src/Migrations/Later.antt =====
-- The revisions 20260714_0002 to 20260821_0009, and the chain of all of them.
use z_apply_backend.Base.{true, none, some, List, [], ◌∷◌}
use z_apply_backend.Migrations.{
  runs, human_requests, artifacts, model_calls, uuid, integer, bigint, timestamptz, boolean, double,
  varchar, Column, required, optional, key, refers, defaulted, Operation, create_table, drop_table,
  create_index, drop_index, add_column, drop_column, set_default, create_foreign_key,
  drop_constraint,
}
use z_apply_backend.Migrations.Initial.{initial_upgrade, initial_downgrade}

-- The revisions, each named after its file.
pub data Revision : Type 0 where
  initial_schema runs_updated_at_default human_request_free_text : Revision
  human_request_artifact model_calls_ledger prompt_variant : Revision
  drop_prompt_variant provider_reasoning_columns control_mode_pending : Revision

abbrev pub model_calls_columns : List Column
model_calls_columns =
    key "id" bigint
    ∷ record (refers "run_id" runs) { cascades = true }
    ∷ defaulted "sequence" integer "0"
    ∷ defaulted "agent" (varchar 120) ""
    ∷ defaulted "model" (varchar 255) ""
    ∷ defaulted "provider" (varchar 80) ""
    ∷ defaulted "input_tokens" integer "0"
    ∷ defaulted "output_tokens" integer "0"
    ∷ defaulted "cache_read_tokens" integer "0"
    ∷ optional "ttft_ms" integer
    ∷ optional "duration_ms" integer
    ∷ optional "tok_per_second" double
    ∷ optional "cost_usd" double
    ∷ required "occurred_at" timestamptz
    ∷ []

abbrev pub updated_at_upgrade : List Operation
updated_at_upgrade = set_default runs "updated_at" (some "CURRENT_TIMESTAMP") ∷ []

abbrev pub updated_at_downgrade : List Operation
updated_at_downgrade = set_default runs "updated_at" none ∷ []

abbrev pub free_text_upgrade : List Operation
free_text_upgrade = add_column human_requests (defaulted "allow_free_text" boolean "true") ∷ []

abbrev pub free_text_downgrade : List Operation
free_text_downgrade = drop_column human_requests "allow_free_text" ∷ []

abbrev pub request_artifact_upgrade : List Operation
request_artifact_upgrade =
    add_column human_requests (optional "image_artifact_id" uuid)
    ∷ create_foreign_key "fk_human_requests_image_artifact_id" human_requests artifacts
        "image_artifact_id"
    ∷ []

abbrev pub request_artifact_downgrade : List Operation
request_artifact_downgrade =
    drop_constraint "fk_human_requests_image_artifact_id" human_requests
    ∷ drop_column human_requests "image_artifact_id"
    ∷ []

abbrev pub model_calls_upgrade : List Operation
model_calls_upgrade =
    create_table model_calls model_calls_columns none
    ∷ create_index "ix_model_calls_run_id" model_calls ("run_id" ∷ [])
    ∷ create_index "ix_model_calls_occurred_at" model_calls ("occurred_at" ∷ [])
    ∷ []

abbrev pub model_calls_downgrade : List Operation
model_calls_downgrade =
    drop_index "ix_model_calls_occurred_at" model_calls
    ∷ drop_index "ix_model_calls_run_id" model_calls
    ∷ drop_table model_calls
    ∷ []

abbrev pub variant_upgrade : List Operation
variant_upgrade =
    add_column runs (optional "prompt_variant" (varchar 255))
    ∷ add_column runs (optional "prompt_sha" (varchar 64))
    ∷ []

abbrev pub variant_downgrade : List Operation
variant_downgrade = drop_column runs "prompt_sha" ∷ drop_column runs "prompt_variant" ∷ []

abbrev pub drop_variant_upgrade : List Operation
drop_variant_upgrade = drop_column runs "prompt_sha" ∷ drop_column runs "prompt_variant" ∷ []

abbrev pub drop_variant_downgrade : List Operation
drop_variant_downgrade =
    add_column runs (optional "prompt_variant" (varchar 255))
    ∷ add_column runs (optional "prompt_sha" (varchar 64))
    ∷ []

abbrev pub reasoning_upgrade : List Operation
reasoning_upgrade =
    add_column runs (optional "current_provider" (varchar 80))
    ∷ add_column runs (defaulted "current_reasoning" (varchar 16) "auto")
    ∷ add_column runs (optional "current_reasoning_effort" (varchar 16))
    ∷ []

abbrev pub reasoning_downgrade : List Operation
reasoning_downgrade =
    drop_column runs "current_reasoning_effort"
    ∷ drop_column runs "current_reasoning"
    ∷ drop_column runs "current_provider"
    ∷ []

abbrev pub control_mode_upgrade : List Operation
control_mode_upgrade =
    add_column runs (defaulted "control_mode" (varchar 32) "agent_control")
    ∷ add_column runs (optional "pending_human_request_id" (varchar 64))
    ∷ []

abbrev pub control_mode_downgrade : List Operation
control_mode_downgrade =
    drop_column runs "pending_human_request_id" ∷ drop_column runs "control_mode" ∷ []

unfoldable pub upgrade : Revision → List Operation
upgrade initial_schema = initial_upgrade
upgrade runs_updated_at_default = updated_at_upgrade
upgrade human_request_free_text = free_text_upgrade
upgrade human_request_artifact = request_artifact_upgrade
upgrade model_calls_ledger = model_calls_upgrade
upgrade prompt_variant = variant_upgrade
upgrade drop_prompt_variant = drop_variant_upgrade
upgrade provider_reasoning_columns = reasoning_upgrade
upgrade control_mode_pending = control_mode_upgrade

unfoldable pub downgrade : Revision → List Operation
downgrade initial_schema = initial_downgrade
downgrade runs_updated_at_default = updated_at_downgrade
downgrade human_request_free_text = free_text_downgrade
downgrade human_request_artifact = request_artifact_downgrade
downgrade model_calls_ledger = model_calls_downgrade
downgrade prompt_variant = variant_downgrade
downgrade drop_prompt_variant = drop_variant_downgrade
downgrade provider_reasoning_columns = reasoning_downgrade
downgrade control_mode_pending = control_mode_downgrade

-- By the `down_revision` of each: the order in which `alembic upgrade head` runs them.
unfoldable pub history : List Revision
history =
    initial_schema ∷ runs_updated_at_default ∷ human_request_free_text ∷ human_request_artifact
    ∷ model_calls_ledger ∷ prompt_variant ∷ drop_prompt_variant ∷ provider_reasoning_columns
    ∷ control_mode_pending ∷ []
