-- ===== src/Migrations/Initial.antt =====
-- Revision 20260714_0001.
use z_apply_backend.Base.{none, some, List, [], ◌∷◌}
use z_apply_backend.Migrations.{
  runs, run_events, human_requests, artifacts, uuid, text, integer, bigint, timestamptz, jsonb,
  boolean, varchar, Column, required, optional, key, refers, defaulted, Operation, create_table,
  drop_table, create_index, drop_index,
}

abbrev pub runs_columns : List Column
runs_columns =
    key "id" uuid
    ∷ required "job_url" text
    ∷ required "task" text
    ∷ optional "company" (varchar 255)
    ∷ optional "role" (varchar 255)
    ∷ required "status" (varchar 32)
    ∷ required "phase" (varchar 32)
    ∷ optional "outcome" (varchar 32)
    ∷ optional "summary" text
    ∷ optional "current_agent" (varchar 255)
    ∷ optional "current_model" (varchar 255)
    ∷ required "browser_tab_state" (varchar 32)
    ∷ defaulted "latest_run_sequence" integer "0"
    ∷ required "created_at" timestamptz
    ∷ optional "started_at" timestamptz
    ∷ optional "finished_at" timestamptz
    ∷ defaulted "updated_at" timestamptz "CURRENT_TIMESTAMP"
    ∷ []

abbrev pub run_events_columns : List Column
run_events_columns =
    key "id" bigint
    ∷ refers "run_id" runs
    ∷ required "run_sequence" integer
    ∷ required "occurred_at" timestamptz
    ∷ required "type" (varchar 128)
    ∷ required "source" jsonb
    ∷ required "level" (varchar 16)
    ∷ required "payload" jsonb
    ∷ []

abbrev pub human_requests_columns : List Column
human_requests_columns =
    key "id" uuid
    ∷ refers "run_id" runs
    ∷ required "kind" (varchar 64)
    ∷ required "question" text
    ∷ required "context" text
    ∷ required "options" jsonb
    ∷ required "risk" (varchar 32)
    ∷ required "status" (varchar 32)
    ∷ optional "answer" text
    ∷ optional "approved" boolean
    ∷ optional "responder" (varchar 64)
    ∷ required "created_at" timestamptz
    ∷ optional "resolved_at" timestamptz
    ∷ []

abbrev pub artifacts_columns : List Column
artifacts_columns =
    key "id" uuid
    ∷ refers "run_id" runs
    ∷ required "kind" (varchar 64)
    ∷ required "filename" (varchar 255)
    ∷ required "relative_path" text
    ∷ required "mime_type" (varchar 128)
    ∷ required "size_bytes" bigint
    ∷ required "sha256" (varchar 64)
    ∷ required "created_at" timestamptz
    ∷ []

abbrev pub initial_upgrade : List Operation
initial_upgrade =
    create_table runs runs_columns none
    ∷ create_index "ix_runs_created_at" runs ("created_at" ∷ [])
    ∷ create_index "ix_runs_status" runs ("status" ∷ [])
    ∷ create_index "ix_runs_outcome" runs ("outcome" ∷ [])
    ∷ create_table run_events run_events_columns
        (some ("uq_run_events_sequence", "run_id" ∷ "run_sequence" ∷ []))
    ∷ create_index "ix_run_events_id" run_events ("id" ∷ [])
    ∷ create_index "ix_run_events_type" run_events ("type" ∷ [])
    ∷ create_index "ix_run_events_run_id_sequence" run_events ("run_id" ∷ "run_sequence" ∷ [])
    ∷ create_table human_requests human_requests_columns none
    ∷ create_table artifacts artifacts_columns none
    ∷ []

abbrev pub initial_downgrade : List Operation
initial_downgrade =
    drop_table artifacts
    ∷ drop_table human_requests
    ∷ drop_index "ix_run_events_run_id_sequence" run_events
    ∷ drop_index "ix_run_events_type" run_events
    ∷ drop_index "ix_run_events_id" run_events
    ∷ drop_table run_events
    ∷ drop_index "ix_runs_outcome" runs
    ∷ drop_index "ix_runs_status" runs
    ∷ drop_index "ix_runs_created_at" runs
    ∷ drop_table runs
    ∷ []
