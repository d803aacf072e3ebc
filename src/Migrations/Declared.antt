-- ===== src/Migrations/Declared.antt =====
-- The columns that persistence/models.py declares for each table.
use z_apply_backend.Base.{some, List, [], ◌∷◌}
use z_apply_backend.Migrations.{
  TableName, runs, run_events, human_requests, artifacts, model_calls, uuid, text, integer, bigint,
  timestamptz, jsonb, boolean, double, varchar, Column, required, optional, key, refers, defaulted,
}

-- A `default` of the models is filled in by the mapper and is no default of the table.
unfoldable pub declared : TableName → List Column
declared runs =
    key "id" uuid
    ∷ required "job_url" text
    ∷ required "task" text
    ∷ optional "company" (varchar 255)
    ∷ optional "role" (varchar 255)
    ∷ required "status" (varchar 32)
    ∷ required "phase" (varchar 32)
    ∷ optional "outcome" (varchar 32)
    ∷ optional "summary" text
    ∷ optional "current_agent" (varchar 255)
    ∷ optional "current_model" (varchar 255)
    ∷ optional "current_provider" (varchar 80)
    ∷ required "browser_tab_state" (varchar 32)
    ∷ required "control_mode" (varchar 32)
    ∷ optional "pending_human_request_id" (varchar 64)
    ∷ required "current_reasoning" (varchar 16)
    ∷ optional "current_reasoning_effort" (varchar 16)
    ∷ required "latest_run_sequence" integer
    ∷ defaulted "created_at" timestamptz "now()"
    ∷ optional "started_at" timestamptz
    ∷ optional "finished_at" timestamptz
    ∷ defaulted "updated_at" timestamptz "now()"
    ∷ []
declared run_events =
    key "id" bigint
    ∷ refers "run_id" runs
    ∷ required "run_sequence" integer
    ∷ required "occurred_at" timestamptz
    ∷ required "type" (varchar 128)
    ∷ required "source" jsonb
    ∷ required "level" (varchar 16)
    ∷ required "payload" jsonb
    ∷ []
declared human_requests =
    key "id" uuid
    ∷ refers "run_id" runs
    ∷ required "kind" (varchar 64)
    ∷ required "question" text
    ∷ required "context" text
    ∷ required "options" jsonb
    ∷ required "risk" (varchar 32)
    ∷ required "allow_free_text" boolean
    ∷ record (optional "image_artifact_id" uuid) { foreign_key = some artifacts }
    ∷ required "status" (varchar 32)
    ∷ optional "answer" text
    ∷ optional "approved" boolean
    ∷ optional "responder" (varchar 64)
    ∷ required "created_at" timestamptz
    ∷ optional "resolved_at" timestamptz
    ∷ []
declared artifacts =
    key "id" uuid
    ∷ refers "run_id" runs
    ∷ required "kind" (varchar 64)
    ∷ required "filename" (varchar 255)
    ∷ required "relative_path" text
    ∷ required "mime_type" (varchar 128)
    ∷ required "size_bytes" bigint
    ∷ required "sha256" (varchar 64)
    ∷ required "created_at" timestamptz
    ∷ []
declared model_calls =
    key "id" bigint
    ∷ refers "run_id" runs
    ∷ required "sequence" integer
    ∷ required "agent" (varchar 120)
    ∷ required "model" (varchar 255)
    ∷ required "provider" (varchar 80)
    ∷ required "input_tokens" integer
    ∷ required "output_tokens" integer
    ∷ required "cache_read_tokens" integer
    ∷ optional "ttft_ms" integer
    ∷ optional "duration_ms" integer
    ∷ optional "tok_per_second" double
    ∷ optional "cost_usd" double
    ∷ required "occurred_at" timestamptz
    ∷ []
