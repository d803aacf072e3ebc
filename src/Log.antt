-- ===== src/Log.antt =====
-- api/runs.py, GET of a run's log: one line of text for each event.
pub mod Text
pub mod Clipped
pub mod Lines
mod Tests
use z_apply_backend.Api.{Answer, refused, response, run_missing}
use z_apply_backend.Base.{
  ℕ, String, Bool, true, false, not, ◌||◌, Option, none, some, List, [], ◌∷◌, ◌++◌, map, take,
  codes, starts_with, str_eq, if◌then◌else◌,
}
use z_apply_backend.Json.{Value, Fields, str, obj, get, get_or_null, truthy, or_else, null, Python}
use z_apply_backend.Log.Text.{none_left, strip, clip, padded, joined}
use z_apply_backend.Models.{Uuid, Datetime, RunRow, RunEventRow, Db}
use z_apply_backend.Repo.Events.{list_events}
use z_apply_backend.Repo.Runs.{get_run}
use z_apply_backend.Sql.{Postgres}

-- `payload.get(key, default)`
unfoldable pub get_default : String → Value → Fields → Value
get_default key default payload = elim (get key payload) [ none ↦ default | some v ↦ v ]

-- `isinstance(text, str) and text.strip()`
unfoldable pub is_text : Value → Bool
is_text (str s) = not (none_left (strip (codes s)))
is_text _ = false

-- `output.get("status") if isinstance(output, dict) else None`
unfoldable pub output_status : Value → Value
output_status (obj fields) = get_or_null "status" fields
output_status _ = null

-- `a or b` on texts
unfoldable pub text_or : List ℕ → List ℕ → List ℕ
text_or [] b = b
text_or (c ∷ a) b = c ∷ a

module _ (py : Python) (payload : Fields) where
  -- `str(value)`
  abbrev pub shown : Value → List ℕ
  shown v = codes (py.str_of v)

  -- `str(payload.get(key) or "")`
  unfoldable pub text_at : String → List ℕ
  text_at key = shown (or_else (get_or_null key payload) (str ""))

  unfoldable pub text_at_either : String → String → List ℕ
  text_at_either key other =
      shown (or_else (or_else (get_or_null key payload) (get_or_null other payload)) (str ""))

  -- The parts that go into a line as they are.
  unfoldable pub tool_name : List ℕ
  tool_name = shown (get_default "tool_name" (str "") payload)

  unfoldable pub tool_status : List ℕ
  tool_status = shown (or_else (output_status (get_or_null "output" payload)) (str "ok"))

  unfoldable pub phase_name : List ℕ
  phase_name = shown (get_default "phase" (str "") payload)

  unfoldable pub question_kind : List ℕ
  question_kind = shown (get_default "kind" (str "question") payload)

  unfoldable pub evidence_status : List ℕ
  evidence_status = shown (get_default "status" (str "") payload)

  unfoldable pub agent_name : List ℕ
  agent_name = take 24 (
      shown (
        or_else
          (or_else (or_else (get_or_null "agent" payload) (get_or_null "agent_path" payload))
            (get_or_null "role" payload))
          (str "-")))

  unfoldable pub tool_summary : String → List ℕ
  tool_summary kind =
      if str_eq kind "tool.started"
      then tool_name ++ codes " " ++ clip (text_at "input") 90
      else if truthy (get_or_null "error" payload)
      then tool_name ++ codes " -> ERROR: " ++ clip (shown (get_or_null "error" payload)) 120
      else tool_name ++ codes " -> " ++ tool_status

  unfoldable pub kind_summary : String → List ℕ
  kind_summary kind =
      if starts_with kind "tool."
      then tool_summary kind
      else if str_eq kind "run.phase_changed"
      then codes "phase -> " ++ phase_name
      else if str_eq kind "human.requested"
      then codes "HUMAN ASKED ("
        ++ question_kind
        ++ codes "): "
        ++ clip (text_at_either "question" "context") 120
      else if str_eq kind "human.resolved"
      then codes "HUMAN ANSWERED: " ++ clip (text_at "answer") 60
      else if str_eq kind "recovery.started"
      then codes "RECOVERY: " ++ clip (text_at "error") 120
      else if str_eq kind "authentication.evidence"
      then codes "auth " ++ evidence_status ++ codes ": " ++ clip (text_at "summary") 120
      else if str_eq kind "run.queued"
          || str_eq kind "run.started"
          || str_eq kind "run.terminal"
          || str_eq kind "graph.event"
      then text_or (clip (text_at_either "summary" "outcome") 120) (codes kind)
      else if str_eq kind "submission.approval_requested"
      then codes "APPROVAL REQUESTED: " ++ clip (text_at "context") 120
      else clip (take 140 (shown (obj payload))) 140

  -- `_log_summary`
  unfoldable pub log_summary : String → List ℕ
  log_summary kind =
      if is_text (get_or_null "text" payload)
      then clip (shown (get_or_null "text" payload)) 140
      else kind_summary kind

-- `_render_log_line`; `clock` is `strftime("%H:%M:%S")`.
unfoldable pub render_log_line : Python → (Datetime → String) → RunEventRow → List ℕ
render_log_line py clock row =
    codes (clock row.occurred_at)
    ++ codes " ["
    ++ padded 28 (codes row.kind)
    ++ codes "] "
    ++ padded 24 (agent_name py row.payload)
    ++ codes " "
    ++ log_summary py row.payload row.kind

module _ (pg : Postgres) (py : Python) (clock : Datetime → String) where
  unfoldable pub log_of : Db → Uuid → ℕ → Option RunRow → Answer (List ℕ)
  log_of db run_id limit none = refused run_missing
  log_of db run_id limit (some run) =
      response
        (joined (map (render_log_line py clock) (list_events pg db 0 (some run_id) limit false)))

  -- `run_log`
  unfoldable pub run_log : Db → Uuid → ℕ → Answer (List ℕ)
  run_log db run_id limit = log_of db run_id limit (get_run db run_id)
