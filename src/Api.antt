-- ===== src/Api.antt =====
-- api/runs.py: the handlers that read a run, and those that pass a command on to the Core.
pub mod Commands
pub mod Forgotten
pub mod Started
mod Tests
use z_apply_backend.Base.{ℕ, String, Bool, true, false, Option, none, some, List, map}
use z_apply_backend.Base.Int.{ℤ, pos, negsuc}
use z_apply_backend.Human.{Raised, ErrorClass, HttpError, integration_error}
use z_apply_backend.Json.{Fields, Python}
use z_apply_backend.Models.{Uuid, RunRow, ModelCallRow, RunEventRow, Db, CoreRunView}
use z_apply_backend.Repo.Calls.{Totals, list_model_calls, model_call_totals, new_input_tokens}
use z_apply_backend.Repo.Events.{list_events}
use z_apply_backend.Repo.Runs.{get_run}
use z_apply_backend.Schemas.{RunResponse, from_core_view, from_row, serialize_event_row}
use z_apply_backend.Sql.{Postgres}
use z_apply_backend.Store.{Core}

-- How a handler ends: an HTTP error, an exception of the Core or of the validation that nothing
-- catches, or a response.
pub data Answer (A : Type 0) : Type 0 where
  refused : HttpError → Answer A
  uncaught : Answer A
  response : A → Answer A

abbrev pub run_missing : HttpError
run_missing = record { status = 404; code = "run_not_found" }

unfoldable pub response_of : Option RunResponse → Answer RunResponse
response_of none = uncaught
response_of (some r) = response r

unfoldable pub view_answer : Python → Option CoreRunView → Answer RunResponse
view_answer py none = uncaught
view_answer py (some view) = response_of (from_core_view py view)

unfoldable pub row_answer : Option RunRow → Answer RunResponse
row_answer none = refused run_missing
row_answer (some row) = response_of (from_row row)

-- `get_run_detail`: the Core while it holds the run, and the stored row otherwise.
unfoldable pub detail_answer :
    Python → (core : Core) → Db → Uuid → Option core.Handle → Answer RunResponse
detail_answer py core db run_id none = row_answer (get_run db run_id)
detail_answer py core db run_id (some handle) = view_answer py (core.view handle)

unfoldable pub get_run_detail : Python → Core → Db → Uuid → Answer RunResponse
get_run_detail py core db run_id =
    detail_answer py core db run_id (core.get_run (py.print_uuid run_id))

-- What a command of the Core gives: an exception, or the view after it.
pub data Done : Type 0 where
  raised : Raised → Done
  viewed : CoreRunView → Done

unfoldable pub done_answer : Python → Done → Answer RunResponse
done_answer py (raised exc) = refused (integration_error exc)
done_answer py (viewed view) = elim (from_core_view py view) [
  | none ↦ refused (integration_error (λ c. false))
  | some r ↦ response r
]

-- `focus_run`, `switch_model`, `set_reasoning` and `close_browser` differ in the method of the handle
-- that they call. A ValidationError inside of the `try` is no class of the Core's contract.
unfoldable pub command : Python → (core : Core) → (core.Handle → Done) → Uuid → Answer RunResponse
command py core method run_id = elim (core.get_run (py.print_uuid run_id)) [
  | none ↦ refused run_missing
  | some handle ↦ done_answer py (method handle)
]

-- One entry of the list `calls` of `run_calls`.
pub record CallEntry : Type 0 where
  pub row : ModelCallRow
  pub new_tokens : ℤ
  pub occurred_at : String

unfoldable pub call_entry : Python → ModelCallRow → CallEntry
call_entry py row = record {
  row = row;
  new_tokens = new_input_tokens row.input_tokens row.cache_read_tokens;
  occurred_at = py.isoformat row.occurred_at;
}

unfoldable pub run_calls :
    Postgres → Python → (List (Option ℕ) → ℕ) → Db → Uuid → Answer (Totals × List CallEntry)
run_calls pg py sum_cost db run_id = elim (get_run db run_id) [
  | none ↦ refused run_missing
  | some row ↦
      response
        (model_call_totals sum_cost db run_id, map (call_entry py) (list_model_calls pg db run_id))
]

is_none : Option ℤ → Bool
is_none none = true
is_none (some n) = false

-- `after or 0`; a negative number is 0 here, since `list_events` then keeps every row too.
or_zero : Option ℤ → ℕ
or_zero none = 0
or_zero (some (pos n)) = n
or_zero (some (negsuc n)) = 0

-- `run_events`: the newest ones, or with `after` the oldest ones behind it.
unfoldable pub run_events : Postgres → Python → Db → Uuid → Option ℤ → ℕ → List Fields
unfolding is_none or_zero
run_events pg py db run_id after limit =
    map (serialize_event_row py)
      (list_events pg db (or_zero after) (some run_id) limit (is_none after))
