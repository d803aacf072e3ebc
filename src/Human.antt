-- ===== src/Human.antt =====
-- api/human.py: the answers of a person, and api/errors.py for what goes wrong.
pub mod Answers
pub mod Listing
pub mod Lists
pub mod Stored
pub mod Upsert
mod Tests
use z_apply_backend.Base.{
  ℕ, String, Bool, false, Option, none, some, List, [], ◌∷◌, ◌==◌, ◌||◌, str_eq, if◌then◌else◌,
}
use z_apply_backend.Json.{Python}
use z_apply_backend.Models.{Uuid, Db, CoreHumanRequest}
use z_apply_backend.Repo.{Error, Result, ok, err, session_scope}
use z_apply_backend.Repo.Records.{upsert_human_request}

-- The exception classes of the Core's contract; an exception is known by the classes that it is an
-- instance of.
pub data ErrorClass : Type 0 where
  run_not_found browser_unavailable browser_control_conflict invalid_run_transition : ErrorClass
  human_request_already_resolved human_request_type_mismatch : ErrorClass
  submission_approval_violation core_shutting_down : ErrorClass

abbrev pub Raised : Type 0
Raised = ErrorClass → Bool

-- HTTPException
pub record HttpError : Type 0 where
  pub status : ℕ
  pub code : String

abbrev http : ℕ → String → HttpError
http status code = record { status = status; code = code }

unfoldable pub integration_error : Raised → HttpError
integration_error exc =
    if exc run_not_found
    then http 404 "run_not_found"
    else if exc browser_unavailable
    then http 409 "browser_unavailable"
    else if exc browser_control_conflict
    then http 409 "browser_control_conflict"
    else if exc invalid_run_transition
    then http 409 "invalid_run_transition"
    else if exc human_request_already_resolved
    then http 409 "human_request_already_resolved"
    else if exc human_request_type_mismatch
    then http 409 "human_request_type_mismatch"
    else if exc submission_approval_violation
    then http 409 "submission_approval_violation"
    else if exc core_shutting_down
    then http 503 "core_shutting_down"
    else http 500 "integration_failure"

-- What the Core gives for an answer.
pub data Reply : Type 0 where
  raised : Raised → Reply
  resolved : CoreHumanRequest → Reply

-- How a handler ends: an HTTP error, an exception of the Core outside of the `try`, a failed
-- transaction, or the request as the Core resolved it.
pub data Response : Type 0 where
  refused : HttpError → Response
  core_failed : Response
  tx_failed : Error → Response
  answered : CoreHumanRequest → Response

abbrev same_id : Uuid → Option ℕ → Bool
same_id request_id none = false
same_id request_id (some id) = id == request_id

-- `_live_request_id`: the first id of the Core that is this UUID; one that is no UUID is skipped.
unfoldable pub live_request_id : Python → Uuid → List CoreHumanRequest → Option String
live_request_id py request_id [] = none
live_request_id py request_id (item ∷ items) =
    if same_id request_id (py.parse_uuid item.request_id)
    then some item.request_id
    else live_request_id py request_id items

unfoldable pub recorded : CoreHumanRequest → Result (Unit {0}) × Db → Response × Db
recorded result (err e, db) = (tx_failed e, db)
recorded result (ok done', db) = (answered result, db)

module _ (py : Python) (db : Db) where
  unfoldable pub record_reply : Reply → Response × Db
  record_reply (raised exc) = (refused (integration_error exc), db)
  record_reply (resolved result) =
      recorded result (session_scope (upsert_human_request py result) db)

  unfoldable pub reply_to : (String → Reply) → Option String → Response × Db
  reply_to reply none = (refused (http 404 "human_request_not_found"), db)
  reply_to reply (some id) = record_reply (reply id)

  -- With the requests of the handle: none, if there is no handle, and none inside, if asking the
  -- Core for them raised.
  unfoldable pub respond :
      Uuid → Option (Option (List CoreHumanRequest)) → (String → Reply) → Response × Db
  respond request_id none reply = (refused (http 404 "run_not_found"), db)
  respond request_id (some none) reply = (core_failed, db)
  respond request_id (some (some live)) reply = reply_to reply (live_request_id py request_id live)

  -- `answer_human_request` and `decide_submission` are methods of the handle.
  unfoldable pub answer :
      Uuid
      → Option (Option (List CoreHumanRequest))
      → (String → String → Reply)
      → String
      → Response × Db
  answer request_id live answer_human_request text =
      respond request_id live (λ id. answer_human_request id text)

  unfoldable pub submission_decision :
      Uuid
      → Option (Option (List CoreHumanRequest))
      → (String → Bool → Reply)
      → String
      → Response × Db
  submission_decision request_id live decide_submission decision =
      if str_eq decision "approve" || str_eq decision "reject"
      then respond request_id live (λ id. decide_submission id (str_eq decision "approve"))
      else (refused (http 422 "invalid_submission_decision"), db)
