-- ===== src/Store.antt =====
-- services/event_store.py: an event of the Core is written to the tables and then published.
pub mod Atomic
pub mod Once
mod Tests
use z_apply_backend.Base.{
  ℕ, String, Bool, Option, none, some, List, [], ◌∷◌, str_eq, starts_with, if◌then◌else◌,
}
use z_apply_backend.Base.Int.{pos}
use z_apply_backend.Hub.{StoredEvent, EventHub, publish}
use z_apply_backend.Json.{Fields, field, int, Python}
use z_apply_backend.Models.{
  Datetime, RunEventRow, Db, CoreRunView, CoreEvent, CoreHumanRequest, CoreArtifact,
}
use z_apply_backend.Repo.{Error, Result, ok, err, Tx, ◌>>=◌, ◌>>◌, pure, session_scope}
use z_apply_backend.Repo.Calls.{insert_model_call}
use z_apply_backend.Repo.Events.{persist_event}
use z_apply_backend.Repo.Records.{upsert_human_request, upsert_artifact}
use z_apply_backend.Sql.{Postgres}

-- What the backend asks of z_apply_core while it handles an event: `none` is an exception, but for
-- `get_run`, where it is None. `to_dict` is `CoreEvent.to_dict`.
pub record Core : Type 1 where
  pub Handle : Type 0
  pub get_run : String → Option Handle
  pub view : Handle → Option CoreRunView
  pub human_requests : Handle → Option (List CoreHumanRequest)
  pub artifacts : Handle → Option (List CoreArtifact)
  pub to_dict : CoreEvent → Fields

pub record Backend : Type 0 where
  pub db : Db
  pub hub : EventHub

-- How `accept` ends: the run is unknown, the Core raised, the transaction failed, publishing raised
-- after the commit, or the event is stored and published.
pub data Outcome : Type 0 where
  ignored core_failed publish_failed : Outcome
  tx_failed : Error → Outcome
  stored : RunEventRow → Outcome

unfoldable pub each : {A : Type 0} → (A → Tx Unit) → List A → Tx Unit
each f [] = pure tt
each f (x ∷ xs) = do f x; each f xs

-- `if xs is not None: for x in xs: …`
unfoldable pub each_optional : {A : Type 0} → (A → Tx Unit) → Option (List A) → Tx Unit
each_optional f none = pure tt
each_optional f (some xs) = each f xs

unfoldable pub ledger : Postgres → Python → CoreEvent → Tx Unit
ledger pg py event =
    if str_eq event.kind "model.call.metrics" then insert_model_call pg py event else pure tt

-- The body of the transaction.
unfoldable pub write_event :
    Postgres
    → Python
    → Datetime
    → CoreEvent
    → CoreRunView
    → Option (List CoreHumanRequest)
    → Option (List CoreArtifact)
    → Tx RunEventRow
write_event pg py now event view human_requests artifacts = do
  row ← persist_event pg py now event view
  ledger pg py event
  each_optional (upsert_human_request py) human_requests
  each_optional (upsert_artifact py) artifacts
  pure row

-- A collection is fetched only for the events that need it; `none` is an exception of the Core.
unfoldable pub when : {A : Type 0} → Bool → Option A → Option (Option A)
when wanted fetched =
    if wanted then (elim fetched [ none ↦ none | some a ↦ some (some a) ]) else some none

unfoldable pub stored_event : Core → CoreEvent → RunEventRow → StoredEvent
stored_event core event row = record {
  id = row.id;
  event_type = event.kind;
  body = field "database_id" (int (pos row.id)) (core.to_dict event);
}

unfoldable pub published : RunEventRow → EventHub → Db → Option EventHub → Outcome × Backend
published row hub db none = (publish_failed, record { db = db; hub = hub })
published row hub db (some hub') = (stored row, record { db = db; hub = hub' })

module _ (pg : Postgres) (py : Python) (core : Core) (now : Datetime) (event : CoreEvent)
    (b : Backend) where
  -- From the result of the transaction on.
  unfoldable pub publish_row : Result RunEventRow × Db → Outcome × Backend
  publish_row (err e, db) = (tx_failed e, record b { db = db })
  publish_row (ok row, db) = published row b.hub db (publish b.hub (stored_event core event row))

  -- From the fetched artifacts on; `none` is an exception of the Core.
  unfoldable pub accept_files :
      CoreRunView
      → Option (List CoreHumanRequest)
      → Option (Option (List CoreArtifact))
      → Outcome × Backend
  accept_files view humans none = (core_failed, b)
  accept_files view humans (some files) =
      publish_row (session_scope (write_event pg py now event view humans files) b.db)

  unfoldable pub accept_humans :
      core.Handle → CoreRunView → Option (Option (List CoreHumanRequest)) → Outcome × Backend
  accept_humans handle view none = (core_failed, b)
  accept_humans handle view (some humans) =
      accept_files view humans (when (str_eq event.kind "artifact.created") (core.artifacts handle))

  unfoldable pub accept_view : core.Handle → Option CoreRunView → Outcome × Backend
  accept_view handle none = (core_failed, b)
  accept_view handle (some view) =
      accept_humans handle view
        (when (starts_with event.kind "human.") (core.human_requests handle))

  unfoldable pub accept_handle : Option core.Handle → Outcome × Backend
  accept_handle none = (ignored, b)
  accept_handle (some handle) = accept_view handle (core.view handle)

  unfoldable pub accept : Outcome × Backend
  accept = accept_handle (core.get_run event.run_id)
