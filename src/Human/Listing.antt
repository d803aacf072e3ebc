-- ===== src/Human/Listing.antt =====
-- `human_requests` of api/human.py: the GET that first stores what the Core holds.
use z_apply_backend.Base.{Bool, true, false, Option, none, some, List, [], ◌∷◌, map}
use z_apply_backend.Json.{Fields, Python}
use z_apply_backend.Models.{Uuid, RunRow, HumanRequestRow, Db, CoreHumanRequest}
use z_apply_backend.Repo.{Error, Result, ok, err, Tx, pure, ◌>>◌, session_scope}
use z_apply_backend.Repo.Records.{upsert_human_request, list_human_requests}
use z_apply_backend.Repo.Runs.{get_run}
use z_apply_backend.Schemas.Rows.{serialize_human_row}
use z_apply_backend.Sql.{Postgres}

-- How the handler ends: an exception of the Core, a failed transaction, 404, or the list.
pub data Listing : Type 0 where
  core_failed run_missing : Listing
  tx_failed : Error → Listing
  listed : List Fields → Listing

unfoldable pub upsert_each : Python → List CoreHumanRequest → Tx Unit
upsert_each py [] = pure tt
upsert_each py (item ∷ current) = do upsert_human_request py item; upsert_each py current

-- `if current:` and the transaction
unfoldable pub store_current : Python → List CoreHumanRequest → Db → Result (Unit {0}) × Db
store_current py [] db = (ok tt, db)
store_current py (item ∷ current) db = session_scope (upsert_each py (item ∷ current)) db

unfoldable pub known_or_missing : Option RunRow → Listing
known_or_missing none = run_missing
known_or_missing (some run) = listed []

-- `if handle is None and not rows`
unfoldable pub list_rows : Python → Bool → Option RunRow → List HumanRequestRow → Listing
list_rows py false run [] = known_or_missing run
list_rows py held run rows = listed (map (serialize_human_row py) rows)

module _ (pg : Postgres) (py : Python) (run_id : Uuid) where
  unfoldable pub list_for : Bool → Db → Listing
  list_for held db = list_rows py held (get_run db run_id) (list_human_requests pg db run_id)

  unfoldable pub list_after : Result (Unit {0}) × Db → Listing × Db
  list_after (err e, db) = (tx_failed e, db)
  list_after (ok u, db) = (list_for true db, db)

  -- `none`, if there is no handle, and none inside, if asking it raised.
  unfoldable pub human_requests : Option (Option (List CoreHumanRequest)) → Db → Listing × Db
  human_requests none db = (list_for false db, db)
  human_requests (some none) db = (core_failed, db)
  human_requests (some (some current)) db = list_after (store_current py current db)
