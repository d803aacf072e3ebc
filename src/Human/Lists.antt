-- ===== src/Human/Lists.antt =====
-- What the GET of human requests leaves in the tables, and what it lists.
use z_apply_backend.Base.{
  map, ◌≡◌, refl, sym, ap, subst, Bool, true, false, Option, none, some, List, [], ◌∷◌,
}
use z_apply_backend.Human.Listing.{
  Listing, run_missing, listed, upsert_each, store_current, list_for, list_rows, known_or_missing,
  list_after, human_requests,
}
use z_apply_backend.Json.{Python}
use z_apply_backend.Models.{Uuid, RunRow, HumanRequestRow, Db, CoreHumanRequest}
use z_apply_backend.Repo.{Result, ok, err, session_scope}
use z_apply_backend.Repo.Quiet.{SameRuns}
use z_apply_backend.Repo.Records.{list_human_requests}
use z_apply_backend.Repo.Runs.{get_run}
use z_apply_backend.Schemas.Rows.{serialize_human_row}
use z_apply_backend.Sql.{Postgres}
use z_apply_backend.Human.Stored.{Stores, upsert_each-Stores, upsert_each-Quiet}

abbrev pub current_of : Option (Option (List CoreHumanRequest)) → List CoreHumanRequest
current_of (some (some current)) = current
current_of _ = []

abbrev pub is_held : Option (Option (List CoreHumanRequest)) → Bool
is_held none = false
is_held (some answer) = true

module _ (pg : Postgres) (py : Python) (run_id : Uuid) where
  -- How the handler ends and the tables after it, by what the Core holds and the tables before it.
  abbrev pub Lists : Option (Option (List CoreHumanRequest)) → Db → Listing → Db → Type 0
  Lists live db (listed rows) db' =
      Stores py (current_of live) db db'
      × SameRuns db db'
      × (list_for pg py run_id (is_held live) db' ≡ listed rows)
      × (rows ≡ map (serialize_human_row py) (list_human_requests pg db' run_id))
  Lists live db run_missing db' = (is_held live ≡ false) × (db' ≡ db) × (get_run db run_id ≡ none)
  Lists live db _ db' = db' ≡ db

  Lists-none :
      (db : Db) (run : Option RunRow) (rows : List HumanRequestRow)
      → get_run db run_id ≡ run
      → list_for pg py run_id false db ≡ list_rows py false run rows
      → list_human_requests pg db run_id ≡ rows
      → Lists none db (list_rows py false run rows) db
  unfolding list_rows known_or_missing
  Lists-none db none [] found e all = (refl, refl, found)
  Lists-none db (some run) [] found e all =
      ((tt, λ id. refl), (refl, refl, refl), e, ap (map (serialize_human_row py)) (sym all))
  Lists-none db run (row ∷ rows) found e all =
      ((tt, λ id. refl), (refl, refl, refl), e, ap (map (serialize_human_row py)) (sym all))

  list_rows-held :
      (run : Option RunRow) (rows : List HumanRequestRow)
      → list_rows py true run rows ≡ listed (map (serialize_human_row py) rows)
  unfolding list_rows
  list_rows-held run [] = refl
  list_rows-held run (row ∷ rows) = refl

  module _ (db : Db) (current : List CoreHumanRequest) where
    Lists-after :
        (db' : Db)
        → Stores py current db db'
        → SameRuns db db'
        → let (o, d) = list_after pg py run_id (ok tt, db') in Lists (some (some current)) db o d
    unfolding list_after list_for
    Lists-after db' has same =
        subst (λ o. Lists (some (some current)) db o db')
          (sym (list_rows-held (get_run db' run_id) (list_human_requests pg db' run_id)))
          (has, same, list_rows-held (get_run db' run_id) (list_human_requests pg db' run_id), refl)

    Lists-store :
        (r : Result (Unit {0} × Db))
        → upsert_each py current db ≡ r
        → let (o, d) = list_after pg py run_id (session_scope (λ _. r) db) in
          Lists (some (some current)) db o d
    unfolding session_scope list_after
    Lists-store (err e) failed = refl
    Lists-store (ok (u, db')) put =
        Lists-after db' (upsert_each-Stores py current db db' put)
          ((upsert_each-Quiet py current).same tt db db' put)

  -- The GET of a run's human requests lists the rows as they stand after everything that the Core
  -- holds for the run was stored: under the UUID of each request there is a row with the columns of
  -- the last request in the Core's list with that UUID, under the run that the row had before, or
  -- for a new row that of the first request with the UUID; what is found under every other UUID is
  -- as before, and no run or event is changed. If storing one of them fails, none is stored. 404 is the answer only if the Core does
  -- not hold the run and there is no row of it; every error leaves the tables as they were.
  pub human_requests-Lists :
      (live : Option (Option (List CoreHumanRequest))) (db : Db)
      → let (o, db') = human_requests pg py run_id live db in Lists live db o db'
  unfolding human_requests store_current list_for session_scope
  human_requests-Lists none db =
      Lists-none db (get_run db run_id) (list_human_requests pg db run_id) refl refl refl
  human_requests-Lists (some none) db = refl
  human_requests-Lists (some (some [])) db =
      Lists-after db [] db (tt, λ id. refl) (refl, refl, refl)
  human_requests-Lists (some (some (item ∷ current))) db =
      Lists-store db (item ∷ current) (upsert_each py (item ∷ current) db) refl
