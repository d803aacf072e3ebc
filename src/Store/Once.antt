-- ===== src/Store/Once.antt =====
-- How `EventStore.accept` ends for an event that needs nothing but the run's view.
use z_apply_backend.Base.{
  ℕ, ◌==◌, update_where, ◌⊎◌, ◌≡◌, sym, subst, List, [], ◌∷◌, ◌++◌, ap, ◌∙◌, true, false, none,
  some, str_eq, starts_with, Bool-cases, inl, inr, arith,
}
use z_apply_backend.Hub.Laws.{publish-total}
use z_apply_backend.Json.{Python}
use z_apply_backend.Models.{Uuid, Datetime, RunEventRow, Db, CoreRunView, CoreEvent}
use z_apply_backend.Repo.{
  pure, Error, Tx, ok, err, integrity_error, session_scope, ◌>>=◌, ◌>>◌, accepted,
}
use z_apply_backend.Repo.Binds.{bind-ok, bind-err}
use z_apply_backend.Repo.Events.{
  has_run, has_sequence, insert_event, update_run, persist_event, run_values,
}
use z_apply_backend.Repo.Valid.{made, with_event, insert_event-ok}
use z_apply_backend.Repo.Persist.{row_of}
use z_apply_backend.Repo.Records.{upsert_human_request, upsert_artifact}
use z_apply_backend.Sql.{Postgres}
use z_apply_backend.Store.Atomic.{Written, Accepts, accept_atomic}
use z_apply_backend.Store.{
  Outcome, Core, Backend, stored, tx_failed, when, ledger, each_optional, write_event, stored_event,
  published, publish_row, accept_files, accept_humans, accept_view, accept_handle, accept,
}

module _ (pg : Postgres) (py : Python) (now : Datetime) (event : CoreEvent)
    (view : CoreRunView) where
  -- What is known of an event of a stored run.
  pub record Known (run_id : Uuid) (db : Db) : Type 0 where
    pub parsed : py.parse_uuid event.run_id ≡ some run_id
    pub known : has_run run_id db.runs ≡ true

  insert_event-taken :
      (make : ℕ → RunEventRow) (db : Db)
      → has_run (made pg make db).run_id db.runs ≡ true
      → has_sequence (made pg make db).run_id (made pg make db).run_sequence db.events ≡ true
      → insert_event pg make db ≡ err integrity_error
  unfolding insert_event
  insert_event-taken make db known taken = rw (known, taken)

  accepted-some :
      (run_id : Uuid) (db : Db)
      → py.parse_uuid event.run_id ≡ some run_id
      → accepted (py.parse_uuid event.run_id) db ≡ ok (run_id, db)
  accepted-some run_id db parsed = rw parsed

  -- The actions of `persist_event` after the parsing of the id, and after the insert.
  abbrev finish : Uuid → RunEventRow → Tx RunEventRow
  finish run_id row = update_run run_id now (run_values view) >> pure row

  abbrev store : Uuid → Tx RunEventRow
  store run_id = insert_event pg (row_of pg py now event view run_id) >>= finish run_id

  persist_event-taken :
      (run_id : Uuid) (db : Db)
      → Known run_id db
      → has_sequence run_id event.sequence db.events ≡ true
      → persist_event pg py now event view db ≡ err integrity_error
  unfolding persist_event
  persist_event-taken run_id db k taken =
      bind-ok (accepted (py.parse_uuid event.run_id)) store db db run_id
        (accepted-some run_id db k.parsed)
      ∙ bind-err (insert_event pg (row_of pg py now event view run_id)) (finish run_id) db
          integrity_error (insert_event-taken (row_of pg py now event view run_id) db k.known taken)

  persist_event-free :
      (run_id : Uuid) (db : Db)
      → Known run_id db
      → has_sequence run_id event.sequence db.events ≡ false
      → (row : RunEventRow) × (db' : Db) × (persist_event pg py now event view db ≡ ok (row, db'))
  unfolding persist_event update_run
  persist_event-free run_id db k free =
      let make : ℕ → RunEventRow = row_of pg py now event view run_id in
      (
        made pg make db,
        record (with_event pg make db) {
          runs =
              update_where (λ r. r.id == run_id)
                (λ r. record (run_values view r) { updated_at = now }) db.runs;
        },
        bind-ok (accepted (py.parse_uuid event.run_id)) store db db run_id
              (accepted-some run_id db k.parsed)
            ∙ bind-ok (insert_event pg make) (finish run_id) db (with_event pg make db)
                (made pg make db) (insert_event-ok pg make db k.known free),
      )

has_sequence-snoc_self :
    (run_id : Uuid) (n : ℕ) (rows : List RunEventRow) (row : RunEventRow)
    → row.run_id ≡ run_id
    → row.run_sequence ≡ n
    → has_sequence run_id n (rows ++ row ∷ []) ≡ true
unfolding has_sequence
has_sequence-snoc_self run_id n [] row e f = ground arith
has_sequence-snoc_self run_id n (r ∷ rows) row e f =
    ground (arith, has_sequence-snoc_self run_id n rows row e f)

module _ (pg : Postgres) (py : Python) (core : Core) (now : Datetime) (event : CoreEvent)
    (b : Backend) where
  -- The event is no human request, artifact or model call.
  pub record Plain : Type 0 where
    pub no_human : starts_with event.kind "human." ≡ false
    pub no_artifact : str_eq event.kind "artifact.created" ≡ false
    pub no_call : str_eq event.kind "model.call.metrics" ≡ false

  module _ (view : CoreRunView) (plain : Plain) where
    abbrev rest : RunEventRow → Tx RunEventRow
    rest row =
        ledger pg py event
        >> (each_optional (upsert_human_request py) none
            >> (each_optional (upsert_artifact py) none >> pure row))

    write_event-err :
        (e : Error)
        → persist_event pg py now event view b.db ≡ err e
        → write_event pg py now event view none none b.db ≡ err e
    unfolding write_event
    write_event-err e failed = bind-err (persist_event pg py now event view) rest b.db e failed

    write_event-ok :
        (row : RunEventRow) (db' : Db)
        → persist_event pg py now event view b.db ≡ ok (row, db')
        → write_event pg py now event view none none b.db ≡ ok (row, db')
    unfolding write_event ledger each_optional
    write_event-ok row db' good =
        bind-ok (persist_event pg py now event view) rest b.db db' row good ∙ last
      where
        last : rest row db' ≡ ok (row, db')
        last = rw (plain.no_call, ledger)

    accept-direct :
        (handle : core.Handle)
        → core.get_run event.run_id ≡ some handle
        → core.view handle ≡ some view
        → accept pg py core now event b
          ≡ publish_row pg py core now event b
              (session_scope (write_event pg py now event view none none) b.db)
    unfolding accept accept_handle accept_view accept_humans accept_files when
    accept-direct handle got seen =
        ap (accept_handle pg py core now event b) got
        ∙ ap (accept_view pg py core now event b handle) seen
        ∙ ap
            (λ w.
              accept_humans pg py core now event b handle view
                (when w (core.human_requests handle)))
            plain.no_human
        ∙ ap (λ w. accept_files pg py core now event b view none (when w (core.artifacts handle)))
            plain.no_artifact

    publish-err :
        (m : Tx RunEventRow) (e : Error)
        → m b.db ≡ err e
        → (publish_row pg py core now event b (session_scope m b.db)).0 ≡ tx_failed e
    unfolding publish_row session_scope
    publish-err m e failed = ground arith

    publish-ok :
        (m : Tx RunEventRow) (row : RunEventRow) (db' : Db)
        → m b.db ≡ ok (row, db')
        → (publish_row pg py core now event b (session_scope m b.db)).0 ≡ stored row
    unfolding publish_row session_scope published
    publish-ok m row db' good = ground (arith, publish-total b.hub (stored_event core event row))

  -- After an event was stored its row is the last one, and its number is one that the run has.
  abbrev pub Kept : Uuid → RunEventRow → Db → Type 0
  Kept run_id row db' =
      Written pg py event b.db row db' × (has_sequence run_id event.sequence db'.events ≡ true)

  Written-Kept :
      (run_id : Uuid) (row : RunEventRow) (db' : Db)
      → py.parse_uuid event.run_id ≡ some run_id
      → Written pg py event b.db row db'
      → Kept run_id row db'
  Written-Kept run_id row db' parsed w = (
    w,
    ap (has_sequence run_id event.sequence) w.appended
        ∙ has_sequence-snoc_self run_id event.sequence b.db.events row same w.sequence,
  )
    where
      same : row.run_id ≡ run_id
      same = let both : some row.run_id ≡ some run_id = sym w.parsed ∙ parsed in cc

  -- What the outcome of `accept` says of the backend after it.
  after :
      (o : Outcome)
      → (accept pg py core now event b).0 ≡ o
      → Accepts pg py core now event b o (accept pg py core now event b).1
  after o e =
      subst (λ x. Accepts pg py core now event b x (accept pg py core now event b).1) e
        (accept_atomic pg py core now event b)

  -- Of an event of a stored run that the Core holds, which is no human request, artifact or model
  -- call: with a sequence number that the run does not have it is stored, its row is then the last
  -- of the table and has every column from the event, and the run has the number. With a number that
  -- the run has, so also when it is delivered again, it is refused by the unique constraint, and the
  -- tables and the queues stay as they were.
  pub accept-once :
      (handle : core.Handle) (view : CoreRunView) (run_id : Uuid)
      → Plain
      → core.get_run event.run_id ≡ some handle
      → core.view handle ≡ some view
      → Known pg py now event view run_id b.db
      → ((has_sequence run_id event.sequence b.db.events ≡ true)
          × ((accept pg py core now event b).0 ≡ tx_failed integrity_error)
          × ((accept pg py core now event b).1 ≡ b))
        ⊎ ((has_sequence run_id event.sequence b.db.events ≡ false)
            × ((row : RunEventRow) × ((accept pg py core now event b).0 ≡ stored row)
                × Kept run_id row (accept pg py core now event b).1.db))
  accept-once handle view run_id plain got seen k =
      elim (Bool-cases (has_sequence run_id event.sequence b.db.events)) [
        | inl taken ↦
            let refused : (accept pg py core now event b).0 ≡ tx_failed integrity_error =
              ap (λ r. r.0) (accept-direct view plain handle got seen)
              ∙ publish-err view plain _ integrity_error (
                  write_event-err view plain integrity_error
                    (persist_event-taken pg py now event view run_id b.db k taken)) in
            inl (taken, refused, after (tx_failed integrity_error) refused)
        | inr free ↦
            let (row, db', good) = persist_event-free pg py now event view run_id b.db k free in
            let done : (accept pg py core now event b).0 ≡ stored row =
              ap (λ r. r.0) (accept-direct view plain handle got seen)
              ∙ publish-ok view plain _ row db' (write_event-ok view plain row db' good) in
            inr (free, (row, done, Written-Kept run_id row _ k.parsed (after (stored row) done).0))
      ]
