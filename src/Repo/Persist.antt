-- ===== src/Repo/Persist.antt =====
-- What a successful `persist_event` has done.
use mathlib.Core.Path.{subst₂, ap₂}
use z_apply_backend.Base.{
  ℕ, ◌≡◌, refl, sym, ap, ◌∙◌, subst, some, [], ◌∷◌, ◌++◌, ◌==◌, arith, update_where,
}
use z_apply_backend.Json.{Python}
use z_apply_backend.Models.{Uuid, Datetime, RunRow, RunEventRow, Db, CoreRunView, CoreEvent}
use z_apply_backend.Repo.{Result, ok, pure, ◌>>=◌, ◌>>◌, accepted}
use z_apply_backend.Repo.Events.{insert_event, update_run, run_values, persist_event}
use z_apply_backend.Repo.Quiet.{>>=-eq-ok}
use z_apply_backend.Repo.Valid.{IsValid, made, with_event, insert_event-IsValid, update_run-IsValid}
use z_apply_backend.Sql.{Postgres}

insert_event-eq-ok :
    (pg : Postgres) (make : ℕ → RunEventRow) (db db' : Db) (row : RunEventRow)
    → insert_event pg make db ≡ ok (row, db')
    → (row ≡ made pg make db) × (db' ≡ with_event pg make db)
unfolding insert_event
insert_event-eq-ok pg make db db' row e = ground arith

-- The row is the event's, it stands at the end of the events, and the run's columns are set.
pub record Persisted (pg : Postgres) (py : Python) (now : Datetime) (event : CoreEvent)
    (view : CoreRunView) (db : Db) (row : RunEventRow) (db' : Db) : Type 0 where
  pub parsed : py.parse_uuid event.run_id ≡ some row.run_id
  pub sequence : row.run_sequence ≡ event.sequence
  pub kind : row.kind ≡ event.kind
  pub key : row.id ≡ pg.nextval db.last_event_id
  pub occurred_at : row.occurred_at ≡ event.occurred_at
  pub source : row.source ≡ event.source
  pub level : row.level ≡ event.level
  pub payload : row.payload ≡ event.payload
  pub appended : db'.events ≡ db.events ++ row ∷ []
  pub runs :
      db'.runs
      ≡ update_where
          (λ r. r.id == row.run_id)
          (λ r. record (run_values view r) { updated_at = now })
          db.runs
  pub valid : IsValid db → IsValid db'

module _ (pg : Postgres) (py : Python) (now : Datetime) (event : CoreEvent)
    (view : CoreRunView) where
  abbrev pub row_of : Uuid → ℕ → RunEventRow
  row_of run_id id = record {
    id = id;
    run_id = run_id;
    run_sequence = event.sequence;
    occurred_at = event.occurred_at;
    kind = event.kind;
    source = event.source;
    level = event.level;
    payload = event.payload;
  }

  run_values-id : (r : RunRow) → (run_values view r).id ≡ r.id
  unfolding run_values
  run_values-id r = refl

  abbrev final : Uuid → Db → Db
  final run_id db = record (with_event pg (row_of run_id) db) {
    runs =
        update_where (λ r. r.id == run_id) (λ r. record (run_values view r) { updated_at = now })
          db.runs;
  }

  final-Persisted :
      (run_id : Uuid) (db : Db)
      → py.parse_uuid event.run_id ≡ some run_id
      → insert_event pg (row_of run_id) db
        ≡ ok (made pg (row_of run_id) db, with_event pg (row_of run_id) db)
      → Persisted pg py now event view db (made pg (row_of run_id) db) (final run_id db)
  final-Persisted run_id db parsed put = record {
    parsed = parsed;
    sequence = refl;
    kind = refl;
    key = refl;
    occurred_at = refl;
    source = refl;
    level = refl;
    payload = refl;
    appended = refl;
    runs = refl;
    valid = λ v.
        update_run-IsValid run_id now (run_values view) (with_event pg (row_of run_id) db)
          run_values-id
          (insert_event-IsValid pg (row_of run_id) db (with_event pg (row_of run_id) db)
            (made pg (row_of run_id) db) (λ n. refl) put v);
  }

  accepted-eq-ok :
      (db mid : Db) (run_id : Uuid)
      → accepted (py.parse_uuid event.run_id) db ≡ ok (run_id, mid)
      → (py.parse_uuid event.run_id ≡ some run_id) × (mid ≡ db)
  accepted-eq-ok db mid run_id e = ground arith

  -- The two actions after the parsing of the run's id.
  after_parse :
      (run_id : Uuid) (db db' : Db) (row : RunEventRow)
      → py.parse_uuid event.run_id ≡ some run_id
      → (insert_event pg (row_of run_id) >>= λ r. update_run run_id now (run_values view) >> pure r)
          db
        ≡ ok (row, db')
      → Persisted pg py now event view db row db'
  unfolding update_run
  after_parse run_id db db' row parsed e =
      let (row', mid, put, last) = >>=-eq-ok (insert_event pg (row_of run_id)) _ db db' row e in
      let (same_row, same_db) = insert_event-eq-ok pg (row_of run_id) db mid row' put in
      subst₂ (Persisted pg py now event view db) (sym same_row ∙ returned row' mid last)
        (ap
            (λ (m : Db). record m {
              runs =
                  update_where (λ r. r.id == run_id)
                    (λ r. record (run_values view r) { updated_at = now }) m.runs;
            })
            (sym same_db)
          ∙ stored row' mid last)
        (final-Persisted run_id db parsed (put ∙ ap₂ (λ r m. ok (r, m)) same_row same_db))
    where
      updated : Db → Db
      updated m = record m {
        runs =
            update_where (λ r. r.id == run_id)
              (λ r. record (run_values view r) { updated_at = now }) m.runs;
      }

      returned :
          (row' : RunEventRow) (mid : Db)
          → ◌≡◌ {A = Result (RunEventRow × Db)} (ok (row', updated mid)) (ok (row, db'))
          → row' ≡ row
      returned row' mid h = cc

      stored :
          (row' : RunEventRow) (mid : Db)
          → ◌≡◌ {A = Result (RunEventRow × Db)} (ok (row', updated mid)) (ok (row, db'))
          → updated mid ≡ db'
      stored row' mid h = ground arith

  pub persist_event-Persisted :
      (db db' : Db) (row : RunEventRow)
      → persist_event pg py now event view db ≡ ok (row, db')
      → Persisted pg py now event view db row db'
  unfolding persist_event
  persist_event-Persisted db db' row e =
      let (run_id, mid, got, rest) =
        >>=-eq-ok (accepted (py.parse_uuid event.run_id)) _ db db' row e in
      let (parsed, same) = accepted-eq-ok db mid run_id got in
      subst (λ m. Persisted pg py now event view m row db') same
        (after_parse run_id mid db' row parsed rest)
