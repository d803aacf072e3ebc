-- ===== src/Repo/Restart/Rounds.antt =====
-- The rounds of the loop of `interrupt_active_runs`, and what the whole loop does.
use z_apply_backend.Base.{
  ℕ, ◌≡◌, refl, sym, ap, ◌∙◌, true, List, [], ◌∷◌, ◌++◌, arith, ◌==◌, map, All, All-map,
  append_assoc, append_nil,
}
use z_apply_backend.Json.{Python}
use z_apply_backend.Models.{Datetime, RunRow, RunEventRow, Db}
use z_apply_backend.Repo.{ok}
use z_apply_backend.Repo.Events.{has_run, next_run_sequence}
use z_apply_backend.Repo.Interrupt.{interrupted, interrupted_event, interrupt_run, interrupt_each}
use z_apply_backend.Repo.Valid.{
  IsValid, made, with_event, insert_event-ok, with_event-IsValid, update_run-IsValid,
  has_run-update, next_run_sequence-fresh,
}
use z_apply_backend.Sql.{Postgres}
use z_apply_backend.Repo.Restart.Closing.{
  closed_runs, Each, ClosedIn, closed_runs-Each, ClosedIn-trans, Each-same, Each-trans,
}

module _ (pg : Postgres) (py : Python) (t : Datetime) where
  abbrev sequence_of : Db → RunRow → ℕ
  sequence_of db row = next_run_sequence db row.id row.latest_run_sequence

  abbrev updated : Db → RunRow → Db
  updated db row = record db { runs = closed_runs t (sequence_of db row) row.id db.runs }

  abbrev event_for : Db → RunRow → ℕ → RunEventRow
  event_for db row = interrupted_event py t (sequence_of db row) row

  abbrev after_round : Db → RunRow → Db
  after_round db row = with_event pg (event_for db row) (updated db row)

  interrupted-id : (sequence : ℕ) (r : RunRow) → (interrupted t sequence r).id ≡ r.id
  unfolding interrupted
  interrupted-id sequence r = refl

  known :
      (db : Db) (row : RunRow)
      → has_run row.id db.runs ≡ true
      → has_run row.id (updated db row).runs ≡ true
  known db row h =
      has_run-update row.id (λ r. r.id == row.id) _ db.runs (interrupted-id (sequence_of db row))
      ∙ h

  interrupt_run-ok :
      (db : Db) (row : RunRow)
      → has_run row.id db.runs ≡ true
      → interrupt_run pg py t row db
        ≡ ok (made pg (event_for db row) (updated db row), after_round db row)
  unfolding interrupt_run interrupted_event
  interrupt_run-ok db row h =
      insert_event-ok pg (event_for db row) (updated db row) (known db row h)
        (next_run_sequence-fresh db row.id row.latest_run_sequence)

  after_round-IsValid :
      (db : Db) (row : RunRow)
      → has_run row.id db.runs ≡ true
      → IsValid db
      → IsValid (after_round db row)
  unfolding interrupted_event
  after_round-IsValid db row h v =
      with_event-IsValid pg (event_for db row) (updated db row) (λ n. refl) (known db row h)
        (next_run_sequence-fresh db row.id row.latest_run_sequence)
        (update_run-IsValid row.id t (interrupted t (sequence_of db row)) db
          (interrupted-id (sequence_of db row)) v)

module _ (pg : Postgres) (py : Python) (t : Datetime) where
  -- What the loop has done when it ends.
  pub record Interrupts (db : Db) (rows : List RunRow) (events : List RunEventRow) (db' : Db)
      : Type 0 where
    pub returns : interrupt_each pg py t rows db ≡ ok (events, db')
    pub valid : IsValid db'
    pub appended : db'.events ≡ db.events ++ events
    pub owners : map (λ e. e.run_id) events ≡ map (λ r. r.id) rows
    pub kinds : All (λ e. e.kind ≡ "run.interrupted") events
    pub runs : Each (ClosedIn t rows) db.runs db'.runs

  interrupt_each-cons :
      (row : RunRow) (rows : List RunRow) (event : RunEventRow) (events : List RunEventRow)
      (db mid db' : Db)
      → interrupt_run pg py t row db ≡ ok (event, mid)
      → interrupt_each pg py t rows mid ≡ ok (events, db')
      → interrupt_each pg py t (row ∷ rows) db ≡ ok (event ∷ events, db')
  unfolding interrupt_each
  interrupt_each-cons row rows event events db mid db' first rest = ground arith

  interrupt_each-nil : (db : Db) → interrupt_each pg py t [] db ≡ ok ([], db)
  unfolding interrupt_each
  interrupt_each-nil db = refl

  pub interrupt_each-Interrupts :
      (rows : List RunRow) (db : Db)
      → All (λ r. has_run r.id db.runs ≡ true) rows
      → IsValid db
      → (events : List RunEventRow) × (db' : Db) × Interrupts db rows events db'
  unfolding interrupted_event
  interrupt_each-Interrupts [] db h v = (
    [],
    db,
    record {
      returns = interrupt_each-nil db;
      valid = v;
      appended = sym (append_nil db.events);
      owners = refl;
      kinds = tt;
      runs = Each-same t db.runs;
    },
  )
  interrupt_each-Interrupts (row ∷ rows) db h v =
      let (events, db', rest) = interrupt_each-Interrupts rows next later valid in
      (event ∷ events, db', together events db' rest)
    where
      next : Db
      next = after_round pg py t db row

      event : RunEventRow
      event = made pg (event_for pg py t db row) (updated pg py t db row)

      valid : IsValid next
      valid = after_round-IsValid pg py t db row h.0 v

      later : All (λ r. has_run r.id next.runs ≡ true) rows
      later =
          All-map _ _
            (λ r k.
              has_run-update r.id _ _ db.runs (interrupted-id pg py t (sequence_of pg py t db row))
              ∙ k)
            rows h.1

      together :
          (events : List RunEventRow) (db' : Db)
          → Interrupts next rows events db'
          → Interrupts db (row ∷ rows) (event ∷ events) db'
      together events db' rest = record {
        returns =
            interrupt_each-cons row rows event events db next db'
              (interrupt_run-ok pg py t db row h.0) rest.returns;
        valid = rest.valid;
        appended = rest.appended ∙ append_assoc db.events (event ∷ []) events;
        owners = ap (◌∷◌ row.id) rest.owners;
        kinds = (refl, rest.kinds);
        runs =
            Each-trans (ClosedIn t (row ∷ [])) (ClosedIn t rows) (ClosedIn t (row ∷ rows))
              (ClosedIn-trans t row rows) db.runs next.runs db'.runs
              (closed_runs-Each t (sequence_of pg py t db row) row db.runs) rest.runs;
      }
