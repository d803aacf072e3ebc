-- ===== src/Repo/Valid.antt =====
-- The tables that the schema of persistence/models.py admits, under the inserts and updates.
use z_apply_backend.Base.{
  ℕ, ◌≤◌, ◌<◌, ◌≡◌, refl, ◌∙◌, subst, inl, inr, Bool, true, false, List, [], ◌∷◌, ◌++◌, ◌&&◌, ◌||◌,
  arith, ◌==◌, max, max_of, select, get_or, update_where, All, All-append, All-map, Bool-cases,
}
use z_apply_backend.Models.{Uuid, Datetime, RunRow, RunEventRow, Db}
use z_apply_backend.Repo.{ok, err, integrity_error}
use z_apply_backend.Repo.Events.{has_run, has_sequence, next_run_sequence, insert_event}
use z_apply_backend.Repo.Queries.{by_id}
use z_apply_backend.Sql.{Postgres}
use z_apply_backend.Sql.Order.{Strict}

-- No two events of a run have one sequence number.
abbrev pub UniqueSequences : List RunEventRow → Type 0
UniqueSequences [] = Unit
UniqueSequences (e ∷ rows) =
    (has_sequence e.run_id e.run_sequence rows ≡ false) × UniqueSequences rows

abbrev pub UniqueKeys : List RunRow → Type 0
UniqueKeys [] = Unit
UniqueKeys (r ∷ rows) = (has_run r.id rows ≡ false) × UniqueKeys rows

-- The keys of the events grow in the order of insertion, up to the last number of their sequence;
-- the unique and foreign keys hold.
pub record IsValid (db : Db) : Type 0 where
  pub ordered : Strict by_id db.events
  pub numbered : All (λ e. (0 < e.id) × (e.id ≤ db.last_event_id)) db.events
  pub sequences : UniqueSequences db.events
  pub owned : All (λ e. has_run e.run_id db.runs ≡ true) db.events
  pub keys : UniqueKeys db.runs

Strict-snoc :
    (last : ℕ) (rows : List RunEventRow) (e : RunEventRow)
    → last < e.id
    → All (λ r. (0 < r.id) × (r.id ≤ last)) rows
    → Strict by_id rows
    → Strict by_id (rows ++ e ∷ [])
Strict-snoc last [] e h n s = (tt, tt)
Strict-snoc last (r ∷ rows) e h n s =
    (All-append _ rows (e ∷ []) s.0 (ground arith, tt), Strict-snoc last rows e h n.1 s.1)

has_sequence-snoc :
    (run_id : Uuid) (sequence : ℕ) (rows : List RunEventRow) (e : RunEventRow)
    → has_sequence run_id sequence (rows ++ e ∷ []) ≡ (
        has_sequence run_id sequence rows || ((e.run_id == run_id) && (e.run_sequence == sequence)))
unfolding has_sequence
has_sequence-snoc run_id sequence [] e = ground arith
has_sequence-snoc run_id sequence (r ∷ rows) e =
    ground (arith, has_sequence-snoc run_id sequence rows e)

UniqueSequences-snoc :
    (rows : List RunEventRow) (e : RunEventRow)
    → has_sequence e.run_id e.run_sequence rows ≡ false
    → UniqueSequences rows
    → UniqueSequences (rows ++ e ∷ [])
unfolding has_sequence
UniqueSequences-snoc [] e h u = (refl, tt)
UniqueSequences-snoc (r ∷ rows) e h u =
    ground (arith, has_sequence-snoc r.run_id r.run_sequence rows e, UniqueSequences-snoc rows e)

pub has_run-snoc :
    (run_id : Uuid) (rows : List RunRow) (r : RunRow)
    → has_run run_id (rows ++ r ∷ []) ≡ (has_run run_id rows || (r.id == run_id))
unfolding has_run
has_run-snoc run_id [] r = ground arith
has_run-snoc run_id (x ∷ rows) r = ground (arith, has_run-snoc run_id rows r)

pub UniqueKeys-snoc :
    (rows : List RunRow) (r : RunRow)
    → has_run r.id rows ≡ false
    → UniqueKeys rows
    → UniqueKeys (rows ++ r ∷ [])
unfolding has_run
UniqueKeys-snoc [] r h u = (refl, tt)
UniqueKeys-snoc (x ∷ rows) r h u = ground (arith, has_run-snoc x.id rows r, UniqueKeys-snoc rows r)

-- An update that leaves the keys alone.
abbrev pub KeepsId : (RunRow → RunRow) → Type 0
KeepsId change = (r : RunRow) → (change r).id ≡ r.id

pub has_run-update :
    (run_id : Uuid) (p : RunRow → Bool) (change : RunRow → RunRow) (rows : List RunRow)
    → KeepsId change
    → has_run run_id (update_where p change rows) ≡ has_run run_id rows
unfolding has_run
has_run-update run_id p change [] keeps = refl
has_run-update run_id p change (r ∷ rows) keeps =
    ground (arith, keeps r, has_run-update run_id p change rows keeps)

UniqueKeys-update :
    (p : RunRow → Bool) (change : RunRow → RunRow) (rows : List RunRow)
    → KeepsId change
    → UniqueKeys rows
    → UniqueKeys (update_where p change rows)
UniqueKeys-update p change [] keeps u = tt
UniqueKeys-update p change (r ∷ rows) keeps u = (
  elim (Bool-cases (p r)) [
    | inl t ↦ rw (t, keeps r) (has_run-update r.id p change rows keeps ∙ u.0)
    | inr f ↦ rw f (has_run-update r.id p change rows keeps ∙ u.0)
  ],
  UniqueKeys-update p change rows keeps u.1,
)

-- The row that `insert_event` makes, and the tables with it.
abbrev pub made : Postgres → (ℕ → RunEventRow) → Db → RunEventRow
made pg make db = make (pg.nextval db.last_event_id)

abbrev pub with_event : Postgres → (ℕ → RunEventRow) → Db → Db
with_event pg make db = record db {
  events = db.events ++ made pg make db ∷ [];
  last_event_id = pg.nextval db.last_event_id;
}

module _ (pg : Postgres) where
  -- An insert succeeds when its run exists and its sequence number is free.
  pub insert_event-ok :
      (make : ℕ → RunEventRow) (db : Db)
      → has_run (made pg make db).run_id db.runs ≡ true
      → has_sequence (made pg make db).run_id (made pg make db).run_sequence db.events ≡ false
      → insert_event pg make db ≡ ok (made pg make db, with_event pg make db)
  unfolding insert_event
  insert_event-ok make db known free = rw (known, free)

  pub with_event-IsValid :
      (make : ℕ → RunEventRow) (db : Db)
      → ((n : ℕ) → (make n).id ≡ n)
      → has_run (made pg make db).run_id db.runs ≡ true
      → has_sequence (made pg make db).run_id (made pg make db).run_sequence db.events ≡ false
      → IsValid db
      → IsValid (with_event pg make db)
  with_event-IsValid make db keyed known free v = record {
    ordered = Strict-snoc db.last_event_id db.events (made pg make db) later v.numbered v.ordered;
    numbered =
        All-append _ db.events (made pg make db ∷ [])
          (All-map _ _ (λ e b. (b.0, omega (arith, pg.nextval_grows db.last_event_id))) db.events
            v.numbered)
          ((omega arith, omega (arith, key)), tt);
    sequences = UniqueSequences-snoc db.events (made pg make db) free v.sequences;
    owned = All-append _ db.events (made pg make db ∷ []) v.owned (known, tt);
    keys = v.keys;
  }
    where
      key : (made pg make db).id ≡ pg.nextval db.last_event_id
      key = keyed (pg.nextval db.last_event_id)

      later : db.last_event_id < (made pg make db).id
      later = omega (arith, key, pg.nextval_grows db.last_event_id)

  -- Whatever `insert_event` accepts keeps the tables valid.
  pub insert_event-IsValid :
      (make : ℕ → RunEventRow) (db db' : Db) (row : RunEventRow)
      → ((n : ℕ) → (make n).id ≡ n)
      → insert_event pg make db ≡ ok (row, db')
      → IsValid db
      → IsValid db'
  unfolding insert_event
  insert_event-IsValid make db db' row keyed e v =
      elim (Bool-cases (has_run (made pg make db).run_id db.runs)) [
        | inr unknown ↦ absurd (cc (stopped unknown))
        | inl known ↦
            elim (Bool-cases
              (has_sequence (made pg make db).run_id (made pg make db).run_sequence db.events)) [
                | inl taken ↦ absurd (cc (refused known taken))
                | inr free ↦
                    subst IsValid (cc (insert_event-ok make db known free))
                      (with_event-IsValid make db keyed known free v)
              ]
      ]
    where
      stopped :
          has_run (made pg make db).run_id db.runs ≡ false
          → insert_event pg make db ≡ err integrity_error
      stopped unknown = rw unknown

      refused :
          has_run (made pg make db).run_id db.runs ≡ true
          → has_sequence (made pg make db).run_id (made pg make db).run_sequence db.events ≡ true
          → insert_event pg make db ≡ err integrity_error
      refused known taken = rw (known, taken)

pub update_run-IsValid :
    (run_id : Uuid) (now : Datetime) (change : RunRow → RunRow) (db : Db)
    → KeepsId change
    → IsValid db
    → IsValid (record db {
      runs =
          update_where (λ r. r.id == run_id) (λ r. record (change r) { updated_at = now }) db.runs;
    })
update_run-IsValid run_id now change db keeps v = record {
  ordered = v.ordered;
  numbered = v.numbered;
  sequences = v.sequences;
  owned = All-map _ _ (λ e h. has_run-update e.run_id _ _ db.runs keeps ∙ h) db.events v.owned;
  keys = UniqueKeys-update _ _ db.runs keeps v.keys;
}

top : List RunEventRow → ℕ
top rows = get_or (max_of (λ (e : RunEventRow). e.run_sequence) rows) 0

top-cons :
    (e : RunEventRow) (rows : List RunEventRow) → top (e ∷ rows) ≡ max e.run_sequence (top rows)
unfolding top
top-cons e rows = ground arith

has_sequence-above :
    (run_id : Uuid) (n : ℕ) (rows : List RunEventRow)
    → top (select (λ e. e.run_id == run_id) rows) < n
    → has_sequence run_id n rows ≡ false
unfolding has_sequence
has_sequence-above run_id n [] h = refl
has_sequence-above run_id n (e ∷ rows) h =
    ground
      (arith, top-cons e (select (λ e. e.run_id == run_id) rows), has_sequence-above run_id n rows)

-- The number that is allocated is above the cached one and above every durable one of the run.
pub next_run_sequence-fresh :
    (db : Db) (run_id : Uuid) (cached : ℕ)
    → has_sequence run_id (next_run_sequence db run_id cached) db.events ≡ false
unfolding next_run_sequence top
next_run_sequence-fresh db run_id cached =
    has_sequence-above run_id (next_run_sequence db run_id cached) db.events (omega arith)
