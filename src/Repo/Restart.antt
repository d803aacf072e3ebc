-- ===== src/Repo/Restart.antt =====
-- What `interrupt_active_runs` does to the tables.
pub mod Closing
mod Rounds
mod Selected
use z_apply_backend.Base.{
  ℕ, suc, ◌≡◌, refl, sym, ap, ◌∙◌, subst, String, Bool, true, false, Option, some, List, [], ◌∷◌,
  ◌++◌, arith, ◌==◌, str_eq, any, map, find?, length, select, update_where, All, All-map,
  append_assoc, append_nil, Bool-cases, inl, inr, ◌||◌, if◌then◌else◌,
}
use z_apply_backend.Json.{Python}
use z_apply_backend.Models.{Uuid, Datetime, RunRow, RunEventRow, Db}
use z_apply_backend.Repo.{Result, ok, ◌>>=◌}
use z_apply_backend.Repo.Events.{has_run, has_sequence, next_run_sequence, update_run}
use z_apply_backend.Repo.Interrupt.{
  is_active, interrupted, interrupted_event, interrupt_run, interrupt_each, interrupt_active_runs,
}
use z_apply_backend.Repo.Queries.{select-All}
use z_apply_backend.Repo.Valid.{
  IsValid, UniqueKeys, made, with_event, insert_event-ok, with_event-IsValid, update_run-IsValid,
  has_run-update, next_run_sequence-fresh,
}
use z_apply_backend.Sql.{Postgres}
use z_apply_backend.Sql.Order.{
  Ordering, done, pick, unordered, Ordering-All, Ordering-length, unordered-IsTotal,
  unordered-IsTransitive,
}
use z_apply_backend.Repo.Restart.Closing.{Each, Closed, ClosedIn, Each-map}
use z_apply_backend.Repo.Restart.Rounds.{interrupt_each-Interrupts}
use z_apply_backend.Repo.Restart.Selected.{length_of_map, has_run-Ordering, selected, self_known}

-- A run before and after: an active run is closed, and any other is as it was.
abbrev pub Ended : Datetime → RunRow → RunRow → Type 0
Ended t old new =
    (is_active old ≡ false → new ≡ old)
    × (is_active old ≡ true
        → (n : ℕ) × (new ≡ record old {
          status = "terminal";
          phase = "terminal";
          outcome = some "interrupted";
          summary = some "Backend restarted while this application was active; it was not retried.";
          browser_tab_state = "closed";
          latest_run_sequence = n;
          finished_at = some t;
          updated_at = t;
        }))

Closed-Ended :
    (t : Datetime) (old new : RunRow) → Closed t (is_active old) old new → Ended t old new
unfolding interrupted
Closed-Ended t old new c = c

Ended-is_active : (t : Datetime) (old new : RunRow) → Ended t old new → is_active new ≡ false
unfolding is_active
Ended-is_active t old new e = elim (Bool-cases (is_active old)) [
  | inl active ↦ let (n, closed) = e.1 active in ap is_active closed
  | inr idle ↦ ap is_active (e.0 idle) ∙ idle
]

none_active :
    (t : Datetime) (olds news : List RunRow)
    → Each (Ended t) olds news
    → All (λ r. is_active r ≡ false) news
none_active t [] [] e = tt
none_active t (old ∷ olds) (new ∷ news) e =
    (Ended-is_active t old new e.0, none_active t olds news e.1)
none_active t [] (new ∷ news) e = absurd e
none_active t (old ∷ olds) [] e = tt

-- On valid tables, `interrupt_active_runs` succeeds and leaves valid tables. Every active run ends
-- up terminal, with the outcome "interrupted", its tab closed and its finish time set; every other
-- run is as it was, so no run is active then. Exactly one event is added for each active run, all of type "run.interrupted",
-- and the events of before are kept.
pub interrupt_active_runs_lem :
    (pg : Postgres) (py : Python) (t : Datetime) (db : Db)
    → IsValid db
    → (events : List RunEventRow) × (db' : Db) × (interrupt_active_runs pg py t db
        ≡ ok (events, db'))
      × IsValid db'
      × (db'.events ≡ db.events ++ events)
      × (length events ≡ length (select is_active db.runs))
      × All (λ e. (e.kind ≡ "run.interrupted")) events
      × Each (Ended t) db.runs db'.runs
      × All (λ r. is_active r ≡ false) db'.runs
unfolding interrupt_active_runs
interrupt_active_runs_lem pg py t db v =
    let rows : List RunRow = pg.order_by unordered (select is_active db.runs) in
    let ordering =
      pg.order_by-Ordering unordered unordered-IsTotal unordered-IsTransitive
        (select is_active db.runs) in
    let (events, db', loop) =
      interrupt_each-Interrupts pg py t rows db
        (Ordering-All unordered _ ordering (select-All _ is_active db.runs (self_known db.runs)))
        v in
    let ended : Each (Ended t) db.runs db'.runs =
      Each-map (ClosedIn t rows) _ _
        (λ a b e p.
          Closed-Ended t a b (subst (λ l. Closed t l a b) (has_run-Ordering a.id ordering ∙ e) p))
        db.runs db'.runs (selected db.runs v.keys) loop.runs in
    (
      events,
      db',
      loop.returns,
      loop.valid,
      loop.appended,
      length_of_map events rows loop.owners ∙ Ordering-length unordered ordering,
      loop.kinds,
      ended,
      none_active t db.runs db'.runs ended,
    )
