-- ===== src/Store/Tests.antt =====
-- Runs of `EventStore.accept`.
use z_apply_backend.Base.{◌≡◌, refl, true, false, ◌⊎◌}
use z_apply_backend.Fixtures.{python, core, event, view, two_runs}
use z_apply_backend.Models.{RunEventRow}
use z_apply_backend.Repo.{integrity_error}
use z_apply_backend.Repo.Events.{has_run, has_sequence}
use z_apply_backend.Hub.{init}
use z_apply_backend.Sql.Sorting.{in_memory}
use z_apply_backend.Store.{Backend, accept, stored, tx_failed}
use z_apply_backend.Store.Atomic.{Accepts, accept_atomic}
use z_apply_backend.Store.Once.{Plain, Known, Kept, accept-once}

abbrev backend : Backend
backend = record { db = two_runs; hub = init 2 }

accept_atomic_example :
    let (o, b') = accept in_memory python core 30 (event "xx" 3) backend in
    Accepts in_memory python core 30 (event "xx" 3) backend o b'
accept_atomic_example = accept_atomic in_memory python core 30 (event "xx" 3) backend

plain : Plain in_memory python core 30 (event "xx" 3) backend
plain = record { no_human = refl; no_artifact = refl; no_call = refl }

known : Known in_memory python 30 (event "xx" 3) (view "xx" "running") 2 two_runs
unfolding has_run
known = record { parsed = refl; known = refl }

accept-once_example :
    ((has_sequence 2 3 two_runs.events ≡ true)
      × ((accept in_memory python core 30 (event "xx" 3) backend).0 ≡ tx_failed integrity_error)
      × ((accept in_memory python core 30 (event "xx" 3) backend).1 ≡ backend))
    ⊎ ((has_sequence 2 3 two_runs.events ≡ false)
        × ((row : RunEventRow) × ((accept in_memory python core 30 (event "xx" 3) backend).0
              ≡ stored row)
            × Kept in_memory python core 30
                (event "xx" 3)
                backend
                2
                row
                (accept in_memory python core 30 (event "xx" 3) backend).1.db))
accept-once_example =
    accept-once in_memory python core 30 (event "xx" 3) backend 0 (view "xx" "running") 2 plain refl
      refl known
