-- ===== src/Repo/Tests.antt =====
-- Runs of the repository functions on two small runs.
use z_apply_backend.Base.{
  ℕ, ◌<◌, Option, [], ◌∷◌, ◌≡◌, refl, true, false, none, some, List, ◌++◌, All, length, select,
  take, ◌+◌,
}
use z_apply_backend.Base.Int.{pos}
use z_apply_backend.Fixtures.{python, run_row, two_runs, two_runs-IsValid}
use z_apply_backend.Models.{RunRow, RunEventRow, ModelCallRow, Db}
use z_apply_backend.Repo.{ok}
use z_apply_backend.Repo.Events.{has_run}
use z_apply_backend.Repo.Runs.{run_filter, list_runs, get_run}
use z_apply_backend.Repo.Interrupt.{is_active, interrupt_active_runs}
use z_apply_backend.Repo.Pages.{newest_first, list_runs-pages}
use z_apply_backend.Repo.Restart.{Ended, interrupt_active_runs_lem}
use z_apply_backend.Repo.Restart.Closing.{Each}
use z_apply_backend.Repo.Valid.{IsValid}
use z_apply_backend.Sql.Sorting.{in_memory, sort}
use z_apply_backend.Sql.Order.{Sorted}

interrupt_active_runs_lem_example :
    (events : List RunEventRow) × (db' : Db) × (interrupt_active_runs in_memory python 30 two_runs
      ≡ ok (events, db'))
    × IsValid db'
    × (db'.events ≡ two_runs.events ++ events)
    × (length events ≡ length (select is_active two_runs.runs))
    × All (λ e. (e.kind ≡ "run.interrupted")) events
    × Each (Ended 30) two_runs.runs db'.runs
    × All (λ r. is_active r ≡ false) db'.runs
interrupt_active_runs_lem_example =
    interrupt_active_runs_lem in_memory python 30 two_runs two_runs-IsValid

two_runs-get_run : get_run two_runs 2 ≡ some (run_row 2 "running")
unfolding get_run
two_runs-get_run = refl

abbrev call : ℕ → ℕ → ModelCallRow
call id sequence = record {
  id = id;
  run_id = 2;
  sequence = sequence;
  agent = "navigator";
  model = "m";
  provider = "p";
  input_tokens = pos 100;
  output_tokens = pos 7;
  cache_read_tokens = pos 130;
  ttft_ms = none;
  duration_ms = none;
  tok_per_second = none;
  cost_usd = none;
  occurred_at = 20;
}

abbrev two_calls : Db
two_calls = record two_runs { model_calls = call 1 9 ∷ call 2 4 ∷ [] }

abbrev cents : List (Option ℕ) → ℕ
cents [] = 0
cents (none ∷ costs) = cents costs
cents (some n ∷ costs) = n + cents costs

run_known : has_run 2 two_runs.runs ≡ true
unfolding has_run
run_known = refl

abbrev run_at : ℕ → ℕ → RunRow
run_at id created_at = record (run_row id "running") { created_at = created_at }

abbrev three_runs : Db
three_runs = record two_runs { runs = run_at 2 10 ∷ run_at 3 30 ∷ run_at 4 20 ∷ [] }

first_page :
    list_runs in_memory three_runs 2 none (some "running") none
    ≡ (run_at 3 30 ∷ []) ++ run_at 4 20 ∷ []
unfolding list_runs run_filter sort
first_page = refl

list_runs-pages_example :
    let next = list_runs in_memory three_runs 2 (some 20) (some "running") none in
    Sorted newest_first (((run_at 3 30 ∷ []) ++ run_at 4 20 ∷ []) ++ next)
    × All
        (λ (r : RunRow).
          All
            (λ (q : RunRow). r.created_at < q.created_at)
            ((run_at 3 30 ∷ []) ++ run_at 4 20 ∷ []))
        next
    × (length next
        ≡ length (take 2 (select (run_filter (some 20) (some "running") none) three_runs.runs)))
list_runs-pages_example =
    list_runs-pages in_memory three_runs (some "running") none 2 2 none (run_at 3 30 ∷ [])
      (run_at 4 20) first_page
