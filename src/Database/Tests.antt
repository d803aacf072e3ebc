-- ===== src/Database/Tests.antt =====
-- A scope that is cancelled in its commit and again at the shield, and two that nothing disturbs.
use z_apply_backend.Base.{◌≡◌, refl, none, true, false, List, [], ◌∷◌, length, ◌+◌, Option}
use z_apply_backend.Database.{
  Exception, Awaited, was_cancelled, ended, finished, resumes, is_cancelled, closes, step, run,
  open_scope, all_of, resume, interrupt, commit, finally, executed,
}
use z_apply_backend.Database.Calm.{calm, end_of, calm-session_scope}
use z_apply_backend.Database.Waits.{Left}
use z_apply_backend.Database.Closed.{closings-run}
use z_apply_backend.Fixtures.{run_row, two_runs}
use z_apply_backend.Repo.{Tx, session_scope}
use z_apply_backend.Repo.Events.{has_run}
use z_apply_backend.Repo.Runs.{insert_row}

-- The row of a new run, and then one whose key is taken.
abbrev statements : List (Tx (Unit {0}))
statements = insert_row (run_row 9 "active") ∷ []

abbrev twice : List (Tx (Unit {0}))
twice = insert_row (run_row 9 "active") ∷ insert_row (run_row 9 "active") ∷ []

abbrev events : List Awaited
events = resumes ∷ resumes ∷ resumes ∷ is_cancelled true ∷ is_cancelled false ∷ []

events_end : (run true events (open_scope true statements two_runs)).phase ≡ ended was_cancelled
unfolding run step resume open_scope interrupt commit finally executed insert_row has_run
events_end = refl

closings-run_example :
    let w = run true events (open_scope true statements two_runs) in
    Left true statements two_runs was_cancelled w.db
    × (w.closings ≡ 1)
    × ((x : Option Exception) × (step true (closes none) w).close ≡ finished x)
closings-run_example = closings-run true statements two_runs events was_cancelled events_end

calm-session_scope_example :
    let w = run true (calm (length twice + 3)) (open_scope true twice two_runs) in
    let (r, db') = session_scope (all_of twice) two_runs in
    (w.db ≡ db') × (w.phase ≡ ended (end_of r))
calm-session_scope_example = calm-session_scope twice two_runs
