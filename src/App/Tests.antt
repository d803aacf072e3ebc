-- ===== src/App/Tests.antt =====
-- A start, some requests, and the end, on two small runs.
use z_apply_backend.App.{start_up, default_queue_size}
use z_apply_backend.App.Driver.{
  ProcEntry, Kill, signalled, gone, denied, scan, looked_at, killed_one, is_marked, occurs,
  begins_with, isdigit, all_digits, is_digit, spaced_out, kill_line, force_kill_browser_driver,
}
use z_apply_backend.App.Killed.{lines, unless_empty, force_kill_browser_driver-lines}
use z_apply_backend.App.Lifespan.{outcome_of, start_up_lem}
use z_apply_backend.App.Announced.{key_of}
use z_apply_backend.App.Published.{
  serve_all-published, serve_all-queue_of, Unsubscribes, UnsubscribesAll,
}
use z_apply_backend.App.Requests.{
  accepts, creates, answers, polls, subscribes, unsubscribes, Requests, done', then', serve_all,
}
use z_apply_backend.App.Serving.{serve_all-kept, lifetimes, lifetimes-kept}
use z_apply_backend.Base.{
  ◌≢◌, arith, refl, ℕ, String, Option, codes, ◌≡◌, true, false, none, some, List, [], ◌∷◌, ◌++◌,
  All, length, select, map,
}
use z_apply_backend.Fixtures.{
  python, core, event, two_runs, two_runs-IsValid, defaults, request, supervisor,
}
use z_apply_backend.Human.{Reply}
use z_apply_backend.Hub.{init, register, queue_of, StoredEvent}
use z_apply_backend.Hub.Queues.{sent_key, offered_all}
use z_apply_backend.Hub.Invariant.{Call, run, published}
use z_apply_backend.Models.{Datetime, RunEventRow, Db}
use z_apply_backend.Repo.Interrupt.{is_active}
use z_apply_backend.Repo.Valid.{IsValid}
use z_apply_backend.Sql.Sorting.{in_memory}
use z_apply_backend.Store.{Backend}

start_up_lem_example :
    (events : List RunEventRow) × (db' : Db) × (start_up in_memory python 30 true true two_runs
      ≡ (outcome_of true, db'))
    × IsValid db'
    × All (λ r. is_active r ≡ false) db'.runs
    × (db'.events ≡ two_runs.events ++ events)
    × (length events ≡ length (select is_active two_runs.runs))
    × ((init default_queue_size).queues ≡ [])
start_up_lem_example = start_up_lem in_memory python 30 true two_runs two_runs-IsValid

-- A subscriber, an event of the Core, a run that the Core refuses after another event, an answer
-- and a look at the requests of a run with no Core to ask, and the end of the subscriber.
abbrev requests : Requests
requests = then' subscribes (
    then' (accepts 31 (event "xx" 3)) (
      then'
        (creates 5 40 41 request (some "CoreShuttingDown") supervisor
          (then' (accepts 40 (event "xx" 4)) done'))
        (then' (answers 7 none (λ id text. Reply.raised (λ c. true)) "yes")
          (then' (polls 2 none) (then' (unsubscribes 0) done')))))

abbrev backend : Backend
backend = record { db = two_runs; hub = init 2 }

serve_all-kept_example :
    IsValid (serve_all in_memory python core defaults requests backend).db
    × ((rest : List RunEventRow) × ((serve_all in_memory python core defaults requests
            backend).db.events
          ≡ two_runs.events ++ rest))
serve_all-kept_example =
    serve_all-kept in_memory python core defaults requests backend two_runs-IsValid

abbrev lives : List (Datetime × Requests)
lives = (30, requests) ∷ (50, done') ∷ []

lifetimes-kept_example :
    let db' =
      (start_up in_memory python 60 true true
        (lifetimes in_memory python core defaults lives two_runs)).1 in
    IsValid db'
    × All (λ r. is_active r ≡ false) db'.runs
    × ((rest : List RunEventRow) × (db'.events ≡ two_runs.events ++ rest))
lifetimes-kept_example =
    lifetimes-kept in_memory python core defaults lives 60 two_runs two_runs-IsValid

serve_all-published_example :
    (rows : List RunEventRow) × (calls : List Call) × ((serve_all in_memory python core defaults
        requests backend).db.events
      ≡ two_runs.events ++ rows)
    × (run (init 2) calls ≡ some (serve_all in_memory python core defaults requests backend).hub)
    × (published calls ≡ map key_of rows)
serve_all-published_example = serve_all-published in_memory python core defaults requests backend

abbrev process : String → Option (List ℕ) → Kill → ProcEntry
process name cmdline kill = record { name = codes name; cmdline = cmdline; kill = kill }

-- Another entry of /proc, one that cannot be read, three processes of the browser, of which one is
-- gone and one may not be killed, and one behind it.
abbrev entries : List ProcEntry
entries =
    process "self" (some (codes "camoufox-bin")) signalled
    ∷ process "3" none signalled
    ∷ process "41" (some (codes "/opt/camoufox-bin")) signalled
    ∷ process "42" (some (codes "/opt/camoufox-bin")) gone
    ∷ process "43" (some (codes "/opt/camoufox-bin")) denied
    ∷ process "44" (some (codes "/opt/camoufox-bin")) signalled
    ∷ []

force_kill_browser_driver-lines_example :
    force_kill_browser_driver (λ bytes. bytes) entries
    ≡ unless_empty (lines (λ bytes. bytes) entries)
force_kill_browser_driver-lines_example = force_kill_browser_driver-lines (λ bytes. bytes) entries

last_is_left :
    force_kill_browser_driver (λ bytes. bytes) entries ≡ some (codes "41:/opt/camoufox-bin" ∷ [])
unfolding force_kill_browser_driver scan looked_at killed_one is_marked occurs begins_with isdigit
    all_digits is_digit spaced_out kill_line
last_is_left = refl

abbrev watched : Backend
watched = record backend { hub = (register (init 2)).0 }

abbrev traffic : Requests
traffic = then' (accepts 31 (event "xx" 3)) (
    then'
      (creates 5 40 41 request (some "CoreShuttingDown") supervisor
        (then' (accepts 40 (event "xx" 4)) done'))
      (then' subscribes (then' (unsubscribes 1) done')))

traffic_stays : UnsubscribesAll (λ k. k ≢ 0) traffic
unfolding UnsubscribesAll Unsubscribes
traffic_stays = (tt, ((tt, tt), (tt, ((λ e. omega arith), tt))))

serve_all-queue_of_example :
    (rows : List RunEventRow) × (events : List StoredEvent) × ((serve_all in_memory python core
        defaults traffic watched).db.events
      ≡ two_runs.events ++ rows)
    × (map sent_key events ≡ map key_of rows)
    × (queue_of 0 (serve_all in_memory python core defaults traffic watched).hub.queues
        ≡ some (offered_all events (record { maxsize = 2; items = [] })))
unfolding register queue_of init
serve_all-queue_of_example =
    serve_all-queue_of in_memory python core defaults traffic watched 0
      (record { maxsize = 2; items = [] }) traffic_stays (omega arith) refl
