-- ===== src/Stream/Tests.antt =====
-- A stream that replays two events, waits, and is sent a third one live.
use z_apply_backend.Base.{ℕ, ◌<◌, ◌≤◌, ◌≡◌, ◌≢◌, refl, List, [], ◌∷◌, ◌++◌, some, arith, All}
use z_apply_backend.Fixtures.{event_row, two_runs, stored_event}
use z_apply_backend.Hub.{AsyncQueue, offer, get_nowait}
use z_apply_backend.Json.{Fields}
use z_apply_backend.Models.{RunEventRow, Db}
use z_apply_backend.Repo.Events.{max_event_id, list_events}
use z_apply_backend.Sql.Sorting.{in_memory, sort}
use z_apply_backend.Stream.{
  Frame, reset, live, Stream, opening, item, open_stream, replay_round, replay_loop, live_round,
}
use z_apply_backend.Stream.Ascending.{stream-Ascends}
use z_apply_backend.Stream.Distinct.{Distinct}
use z_apply_backend.Stream.Delivery.{Registered, stream_in_order, stream_complete}
use z_apply_backend.Stream.Late.{live_rounds, replay_rounds, reconnected, late_lost}
use z_apply_backend.Stream.Reset.{reset-reconnect}
use z_apply_backend.Stream.Replay.{ids, sent}
use z_apply_backend.Stream.System.{
  World, Reach, here, next, commit, publish, open_cursor, replay, get, Orderly,
}
use z_apply_backend.Stream.Termination.{replay_loop-live}
use z_apply_backend.Stream.Window.{Ascends, window, above}

abbrev stored_row : RunEventRow → Fields
stored_row row = row.payload

abbrev queue : List ℕ → AsyncQueue
queue [] = record { maxsize = 2; items = [] }
queue (n ∷ ns) = record { maxsize = 2; items = some (stored_event n) ∷ [] }

abbrev start : World
start = record {
  db = two_runs;
  pending = [];
  queue = queue [];
  stream = record { cursor = 0; mode = opening; outputs = [] };
  start = 0;
}

start-Registered : Registered start
start-Registered = record {
  ascends = ((ground arith, tt), (tt, tt));
  positive = (ground arith, (ground arith, tt));
  published = 1 ∷ 4 ∷ [];
  backlog = refl;
  empty = refl;
  unopened = refl;
  silent = refl;
  begins = refl;
}

abbrev after_commit : Db
after_commit = record two_runs {
  events = two_runs.events ++ event_row 6 2 3 ∷ [];
  last_event_id = 6;
}

abbrev opened : Stream
opened = open_stream 0 (max_event_id two_runs)

abbrev replayed : Stream
replayed = replay_round in_memory stored_row two_runs opened

abbrev final : World
final = record {
  db = after_commit;
  pending = [];
  queue = queue [];
  stream = live_round (item (some (stored_event 6))) replayed;
  start = 0;
}

fresh : All (λ (e : RunEventRow). e.id ≢ 6) two_runs.events
fresh = (λ e. omega (arith, e), (λ e. omega (arith, e), tt))

positive : 0 < 6
positive = ground arith

unfoldable reached : Reach in_memory stored_row start final
unfolding open_stream replay_round live_round max_event_id offer get_nowait list_events sort
reached =
    next
      (next
        (next (next (next here (open_cursor refl)) (replay refl))
          (commit after_commit (event_row 6 2 3) (stored_event 6) refl fresh positive refl))
        (publish [] (stored_event 6) [] (queue (6 ∷ [])) refl refl))
      (get (some (stored_event 6)) (queue []) refl refl)

newest : max_event_id two_runs < 6
unfolding max_event_id
newest = ground arith

reached-Orderly : Orderly in_memory stored_row reached
unfolding reached
reached-Orderly = (((((tt, tt), tt), newest), refl), tt)

stream_in_order_example :
    sent final.stream.outputs ≡ window 0 final.stream.cursor (ids after_commit.events)
stream_in_order_example =
    stream_in_order in_memory stored_row start-Registered reached reached-Orderly

stream_complete_example : sent final.stream.outputs ≡ above 0 (ids after_commit.events)
unfolding live_round replay_round open_stream list_events sort max_event_id
stream_complete_example =
    stream_complete in_memory stored_row start-Registered reached reached-Orderly refl refl refl

-- The tables after the event 5 was committed late.
abbrev after_late : Db
after_late = record after_commit { events = after_commit.events ++ event_row 5 2 4 ∷ [] }

fresh_5 : All (λ (e : RunEventRow). e.id ≢ 5) after_commit.events
fresh_5 = (λ e. omega (arith, e), (λ e. omega (arith, e), (λ e. omega (arith, e), tt)))

positive_5 : 0 < 5
positive_5 = ground arith

abbrev overlapped : World
overlapped = record {
  db = after_late;
  pending = [];
  queue = queue [];
  stream = live_round (item (some (stored_event 5))) final.stream;
  start = 0;
}

-- Two writers overlap: the event 6 is sent before the event 5 is published.
overlap : Reach in_memory stored_row start overlapped
unfolding open_stream replay_round live_round max_event_id offer get_nowait list_events sort
overlap =
    next
      (next
        (next
          (next
            (next
              (next (next (next here (open_cursor refl)) (replay refl))
                (commit after_commit (event_row 6 2 3) (stored_event 6) refl fresh positive refl))
              (commit after_late (event_row 5 2 4) (stored_event 5) refl fresh_5 positive_5 refl))
            (publish [] (stored_event 6) (stored_event 5 ∷ []) (queue (6 ∷ [])) refl refl))
          (get (some (stored_event 6)) (queue []) refl refl))
        (publish [] (stored_event 5) [] (queue (5 ∷ [])) refl refl))
      (get (some (stored_event 5)) (queue []) refl refl)

two_runs-Distinct : Distinct two_runs.events
two_runs-Distinct = ((λ e. omega (arith, e), tt), (tt, tt))

two_runs_positive : All (λ (e : RunEventRow). 0 < e.id) two_runs.events
two_runs_positive = (ground arith, (ground arith, tt))

stream-Ascends_example :
    Ascends (sent overlapped.stream.outputs)
    × All (λ n. overlapped.start < n) (sent overlapped.stream.outputs)
    × All (λ n. n ≤ overlapped.stream.cursor) (sent overlapped.stream.outputs)
stream-Ascends_example =
    stream-Ascends in_memory stored_row two_runs-Distinct two_runs_positive refl refl overlap

max_event_id-two_runs : max_event_id two_runs < 9
unfolding max_event_id
max_event_id-two_runs = ground arith

reset-reconnect_example :
    (notice : Frame) × (open_stream 9 (max_event_id two_runs)).outputs ≡ reset notice ∷ []
    × ((open_stream 9 (max_event_id two_runs)).cursor ≡ 0)
    × ((replay_round in_memory stored_row two_runs
          (open_stream notice.event_id (max_event_id two_runs))).outputs
        ≡ [])
    × ((replay_round in_memory stored_row two_runs
          (open_stream notice.event_id (max_event_id two_runs))).mode
        ≡ live)
reset-reconnect_example =
    reset-reconnect in_memory stored_row two_runs start-Registered.ascends start-Registered.positive
      9 max_event_id-two_runs

replay_loop-live_example :
    let t = replay_loop 1 in_memory stored_row two_runs opened in
    (t.mode ≡ live)
    × (sent t.outputs ≡ sent opened.outputs ++ above opened.cursor (ids two_runs.events))
unfolding open_stream max_event_id
replay_loop-live_example =
    replay_loop-live in_memory stored_row two_runs ((ground arith, tt), (tt, tt))
      (ground arith, (ground arith, tt)) 1 opened refl (ground arith)

final_cursor : 5 < final.stream.cursor
unfolding live_round replay_round open_stream list_events sort max_event_id
final_cursor = ground arith

final_held :
    (live_rounds (item (some (stored_event 5)) ∷ []) final.stream).cursor ≤ max_event_id after_late
unfolding live_round replay_round open_stream list_events sort max_event_id
final_held = ground arith

-- The event 6 was sent; then the event 5 is committed and published.
late_lost_example :
    let t = live_rounds (item (some (stored_event 5)) ∷ []) final.stream in
    (new : List ℕ) × (sent t.outputs ≡ sent final.stream.outputs ++ new)
    × All (λ m. 5 < m) new
    × All
        (λ m. 5 < m)
        (sent
          (replay_rounds in_memory stored_row (after_late ∷ []) (reconnected after_late t)).outputs)
late_lost_example =
    late_lost in_memory stored_row 5 final.stream (item (some (stored_event 5)) ∷ []) after_late
      (after_late ∷ []) final_cursor final_held
