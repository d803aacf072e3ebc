-- ===== src/Stream/System.antt =====
-- One subscriber of GET /events/stream among the writers of events: between two suspensions of its
-- generator any writer may commit an event, under a positive key that no other has, or publish one of those
-- that are committed and not yet published, in any order. `Orderly` singles out the runs in which
-- keys grow with the commits and events are published in the order of their commits.
use z_apply_backend.Base.{ℕ, ◌<◌, ◌≡◌, ◌≢◌, All, Option, some, List, [], ◌∷◌, ◌++◌}
use z_apply_backend.Hub.{StoredEvent, AsyncQueue, get_nowait, offer}
use z_apply_backend.Json.{Fields}
use z_apply_backend.Models.{RunEventRow, Db}
use z_apply_backend.Repo.Events.{max_event_id}
use z_apply_backend.Sql.{Postgres}
use z_apply_backend.Stream.{
  Stream, opening, replaying, live, closed, open_stream, replay_round, live_round, timeout, item,
}

-- The tables, the events committed and not yet published, the subscriber's queue and generator,
-- and the cursor from which its replay began.
pub record World : Type 0 where
  pub db : Db
  pub pending : List StoredEvent
  pub queue : AsyncQueue
  pub stream : Stream
  pub start : ℕ

module _ (pg : Postgres) (stored_row : RunEventRow → Fields) where
  pub data Step : World → World → Type 0 where
    commit :
        {w : World} (db : Db) (row : RunEventRow) (event : StoredEvent)
        → db.events ≡ w.db.events ++ row ∷ []
        → All (λ (e : RunEventRow). e.id ≢ row.id) w.db.events
        → 0 < row.id
        → event.id ≡ row.id
        → Step w (record w { db = db; pending = w.pending ++ event ∷ [] })
    publish :
        {w : World} (before : List StoredEvent) (event : StoredEvent) (after : List StoredEvent)
        (q : AsyncQueue)
        → w.pending ≡ before ++ event ∷ after
        → offer w.queue event ≡ some q
        → Step w (record w { pending = before ++ after; queue = q })
    open_cursor :
        {w : World}
        → w.stream.mode ≡ opening
        → Step w (record w {
          stream = open_stream w.stream.cursor (max_event_id w.db);
          start = (open_stream w.stream.cursor (max_event_id w.db)).cursor;
        })
    replay :
        {w : World}
        → w.stream.mode ≡ replaying
        → Step w (record w { stream = replay_round pg stored_row w.db w.stream })
    get :
        {w : World} (i : Option StoredEvent) (q : AsyncQueue)
        → w.stream.mode ≡ live
        → get_nowait w.queue ≡ some (i, q)
        → Step w (record w { queue = q; stream = live_round (item i) w.stream })
    wait :
        {w : World}
        → w.stream.mode ≡ live
        → w.queue.items ≡ []
        → Step w (record w { stream = live_round timeout w.stream })
    disconnect : {w : World} → Step w (record w { stream = record w.stream { mode = closed } })

  pub data Reach (w : World) : World → Type 0 where
    here : Reach w w
    next : {u v : World} → Reach w u → Step u v → Reach w v

  -- A commit gets a key above all committed ones, and a publishing takes the event that waits for
  -- longest. PostgreSQL's sequences and `accept` do not promise this of writers that overlap.
  abbrev pub OrderlyStep : {w u : World} → Step w u → Type 0
  OrderlyStep {w} (commit db row event added fresh positive same) = max_event_id w.db < row.id
  OrderlyStep (publish before event after q waiting put) = before ≡ []
  OrderlyStep (open_cursor m) = Unit
  OrderlyStep (replay m) = Unit
  OrderlyStep (get i q m taken) = Unit
  OrderlyStep (wait m empty) = Unit
  OrderlyStep disconnect = Unit

  abbrev pub Orderly : {w u : World} → Reach w u → Type 0
  Orderly here = Unit
  Orderly (next r st) = Orderly r × OrderlyStep st
