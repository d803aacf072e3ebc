-- ===== src/Stream/Committed.antt =====
-- Where the events come from that a subscriber of GET /events/stream is sent.
use z_apply_backend.Base.{ℕ, ◌≡◌, true, Option, none, some, List, ◌==◌, any, All}
use z_apply_backend.Hub.{StoredEvent}
use z_apply_backend.Models.{RunEventRow}
use z_apply_backend.Stream.{Stream}
use z_apply_backend.Stream.Replay.{sent}
use z_apply_backend.Stream.System.{World}

-- An event with this id is in the table; so is that of an item of a queue, if it is an event.
abbrev pub IsCommitted : List RunEventRow → ℕ → Type 0
IsCommitted rows n = any (λ e. e.id == n) rows ≡ true

abbrev IsQueued : List RunEventRow → Option StoredEvent → Type 0
IsQueued rows none = Unit
IsQueued rows (some event) = IsCommitted rows event.id

-- All events that wait, are queued or were sent are committed.
pub record Sourced (w : World) : Type 0 where
  pub waiting : All (λ (e : StoredEvent). IsCommitted w.db.events e.id) w.pending
  pub queued : All (IsQueued w.db.events) w.queue.items
  pub outputs : All (IsCommitted w.db.events) (sent w.stream.outputs)
