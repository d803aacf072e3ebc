-- ===== src/Stream/Invariant.antt =====
-- What holds of a subscriber and its writers in every reachable state.
pub mod Writers
pub mod Replays
pub mod Takes
pub mod Turns
use mathlib.Core.List.{map-append}
use z_apply_backend.Base.{
  ℕ, ◌≤◌, ◌<◌, ◌≡◌, refl, sym, ap, ◌∙◌, subst, ◌⊎◌, inl, inr, Bool, true, false, Option, none, some,
  List, [], ◌∷◌, ◌++◌, arith, ltb, length, take, All, All-append, All-append_left, All-append_right,
  All-map, append_nil, append_assoc, Bool-cases, if◌then◌else◌, ltb→lt, map,
}
use z_apply_backend.Hub.{StoredEvent, AsyncQueue, get_nowait, offer}
use z_apply_backend.Hub.Laws.{offered, offer-offered}
use z_apply_backend.Json.{Fields}
use z_apply_backend.Models.{RunEventRow, Db}
use z_apply_backend.Repo.Events.{max_event_id, list_events}
use z_apply_backend.Sql.{Postgres}
use z_apply_backend.Stream.{
  Stream, Mode, opening, replaying, live, closed, open_stream, replay_round, live_round, timeout,
  item, page_size, Output, frame, keepalive, reset, replay_page, replay_rows,
}
use z_apply_backend.Stream.Covers.{keys, Covers, Covers-commit, Covers-publish}
use z_apply_backend.Stream.Replay.{
  ids, sent, sent-append, replay_rows-cursor, replay_rows-mode, replay_rows-sent, ids-page,
  length-ids, max_event_id-bound,
}
use z_apply_backend.Stream.System.{
  World, Step, commit, publish, open_cursor, replay, get, wait, disconnect, Reach, here, next,
}
use z_apply_backend.Stream.Window.{
  Ascends, window, above, last_or, last_or-above_le, window-page, short_page, window-snoc,
  window-next,
}

-- The ids sent are those of the committed events above the start and up to the cursor.
pub record Sends (w : World) : Type 0 where
  pub above_start : w.start ≤ w.stream.cursor
  pub bounded : (w.start ≡ w.stream.cursor) ⊎ (w.stream.cursor ≤ max_event_id w.db)
  pub exact : sent w.stream.outputs ≡ window w.start w.stream.cursor (ids w.db.events)

abbrev pub Phase : Mode → ℕ → Stream → List ℕ → Type 0
Phase opening start s gone = (start ≡ s.cursor) × (s.outputs ≡ [])
Phase live start s gone = All (λ n. n ≤ s.cursor) gone
Phase _ start s gone = Unit

-- `gone` are the ids that the queue is done with, `ahead` those that follow.
pub record Inv (w : World) : Type 0 where
  pub ascends : Ascends (ids w.db.events)
  pub positive : All (λ n. 0 < n) (ids w.db.events)
  pub sends : Sends w
  pub gone : List ℕ
  pub ahead : List ℕ
  pub split : ids w.db.events ≡ gone ++ ahead
  pub covers : (w.stream.mode ≡ closed) ⊎ Covers (keys w.pending) w.queue.items ahead
  pub phase : Phase w.stream.mode w.start w.stream gone

pub window-empty : (c : ℕ) (ns : List ℕ) → window c c ns ≡ []
window-empty c [] = refl
window-empty c (n ∷ ns) = ground (arith, window-empty c ns)

pub Ascends-snoc : (n : ℕ) (ns : List ℕ) → All (λ m. m < n) ns → Ascends ns → Ascends (ns ++ n ∷ [])
Ascends-snoc n [] h a = (tt, tt)
Ascends-snoc n (m ∷ ns) h a = (All-append _ ns (n ∷ []) a.0 (h.0, tt), Ascends-snoc n ns h.1 a.1)
