-- ===== src/Stream/Reset.antt =====
-- A cursor beyond the stored history, and the cursor that the reset frame leaves with the client.
use z_apply_backend.Base.{
  ℕ, ◌≤◌, ◌<◌, ◌≡◌, refl, ap, ◌∙◌, false, none, List, [], ◌∷◌, arith, take, All, lt→ltb, ltb-false,
}
use z_apply_backend.Base.Int.{pos}
use z_apply_backend.Json.{Fields, field, end, int}
use z_apply_backend.Models.{RunEventRow, Db}
use z_apply_backend.Repo.Events.{list_events, max_event_id}
use z_apply_backend.Sql.{Postgres}
use z_apply_backend.Stream.{
  Frame, Output, reset, Mode, Stream, live, replaying, open_stream, replay_rows, replay_page,
  replay_round, page_size,
}
use z_apply_backend.Stream.Replay.{ids, ids-page, max_event_id-bound}
use z_apply_backend.Stream.Window.{Ascends, above}

above-none : (c : ℕ) (ns : List ℕ) → All (λ n. n ≤ c) ns → above c ns ≡ []
above-none c [] h = refl
above-none c (n ∷ ns) h = rw (ltb-false c n h.0) (above-none c ns h.1)

no_rows : (rows : List RunEventRow) → ids rows ≡ [] → rows ≡ []
no_rows [] e = refl
no_rows (r ∷ rows) e = cc

abbrev opened : ℕ → Mode → List Output → Stream
opened cursor mode outputs = record { cursor = cursor; mode = mode; outputs = outputs }

abbrev reset_notice : ℕ → Frame
reset_notice top = record {
  event_id = top;
  event_type = "cursor.reset";
  body = field "max_database_id" (int (pos top)) end;
}

open_stream-beyond :
    (c top : ℕ) → top < c → open_stream c top ≡ opened 0 replaying (reset (reset_notice top) ∷ [])
unfolding open_stream
open_stream-beyond c top h = rw (lt→ltb top c h)

open_stream-within : (top : ℕ) → open_stream top top ≡ opened top replaying []
unfolding open_stream
open_stream-within top = rw (ltb-false top top (omega arith))

module _ (pg : Postgres) (stored_row : RunEventRow → Fields) (db : Db)
    (ascends : Ascends (ids db.events)) (positive : All (λ n. 0 < n) (ids db.events)) where
  abbrev top : ℕ
  top = max_event_id db

  replay-empty :
      (s : Stream)
      → list_events pg db s.cursor none page_size false ≡ []
      → replay_round pg stored_row db s ≡ record s { mode = live }
  unfolding replay_round replay_page replay_rows
  replay-empty s e = ap (λ page. replay_page stored_row page s) e

  nothing_new : list_events pg db (top) none page_size false ≡ []
  nothing_new = no_rows _ (
      ids-page pg db (top) ascends positive
      ∙ ap (take page_size) (above-none (top) (ids db.events) (max_event_id-bound db)))

  resumed : replay_round pg stored_row db (open_stream top top) ≡ opened top live []
  resumed =
      ap (replay_round pg stored_row db) (open_stream-within top)
      ∙ replay-empty (opened top replaying []) nothing_new

  -- A cursor beyond the stored history is answered with one reset frame, and the replay begins at
  -- 0. The frame carries the largest stored id: a client that reconnects with that id, before any
  -- other frame came, is sent no stored event and goes live.
  pub reset-reconnect :
      (c : ℕ)
      → top < c
      → (notice : Frame) × (open_stream c (top)).outputs ≡ reset notice ∷ []
        × ((open_stream c (top)).cursor ≡ 0)
        × ((replay_round pg stored_row db (open_stream notice.event_id (top))).outputs ≡ [])
        × ((replay_round pg stored_row db (open_stream notice.event_id (top))).mode ≡ live)
  reset-reconnect c beyond = (
    reset_notice top,
    ap (λ s. s.outputs) (open_stream-beyond c top beyond),
    ap (λ s. s.cursor) (open_stream-beyond c top beyond),
    ap (λ s. s.outputs) resumed,
    ap (λ s. s.mode) resumed,
  )
