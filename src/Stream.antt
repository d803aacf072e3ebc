-- ===== src/Stream.antt =====
-- api/events.py, GET /api/v1/events/stream: one subscriber of the durable events, from the request
-- to the end of its stream. The generator is cut at its suspensions into steps.
pub mod System
pub mod Termination
pub mod Ascending
pub mod Committed
pub mod Covers
pub mod Delivery
pub mod Distinct
pub mod Invariant
pub mod Late
pub mod Paging
pub mod Replay
pub mod Reset
pub mod Window
mod Tests
use z_apply_backend.Base.Int.{ℤ, pos, negsuc}
use z_apply_backend.Base.{
  ℕ, zero, suc, String, Bool, true, false, Option, none, some, List, [], ◌∷◌, ◌++◌, ltb, length,
  if◌then◌else◌, str_eq,
}
use z_apply_backend.Hub.{StoredEvent}
use z_apply_backend.Json.{Fields, int, end, field}
use z_apply_backend.Models.{RunEventRow, Db}
use z_apply_backend.Repo.Events.{list_events, max_event_id}
use z_apply_backend.Sql.{Postgres}

-- An HTTP error with its code; `raised` is one of these.
pub data CursorError : Type 0 where
  invalid_event_cursor : CursorError

pub data Cursor : Type 0 where
  at : ℕ → Cursor
  refused : CursorError → Cursor

from_int : ℤ → Cursor
from_int (pos n) = at n
from_int (negsuc n) = refused invalid_event_cursor

from_header : Option ℤ → Cursor
from_header none = refused invalid_event_cursor
from_header (some n) = from_int n

or_zero : Option ℕ → ℕ
or_zero none = 0
or_zero (some n) = n

-- The start cursor: a Last-Event-ID header that is not empty wins over `?after=`. `int_text` is
-- Python's `int(text)`, with `none` for a ValueError.
unfoldable pub start_cursor : (String → Option ℤ) → Option String → Option ℕ → Cursor
unfolding from_header from_int or_zero
start_cursor int_text none after = at (or_zero after)
start_cursor int_text (some header) after =
    if str_eq header "" then at (or_zero after) else from_header (int_text header)

-- What `_sse` writes: the id, the type and the data of one frame.
pub record Frame : Type 0 where
  pub event_id : ℕ
  pub event_type : String
  pub body : Fields

-- `reset` is the frame of the type "cursor.reset".
pub data Output : Type 0 where
  frame reset : Frame → Output
  keepalive : Output

pub data Mode : Type 0 where
  opening replaying live closed : Mode

-- The local variables of the generator, and what it has yielded.
pub record Stream : Type 0 where
  pub cursor : ℕ
  pub mode : Mode
  pub outputs : List Output

abbrev pub page_size : ℕ
page_size = 500

-- Up to the first loop: a cursor beyond the stored history is dropped, and the client is told so.
unfoldable pub open_stream : ℕ → ℕ → Stream
open_stream cursor stored_max =
    if ltb stored_max cursor
    then record { cursor = 0; mode = replaying; outputs = reset notice ∷ [] }
    else record { cursor = cursor; mode = replaying; outputs = [] }
  where
    notice : Frame
    notice = record {
      event_id = stored_max;
      event_type = "cursor.reset";
      body = field "max_database_id" (int (pos stored_max)) end;
    }

-- `for row in replay: cursor = row.id; yield …`; `stored_row` is `serialize_event_row`.
unfoldable pub replay_rows : (RunEventRow → Fields) → List RunEventRow → Stream → Stream
replay_rows stored_row [] s = s
replay_rows stored_row (row ∷ rows) s =
    replay_rows stored_row rows
      (record s { cursor = row.id; outputs = s.outputs ++ frame row_frame ∷ [] })
  where
    row_frame : Frame
    row_frame = record { event_id = row.id; event_type = row.kind; body = stored_row row }

-- One round of the replay loop, by the page that its query returned.
unfoldable pub replay_page : (RunEventRow → Fields) → List RunEventRow → Stream → Stream
unfolding replay_rows
replay_page stored_row page s =
    let s' = replay_rows stored_row page s in
    if ltb (length page) page_size then record s' { mode = live } else s'

unfoldable pub replay_round : Postgres → (RunEventRow → Fields) → Db → Stream → Stream
unfolding replay_page
replay_round pg stored_row db s =
    replay_page stored_row (list_events pg db s.cursor none page_size false) s

-- The replay loop of a client that stays connected, with a number of rounds.
unfoldable pub replay_loop : ℕ → Postgres → (RunEventRow → Fields) → Db → Stream → Stream
replay_loop zero pg stored_row db s = s
replay_loop (suc rounds) pg stored_row db s =
    let s' = replay_round pg stored_row db s in
    elim s'.mode [ replaying ↦ replay_loop rounds pg stored_row db s' | _ ↦ s' ]

abbrev pub event_frame : StoredEvent → Frame
event_frame event = record { event_id = event.id; event_type = event.event_type; body = event.body }

-- One round of the live loop: nothing within 15 seconds, the disconnect marker, or an event.
pub data Arrival : Type 0 where
  timeout : Arrival
  item : Option StoredEvent → Arrival

unfoldable pub live_round : Arrival → Stream → Stream
live_round timeout s = record s { outputs = s.outputs ++ keepalive ∷ [] }
live_round (item none) s = record s { mode = closed }
live_round (item (some event)) s =
    if ltb s.cursor event.id
    then record s { cursor = event.id; outputs = s.outputs ++ frame (event_frame event) ∷ [] }
    else s
