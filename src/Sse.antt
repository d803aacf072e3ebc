-- ===== src/Sse.antt =====
-- api/events.py: the text of the frames that both streams write, and GET /events/live.
pub mod Client
pub mod Framing
pub mod Live
mod Tests
use z_apply_backend.Base.{
  ℕ, String, Bool, true, false, ◌||◌, Option, none, some, List, [], ◌∷◌, ◌++◌, str_eq, not, codes,
  if◌then◌else◌,
}
use z_apply_backend.Json.{Fields}
use z_apply_backend.Stream.{Frame, Output, frame, reset, keepalive}

-- How Python writes an integer in an f-string, and `json.dumps(data, default=str,
-- separators=(',', ':'))`, which escapes every control character.
pub record Writer : Type 0 where
  pub digits : ℕ → String
  pub dumps : Fields → String

abbrev pub line_feed : ℕ
line_feed = 10

module _ (w : Writer) where
  -- `_sse`, as code points
  unfoldable pub sse : ℕ → String → Fields → List ℕ
  sse event_id event_type data' =
      (codes "id: " ++ codes (w.digits event_id))
      ++ (line_feed
          ∷ ((codes "event: " ++ codes event_type)
              ++ (line_feed
                  ∷ ((codes "data: " ++ codes (w.dumps data')) ++ (line_feed ∷ line_feed ∷ [])))))

  -- What the generator of /events/stream yields, as text.
  unfoldable pub written : Output → List ℕ
  unfolding sse
  written (frame f) = sse f.event_id f.event_type f.body
  written (reset f) = sse f.event_id f.event_type f.body
  written keepalive = codes ": keepalive" ++ line_feed ∷ line_feed ∷ []

  unfoldable pub write : List Output → List ℕ
  write [] = []
  write (o ∷ outputs) = written o ++ write outputs

-- A live event of the Core; `body` is what its `to_dict()` gives.
pub record LiveEvent : Type 0 where
  pub run_id : String
  pub sequence : ℕ
  pub kind : String
  pub body : Fields

-- What the loop of /events/live does next: the client is gone; nothing came in 15 seconds; an event.
pub data Next : Type 0 where
  disconnected quiet : Next
  event : LiveEvent → Next

-- `run_id is not None and event.run_id != run_id`
unfoldable pub passed_over : Option String → LiveEvent → Bool
passed_over none e = false
passed_over (some run_id) e = not (str_eq e.run_id run_id)

module _ (w : Writer) where
  unfoldable pub live_chunk : Option String → LiveEvent → List ℕ
  live_chunk run_id e = if passed_over run_id e then [] else sse w e.sequence e.kind e.body

  -- All that the generator of /events/live yields.
  unfoldable pub stream_live : Option String → List Next → List ℕ
  unfolding live_chunk
  stream_live run_id [] = []
  stream_live run_id (disconnected ∷ more) = []
  stream_live run_id (quiet ∷ more) =
      codes ": z-apply keepalive" ++ line_feed ∷ line_feed ∷ stream_live run_id more
  stream_live run_id (event e ∷ more) = live_chunk run_id e ++ stream_live run_id more
