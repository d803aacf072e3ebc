-- ===== src/Sse/Tests.antt =====
-- Streams of a few frames.
use Prim.Native.String as Str
use z_apply_backend.Base.{ℕ, zero, suc, String, ◌≡◌, refl, some, List, [], ◌∷◌, codes, All}
use z_apply_backend.Json.{Fields, end}
use z_apply_backend.Sse.{Writer, LiveEvent, Next, disconnected, quiet, event, write, stream_live}
use z_apply_backend.Sse.Client.{received}
use z_apply_backend.Sse.Framing.{OneLine, Lines, HasOneLine, delivered, received-write}
use z_apply_backend.Sse.Live.{OneLineKinds, events_of, relayed, received-stream_live}
use z_apply_backend.Stream.{Output, frame, reset, keepalive}

abbrev marks : ℕ → String
marks zero = ""
marks (suc n) = Str.◌∷◌ "1" (marks n)

abbrev braces : Fields → String
braces data' = "{}"

abbrev writer : Writer
writer = record { digits = marks; dumps = braces }

marks-OneLine : (n : ℕ) → OneLine (codes (marks n))
marks-OneLine zero = tt
marks-OneLine (suc n) = (refl, marks-OneLine n)

laws : Lines writer
laws = record { digits = marks-OneLine; dumps = λ data'. (refl, (refl, tt)) }

abbrev outputs : List Output
outputs =
    reset (record { event_id = 1; event_type = "cursor.reset"; body = end })
    ∷ frame (record { event_id = 2; event_type = "run"; body = end })
    ∷ keepalive
    ∷ frame (record { event_id = 3; event_type = ""; body = end })
    ∷ []

outputs-HasOneLine : All (HasOneLine writer laws) outputs
outputs-HasOneLine = (
  (
    refl,
    (refl, (refl, (refl, (refl, (refl, (refl, (refl, (refl, (refl, (refl, (refl, tt))))))))))),
  ),
  ((refl, (refl, (refl, tt))), (tt, (tt, tt))),
)

received-write_example : received (write writer outputs) ≡ delivered writer laws outputs
received-write_example = received-write writer laws outputs outputs-HasOneLine

abbrev live_event : String → ℕ → LiveEvent
live_event run_id sequence = record { run_id = run_id; sequence = sequence; kind = "t"; body = end }

abbrev nexts : List Next
nexts =
    event (live_event "a" 4)
    ∷ quiet
    ∷ event (live_event "b" 2)
    ∷ event (live_event "a" 3)
    ∷ disconnected
    ∷ event (live_event "a" 5)
    ∷ []

nexts-OneLineKinds : OneLineKinds nexts
nexts-OneLineKinds = ((refl, tt), ((refl, tt), ((refl, tt), ((refl, tt), tt))))

received-stream_live_example :
    received (stream_live writer (some "a") nexts)
    ≡ events_of writer laws (some "a") (relayed (some "a") nexts)
received-stream_live_example = received-stream_live writer laws (some "a") nexts nexts-OneLineKinds
