-- ===== src/Sse/Live.antt =====
-- What a browser gets of GET /events/live.
use z_apply_backend.Base.{
  ℕ, String, ◌≡◌, refl, ap, ◌∙◌, Bool, true, false, Option, none, some, List, [], ◌∷◌, ◌++◌, codes,
  if◌then◌else◌, not, str_eq,
}
use z_apply_backend.Sse.{
  Writer, LiveEvent, Next, disconnected, quiet, event, passed_over, sse, stream_live,
}
use z_apply_backend.Sse.Client.{Received, lines_from, read_lines, received}
use z_apply_backend.Sse.Framing.{OneLine, Lines, event_of, received-sse, between}

-- Whether a client that asked for a run, or for all of them, wants an event.
abbrev pub wanted : Option String → LiveEvent → Bool
wanted none e = true
wanted (some run_id) e = str_eq e.run_id run_id

passed_over-wanted :
    (run_id : Option String) (e : LiveEvent) → passed_over run_id e ≡ not (wanted run_id e)
unfolding passed_over
passed_over-wanted none e = refl
passed_over-wanted (some run_id) e = refl

-- The events of the run that the Core published before the client was gone.
abbrev pub relayed : Option String → List Next → List LiveEvent
relayed run_id [] = []
relayed run_id (disconnected ∷ more) = []
relayed run_id (quiet ∷ more) = relayed run_id more
relayed run_id (event e ∷ more) =
    let rest = relayed run_id more in if wanted run_id e then e ∷ rest else rest

abbrev pub OneLineKinds : List Next → Type 0
OneLineKinds [] = Unit
OneLineKinds (event e ∷ more) = OneLine (codes e.kind) × OneLineKinds more
OneLineKinds (_ ∷ more) = OneLineKinds more

module _ (w : Writer) (laws : Lines w) (run_id : Option String) where
  abbrev pub events_of : List LiveEvent → List Received
  events_of [] = []
  events_of (e ∷ events) = event_of w e.sequence e.kind e.body ∷ events_of events

  read-stream_live :
      (last_id : List ℕ) (nexts : List Next)
      → OneLineKinds nexts
      → (read_lines (lines_from [] false (stream_live w run_id nexts)) (between last_id)).0
        ≡ events_of (relayed run_id nexts)
  unfolding stream_live lines_from read_lines
  read-stream_live last_id [] h = refl
  read-stream_live last_id (disconnected ∷ more) h = refl
  read-stream_live last_id (quiet ∷ more) h = read-stream_live last_id more h
  read-stream_live last_id (event e ∷ more) h =
      settle (wanted run_id e) (passed_over run_id e) (passed_over-wanted run_id e)
        (λ i. read-stream_live i more h.1)
    where
      settle :
          (wants skip : Bool)
          → skip ≡ not wants
          → ((i : List ℕ)
              → (read_lines (lines_from [] false (stream_live w run_id more)) (between i)).0
                ≡ events_of (relayed run_id more))
          → (read_lines
              (lines_from [] false (
                (if skip then [] else sse w e.sequence e.kind e.body) ++ stream_live w run_id more))
              (between last_id)).0
            ≡ events_of (if wants then e ∷ relayed run_id more else relayed run_id more)
      settle false true e' later = later last_id
      settle true true e' later = absurd (cc)
      settle false false e' later = absurd (cc)
      settle true false e' later =
          received-sse w laws last_id e.sequence e.kind e.body (stream_live w run_id more) h.0
          ∙ ap (λ l. event_of w e.sequence e.kind e.body ∷ l) (later (codes (w.digits e.sequence)))

  -- The browser gets exactly the live events of the run that it asked for, or of all runs if it
  -- asked for none, in the order in which the Core published them and up to the end of the
  -- connection. None is skipped for its number, and the keepalives are nothing to it.
  pub received-stream_live :
      (nexts : List Next)
      → OneLineKinds nexts
      → received (stream_live w run_id nexts) ≡ events_of (relayed run_id nexts)
  unfolding received
  received-stream_live nexts h = read-stream_live [] nexts h
