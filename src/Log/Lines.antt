-- ===== src/Log/Lines.antt =====
-- The log of a run as a reader sees it: its lines.
use z_apply_backend.Api.{response}
use z_apply_backend.Base.{
  ℕ, String, ◌≡◌, ◌≢◌, refl, ap, ◌∙◌, Bool, true, false, some, List, [], ◌∷◌, ◌++◌, ◌==◌, arith,
  map, take, select, codes, if◌then◌else◌, All,
}
use z_apply_backend.Json.{Python}
use z_apply_backend.Log.{
  text_or, tool_name, tool_status, phase_name, question_kind, evidence_status, agent_name,
  tool_summary, kind_summary, log_summary, render_log_line, log_of, run_log,
}
use z_apply_backend.Log.Clipped.{plain, plain-append, plain-padded, plain-clip}
use z_apply_backend.Log.Text.{joined, clip, padded}
use z_apply_backend.Models.{Uuid, Datetime, RunRow, RunEventRow, Db}
use z_apply_backend.Repo.Events.{event_filter}
use z_apply_backend.Repo.Queries.{list_events-oldest}
use z_apply_backend.Repo.Runs.{get_run}
use z_apply_backend.Repo.Valid.{IsValid}
use z_apply_backend.Sql.{Postgres}

-- The parts of a line that are not clipped have no line break.
pub record Unbroken (py : Python) (clock : Datetime → String) (row : RunEventRow) : Type 0 where
  pub time : plain (codes (clock row.occurred_at)) ≡ true
  pub kind : plain (codes row.kind) ≡ true
  pub agent : plain (agent_name py row.payload) ≡ true
  pub tool : plain (tool_name py row.payload) ≡ true
  pub outcome : plain (tool_status py row.payload) ≡ true
  pub phase : plain (phase_name py row.payload) ≡ true
  pub question : plain (question_kind py row.payload) ≡ true
  pub evidence : plain (evidence_status py row.payload) ≡ true

-- A text that is one line.
pub record OneLine (text : List ℕ) : Type 0 where
  pub unbroken : plain text ≡ true

either : (b : Bool) {xs ys : List ℕ} → OneLine xs → OneLine ys → OneLine (if b then xs else ys)
either true h k = h
either false h k = k

joins : {xs ys : List ℕ} → OneLine xs → OneLine ys → OneLine (xs ++ ys)
joins {xs} {ys} h k = record { unbroken = plain-append xs ys h.unbroken k.unbroken }

clipped : (xs : List ℕ) (limit : ℕ) → OneLine (clip xs limit)
clipped xs limit = record { unbroken = plain-clip xs limit }

padding : (n : ℕ) {xs : List ℕ} → OneLine xs → OneLine (padded n xs)
padding n {xs} h = record { unbroken = plain-padded n xs h.unbroken }

otherwise : {xs ys : List ℕ} → OneLine xs → OneLine ys → OneLine (text_or xs ys)
unfolding text_or
otherwise {xs = []} h k = k
otherwise {xs = c ∷ xs} h k = h

fixed : (s : String) → plain (codes s) ≡ true → OneLine (codes s)
fixed s h = record { unbroken = h }

module _ (py : Python) (clock : Datetime → String) (row : RunEventRow)
    (h : Unbroken py clock row) where
  tool_name-OneLine : OneLine (tool_name py row.payload)
  tool_name-OneLine = record { unbroken = h.tool }

  tool_status-OneLine : OneLine (tool_status py row.payload)
  tool_status-OneLine = record { unbroken = h.outcome }

  phase_name-OneLine : OneLine (phase_name py row.payload)
  phase_name-OneLine = record { unbroken = h.phase }

  question_kind-OneLine : OneLine (question_kind py row.payload)
  question_kind-OneLine = record { unbroken = h.question }

  evidence_status-OneLine : OneLine (evidence_status py row.payload)
  evidence_status-OneLine = record { unbroken = h.evidence }

  kind-OneLine : OneLine (codes row.kind)
  kind-OneLine = record { unbroken = h.kind }

  tool_summary-OneLine : OneLine (tool_summary py row.payload row.kind)
  unfolding tool_summary
  tool_summary-OneLine =
      either _ (joins (joins tool_name-OneLine (fixed " " refl)) (clipped _ 90)) (
        either _ (joins (joins tool_name-OneLine (fixed " -> ERROR: " refl)) (clipped _ 120))
          (joins (joins tool_name-OneLine (fixed " -> " refl)) tool_status-OneLine))

  kind_summary-OneLine : OneLine (kind_summary py row.payload row.kind)
  unfolding kind_summary
  kind_summary-OneLine = either _ tool_summary-OneLine (
      either _ (joins (fixed "phase -> " refl) phase_name-OneLine) (
        either _
          (joins
            (joins (joins (fixed "HUMAN ASKED (" refl) question_kind-OneLine) (fixed "): " refl))
            (clipped _ 120))
          (either _ (joins (fixed "HUMAN ANSWERED: " refl) (clipped _ 60)) (
            either _ (joins (fixed "RECOVERY: " refl) (clipped _ 120)) (
              either _
                (joins
                  (joins (joins (fixed "auth " refl) evidence_status-OneLine) (fixed ": " refl))
                  (clipped _ 120))
                (either _ (otherwise (clipped _ 120) kind-OneLine) (
                  either _ (joins (fixed "APPROVAL REQUESTED: " refl) (clipped _ 120))
                    (clipped _ 140))))))))

  log_summary-OneLine : OneLine (log_summary py row.payload row.kind)
  unfolding log_summary
  log_summary-OneLine = either _ (clipped _ 140) kind_summary-OneLine

  -- A rendered line has no line break.
  pub render_log_line-OneLine : OneLine (render_log_line py clock row)
  unfolding render_log_line
  render_log_line-OneLine =
      joins
        (joins
          (joins
            (joins
              (joins (joins (record { unbroken = h.time }) (fixed " [" refl))
                (padding 28 kind-OneLine))
              (fixed "] " refl))
            (padding 24 (record { unbroken = h.agent })))
          (fixed " " refl))
        log_summary-OneLine

-- A text as its lines.
abbrev prepend : ℕ → List (List ℕ) → List (List ℕ)
prepend c [] = []
prepend c (line ∷ lines) = (c ∷ line) ∷ lines

abbrev pub lines_of : List ℕ → List (List ℕ)
lines_of [] = [] ∷ []
lines_of (c ∷ text) = let rest = lines_of text in if c == 10 then [] ∷ rest else prepend c rest

line-first :
    (line text : List ℕ) → plain line ≡ true → lines_of (line ++ 10 ∷ text) ≡ line ∷ lines_of text
line-first [] text h = refl
line-first (c ∷ line) text h = ground (arith, line-first line text)

line-only : (line : List ℕ) → plain line ≡ true → lines_of line ≡ line ∷ []
line-only [] h = refl
line-only (c ∷ line) h = ground (arith, line-only line)

lines_of-joined :
    (line : List ℕ) (lines : List (List ℕ))
    → plain line ≡ true
    → All (λ l. plain l ≡ true) lines
    → lines_of (joined (line ∷ lines)) ≡ line ∷ lines
unfolding joined
lines_of-joined line [] h k = line-only line h
lines_of-joined line (next ∷ lines) h k =
    line-first line _ h ∙ ap (◌∷◌ line) (lines_of-joined next lines k.0 k.1)

module _ (pg : Postgres) (py : Python) (clock : Datetime → String) (db : Db) (v : IsValid db)
    (run_id : Uuid) (limit : ℕ) where
  -- The events that the log shows.
  abbrev pub shown_rows : List RunEventRow
  shown_rows = take limit (select (event_filter 0 (some run_id)) db.events)

  lines-OneLine :
      (rows : List RunEventRow)
      → All (Unbroken py clock) rows
      → All (λ l. plain l ≡ true) (map (render_log_line py clock) rows)
  lines-OneLine [] h = tt
  lines-OneLine (row ∷ rows) h =
      ((render_log_line-OneLine py clock row h.0).unbroken, lines-OneLine rows h.1)

  lines_of-rows :
      (rows : List RunEventRow)
      → rows ≢ []
      → All (Unbroken py clock) rows
      → lines_of (joined (map (render_log_line py clock) rows))
        ≡ map (render_log_line py clock) rows
  lines_of-rows [] some_row h = absurd (some_row refl)
  lines_of-rows (row ∷ rows) some_row h =
      lines_of-joined (render_log_line py clock row) (map (render_log_line py clock) rows)
        (render_log_line-OneLine py clock row h.0).unbroken (lines-OneLine rows h.1)

  -- On valid tables, the log of a stored run with events has exactly one line for each of its first
  -- events, as many as are asked for, in the order in which they were stored, each as it is
  -- rendered, if the time, the type, the agent and the few parts of a payload that are not clipped
  -- have no line break. Every other text may have any.
  pub run_log-lines :
      (run : RunRow)
      → get_run db run_id ≡ some run
      → take limit (select (event_filter 0 (some run_id)) db.events) ≢ []
      → All (Unbroken py clock) (take limit (select (event_filter 0 (some run_id)) db.events))
      → (text : List ℕ) × (run_log pg py clock db run_id limit ≡ response text)
        × (lines_of text
            ≡ map
                (render_log_line py clock)
                (take limit (select (event_filter 0 (some run_id)) db.events)))
  unfolding run_log log_of
  run_log-lines run found some_row h = (
    joined (map (render_log_line py clock) shown_rows),
    ap (log_of pg py clock db run_id limit) found
        ∙ ap (λ rows. response (joined (map (render_log_line py clock) rows)))
            (list_events-oldest pg db v.ordered 0 (some run_id) limit),
    lines_of-rows shown_rows some_row h,
  )
