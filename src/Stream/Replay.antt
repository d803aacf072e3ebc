-- ===== src/Stream/Replay.antt =====
-- What a round of the replay loop yields, in terms of event ids.
use z_apply_backend.Base.{
  ℕ, zero, suc, ◌≤◌, ◌<◌, ◌≡◌, refl, sym, ap, ◌∙◌, false, none, List, [], ◌∷◌, ◌++◌, map, arith,
  take, select, All, append_nil, append_assoc, max, max_of, get_or, length,
}
use z_apply_backend.Json.{Fields}
use z_apply_backend.Models.{RunEventRow, Db}
use z_apply_backend.Repo.Events.{event_filter, list_events, max_event_id}
use z_apply_backend.Repo.Queries.{by_id, list_events-oldest}
use z_apply_backend.Sql.{Postgres}
use z_apply_backend.Sql.Order.{Strict}
use z_apply_backend.Stream.{Output, frame, Stream, replay_rows, page_size}
use z_apply_backend.Stream.Window.{Ascends, above, last_or}

abbrev pub ids : List RunEventRow → List ℕ
ids = map λ e. e.id

-- The ids of the events that a stream has yielded.
abbrev pub sent : List Output → List ℕ
sent [] = []
sent (frame f ∷ outputs) = f.event_id ∷ sent outputs
sent (_ ∷ outputs) = sent outputs

pub sent-append : (xs ys : List Output) → sent (xs ++ ys) ≡ sent xs ++ sent ys
sent-append [] ys = refl
sent-append (frame f ∷ xs) ys = ap (◌∷◌ f.event_id) (sent-append xs ys)
sent-append (_ ∷ xs) ys = sent-append xs ys

module _ (stored_row : RunEventRow → Fields) where
  pub replay_rows-cursor :
      (rows : List RunEventRow) (s : Stream)
      → (replay_rows stored_row rows s).cursor ≡ last_or s.cursor (ids rows)
  unfolding replay_rows
  replay_rows-cursor [] s = refl
  replay_rows-cursor (row ∷ rows) s = replay_rows-cursor rows _

  pub replay_rows-mode :
      (rows : List RunEventRow) (s : Stream) → (replay_rows stored_row rows s).mode ≡ s.mode
  unfolding replay_rows
  replay_rows-mode [] s = refl
  replay_rows-mode (row ∷ rows) s = replay_rows-mode rows _

  pub replay_rows-sent :
      (rows : List RunEventRow) (s : Stream)
      → sent (replay_rows stored_row rows s).outputs ≡ sent s.outputs ++ ids rows
  unfolding replay_rows
  replay_rows-sent [] s = sym (append_nil (sent s.outputs))
  replay_rows-sent (row ∷ rows) s =
      replay_rows-sent rows _
      ∙ ap (λ l. l ++ ids rows) (sent-append s.outputs _)
      ∙ append_assoc (sent s.outputs) (row.id ∷ []) (ids rows)

ids-take : (k : ℕ) (rows : List RunEventRow) → ids (take k rows) ≡ take k (ids rows)
ids-take zero rows = refl
ids-take (suc k) [] = refl
ids-take (suc k) (e ∷ rows) = ap (◌∷◌ e.id) (ids-take k rows)

ids-select :
    (c : ℕ) (rows : List RunEventRow)
    → All (λ n. 0 < n) (ids rows)
    → ids (select (event_filter c none) rows) ≡ above c (ids rows)
unfolding event_filter
ids-select c [] h = refl
ids-select c (e ∷ rows) h = ground (arith, ids-select c rows h.1)

ids-Strict-All :
    (e : RunEventRow) (rows : List RunEventRow)
    → All (λ n. e.id < n) (ids rows)
    → All (λ b. by_id b e ≡ false) rows
ids-Strict-All e [] h = tt
ids-Strict-All e (b ∷ rows) h = (ground arith, ids-Strict-All e rows h.1)

pub Ascends-Strict : (rows : List RunEventRow) → Ascends (ids rows) → Strict by_id rows
Ascends-Strict [] a = tt
Ascends-Strict (e ∷ rows) a = (ids-Strict-All e rows a.0, Ascends-Strict rows a.1)

-- The ids of the page that the replay loop reads.
pub ids-page :
    (pg : Postgres) (db : Db) (c : ℕ)
    → Ascends (ids db.events)
    → All (λ n. 0 < n) (ids db.events)
    → ids (list_events pg db c none page_size false) ≡ take page_size (above c (ids db.events))
ids-page pg db c a p =
    ap ids (list_events-oldest pg db (Ascends-Strict db.events a) c none page_size)
    ∙ ids-take page_size (select (event_filter c none) db.events)
    ∙ ap (take page_size) (ids-select c db.events p)

pub length-ids : (rows : List RunEventRow) → length (ids rows) ≡ length rows
length-ids [] = refl
length-ids (e ∷ rows) = ap suc (length-ids rows)

top : List RunEventRow → ℕ
top rows = get_or (max_of (λ (e : RunEventRow). e.id) rows) 0

top-cons : (e : RunEventRow) (rows : List RunEventRow) → top (e ∷ rows) ≡ max e.id (top rows)
unfolding top
top-cons e rows = ground arith

top-bound : (m : ℕ) (rows : List RunEventRow) → top rows ≤ m → All (λ n. n ≤ m) (ids rows)
top-bound m [] h = tt
top-bound m (e ∷ rows) h =
    (omega (arith, top-cons e rows), top-bound m rows (omega (arith, top-cons e rows)))

-- `max_event_id` bounds the stored ids.
pub max_event_id-bound : (db : Db) → All (λ n. n ≤ max_event_id db) (ids db.events)
unfolding max_event_id top
max_event_id-bound db = top-bound (max_event_id db) db.events (omega arith)
