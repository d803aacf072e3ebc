-- ===== src/Stream/Late.antt =====
-- An event that is committed after one with a larger id was sent.
use z_apply_backend.Base.{
  ℕ, zero, suc, ◌≤◌, ◌<◌, ◌≡◌, refl, sym, ap, subst, ◌∙◌, false, none, some, List, [], ◌∷◌, ◌++◌,
  arith, select, take, All, All-append, All-map, append_nil, append_assoc, dec_lt, lt→ltb,
  ltb-false,
}
use z_apply_backend.Json.{Fields}
use z_apply_backend.Models.{RunEventRow, Db}
use z_apply_backend.Repo.Events.{max_event_id, event_filter, list_events}
use z_apply_backend.Sql.{Postgres}
use z_apply_backend.Sql.Order.{asc, asc-IsTotal, asc-IsTransitive, Ordering-All}
use z_apply_backend.Stream.{
  Stream, open_stream, replaying, Arrival, timeout, item, live_round, replay_round, replay_page,
  page_size,
}
use z_apply_backend.Stream.Replay.{ids, sent, sent-append, replay_rows-sent, replay_rows-cursor}
use z_apply_backend.Stream.Window.{last_or}

-- What a stream sends from one state to another: ids above a number, which its cursor keeps above.
abbrev Grows : ℕ → Stream → Stream → Type 0
Grows n s t =
    (new : List ℕ) × (sent t.outputs ≡ sent s.outputs ++ new)
    × All (λ m. n < m) new
    × (n ≤ t.cursor)

Grows-same : (n : ℕ) (s t : Stream) → n ≤ t.cursor → sent t.outputs ≡ sent s.outputs → Grows n s t
Grows-same n s t h e = ([], e ∙ sym (append_nil (sent s.outputs)), tt, h)

Grows-trans : (n : ℕ) (s t u : Stream) → Grows n s t → Grows n t u → Grows n s u
Grows-trans n s t u (xs, e, h, k) (ys, f, i, j) = (
  xs ++ ys,
  f ∙ ap (λ l. l ++ ys) e ∙ append_assoc (sent s.outputs) xs ys,
  All-append (λ m. n < m) xs ys h i,
  j,
)

abbrev pub live_rounds : List Arrival → Stream → Stream
live_rounds [] s = s
live_rounds (a ∷ arrivals) s = live_rounds arrivals (live_round a s)

live_round-Grows : (n : ℕ) (a : Arrival) (s : Stream) → n ≤ s.cursor → Grows n s (live_round a s)
unfolding live_round
live_round-Grows n timeout s h =
    Grows-same n s (live_round timeout s) h (sent-append s.outputs _ ∙ append_nil (sent s.outputs))
live_round-Grows n (item none) s h = Grows-same n s (live_round (item none) s) h refl
live_round-Grows n (item (some event)) s h = elim (dec_lt s.cursor event.id) [
  | yes newer ↦
      rw (lt→ltb s.cursor event.id newer)
        (event.id ∷ [], sent-append s.outputs _, (omega arith, tt), omega arith)
  | no older ↦
      rw (ltb-false s.cursor event.id (omega arith)) ([], sym (append_nil (sent s.outputs)), tt, h)
]

live_rounds-Grows :
    (n : ℕ) (arrivals : List Arrival) (s : Stream)
    → n ≤ s.cursor
    → Grows n s (live_rounds arrivals s)
live_rounds-Grows n [] s h = Grows-same n s s h refl
live_rounds-Grows n (a ∷ arrivals) s h =
    let (new, e, over, k) = live_round-Grows n a s h in
    Grows-trans n s (live_round a s) (live_rounds arrivals (live_round a s)) (new, e, over, k)
      (live_rounds-Grows n arrivals (live_round a s) k)

matching-over :
    (c : ℕ) (rows : List RunEventRow)
    → 0 < c
    → All (λ (e : RunEventRow). c < e.id) (select (event_filter c none) rows)
unfolding event_filter
matching-over c [] h = tt
matching-over c (e ∷ rows) h = ground (arith, matching-over c rows h)

take-over :
    (c k : ℕ) (rows : List RunEventRow)
    → All (λ (e : RunEventRow). c < e.id) rows
    → All (λ m. c < m) (ids (take k rows))
take-over c zero rows h = tt
take-over c (suc k) [] h = tt
take-over c (suc k) (e ∷ rows) h = (h.0, take-over c k rows h.1)

pub last_or-over : (n c : ℕ) (ns : List ℕ) → n ≤ c → All (λ m. n < m) ns → n ≤ last_or c ns
last_or-over n c [] h k = h
last_or-over n c (m ∷ ns) h k = last_or-over n m ns (omega (arith, k.0)) k.1

-- The stream of a client that comes back with the id that it had last.
abbrev pub reconnected : Db → Stream → Stream
reconnected db s = open_stream s.cursor (max_event_id db)

reconnected-within :
    (db : Db) (s : Stream)
    → s.cursor ≤ max_event_id db
    → reconnected db s ≡ record { cursor = s.cursor; mode = replaying; outputs = [] }
unfolding open_stream
reconnected-within db s h = rw (ltb-false (max_event_id db) s.cursor h)

module _ (pg : Postgres) (stored_row : RunEventRow → Fields) where
  page-over :
      (db : Db) (c : ℕ) → 0 < c → All (λ m. c < m) (ids (list_events pg db c none page_size false))
  unfolding list_events
  page-over db c h = take-over c page_size _ (
      Ordering-All (asc (λ (e : RunEventRow). e.id)) (λ e. c < e.id)
        (pg.order_by-Ordering (asc (λ e. e.id)) (asc-IsTotal (λ e. e.id))
          (asc-IsTransitive (λ e. e.id)) (select (event_filter c none) db.events))
        (matching-over c db.events h))

  pub replay_page-sent :
      (page : List RunEventRow) (s : Stream)
      → (sent (replay_page stored_row page s).outputs ≡ sent s.outputs ++ ids page)
        × ((replay_page stored_row page s).cursor ≡ last_or s.cursor (ids page))
  unfolding replay_page
  replay_page-sent page s =
      ground (arith, replay_rows-sent stored_row page s, replay_rows-cursor stored_row page s)

  -- Rounds of the replay, each on the tables as they are by then.
  abbrev pub replay_rounds : List Db → Stream → Stream
  replay_rounds [] s = s
  replay_rounds (db ∷ dbs) s = replay_rounds dbs (replay_round pg stored_row db s)

  replay_round-Grows :
      (n : ℕ) (db : Db) (s : Stream)
      → n < s.cursor
      → Grows n s (replay_round pg stored_row db s) × (n < (replay_round pg stored_row db s).cursor)
  unfolding replay_round
  replay_round-Grows n db s h =
      let page = list_events pg db s.cursor none page_size false in
      let over : All (λ m. s.cursor < m) (ids page) = page-over db s.cursor (omega arith) in
      let (e, c) = replay_page-sent page s in
      let stays : s.cursor ≤ last_or s.cursor (ids page) =
        last_or-over s.cursor s.cursor (ids page) (omega arith) over in
      (
        (ids page, e, All-map _ _ (λ m k. omega arith) (ids page) over, omega (arith, c)),
        omega (arith, c),
      )

  replay_rounds-Grows :
      (n : ℕ) (dbs : List Db) (s : Stream) → n < s.cursor → Grows n s (replay_rounds dbs s)
  replay_rounds-Grows n [] s h = Grows-same n s s (omega arith) refl
  replay_rounds-Grows n (db ∷ dbs) s h =
      let (grows, k) = replay_round-Grows n db s h in
      Grows-trans n s (replay_round pg stored_row db s)
        (replay_rounds dbs (replay_round pg stored_row db s)) grows
        (replay_rounds-Grows n dbs (replay_round pg stored_row db s) k)

  -- An event whose id is below the cursor of a stream reaches its client no more: whatever arrives,
  -- every id that is sent lies above it. So does every id of the replay after the client has come
  -- back with its last id, if the tables hold an event with that id or a larger one by then; else
  -- the stream would be reset. So an event is lost that is committed and published after the stream
  -- has sent one with a larger id.
  pub late_lost :
      (n : ℕ) (s : Stream) (arrivals : List Arrival) (now : Db) (dbs : List Db)
      → n < s.cursor
      → (live_rounds arrivals s).cursor ≤ max_event_id now
      → let t = live_rounds arrivals s in
        (new : List ℕ) × (sent t.outputs ≡ sent s.outputs ++ new)
        × All (λ m. n < m) new
        × All (λ m. n < m) (sent (replay_rounds dbs (reconnected now t)).outputs)
  late_lost n s arrivals now dbs h held =
      let t = live_rounds arrivals s in
      let (new, e, over, k) = live_rounds-Grows s.cursor arrivals s (omega arith) in
      let again : Stream = record { cursor = t.cursor; mode = replaying; outputs = [] } in
      let (replayed, f, later, j) = replay_rounds-Grows n dbs again (omega arith) in
      (
        new,
        e,
        All-map _ _ (λ m i. omega arith) new over,
        subst (All (λ m. n < m))
            (sym f
              ∙ ap (λ x. sent (replay_rounds dbs x).outputs) (sym (reconnected-within now t held)))
            later,
      )
