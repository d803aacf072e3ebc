-- ===== src/Stream/Ascending.antt =====
-- What a subscriber of GET /events/stream is sent, however the writers of events overlap.
use z_apply_backend.Base.{
  ℕ, ◌<◌, ◌≤◌, ◌≡◌, refl, sym, ap, ◌∙◌, subst, false, none, some, List, [], ◌∷◌, ◌++◌, arith, All,
  All-append, All-map, append_nil, dec_lt, lt→ltb, ltb-false,
}
use z_apply_backend.Json.{Fields}
use z_apply_backend.Models.{RunEventRow, Db}
use z_apply_backend.Repo.Events.{max_event_id, list_events}
use z_apply_backend.Sql.{Postgres}
use z_apply_backend.Stream.{
  Stream, Arrival, timeout, item, open_stream, live_round, replay_round, page_size,
}
use z_apply_backend.Stream.Distinct.{Distinct, Distinct-snoc, page-Ascends, page-above}
use z_apply_backend.Stream.Late.{last_or-over, replay_page-sent}
use z_apply_backend.Stream.Replay.{ids, sent, sent-append}
use z_apply_backend.Stream.System.{
  World, Step, commit, publish, open_cursor, replay, get, wait, disconnect, Reach, here, next,
}
use z_apply_backend.Stream.Window.{Ascends, last_or}

Ascends-append :
    (c : ℕ) (xs ys : List ℕ)
    → Ascends xs
    → All (λ n. n ≤ c) xs
    → Ascends ys
    → All (λ n. c < n) ys
    → Ascends (xs ++ ys)
Ascends-append c [] ys a b d h = d
Ascends-append c (x ∷ xs) ys a b d h = (
  All-append (λ m. x < m) xs ys a.0 (All-map _ _ (λ m k. omega (arith, b.0)) ys h),
  Ascends-append c xs ys a.1 b.1 d h,
)

-- No id of an ascending list is above the last.
last_or-top : (c : ℕ) (ns : List ℕ) → Ascends ns → All (λ m. m ≤ last_or c ns) ns
last_or-top c [] a = tt
last_or-top c (n ∷ ns) a = (last_or-over n n ns (omega arith) a.0, last_or-top n ns a.1)

-- The ids that a stream has sent ascend, and lie above its start and up to its cursor.
pub record Rises (start : ℕ) (s : Stream) : Type 0 where
  pub ascends : Ascends (sent s.outputs)
  pub above_start : All (λ n. start < n) (sent s.outputs)
  pub up_to : All (λ n. n ≤ s.cursor) (sent s.outputs)
  pub begun : start ≤ s.cursor

Rises-more :
    (start : ℕ) (s t : Stream) (new : List ℕ)
    → sent t.outputs ≡ sent s.outputs ++ new
    → Ascends new
    → All (λ n. s.cursor < n) new
    → All (λ n. n ≤ t.cursor) new
    → s.cursor ≤ t.cursor
    → Rises start s
    → Rises start t
Rises-more start s t new e a newer top h r = record {
  ascends =
      subst Ascends (sym e)
        (Ascends-append s.cursor (sent s.outputs) new r.ascends r.up_to a newer);
  above_start = subst (All (λ n. start < n)) (sym e) (
      All-append (λ n. start < n) (sent s.outputs) new r.above_start
        (All-map _ _ (λ m k. omega (arith, r.begun)) new newer));
  up_to = subst (All (λ n. n ≤ t.cursor)) (sym e) (
      All-append (λ n. n ≤ t.cursor) (sent s.outputs) new
        (All-map _ _ (λ m k. omega arith) (sent s.outputs) r.up_to) top);
  begun = omega (arith, r.begun);
}

Rises-silent :
    (start : ℕ) (s t : Stream)
    → sent t.outputs ≡ sent s.outputs
    → t.cursor ≡ s.cursor
    → Rises start s
    → Rises start t
Rises-silent start s t e c r =
    Rises-more start s t [] (e ∙ sym (append_nil (sent s.outputs))) tt tt tt (omega (arith, c)) r

pub open_stream-silent : (c top : ℕ) → sent (open_stream c top).outputs ≡ []
unfolding open_stream
open_stream-silent c top = elim (dec_lt top c) [
  | yes beyond ↦ rw (lt→ltb top c beyond) refl
  | no within ↦ rw (ltb-false top c (omega arith)) refl
]

open_stream-Rises : (c top : ℕ) → Rises (open_stream c top).cursor (open_stream c top)
open_stream-Rises c top =
    let e = sym (open_stream-silent c top) in
    record {
      ascends = subst Ascends e tt;
      above_start = subst (All (λ n. (open_stream c top).cursor < n)) e tt;
      up_to = subst (All (λ n. n ≤ (open_stream c top).cursor)) e tt;
      begun = omega arith;
    }

live_round-Rises :
    (start : ℕ) (a : Arrival) (s : Stream) → Rises start s → Rises start (live_round a s)
unfolding live_round
live_round-Rises start timeout s r =
    Rises-silent start s (live_round timeout s)
      (sent-append s.outputs _ ∙ append_nil (sent s.outputs)) refl r
live_round-Rises start (item none) s r = Rises-silent start s (live_round (item none) s) refl refl r
live_round-Rises start (item (some event)) s r = elim (dec_lt s.cursor event.id) [
  | yes newer ↦ rw (lt→ltb s.cursor event.id newer) (
      Rises-more start s _ (event.id ∷ []) (sent-append s.outputs _) (tt, tt) (newer, tt)
        (omega arith, tt) (omega arith) r)
  | no older ↦ rw (ltb-false s.cursor event.id (omega arith)) r
]

module _ (pg : Postgres) (stored_row : RunEventRow → Fields) where
  replay_round-Rises :
      (db : Db) (start : ℕ) (s : Stream)
      → Distinct db.events
      → All (λ (e : RunEventRow). 0 < e.id) db.events
      → Rises start s
      → Rises start (replay_round pg stored_row db s)
  unfolding replay_round
  replay_round-Rises db start s distinct positive r =
      let page = list_events pg db s.cursor none page_size false in
      let above : All (λ n. s.cursor < n) (ids page) =
        page-above pg db s.cursor distinct positive in
      let rising : Ascends (ids page) = page-Ascends pg db s.cursor distinct positive in
      let (e, c) = replay_page-sent pg stored_row page s in
      Rises-more start s _ (ids page) e rising above
        (subst (λ x. All (λ n. n ≤ x) (ids page)) (sym c) (last_or-top s.cursor (ids page) rising))
        (omega (arith, c, last_or-over s.cursor s.cursor (ids page) (omega arith) above)) r

  -- The keys differ and are positive, and what was sent ascends.
  pub record Rising (w : World) : Type 0 where
    pub distinct : Distinct w.db.events
    pub positive : All (λ (e : RunEventRow). 0 < e.id) w.db.events
    pub rises : Rises w.start w.stream

  Step-Rising : {w u : World} → Step pg stored_row w u → Rising w → Rising u
  Step-Rising {w} (commit db row event added fresh positive same) r = record {
    distinct = subst Distinct (sym added) (Distinct-snoc w.db.events row r.distinct fresh);
    positive = subst (All (λ (e : RunEventRow). 0 < e.id)) (sym added) (
        All-append (λ (e : RunEventRow). 0 < e.id) w.db.events (row ∷ []) r.positive
          (positive, tt));
    rises = r.rises;
  }
  Step-Rising {w} (publish before event after q waiting put) r = record {
    distinct = r.distinct;
    positive = r.positive;
    rises = r.rises;
  }
  Step-Rising {w} (open_cursor m) r = record {
    distinct = r.distinct;
    positive = r.positive;
    rises = open_stream-Rises w.stream.cursor (max_event_id w.db);
  }
  Step-Rising {w} (replay m) r = record {
    distinct = r.distinct;
    positive = r.positive;
    rises = replay_round-Rises w.db w.start w.stream r.distinct r.positive r.rises;
  }
  Step-Rising {w} (get i q m taken) r = record {
    distinct = r.distinct;
    positive = r.positive;
    rises = live_round-Rises w.start (item i) w.stream r.rises;
  }
  Step-Rising {w} (wait m empty) r = record {
    distinct = r.distinct;
    positive = r.positive;
    rises = live_round-Rises w.start timeout w.stream r.rises;
  }
  Step-Rising {w} disconnect r = record {
    distinct = r.distinct;
    positive = r.positive;
    rises = Rises-silent w.start w.stream _ refl refl r.rises;
  }

  -- However the writers overlap, in whatever order they commit and publish, provided that keys
  -- differ and are positive: from a stream that has sent nothing, the ids sent to a subscriber
  -- ascend in every state that it can reach, so no event is sent twice or before one with a smaller
  -- id, and they lie above its start cursor and up to its present one.
  pub stream-Ascends :
      {w u : World}
      → Distinct w.db.events
      → All (λ (e : RunEventRow). 0 < e.id) w.db.events
      → w.stream.outputs ≡ []
      → w.start ≡ w.stream.cursor
      → Reach pg stored_row w u
      → Ascends (sent u.stream.outputs)
        × All (λ n. u.start < n) (sent u.stream.outputs)
        × All (λ n. n ≤ u.stream.cursor) (sent u.stream.outputs)
  stream-Ascends {w} {u} distinct positive silent begins reach =
      let r = (Reach-Rising reach).rises in (r.ascends, r.above_start, r.up_to)
    where
      empty : sent w.stream.outputs ≡ []
      empty = ap sent silent

      Reach-Rising : {v : World} → Reach pg stored_row w v → Rising v
      Reach-Rising here = record {
        distinct = distinct;
        positive = positive;
        rises = record {
          ascends = subst Ascends (sym empty) tt;
          above_start = subst (All (λ n. w.start < n)) (sym empty) tt;
          up_to = subst (All (λ n. n ≤ w.stream.cursor)) (sym empty) tt;
          begun = omega (arith, begins);
        };
      }
      Reach-Rising (next r st) = Step-Rising st (Reach-Rising r)
