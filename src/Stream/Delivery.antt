-- ===== src/Stream/Delivery.antt =====
-- What a subscriber of GET /events/stream is sent, in every interleaving with the writers.
use mathlib.Core.Path.{subst₂}
use z_apply_backend.Base.{
  ℕ, ◌<◌, ◌≤◌, ◌≡◌, refl, sym, ap, ◌∙◌, subst, ◌⊎◌, inl, inr, List, [], ◌∷◌, ◌++◌, arith, All,
  append_nil,
}
use z_apply_backend.Json.{Fields}
use z_apply_backend.Models.{RunEventRow}
use z_apply_backend.Sql.{Postgres}
use z_apply_backend.Stream.{opening, live, closed}
use z_apply_backend.Stream.Covers.{keys, Covers}
use z_apply_backend.Stream.Invariant.{Inv, Phase, window-empty}
use z_apply_backend.Stream.Invariant.Replays.{replay-Inv}
use z_apply_backend.Stream.Invariant.Takes.{get-Inv}
use z_apply_backend.Stream.Invariant.Turns.{open-Inv, disconnect-Inv, wait-Inv, live_gone}
use z_apply_backend.Stream.Invariant.Writers.{commit-Inv, publish-Inv}
use z_apply_backend.Stream.Replay.{ids, sent}
use z_apply_backend.Stream.System.{
  World, Step, commit, publish, open_cursor, replay, get, wait, disconnect, Reach, here, next,
  OrderlyStep, Orderly,
}
use z_apply_backend.Stream.Window.{Ascends, window, above}
use z_apply_backend.Hub.Laws.{get_nowait-items}

-- The moment after `register`: a new queue, nothing sent, and some committed events that are still
-- to be published, the newest ones.
pub record Registered (w : World) : Type 0 where
  pub ascends : Ascends (ids w.db.events)
  pub positive : All (λ n. 0 < n) (ids w.db.events)
  pub published : List ℕ
  pub backlog : ids w.db.events ≡ published ++ keys w.pending
  pub empty : w.queue.items ≡ []
  pub unopened : w.stream.mode ≡ opening
  pub silent : w.stream.outputs ≡ []
  pub begins : w.start ≡ w.stream.cursor

window-full : (s c : ℕ) (ns : List ℕ) → All (λ n. n ≤ c) ns → window s c ns ≡ above s ns
window-full s c [] h = refl
window-full s c (n ∷ ns) h = ground (arith, window-full s c ns h.1)

module _ (pg : Postgres) (stored_row : RunEventRow → Fields) where
  Step-Inv :
      {w u : World} (st : Step pg stored_row w u) → OrderlyStep pg stored_row st → Inv w → Inv u
  Step-Inv {w} (commit db row event added fresh positive same) newest inv =
      commit-Inv w db row event added newest same inv
  Step-Inv {w} (publish [] event after q waiting put) o inv =
      publish-Inv w event after q waiting put inv
  Step-Inv {w} (publish (e ∷ before) event after q waiting put) o inv = absurd (cc)
  Step-Inv {w} (open_cursor m) o inv = open-Inv w m inv
  Step-Inv {w} (replay m) o inv = replay-Inv pg stored_row w inv m
  Step-Inv {w} (get i q m taken) o inv = get-Inv w inv m q i (get_nowait-items w.queue q i taken)
  Step-Inv {w} (wait m empty) o inv = wait-Inv w m inv
  Step-Inv {w} disconnect o inv = disconnect-Inv w inv

  Registered-Inv : (w : World) → Registered w → Inv w
  Registered-Inv w r = record {
    ascends = r.ascends;
    positive = r.positive;
    sends = record {
      above_start = omega (arith, r.begins);
      bounded = inl r.begins;
      exact =
          ap sent r.silent
          ∙ subst (λ s. [] ≡ window s w.stream.cursor (ids w.db.events)) (sym r.begins)
              (sym (window-empty w.stream.cursor (ids w.db.events)));
    };
    gone = r.published;
    ahead = keys w.pending;
    split = r.backlog;
    covers = inr (subst (λ l. Covers (keys w.pending) l (keys w.pending)) (sym r.empty) refl);
    phase = subst (λ m. Phase m w.start w.stream r.published) (sym r.unopened) (r.begins, r.silent);
  }

  Reach-Inv :
      {w u : World} (reach : Reach pg stored_row w u) → Orderly pg stored_row reach → Inv w → Inv u
  Reach-Inv here o inv = inv
  Reach-Inv (next r st) (o, os) inv = Step-Inv st os (Reach-Inv r o inv)

  nothing_ahead :
      (u : World) (inv : Inv u)
      → u.stream.mode ≡ live
      → u.queue.items ≡ []
      → u.pending ≡ []
      → inv.ahead ≡ []
  nothing_ahead u inv m q p = settle inv.covers
    where
      settle :
          (u.stream.mode ≡ closed) ⊎ Covers (keys u.pending) u.queue.items inv.ahead
          → inv.ahead ≡ []
      settle (inl c) = absurd (cc)
      settle (inr c) = subst₂ (λ k l. Covers (keys k) l inv.ahead) p q c

  -- If the keys of events grow with their commits, and they are published in the order of their
  -- commits: in every state that a subscriber and the writers can reach after its registration, the
  -- ids sent to it are those of the committed events above its start cursor and up to its present
  -- cursor, in the order of the commits. No event in between is skipped, and none is sent twice.
  pub stream_in_order :
      {w u : World}
      → Registered w
      → (reach : Reach pg stored_row w u) → Orderly pg stored_row reach
      → sent u.stream.outputs ≡ window u.start u.stream.cursor (ids u.db.events)
  stream_in_order {w} r reach o = (Reach-Inv reach o (Registered-Inv w r)).sends.exact

  -- Under the same two conditions on the writers: once a subscriber is live, its queue is empty and nothing is left to publish, it has been sent
  -- every committed event above its start cursor.
  pub stream_complete :
      {w u : World}
      → Registered w
      → (reach : Reach pg stored_row w u) → Orderly pg stored_row reach
      → u.stream.mode ≡ live
      → u.queue.items ≡ []
      → u.pending ≡ []
      → sent u.stream.outputs ≡ above u.start (ids u.db.events)
  stream_complete {w} {u} r reach o m q p =
      let inv = Reach-Inv reach o (Registered-Inv w r) in
      inv.sends.exact
      ∙ window-full u.start u.stream.cursor (ids u.db.events) (
          subst (All (λ n. n ≤ u.stream.cursor))
            (sym (
              inv.split
              ∙ ap (λ l. inv.gone ++ l) (nothing_ahead u inv m q p)
              ∙ append_nil inv.gone))
            (live_gone u.start u.stream inv.gone m inv.phase))
