-- ===== src/Stream/Invariant/Turns.antt =====
-- Opening the cursor, waiting in vain and disconnecting keep the invariant.
use z_apply_backend.Base.{
  ℕ, ◌≤◌, ◌≡◌, refl, sym, ◌∙◌, subst, ◌⊎◌, inl, inr, List, [], ◌∷◌, arith, ltb, ◌≢◌, All,
  append_nil, Bool-cases,
}
use z_apply_backend.Repo.Events.{max_event_id}
use z_apply_backend.Stream.{
  Stream, Mode, opening, live, closed, open_stream, live_round, timeout, keepalive,
}
use z_apply_backend.Stream.Covers.{keys, Covers}
use z_apply_backend.Stream.Replay.{ids, sent, sent-append}
use z_apply_backend.Stream.System.{World}
use z_apply_backend.Stream.Window.{window}
use z_apply_backend.Stream.Invariant.{Inv, Phase, window-empty}

-- The invariant for another state of the generator, from its own parts.
pub record Turn (w : World) (start : ℕ) (s : Stream) (gone : List ℕ) : Type 0 where
  pub above_start : start ≤ s.cursor
  pub bounded : (start ≡ s.cursor) ⊎ (s.cursor ≤ max_event_id w.db)
  pub exact : sent s.outputs ≡ window start s.cursor (ids w.db.events)
  pub phase : Phase s.mode start s gone

pub Turn-Inv :
    (w : World) (start : ℕ) (s : Stream) (inv : Inv w)
    → Turn w start s inv.gone
    → (w.stream.mode ≢ closed) ⊎ (s.mode ≡ closed)
    → Inv (record w { stream = s; start = start })
Turn-Inv w start s inv t m = record {
  ascends = inv.ascends;
  positive = inv.positive;
  sends = record { above_start = t.above_start; bounded = t.bounded; exact = t.exact };
  gone = inv.gone;
  ahead = inv.ahead;
  split = inv.split;
  covers = kept m inv.covers;
  phase = t.phase;
}
  where
    kept :
        (w.stream.mode ≢ closed) ⊎ (s.mode ≡ closed)
        → (w.stream.mode ≡ closed) ⊎ Covers (keys w.pending) w.queue.items inv.ahead
        → (s.mode ≡ closed) ⊎ Covers (keys w.pending) w.queue.items inv.ahead
    kept (inr c) _ = inl c
    kept (inl n) (inl c) = absurd (n c)
    kept (inl n) (inr c) = inr c

open-Turn :
    (w : World) (gone : List ℕ)
    → let s = open_stream w.stream.cursor (max_event_id w.db) in Turn w s.cursor s gone
unfolding open_stream
open-Turn w gone = elim (Bool-cases (ltb (max_event_id w.db) w.stream.cursor)) [
  | inl beyond ↦ rw beyond (record {
    above_start = omega arith;
    bounded = inl refl;
    exact = sym (window-empty 0 (ids w.db.events));
    phase = tt;
  })
  | inr within ↦ rw within (record {
    above_start = omega arith;
    bounded = inl refl;
    exact = sym (window-empty w.stream.cursor (ids w.db.events));
    phase = tt;
  })
]

pub open-Inv :
    (w : World)
    → w.stream.mode ≡ opening
    → Inv w
    → Inv (record w {
      stream = open_stream w.stream.cursor (max_event_id w.db);
      start = (open_stream w.stream.cursor (max_event_id w.db)).cursor;
    })
open-Inv w m inv = Turn-Inv w _ _ inv (open-Turn w inv.gone) (inl (λ c. cc))

pub disconnect-Inv :
    (w : World) → Inv w → Inv (record w { stream = record w.stream { mode = closed } })
disconnect-Inv w inv =
    Turn-Inv w w.start (record w.stream { mode = closed }) inv
      (record {
        above_start = inv.sends.above_start;
        bounded = inv.sends.bounded;
        exact = inv.sends.exact;
        phase = tt;
      })
      (inr refl)

pub live_gone :
    {m : Mode} (start : ℕ) (s : Stream) (gone : List ℕ)
    → m ≡ live
    → Phase m start s gone
    → All (λ n. n ≤ s.cursor) gone
live_gone start s gone e p = subst (λ m. Phase m start s gone) e p

pub gone_live :
    {m : Mode} (start : ℕ) (s : Stream) (gone : List ℕ)
    → m ≡ live
    → All (λ n. n ≤ s.cursor) gone
    → Phase m start s gone
gone_live start s gone e p = subst (λ m. Phase m start s gone) (sym e) p

pub wait-Inv :
    (w : World)
    → w.stream.mode ≡ live
    → Inv w
    → Inv (record w { stream = live_round timeout w.stream })
unfolding live_round
wait-Inv w m inv =
    Turn-Inv w w.start _ inv
      (record {
        above_start = inv.sends.above_start;
        bounded = inv.sends.bounded;
        exact = sent-append w.stream.outputs (keepalive ∷ []) ∙ append_nil _ ∙ inv.sends.exact;
        phase = gone_live w.start _ inv.gone m (live_gone w.start w.stream inv.gone m inv.phase);
      })
      (inl (λ c. cc))
