-- ===== src/Stream/Invariant/Takes.antt =====
-- Taking an item from the queue keeps the invariant.
use z_apply_backend.Base.{
  ℕ, ◌≤◌, ◌<◌, ◌≡◌, refl, sym, ap, ◌∙◌, subst, ◌⊎◌, inl, inr, Option, none, some, List, [], ◌∷◌,
  ◌++◌, arith, ltb, All, All-append, All-append_right, All-map, append_assoc, Bool-cases, ltb→lt,
}
use z_apply_backend.Hub.{StoredEvent, AsyncQueue}
use z_apply_backend.Repo.Events.{max_event_id}
use z_apply_backend.Stream.{live, closed, live_round, event_frame, item, Output, frame}
use z_apply_backend.Stream.Covers.{keys, Covers}
use z_apply_backend.Stream.Replay.{ids, sent, sent-append, max_event_id-bound}
use z_apply_backend.Stream.System.{World}
use z_apply_backend.Stream.Window.{Ascends, window, window-next}
use z_apply_backend.Stream.Invariant.{Inv}
use z_apply_backend.Stream.Invariant.Turns.{live_gone, gone_live}

-- The marker ends the stream; an event that is taken is sent if it is above the cursor.
module _ (w : World) (inv : Inv w) (m : w.stream.mode ≡ live) (q : AsyncQueue) where
  past : All (λ n. n ≤ w.stream.cursor) inv.gone
  past = live_gone w.start w.stream inv.gone m inv.phase

  module _ (event : StoredEvent) (ahead : List ℕ) (split : inv.ahead ≡ event.id ∷ ahead)
      (c : Covers (keys w.pending) q.items ahead) where
    here_split : ids w.db.events ≡ inv.gone ++ event.id ∷ ahead
    here_split = inv.split ∙ ap (λ l. inv.gone ++ l) split

    next_split : ids w.db.events ≡ (inv.gone ++ event.id ∷ []) ++ ahead
    next_split = here_split ∙ sym (append_assoc inv.gone (event.id ∷ []) ahead)

    sent_event :
        (outputs : List Output)
        → w.stream.cursor < event.id
        → sent outputs ≡ sent w.stream.outputs ++ event.id ∷ []
        → sent outputs ≡ window w.start event.id (ids w.db.events)
    sent_event outputs h e =
        e
        ∙ ap (λ l. l ++ event.id ∷ []) inv.sends.exact
        ∙ subst (λ l. window w.start w.stream.cursor l ++ event.id ∷ [] ≡ window w.start event.id l)
            (sym here_split)
            (sym (
              window-next w.start w.stream.cursor event.id inv.gone ahead inv.sends.above_start h
                past (subst Ascends here_split inv.ascends)))

    stored : event.id ≤ max_event_id w.db
    stored =
        (All-append_right (λ n. n ≤ max_event_id w.db) inv.gone (event.id ∷ ahead)
          (subst (All (λ n. n ≤ max_event_id w.db)) here_split (max_event_id-bound w.db))).0

    take_event : Inv (record w { queue = q; stream = live_round (item (some event)) w.stream })
    unfolding live_round
    take_event = elim (Bool-cases (ltb w.stream.cursor event.id)) [
      | inl new ↦ rw new (record {
        ascends = inv.ascends;
        positive = inv.positive;
        sends = record {
          above_start = omega (arith, inv.sends.above_start, ltb→lt _ _ new);
          bounded = inr stored;
          exact =
              sent_event (w.stream.outputs ++ frame (event_frame event) ∷ []) (ltb→lt _ _ new)
                (sent-append w.stream.outputs (frame (event_frame event) ∷ []));
        };
        gone = inv.gone ++ event.id ∷ [];
        ahead = ahead;
        split = next_split;
        covers = inr c;
        phase = gone_live w.start _ (inv.gone ++ event.id ∷ []) m (
            All-append (λ n. n ≤ event.id) inv.gone (event.id ∷ [])
              (All-map _ _ (λ n h. omega (arith, ltb→lt _ _ new)) inv.gone past) (omega arith, tt));
      })
      | inr old ↦ rw old (record {
        ascends = inv.ascends;
        positive = inv.positive;
        sends = record {
          above_start = inv.sends.above_start;
          bounded = inv.sends.bounded;
          exact = inv.sends.exact;
        };
        gone = inv.gone ++ event.id ∷ [];
        ahead = ahead;
        split = next_split;
        covers = inr c;
        phase = gone_live w.start w.stream (inv.gone ++ event.id ∷ []) m (
            All-append (λ n. n ≤ w.stream.cursor) inv.gone (event.id ∷ []) past (ground arith, tt));
      })
    ]

  taken :
      (event : StoredEvent) (items : List (Option StoredEvent))
      → items ≡ some event ∷ q.items
      → (w.stream.mode ≡ closed) ⊎ Covers (keys w.pending) items inv.ahead
      → Inv (record w { queue = q; stream = live_round (item (some event)) w.stream })
  taken event items e (inl c) = absurd (cc)
  taken event items e (inr c) =
      let (ahead, split, rest) = subst (λ l. Covers (keys w.pending) l inv.ahead) e c in
      take_event event ahead split rest

  pub get-Inv :
      (i : Option StoredEvent)
      → w.queue.items ≡ i ∷ q.items
      → Inv (record w { queue = q; stream = live_round (item i) w.stream })
  unfolding live_round
  get-Inv none e = record {
    ascends = inv.ascends;
    positive = inv.positive;
    sends = record {
      above_start = inv.sends.above_start;
      bounded = inv.sends.bounded;
      exact = inv.sends.exact;
    };
    gone = inv.gone;
    ahead = inv.ahead;
    split = inv.split;
    covers = inl refl;
    phase = tt;
  }
  get-Inv (some event) e = taken event w.queue.items e inv.covers
