-- ===== src/Stream/Invariant/Writers.antt =====
-- Commits and publications keep the invariant.
use mathlib.Core.List.{map-append}
use z_apply_backend.Base.{
  ℕ, ◌⊎◌, inl, inr, ◌≤◌, ◌<◌, ◌≡◌, sym, ap, ◌∙◌, subst, ◌⊎◌, inl, inr, some, List, [], ◌∷◌, ◌++◌,
  arith, All, All-append, All-append_right, All-map, append_assoc,
}
use z_apply_backend.Hub.{StoredEvent, AsyncQueue, offer}
use z_apply_backend.Hub.Laws.{offered, offer-offered}
use z_apply_backend.Models.{RunEventRow, Db}
use z_apply_backend.Repo.Events.{max_event_id}
use z_apply_backend.Stream.{closed}
use z_apply_backend.Stream.Covers.{keys, Covers, Covers-commit, Covers-publish}
use z_apply_backend.Stream.Replay.{ids, max_event_id-bound}
use z_apply_backend.Stream.System.{World}
use z_apply_backend.Stream.Window.{Ascends, window, window-snoc}
use z_apply_backend.Stream.Invariant.{Sends, Inv, window-empty, Ascends-snoc}

module _ (w : World) (db : Db) (row : RunEventRow) (event : StoredEvent)
    (added : db.events ≡ w.db.events ++ row ∷ []) (newest : max_event_id w.db < row.id)
    (same : event.id ≡ row.id) where
  ids_added : ids db.events ≡ ids w.db.events ++ row.id ∷ []
  ids_added = ap ids added ∙ map-append _ w.db.events (row ∷ [])

  max_added : row.id ≤ max_event_id db
  max_added =
      (All-append_right (λ n. n ≤ max_event_id db) (ids w.db.events) (row.id ∷ [])
        (subst (All (λ n. n ≤ max_event_id db)) ids_added (max_event_id-bound db))).0

  abbrev pub next_world : World
  next_world = record w { db = db; pending = w.pending ++ event ∷ [] }

  commit-Sends : Sends w → Sends next_world
  commit-Sends s = record {
    above_start = s.above_start;
    bounded = later s.bounded;
    exact = s.exact ∙ sym (kept s.bounded);
  }
    where
      later :
          (w.start ≡ w.stream.cursor) ⊎ (w.stream.cursor ≤ max_event_id w.db)
          → (w.start ≡ w.stream.cursor) ⊎ (w.stream.cursor ≤ max_event_id db)
      later (inl e) = inl e
      later (inr h) = inr (omega (arith, max_added))

      kept :
          (w.start ≡ w.stream.cursor) ⊎ (w.stream.cursor ≤ max_event_id w.db)
          → window w.start w.stream.cursor (ids db.events)
            ≡ window w.start w.stream.cursor (ids w.db.events)
      kept (inl e) =
          subst
            (λ s.
              window s w.stream.cursor (ids db.events) ≡ window s w.stream.cursor (ids w.db.events))
            (sym e) (window-empty w.stream.cursor _ ∙ sym (window-empty w.stream.cursor _))
      kept (inr h) =
          ap (window w.start w.stream.cursor) ids_added
          ∙ window-snoc w.start w.stream.cursor row.id (ids w.db.events) (omega arith)

  commit-Covers :
      (ahead : List ℕ)
      → (w.stream.mode ≡ closed) ⊎ Covers (keys w.pending) w.queue.items ahead
      → (w.stream.mode ≡ closed)
        ⊎ Covers (keys (w.pending ++ event ∷ [])) w.queue.items (ahead ++ row.id ∷ [])
  commit-Covers ahead (inl c) = inl c
  commit-Covers ahead (inr c) = inr (
      subst (λ l. Covers l w.queue.items (ahead ++ row.id ∷ []))
        (ap (λ n. keys w.pending ++ n ∷ []) (sym same) ∙ sym (map-append _ w.pending (event ∷ [])))
        (Covers-commit row.id (keys w.pending) w.queue.items ahead c))

  pub commit-Inv : Inv w → Inv next_world
  commit-Inv inv = record {
    ascends = subst Ascends (sym ids_added) (
        Ascends-snoc row.id (ids w.db.events)
          (All-map _ _ (λ n h. omega arith) (ids w.db.events) (max_event_id-bound w.db))
          inv.ascends);
    positive =
        subst (All (λ n. 0 < n)) (sym ids_added)
          (All-append _ (ids w.db.events) (row.id ∷ []) inv.positive (omega arith, tt));
    sends = commit-Sends inv.sends;
    gone = inv.gone;
    ahead = inv.ahead ++ row.id ∷ [];
    split =
        ids_added
        ∙ ap (λ l. l ++ row.id ∷ []) inv.split
        ∙ append_assoc inv.gone inv.ahead (row.id ∷ []);
    covers = commit-Covers inv.ahead inv.covers;
    phase = inv.phase;
  }

pub publish-Inv :
    (w : World) (event : StoredEvent) (rest : List StoredEvent) (q : AsyncQueue)
    → w.pending ≡ event ∷ rest
    → offer w.queue event ≡ some q
    → Inv w
    → Inv (record w { pending = rest; queue = q })
publish-Inv w event rest q waiting put inv = record {
  ascends = inv.ascends;
  positive = inv.positive;
  sends = record {
    above_start = inv.sends.above_start;
    bounded = inv.sends.bounded;
    exact = inv.sends.exact;
  };
  gone = inv.gone;
  ahead = inv.ahead;
  split = inv.split;
  covers = moved inv.covers;
  phase = inv.phase;
}
  where
    offered_q : offered w.queue event ≡ q
    offered_q = cc (offer-offered w.queue event)

    moved :
        (w.stream.mode ≡ closed) ⊎ Covers (keys w.pending) w.queue.items inv.ahead
        → (w.stream.mode ≡ closed) ⊎ Covers (keys rest) q.items inv.ahead
    moved (inl c) = inl c
    moved (inr c) = inr (
        subst (λ (p : AsyncQueue). Covers (keys rest) p.items inv.ahead) offered_q
          (Covers-publish event (keys rest) w.queue inv.ahead
            (subst (λ l. Covers (keys l) w.queue.items inv.ahead) waiting c)))
