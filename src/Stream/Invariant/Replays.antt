-- ===== src/Stream/Invariant/Replays.antt =====
-- A round of the replay loop keeps the invariant.
use mathlib.Core.Path.{ap₂}
use z_apply_backend.Base.{
  ℕ, ◌≤◌, ◌≡◌, sym, ap, ◌∙◌, subst, ◌⊎◌, inl, inr, true, false, none, List, [], ◌∷◌, ◌++◌, arith,
  ltb, length, zero, suc, take, All, All-append_left, Bool-cases, ltb→lt,
}
use z_apply_backend.Json.{Fields}
use z_apply_backend.Models.{RunEventRow}
use z_apply_backend.Repo.Events.{max_event_id, list_events}
use z_apply_backend.Sql.{Postgres}
use z_apply_backend.Stream.{Stream, replaying, replay_round, page_size, replay_rows}
use z_apply_backend.Stream.Replay.{
  ids, sent, replay_rows-cursor, replay_rows-mode, replay_rows-sent, ids-page, length-ids,
  max_event_id-bound,
}
use z_apply_backend.Stream.System.{World}
use z_apply_backend.Stream.Window.{
  window, above, last_or, last_or-above_le, window-page, select-All, short_page,
}
use z_apply_backend.Stream.Invariant.{Inv, Phase}
use z_apply_backend.Stream.Invariant.Turns.{Turn, Turn-Inv}

last_or-bound : (m n : ℕ) (ns : List ℕ) → n ≤ m → All (λ k. k ≤ m) ns → last_or n ns ≤ m
last_or-bound m n [] h a = h
last_or-bound m n (k ∷ ns) h a = last_or-bound m k ns a.0 a.1

page-bounded :
    (start c m : ℕ) (ns : List ℕ)
    → All (λ k. k ≤ m) ns
    → (start ≡ c) ⊎ (c ≤ m)
    → (start ≡ last_or c ns) ⊎ (last_or c ns ≤ m)
page-bounded start c m [] a h = h
page-bounded start c m (n ∷ ns) a h = inr (last_or-bound m n ns a.0 a.1)

take-All : (P : ℕ → Type 0) (k : ℕ) (ns : List ℕ) → All P ns → All P (take k ns)
take-All P zero ns h = tt
take-All P (suc k) [] h = tt
take-All P (suc k) (n ∷ ns) h = (h.0, take-All P k ns h.1)

module _ (pg : Postgres) (stored_row : RunEventRow → Fields) (w : World) (inv : Inv w)
    (m : w.stream.mode ≡ replaying) where
  page : List RunEventRow
  page = list_events pg w.db w.stream.cursor none page_size false

  fetched : List ℕ
  fetched = take page_size (above w.stream.cursor (ids w.db.events))

  page-ids : ids page ≡ fetched
  unfolding page fetched
  page-ids = ids-page pg w.db w.stream.cursor inv.ascends inv.positive

  -- The generator after the `for` loop, whatever its mode becomes.
  replayed : Stream
  unfolding page
  replayed = replay_rows stored_row page w.stream

  cursor_replayed : replayed.cursor ≡ last_or w.stream.cursor fetched
  unfolding replayed
  cursor_replayed =
      replay_rows-cursor stored_row page w.stream ∙ ap (last_or w.stream.cursor) page-ids

  sent_replayed : sent replayed.outputs ≡ window w.start replayed.cursor (ids w.db.events)
  unfolding replayed fetched
  sent_replayed =
      replay_rows-sent stored_row page w.stream
      ∙ ap₂ ◌++◌ inv.sends.exact page-ids
      ∙ sym (
          window-page w.start w.stream.cursor page_size (ids w.db.events) inv.sends.above_start
            inv.ascends)
      ∙ ap (λ c. window w.start c (ids w.db.events)) (sym cursor_replayed)

  start_replayed : w.start ≤ replayed.cursor
  unfolding fetched
  start_replayed = omega (
    arith,
    cursor_replayed,
    inv.sends.above_start,
    last_or-above_le w.stream.cursor page_size (ids w.db.events) inv.ascends,
  )

  bounded_replayed : (w.start ≡ replayed.cursor) ⊎ (replayed.cursor ≤ max_event_id w.db)
  unfolding fetched
  bounded_replayed =
      subst (λ c. (w.start ≡ c) ⊎ (c ≤ max_event_id w.db)) (sym cursor_replayed)
        (page-bounded w.start w.stream.cursor (max_event_id w.db) fetched
          (take-All _ page_size _ (select-All _ _ (ids w.db.events) (max_event_id-bound w.db)))
          inv.sends.bounded)

  caught_up : ltb (length page) page_size ≡ true → All (λ n. n ≤ replayed.cursor) inv.gone
  unfolding fetched
  caught_up short = All-append_left _ inv.gone inv.ahead (
      subst (All (λ n. n ≤ replayed.cursor)) inv.split (
        subst (λ c. All (λ n. n ≤ c) (ids w.db.events)) (sym cursor_replayed)
          (short_page w.stream.cursor page_size (ids w.db.events)
            (omega (arith, ltb→lt _ _ short, ap length page-ids, length-ids page)) inv.ascends)))

  replay-Turn : Turn w w.start (replay_round pg stored_row w.db w.stream) inv.gone
  unfolding replay_round page replayed
  replay-Turn = elim (Bool-cases (ltb (length page) page_size)) [
    | inl short ↦ rw short (record {
      above_start = start_replayed;
      bounded = bounded_replayed;
      exact = sent_replayed;
      phase = caught_up short;
    })
    | inr long ↦ rw long (record {
      above_start = start_replayed;
      bounded = bounded_replayed;
      exact = sent_replayed;
      phase =
          subst (λ n. Phase n w.start replayed inv.gone)
            (sym (replay_rows-mode stored_row page w.stream ∙ m)) tt;
    })
  ]

  pub replay-Inv : Inv (record w { stream = replay_round pg stored_row w.db w.stream })
  replay-Inv = Turn-Inv w w.start _ inv replay-Turn (inl (λ c. cc))
