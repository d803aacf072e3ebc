-- ===== src/Stream/Termination.antt =====
-- The end of the replay loop.
use z_apply_backend.Base.{
  ℕ, zero, suc, ◌*◌, ◌≤◌, ◌<◌, ◌≡◌, refl, sym, ap, subst, ◌∙◌, false, none, List, ◌++◌, arith,
  length, take, drop, All, append_assoc, dec_lt, lt→ltb, ltb-false,
}
use z_apply_backend.Json.{Fields}
use z_apply_backend.Models.{RunEventRow, Db}
use z_apply_backend.Repo.Events.{list_events}
use z_apply_backend.Sql.{Postgres}
use z_apply_backend.Stream.{
  replaying, live, Stream, page_size, replay_rows, replay_page, replay_round, replay_loop,
}
use z_apply_backend.Stream.Paging.{take-short, length-take_full, length-drop, take-drop, above-page}
use z_apply_backend.Stream.Replay.{
  ids, sent, ids-page, length-ids, replay_rows-cursor, replay_rows-mode, replay_rows-sent,
}
use z_apply_backend.Stream.Window.{Ascends, above, last_or}

module _ (stored_row : RunEventRow → Fields) (page : List RunEventRow) (s : Stream) where
  replay_page-short :
      length page < page_size
      → replay_page stored_row page s ≡ record (replay_rows stored_row page s) { mode = live }
  unfolding replay_page
  replay_page-short h = rw (lt→ltb (length page) page_size h)

  replay_page-full :
      page_size ≤ length page → replay_page stored_row page s ≡ replay_rows stored_row page s
  unfolding replay_page
  replay_page-full h = rw (ltb-false (length page) page_size h)

module _ (pg : Postgres) (stored_row : RunEventRow → Fields) (db : Db)
    (ascends : Ascends (ids db.events)) (positive : All (λ n. 0 < n) (ids db.events)) where
  abbrev stored : List ℕ
  stored = ids db.events

  abbrev page : Stream → List RunEventRow
  page s = list_events pg db s.cursor none page_size false

  page-ids : (s : Stream) → ids (page s) ≡ take page_size (above s.cursor stored)
  page-ids s = ids-page pg db s.cursor ascends positive

  page-length : (s : Stream) → length (page s) ≡ length (take page_size (above s.cursor stored))
  page-length s = sym (length-ids (page s)) ∙ ap length (page-ids s)

  abbrev paged : Stream → Stream
  paged s = replay_rows stored_row (page s) s

  paged-sent :
      (s : Stream)
      → sent (paged s).outputs ≡ sent s.outputs ++ take page_size (above s.cursor stored)
  paged-sent s = replay_rows-sent stored_row (page s) s ∙ ap (λ l. sent s.outputs ++ l) (page-ids s)

  paged-above :
      (s : Stream) → above (paged s).cursor stored ≡ drop page_size (above s.cursor stored)
  paged-above s =
      ap (λ c. above c stored)
        (replay_rows-cursor stored_row (page s) s ∙ ap (last_or s.cursor) (page-ids s))
      ∙ above-page s.cursor page_size stored ascends

  round-short :
      (s : Stream)
      → length (above s.cursor stored) < page_size
      → replay_round pg stored_row db s ≡ record (paged s) { mode = live }
  unfolding replay_round
  round-short s h = replay_page-short stored_row (page s) s (
      subst (λ n. n < page_size)
        (sym (page-length s ∙ ap length (take-short page_size (above s.cursor stored) h))) h)

  round-full :
      (s : Stream)
      → page_size ≤ length (above s.cursor stored)
      → replay_round pg stored_row db s ≡ paged s
  unfolding replay_round
  round-full s h = replay_page-full stored_row (page s) s (
      subst (λ n. page_size ≤ n)
        (sym (page-length s ∙ length-take_full page_size (above s.cursor stored) h)) (omega arith))

  -- How the loop goes on after a round.
  abbrev next : ℕ → Stream → Stream
  next rounds s' = elim s'.mode [ replaying ↦ replay_loop rounds pg stored_row db s' | _ ↦ s' ]

  loop-next :
      (rounds : ℕ) (s t : Stream)
      → replay_round pg stored_row db s ≡ t
      → replay_loop (suc rounds) pg stored_row db s ≡ next rounds t
  unfolding replay_loop
  loop-next rounds s t e = ap (next rounds) e

  next-replaying :
      (rounds : ℕ) (t : Stream)
      → t.mode ≡ replaying
      → next rounds t ≡ replay_loop rounds pg stored_row db t
  next-replaying rounds t e = rw e

  -- What the loop leaves: a live stream that has sent what was above its cursor.
  abbrev Replayed : Stream → Stream → Type 0
  Replayed s t = (t.mode ≡ live) × (sent t.outputs ≡ sent s.outputs ++ above s.cursor stored)

  -- The replay loop ends: on tables whose event ids are positive and ascend, it goes live after at
  -- most one round more than the stored events above the cursor fill whole pages, if nothing is
  -- committed meanwhile and the client stays connected. It has then sent exactly those events, each
  -- once and in the order of their ids.
  pub replay_loop-live :
      (rounds : ℕ) (s : Stream)
      → s.mode ≡ replaying
      → length (above s.cursor (ids db.events)) < rounds * page_size
      → let t = replay_loop rounds pg stored_row db s in
        (t.mode ≡ live) × (sent t.outputs ≡ sent s.outputs ++ above s.cursor (ids db.events))
  replay_loop-live zero s m h = absurd (omega arith)
  replay_loop-live (suc rounds) s m h = elim (dec_lt (length (above s.cursor stored)) page_size) [
    | yes b ↦
        subst (Replayed s)
          (sym (loop-next rounds s (record (paged s) { mode = live }) (round-short s b)))
          (
            refl,
            paged-sent s
                ∙ ap (λ l. sent s.outputs ++ l) (take-short page_size (above s.cursor stored) b),
          )
    | no b ↦
        let same : (paged s).mode ≡ replaying = replay_rows-mode stored_row (page s) s ∙ m in
        let (ends, all) = replay_loop-live rounds (paged s) same (
          subst (λ n. n < rounds * page_size)
            (sym (ap length (paged-above s) ∙ length-drop page_size (above s.cursor stored)))
            (omega arith)) in
        subst (Replayed s)
          (sym (
            loop-next rounds s (paged s) (round-full s (omega arith))
            ∙ next-replaying rounds (paged s) same))
          (
            ends,
            all
                ∙ ap (λ l. l ++ above (paged s).cursor stored) (paged-sent s)
                ∙ append_assoc (sent s.outputs) (take page_size (above s.cursor stored)) _
                ∙ ap (λ l. sent s.outputs ++ (take page_size (above s.cursor stored) ++ l))
                    (paged-above s)
                ∙ ap (λ l. sent s.outputs ++ l) (take-drop page_size (above s.cursor stored)),
          )
  ]
