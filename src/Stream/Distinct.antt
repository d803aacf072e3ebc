-- ===== src/Stream/Distinct.antt =====
-- The page of the replay on tables whose event keys differ, in whatever order they were committed.
use z_apply_backend.Base.{
  ℕ, zero, suc, ◌<◌, ◌≡◌, ◌≢◌, sym, subst, Bool, true, false, none, List, [], ◌∷◌, ◌++◌, arith,
  select, take, All, All-append, All-append_left, All-append_right,
}
use z_apply_backend.Models.{RunEventRow, Db}
use z_apply_backend.Repo.Events.{event_filter, list_events}
use z_apply_backend.Sql.{Postgres}
use z_apply_backend.Sql.Order.{
  Ordering, done, pick, asc, asc-IsTotal, asc-IsTransitive, Ordering-All,
}
use z_apply_backend.Stream.{page_size}
use z_apply_backend.Stream.Replay.{ids}
use z_apply_backend.Stream.Window.{Ascends}

-- No two rows have the same key.
abbrev pub Distinct : List RunEventRow → Type 0
Distinct [] = Unit
Distinct (e ∷ rows) = All (λ (r : RunEventRow). r.id ≢ e.id) rows × Distinct rows

abbrev Newer : RunEventRow → RunEventRow → Type 0
Newer e r = e.id < r.id

select-All_rows :
    (P : RunEventRow → Type 0) (p : RunEventRow → Bool) (rows : List RunEventRow)
    → All P rows
    → All P (select p rows)
select-All_rows P p [] h = tt
select-All_rows P p (r ∷ rows) h = ground (arith, select-All_rows P p rows h.1)

select-Distinct :
    (p : RunEventRow → Bool) (rows : List RunEventRow) → Distinct rows → Distinct (select p rows)
select-Distinct p [] d = tt
select-Distinct p (r ∷ rows) d = ground (
  arith,
  select-Distinct p rows d.1,
  select-All_rows (λ (x : RunEventRow). x.id ≢ r.id) p rows d.0,
)

pub Distinct-snoc :
    (rows : List RunEventRow) (row : RunEventRow)
    → Distinct rows
    → All (λ (e : RunEventRow). e.id ≢ row.id) rows
    → Distinct (rows ++ row ∷ [])
Distinct-snoc [] row d h = (tt, tt)
Distinct-snoc (r ∷ rows) row d h = (
  All-append (λ e. e.id ≢ r.id) rows (row ∷ []) d.0 (λ e. h.0 (sym e), tt),
  Distinct-snoc rows row d.1 h.1,
)

-- A row that is taken out differs from the others, and these differ among themselves.
Distinct-pick :
    (before : List RunEventRow) (a : RunEventRow) (after : List RunEventRow)
    → Distinct (before ++ a ∷ after)
    → All (λ (r : RunEventRow). r.id ≢ a.id) (before ++ after) × Distinct (before ++ after)
Distinct-pick [] a after d = d
Distinct-pick (b ∷ before) a after d =
    let (others, rest) = Distinct-pick before a after d.1 in
    let differs : All (λ (r : RunEventRow). r.id ≢ b.id) (a ∷ after) =
      All-append_right (λ r. r.id ≢ b.id) before (a ∷ after) d.0 in
    (
      (λ e. differs.0 (sym e), others),
      (
        All-append (λ r. r.id ≢ b.id) before after
            (All-append_left (λ r. r.id ≢ b.id) before (a ∷ after) d.0) differs.1,
        rest,
      ),
    )

Newer-rows :
    (a : RunEventRow) (rows : List RunEventRow)
    → All (λ b. asc (λ (e : RunEventRow). e.id) a b ≡ true) rows
    → All (λ (r : RunEventRow). r.id ≢ a.id) rows
    → All (Newer a) rows
Newer-rows a [] least other = tt
Newer-rows a (r ∷ rows) least other =
    (ground (arith, least.0, other.0), Newer-rows a rows least.1 other.1)

Newer-ids :
    (a : RunEventRow) (rows : List RunEventRow)
    → All (Newer a) rows
    → All (λ n. a.id < n) (ids rows)
Newer-ids a [] h = tt
Newer-ids a (r ∷ rows) h = (h.0, Newer-ids a rows h.1)

Ordering-Ascends :
    {rows out : List RunEventRow}
    → Ordering (asc (λ (e : RunEventRow). e.id)) rows out
    → Distinct rows
    → Ascends (ids out)
Ordering-Ascends done d = tt
Ordering-Ascends (pick before a after {rest = out} e least o) d =
    let (others, rest) = Distinct-pick before a after (subst Distinct e d) in
    (
      Newer-ids a out (
          Ordering-All (asc (λ (e : RunEventRow). e.id)) (Newer a) o
            (Newer-rows a (before ++ after) least others)),
      Ordering-Ascends o rest,
    )

take-All_ids :
    (P : ℕ → Type 0) (k : ℕ) (rows : List RunEventRow)
    → All P (ids rows)
    → All P (ids (take k rows))
take-All_ids P zero rows h = tt
take-All_ids P (suc k) [] h = tt
take-All_ids P (suc k) (r ∷ rows) h = (h.0, take-All_ids P k rows h.1)

take-Ascends : (k : ℕ) (rows : List RunEventRow) → Ascends (ids rows) → Ascends (ids (take k rows))
take-Ascends zero rows a = tt
take-Ascends (suc k) [] a = tt
take-Ascends (suc k) (r ∷ rows) a = (take-All_ids _ k rows a.0, take-Ascends k rows a.1)

-- With positive keys, `after or 0` filters as `after` does.
matching-above :
    (c : ℕ) (rows : List RunEventRow)
    → All (λ (e : RunEventRow). 0 < e.id) rows
    → All (λ (e : RunEventRow). c < e.id) (select (event_filter c none) rows)
unfolding event_filter
matching-above c [] h = tt
matching-above c (e ∷ rows) h = ground (arith, h.0, matching-above c rows h.1)

ids-All :
    (c : ℕ) (rows : List RunEventRow)
    → All (λ (e : RunEventRow). c < e.id) rows
    → All (λ n. c < n) (ids rows)
ids-All c [] h = tt
ids-All c (r ∷ rows) h = (h.0, ids-All c rows h.1)

module _ (pg : Postgres) (db : Db) (c : ℕ) (distinct : Distinct db.events)
    (positive : All (λ (e : RunEventRow). 0 < e.id) db.events) where
  abbrev page : List RunEventRow
  page = list_events pg db c none page_size false

  abbrev matching : List RunEventRow
  matching = select (event_filter c none) db.events

  page_listed :
      Ordering
        (asc (λ (e : RunEventRow). e.id))
        matching
        (pg.order_by (asc (λ (e : RunEventRow). e.id)) matching)
  page_listed =
      pg.order_by-Ordering (asc (λ e. e.id)) (asc-IsTotal (λ e. e.id))
        (asc-IsTransitive (λ e. e.id)) matching

  pub page-Ascends : Ascends (ids page)
  unfolding list_events
  page-Ascends =
      take-Ascends page_size _
        (Ordering-Ascends page_listed (select-Distinct (event_filter c none) db.events distinct))

  pub page-above : All (λ n. c < n) (ids page)
  unfolding list_events
  page-above =
      take-All_ids (λ n. c < n) page_size _
        (ids-All c _ (
          Ordering-All (asc (λ (e : RunEventRow). e.id)) (λ e. c < e.id) page_listed
            (matching-above c db.events positive)))
