-- ===== src/Repo/Pages.antt =====
-- The pages of `list_runs`, each asked for with the creation time of the last run of the one before.
use z_apply_backend.Base.{
  ℕ, zero, suc, ◌≤◌, ◌<◌, ◌≡◌, refl, subst, ap, Bool, true, Option, some, String, List, [], ◌∷◌,
  ◌++◌, arith, length, take, select, All, All-map, All-append, All-append_right,
}
use z_apply_backend.Models.{RunRow, Db, Datetime}
use z_apply_backend.Repo.Runs.{run_filter, list_runs}
use z_apply_backend.Sql.{Postgres}
use z_apply_backend.Sql.Order.{
  Sorted, Ordering, desc, desc-IsTotal, desc-IsTransitive, Ordering-All, Ordering-Sorted,
  Ordering-length,
}

abbrev pub newest_first : RunRow → RunRow → Bool
newest_first = desc (λ (r : RunRow). r.created_at)

take-All {κ} : {A : Type 0} (P : A → Type κ) (k : ℕ) (xs : List A) → All P xs → All P (take k xs)
take-All P zero xs h = tt
take-All P (suc k) [] h = tt
take-All P (suc k) (x ∷ xs) h = (h.0, take-All P k xs h.1)

take-Sorted :
    (k : ℕ) (rows : List RunRow) → Sorted newest_first rows → Sorted newest_first (take k rows)
take-Sorted zero rows h = tt
take-Sorted (suc k) [] h = tt
take-Sorted (suc k) (r ∷ rows) h =
    (take-All (λ b. newest_first r b ≡ true) k rows h.0, take-Sorted k rows h.1)

append-Sorted :
    (xs ys : List RunRow)
    → Sorted newest_first xs
    → Sorted newest_first ys
    → All (λ x. All (λ y. newest_first x y ≡ true) ys) xs
    → Sorted newest_first (xs ++ ys)
append-Sorted [] ys h k cross = k
append-Sorted (x ∷ xs) ys h k cross =
    (All-append (λ y. newest_first x y ≡ true) xs ys h.0 cross.0, append-Sorted xs ys h.1 k cross.1)

-- The last run of a page is not newer than any run of it.
last_oldest :
    (before : List RunRow) (last : RunRow)
    → Sorted newest_first (before ++ last ∷ [])
    → All (λ (q : RunRow). last.created_at ≤ q.created_at) (before ++ last ∷ [])
last_oldest [] last h = (omega arith, tt)
last_oldest (q ∷ before) last h =
    let here : newest_first q last ≡ true =
      (All-append_right (λ b. newest_first q b ≡ true) before (last ∷ []) h.0).0 in
    (ground arith, last_oldest before last h.1)

select-passes : (p : RunRow → Bool) (rows : List RunRow) → All (λ r. p r ≡ true) (select p rows)
select-passes p [] = tt
select-passes p (r ∷ rows) = ground (arith, select-passes p rows)

module _ (pg : Postgres) (db : Db) (status outcome : Option String) where
  abbrev pub matching : Option Datetime → List RunRow
  matching cursor = select (run_filter cursor status outcome) db.runs

  ordering :
      (cursor : Option Datetime)
      → Ordering newest_first (matching cursor) (pg.order_by newest_first (matching cursor))
  ordering cursor =
      pg.order_by-Ordering newest_first (desc-IsTotal (λ (r : RunRow). r.created_at))
        (desc-IsTransitive (λ (r : RunRow). r.created_at)) (matching cursor)

  page-Sorted :
      (limit : ℕ) (cursor : Option Datetime)
      → Sorted newest_first (list_runs pg db limit cursor status outcome)
  unfolding list_runs
  page-Sorted limit cursor = take-Sorted limit _ (Ordering-Sorted newest_first (ordering cursor))

  page-passes :
      (limit : ℕ) (cursor : Option Datetime)
      → All
          (λ r. run_filter cursor status outcome r ≡ true)
          (list_runs pg db limit cursor status outcome)
  unfolding list_runs
  page-passes limit cursor =
      take-All (λ r. run_filter cursor status outcome r ≡ true) limit _
        (Ordering-All newest_first (λ r. run_filter cursor status outcome r ≡ true)
          (ordering cursor) (select-passes (run_filter cursor status outcome) db.runs))

  filter-earlier :
      (c : Datetime) (r : RunRow) → run_filter (some c) status outcome r ≡ true → r.created_at < c
  unfolding run_filter
  filter-earlier c r h = ground arith

  next_older :
      (n : ℕ) (c : Datetime)
      → All (λ (r : RunRow). r.created_at < c) (list_runs pg db n (some c) status outcome)
  next_older n c =
      All-map _ _ (λ r h. filter-earlier c r h) (list_runs pg db n (some c) status outcome)
        (page-passes n (some c))

  length-take_same :
      {A B : Type 0} (k : ℕ) (xs : List A) (ys : List B)
      → length xs ≡ length ys
      → length (take k xs) ≡ length (take k ys)
  length-take_same zero xs ys e = refl
  length-take_same (suc k) [] [] e = refl
  length-take_same (suc k) [] (y ∷ ys) e = absurd (omega arith)
  length-take_same (suc k) (x ∷ xs) [] e = absurd (omega arith)
  length-take_same (suc k) (x ∷ xs) (y ∷ ys) e = ap suc (length-take_same k xs ys (omega arith))

  page-length :
      (n : ℕ) (cursor : Option Datetime)
      → length (list_runs pg db n cursor status outcome) ≡ length (take n (matching cursor))
  unfolding list_runs
  page-length n cursor =
      length-take_same n (pg.order_by newest_first (matching cursor)) (matching cursor)
        (Ordering-length newest_first (ordering cursor))

  -- The page after a page, asked for with the creation time of its last run, goes on in the same
  -- order, newest first. Each of its runs is older than every run of the page before, so no run is
  -- on both; and it is as long as there are matching runs older than that time, up to its limit.
  pub list_runs-pages :
      (limit n : ℕ) (cursor : Option Datetime) (before : List RunRow) (last : RunRow)
      → list_runs pg db limit cursor status outcome ≡ before ++ last ∷ []
      → let next = list_runs pg db n (some last.created_at) status outcome in
        Sorted newest_first ((before ++ last ∷ []) ++ next)
        × All
            (λ (r : RunRow).
              All (λ (q : RunRow). r.created_at < q.created_at) (before ++ last ∷ []))
            next
        × (length next
            ≡ length (take n (select (run_filter (some last.created_at) status outcome) db.runs)))
  list_runs-pages limit n cursor before last e =
      let page : List RunRow = before ++ last ∷ [] in
      let next : List RunRow = list_runs pg db n (some last.created_at) status outcome in
      let sorted : Sorted newest_first page =
        subst (Sorted newest_first) e (page-Sorted limit cursor) in
      let least : All (λ (q : RunRow). last.created_at ≤ q.created_at) page =
        last_oldest before last sorted in
      let older : All (λ (r : RunRow). r.created_at < last.created_at) next =
        next_older n last.created_at in
      (
        append-Sorted page next sorted (page-Sorted n (some last.created_at)) (
            All-map (λ (q : RunRow). last.created_at ≤ q.created_at) _
              (λ q h.
                All-map (λ (r : RunRow). r.created_at < last.created_at) _ (λ r k. ground arith)
                  next older)
              page least),
        All-map (λ (r : RunRow). r.created_at < last.created_at) _
            (λ r k.
              All-map (λ (q : RunRow). last.created_at ≤ q.created_at) _ (λ q h. omega arith) page
                least)
            next older,
        page-length n (some last.created_at),
      )
