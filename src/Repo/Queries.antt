-- ===== src/Repo/Queries.antt =====
-- What `list_events` and `list_runs` return.
use mathlib.Core.List.{reverse, reverse-cons, reverse-reverse}
use mathlib.Core.Path.{ap₂}
use z_apply_backend.Base.{
  ℕ, zero, suc, ◌-◌, ◌≤◌, ◌≡◌, refl, sym, ap, ◌∙◌, Bool, true, false, Option, List, [], ◌∷◌, ◌++◌,
  arith, select, take, drop, length, length-append, All,
}
use z_apply_backend.Models.{RunEventRow, Db, Uuid}
use z_apply_backend.Repo.Events.{event_filter, list_events}
use z_apply_backend.Sql.{Postgres}
use z_apply_backend.Sql.Order.{
  Strict, asc, desc, asc-IsTotal, asc-IsTransitive, desc-IsTotal, desc-IsTransitive,
  Ordering-Strict, Ordering-reversed,
}

abbrev pub by_id : RunEventRow → RunEventRow → Bool
by_id = asc (λ (e : RunEventRow). e.id)

pub select-All {κ} :
    {A : Type 0} (P : A → Type κ) (p : A → Bool) (xs : List A) → All P xs → All P (select p xs)
select-All P p [] h = tt
select-All P p (x ∷ xs) h = ground (arith, select-All P p xs h.1)

select-Strict :
    (p : RunEventRow → Bool) (rows : List RunEventRow)
    → Strict by_id rows
    → Strict by_id (select p rows)
select-Strict p [] h = tt
select-Strict p (e ∷ rows) h =
    ground (arith, select-Strict p rows h.1, select-All (λ b. by_id b e ≡ false) p rows h.0)

length-reverse : {A : Type 0} (xs : List A) → length (reverse xs) ≡ length xs
length-reverse [] = refl
length-reverse (x ∷ xs) =
    ap length (reverse-cons x xs)
    ∙ omega (arith, length-append (reverse xs) (x ∷ []), length-reverse xs)

drop-append :
    {A : Type 0} (n : ℕ) (xs ys : List A) → n ≤ length xs → drop n (xs ++ ys) ≡ drop n xs ++ ys
drop-append zero xs ys h = refl
drop-append (suc n) [] ys h = absurd (omega arith)
drop-append (suc n) (x ∷ xs) ys h = drop-append n xs ys (omega arith)

drop-length : {A : Type 0} (n : ℕ) (xs : List A) → length xs ≡ n → drop n xs ≡ []
drop-length zero [] h = refl
drop-length zero (x ∷ xs) h = absurd (omega arith)
drop-length (suc n) [] h = refl
drop-length (suc n) (x ∷ xs) h = drop-length n xs (omega arith)

reverse-take :
    {A : Type 0} (n : ℕ) (ys : List A) → reverse (take n ys) ≡ drop (length ys - n) (reverse ys)
reverse-take zero ys =
    sym (drop-length (length ys - 0) (reverse ys) (omega (arith, length-reverse ys)))
reverse-take (suc n) [] = let nothing : 0 - suc n ≡ 0 = omega arith in rw nothing
reverse-take (suc n) (y ∷ ys) =
    reverse-cons y (take n ys)
    ∙ ap (λ l. l ++ y ∷ []) (reverse-take n ys)
    ∙ sym (drop-append (length ys - n) (reverse ys) (y ∷ []) (omega (arith, length-reverse ys)))
    ∙ ap₂ drop (omega arith) (sym (reverse-cons y ys))

module _ (pg : Postgres) (db : Db) (ordered : Strict by_id db.events) where
  -- Oldest first: the first rows that pass the filter.
  pub list_events-oldest :
      (after : ℕ) (run_id : Option Uuid) (limit : ℕ)
      → list_events pg db after run_id limit false
        ≡ take limit (select (event_filter after run_id) db.events)
  unfolding list_events
  list_events-oldest after run_id limit = ap (take limit) (
      Ordering-Strict by_id
        (pg.order_by-Ordering by_id (asc-IsTotal (λ e. e.id)) (asc-IsTransitive (λ e. e.id)) _)
        (select-Strict (event_filter after run_id) db.events ordered))

  -- Newest first: the last rows that pass the filter, and these in chronological order too.
  pub list_events-newest :
      (after : ℕ) (run_id : Option Uuid) (limit : ℕ)
      → let matching = select (event_filter after run_id) db.events in
        list_events pg db after run_id limit true ≡ drop (length matching - limit) matching
  unfolding list_events
  list_events-newest after run_id limit =
      let matching = select (event_filter after run_id) db.events in
      let listed : pg.order_by (desc (λ (e : RunEventRow). e.id)) matching ≡ reverse matching =
        Ordering-reversed (desc (λ (e : RunEventRow). e.id))
          (pg.order_by-Ordering (desc (λ e. e.id)) (desc-IsTotal (λ e. e.id))
            (desc-IsTransitive (λ e. e.id)) _)
          (select-Strict (event_filter after run_id) db.events ordered) in
      ap (λ l. reverse (take limit l)) listed
      ∙ reverse-take limit (reverse matching)
      ∙ ap₂ (λ n l. drop (n - limit) l) (length-reverse matching) (reverse-reverse matching)
