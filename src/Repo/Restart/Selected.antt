-- ===== src/Repo/Restart/Selected.antt =====
-- Which runs the query of `interrupt_active_runs` selects.
use z_apply_backend.Base.{
  suc, ◌≡◌, refl, ap, true, false, List, [], ◌∷◌, ◌++◌, arith, ◌==◌, map, length, select, All,
  All-map, ◌||◌,
}
use z_apply_backend.Models.{Uuid, RunRow, RunEventRow}
use z_apply_backend.Repo.Events.{has_run}
use z_apply_backend.Repo.Interrupt.{is_active}
use z_apply_backend.Repo.Valid.{UniqueKeys}
use z_apply_backend.Sql.Order.{Ordering, done, pick, unordered}

pub length_of_map :
    (events : List RunEventRow) (rows : List RunRow)
    → map (λ e. e.run_id) events ≡ map (λ r. r.id) rows
    → length events ≡ length rows
length_of_map [] [] e = refl
length_of_map [] (r ∷ rows) e = cc
length_of_map (x ∷ events) [] e = cc
length_of_map (x ∷ events) (r ∷ rows) e = ap suc (length_of_map events rows (ground arith))

has_run-append :
    (id : Uuid) (xs ys : List RunRow) → has_run id (xs ++ ys) ≡ (has_run id xs || has_run id ys)
unfolding has_run
has_run-append id [] ys = refl
has_run-append id (x ∷ xs) ys = ground (arith, has_run-append id xs ys)

-- ORDER BY keeps the rows.
pub has_run-Ordering :
    (id : Uuid) {rows out : List RunRow}
    → Ordering unordered rows out
    → has_run id out ≡ has_run id rows
unfolding has_run
has_run-Ordering id done = refl
has_run-Ordering id (pick before a after e least o) = ground (
  arith,
  has_run-Ordering id o,
  has_run-append id before after,
  has_run-append id before (a ∷ after),
  ap (has_run id) e,
)

-- A run is among the rows that the query selects exactly when it is active.
has_run-select-false :
    (id : Uuid) (runs : List RunRow)
    → has_run id runs ≡ false
    → has_run id (select is_active runs) ≡ false
unfolding has_run
has_run-select-false id [] h = refl
has_run-select-false id (r ∷ runs) h = ground (arith, has_run-select-false id runs)

apart :
    (r : RunRow) (runs : List RunRow)
    → has_run r.id runs ≡ false
    → All (λ s. (r.id == s.id) ≡ false) runs
unfolding has_run
apart r [] h = tt
apart r (s ∷ runs) h = (ground arith, apart r runs (ground arith))

-- In the list with one more row in front.
selected_cons :
    (r : RunRow) (runs : List RunRow) (s : RunRow)
    → (r.id == s.id) ≡ false
    → has_run s.id (select is_active runs) ≡ is_active s
    → has_run s.id (select is_active (r ∷ runs)) ≡ is_active s
unfolding has_run
selected_cons r runs s h e = ground arith

selected_head :
    (r : RunRow) (runs : List RunRow)
    → has_run r.id runs ≡ false
    → has_run r.id (select is_active (r ∷ runs)) ≡ is_active r
unfolding has_run
selected_head r runs h = ground (arith, has_run-select-false r.id runs h)

All-zip {κ μ ν} :
    (P : RunRow → Type κ) (Q : RunRow → Type μ) (R : RunRow → Type ν)
    → ((r : RunRow) → P r → Q r → R r)
    → (rows : List RunRow) → All P rows
    → All Q rows
    → All R rows
All-zip P Q R f [] p q = tt
All-zip P Q R f (r ∷ rows) p q = (f r p.0 q.0, All-zip P Q R f rows p.1 q.1)

pub selected :
    (runs : List RunRow)
    → UniqueKeys runs
    → All (λ r. has_run r.id (select is_active runs) ≡ is_active r) runs
selected [] u = tt
selected (r ∷ runs) u = (
  selected_head r runs u.0,
  All-zip _ _ _ (selected_cons r runs) runs (apart r runs u.0) (selected runs u.1),
)

pub self_known : (runs : List RunRow) → All (λ r. has_run r.id runs ≡ true) runs
unfolding has_run
self_known [] = tt
self_known (r ∷ runs) = (
  ground arith,
  All-map (λ s. has_run s.id runs ≡ true) _ (λ s h. ground arith) runs (self_known runs),
)
