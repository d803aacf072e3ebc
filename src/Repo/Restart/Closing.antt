-- ===== src/Repo/Restart/Closing.antt =====
-- How a run is changed by rounds of the loop of `interrupt_active_runs`, one run at a time.
use z_apply_backend.Base.{
  ℕ, ◌≡◌, refl, ap, ◌∙◌, Bool, true, false, List, [], ◌∷◌, arith, ◌==◌, update_where, All,
  Bool-cases, inl, inr,
}
use z_apply_backend.Models.{Uuid, Datetime, RunRow}
use z_apply_backend.Repo.Events.{has_run}
use z_apply_backend.Repo.Interrupt.{interrupted}

-- The rows of the table `runs` after one round.
abbrev pub closed_runs : Datetime → ℕ → Uuid → List RunRow → List RunRow
closed_runs t sequence id rows =
    update_where (λ r. r.id == id) (λ r. record (interrupted t sequence r) { updated_at = t }) rows

-- Two lists of the same length, related entry by entry.
abbrev pub Each : (RunRow → RunRow → Type 0) → List RunRow → List RunRow → Type 0
Each R [] [] = Unit
Each R [] (s ∷ ss) = ⊥
Each R (r ∷ rs) [] = ⊥
Each R (r ∷ rs) (s ∷ ss) = R r s × Each R rs ss

pub Each-trans :
    (P Q R : RunRow → RunRow → Type 0)
    → ((a b c : RunRow) → P a b → Q b c → R a c)
    → (xs ys zs : List RunRow) → Each P xs ys
    → Each Q ys zs
    → Each R xs zs
Each-trans P Q R f [] [] [] p q = tt
Each-trans P Q R f (x ∷ xs) (y ∷ ys) (z ∷ zs) p q =
    (f x y z p.0 q.0, Each-trans P Q R f xs ys zs p.1 q.1)
Each-trans P Q R f [] [] (z ∷ zs) p q = absurd q
Each-trans P Q R f [] (y ∷ ys) zs p q = absurd p
Each-trans P Q R f (x ∷ xs) [] zs p q = absurd p
Each-trans P Q R f (x ∷ xs) (y ∷ ys) [] p q = absurd q

-- A run as it stands after the loop: closed at some sequence number, or as it was.
abbrev pub Closed : Datetime → Bool → RunRow → RunRow → Type 0
Closed t listed old new =
    (listed ≡ false → new ≡ old)
    × (listed ≡ true → (n : ℕ) × (new ≡ record (interrupted t n old) { updated_at = t }))

abbrev pub ClosedIn : Datetime → List RunRow → RunRow → RunRow → Type 0
ClosedIn t rows old new = Closed t (has_run old.id rows) old new

pub closed_runs-Each :
    (t : Datetime) (n : ℕ) (row : RunRow) (runs : List RunRow)
    → Each (ClosedIn t (row ∷ [])) runs (closed_runs t n row.id runs)
unfolding has_run
closed_runs-Each t n row [] = tt
closed_runs-Each t n row (r ∷ runs) = elim (Bool-cases (r.id == row.id)) [
  | inl hit ↦ rw hit ((λ u. absurd (ground arith), λ _. (n, refl)), closed_runs-Each t n row runs)
  | inr miss ↦ rw miss ((λ _. refl, λ l. absurd (ground arith)), closed_runs-Each t n row runs)
]

abbrev pub closed : Datetime → ℕ → RunRow → RunRow
closed t n r = record (interrupted t n r) { updated_at = t }

closed_twice : (t : Datetime) (m n : ℕ) (r : RunRow) → closed t n (closed t m r) ≡ closed t n r
unfolding interrupted
closed_twice t m n r = refl

closed_once :
    (t : Datetime) (m : ℕ) (rows : List RunRow) (a b c : RunRow)
    → b ≡ closed t m a
    → ClosedIn t rows b c
    → (n : ℕ) × (c ≡ closed t n a)
closed_once t m rows a b c e q = elim (Bool-cases (has_run b.id rows)) [
  | inr miss ↦ (m, q.0 miss ∙ e)
  | inl hit ↦ let (n, f) = q.1 hit in (n, f ∙ ap (closed t n) e ∙ closed_twice t m n a)
]

pub ClosedIn-trans :
    (t : Datetime) (row : RunRow) (rows : List RunRow) (a b c : RunRow)
    → ClosedIn t (row ∷ []) a b
    → ClosedIn t rows b c
    → ClosedIn t (row ∷ rows) a c
unfolding has_run
ClosedIn-trans t row rows a b c p q = elim (Bool-cases (row.id == a.id)) [
  | inl hit ↦
      (λ u. absurd (ground arith), λ _. let (m, e) = p.1 (rw hit) in closed_once t m rows a b c e q)
  | inr miss ↦
      let e : b ≡ a = p.0 (rw miss) in
      let same : has_run b.id rows ≡ has_run a.id rows = ap (λ (r : RunRow). has_run r.id rows) e in
      (
        λ u. q.0 (same ∙ (rw miss at u)) ∙ e,
        λ l. let (n, f) = q.1 (same ∙ (rw miss at l)) in (n, f ∙ ap (closed t n) e),
      )
]

pub Each-same : (t : Datetime) (runs : List RunRow) → Each (ClosedIn t []) runs runs
unfolding has_run
Each-same t [] = tt
Each-same t (r ∷ runs) = ((λ _. refl, λ l. cc), Each-same t runs)

pub Each-map :
    (P Q : RunRow → RunRow → Type 0) (C : RunRow → Type 0)
    → ((a b : RunRow) → C a → P a b → Q a b)
    → (xs ys : List RunRow) → All C xs
    → Each P xs ys
    → Each Q xs ys
Each-map P Q C f [] [] c p = tt
Each-map P Q C f (x ∷ xs) (y ∷ ys) c p = (f x y c.0 p.0, Each-map P Q C f xs ys c.1 p.1)
Each-map P Q C f [] (y ∷ ys) c p = absurd p
Each-map P Q C f (x ∷ xs) [] c p = absurd p
