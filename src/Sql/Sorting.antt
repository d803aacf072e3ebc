-- ===== src/Sql/Sorting.antt =====
-- An implementation of the parameters of Sql.antt, by insertion: it shows that their laws can hold.
use native.Mathlib.Nat.{le_refl}
use z_apply_backend.Base.Int.{ℤ}
use z_apply_backend.Json.{Value, null, int, float}
use z_apply_backend.Base.{
  ℕ, Option, none, some, suc, ◌≡◌, refl, ap, ◌⊎◌, inl, inr, Bool, true, false, List, [], ◌∷◌, ◌++◌,
  All, All-map, All-append, All-append_left, All-append_right, Bool-cases, if◌then◌else◌,
}
use z_apply_backend.Sql.Order.{IsTotal, IsTransitive, Ordering, done, pick}
use z_apply_backend.Sql.{Postgres}

module _ {A : Type 0} (le : A → A → Bool) where
  unfoldable pub insert : A → List A → List A
  insert a [] = a ∷ []
  insert a (b ∷ rows) = if le a b then a ∷ b ∷ rows else b ∷ insert a rows

  unfoldable pub sort : List A → List A
  unfolding insert
  sort [] = []
  sort (a ∷ rows) = insert a (sort rows)

  insert-Ordering :
      IsTotal le
      → IsTransitive le
      → (a : A) {rows out : List A} → Ordering le rows out
      → Ordering le (a ∷ rows) (insert a out)
  unfolding insert
  insert-Ordering total trans a done = pick [] a [] refl tt done
  insert-Ordering total trans a {rows} (pick before b after {rest = rest} e least o) =
      elim (Bool-cases (le a b)) [
        | inl first ↦
            rw first (pick [] a rows refl (rw e (below first)) (pick before b after e least o))
        | inr later ↦ rw later (
            pick (a ∷ before) b after (ap (◌∷◌ a) e) (other (total a b) later, least)
              (insert-Ordering total trans a o))
      ]
    where
      below : le a b ≡ true → All (λ c. le a c ≡ true) (before ++ b ∷ after)
      below first =
          let rest =
            All-map (λ c. le b c ≡ true) (λ c. le a c ≡ true) (λ c. trans a b c first)
              (before ++ after) least in
          All-append _ before (b ∷ after) (All-append_left _ before after rest)
            (first, All-append_right _ before after rest)

      other : (le a b ≡ true) ⊎ (le b a ≡ true) → le a b ≡ false → le b a ≡ true
      other (inl p) q = cc
      other (inr p) q = p

  pub sort-Ordering : IsTotal le → IsTransitive le → (rows : List A) → Ordering le rows (sort rows)
  unfolding sort
  sort-Ordering total trans [] = done
  sort-Ordering total trans (a ∷ rows) =
      insert-Ordering total trans a (sort-Ordering total trans rows)

abbrev pub int_value : Value → Option (Option ℤ)
int_value null = some none
int_value (int n) = some (some n)
int_value _ = none

abbrev pub float_value : Value → Option (Option ℕ)
float_value null = some none
float_value (float bits) = some (some bits)
float_value _ = none

-- Sorting by insertion, and sequences with no gaps.
abbrev pub in_memory : Postgres
in_memory = record {
  order_by = λ {A} le rows. sort le rows;
  order_by-Ordering = λ {A} le total trans rows. sort-Ordering le total trans rows;
  nextval = suc;
  nextval_grows = λ last. le_refl (suc last);
  int_column = int_value;
  int_column-null = refl;
  int_column-int = λ n. refl;
  float_column = float_value;
  float_column-null = refl;
  float_column-float = λ bits. refl;
}
