-- ===== src/Sql/Order.antt =====
-- The orders of ORDER BY clauses, and what it means that a query lists its rows in such an order.
use mathlib.Core.List.{reverse, reverse-append}
use z_apply_backend.Base.{
  ℕ, ◌≡◌, refl, sym, ap, ◌∙◌, subst, ◌⊎◌, inl, Bool, true, false, ◌&&◌, ◌||◌, List, [], ◌∷◌, ◌++◌,
  arith, ltb, leb, All, length, length-append, All-append, All-append_left, All-append_right,
  append_nil,
}

module _ {A : Type 0} (le : A → A → Bool) where
  abbrev pub IsTotal : Type 0
  IsTotal = (a b : A) → (le a b ≡ true) ⊎ (le b a ≡ true)

  abbrev pub IsTransitive : Type 0
  IsTransitive = (a b c : A) → le a b ≡ true → le b c ≡ true → le a c ≡ true

  -- The second list holds the rows of the first, each before all that are left when it is taken.
  pub data Ordering : List A → List A → Type 0 where
    done : Ordering [] []
    pick :
        (before : List A) (a : A) (after : List A) {rows rest : List A}
        → rows ≡ before ++ a ∷ after
        → All (λ b. le a b ≡ true) (before ++ after)
        → Ordering (before ++ after) rest
        → Ordering rows (a ∷ rest)

  -- Each row may stand before all that follow it.
  abbrev pub Sorted : List A → Type 0
  Sorted [] = Unit
  Sorted (a ∷ rows) = All (λ b. le a b ≡ true) rows × Sorted rows

  -- No row may stand before one that precedes it.
  abbrev pub Strict : List A → Type 0
  Strict [] = Unit
  Strict (a ∷ rows) = All (λ b. le b a ≡ false) rows × Strict rows

  -- Every row must stand after all that follow it.
  abbrev pub Descends : List A → Type 0
  Descends [] = Unit
  Descends (a ∷ rows) = All (λ b. le a b ≡ false) rows × Descends rows

  Descends-init : (rows : List A) (a : A) → Descends (rows ++ a ∷ []) → Descends rows
  Descends-init [] a h = tt
  Descends-init (b ∷ rows) a h =
      (All-append_left (λ c. le b c ≡ false) rows (a ∷ []) h.0, Descends-init rows a h.1)

  Descends-right : (front rows : List A) → Descends (front ++ rows) → Descends rows
  Descends-right [] rows h = h
  Descends-right (b ∷ front) rows h = Descends-right front rows h.1

  pub Ordering-All {κ} :
      (P : A → Type κ) {rows out : List A} → Ordering rows out → All P rows → All P out
  Ordering-All P done h = tt
  Ordering-All P (pick before a after e least o) h = (
    (All-append_right P before (a ∷ after) here).0,
    Ordering-All P o (
        All-append P before after (All-append_left P before (a ∷ after) here)
          (All-append_right P before (a ∷ after) here).1),
  )
    where
      here : All P (before ++ a ∷ after)
      here = rw (← e) h

  pub Ordering-length : {rows out : List A} → Ordering rows out → length out ≡ length rows
  Ordering-length done = refl
  Ordering-length (pick before a after e least o) = omega (
    arith,
    Ordering-length o,
    length-append before after,
    ap length e ∙ length-append before (a ∷ after),
  )

  pub Ordering-Sorted : {rows out : List A} → Ordering rows out → Sorted out
  Ordering-Sorted done = tt
  Ordering-Sorted (pick before a after e least o) = (Ordering-All _ o least, Ordering-Sorted o)

  -- Rows that stand strictly in order already are listed as they stand.
  pub Ordering-Strict : {rows out : List A} → Ordering rows out → Strict rows → out ≡ rows
  Ordering-Strict done h = refl
  Ordering-Strict {rows} (pick [] a after e least o) h =
      ap (◌∷◌ a) (Ordering-Strict o (subst Strict e h).1) ∙ sym e
  Ordering-Strict {rows} (pick (b ∷ before) a after e least o) h =
      let after_b =
        All-append_right (λ c. le c b ≡ false) before (a ∷ after) (subst Strict e h).0 in
      cc (after_b.0, least.0)

  -- Rows that stand strictly in the opposite order are listed from the end.
  pub Ordering-reversed :
      {rows out : List A} → Ordering rows out → Descends rows → out ≡ reverse rows
  Ordering-reversed done h = refl
  Ordering-reversed (pick before a [] e least o) h =
      let kept = subst Descends e h in
      ap (◌∷◌ a) (
        Ordering-reversed o (rw (append_nil before) (Descends-init before a kept))
        ∙ ap reverse (append_nil before))
      ∙ sym (ap reverse e ∙ reverse-append before (a ∷ []))
  Ordering-reversed (pick before a (c ∷ after) e least o) h =
      let kept = Descends-right before (a ∷ c ∷ after) (subst Descends e h) in
      cc ((All-append_right (λ b. le a b ≡ true) before (c ∷ after) least).0, kept.0.0)

-- ORDER BY key, ORDER BY key DESC, and ORDER BY first, second.
module _ {A : Type 0} where
  abbrev pub asc : (A → ℕ) → A → A → Bool
  asc key a b = leb (key a) (key b)

  abbrev pub desc : (A → ℕ) → A → A → Bool
  desc key a b = leb (key b) (key a)

  abbrev pub asc_then : (A → ℕ) → (A → ℕ) → A → A → Bool
  asc_then first second a b =
      ltb (first a) (first b) || (leb (first a) (first b) && leb (second a) (second b))

  abbrev pub unordered : A → A → Bool
  unordered a b = true

  pub asc-IsTotal : (key : A → ℕ) → IsTotal (asc key)
  asc-IsTotal key a b = ground arith

  pub asc-IsTransitive : (key : A → ℕ) → IsTransitive (asc key)
  asc-IsTransitive key a b c = ground arith

  pub desc-IsTotal : (key : A → ℕ) → IsTotal (desc key)
  desc-IsTotal key a b = ground arith

  pub desc-IsTransitive : (key : A → ℕ) → IsTransitive (desc key)
  desc-IsTransitive key a b c = ground arith

  pub asc_then-IsTotal : (first second : A → ℕ) → IsTotal (asc_then first second)
  asc_then-IsTotal first second a b = ground arith

  pub asc_then-IsTransitive : (first second : A → ℕ) → IsTransitive (asc_then first second)
  asc_then-IsTransitive first second a b c = ground arith

  pub unordered-IsTotal : IsTotal {A = A} unordered
  unordered-IsTotal a b = inl refl

  pub unordered-IsTransitive : IsTransitive {A = A} unordered
  unordered-IsTransitive a b c p q = refl
