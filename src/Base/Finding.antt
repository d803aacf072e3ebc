-- ===== src/Base/Finding.antt =====
-- The first item of a list with a property, after an item was added or items were changed.
use mathlib.Core.Path.{◌≡◌, refl}
use mathlib.Core.Bool.{Bool, true, false}
use mathlib.Core.List.{List, [], ◌∷◌, ◌++◌}
use mathlib.Core.Option.{none, some}
use native.Mathlib.Omega.{arith}
use z_apply_backend.Base.Lists.{any, find?, update_where}

module _ {A : Type 0} (p : A → Bool) where
  pub any-none : (rows : List A) → find? p rows ≡ none → any p rows ≡ false
  any-none [] e = refl
  any-none (a ∷ rows) e = ground (arith, any-none rows)

  pub any-some : (rows : List A) (a : A) → find? p rows ≡ some a → any p rows ≡ true
  any-some [] a e = cc
  any-some (x ∷ rows) a e = ground (arith, any-some rows a)

  pub found_passes : (rows : List A) (a : A) → find? p rows ≡ some a → p a ≡ true
  found_passes [] a e = cc
  found_passes (x ∷ rows) a e = ground (arith, found_passes rows a)

  pub find?-snoc :
      (rows : List A) (a : A) → find? p rows ≡ none → p a ≡ true → find? p (rows ++ a ∷ []) ≡ some a
  find?-snoc [] a e h = rw h
  find?-snoc (x ∷ rows) a e h = ground (arith, find?-snoc rows a)

  pub find?-snoc_other :
      (rows : List A) (a : A) → p a ≡ false → find? p (rows ++ a ∷ []) ≡ find? p rows
  find?-snoc_other [] a h = rw h
  find?-snoc_other (x ∷ rows) a h = ground (arith, find?-snoc_other rows a h)

  pub find?-update_where :
      (f : A → A) (rows : List A) (a : A)
      → ((r : A) → p (f r) ≡ p r)
      → find? p rows ≡ some a
      → find? p (update_where p f rows) ≡ some (f a)
  find?-update_where f [] a same e = cc
  find?-update_where f (x ∷ rows) a same e = ground (arith, same x, find?-update_where f rows a)

  -- A change of items that have another property, and do not get this one.
  pub find?-update_other :
      (q : A → Bool) (f : A → A) (rows : List A)
      → ((r : A) → q r ≡ true → p r ≡ false)
      → ((r : A) → q r ≡ true → p (f r) ≡ false)
      → find? p (update_where q f rows) ≡ find? p rows
  find?-update_other q f [] before after = refl
  find?-update_other q f (x ∷ rows) before after =
      ground (arith, before x, after x, find?-update_other q f rows before after)
