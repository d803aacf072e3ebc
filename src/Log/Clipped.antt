-- ===== src/Log/Clipped.antt =====
-- A clipped text is short and stays in one line.
use z_apply_backend.Base.{
  ℕ, zero, suc, ◌+◌, ◌-◌, ◌≤◌, ◌<◌, ◌≡◌, refl, Bool, true, not, ◌&&◌, List, [], ◌∷◌, ◌++◌, ◌==◌,
  arith, length, length-take-le, take,
}
use z_apply_backend.Log.Text.{lstrip, rstrip, strip, spaced, shortened, clip, spaces, padded}

-- No line ends in it.
abbrev pub plain : List ℕ → Bool
plain [] = true
plain (c ∷ text) = not (c == 10) && plain text

pub plain-append : (xs ys : List ℕ) → plain xs ≡ true → plain ys ≡ true → plain (xs ++ ys) ≡ true
plain-append [] ys h k = k
plain-append (c ∷ xs) ys h k = ground (arith, plain-append xs ys)

plain-take : (n : ℕ) (xs : List ℕ) → plain xs ≡ true → plain (take n xs) ≡ true
plain-take zero xs h = refl
plain-take (suc n) [] h = refl
plain-take (suc n) (c ∷ xs) h = ground (arith, plain-take n xs)

plain-spaced : (xs : List ℕ) → plain (spaced xs) ≡ true
unfolding spaced
plain-spaced [] = refl
plain-spaced (c ∷ xs) = ground (arith, plain-spaced xs)

plain-lstrip : (xs : List ℕ) → plain xs ≡ true → plain (lstrip xs) ≡ true
unfolding lstrip
plain-lstrip [] h = refl
plain-lstrip (c ∷ xs) h = ground (arith, plain-lstrip xs)

plain-rstrip : (xs : List ℕ) → plain xs ≡ true → plain (rstrip xs) ≡ true
unfolding rstrip
plain-rstrip [] h = refl
plain-rstrip (c ∷ xs) h = ground (arith, plain-rstrip xs)

plain-spaces : (n : ℕ) → plain (spaces n) ≡ true
plain-spaces zero = refl
plain-spaces (suc n) = plain-spaces n

pub plain-padded : (n : ℕ) (xs : List ℕ) → plain xs ≡ true → plain (padded n xs) ≡ true
unfolding padded
plain-padded n xs h = plain-append xs (spaces (n - length xs)) h (plain-spaces (n - length xs))

plain-shortened : (xs : List ℕ) (limit : ℕ) → plain xs ≡ true → plain (shortened xs limit) ≡ true
unfolding shortened
plain-shortened xs limit h =
    ground
      (arith, h, plain-append (take (limit - 1) xs) (8230 ∷ []) (plain-take (limit - 1) xs h) refl)

length-append_one : (xs : List ℕ) (c : ℕ) → length (xs ++ c ∷ []) ≡ length xs + 1
length-append_one [] c = refl
length-append_one (x ∷ xs) c = omega (arith, length-append_one xs c)

pub plain-clip : (xs : List ℕ) (limit : ℕ) → plain (clip xs limit) ≡ true
unfolding clip strip
plain-clip xs limit =
    plain-shortened (strip (spaced xs)) limit
      (plain-rstrip (lstrip (spaced xs)) (plain-lstrip (spaced xs) (plain-spaced xs)))

-- A text that is clipped to a positive number of characters has no more.
pub length-clip : (xs : List ℕ) (limit : ℕ) → 0 < limit → length (clip xs limit) ≤ limit
unfolding clip shortened
length-clip xs limit h = ground (
  arith,
  length-append_one (take (limit - 1) (strip (spaced xs))) 8230,
  length-take-le (limit - 1) (strip (spaced xs)),
)
