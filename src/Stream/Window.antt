-- ===== src/Stream/Window.antt =====
-- Event ids in the order of their commits, and the part of them that lies between two cursors.
use mathlib.Core.Path.{ap₂}
use z_apply_backend.Base.{
  ℕ, zero, suc, ◌≤◌, ◌<◌, ◌≡◌, refl, sym, ap, subst, ◌∙◌, Bool, List, [], ◌∷◌, ◌++◌, ◌&&◌, arith,
  ltb, leb, length, take, select, select-append, All, All-map, append_nil, lt→ltb, le→leb,
  ltb-false, dec_lt,
}

abbrev pub Ascends : List ℕ → Type 0
Ascends [] = Unit
Ascends (n ∷ ns) = All (λ m. n < m) ns × Ascends ns

-- The ids above `start`, up to `cursor`.
abbrev pub window : ℕ → ℕ → List ℕ → List ℕ
window start cursor = select (λ n. ltb start n && leb n cursor)

abbrev pub above : ℕ → List ℕ → List ℕ
above cursor = select (λ n. ltb cursor n)

abbrev pub last_or : ℕ → List ℕ → ℕ
last_or c [] = c
last_or c (n ∷ ns) = last_or n ns

window-none : (s c : ℕ) (ns : List ℕ) → All (λ m. c < m) ns → window s c ns ≡ []
window-none s c [] h = refl
window-none s c (n ∷ ns) h = ground (arith, window-none s c ns h.1)

module _ (s c n : ℕ) (ns : List ℕ) where
  pub window_in : s < n → n ≤ c → window s c (n ∷ ns) ≡ n ∷ window s c ns
  window_in h k = rw (lt→ltb s n h, le→leb n c k)

  pub window_over : c < n → window s c (n ∷ ns) ≡ window s c ns
  window_over h = ground arith

  pub window_under : n ≤ s → window s c (n ∷ ns) ≡ window s c ns
  window_under h = rw (ltb-false s n h)

  above_in : c < n → above c (n ∷ ns) ≡ n ∷ above c ns
  above_in h = rw (lt→ltb c n h)

  pub above_under : n ≤ c → above c (n ∷ ns) ≡ above c ns
  above_under h = rw (ltb-false c n h)

pub above_whole : (c : ℕ) (ns : List ℕ) → All (λ m. c < m) ns → above c ns ≡ ns
above_whole c [] h = refl
above_whole c (n ∷ ns) h = above_in 0 c n ns h.0 ∙ ap (◌∷◌ n) (above_whole c ns h.1)

above-All : (c : ℕ) (ns : List ℕ) → All (λ m. c < m) (above c ns)
above-All c [] = tt
above-All c (n ∷ ns) = ground (arith, above-All c ns)

pub select-All : (P : ℕ → Type 0) (p : ℕ → Bool) (ns : List ℕ) → All P ns → All P (select p ns)
select-All P p [] h = tt
select-All P p (n ∷ ns) h = ground (arith, select-All P p ns h.1)

select-Ascends : (p : ℕ → Bool) (ns : List ℕ) → Ascends ns → Ascends (select p ns)
select-Ascends p [] a = tt
select-Ascends p (n ∷ ns) a =
    ground (arith, select-Ascends p ns a.1, select-All (λ m. n < m) p ns a.0)

pub All-lt_trans : (a b : ℕ) (ns : List ℕ) → a ≤ b → All (λ m. b < m) ns → All (λ m. a < m) ns
All-lt_trans a b ns h = All-map _ _ (λ m k. omega arith) ns

pub last_or-take_le :
    (k n : ℕ) (ns : List ℕ) → All (λ m. n < m) ns → Ascends ns → n ≤ last_or n (take k ns)
last_or-take_le zero n ns h a = omega arith
last_or-take_le (suc k) n [] h a = omega arith
last_or-take_le (suc k) n (m ∷ ns) h a = omega (arith, last_or-take_le k m ns a.0 a.1)

pub last_or-above_le : (c k : ℕ) (ns : List ℕ) → Ascends ns → c ≤ last_or c (take k (above c ns))
last_or-above_le c k ns a =
    last_or-take_le k c (above c ns) (above-All c ns) (select-Ascends (λ n. ltb c n) ns a)

-- A page taken from the front lies below its last id, and what follows it lies above.
window-rest :
    (s k n : ℕ) (ns : List ℕ)
    → s < n
    → All (λ m. n < m) ns
    → Ascends ns
    → window s (last_or n (take k ns)) ns ≡ take k ns
window-rest s zero n ns h b a = window-none s n ns b
window-rest s (suc k) n [] h b a = refl
window-rest s (suc k) n (m ∷ ns) h b a =
    window_in s (last_or m (take k ns)) m ns (omega arith) (last_or-take_le k m ns a.0 a.1)
    ∙ ap (◌∷◌ m) (window-rest s k m ns (omega arith) a.0 a.1)

window-page_front :
    (s c k n : ℕ) (ns : List ℕ)
    → s ≤ c
    → c < n
    → Ascends (n ∷ ns)
    → window s (last_or c (take k (n ∷ ns))) (n ∷ ns) ≡ window s c (n ∷ ns) ++ take k (n ∷ ns)
window-page_front s c zero n ns h b a = sym (append_nil _)
window-page_front s c (suc k) n ns h b a =
    window_in s (last_or n (take k ns)) n ns (omega arith) (last_or-take_le k n ns a.0 a.1)
    ∙ ap (◌∷◌ n) (window-rest s k n ns (omega arith) a.0 a.1)
    ∙ ap (λ l. l ++ n ∷ take k ns)
        (sym (window-none s c (n ∷ ns) (b, All-lt_trans c n ns (omega arith) a.0)))

-- Replaying one page, the first `k` ids above the cursor, moves the cursor to its last id: what was
-- sent and the page are the window up to there.
pub window-page :
    (s c k : ℕ) (ns : List ℕ)
    → s ≤ c
    → Ascends ns
    → window s (last_or c (take k (above c ns))) ns ≡ window s c ns ++ take k (above c ns)
window-page s c zero [] h a = refl
window-page s c (suc k) [] h a = refl
window-page s c k (n ∷ ns) h a = elim (dec_lt c n) [
  | yes b ↦
      subst fits (sym (above_whole c (n ∷ ns) (b, All-lt_trans c n ns (omega arith) a.0)))
        (window-page_front s c k n ns h b a)
  | no b ↦
      subst fits (sym (above_under 0 c n ns (omega arith)))
        (below (window-page s c k ns h a.1) (omega arith))
]
  where
    fits : List ℕ → Type 0
    fits l = window s (last_or c (take k l)) (n ∷ ns) ≡ window s c (n ∷ ns) ++ take k l

    page : List ℕ
    page = take k (above c ns)

    below :
        window s (last_or c page) ns ≡ window s c ns ++ page
        → n ≤ c
        → window s (last_or c page) (n ∷ ns) ≡ window s c (n ∷ ns) ++ page
    below ih b = elim (dec_lt s n) [
      | yes i ↦
          window_in s (last_or c page) n ns i (omega (arith, last_or-above_le c k ns a.1))
          ∙ ap (◌∷◌ n) ih
          ∙ ap (λ l. l ++ page) (sym (window_in s c n ns i b))
      | no o ↦
          window_under s (last_or c page) n ns (omega arith)
          ∙ ih
          ∙ ap (λ l. l ++ page) (sym (window_under s c n ns (omega arith)))
    ]

short_take :
    (k n : ℕ) (ns : List ℕ)
    → length (take k ns) < k
    → Ascends ns
    → All (λ m. m ≤ last_or n (take k ns)) ns
short_take zero n ns h a = absurd (omega arith)
short_take (suc k) n [] h a = tt
short_take (suc k) n (m ∷ ns) h a =
    (last_or-take_le k m ns a.0 a.1, short_take k m ns (omega arith) a.1)

-- A short page leaves no id above the cursor.
pub short_page :
    (c k : ℕ) (ns : List ℕ)
    → length (take k (above c ns)) < k
    → Ascends ns
    → All (λ n. n ≤ last_or c (take k (above c ns))) ns
short_page c k [] h a = tt
short_page c k (n ∷ ns) h a = elim (dec_lt c n) [
  | yes b ↦
      let all : above c (n ∷ ns) ≡ n ∷ ns =
        above_whole c (n ∷ ns) (b, All-lt_trans c n ns (omega arith) a.0) in
      subst lies_below (sym all)
        (short_take k c (n ∷ ns) (omega (arith, ap (λ l. length (take k l)) all)) a)
  | no b ↦
      let same : above c (n ∷ ns) ≡ above c ns = above_under 0 c n ns (omega arith) in
      subst lies_below (sym same) (
        omega (arith, last_or-above_le c k ns a.1),
        short_page c k ns (omega (arith, ap (λ l. length (take k l)) same)) a.1,
      )
]
  where
    lies_below : List ℕ → Type 0
    lies_below l = All (λ m. m ≤ last_or c (take k l)) (n ∷ ns)

-- An id above all others does not move the window.
pub window-snoc : (s c n : ℕ) (ns : List ℕ) → c < n → window s c (ns ++ n ∷ []) ≡ window s c ns
window-snoc s c n ns h =
    select-append _ ns (n ∷ [])
    ∙ ap (λ l. window s c ns ++ l) (window_over s c n [] h)
    ∙ append_nil _

window-same :
    (s c d : ℕ) (ns : List ℕ) → c ≤ d → All (λ m. m ≤ c) ns → window s d ns ≡ window s c ns
window-same s c d [] h g = refl
window-same s c d (n ∷ ns) h g = ground (arith, window-same s c d ns h g.1)

pub Ascends-right : (xs ys : List ℕ) → Ascends (xs ++ ys) → Ascends ys
Ascends-right [] ys a = a
Ascends-right (x ∷ xs) ys a = Ascends-right xs ys a.1

-- Taking the first id that follows ids below the cursor.
pub window-next :
    (s c n : ℕ) (gone ns : List ℕ)
    → s ≤ c
    → c < n
    → All (λ m. m ≤ c) gone
    → Ascends (gone ++ n ∷ ns)
    → window s n (gone ++ n ∷ ns) ≡ window s c (gone ++ n ∷ ns) ++ n ∷ []
window-next s c n gone ns h b g a =
    let after = Ascends-right gone (n ∷ ns) a in
    select-append _ gone (n ∷ ns)
    ∙ ap₂ ◌++◌ (window-same s c n gone (omega arith) g)
        (window_in s n n ns (omega arith) (omega arith) ∙ ap (◌∷◌ n) (window-none s n ns after.0))
    ∙ ap (λ l. l ++ n ∷ [])
        (sym (
          select-append _ gone (n ∷ ns)
          ∙ ap (λ l. window s c gone ++ l)
              (window-none s c (n ∷ ns) (b, All-lt_trans c n ns (omega arith) after.0))
          ∙ append_nil _))
