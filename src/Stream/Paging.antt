-- ===== src/Stream/Paging.antt =====
-- Taking a page from the front of the ids above a cursor, and what is left behind it.
use z_apply_backend.Base.{
  ℕ, zero, suc, ◌-◌, ◌≤◌, ◌<◌, ◌≡◌, refl, sym, ap, subst, ◌∙◌, List, [], ◌∷◌, ◌++◌, arith, length,
  take, drop, dec_lt,
}
use z_apply_backend.Stream.Window.{
  Ascends, above, last_or, above_whole, above_under, All-lt_trans, last_or-take_le,
  last_or-above_le,
}

module _ {A : Type 0} where
  pub take-short : (k : ℕ) (xs : List A) → length xs < k → take k xs ≡ xs
  take-short zero xs h = absurd (omega arith)
  take-short (suc k) [] h = refl
  take-short (suc k) (x ∷ xs) h = ap (◌∷◌ x) (take-short k xs (omega arith))

  pub length-take_full : (k : ℕ) (xs : List A) → k ≤ length xs → length (take k xs) ≡ k
  length-take_full zero xs h = refl
  length-take_full (suc k) [] h = absurd (omega arith)
  length-take_full (suc k) (x ∷ xs) h = ap suc (length-take_full k xs (omega arith))

  pub length-drop : (k : ℕ) (xs : List A) → length (drop k xs) ≡ length xs - k
  length-drop zero xs = omega arith
  length-drop (suc k) [] = omega arith
  length-drop (suc k) (x ∷ xs) = omega (arith, length-drop k xs)

  pub take-drop : (k : ℕ) (xs : List A) → take k xs ++ drop k xs ≡ xs
  take-drop zero xs = refl
  take-drop (suc k) [] = refl
  take-drop (suc k) (x ∷ xs) = ap (◌∷◌ x) (take-drop k xs)

-- What is above the last id of a page is what follows the page.
pub above-page :
    (c k : ℕ) (ns : List ℕ)
    → Ascends ns
    → above (last_or c (take k (above c ns))) ns ≡ drop k (above c ns)
above-page c zero [] a = refl
above-page c (suc k) [] a = refl
above-page c k (n ∷ ns) a = elim (dec_lt c n) [
  | yes b ↦
      subst rest (sym (above_whole c (n ∷ ns) (b, All-lt_trans c n ns (omega arith) a.0)))
        (front k (λ j. above-page n j ns a.1) b)
  | no b ↦
      subst rest (sym (above_under 0 c n ns (omega arith)))
        (above_under 0 _ n ns (omega (arith, last_or-above_le c k ns a.1)) ∙ above-page c k ns a.1)
]
  where
    rest : List ℕ → Type 0
    rest l = above (last_or c (take k l)) (n ∷ ns) ≡ drop k l

    front :
        (k : ℕ)
        → ((j : ℕ) → above (last_or n (take j (above n ns))) ns ≡ drop j (above n ns))
        → c < n
        → above (last_or c (take k (n ∷ ns))) (n ∷ ns) ≡ drop k (n ∷ ns)
    front zero ih b = above_whole c (n ∷ ns) (b, All-lt_trans c n ns (omega arith) a.0)
    front (suc k) ih b =
        above_under 0 _ n ns (last_or-take_le k n ns a.0 a.1)
        ∙ subst (λ l. above (last_or n (take k l)) ns ≡ drop k l) (above_whole n ns a.0) (ih k)
