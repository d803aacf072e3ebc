-- ===== src/Stream/Covers.antt =====
-- How the queue of a subscriber and the events still to be published account for the committed
-- events: read in this order, they are the ids that are ahead, up to a disconnect marker.
use z_apply_backend.Base.{
  ℕ, ◌≡◌, refl, ap, Option, none, some, List, [], ◌∷◌, ◌++◌, map, Bool-cases, inl, inr,
}
use z_apply_backend.Hub.{StoredEvent, AsyncQueue, full}
use z_apply_backend.Hub.Laws.{offered}

abbrev pub keys : List StoredEvent → List ℕ
keys = map λ e. e.id

abbrev pub Covers : List ℕ → List (Option StoredEvent) → List ℕ → Type 0
Covers pending [] ahead = ahead ≡ pending
Covers pending (none ∷ items) ahead = Unit
Covers pending (some event ∷ items) ahead =
    (rest : List ℕ) × (ahead ≡ event.id ∷ rest) × Covers pending items rest

-- A commit adds an id at the end of both.
pub Covers-commit :
    (n : ℕ) (pending : List ℕ) (items : List (Option StoredEvent)) (ahead : List ℕ)
    → Covers pending items ahead
    → Covers (pending ++ n ∷ []) items (ahead ++ n ∷ [])
Covers-commit n pending [] ahead c = ap (λ l. l ++ n ∷ []) c
Covers-commit n pending (none ∷ items) ahead c = tt
Covers-commit n pending (some event ∷ items) ahead c =
    (c.0 ++ n ∷ [], ap (λ l. l ++ n ∷ []) c.1, Covers-commit n pending items c.0 c.2)

Covers-append :
    (event : StoredEvent) (pending : List ℕ) (items : List (Option StoredEvent)) (ahead : List ℕ)
    → Covers (event.id ∷ pending) items ahead
    → Covers pending (items ++ some event ∷ []) ahead
Covers-append event pending [] ahead c = (pending, c, refl)
Covers-append event pending (none ∷ items) ahead c = tt
Covers-append event pending (some e ∷ items) ahead c =
    (c.0, c.1, Covers-append event pending items c.0 c.2)

-- Publishing moves the oldest pending event into the queue, or leaves the marker there.
pub Covers-publish :
    (event : StoredEvent) (pending : List ℕ) (q : AsyncQueue) (ahead : List ℕ)
    → Covers (event.id ∷ pending) q.items ahead
    → Covers pending (offered q event).items ahead
unfolding offered
Covers-publish event pending q ahead c = elim (Bool-cases (full q)) [
  | inl f ↦ rw f tt
  | inr f ↦ rw f (Covers-append event pending q.items ahead c)
]
