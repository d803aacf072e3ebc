-- ===== src/Hub/Delivery.antt =====
-- One subscriber between `register` and the end of its stream: events are offered to its queue, and
-- it takes them until it reads the disconnect marker (the live loop of api/events.py).
use z_apply_backend.Base.{
  ℕ, ◌≡◌, refl, sym, ap, ◌∙◌, Bool, true, false, Option, none, some, List, [], ◌∷◌, ◌++◌,
  append_nil, append_assoc, Bool-cases, inl, inr, if◌then◌else◌,
}
use z_apply_backend.Hub.{StoredEvent, AsyncQueue, full, get_nowait, offer}
use z_apply_backend.Hub.Laws.{offered, offer-offered}

-- `sent` lists what was published since the registration, `received` what the subscriber handled.
pub record Session : Type 0 where
  pub queue : AsyncQueue
  pub sent : List StoredEvent
  pub received : List StoredEvent
  pub ended : Bool

pub data Move : Type 0 where
  offers : StoredEvent → Move
  gets : Move

take_item : Session → Option StoredEvent → AsyncQueue → Session
take_item s none rest = record s { queue = rest; ended = true }
take_item s (some event) rest = record s { queue = rest; received = s.received ++ event ∷ [] }

pub step : Session → Move → Session
unfolding take_item
step s (offers event) = elim (offer s.queue event) [
  | none ↦ s
  | some q ↦ record s { queue = q; sent = s.sent ++ event ∷ [] }
]
step s gets =
    if s.ended
    then s
    else elim (get_nowait s.queue) [ none ↦ s | some (item, rest) ↦ take_item s item rest ]

pub run : Session → List Move → Session
run s [] = s
run s (m ∷ ms) = run (step s m) ms

abbrev pub fresh : ℕ → Session
fresh size = record {
  queue = record { maxsize = size; items = [] };
  sent = [];
  received = [];
  ended = false;
}

-- The events that stand before the first disconnect marker, and whether there is one.
abbrev before_marker : List (Option StoredEvent) → List StoredEvent
before_marker [] = []
before_marker (none ∷ items) = []
before_marker (some event ∷ items) = event ∷ before_marker items

abbrev marked : List (Option StoredEvent) → Bool
marked [] = false
marked (none ∷ items) = true
marked (some event ∷ items) = marked items

abbrev pub IsPrefix : List StoredEvent → List StoredEvent → Type 0
IsPrefix xs ys = (rest : List StoredEvent) × (xs ++ rest ≡ ys)

before_marker-append :
    (items : List (Option StoredEvent)) (event : StoredEvent)
    → marked items ≡ false
    → before_marker (items ++ some event ∷ []) ≡ before_marker items ++ event ∷ []
before_marker-append [] event h = refl
before_marker-append (none ∷ items) event h = cc
before_marker-append (some x ∷ items) event h = ap (◌∷◌ x) (before_marker-append items event h)

before_marker-append_marked :
    (items : List (Option StoredEvent)) (item : Option StoredEvent)
    → marked items ≡ true
    → before_marker (items ++ item ∷ []) ≡ before_marker items
before_marker-append_marked [] item h = cc
before_marker-append_marked (none ∷ items) item h = refl
before_marker-append_marked (some x ∷ items) item h =
    ap (◌∷◌ x) (before_marker-append_marked items item h)

marked-append :
    (items : List (Option StoredEvent)) (event : StoredEvent)
    → marked (items ++ some event ∷ []) ≡ marked items
marked-append [] event = refl
marked-append (none ∷ items) event = refl
marked-append (some x ∷ items) event = marked-append items event

-- What was received is a prefix of the events sent, and until the end so is what was received
-- with what is still to be read; that is all of them as long as no marker was put.
record Inv (s : Session) : Type 0 where
  closed : IsPrefix s.received s.sent
  ahead : s.ended ≡ false → IsPrefix (s.received ++ before_marker s.queue.items) s.sent
  whole :
      s.ended ≡ false
      → marked s.queue.items ≡ false
      → s.received ++ before_marker s.queue.items ≡ s.sent

IsPrefix-extend : (xs ys zs : List StoredEvent) → IsPrefix xs ys → IsPrefix xs (ys ++ zs)
IsPrefix-extend xs ys zs (rest, e) =
    (rest ++ zs, sym (append_assoc xs rest zs) ∙ ap (λ l. l ++ zs) e)

IsPrefix-left : (xs ys zs : List StoredEvent) → IsPrefix (xs ++ ys) zs → IsPrefix xs zs
IsPrefix-left xs ys zs (rest, e) = (ys ++ rest, sym (append_assoc xs ys rest) ∙ e)

IsPrefix-refl : (xs ys : List StoredEvent) → xs ≡ ys → IsPrefix xs ys
IsPrefix-refl xs ys e = ([], append_nil xs ∙ e)

put : Session → StoredEvent → Session
put s event = record s {
  queue = record { maxsize = s.queue.maxsize; items = s.queue.items ++ some event ∷ [] };
  sent = s.sent ++ event ∷ [];
}

put-Inv : (s : Session) (event : StoredEvent) → Inv s → Inv (put s event)
unfolding put
put-Inv s event inv = elim (Bool-cases (marked s.queue.items)) [
  | inl m ↦ record {
    closed = IsPrefix-extend _ s.sent (event ∷ []) inv.closed;
    ahead = λ o.
        rw (before_marker-append_marked s.queue.items (some event) m)
          (IsPrefix-extend _ s.sent (event ∷ []) (inv.ahead o));
    whole = λ _ w. cc (marked-append s.queue.items event);
  }
  | inr u ↦ record {
    closed = IsPrefix-extend _ s.sent (event ∷ []) inv.closed;
    ahead = λ o. IsPrefix-refl _ _ (all u o);
    whole = λ o _. all u o;
  }
]
  where
    all :
        marked s.queue.items ≡ false
        → s.ended ≡ false
        → s.received ++ before_marker (s.queue.items ++ some event ∷ []) ≡ s.sent ++ event ∷ []
    all u o =
        ap (λ l. s.received ++ l) (before_marker-append s.queue.items event u)
        ∙ sym (append_assoc s.received (before_marker s.queue.items) (event ∷ []))
        ∙ ap (λ l. l ++ event ∷ []) (inv.whole o u)

offers-Inv : (s : Session) (event : StoredEvent) → Inv s → Inv (step s (offers event))
unfolding step offered put
offers-Inv s event inv =
    rw (offer-offered s.queue event, step)
      (elim (Bool-cases (full s.queue)) [
        | inl f ↦ rw f (record {
          closed = IsPrefix-extend _ s.sent (event ∷ []) inv.closed;
          ahead =
              λ _. rw (append_nil s.received) (IsPrefix-extend _ s.sent (event ∷ []) inv.closed);
          whole = λ _ w. cc;
        })
        | inr f ↦ rw f (put-Inv s event inv)
      ])

session : ℕ → List (Option StoredEvent) → List StoredEvent → List StoredEvent → Bool → Session
session m items sent received ended = record {
  queue = record { maxsize = m; items = items };
  sent = sent;
  received = received;
  ended = ended;
}

gets-Inv :
    (m : ℕ) (items : List (Option StoredEvent)) (sent received : List StoredEvent) (ended : Bool)
    → Inv (session m items sent received ended)
    → Inv (step (session m items sent received ended) gets)
unfolding step get_nowait session
gets-Inv m [] sent received true inv = inv
gets-Inv m [] sent received false inv = inv
gets-Inv m (none ∷ items) sent received false inv = record {
  closed = inv.closed;
  ahead = λ o. cc;
  whole = λ o. cc;
}
gets-Inv m (some x ∷ items) sent received false inv = record {
  closed =
      IsPrefix-left (received ++ x ∷ []) (before_marker items) sent
        (rw (append_assoc received (x ∷ []) (before_marker items)) (inv.ahead refl));
  ahead = λ o. rw (append_assoc received (x ∷ []) (before_marker items)) (inv.ahead refl);
  whole = λ o u. append_assoc received (x ∷ []) (before_marker items) ∙ inv.whole refl u;
}
gets-Inv m _ sent received true inv = inv

step-Inv : (s : Session) (m : Move) → Inv s → Inv (step s m)
unfolding session
step-Inv s (offers event) inv = offers-Inv s event inv
step-Inv s gets inv = gets-Inv s.queue.maxsize s.queue.items s.sent s.received s.ended inv

run-Inv : (s : Session) (moves : List Move) → Inv s → Inv (run s moves)
unfolding run
run-Inv s [] inv = inv
run-Inv s (m ∷ moves) inv = run-Inv (step s m) moves (step-Inv s m inv)

fresh-Inv : (size : ℕ) → Inv (fresh size)
fresh-Inv size = record { closed = ([], refl); ahead = λ _. ([], refl); whole = λ _ _. refl }

-- For any interleaving of publishing and reading, what a subscriber has handled is a prefix of what
-- was published since it registered: no event is skipped, repeated or reordered. While it has not
-- read a disconnect marker and nothing is left in its queue, it has handled everything.
pub delivered_in_order :
    (size : ℕ) (moves : List Move)
    → let s = run (fresh size) moves in
      IsPrefix s.received s.sent × (s.ended ≡ false → s.queue.items ≡ [] → s.received ≡ s.sent)
delivered_in_order size moves =
    let inv = run-Inv (fresh size) moves (fresh-Inv size) in
    (inv.closed, λ o e. sym (append_nil _) ∙ nothing_left (run (fresh size) moves) e inv o)
  where
    nothing_left :
        (s : Session) → s.queue.items ≡ [] → Inv s → s.ended ≡ false → s.received ++ [] ≡ s.sent
    nothing_left s e inv o =
        sym (ap (λ l. s.received ++ before_marker l) e) ∙ inv.whole o (ap marked e)
