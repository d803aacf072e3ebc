-- ===== src/Hub/Laws.antt =====
-- What publishing does to each subscriber's queue.
use z_apply_backend.Base.{
  ℕ, zero, suc, ◌≤◌, ◌≡◌, refl, Option, none, some, List, [], ◌∷◌, ◌++◌, arith, length,
  if◌then◌else◌,
}
use z_apply_backend.Hub.{
  StoredEvent, AsyncQueue, full, put_nowait, get_nowait, drain_loop, drain, offer, EventHub,
  publish_each, publish, queue_of,
}

drain_loop-items :
    (m : ℕ) (xs : List (Option StoredEvent)) (rounds : ℕ)
    → length xs ≤ rounds
    → drain_loop rounds (record { maxsize = m; items = xs }) ≡ record { maxsize = m; items = [] }
unfolding drain_loop get_nowait
drain_loop-items m [] zero h = refl
drain_loop-items m [] (suc rounds) h = refl
drain_loop-items m (x ∷ xs) zero h = absurd (omega arith)
drain_loop-items m (x ∷ xs) (suc rounds) h = drain_loop-items m xs rounds (omega arith)

-- The `while` loop of `publish` runs until the queue is empty.
pub drain-items : (q : AsyncQueue) → drain q ≡ record q { items = [] }
unfolding drain
drain-items q = drain_loop-items q.maxsize q.items (length q.items) (omega arith)

-- What `offer` leaves in the queue: the event at the end, or the disconnect marker alone.
unfoldable pub offered : AsyncQueue → StoredEvent → AsyncQueue
unfolding full
offered q event = record q { items = if full q then none ∷ [] else q.items ++ some event ∷ [] }

put_nowait-empty :
    (q : AsyncQueue)
    → put_nowait (record q { items = [] }) none ≡ some (record q { items = none ∷ [] })
unfolding put_nowait
put_nowait-empty q = ground arith

pub offer-offered : (q : AsyncQueue) (event : StoredEvent) → offer q event ≡ some (offered q event)
unfolding offer offered put_nowait
offer-offered q event = ground (arith, drain-items q, put_nowait-empty q)

unfoldable pub offered_each : StoredEvent → List (ℕ × AsyncQueue) → List (ℕ × AsyncQueue)
offered_each event [] = []
offered_each event ((key, q) ∷ rest) = (key, offered q event) ∷ offered_each event rest

publish_each-offered :
    (event : StoredEvent) (queues : List (ℕ × AsyncQueue))
    → publish_each event queues ≡ some (offered_each event queues)
unfolding publish_each offered_each
publish_each-offered event [] = refl
publish_each-offered event ((key, q) ∷ rest) =
    ground (arith, offer-offered q event, publish_each-offered event rest)

-- Publishing never raises, whatever the queues hold.
pub publish-total :
    (hub : EventHub) (event : StoredEvent)
    → publish hub event ≡ some (record hub { queues = offered_each event hub.queues })
unfolding publish
publish-total hub event = ground (arith, publish_each-offered event hub.queues)

abbrev pub map_some : (AsyncQueue → AsyncQueue) → Option AsyncQueue → Option AsyncQueue
map_some f none = none
map_some f (some q) = some (f q)

pub queue_of-offered_each :
    (event : StoredEvent) (key : ℕ) (queues : List (ℕ × AsyncQueue))
    → queue_of key (offered_each event queues)
      ≡ map_some (λ q. offered q event) (queue_of key queues)
unfolding queue_of offered_each
queue_of-offered_each event key [] = refl
queue_of-offered_each event key ((k, q) ∷ rest) =
    ground (arith, queue_of-offered_each event key rest)

-- What `get_nowait` hands out stood first.
pub get_nowait-items :
    (q rest : AsyncQueue) (i : Option StoredEvent)
    → get_nowait q ≡ some (i, rest)
    → q.items ≡ i ∷ rest.items
unfolding get_nowait
get_nowait-items q rest i e = ground arith
