-- ===== src/Hub.antt =====
-- services/event_hub.py: a bounded queue for each subscriber, and the fan-out to all of them. The
-- lock is never held across a suspension, so each method is one step.
pub mod Delivery
pub mod Invariant
pub mod Laws
pub mod Queues
mod Tests
use z_apply_backend.Base.{
  ℕ, zero, suc, ◌+◌, String, Bool, true, false, not, Option, none, some, List, [], ◌∷◌, ◌++◌,
  length, leb, ◌==◌, select, if◌then◌else◌,
}
use z_apply_backend.Json.{Fields}

-- class StoredEvent; `body` is its field `data`
pub record StoredEvent : Type 0 where
  pub id : ℕ
  pub event_type : String
  pub body : Fields

-- asyncio.Queue; a maxsize below 1 is 0 here and means no bound
pub record AsyncQueue : Type 0 where
  pub maxsize : ℕ
  pub items : List (Option StoredEvent)

unfoldable pub full : AsyncQueue → Bool
full q = if q.maxsize == 0 then false else leb q.maxsize (length q.items)

-- `none` is asyncio.QueueFull
unfoldable pub put_nowait : AsyncQueue → Option StoredEvent → Option AsyncQueue
unfolding full
put_nowait q item = if full q then none else some (record q { items = q.items ++ item ∷ [] })

-- `none` is asyncio.QueueEmpty
unfoldable pub get_nowait : AsyncQueue → Option (Option StoredEvent × AsyncQueue)
get_nowait q = elim q.items [
  | [] ↦ none
  | item ∷ rest ↦ some (item, record { maxsize = q.maxsize; items = rest })
]

-- `while not queue.empty(): queue.get_nowait()`, with a number of rounds
drain_loop : ℕ → AsyncQueue → AsyncQueue
drain_loop zero q = q
drain_loop (suc rounds) q = elim (get_nowait q) [
  | none ↦ q
  | some (item, rest) ↦ drain_loop rounds rest
]

unfoldable pub drain : AsyncQueue → AsyncQueue
unfolding drain_loop get_nowait
drain q = drain_loop (length q.items) q

-- The body of the loop of `publish`: on QueueFull everything goes, and None marks the disconnect.
-- `none` means that QueueFull came out of the handler.
unfoldable pub offer : AsyncQueue → StoredEvent → Option AsyncQueue
unfolding put_nowait drain
offer q event = elim (put_nowait q (some event)) [
  | some q' ↦ some q'
  | none ↦ put_nowait (drain q) none
]

-- The set of queues: each with the number that stands for the identity of the queue object.
pub record EventHub : Type 0 where
  pub queue_size : ℕ
  pub queues : List (ℕ × AsyncQueue)
  pub next_key : ℕ

unfoldable pub init : ℕ → EventHub
init queue_size = record { queue_size = queue_size; queues = []; next_key = 0 }

unfoldable pub publish_each : StoredEvent → List (ℕ × AsyncQueue) → Option (List (ℕ × AsyncQueue))
unfolding offer
publish_each event [] = some []
publish_each event ((key, q) ∷ rest) = elim (offer q event) [
  | none ↦ none
  | some q' ↦ elim (publish_each event rest) [ none ↦ none | some rest' ↦ some ((key, q') ∷ rest') ]
]

-- `none` means that an exception left the method.
unfoldable pub publish : EventHub → StoredEvent → Option EventHub
unfolding publish_each
publish hub event = elim (publish_each event hub.queues) [
  | none ↦ none
  | some queues ↦ some (record hub { queues = queues })
]

unfoldable pub register : EventHub → EventHub × ℕ
register hub = (
  record hub { queues = (hub.next_key, queue) ∷ hub.queues; next_key = hub.next_key + 1 },
  hub.next_key,
)
  where
    queue : AsyncQueue
    queue = record { maxsize = hub.queue_size; items = [] }

unfoldable pub unregister : EventHub → ℕ → EventHub
unregister hub key = record hub { queues = select (λ (k, _). not (k == key)) hub.queues }

-- The queue of a subscriber.
unfoldable pub queue_of : ℕ → List (ℕ × AsyncQueue) → Option AsyncQueue
queue_of key [] = none
queue_of key ((k, q) ∷ rest) = if k == key then some q else queue_of key rest
