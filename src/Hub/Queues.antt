-- ===== src/Hub/Queues.antt =====
-- What a sequence of calls of the hub's methods does to the queue of one subscriber.
use z_apply_backend.Base.{
  ℕ, String, ◌<◌, ◌≡◌, ◌≢◌, refl, sym, ap, ◌∙◌, some, List, [], ◌∷◌, ◌++◌, map, arith, ◌==◌, select,
  not,
}
use z_apply_backend.Hub.{StoredEvent, AsyncQueue, EventHub, register, unregister, queue_of}
use z_apply_backend.Hub.Invariant.{
  Call, publishes, registers, unregisters, run, published, after_publish, run-publishes,
}
use z_apply_backend.Hub.Laws.{offered, map_some, queue_of-offered_each}

-- Every key that is unregistered satisfies the predicate.
abbrev pub Unregisters : (ℕ → Type 0) → List Call → Type 0
Unregisters P [] = Unit
Unregisters P (publishes event ∷ calls) = Unregisters P calls
Unregisters P (registers ∷ calls) = Unregisters P calls
Unregisters P (unregisters key ∷ calls) = P key × Unregisters P calls

pub Unregisters-append :
    (P : ℕ → Type 0) (more calls : List Call)
    → Unregisters P more
    → Unregisters P calls
    → Unregisters P (more ++ calls)
Unregisters-append P [] calls g h = h
Unregisters-append P (publishes event ∷ more) calls g h = Unregisters-append P more calls g h
Unregisters-append P (registers ∷ more) calls g h = Unregisters-append P more calls g h
Unregisters-append P (unregisters key ∷ more) calls g h =
    (g.0, Unregisters-append P more calls g.1 h)

abbrev pub events_of : List Call → List StoredEvent
events_of [] = []
events_of (publishes event ∷ calls) = event ∷ events_of calls
events_of (registers ∷ calls) = events_of calls
events_of (unregisters key ∷ calls) = events_of calls

abbrev pub sent_key : StoredEvent → ℕ × String
sent_key event = (event.id, event.event_type)

pub published-events_of : (calls : List Call) → published calls ≡ map sent_key (events_of calls)
unfolding published
published-events_of [] = refl
published-events_of (publishes event ∷ calls) =
    ap (λ l. sent_key event ∷ l) (published-events_of calls)
published-events_of (registers ∷ calls) = published-events_of calls
published-events_of (unregisters key ∷ calls) = published-events_of calls

-- The queue after the events were offered to it, one after the other.
abbrev pub offered_all : List StoredEvent → AsyncQueue → AsyncQueue
offered_all [] q = q
offered_all (event ∷ events) q = offered_all events (offered q event)

queue_of-select :
    (key gone : ℕ) (queues : List (ℕ × AsyncQueue))
    → gone ≢ key
    → queue_of key (select (λ (k, _). not (k == gone)) queues) ≡ queue_of key queues
unfolding queue_of
queue_of-select key gone [] h = refl
queue_of-select key gone ((k, q) ∷ queues) h = ground (arith, queue_of-select key gone queues h)

queue_of-register :
    (key : ℕ) (hub : EventHub)
    → key < hub.next_key
    → queue_of key (register hub).0.queues ≡ queue_of key hub.queues
unfolding register queue_of
queue_of-register key hub h = ground arith

-- A subscriber that stays registered has in its queue what offering the published events gives.
pub run-queue_of :
    (key : ℕ) (calls : List Call) (hub hub' : EventHub) (q : AsyncQueue)
    → Unregisters (λ k. k ≢ key) calls
    → key < hub.next_key
    → run hub calls ≡ some hub'
    → queue_of key hub.queues ≡ some q
    → queue_of key hub'.queues ≡ some (offered_all (events_of calls) q)
unfolding run register unregister after_publish
run-queue_of key [] hub hub' q stays known e f = ground arith
run-queue_of key (publishes event ∷ calls) hub hub' q stays known e f =
    run-queue_of key calls (after_publish hub event) hub' (offered q event) stays known
      (sym (run-publishes hub event calls) ∙ e)
      (queue_of-offered_each event key hub.queues ∙ ap (map_some (λ x. offered x event)) f)
run-queue_of key (registers ∷ calls) hub hub' q stays known e f =
    run-queue_of key calls (register hub).0 hub' q stays (omega arith) e
      (queue_of-register key hub known ∙ f)
run-queue_of key (unregisters gone ∷ calls) hub hub' q stays known e f =
    run-queue_of key calls (unregister hub gone) hub' q stays.1 known e
      (queue_of-select key gone hub.queues stays.0 ∙ f)
