-- ===== src/Hub/Invariant.antt =====
-- What holds of a hub after any sequence of its methods.
use z_apply_backend.Base.{
  ℕ, ◌+◌, ◌≤◌, ◌<◌, ◌≡◌, refl, ◌∙◌, ap, sym, String, ◌++◌, Option, none, some, List, [], ◌∷◌, arith,
  length, length-append, All, All-map, ◌==◌, select, not,
}
use z_apply_backend.Hub.{StoredEvent, AsyncQueue, EventHub, init, publish, register, unregister}
use z_apply_backend.Hub.Laws.{offered, offered_each, publish-total}

-- The queue has the hub's bound, and holds no more than that; with a bound of 0 there is none.
abbrev pub Bounded : ℕ → AsyncQueue → Type 0
Bounded size q = (q.maxsize ≡ size) × (0 < size → length q.items ≤ size)

abbrev pub Entry : ℕ → ℕ → ℕ × AsyncQueue → Type 0
Entry size next (key, q) = Bounded size q × (key < next)

abbrev pub IsValid : EventHub → Type 0
IsValid hub = All (Entry hub.queue_size hub.next_key) hub.queues

offered-Bounded :
    (size : ℕ) (q : AsyncQueue) (event : StoredEvent)
    → Bounded size q
    → Bounded size (offered q event)
unfolding offered
offered-Bounded size q event b = ground (arith, length-append q.items (some event ∷ []))

offered_each-All :
    (size next : ℕ) (event : StoredEvent) (queues : List (ℕ × AsyncQueue))
    → All (Entry size next) queues
    → All (Entry size next) (offered_each event queues)
unfolding offered_each
offered_each-All size next event [] h = tt
offered_each-All size next event ((key, q) ∷ rest) h =
    ((offered-Bounded size q event h.0.0, h.0.1), offered_each-All size next event rest h.1)

select-All :
    (size next : ℕ) (key : ℕ) (queues : List (ℕ × AsyncQueue))
    → All (Entry size next) queues
    → All (Entry size next) (select (λ (k, _). not (k == key)) queues)
select-All size next key [] h = tt
select-All size next key ((k, q) ∷ rest) h = ground (arith, select-All size next key rest h.1)

register-IsValid : (hub : EventHub) → IsValid hub → IsValid (register hub).0
unfolding register
register-IsValid hub v = (
  ((refl, λ _. omega arith), omega arith),
  All-map (Entry hub.queue_size hub.next_key) (Entry hub.queue_size (hub.next_key + 1))
      (λ (k, q) e. (e.0, omega arith)) hub.queues v,
)

queue_size-register : (hub : EventHub) → (register hub).0.queue_size ≡ hub.queue_size
unfolding register
queue_size-register hub = refl

pub data Call : Type 0 where
  publishes : StoredEvent → Call
  registers : Call
  unregisters : ℕ → Call

-- Any sequence of calls; `none` means that one of them raised.
unfoldable pub run : EventHub → List Call → Option EventHub
run hub [] = some hub
run hub (publishes event ∷ calls) = elim (publish hub event) [
  | none ↦ none
  | some hub' ↦ run hub' calls
]
run hub (registers ∷ calls) = run (register hub).0 calls
run hub (unregisters key ∷ calls) = run (unregister hub key) calls

-- From a valid hub no sequence of calls raises, and the hub that it ends in is valid.
pub run-IsValid :
    (hub : EventHub) (calls : List Call)
    → IsValid hub
    → (hub' : EventHub) × (run hub calls ≡ some hub')
      × IsValid hub'
      × (hub'.queue_size ≡ hub.queue_size)
unfolding run unregister
run-IsValid hub [] v = (hub, refl, v, refl)
run-IsValid hub (publishes event ∷ calls) v =
    let hub' : EventHub = record hub { queues = offered_each event hub.queues } in
    let (end, e, v', s) = run-IsValid hub' calls (offered_each-All _ _ event hub.queues v) in
    (end, rw (publish-total hub event, run) e, v', s)
run-IsValid hub (registers ∷ calls) v =
    let (end, e, v', s) = run-IsValid (register hub).0 calls (register-IsValid hub v) in
    (end, e, v', s ∙ queue_size-register hub)
run-IsValid hub (unregisters key ∷ calls) v =
    run-IsValid (unregister hub key) calls (select-All _ _ key hub.queues v)

-- After any sequence of calls on a new hub, none of which raises, every subscriber's queue holds at
-- most `queue_size` items, if that is positive.
pub queues-Bounded :
    (queue_size : ℕ) (calls : List Call)
    → (hub : EventHub) × (run (init queue_size) calls ≡ some hub)
      × All (λ (_, q). Bounded queue_size q) hub.queues
unfolding init
queues-Bounded queue_size calls =
    let (hub, e, v, s) = run-IsValid (init queue_size) calls tt in
    (hub, e, All-map (Entry hub.queue_size hub.next_key) _ (λ (_, q) b. rw (← s) b.0) hub.queues v)

-- The key and the type of every event that the calls publish.
unfoldable pub published : List Call → List (ℕ × String)
published [] = []
published (publishes event ∷ calls) = (event.id, event.event_type) ∷ published calls
published (registers ∷ calls) = published calls
published (unregisters key ∷ calls) = published calls

pub published-append :
    (more calls : List Call) → published (more ++ calls) ≡ published more ++ published calls
unfolding published
published-append [] calls = refl
published-append (publishes event ∷ more) calls =
    ap (λ l. (event.id, event.event_type) ∷ l) (published-append more calls)
published-append (registers ∷ more) calls = published-append more calls
published-append (unregisters key ∷ more) calls = published-append more calls

unfoldable pub after_publish : EventHub → StoredEvent → EventHub
after_publish hub event = record hub { queues = offered_each event hub.queues }

pub run-publishes :
    (hub : EventHub) (event : StoredEvent) (calls : List Call)
    → run hub (publishes event ∷ calls) ≡ run (after_publish hub event) calls
unfolding run after_publish
run-publishes hub event calls = ground (arith, publish-total hub event)

pub run-append :
    (hub mid : EventHub) (more calls : List Call)
    → run hub more ≡ some mid
    → run hub (more ++ calls) ≡ run mid calls
unfolding run
run-append hub mid [] calls e = ground arith
run-append hub mid (publishes event ∷ more) calls e =
    run-publishes hub event (more ++ calls)
    ∙ run-append (after_publish hub event) mid more calls (sym (run-publishes hub event more) ∙ e)
run-append hub mid (registers ∷ more) calls e = run-append (register hub).0 mid more calls e
run-append hub mid (unregisters key ∷ more) calls e =
    run-append (unregister hub key) mid more calls e

pub run-one :
    (hub hub' : EventHub) (event : StoredEvent)
    → publish hub event ≡ some hub'
    → run hub (publishes event ∷ []) ≡ some hub'
unfolding run
run-one hub hub' event e = ground arith
