-- ===== src/Hub/Tests.antt =====
-- Runs of the hub: a queue of two events that overflows on the third.
use z_apply_backend.Base.{◌≡◌, false, some, [], ◌∷◌, All}
use z_apply_backend.Fixtures.{stored_event}
use z_apply_backend.Hub.{EventHub, init}
use z_apply_backend.Hub.Delivery.{Session, Move, offers, gets, fresh, IsPrefix, delivered_in_order}
use z_apply_backend.Hub.Delivery as Delivery
use z_apply_backend.Hub.Invariant.{Call, registers, publishes, unregisters, Bounded, queues-Bounded}
use z_apply_backend.Hub.Invariant as Invariant
use mathlib.Core.List.{List}

abbrev moves : List Move
moves =
    offers (stored_event 1)
    ∷ offers (stored_event 2)
    ∷ gets
    ∷ offers (stored_event 3)
    ∷ offers (stored_event 4)
    ∷ gets
    ∷ gets
    ∷ []

delivered_in_order_example :
    let s = Delivery.run (fresh 2) moves in
    IsPrefix s.received s.sent × (s.ended ≡ false → s.queue.items ≡ [] → s.received ≡ s.sent)
delivered_in_order_example = delivered_in_order 2 moves

abbrev calls : List Call
calls =
    registers
    ∷ publishes (stored_event 1)
    ∷ registers
    ∷ publishes (stored_event 2)
    ∷ publishes (stored_event 3)
    ∷ unregisters 0
    ∷ []

queues-Bounded_example :
    (hub : EventHub) × (Invariant.run (init 2) calls ≡ some hub)
    × All (λ (_, q). Bounded 2 q) hub.queues
queues-Bounded_example = queues-Bounded 2 calls
