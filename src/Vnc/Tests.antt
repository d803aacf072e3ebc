-- ===== src/Vnc/Tests.antt =====
-- Two sockets at the bridge: one is bridged, one presents a stale token.
use z_apply_backend.Base.{ℕ, ◌≡◌, refl, true, false, none, some, List, [], ◌∷◌, ◌==◌, any, arith}
use z_apply_backend.Vnc.{
  VncAccess, init, issue_access, compare_digest, compared, fresh_access, dialing, bridging, checked,
  dialed, connect, Message, disconnect, received, vnc_to_websocket, websocket_to_vnc, data_of,
  is_empty,
}
use z_apply_backend.Vnc.Granted.{In, is_bridging, bridged-Granted}
use z_apply_backend.Vnc.Relay.{flat, Reads, eof, chunk, vnc_to_websocket-flat}
use z_apply_backend.Vnc.Stopping.{was_told, close-bridging}
use z_apply_backend.Vnc.System.{
  World, start, put, after_issue, after_check, issue, check, dial, accept, Reach, here, next,
}

abbrev access : VncAccess
access = record { token = "abc"; host = "localhost"; port = 5900 }

abbrev ready : World
ready = after_check 7 "abc" (after_issue "abc" "localhost" 5900 start)

ready_reached : Reach ready
unfolding start after_issue
ready_reached = next (next here (issue "abc" "localhost" 5900)) (check 7 "abc" refl)

ready_dialing : ready.phase 7 ≡ dialing access
unfolding after_check after_issue start init issue_access checked compare_digest compared
    fresh_access
ready_dialing = refl

close-bridging_example :
    (u : World) × Reach u
    × (u.bridge.access ≡ none)
    × (u.phase 7 ≡ bridging access)
    × (was_told 7 u ≡ false)
unfolding after_check after_issue start
close-bridging_example = close-bridging 7 access ready_reached ready_dialing refl

abbrev dialled : World
dialled = record ready { phase = put ready.phase 7 (dialed access true) }

abbrev joined : World
joined = record dialled {
  phase = put dialled.phase 7 (bridging access);
  bridge = connect 7 dialled.bridge;
}

joined_reached : Reach joined
unfolding dialed
joined_reached = next (next ready_reached (dial 7 access true ready_dialing)) (accept 7 access refl)

bridged-Granted_example :
    (joined.phase 7 ≡ bridging access
      → (joined.presented 7 ≡ access.token) × In access joined.issued)
    × (any (λ j. j == 7) joined.bridge.connections ≡ is_bridging (joined.phase 7))
bridged-Granted_example = bridged-Granted 7 access joined_reached

abbrev messages : List Message
messages =
    received (some (1 ∷ 2 ∷ [])) none
    ∷ received none (some "a")
    ∷ received (some []) none
    ∷ disconnect
    ∷ received (some (9 ∷ [])) none
    ∷ []

-- What stands before the disconnection is written, without the empty message.
relayed : websocket_to_vnc (λ text. 97 ∷ []) messages ≡ (1 ∷ 2 ∷ []) ∷ (97 ∷ []) ∷ []
unfolding websocket_to_vnc data_of is_empty
relayed = refl

abbrev chunks : List (List ℕ)
chunks = (1 ∷ 2 ∷ []) ∷ (3 ∷ []) ∷ [] ∷ []

reads : Reads 65536 (1 ∷ 2 ∷ 3 ∷ []) chunks
reads = chunk (omega arith) (chunk (omega arith) eof)

-- The two reads of three bytes are sent on, and the empty one ends the stream.
sent_on : flat (vnc_to_websocket chunks) ≡ 1 ∷ 2 ∷ 3 ∷ []
sent_on = (vnc_to_websocket-flat reads).0
