-- ===== src/Vnc.antt =====
-- services/vnc_bridge.py: the token of the VNC endpoint, and the sockets that are bridged to it.
-- `bridge` is cut at its suspensions; the lock is never held across one.
mod Tests
pub mod Relay
pub mod Stopping
pub mod Granted
pub mod System
use z_apply_backend.Base.{
  ℕ, String, Bool, true, false, not, ◌&&◌, Option, none, some, List, [], ◌∷◌, ◌==◌, ltb, str_eq,
  any, select, codes, if◌then◌else◌,
}

-- class VncAccess
pub record VncAccess : Type 0 where
  pub token : String
  pub host : String
  pub port : ℕ

-- The fields of VncBridge; a socket is the number of its object.
pub record VncBridge : Type 0 where
  pub access : Option VncAccess
  pub connections : List ℕ

unfoldable pub init : VncBridge
init = record { access = none; connections = [] }

unfoldable pub same_endpoint : VncAccess → String → ℕ → Bool
same_endpoint a host port = str_eq a.host host && (a.port == port)

-- `token` is what `secrets.token_urlsafe(32)` gives, if it is called.
unfoldable pub fresh_access : String → String → ℕ → Option VncAccess → VncAccess
unfolding same_endpoint
fresh_access token host port none = record { token = token; host = host; port = port }
fresh_access token host port (some a) =
    if same_endpoint a host port then a else record { token = token; host = host; port = port }

unfoldable pub issue_access : String → String → ℕ → VncBridge → VncAccess × VncBridge
issue_access token host port b = (
  fresh_access token host port b.access,
  record b { access = some (fresh_access token host port b.access) },
)

unfoldable pub is_ascii : List ℕ → Bool
is_ascii [] = true
is_ascii (c ∷ cs) = ltb c 128 && is_ascii cs

-- `secrets.compare_digest` on texts: a TypeError, `none`, unless both are ASCII.
unfoldable pub compare_digest : String → String → Option Bool
unfolding is_ascii
compare_digest a b = if is_ascii (codes a) && is_ascii (codes b) then some (str_eq a b) else none

-- Where `bridge` stands for one socket. It ends with the code of the close frame, with an exception
-- that nothing catches, or after bridging.
pub data Phase : Type 0 where
  absent : Phase
  dialing accepting bridging : VncAccess → Phase
  closed : ℕ → Phase
  raised finished : Phase

unfoldable pub compared : VncAccess → Option Bool → Phase
compared a none = raised
compared a (some true) = dialing a
compared a (some false) = closed 1008

-- `bridge` up to `open_connection`.
unfoldable pub checked : Option VncAccess → String → Phase
checked none token = closed 1008
checked (some a) token = compared a (compare_digest a.token token)

-- The connection is there, or an OSError.
unfoldable pub dialed : VncAccess → Bool → Phase
dialed a true = accepting a
dialed a false = closed 1011

-- After `websocket.accept()`, and the `finally` at the end.
unfoldable pub connect : ℕ → VncBridge → VncBridge
connect i b = record b { connections = i ∷ b.connections }

unfoldable pub discard : ℕ → VncBridge → VncBridge
discard i b = record b { connections = select (λ j. not (j == i)) b.connections }

-- `close`: the sockets that are told with the code 1001, and the bridge after it.
unfoldable pub close : VncBridge → List ℕ × VncBridge
close b = (b.connections, record b { access = none })

-- What a WebSocket receives: its `type`, and the parts `bytes` and `text`.
pub data Message : Type 0 where
  disconnect : Message
  received : Option (List ℕ) → Option String → Message

unfoldable pub data_of : (String → List ℕ) → Option (List ℕ) → Option String → List ℕ
data_of encode (some bytes) text = bytes
data_of encode none (some text) = encode text
data_of encode none none = []

unfoldable pub is_empty : List ℕ → Bool
is_empty [] = true
is_empty (b ∷ bs) = false

-- `_websocket_to_vnc`: what it writes for the messages in their order. `encode` is UTF-8.
unfoldable pub websocket_to_vnc : (String → List ℕ) → List Message → List (List ℕ)
unfolding data_of is_empty
websocket_to_vnc encode [] = []
websocket_to_vnc encode (disconnect ∷ messages) = []
websocket_to_vnc encode (received bytes text ∷ messages) =
    let rest = websocket_to_vnc encode messages in
    if is_empty (data_of encode bytes text) then rest else data_of encode bytes text ∷ rest

-- `_vnc_to_websocket`: what it sends for the results of `read`, of which an empty one is the last.
unfoldable pub vnc_to_websocket : List (List ℕ) → List (List ℕ)
vnc_to_websocket [] = []
vnc_to_websocket ([] ∷ chunks) = []
vnc_to_websocket ((b ∷ bs) ∷ chunks) = (b ∷ bs) ∷ vnc_to_websocket chunks
