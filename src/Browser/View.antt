-- ===== src/Browser/View.antt =====
-- The address in the live view against the test of the bridge.
use text.Mathlib.TextPositions.{eq_refl}
use z_apply_backend.Base.{
  ℕ, String, ◌≡◌, refl, sym, ap, ◌∙◌, Bool, true, false, Option, none, some, arith, codes, eq_iff,
  Bool-cases, inl, inr,
}
use z_apply_backend.Browser.{CoreLiveView, socket_url, with_access, live_view_of, live_view}
use z_apply_backend.Vnc.{
  VncAccess, VncBridge, is_ascii, same_endpoint, fresh_access, issue_access, compared, checked,
  dialing,
}
use z_apply_backend.Vnc.Stopping.{checked-ascii}

-- The token that is handed out already, if there is one, is ASCII.
abbrev pub HasAscii : Option VncAccess → Type 0
HasAscii none = Unit
HasAscii (some a) = is_ascii (codes a.token) ≡ true

-- The access is for the endpoint, and its token is ASCII.
abbrev For : String → ℕ → VncAccess → Type 0
For host port a = (a.host ≡ host) × (a.port ≡ port) × (is_ascii (codes a.token) ≡ true)

same_endpoint-eq :
    (a : VncAccess) (host : String) (port : ℕ)
    → same_endpoint a host port ≡ true
    → (a.host ≡ host) × (a.port ≡ port)
unfolding same_endpoint
same_endpoint-eq a host port h = ground (arith, eq_iff a.host host)

fresh_access-For :
    (token host : String) (port : ℕ) (access : Option VncAccess)
    → is_ascii (codes token) ≡ true
    → HasAscii access
    → For host port (fresh_access token host port access)
unfolding fresh_access
fresh_access-For token host port none h k = (refl, refl, h)
fresh_access-For token host port (some a) h k = elim (Bool-cases (same_endpoint a host port)) [
  | inl same ↦ let (e, f) = same_endpoint-eq a host port same in rw same (e, f, k)
  | inr other ↦ rw other (refl, refl, h)
]

checked_self :
    (a : VncAccess) → is_ascii (codes a.token) ≡ true → checked (some a) a.token ≡ dialing a
unfolding compared
checked_self a h = checked-ascii a a.token h h ∙ ap (λ t. compared a (some t)) (eq_refl a.token)

-- What an answer says of the bridge after it.
abbrev pub Grants : String → CoreLiveView → VncBridge → Option String → VncBridge → Type 0
Grants endpoint view b none b' = b' ≡ b
Grants endpoint view b (some url) b' =
    (a : VncAccess) × (url ≡ socket_url endpoint a)
    × (view.vnc_host ≡ some a.host)
    × (view.vnc_port ≡ some a.port)
    × (checked b'.access a.token ≡ dialing a)

live_view_of-Grants :
    (token endpoint : String) (view : CoreLiveView) (b : VncBridge) (available : Bool)
    (host : Option String) (port : Option ℕ)
    → view.vnc_host ≡ host
    → view.vnc_port ≡ port
    → is_ascii (codes token) ≡ true
    → HasAscii b.access
    → let (answer, b') = live_view_of token endpoint view b available host port in
      Grants endpoint view b answer.websocket_url b'
unfolding live_view_of with_access issue_access
live_view_of-Grants token endpoint view b true (some host) (some port) at_host at_port h k =
    let (same_host, same_port, a) = fresh_access-For token host port b.access h k in
    (
      fresh_access token host port b.access,
      refl,
      at_host ∙ ap some (sym same_host),
      at_port ∙ ap some (sym same_port),
      checked_self (fresh_access token host port b.access) a,
    )
live_view_of-Grants token endpoint view b true (some host) none at_host at_port h k = refl
live_view_of-Grants token endpoint view b true none port at_host at_port h k = refl
live_view_of-Grants token endpoint view b false host port at_host at_port h k = refl

-- If `live_view` gives an address, it is for the endpoint that the Core named, and the token in it
-- passes the test of the bridge, to be connected to that endpoint. If it gives none, the bridge is
-- as it was. Tokens are ASCII, as `token_urlsafe` makes them.
pub live_view-Grants :
    (token endpoint : String) (view : CoreLiveView) (b : VncBridge)
    → is_ascii (codes token) ≡ true
    → HasAscii b.access
    → let (answer, b') = live_view token endpoint view b in
      Grants endpoint view b answer.websocket_url b'
unfolding live_view
live_view-Grants token endpoint view b =
    live_view_of-Grants token endpoint view b view.available view.vnc_host view.vnc_port refl refl
