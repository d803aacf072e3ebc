-- ===== src/Vnc/Stopping.antt =====
-- `issue_access` and `close` against the sockets that are on their way.
use text.Mathlib.TextPositions.{eq_refl}
use z_apply_backend.Base.{
  ℕ, String, ◌≡◌, ◌≢◌, refl, sym, ap, ◌∙◌, Bool, true, false, ◌||◌, none, some, List, [], ◌∷◌, ◌++◌,
  ◌==◌, arith, str_eq, eq_iff, any, codes,
}
use z_apply_backend.Vnc.{
  VncAccess, VncBridge, same_endpoint, fresh_access, issue_access, is_ascii, compare_digest,
  dialing, bridging, closed, compared, checked, dialed, connect, close,
}
use z_apply_backend.Vnc.Granted.{Reach-Inv, is_bridging}
use z_apply_backend.Vnc.System.{World, put, after_close, dial, accept, stop, Reach, next}

any-append :
    (i : ℕ) (xs ys : List ℕ)
    → any (λ j. j == i) (xs ++ ys) ≡ (any (λ j. j == i) xs || any (λ j. j == i) ys)
any-append i [] ys = refl
any-append i (x ∷ xs) ys = ground (arith, any-append i xs ys)

abbrev pub was_told : ℕ → World → Bool
was_told i w = any (λ j. j == i) w.told

-- The three steps by which a socket that has passed its test is bridged after `close`.
abbrev closing : World → World
closing w = after_close w

abbrev dialing_done : ℕ → VncAccess → World → World
dialing_done i a w = record w { phase = put w.phase i (dialed a true) }

abbrev accepted : ℕ → VncAccess → World → World
accepted i a w = record w { phase = put w.phase i (bridging a); bridge = connect i w.bridge }

-- A socket whose token was tested before `close` can still be bridged after it: no access is left
-- then, but the socket is not among those that `close` has told.
pub close-bridging :
    {w : World} (i : ℕ) (a : VncAccess)
    → Reach w
    → w.phase i ≡ dialing a
    → was_told i w ≡ false
    → (u : World) × Reach u
      × (u.bridge.access ≡ none)
      × (u.phase i ≡ bridging a)
      × (was_told i u ≡ false)
unfolding after_close close dialed connect
close-bridging {w} i a r at untold =
    let s1 = next r stop in
    let s2 = next s1 (dial i a true at) in
    let s3 = next s2 (accept i a (ground arith)) in
    (
      _,
      s3,
      refl,
      ground arith,
      any-append i w.told w.bridge.connections
          ∙ ground (arith, (Reach-Inv r).connected i ∙ ap is_bridging at),
    )

compare_digest-ascii :
    (a b : String)
    → is_ascii (codes a) ≡ true
    → is_ascii (codes b) ≡ true
    → compare_digest a b ≡ some (str_eq a b)
unfolding compare_digest
compare_digest-ascii a b h k = rw (h, k)

str_eq-ne : (a b : String) → a ≢ b → str_eq a b ≡ false
str_eq-ne a b h = ground (arith, eq_iff a b)

pub fresh_access-same :
    (token host : String) (port : ℕ) (a : VncAccess)
    → same_endpoint a host port ≡ true
    → fresh_access token host port (some a) ≡ a
unfolding fresh_access
fresh_access-same token host port a h = rw h

pub fresh_access-other :
    (token host : String) (port : ℕ) (a : VncAccess)
    → same_endpoint a host port ≡ false
    → fresh_access token host port (some a) ≡ record { token = token; host = host; port = port }
unfolding fresh_access
fresh_access-other token host port a h = rw h

pub checked-ascii :
    (a : VncAccess) (token : String)
    → is_ascii (codes a.token) ≡ true
    → is_ascii (codes token) ≡ true
    → checked (some a) token ≡ compared a (some (str_eq a.token token))
unfolding checked
checked-ascii a token h k = ap (compared a) (compare_digest-ascii a.token token h k)

-- For the endpoint that it has, `issue_access` hands out the same access and changes nothing. For
-- another endpoint it hands out the new token, which passes, and the old one is refused with 1008
-- from then on; both are ASCII, as `token_urlsafe` makes them.
pub issue_access-checked :
    (token host : String) (port : ℕ) (b : VncBridge) (a : VncAccess)
    → b.access ≡ some a
    → is_ascii (codes token) ≡ true
    → is_ascii (codes a.token) ≡ true
    → a.token ≢ token
    → let (given, b') = issue_access token host port b in
      (same_endpoint a host port ≡ true → (given ≡ a) × (b'.access ≡ b.access))
      × (same_endpoint a host port ≡ false
          → (given ≡ record { token = token; host = host; port = port })
            × (checked b'.access token ≡ dialing given)
            × (checked b'.access a.token ≡ closed 1008))
unfolding issue_access compared
issue_access-checked token host port b a e fresh old differ =
    let kept = ap (fresh_access token host port) e in
    (
      λ same.
          let again = kept ∙ fresh_access-same token host port a same in
          (again, ap some again ∙ sym e),
      λ other.
          let given = kept ∙ fresh_access-other token host port a other in
          let access : VncAccess = record { token = token; host = host; port = port } in
          (
            given,
            ap (λ x. checked (some x) token) given
                ∙ checked-ascii access token fresh fresh
                ∙ ap (λ t. compared access (some t)) (eq_refl token)
                ∙ ap dialing (sym given),
            ap (λ x. checked (some x) a.token) given
                ∙ checked-ascii access a.token fresh old
                ∙ ap (λ t. compared access (some t))
                    (str_eq-ne token a.token (λ x. differ (sym x))),
          ),
    )
