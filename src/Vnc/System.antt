-- ===== src/Vnc/System.antt =====
-- Any number of sockets at the bridge, with the calls of `issue_access` and `close` between the
-- suspensions of `bridge`.
use z_apply_backend.Base.{ℕ, String, ◌≡◌, Bool, List, [], ◌∷◌, ◌++◌, ◌==◌, if◌then◌else◌}
use z_apply_backend.Vnc.{
  VncAccess, VncBridge, init, issue_access, Phase, absent, dialing, accepting, bridging, finished,
  checked, dialed, connect, discard, close,
}

-- The bridge, where `bridge` stands for each socket, and the record of what happened: the accesses
-- that were handed out, the token that each socket presented, and the sockets that `close` told.
pub record World : Type 0 where
  pub bridge : VncBridge
  pub phase : ℕ → Phase
  pub issued : List VncAccess
  pub presented : ℕ → String
  pub told : List ℕ

unfoldable pub start : World
start = record { bridge = init; phase = λ i. absent; issued = []; presented = λ i. ""; told = [] }

abbrev pub put {ℓ} : {A : Type ℓ} → (ℕ → A) → ℕ → A → ℕ → A
put f i a j = if j == i then a else f j

unfoldable pub after_issue : String → String → ℕ → World → World
after_issue token host port w =
    let (a, b) = issue_access token host port w.bridge in
    record w { bridge = b; issued = a ∷ w.issued }

unfoldable pub after_check : ℕ → String → World → World
after_check i token w = record w {
  phase = put w.phase i (checked w.bridge.access token);
  presented = put w.presented i token;
}

unfoldable pub after_close : World → World
after_close w =
    let (sockets, b) = close w.bridge in record w { bridge = b; told = w.told ++ sockets }

pub data Step : World → World → Type 0 where
  issue : {w : World} (token host : String) (port : ℕ) → Step w (after_issue token host port w)
  check : {w : World} (i : ℕ) (token : String) → w.phase i ≡ absent → Step w (after_check i token w)
  dial :
      {w : World} (i : ℕ) (a : VncAccess) (up : Bool)
      → w.phase i ≡ dialing a
      → Step w (record w { phase = put w.phase i (dialed a up) })
  accept :
      {w : World} (i : ℕ) (a : VncAccess)
      → w.phase i ≡ accepting a
      → Step w (record w { phase = put w.phase i (bridging a); bridge = connect i w.bridge })
  end :
      {w : World} (i : ℕ) (a : VncAccess)
      → w.phase i ≡ bridging a
      → Step w (record w { phase = put w.phase i finished; bridge = discard i w.bridge })
  stop : {w : World} → Step w (after_close w)

pub data Reach : World → Type 0 where
  here : Reach start
  next : {u v : World} → Reach u → Step u v → Reach v
