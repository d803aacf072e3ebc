-- ===== src/Browser.antt =====
-- api/browser.py: the live view with the address of its socket, and the commands on the browser.
pub mod View
mod Tests
use Prim.Native.String as Str
use z_apply_backend.Base.{
  ℕ, zero, suc, String, Bool, true, false, Option, none, some, starts_with, if◌then◌else◌,
}
use z_apply_backend.Human.{Raised, invalid_run_transition, HttpError, integration_error}
use z_apply_backend.Vnc.{VncAccess, VncBridge, issue_access}

-- What the Core says of its live view.
pub record CoreLiveView : Type 0 where
  pub available : Bool
  pub vnc_host : Option String
  pub vnc_port : Option ℕ
  pub control_mode : String
  pub focused_run_id : Option String

-- The answer of `live_view`; `view` has the fields that are passed on as they are.
pub record LiveView : Type 0 where
  pub view : CoreLiveView
  pub websocket_url : Option String

drop_chars : ℕ → String → String
drop_chars zero s = s
drop_chars (suc n) Str.[] = ""
drop_chars (suc n) (Str.◌∷◌ c s) = drop_chars n s

-- `text.replace(old, new, 1)`
unfoldable pub replace_first : String → String → String → String
unfolding drop_chars
replace_first old new Str.[] = ""
replace_first old new (Str.◌∷◌ c s) =
    let rest = replace_first old new s in
    if starts_with (Str.◌∷◌ c s) old
    then Str.◌++◌ new (drop_chars (Str.count old) (Str.◌∷◌ c s))
    else Str.◌∷◌ c rest

-- `endpoint` is what `request.url_for("vnc_websocket")` gives.
unfoldable pub socket_url : String → VncAccess → String
unfolding replace_first
socket_url endpoint access =
    Str.◌++◌ (replace_first "https://" "wss://" (replace_first "http://" "ws://" endpoint))
      (Str.◌++◌ "?token=" access.token)

unfoldable pub with_access : CoreLiveView → String → VncAccess × VncBridge → LiveView × VncBridge
with_access view endpoint (access, b) =
    (record { view = view; websocket_url = some (socket_url endpoint access) }, b)

unfoldable pub live_view_of :
    String
    → String
    → CoreLiveView
    → VncBridge
    → Bool
    → Option String
    → Option ℕ
    → LiveView × VncBridge
live_view_of token endpoint view b true (some host) (some port) =
    with_access view endpoint (issue_access token host port b)
live_view_of token endpoint view b _ _ _ = (record { view = view; websocket_url = none }, b)

-- `live_view`, with the view of the Core and the token that would be made.
unfoldable pub live_view : String → String → CoreLiveView → VncBridge → LiveView × VncBridge
live_view token endpoint view b =
    live_view_of token endpoint view b view.available view.vnc_host view.vnc_port

-- What the Core gives for a command: an exception, or the run and the control mode after it.
pub data Control : Type 0 where
  raised : Raised → Control
  taken : String → String → Control

pub data ControlAnswer : Type 0 where
  refused : HttpError → ControlAnswer
  answered : String → String → ControlAnswer

-- `take_control` and `return_control` differ in the method of the Core that they call.
unfoldable pub control : Control → ControlAnswer
control (raised exc) = refused (integration_error exc)
control (taken run_id control_mode) = answered run_id control_mode

-- `close_workspace`: any other exception than InvalidRunTransition goes on to the caller.
pub data Closed : Type 0 where
  closed uncaught : Closed
  conflict : HttpError → Closed

unfoldable pub close_workspace : Option Raised → Closed
close_workspace none = closed
close_workspace (some exc) =
    if exc invalid_run_transition
    then conflict (record { status = 409; code = "invalid_run_transition" })
    else uncaught
