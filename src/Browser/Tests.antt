-- ===== src/Browser/Tests.antt =====
-- A live view before any token was handed out.
use z_apply_backend.Base.{◌≡◌, refl, true, none, some, []}
use z_apply_backend.Browser.{CoreLiveView, live_view, socket_url}
use z_apply_backend.Browser.View.{Grants, live_view-Grants}
use z_apply_backend.Vnc.{VncBridge, is_ascii}

abbrev shown : CoreLiveView
shown = record {
  available = true;
  vnc_host = some "127.0.0.1";
  vnc_port = some 5900;
  control_mode = "agent_control";
  focused_run_id = none;
}

abbrev bridge : VncBridge
bridge = record { access = none; connections = [] }

live_view-Grants_example :
    let (answer, b') = live_view "abc" "http://cockpit/vnc" shown bridge in
    Grants "http://cockpit/vnc" shown bridge answer.websocket_url b'
unfolding is_ascii
live_view-Grants_example = live_view-Grants "abc" "http://cockpit/vnc" shown bridge refl tt

url_of_the_socket :
    socket_url "http://cockpit/vnc" (record { token = "abc"; host = "h"; port = 1 })
    ≡ "ws://cockpit/vnc?token=abc"
unfolding socket_url
url_of_the_socket = refl

url_of_the_secure_socket :
    socket_url "https://cockpit/vnc" (record { token = "abc"; host = "h"; port = 1 })
    ≡ "wss://cockpit/vnc?token=abc"
unfolding socket_url
url_of_the_secure_socket = refl
