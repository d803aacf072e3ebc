-- ===== src/Routes.antt =====
-- create_app of app.py: the routers of api/, their prefixes, and the routes that they register.
mod Tests
pub mod Unambiguous
use z_apply_backend.Base.{
  String, Bool, true, false, not, ◌&&◌, Option, none, some, List, [], ◌∷◌, ◌++◌, map, str_eq,
}
use z_apply_backend.Config.{Settings}

pub data Method : Type 0 where
  get post delete websocket : Method

-- A part of a path between slashes: a text, or a parameter in braces.
pub data Segment : Type 0 where
  lit param : String → Segment

-- What a decorator registers: the method, the path behind the prefix, and the name of the handler.
pub record Route : Type 0 where
  pub method : Method
  pub path : List Segment
  pub endpoint : String

-- APIRouter(prefix=…)
pub record Router : Type 0 where
  pub prefix : List Segment
  pub routes : List Route

abbrev route : Method → List Segment → String → Route
route method path endpoint = record { method = method; path = path; endpoint = endpoint }

abbrev api : List Segment
api = lit "api" ∷ lit "v1" ∷ []

unfoldable pub runs_router : Router
runs_router = record {
  prefix = api ++ lit "runs" ∷ [];
  routes =
      route get (param "run_id" ∷ lit "log" ∷ []) "run_log"
      ∷ route post [] "start_run"
      ∷ route get [] "get_runs"
      ∷ route get (param "run_id" ∷ []) "get_run_detail"
      ∷ route post (param "run_id" ∷ lit "cancel" ∷ []) "cancel_run"
      ∷ route post (param "run_id" ∷ lit "focus" ∷ []) "focus_run"
      ∷ route post (param "run_id" ∷ lit "context" ∷ []) "send_context"
      ∷ route post (param "run_id" ∷ lit "model" ∷ []) "switch_model"
      ∷ route post (param "run_id" ∷ lit "reasoning" ∷ []) "set_reasoning"
      ∷ route delete (param "run_id" ∷ lit "browser" ∷ []) "close_browser"
      ∷ route get (param "run_id" ∷ lit "calls" ∷ []) "run_calls"
      ∷ route get (param "run_id" ∷ lit "events" ∷ []) "run_events"
      ∷ [];
}

unfoldable pub providers_router : Router
providers_router = record {
  prefix = api ++ lit "providers" ∷ [];
  routes = route get [] "list_providers_catalog" ∷ [];
}

unfoldable pub events_router : Router
events_router = record {
  prefix = api ++ lit "events" ∷ [];
  routes =
      route get (lit "stream" ∷ []) "stream_events"
      ∷ route get (lit "live" ∷ []) "stream_live_events"
      ∷ [];
}

unfoldable pub human_router : Router
human_router = record {
  prefix = api ++ lit "runs" ∷ param "run_id" ∷ lit "human-requests" ∷ [];
  routes =
      route get [] "human_requests"
      ∷ route post (param "request_id" ∷ lit "answer" ∷ []) "answer"
      ∷ route post (param "request_id" ∷ lit "submission-decision" ∷ []) "submission_decision"
      ∷ [];
}

unfoldable pub browser_router : Router
browser_router = record {
  prefix = api ++ lit "browser" ∷ [];
  routes =
      route get (lit "live-view" ∷ []) "live_view"
      ∷ route post (lit "take-control" ∷ []) "take_control"
      ∷ route post (lit "return-control" ∷ []) "return_control"
      ∷ route post (lit "close-workspace" ∷ []) "close_workspace"
      ∷ route websocket (lit "vnc" ∷ []) "vnc_websocket"
      ∷ [];
}

unfoldable pub artifacts_router : Router
artifacts_router = record {
  prefix = api;
  routes =
      route get (lit "runs" ∷ param "run_id" ∷ lit "artifacts" ∷ []) "artifacts"
      ∷ route get (lit "artifacts" ∷ param "artifact_id" ∷ []) "artifact"
      ∷ [];
}

unfoldable pub diagnostics_router : Router
diagnostics_router = record {
  prefix = api;
  routes =
      route get (lit "health" ∷ []) "health"
      ∷ route get (lit "diagnostics" ∷ []) "diagnostics"
      ∷ route get (lit "profile" ∷ []) "profile"
      ∷ route get (lit "documents" ∷ []) "documents"
      ∷ route get (lit "settings" ∷ []) "settings"
      ∷ route get (lit "tasks" ∷ []) "asyncio_tasks"
      ∷ [];
}

-- `app.include_router(router)`
unfoldable pub included : Router → List Route
included router = map under router.routes
  where
    under : Route → Route
    under r = record r { path = router.prefix ++ r.path }

unfoldable pub include_all : List Router → List Route
unfolding included
include_all [] = []
include_all (router ∷ routers) = included router ++ include_all routers

-- The FastAPI application: the arguments of its CORS middleware, and the routes of the routers in their
-- order, which stand behind those of FastAPI for the documentation.
pub record FastApi : Type 0 where
  pub title : String
  pub version : String
  pub allow_origins : List String
  pub allow_credentials : Bool
  pub allow_methods : List String
  pub allow_headers : List String
  pub routes : List Route

abbrev pub routers : List Router
routers =
    runs_router ∷ providers_router ∷ events_router ∷ human_router ∷ browser_router
    ∷ artifacts_router ∷ diagnostics_router ∷ []

-- `none` is the ValidationError of `Settings()`.
unfoldable pub create_app : Option Settings → Option FastApi
create_app none = none
create_app (some s) = some (record {
  title = "Z-Apply Cockpit API";
  version = "0.1.0";
  allow_origins = s.cors_origin ∷ [];
  allow_credentials = false;
  allow_methods = "*" ∷ [];
  allow_headers = "*" ∷ [];
  routes = include_all routers;
})

abbrev pub same_method : Method → Method → Bool
same_method get get = true
same_method post post = true
same_method delete delete = true
same_method websocket websocket = true
same_method _ _ = false

-- A parameter stands for any text that is not empty and has no slash.
abbrev pub fits : List Segment → List String → Bool
fits [] [] = true
fits (lit s ∷ path) (part ∷ parts) = str_eq s part && fits path parts
fits (param name ∷ path) (part ∷ parts) = not (str_eq part "") && fits path parts
fits _ _ = false

abbrev pub matches : Method → List String → Route → Bool
matches method parts r = same_method r.method method && fits r.path parts
