-- ===== src/Api/Server/Routes.antt =====
-- internal/api/server.go: `New`, `registerRoutes`, and the endpoints outside `/api/v1`. The router of gin and
-- the embedded files are arguments.
pub mod Taken
use Prim.Native.String.{len, slice}
use gi_con_mon.Common.{
  String, Bool, ℕ, Option, none, some, List, [], ◌∷◌, ◌++◌, map, ◌||◌, not, ltb, if◌then◌else◌,
  str_eq, str_append, ◌≡◌, true, ◌&&◌,
}
use gi_con_mon.Api.Server.Requests.{Response, error_body}

-- The handlers that are registered.
pub data Endpoint : Type 0 where
  ui index health ready metrics : Endpoint
  global_status : Endpoint
  list_targets create_target get_target update_target delete_target : Endpoint
  target_status target_events probe_now silence_target unsilence_target : Endpoint
  list_alerts get_alert ack_alert : Endpoint
  list_probes ws_status : Endpoint

pub record Route : Type 0 where
  pub method : String
  pub path : String
  pub endpoint : Endpoint

-- gin's router: a registration is refused with a panic, or makes the next router.
pub record Router : Type 1 where
  pub State : Type 0
  pub empty : State
  pub handle : Route → State → Option State

-- What gin documents: a path that has a handler for a method is not registered for it again. `has` is what
-- a router has registered.
pub record IsRouter (R : Router) : Type 0 where
  pub has : String → String → R.State → Bool
  pub handle-taken : (r : Route) (s : R.State) → has r.method r.path s ≡ true → R.handle r s ≡ none
  pub has-handle :
      (r : Route) (s s' : R.State) (method path : String)
      → R.handle r s ≡ some s'
      → has method path s' ≡ (str_eq r.method method && str_eq r.path path || has method path s)

abbrev pub get_route : String → Endpoint → Route
get_route path endpoint = record { method = "GET"; path = path; endpoint = endpoint }

abbrev pub post_route : String → Endpoint → Route
post_route path endpoint = record { method = "POST"; path = path; endpoint = endpoint }

abbrev pub put_route : String → Endpoint → Route
put_route path endpoint = record { method = "PUT"; path = path; endpoint = endpoint }

abbrev pub delete_route : String → Endpoint → Route
delete_route path endpoint = record { method = "DELETE"; path = path; endpoint = endpoint }

-- `Group`: the paths of a group stand below its own.
unfoldable pub group : String → List Route → List Route
group base [] = []
group base (r ∷ rs) = record r { path = str_append base r.path } ∷ group base rs

abbrev pub ui_routes : List Route
ui_routes = get_route "/" ui ∷ get_route "/app.js" ui ∷ []

abbrev pub system_routes : List Route
system_routes =
    get_route "/" index
    ∷ get_route "/health" health
    ∷ get_route "/ready" ready
    ∷ get_route "/metrics" metrics
    ∷ []

abbrev pub target_routes : List Route
target_routes =
    get_route "" list_targets
    ∷ post_route "" create_target
    ∷ get_route "/:id" get_target
    ∷ put_route "/:id" update_target
    ∷ delete_route "/:id" delete_target
    ∷ get_route "/:id/status" target_status
    ∷ get_route "/:id/events" target_events
    ∷ post_route "/:id/probe" probe_now
    ∷ post_route "/:id/silence" silence_target
    ∷ delete_route "/:id/silence" unsilence_target
    ∷ []

abbrev pub alert_routes : List Route
alert_routes =
    get_route "" list_alerts ∷ get_route "/:id" get_alert ∷ post_route "/:id/ack" ack_alert ∷ []

-- The group `/api/v1`.
unfoldable pub api_routes : List Route
unfolding group
api_routes = group "/api/v1" (
    get_route "/status" global_status
    ∷ (group "/targets" target_routes
        ++ (group "/alerts" alert_routes
            ++ get_route "/probes" list_probes ∷ get_route "/ws/status" ws_status ∷ [])))

module _ (R : Router) where
  -- Registrations one behind the other; a panic ends them.
  unfoldable pub register_all : List Route → R.State → Option R.State
  register_all [] s = some s
  register_all (r ∷ rs) s = elim (R.handle r s) [ none ↦ none | some s' ↦ register_all rs s' ]

  -- `registerRoutes`
  unfoldable pub register_routes : R.State → Option R.State
  unfolding register_all api_routes
  register_routes s = register_all (ui_routes ++ (system_routes ++ api_routes)) s

-- What `NoRoute` does with a path that no route has: it serves the web page, or answers 404.
pub data Fallback (F : Type 0) : Type 0 where
  serve_ui : String → Fallback F
  answer : Response F → Fallback F

-- The file that `buildUIHandler` serves for a path, which `Open` finds or not.
unfoldable pub ui_path : (String → Bool) → String → String
ui_path opens path = if opens path then path else "/"

-- The function given to `NoRoute`
unfoldable pub no_route : {F : Type 0} → (String → Bool) → String → Fallback F
unfolding ui_path
no_route opens path =
    if ltb (len path) 4 || not (str_eq (slice path 0 4) "/api")
    then serve_ui (ui_path opens path)
    else answer (record { code = 404; body = error_body "NOT_FOUND" "endpoint not found" })

-- The fields of the JSON that `handleHealth` and `handleReady` answer with 200, and the text of
-- `handleMetrics`.
abbrev pub health_fields : String → List (String × String)
health_fields version = ("status", "ok") ∷ ("version", version) ∷ []

abbrev pub ready_fields : List (String × String)
ready_fields = ("status", "ready") ∷ []

abbrev pub metrics_text : String
metrics_text = "# conMon metrics\n"
