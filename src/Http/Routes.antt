-- ===== src/Http/Routes.antt =====
-- `router` of src/web/mod.rs: the table of routes, each path with its methods and endpoints.
pub mod Laws
use netix_republisher.Prelude.{Bool, List, String, [], ◌∷◌}
use netix_republisher.Dict.{Dict}
use netix_republisher.Http.{Method, delete, get, patch, post, put}
use netix_republisher.Text.{◌<>◌}

-- The bodies of requests, as serde reads them.
pub record ProtocolReq : Type 0 where
  pub id : String

pub record ConnectionReq : Type 0 where
  pub values : Dict String String

pub record ToggleReq : Type 0 where
  pub enabled : Bool

pub record LoginReq : Type 0 where
  pub password : String

pub data Endpoint : Type 0 where
  health index app_js style_css favicon favicon_png logo_png logo_dark_png glyph_png : Endpoint
  get_state get_status get_capabilities get_config put_settings set_protocol : Endpoint
  set_connection get_interfaces discover browse_device scan_all poll_once : Endpoint
  get_points save_point clear_points delete_point toggle_point add_browsed_point : Endpoint
  start_republisher stop_republisher get_logs sse_events session_info login logout : Endpoint

-- The methods of a path, each with its endpoint.
abbrev pub Methods : Type 0
Methods = List (Method × Endpoint)

abbrev pub only : Method → Endpoint → Methods
only method endpoint = (method, endpoint) ∷ []

-- `nest("/api", …)`
nest : String → List (String × Methods) → List (String × Methods)
nest prefix [] = []
nest prefix ((path, methods) ∷ table) = (prefix <> path, methods) ∷ nest prefix table

api_routes : List (String × Methods)
api_routes =
    ("/state", only get Endpoint.get_state)
    ∷ ("/status", only get Endpoint.get_status)
    ∷ ("/capabilities", only get Endpoint.get_capabilities)
    ∷ ("/config", only get Endpoint.get_config)
    ∷ ("/settings", only put Endpoint.put_settings)
    ∷ ("/protocol", only post Endpoint.set_protocol)
    ∷ ("/connection", only put Endpoint.set_connection)
    ∷ ("/interfaces", only get Endpoint.get_interfaces)
    ∷ ("/discover", only post Endpoint.discover)
    ∷ ("/devices/{index}/browse", only post Endpoint.browse_device)
    ∷ ("/scan-all", only post Endpoint.scan_all)
    ∷ ("/poll-once", only post Endpoint.poll_once)
    ∷ (
      "/points",
      (get, Endpoint.get_points)
          ∷ (post, Endpoint.save_point)
          ∷ (delete, Endpoint.clear_points)
          ∷ [],
    )
    ∷ ("/points/{index}", (delete, Endpoint.delete_point) ∷ (patch, Endpoint.toggle_point) ∷ [])
    ∷ ("/browsed/{index}/add", only post Endpoint.add_browsed_point)
    ∷ ("/republisher/start", only post Endpoint.start_republisher)
    ∷ ("/republisher/stop", only post Endpoint.stop_republisher)
    ∷ ("/logs", only get Endpoint.get_logs)
    ∷ ("/events", only get Endpoint.sse_events)
    ∷ (
      "/session",
      (get, Endpoint.session_info) ∷ (post, Endpoint.login) ∷ (delete, Endpoint.logout) ∷ [],
    )
    ∷ []

unfoldable pub routes : List (String × Methods)
unfolding nest api_routes
routes =
    ("/healthz", only get Endpoint.health)
    ∷ ("/", only get Endpoint.index)
    ∷ ("/app.js", only get Endpoint.app_js)
    ∷ ("/style.css", only get Endpoint.style_css)
    ∷ ("/favicon.svg", only get Endpoint.favicon)
    ∷ ("/favicon.png", only get Endpoint.favicon_png)
    ∷ ("/logo.png", only get Endpoint.logo_png)
    ∷ ("/logo-dark.png", only get Endpoint.logo_dark_png)
    ∷ ("/glyph.png", only get Endpoint.glyph_png)
    ∷ nest "/api" api_routes
