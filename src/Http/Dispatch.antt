-- ===== src/Http/Dispatch.antt =====
-- What the routes of src/web/mod.rs run. Finding the route of a path and the endpoint of a method,
-- reading a path's index or a JSON body, and the answer to a wrong method are axum's: `Axum`.
-- Headers that axum adds by itself are left out.
use netix_republisher.Prelude.{
  Bool, Eq, List, Option, Result, String, [], err, none, ok, some, ℕ, ◌∷◌,
}
use netix_republisher.Api.{ApiError, Handler}
use netix_republisher.Api.Control.{start_republisher, stop_republisher}
use netix_republisher.Api.Discovery.{
  browse_device, discover, poll_once, scan_all, set_connection, set_protocol,
}
use netix_republisher.Api.Points.{
  PointReq, add_browsed_point, clear_points, delete_point, save_point, toggle_point,
}
use netix_republisher.Api.Reads.{
  Interface, get_capabilities, get_config, get_interfaces, get_logs, get_points, get_state,
  get_status, health,
}
use netix_republisher.Api.Session.{Reply, logout, session_info, login}
use netix_republisher.Api.Settings.{SettingsReq, put_settings}
use netix_republisher.Auth.{Argon2}
use netix_republisher.Http.{Method, Request, Response, Service, error_response, guarded}
use netix_republisher.Http.Assets.{
  app_js, favicon, favicon_png, glyph_png, index, logo_dark_png, logo_png, style_css,
}
use netix_republisher.Http.Routes.{
  ConnectionReq, Endpoint, LoginReq, Methods, ProtocolReq, ToggleReq, routes,
}
use netix_republisher.Json.{Json, str}
use netix_republisher.State.{App, World}
use netix_republisher.State.Views.{snapshot_json}

-- `find_route` gives the methods of a path and its parameters, `select` the endpoint that a method
-- runs, and `finish` what is sent of its response. An extractor gives a value, or the response that
-- refuses the request.
pub record Axum : Type 0 where
  pub find_route : List (String × Methods) → (path : String) → Option (Methods × List String)
  pub select : Method → Methods → Option Endpoint
  pub finish : Method → Response → Response
  pub path_index : List String → Result ℕ Response
  pub protocol_req : Request → Result ProtocolReq Response
  pub connection_req : Request → Result ConnectionReq Response
  pub point_req : Request → Result PointReq Response
  pub toggle_req : Request → Result ToggleReq Response
  pub settings_req : Request → Result SettingsReq Response
  pub login_req : Request → Result LoginReq Response
  pub method_not_allowed : Methods → Response

-- What a call reads from outside: the clock, the token that it would draw, the interfaces.
pub record Moment : Type 0 where
  pub now : ℕ
  pub token : String
  pub interfaces : List Interface

-- What stays the same while the server runs.
pub record Server (I : Type 0) : Type 0 where
  pub app : App I
  pub argon : Argon2
  pub axum : Axum
  pub is_header_value : String → Bool
  pub include : String → String

abbrev pub plain_response : ℕ → Json → Response
plain_response status body = record { status = status; headers = []; body = body }

unfoldable pub api_response : Result Json ApiError → Response
api_response (ok body) = plain_response 200 body
api_response (err e) = error_response e.status e.message

unfoldable pub reply_response : Reply → Response
reply_response reply = record {
  status = reply.status;
  headers = elim reply.set_cookie [ none ↦ [] | some cookie ↦ ("set-cookie", cookie) ∷ [] ];
  body = reply.body;
}

-- What an endpoint does behind its extractors.
abbrev pub Serve : Type 0 → Type 0
Serve I = World I → Response × World I

module _ {I : Type 0} where
  abbrev pub answer : Response → Serve I
  answer response w = (response, w)

  unfoldable pub handle : Handler I → Serve I
  unfolding api_response
  handle handler w = let (r, w') = handler w in (api_response r, w')

  abbrev pub handle_reply : (World I → Reply × World I) → Serve I
  handle_reply f w = let (r, w') = f w in (reply_response r, w')

  -- An extractor before a handler.
  abbrev pub extract : {A : Type 0} → Result A Response → (A → Serve I) → Serve I
  extract (ok a) f = f a
  extract (err rejected) f = answer rejected

module _ {I : Type 0} ⦃e : Eq I⦄ (server : Server I) (moment : Moment) (params : List String)
    (request : Request) where
  -- The stream of events begins with the snapshot; `sse_events` is the whole of it.
  unfoldable pub run_endpoint : Endpoint → Serve I
  unfolding handle reply_response
  run_endpoint Endpoint.health = answer (plain_response 200 (str health))
  run_endpoint Endpoint.index = answer (index server.include)
  run_endpoint Endpoint.app_js = answer (app_js server.include)
  run_endpoint Endpoint.style_css = answer (style_css server.include)
  run_endpoint Endpoint.favicon = answer (favicon server.include)
  run_endpoint Endpoint.favicon_png = answer (favicon_png server.include)
  run_endpoint Endpoint.logo_png = answer (logo_png server.include)
  run_endpoint Endpoint.logo_dark_png = answer (logo_dark_png server.include)
  run_endpoint Endpoint.glyph_png = answer (glyph_png server.include)
  run_endpoint Endpoint.get_state = handle (get_state server.app)
  run_endpoint Endpoint.get_status = handle (get_status server.app)
  run_endpoint Endpoint.get_capabilities = handle (get_capabilities server.app)
  run_endpoint Endpoint.get_config = handle (get_config server.app)
  run_endpoint Endpoint.put_settings =
      extract (server.axum.settings_req request) (λ req. handle (put_settings server.app req))
  run_endpoint Endpoint.set_protocol =
      extract (server.axum.protocol_req request) (λ req. handle (set_protocol server.app req.id))
  run_endpoint Endpoint.set_connection =
      extract (server.axum.connection_req request)
        (λ req. handle (set_connection server.app req.values))
  run_endpoint Endpoint.get_interfaces = handle (get_interfaces server.app moment.interfaces)
  run_endpoint Endpoint.discover = handle (discover server.app)
  run_endpoint Endpoint.browse_device =
      extract (server.axum.path_index params) (λ i. handle (browse_device server.app i))
  run_endpoint Endpoint.scan_all = handle (scan_all server.app)
  run_endpoint Endpoint.poll_once = handle (poll_once server.app)
  run_endpoint Endpoint.get_points = handle (get_points server.app)
  run_endpoint Endpoint.save_point =
      extract (server.axum.point_req request) (λ req. handle (save_point server.app req))
  run_endpoint Endpoint.clear_points = handle (clear_points server.app)
  run_endpoint Endpoint.delete_point =
      extract (server.axum.path_index params) (λ i. handle (delete_point server.app i))
  run_endpoint Endpoint.toggle_point = extract (server.axum.path_index params) (λ i.
      extract (server.axum.toggle_req request)
        (λ req. handle (toggle_point server.app i req.enabled)))
  run_endpoint Endpoint.add_browsed_point =
      extract (server.axum.path_index params) (λ i. handle (add_browsed_point server.app i))
  run_endpoint Endpoint.start_republisher = handle (start_republisher server.app)
  run_endpoint Endpoint.stop_republisher = handle (stop_republisher server.app)
  run_endpoint Endpoint.get_logs = handle (get_logs server.app)
  run_endpoint Endpoint.sse_events =
      λ w. (plain_response 200 (snapshot_json server.app w.shared), w)
  run_endpoint Endpoint.session_info = λ w.
      let (body, w') = session_info request.cookie moment.now w in (plain_response 200 body, w')
  run_endpoint Endpoint.login = extract (server.axum.login_req request) (λ req.
      handle_reply (
        login server.argon server.is_header_value request.peer req.password moment.token
          moment.now))
  run_endpoint Endpoint.logout = handle_reply (logout server.is_header_value request.cookie)

module _ {I : Type 0} ⦃e : Eq I⦄ (server : Server I) (moment : Moment) (request : Request) where
  unfoldable pub run_selected : Option Endpoint → Methods → (params : List String) → Serve I
  run_selected none methods params w = (server.axum.method_not_allowed methods, w)
  run_selected (some endpoint) methods params w =
      let (response, w') = run_endpoint server moment params request endpoint w in
      (server.axum.finish request.method response, w')

  unfoldable pub run_route : Option (Methods × List String) → Serve I
  unfolding run_selected
  run_route none w = (plain_response 404 (str "not found"), w)
  run_route (some (methods, params)) w =
      run_selected (server.axum.select request.method methods) methods params w

-- The routes behind the layers, and the whole server on one request.
module _ {I : Type 0} ⦃e : Eq I⦄ (server : Server I) (moment : Moment) where
  unfoldable pub dispatch : Service I
  unfolding run_route
  dispatch request = run_route server moment request (server.axum.find_route routes request.path)

  unfoldable pub serve_request : Service I
  unfolding dispatch
  serve_request = guarded moment.now dispatch
