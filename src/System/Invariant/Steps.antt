-- ===== src/System/Invariant/Steps.antt =====
-- Every step of a running daemon keeps the invariant.
use netix_republisher.Prelude.{Bool, Eq, List, Option, Result, String, arith, err, ok, ℕ}
use netix_republisher.Auth.{Argon2, Auth, IpAddr}
use netix_republisher.Boot.{start_world, with_protocol}
use netix_republisher.Config.{AppConfig}
use netix_republisher.Engine.{Engine}
use netix_republisher.Http.{Request, Response}
use netix_republisher.Http.Dispatch.{Moment, Serve, Server, extract, handle, run_endpoint}
use netix_republisher.Http.Routes.{Endpoint}
use netix_republisher.State.{Registry, World, new_app, new_world, push_log}
use netix_republisher.Api.Reads.{
  get_capabilities, get_config, get_logs, get_points, get_state, get_status,
}
use netix_republisher.Api.Session.{check_cookie, grant, logout, session_info, judge, login}
use netix_republisher.System.{Reach, Step}
use netix_republisher.System.Calm.{
  add_browsed_point-Calm, browse_device-Calm, clear_points-Calm, delete_point-Calm, discover-Calm,
  get_interfaces-Calm, poll_once-Calm, put_settings-Calm, save_point-Calm, scan_all-Calm,
  set_connection-Calm, set_protocol-Calm, stop_flags, toggle_point-Calm,
}
use netix_republisher.System.Events.{apply_event-Calm}
use netix_republisher.System.Tables.{
  HasMaps, check_cookie-HasMaps, judge-HasMaps, login-HasMaps, logout-HasMaps, throttled-HasMaps,
}
use netix_republisher.System.Invariant.{
  Calm-IsSound, IsSound, latest, places, shut_down-IsSound, start_republisher-IsSound,
  stop_republisher-IsSound, with_auth-IsSound,
}

module _ {I : Type 0} ⦃e : Eq I⦄ {r : Bool} (w : World I) (s : IsSound r w) where
  extract-IsSound :
      {A : Type 0} (read : Result A Response) (f : A → Serve I)
      → ((a : A) → IsSound r (f a w).1)
      → IsSound r (extract read f w).1
  extract-IsSound (ok a) f h = h a
  extract-IsSound (err rejected) f h = s

  session_info-IsSound :
      (cookie : Option String) (now : ℕ) → IsSound r (session_info cookie now w).1
  unfolding session_info
  session_info-IsSound cookie now = ground (
    arith,
    s,
    with_auth-IsSound w (check_cookie cookie now w.auth).1 s
        (check_cookie-HasMaps w.auth s.tables cookie now),
  )

  login-IsSound :
      (argon : Argon2) (is_header_value : String → Bool) (ip : IpAddr) (password token : String)
      (now : ℕ)
      → IsSound r (login argon is_header_value ip password token now w).1
  unfolding login judge grant
  login-IsSound argon is_header_value ip password token now =
      let tables = login-HasMaps argon is_header_value ip password token now w s.tables in
      ground (arith, s, tables)

  judge-IsSound :
      (argon : Argon2) (is_header_value : String → Bool) (ip : IpAddr) (password token : String)
      (now : ℕ)
      → IsSound r (judge argon is_header_value ip password token now w).1
  unfolding judge grant
  judge-IsSound argon is_header_value ip password token now =
      let tables = judge-HasMaps argon is_header_value ip password token now w s.tables in
      ground (arith, s, tables)

  logout-IsSound :
      (is_header_value : String → Bool) (cookie : Option String)
      → IsSound r (logout is_header_value cookie w).1
  unfolding logout
  logout-IsSound is_header_value cookie =
      with_auth-IsSound w _ s (logout-HasMaps w s.tables is_header_value cookie)

module _ {I : Type 0} ⦃e : Eq I⦄ {r : Bool} (server : Server I) where
  run_endpoint-IsSound :
      (moment : Moment) (params : List String) (request : Request) (endpoint : Endpoint)
      (w : World I)
      → IsSound r w
      → IsSound r (run_endpoint server moment params request endpoint w).1
  unfolding run_endpoint handle get_state get_status get_capabilities get_config get_points get_logs
  run_endpoint-IsSound moment params request Endpoint.health w s = s
  run_endpoint-IsSound moment params request Endpoint.index w s = s
  run_endpoint-IsSound moment params request Endpoint.app_js w s = s
  run_endpoint-IsSound moment params request Endpoint.style_css w s = s
  run_endpoint-IsSound moment params request Endpoint.favicon w s = s
  run_endpoint-IsSound moment params request Endpoint.favicon_png w s = s
  run_endpoint-IsSound moment params request Endpoint.logo_png w s = s
  run_endpoint-IsSound moment params request Endpoint.logo_dark_png w s = s
  run_endpoint-IsSound moment params request Endpoint.glyph_png w s = s
  run_endpoint-IsSound moment params request Endpoint.get_state w s = s
  run_endpoint-IsSound moment params request Endpoint.get_status w s = s
  run_endpoint-IsSound moment params request Endpoint.get_capabilities w s = s
  run_endpoint-IsSound moment params request Endpoint.get_config w s = s
  run_endpoint-IsSound moment params request Endpoint.get_points w s = s
  run_endpoint-IsSound moment params request Endpoint.get_logs w s = s
  run_endpoint-IsSound moment params request Endpoint.sse_events w s = s
  run_endpoint-IsSound moment params request Endpoint.put_settings w s =
      extract-IsSound w s (server.axum.settings_req request) _
        (λ req. Calm-IsSound w _ (put_settings-Calm server.app w req) s)
  run_endpoint-IsSound moment params request Endpoint.set_protocol w s =
      extract-IsSound w s (server.axum.protocol_req request) _
        (λ req. Calm-IsSound w _ (set_protocol-Calm server.app w req.id) s)
  run_endpoint-IsSound moment params request Endpoint.set_connection w s =
      extract-IsSound w s (server.axum.connection_req request) _
        (λ req. Calm-IsSound w _ (set_connection-Calm server.app w req.values) s)
  run_endpoint-IsSound moment params request Endpoint.get_interfaces w s =
      Calm-IsSound w _ (get_interfaces-Calm server.app w moment.interfaces) s
  run_endpoint-IsSound moment params request Endpoint.discover w s =
      Calm-IsSound w _ (discover-Calm server.app w) s
  run_endpoint-IsSound moment params request Endpoint.scan_all w s =
      Calm-IsSound w _ (scan_all-Calm server.app w) s
  run_endpoint-IsSound moment params request Endpoint.poll_once w s =
      Calm-IsSound w _ (poll_once-Calm server.app w) s
  run_endpoint-IsSound moment params request Endpoint.clear_points w s =
      Calm-IsSound w _ (clear_points-Calm server.app w) s
  run_endpoint-IsSound moment params request Endpoint.browse_device w s =
      extract-IsSound w s (server.axum.path_index params) _
        (λ i. Calm-IsSound w _ (browse_device-Calm server.app w i) s)
  run_endpoint-IsSound moment params request Endpoint.delete_point w s =
      extract-IsSound w s (server.axum.path_index params) _
        (λ i. Calm-IsSound w _ (delete_point-Calm server.app w i) s)
  run_endpoint-IsSound moment params request Endpoint.add_browsed_point w s =
      extract-IsSound w s (server.axum.path_index params) _
        (λ i. Calm-IsSound w _ (add_browsed_point-Calm server.app w i) s)
  run_endpoint-IsSound moment params request Endpoint.save_point w s =
      extract-IsSound w s (server.axum.point_req request) _
        (λ req. Calm-IsSound w _ (save_point-Calm server.app w req) s)
  run_endpoint-IsSound moment params request Endpoint.toggle_point w s =
      extract-IsSound w s (server.axum.path_index params) _ (λ i.
        extract-IsSound w s (server.axum.toggle_req request) _
          (λ req. Calm-IsSound w _ (toggle_point-Calm server.app w i req.enabled) s))
  run_endpoint-IsSound moment params request Endpoint.start_republisher w s =
      start_republisher-IsSound server.app w s
  run_endpoint-IsSound moment params request Endpoint.stop_republisher w s =
      stop_republisher-IsSound server.app w s
  run_endpoint-IsSound moment params request Endpoint.session_info w s =
      session_info-IsSound w s request.cookie moment.now
  run_endpoint-IsSound moment params request Endpoint.login w s =
      extract-IsSound w s (server.axum.login_req request) _ (λ req.
        login-IsSound w s server.argon server.is_header_value request.peer req.password moment.token
          moment.now)
  run_endpoint-IsSound moment params request Endpoint.logout w s =
      logout-IsSound w s server.is_header_value request.cookie

  Step-IsSound : {w v : World I} → Step server w v → IsSound r w → IsSound r v
  Step-IsSound (Step.checks cookie now w) s =
      with_auth-IsSound w _ s (check_cookie-HasMaps w.auth s.tables cookie now)
  Step-IsSound (Step.serves moment params request endpoint w) s =
      run_endpoint-IsSound moment params request endpoint w s
  Step-IsSound (Step.asks ip now w) s =
      with_auth-IsSound w _ s (throttled-HasMaps w.auth s.tables ip now)
  Step-IsSound (Step.judges ip password token now w) s =
      judge-IsSound w s server.argon server.is_header_value ip password token now
  Step-IsSound (Step.works event w) s = Calm-IsSound w _ (apply_event-Calm server.app w event) s
  Step-IsSound (Step.stops w) s = shut_down-IsSound server.app w s

  Reach-keeps : {w v : World I} → Reach server w v → IsSound r w → IsSound r v
  Reach-keeps Reach.here s = s
  Reach-keeps (Reach.next r step) s = Step-IsSound step (Reach-keeps r s)

module _ {I : Type 0} ⦃e : Eq I⦄ {r : Bool} (engine : Engine I) (registry : Registry)
    (path : String) (config : AppConfig) (auth : Auth) (status : String) where
  new_world-IsSound :
      (boot : AppConfig) → HasMaps r auth → IsSound r (new_world engine registry boot auth status)
  unfolding new_world push_log stop_flags places latest
  new_world-IsSound boot h = ground (arith, h)

  start_world-IsSound :
      HasMaps r auth → IsSound r (start_world engine registry path config auth status)
  unfolding start_world new_world new_app
  start_world-IsSound h =
      let app = new_app engine registry path in
      let boot = with_protocol registry.ids config in
      let w = new_world engine registry boot auth status in
      let sound = new_world-IsSound boot h in
      ground (arith, sound, start_republisher-IsSound app w sound)

  -- From a start with one entry for each key in the tables of sessions and failures, every state
  -- that requests, logins, events of the worker and the shutdown signal reach, in any order, is
  -- sound: the rings of logs and samples hold at most 500 and 200; the republishers that were
  -- handed to the worker have one stop flag each, numbered as they were started, and the state
  -- keeps the flag of the last one; the tables have one entry for each key; and a login is
  -- required exactly if it was at the start.
  pub Reach-IsSound :
      (server : Server I) {w : World I}
      → HasMaps r auth
      → Reach server (start_world engine registry path config auth status) w
      → IsSound r w
  Reach-IsSound server h r = Reach-keeps server r (start_world-IsSound h)
