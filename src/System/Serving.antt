-- ===== src/System/Serving.antt =====
-- A request through the layers and the table of routes, as steps of the running daemon.
use netix_republisher.Prelude.{Eq, List, Option, Option-cases, String, arith, inl, inr, none, some}
use netix_republisher.Http.{Request, auth_middleware, guarded, security_middleware}
use netix_republisher.Http.Dispatch.{
  Moment, Server, dispatch, run_endpoint, run_route, run_selected, serve_request,
}
use netix_republisher.Http.Routes.{Endpoint, Methods, routes}
use netix_republisher.State.{World}
use netix_republisher.Api.Session.{check_cookie, with_auth}
use netix_republisher.System.{Reach, Step}

module _ {I : Type 0} ⦃e : Eq I⦄ (server : Server I) (moment : Moment) (request : Request) where
  Reach-one : {w v : World I} → Step server w v → Reach server w v
  Reach-one step = Reach.next Reach.here step

  run_endpoint-Reach :
      (w : World I) (params : List String) (endpoint : Endpoint)
      → Reach server w (run_endpoint server moment params request endpoint w).1
  run_endpoint-Reach w params endpoint = Reach-one (Step.serves moment params request endpoint w)

  run_route-Reach :
      (w : World I) (found : Option (Methods × List String))
      → Reach server w (run_route server moment request found w).1
  unfolding run_route run_selected
  run_route-Reach w none = Reach.here
  run_route-Reach w (some (methods, params)) =
      let stay : Reach server w w = Reach.here in
      elim (Option-cases (server.axum.select request.method methods)) [
        | inl refused ↦ ground (arith, refused, stay)
        | inr (endpoint, found) ↦ ground (arith, found, run_endpoint-Reach w params endpoint)
      ]

  dispatch-Reach : (w : World I) → Reach server w (dispatch server moment request w).1
  unfolding dispatch
  dispatch-Reach w = run_route-Reach w (server.axum.find_route routes request.path)

  Reach-trans : {u v w : World I} → Reach server u v → Reach server v w → Reach server u w
  Reach-trans r Reach.here = r
  Reach-trans r (Reach.next q step) = Reach.next (Reach-trans r q) step

  -- Whatever a request asks, serving it is a sequence of steps of the daemon.
  pub serve_request-Reach : (w : World I) → Reach server w (serve_request server moment request w).1
  unfolding serve_request guarded security_middleware auth_middleware
  serve_request-Reach w =
      let stay : Reach server w w = Reach.here in
      let checked = with_auth w (check_cookie request.cookie moment.now w.auth).1 in
      let asked : Reach server w checked = Reach-one (Step.checks request.cookie moment.now w) in
      ground (arith, stay, asked, dispatch-Reach w, Reach-trans asked (dispatch-Reach checked))
