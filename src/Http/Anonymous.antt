-- ===== src/Http/Anonymous.antt =====
-- What a request without a session can do to the server, through the layers and the table of routes.
use netix_republisher.Dict.{lookup}
use netix_republisher.Prelude.{
  Bool-cases, Eq, List, Option-cases, Result, String, [], arith, err, false, inl, inr, nat_eq, none,
  ok, refl, some, string_eq, subst, true, ◌∷◌, ◌≡◌, ◌⊎◌,
}
use netix_republisher.Http.{
  Method, Request, Response, auth_middleware, guarded, is_public, security_middleware,
}
use netix_republisher.Http.Laws.{SameButLogins, guarded-no_session}
use netix_republisher.Http.Routes.{Endpoint, LoginReq, Methods, routes}
use netix_republisher.Http.Routes.Laws.{AreOpen, is_public-IsOpenRoute, open_endpoint}
use netix_republisher.Http.Dispatch.{
  Axum, Moment, Server, dispatch, extract, handle_reply, run_endpoint, run_route, run_selected,
  serve_request,
}
use netix_republisher.Api.Session.{check_cookie, grant, logout, session_info, login, judge}
use netix_republisher.State.{World}
use netix_republisher.Text.{split_once}
use netix_republisher.Auth.{
  check_session, create_session, ip_eq, record_failure, remove_session, throttled,
}

-- The endpoint stands among the methods.
abbrev pub Offers : Endpoint → Methods → Type 0
Offers endpoint [] = ⊥
Offers endpoint ((m, k) ∷ methods) = (k ≡ endpoint) ⊎ Offers endpoint methods

-- What axum documents: a path without captures, which are written in braces, that stands in the
-- server's table finds the methods that stand with it there and has no parameters; and a request
-- runs an endpoint of its path's methods.
pub record IsRouter (axum : Axum) : Type 0 where
  pub finds :
      (path : String) (methods : Methods)
      → split_once b'{' path ≡ none
      → lookup path routes ≡ some methods
      → axum.find_route routes path ≡ some (methods, [])
  pub selects :
      (method : Method) (methods : Methods) (endpoint : Endpoint)
      → axum.select method methods ≡ some endpoint
      → Offers endpoint methods

Offers-open :
    (methods : Methods) (endpoint : Endpoint)
    → AreOpen methods
    → Offers endpoint methods
    → open_endpoint endpoint ≡ true
Offers-open [] endpoint a h = absurd h
Offers-open ((m, k) ∷ methods) endpoint (a, rest) (inl e) = subst (λ k. open_endpoint k ≡ true) e a
Offers-open ((m, k) ∷ methods) endpoint (a, rest) (inr h) = Offers-open methods endpoint rest h

module _ {I : Type 0} ⦃e : Eq I⦄ (server : Server I) (moment : Moment) (request : Request)
    (w : World I) where
  login-SameButLogins :
      (read : Result LoginReq Response)
      → SameButLogins w
          (extract read
            (λ req. handle_reply (
              login server.argon server.is_header_value request.peer req.password moment.token
                moment.now))
            w).1
  unfolding login judge grant throttled record_failure create_session
  login-SameButLogins (err rejected) = refl
  login-SameButLogins (ok req) = ground arith

  run_endpoint-SameButLogins :
      (params : List String) (endpoint : Endpoint)
      → open_endpoint endpoint ≡ true
      → SameButLogins w (run_endpoint server moment params request endpoint w).1
  unfolding run_endpoint open_endpoint session_info logout check_cookie check_session remove_session
  run_endpoint-SameButLogins params Endpoint.health o = refl
  run_endpoint-SameButLogins params Endpoint.index o = refl
  run_endpoint-SameButLogins params Endpoint.app_js o = refl
  run_endpoint-SameButLogins params Endpoint.style_css o = refl
  run_endpoint-SameButLogins params Endpoint.favicon o = refl
  run_endpoint-SameButLogins params Endpoint.favicon_png o = refl
  run_endpoint-SameButLogins params Endpoint.logo_png o = refl
  run_endpoint-SameButLogins params Endpoint.logo_dark_png o = refl
  run_endpoint-SameButLogins params Endpoint.glyph_png o = refl
  run_endpoint-SameButLogins params Endpoint.session_info o = ground arith
  run_endpoint-SameButLogins params Endpoint.login o =
      login-SameButLogins (server.axum.login_req request)
  run_endpoint-SameButLogins params Endpoint.logout o = ground arith
  run_endpoint-SameButLogins params _ o = ground (arith, o)

  run_route-SameButLogins :
      IsRouter server.axum
      → (methods : Methods) (params : List String) → AreOpen methods
      → SameButLogins w (run_route server moment request (some (methods, params)) w).1
  unfolding run_route run_selected
  run_route-SameButLogins r methods params a =
      elim (Option-cases (server.axum.select request.method methods)) [
        | inl refused ↦ ground (arith, refused)
        | inr (endpoint, found) ↦ ground (
          arith,
          found,
          run_endpoint-SameButLogins params endpoint
              (Offers-open methods endpoint a (r.selects request.method methods endpoint found)),
        )
      ]

  dispatch-SameButLogins :
      IsRouter server.axum
      → is_public request.path request.method ≡ true
      → SameButLogins w (dispatch server moment request w).1
  unfolding dispatch
  dispatch-SameButLogins r public =
      let (methods, literal, found, a) = is_public-IsOpenRoute request.path request.method public in
      rw (r.finds request.path methods literal found) (run_route-SameButLogins r methods [] a)

  -- Where a login is required and axum routes as it documents, a request whose cookie names
  -- no live session changes nothing of the world but the sessions and the failed logins, whatever
  -- its path and method.
  pub serve_request-SameButLogins :
      IsRouter server.axum
      → w.auth.required ≡ true
      → (check_cookie request.cookie moment.now w.auth).0 ≡ false
      → SameButLogins w (serve_request server moment request w).1
  unfolding serve_request guarded security_middleware auth_middleware
  serve_request-SameButLogins r required dead =
      elim (Bool-cases (is_public request.path request.method)) [
        | inl public ↦ ground (arith, public, dispatch-SameButLogins r public)
        | inr private ↦
            let (kept, _) =
              (guarded-no_session moment.now (dispatch server moment) request w required private
                dead).1 in
            ground (arith, kept)
      ]
