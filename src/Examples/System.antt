-- ===== src/Examples/System.antt =====
-- The whole server, and a running daemon, at small requests.
use netix_republisher.Examples.Boot.{eager, toy_registry}
use netix_republisher.Prelude.{
  Bool, Bool-cases, Option, String, [], ap, arith, err, false, get_elem?, if◌then◌else◌, inl, inr,
  map_option, nat_eq, none, ok, refl, some, string_eq, true, ◌∷◌, ◌≡◌,
}
use netix_republisher.Boot.{shut_down, start_world}
use netix_republisher.Auth.{ip_eq, throttled, verify_password}
use netix_republisher.Dict.{lookup}
use netix_republisher.Http.Routes.{Endpoint, Methods, routes}
use netix_republisher.Http.{
  Method, Request, Response, auth_middleware, delete, get, guarded, is_public, patch, post, put,
  security_middleware,
}
use netix_republisher.Text.{is_empty_text, strip_prefix}
use netix_republisher.Api.Session.{check_cookie, login}
use netix_republisher.Http.Anonymous.{IsRouter, Offers}
use netix_republisher.Http.Dispatch.{
  Axum, Moment, Server, dispatch, reply_response, run_endpoint, run_route, serve_request,
}
use netix_republisher.Json.{str}
use netix_republisher.State.{World, new_app, new_world, set_status}
use netix_republisher.Api.Control.{start_republisher, stop_republisher}
use netix_republisher.System.{Reach}
use netix_republisher.System.Invariant.{IsSound}
use netix_republisher.System.Invariant.Steps.{Reach-IsSound}
use netix_republisher.System.Serving.{serve_request-Reach}
use netix_republisher.System.Calm.{stop_flags}
use netix_republisher.System.Stopping.{Reach-stop}
use netix_republisher.Examples.Toy.{toy_app, toy_argon, toy_auth, toy_engine, toy_world}
use netix_republisher.Examples.Requests.{read_state}
use netix_republisher.System.Tables.{HasMaps}

abbrev rejected : Response
rejected = record { status = 422; headers = []; body = str "no body" }

abbrev same : Method → Method → Bool
same get get = true
same post post = true
same put put = true
same patch patch = true
same delete delete = true
same _ _ = false

abbrev select : Method → Methods → Option Endpoint
select method [] = none
select method ((m, endpoint) ∷ methods) =
    let rest = select method methods in if same method m then some endpoint else rest

select-Offers :
    (method : Method) (methods : Methods) (endpoint : Endpoint)
    → select method methods ≡ some endpoint
    → Offers endpoint methods
select-Offers method [] endpoint h = ground (arith, h)
select-Offers method ((m, k) ∷ methods) endpoint h = elim (Bool-cases (same method m)) [
  | inl hit ↦ inl (ground (arith, h, hit))
  | inr other ↦ inr (select-Offers method methods endpoint (ground (arith, h, other)))
]

-- Bodies are not read here.
abbrev pub toy_axum : Axum
toy_axum = record {
  find_route = λ table path. map_option (λ methods. (methods, [])) (lookup path table);
  select = select;
  finish = λ method response. response;
  path_index = λ params. ok 0;
  protocol_req = λ request. err rejected;
  connection_req = λ request. err rejected;
  point_req = λ request. err rejected;
  toggle_req = λ request. err rejected;
  settings_req = λ request. err rejected;
  login_req = λ request. ok (record { password = request.payload });
  method_not_allowed = λ methods. record rejected { status = 405 };
}

pub toy_axum-IsRouter : IsRouter toy_axum
toy_axum-IsRouter = record {
  finds = λ path methods _ h. ap (map_option (λ methods. (methods, []))) h;
  selects = select-Offers;
}

abbrev pub toy_server : Server String
toy_server = record {
  app = toy_app;
  argon = toy_argon;
  axum = toy_axum;
  is_header_value = λ text. true;
  include = λ name. name;
}

abbrev pub toy_moment : Moment
toy_moment = record { now = 5; token = "tok123"; interfaces = [] }

abbrev pub wrong_login : Request
wrong_login = record read_state {
  method = post;
  path = "/api/session";
  origin = none;
  payload = "guess";
}

-- A wrong password leaves a failure on record, and a reading of the state is refused.
served :
    ((serve_request toy_server toy_moment wrong_login toy_world).0.status ≡ 401)
    × ((serve_request toy_server toy_moment read_state toy_world).0.status ≡ 401)
    × ((serve_request toy_server toy_moment
          (record read_state { path = "/healthz" })
          toy_world).0.status
        ≡ 200)
unfolding serve_request guarded security_middleware strip_prefix auth_middleware dispatch run_route
    run_endpoint login reply_response is_public routes throttled lookup verify_password check_cookie
served = (refl, refl, refl)

serve_request-Reach_example :
    Reach toy_server toy_world (serve_request toy_server toy_moment wrong_login toy_world).1
serve_request-Reach_example = serve_request-Reach toy_server toy_moment wrong_login toy_world

-- A boot that starts the republisher by itself.
abbrev booted : World String
booted = start_world toy_engine toy_registry "/data/config.toml" eager toy_auth "ready"

abbrev toy_maps : HasMaps true toy_auth
toy_maps = record { requires = refl; sessions = tt; failures = tt }

Reach-IsSound_example : IsSound true (serve_request toy_server toy_moment wrong_login booted).1
Reach-IsSound_example =
    Reach-IsSound toy_engine toy_registry "/data/config.toml" eager toy_auth "ready" toy_server
      toy_maps (serve_request-Reach toy_server toy_moment wrong_login booted)

Reach-stop_example :
    (get_elem? (stop_republisher toy_app booted).1.flags 0 ≡ some true)
    × (get_elem? (shut_down toy_app booted).flags 0 ≡ some true)
unfolding stop_flags start_world new_world is_empty_text start_republisher new_app set_status
Reach-stop_example =
    Reach-stop toy_engine toy_registry "/data/config.toml" eager toy_auth "ready" toy_server
      toy_maps Reach.here 0 [] refl 0
