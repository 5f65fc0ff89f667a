-- ===== src/Examples/Requests.antt =====
-- The layers of src/web/mod.rs at small requests.
use netix_republisher.Prelude.{
  String, [], false, nat_eq, none, refl, some, string_eq, true, ◌↔◌, ◌≡◌,
}
use netix_republisher.Auth.{ip_eq, v4}
use netix_republisher.Examples.Toy.{toy_world}
use netix_republisher.Http.{
  Request, Service, get, guarded, is_cross_origin, is_public, is_safe_method, origin_host, post,
}
use netix_republisher.Http.Laws.{SameButSessions, guarded-no_session, guarded-secure_headers}
use netix_republisher.Http.Origin.{Names, is_cross_origin_iff}
use netix_republisher.Json.{bool}
use netix_republisher.Dict.{lookup}
use netix_republisher.Text.{strip_prefix}
use netix_republisher.Api.Session.{check_cookie}

abbrev foreign : Request
foreign = record {
  peer = v4 1;
  method = post;
  path = "/api/discover";
  cookie = none;
  host = some "edge.local";
  origin = some "https://evil.example";
  payload = "";
}

abbrev pub read_state : Request
read_state = record foreign { method = get; path = "/api/state" }

-- Routes that answer everything well.
abbrev routes : Service String
routes request w = (record { status = 200; headers = []; body = bool true }, w)

guarded-no_session_example :
    let (response, w') = guarded 5 routes read_state toy_world in
    (response.status ≡ 401) × SameButSessions toy_world w'
unfolding is_safe_method is_cross_origin is_public check_cookie
guarded-no_session_example = guarded-no_session 5 routes read_state toy_world refl refl refl

guarded-secure_headers_example :
    let response = (guarded 5 routes foreign toy_world).0 in
    (lookup "content-security-policy" response.headers ≡ none)
    × (lookup "x-content-type-options" response.headers ≡ none)
    × (lookup "x-frame-options" response.headers ≡ none)
    × (lookup "referrer-policy" response.headers ≡ none)
unfolding is_safe_method is_cross_origin origin_host strip_prefix
guarded-secure_headers_example = guarded-secure_headers 5 routes foreign toy_world

is_cross_origin_iff_example :
    (is_cross_origin foreign ≡ false) ↔ Names "https://evil.example" "edge.local"
is_cross_origin_iff_example =
    is_cross_origin_iff foreign "https://evil.example" "edge.local" refl refl
