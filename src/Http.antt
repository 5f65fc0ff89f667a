-- ===== src/Http.antt =====
-- src/web/mod.rs: the routes and the two layers around them.
pub mod Laws
pub mod Origin
pub mod Assets
pub mod Routes
pub mod Dispatch
pub mod Anonymous
use netix_republisher.Prelude.{
  Bool, Option, String, [], false, if◌then◌else◌, nat_eq, none, not, or_else, some, string_eq, true,
  unwrap_or, ℕ, ◌&&◌, ◌==◌, ◌||◌, ◌∷◌,
}
use netix_republisher.Json.{Json, object, str}
use netix_republisher.Auth.{IpAddr, ip_eq}
use netix_republisher.State.{World}
use netix_republisher.Dict.{Dict, insert}
use netix_republisher.Text.{strip_prefix}
use netix_republisher.Api.Session.{check_cookie, with_auth}

pub data Method : Type 0 where
  get head post put patch delete options : Method
  other_method : String → Method

-- A request, by what the layers and the handlers read; headers that are no text count as absent.
pub record Request : Type 0 where
  pub peer : IpAddr
  pub method : Method
  pub path : String
  pub cookie : Option String
  pub host : Option String
  pub origin : Option String
  pub payload : String

pub record Response : Type 0 where
  pub status : ℕ
  pub headers : Dict String String
  pub body : Json

is_static : String → Bool
is_static path =
    path == "/"
    || path == "/app.js"
    || path == "/style.css"
    || path == "/favicon.svg"
    || path == "/favicon.png"
    || path == "/logo.png"
    || path == "/logo-dark.png"
    || path == "/glyph.png"
    || path == "/healthz"

is_session_method : Method → Bool
is_session_method get = true
is_session_method post = true
is_session_method delete = true
is_session_method head = false
is_session_method put = false
is_session_method patch = false
is_session_method options = false
is_session_method (other_method name) = false

-- The paths that need no session.
unfoldable pub is_public : String → Method → Bool
unfolding is_static is_session_method
is_public path method = is_static path || (path == "/api/session" && is_session_method method)

-- GET, HEAD and OPTIONS.
unfoldable pub is_safe_method : Method → Bool
is_safe_method get = true
is_safe_method head = true
is_safe_method options = true
is_safe_method post = false
is_safe_method put = false
is_safe_method patch = false
is_safe_method delete = false
is_safe_method (other_method name) = false

unfoldable pub error_response : ℕ → String → Response
error_response status message = record {
  status = status;
  headers = [];
  body = object (("error", str message) ∷ []);
}

-- What runs behind a layer: the request, at a time, changes the world and is answered.
abbrev pub Service : Type 0 → Type 0
Service I = Request → World I → Response × World I

module _ {I : Type 0} where
  unfoldable pub auth_middleware : (now : ℕ) → Service I → Service I
  unfolding error_response
  auth_middleware now next request w =
      if not w.auth.required || is_public request.path request.method
      then next request w
      else let (good, auth) = check_cookie request.cookie now w.auth in
        if good
        then next request (with_auth w auth)
        else (error_response 401 "authentication required", with_auth w auth)

-- The host that an Origin header names.
unfoldable pub origin_host : String → String
origin_host origin =
    unwrap_or (or_else (strip_prefix "https://" origin) (strip_prefix "http://" origin)) origin

-- A request that changes something, from a page of another host.
unfoldable pub is_cross_origin : Request → Bool
unfolding origin_host
is_cross_origin request = elim request.origin [
  | none ↦ false
  | some origin ↦ elim request.host [ none ↦ true | some host ↦ not (host == origin_host origin) ]
]

abbrev pub content_security_policy : String
content_security_policy =
    "default-src 'self'; img-src 'self' data:; style-src 'self'; script-src 'self'; connect-src 'self'; frame-ancestors 'none'; base-uri 'none'; form-action 'self'"

unfoldable pub secure_headers : Dict String String → Dict String String
secure_headers headers = insert "referrer-policy" "no-referrer" (
    insert "x-frame-options" "DENY" (
      insert "x-content-type-options" "nosniff"
        (insert "content-security-policy" content_security_policy headers)))

module _ {I : Type 0} where
  unfoldable pub security_middleware : Service I → Service I
  unfolding error_response is_safe_method is_cross_origin secure_headers
  security_middleware next request w =
      if not (is_safe_method request.method) && is_cross_origin request
      then (error_response 403 "cross-origin request rejected", w)
      else let (response, w') = next request w in
        (record response { headers = secure_headers response.headers }, w')

  -- The layers as `router` nests them: the security layer outside, the session check inside.
  unfoldable pub guarded : (now : ℕ) → Service I → Service I
  guarded now routes = security_middleware (auth_middleware now routes)
