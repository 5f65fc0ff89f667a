-- ===== src/Api/Session.antt =====
-- src/web/api.rs: logging in and out. `cookie` is the request's Cookie header, where it has one
-- that is text; `is_header_value` tells which texts may stand in a header.
pub mod Laws
pub mod Attempts
pub mod Concurrent
use netix_republisher.Prelude.{
  Bool, Option, String, [], and_then, false, if◌then◌else◌, none, not, some, true, ℕ, ◌∷◌,
}
use netix_republisher.Json.{Json, bool, object, str}
use netix_republisher.State.{World}
use netix_republisher.Auth.{
  Argon2, Auth, IpAddr, check_session, clear_cookie, create_session, record_failure, remove_session,
  session_cookie, session_from_cookie_header, throttled, verify_password,
}
use netix_republisher.Api.{ok_json}

pub record Reply : Type 0 where
  pub status : ℕ
  pub set_cookie : Option String
  pub body : Json

abbrev pub refusal : ℕ → String → Reply
refusal status message = record {
  status = status;
  set_cookie = none;
  body = object (("error", str message) ∷ []);
}

abbrev pub success : Option String → Reply
success set_cookie = record { status = 200; set_cookie = set_cookie; body = ok_json }

abbrev pub with_auth : {I : Type 0} → World I → Auth → World I
with_auth w auth = record w { auth = auth }

-- The session token of a request, and whether it is good; an expired one is dropped on the way.
unfoldable pub check_cookie : (cookie : Option String) (now : ℕ) → Auth → Bool × Auth
check_cookie cookie now auth = elim (and_then cookie session_from_cookie_header) [
  | none ↦ (false, auth)
  | some token ↦ check_session token now auth
]

session_json : Bool → Bool → Json
session_json required authenticated =
    object (("auth_required", bool required) ∷ ("authenticated", bool authenticated) ∷ [])

module _ {I : Type 0} where
  -- With no login required the cookie is not looked at.
  unfoldable pub session_info : (cookie : Option String) (now : ℕ) → World I → Json × World I
  unfolding check_cookie session_json
  session_info cookie now w =
      if not w.auth.required
      then (session_json false true, w)
      else let (good, auth) = check_cookie cookie now w.auth in
        (session_json true good, with_auth w auth)

  -- A new session, with its cookie.
  unfoldable pub grant :
      (is_header_value : String → Bool) (token : String) (now : ℕ) → World I → Reply × World I
  grant is_header_value token now w =
      let auth = create_session token now w.auth in
      let cookie = session_cookie auth token in
      (success (if is_header_value cookie then some cookie else none), with_auth w auth)

  module _ (argon : Argon2) (is_header_value : String → Bool) where
    -- The end of a login that was not throttled.
    unfoldable pub judge : IpAddr → String → (token : String) (now : ℕ) → World I → Reply × World I
    unfolding grant
    judge ip password token now w =
        if verify_password argon w.auth password
        then grant is_header_value token now w
        else (refusal 401 "invalid password", with_auth w (record_failure ip now w.auth))

    unfoldable pub login : IpAddr → String → (token : String) (now : ℕ) → World I → Reply × World I
    unfolding judge
    login ip password token now w =
        if not w.auth.required
        then (success none, w)
        else let (blocked, auth) = throttled ip now w.auth in
          let judged = judge ip password token now (with_auth w auth) in
          if blocked
          then (refusal 429 "too many attempts; retry later", with_auth w auth)
          else judged

  unfoldable pub logout :
      (is_header_value : String → Bool) (cookie : Option String) → World I → Reply × World I
  logout is_header_value cookie w =
      let auth : Auth = elim (and_then cookie session_from_cookie_header) [
        | none ↦ w.auth
        | some token ↦ remove_session token w.auth
      ] in
      let cleared = clear_cookie auth in
      (success (if is_header_value cleared then some cleared else none), with_auth w auth)
