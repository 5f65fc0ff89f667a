-- ===== src/System/Tables.antt =====
-- The tables of src/web/auth.rs keep one entry for each key.
use netix_republisher.Prelude.{
  Bool, Option, String, [], arith, nat_eq, string_eq, unwrap_or, ℕ, ◌++◌, ◌∷◌, ◌≡◌,
}
use netix_republisher.Dict.{IsMap, insert, insert-IsMap, lookup, remove-IsMap, retain_mut-IsMap}
use netix_republisher.Auth.{
  Argon2, Auth, IpAddr, check_session, create_session, ip_eq, prune, record_failure, remove_session,
  throttled,
}
use netix_republisher.Api.Session.{
  check_cookie, grant, logout, session_info, with_auth, judge, login,
}
use netix_republisher.State.{World}

-- Whether a login is required is as it was at the start.
pub record HasMaps (required : Bool) (auth : Auth) : Type 0 where
  pub requires : auth.required ≡ required
  pub sessions : IsMap auth.sessions
  pub failures : IsMap auth.failures

module _ {r : Bool} (auth : Auth) (h : HasMaps r auth) where
  pub check_cookie-HasMaps :
      (cookie : Option String) (now : ℕ) → HasMaps r (check_cookie cookie now auth).1
  unfolding check_cookie check_session
  check_cookie-HasMaps cookie now = grind (arith, h, remove-IsMap)

  pub throttled-HasMaps : (ip : IpAddr) (now : ℕ) → HasMaps r (throttled ip now auth).1
  unfolding throttled
  throttled-HasMaps ip now = grind (arith, h, insert-IsMap)

  record_failure-HasMaps : (ip : IpAddr) (now : ℕ) → HasMaps r (record_failure ip now auth)
  unfolding record_failure
  record_failure-HasMaps ip now =
      let grown = insert ip (unwrap_or (lookup ip auth.failures) [] ++ now ∷ []) auth.failures in
      record {
        requires = h.requires;
        sessions = h.sessions;
        failures = retain_mut-IsMap (prune now) grown (insert-IsMap ip _ auth.failures h.failures);
      }

  create_session-HasMaps : (token : String) (now : ℕ) → HasMaps r (create_session token now auth)
  unfolding create_session
  create_session-HasMaps token now = record {
    requires = h.requires;
    sessions = insert-IsMap token _ _ (retain_mut-IsMap _ auth.sessions h.sessions);
    failures = h.failures;
  }

  remove_session-HasMaps : (token : String) → HasMaps r (remove_session token auth)
  unfolding remove_session
  remove_session-HasMaps token = record {
    requires = h.requires;
    sessions = remove-IsMap token auth.sessions h.sessions;
    failures = h.failures;
  }

module _ {I : Type 0} {r : Bool} (w : World I) (h : HasMaps r w.auth) where
  session_info-HasMaps :
      (cookie : Option String) (now : ℕ) → HasMaps r (session_info cookie now w).1.auth
  unfolding session_info
  session_info-HasMaps cookie now = ground (arith, h, check_cookie-HasMaps w.auth h cookie now)

  pub logout-HasMaps :
      (is_header_value : String → Bool) (cookie : Option String)
      → HasMaps r (logout is_header_value cookie w).1.auth
  unfolding logout
  logout-HasMaps is_header_value cookie = grind (arith, h, remove_session-HasMaps w.auth h)

module _ {I : Type 0} {r : Bool} (argon : Argon2) (is_header_value : String → Bool) (ip : IpAddr)
    (password token : String) (now : ℕ) where
  pub judge-HasMaps :
      (w : World I)
      → HasMaps r w.auth
      → HasMaps r (judge argon is_header_value ip password token now w).1.auth
  unfolding judge grant
  judge-HasMaps w h =
      ground
        (arith, record_failure-HasMaps w.auth h ip now, create_session-HasMaps w.auth h token now)

  pub login-HasMaps :
      (w : World I)
      → HasMaps r w.auth
      → HasMaps r (login argon is_header_value ip password token now w).1.auth
  unfolding login
  login-HasMaps w h =
      let asked = throttled-HasMaps w.auth h ip now in
      ground (arith, h, asked, judge-HasMaps (with_auth w (throttled ip now w.auth).1) asked)
