-- ===== src/Api/Session/Laws.antt =====
-- What a login gives, and how many wrong passwords an address may try.
use netix_republisher.Prelude.{
  All, Bool, List, String, arith, beq_self, false, if◌then◌else◌, ltb, none, refl, some, string_eq,
  true, ℕ, ◌++◌, ◌+◌, ◌<◌, ◌∙◌, ◌∷◌, ◌≡◌,
}
use netix_republisher.Auth.{
  Argon2, Auth, IpAddr, check_session, create_session, session_cookie, session_from_cookie_header,
  session_pair, session_ttl, throttled, verify_password,
}
use netix_republisher.Api.Session.{check_cookie, grant, with_auth, login, judge}
use netix_republisher.Text.Parts.{IsSolid, Lacks}
use netix_republisher.Auth.Cookie.{cookie_header, cookie_pair, cookie_round_trip}
use netix_republisher.Dict.{lookup-insert, retain_mut}
use netix_republisher.State.{World}

check_session-create_session :
    (token : String) (now later : ℕ) (auth : Auth)
    → later < now + session_ttl
    → check_session token later (create_session token now auth)
      ≡ (true, create_session token now auth)
unfolding check_session create_session
check_session-create_session token now later auth before =
    let live =
      retain_mut ⦃e = string_eq⦄ (λ expiry. if ltb now expiry then some expiry else none)
        auth.sessions in
    ground (arith, before, lookup-insert token token (now + session_ttl) live, beq_self token)

-- Whether the throttle asks does not matter to the credential.
verify_password-throttled :
    (argon : Argon2) (ip : IpAddr) (now : ℕ) (auth : Auth) (password : String)
    → verify_password argon (throttled ip now auth).1 password ≡ verify_password argon auth password
unfolding verify_password throttled
verify_password-throttled argon ip now auth password = ground arith

pub check_cookie-token :
    (cookie token : String) (now : ℕ) (auth : Auth)
    → session_from_cookie_header cookie ≡ some token
    → check_cookie (some cookie) now auth ≡ check_session token now auth
unfolding check_cookie
check_cookie-token cookie token now auth h = ground (arith, h)

session_cookie-throttled :
    (ip : IpAddr) (token : String) (now : ℕ) (auth : Auth)
    → session_cookie (create_session token now (throttled ip now auth).1) token
      ≡ session_cookie auth token
unfolding session_cookie throttled create_session
session_cookie-throttled ip token now auth = ground arith

module _ {I : Type 0} (argon : Argon2) (is_header_value : String → Bool) (ip : IpAddr)
    (password token : String) (now : ℕ) where
  login-judge :
      (w : World I)
      → w.auth.required ≡ true
      → (throttled ip now w.auth).0 ≡ false
      → login argon is_header_value ip password token now w
        ≡ judge argon is_header_value ip password token now
            (with_auth w (throttled ip now w.auth).1)
  unfolding login
  login-judge w required calm = ground (arith, required, calm)

  judge-right :
      (w : World I)
      → verify_password argon w.auth password ≡ true
      → judge argon is_header_value ip password token now w ≡ grant is_header_value token now w
  unfolding judge
  judge-right w right = ground (arith, right)

  login-grant :
      (w : World I)
      → w.auth.required ≡ true
      → (throttled ip now w.auth).0 ≡ false
      → verify_password argon w.auth password ≡ true
      → login argon is_header_value ip password token now w
        ≡ grant is_header_value token now (with_auth w (throttled ip now w.auth).1)
  login-grant w required calm right =
      login-judge w required calm
      ∙ judge-right (with_auth w (throttled ip now w.auth).1)
          (verify_password-throttled argon ip now w.auth password ∙ right)

  -- Where a login is required, a right password, not throttled, is answered with a session cookie.
  -- Sent back behind cookies that are not session cookies and before any others, it opens the
  -- session at every time before a day is over; the check changes nothing. The token has no
  -- semicolon and no blank, the other cookies have no semicolon, and the cookie may stand in a
  -- header.
  pub login-check_cookie :
      (before after : List String) (later : ℕ) (w : World I)
      → w.auth.required ≡ true
      → (throttled ip now w.auth).0 ≡ false
      → verify_password argon w.auth password ≡ true
      → is_header_value (session_cookie w.auth token) ≡ true
      → Lacks b';' token
      → IsSolid token
      → All (Lacks b';') before
      → All (Lacks b';') after
      → All (λ p. session_pair p ≡ none) before
      → later < now + session_ttl
      → let cookie = session_cookie w.auth token in
        let sent = cookie_header (before ++ cookie_pair cookie ∷ after) in
        let (reply, w') = login argon is_header_value ip password token now w in
        (reply.status ≡ 200)
        × (reply.set_cookie ≡ some cookie)
        × (check_cookie (some sent) later w'.auth ≡ (true, w'.auth))
  unfolding grant
  login-check_cookie before after later w required calm right sendable lacks solid h k miss day =
      let cookie = session_cookie w.auth token in
      let asked = (throttled ip now w.auth).1 in
      rw (login-grant w required calm right) (
        refl,
        ground (arith, session_cookie-throttled ip token now w.auth, sendable),
        check_cookie-token (cookie_header (before ++ cookie_pair cookie ∷ after)) token later
              (create_session token now asked)
              (cookie_round_trip w.auth token before after lacks solid h k miss)
            ∙ check_session-create_session token now later asked day,
      )
