-- ===== src/Http/Laws.antt =====
-- What the two layers in front of the routes promise, whatever the routes do.
use netix_republisher.Prelude.{
  Bool-cases, Option, Option-cases, String, [], and_then, ap, arith, false, if◌then◌else◌, inl, inr,
  nat_eq, none, not, refl, some, string_eq, true, ℕ, ◌&&◌, ◌==◌, ◌∙◌, ◌≡◌, ◌⊎◌,
}
use netix_republisher.Http.{
  Request, Service, auth_middleware, content_security_policy, error_response, guarded,
  is_cross_origin, is_public, is_safe_method, secure_headers, security_middleware,
}
use netix_republisher.Api.Session.{check_cookie, with_auth}
use netix_republisher.Dict.{Dict, insert, lookup, lookup-insert, lookup-remove, remove}
use netix_republisher.State.{World}
use netix_republisher.Auth.{check_session, ip_eq, session_from_cookie_header}

-- Of the first world the second changes the sessions at most, and it has no session more.
abbrev pub SameButSessions : {I : Type 0} → World I → World I → Type 0
SameButSessions w w' =
    (w' ≡ record w { auth = record w.auth { sessions = w'.auth.sessions } })
    × ((token : String)
        → (lookup token w'.auth.sessions ≡ none)
          ⊎ (lookup token w'.auth.sessions ≡ lookup token w.auth.sessions))

-- Of the first world the second changes the sessions and the failed logins at most.
abbrev pub SameButLogins : {I : Type 0} → World I → World I → Type 0
SameButLogins w w' =
    w'
    ≡ record w { auth = record w.auth { sessions = w'.auth.sessions; failures = w'.auth.failures } }

-- A removal leaves no session that was not there.
remove-shrinks :
    (token other : String) (sessions : Dict String ℕ)
    → (lookup other (remove token sessions) ≡ none)
      ⊎ (lookup other (remove token sessions) ≡ lookup other sessions)
remove-shrinks token other sessions =
    let found = lookup-remove token other sessions in
    elim (Bool-cases (token == other)) [
      | inl same ↦ inl (ground (arith, found, same))
      | inr apart ↦ inr (ground (arith, found, apart))
    ]

check_session-SameButSessions :
    {I : Type 0} (token : String) (now : ℕ) (w : World I)
    → SameButSessions w (with_auth w (check_session token now w.auth).1)
unfolding check_session
check_session-SameButSessions token now w =
    (ground arith, λ other. ground (arith, remove-shrinks token other w.auth.sessions))

check_cookie-SameButSessions :
    {I : Type 0} (cookie : Option String) (now : ℕ) (w : World I)
    → SameButSessions w (with_auth w (check_cookie cookie now w.auth).1)
unfolding check_cookie
check_cookie-SameButSessions cookie now w =
    elim (Option-cases (and_then cookie session_from_cookie_header)) [
      | inl missing ↦ (ground (arith, missing), λ other. ground (arith, missing))
      | inr (token, found) ↦
          let (kept, shrunk) = check_session-SameButSessions token now w in
          (ground (arith, found, kept), λ other. ground (arith, found, shrunk other))
    ]

lookup-secure_headers :
    (headers : Dict String String)
    → let found = λ (name : String). lookup name (secure_headers headers) in
      (found "content-security-policy" ≡ some content_security_policy)
      × (found "x-content-type-options" ≡ some "nosniff")
      × (found "x-frame-options" ≡ some "DENY")
      × (found "referrer-policy" ≡ some "no-referrer")
unfolding secure_headers
lookup-secure_headers headers =
    let with_csp = insert "content-security-policy" content_security_policy headers in
    let with_sniff = insert "x-content-type-options" "nosniff" with_csp in
    let with_frame = insert "x-frame-options" "DENY" with_sniff in
    let last = λ (name : String). lookup-insert "referrer-policy" name "no-referrer" with_frame in
    let third = λ (name : String). lookup-insert "x-frame-options" name "DENY" with_sniff in
    let second =
      λ (name : String). lookup-insert "x-content-type-options" name "nosniff" with_csp in
    let first = λ (name : String).
      lookup-insert "content-security-policy" name content_security_policy headers in
    (
      last "content-security-policy"
          ∙ third "content-security-policy"
          ∙ second "content-security-policy"
          ∙ first "content-security-policy",
      last "x-content-type-options"
          ∙ third "x-content-type-options"
          ∙ second "x-content-type-options",
      last "x-frame-options" ∙ third "x-frame-options",
      last "referrer-policy",
    )

module _ {I : Type 0} (now : ℕ) (routes : Service I) (request : Request) (w : World I) where
  -- Where a login is required, a request for a path that is not public and whose cookie names no
  -- live session is answered 403, where it may change something and comes from another host's page,
  -- and 401 otherwise, whatever the routes are; of the world only the table of sessions may change,
  -- and no session is added to it.
  pub guarded-no_session :
      w.auth.required ≡ true
      → is_public request.path request.method ≡ false
      → (check_cookie request.cookie now w.auth).0 ≡ false
      → let (response, w') = guarded now routes request w in
        (response.status
          ≡ (if not (is_safe_method request.method) && is_cross_origin request then 403 else 401))
        × SameButSessions w w'
  unfolding guarded security_middleware auth_middleware error_response
  guarded-no_session required private dead =
      let (kept, shrunk) = check_cookie-SameButSessions request.cookie now w in
      (
        ground (arith, required, private, dead),
        (
          ground (arith, required, private, dead, kept),
          λ token. ground (arith, required, private, dead, shrunk token),
        ),
      )

  -- A request that may change something and comes from another host's page is answered 403 without
  -- a change, whatever the routes and the session.
  pub guarded-cross_origin :
      is_safe_method request.method ≡ false
      → is_cross_origin request ≡ true
      → guarded now routes request w ≡ (error_response 403 "cross-origin request rejected", w)
  unfolding guarded security_middleware
  guarded-cross_origin unsafe cross = ground (arith, unsafe, cross)

  headers-refused :
      (not (is_safe_method request.method) && is_cross_origin request) ≡ true
      → (guarded now routes request w).0.headers ≡ []
  unfolding guarded security_middleware error_response
  headers-refused refused = rw refused refl

  headers-passed :
      (not (is_safe_method request.method) && is_cross_origin request) ≡ false
      → (guarded now routes request w).0.headers
        ≡ secure_headers (auth_middleware now routes request w).0.headers
  unfolding guarded security_middleware
  headers-passed passed = rw passed refl

  -- The four security headers are on every response but the one that refuses a request from
  -- another host's page: that one has none of them.
  pub guarded-secure_headers :
      let response = (guarded now routes request w).0 in
      let refused = not (is_safe_method request.method) && is_cross_origin request in
      let wanted : String → Option String = λ v. if refused then none else some v in
      (lookup "content-security-policy" response.headers ≡ wanted content_security_policy)
      × (lookup "x-content-type-options" response.headers ≡ wanted "nosniff")
      × (lookup "x-frame-options" response.headers ≡ wanted "DENY")
      × (lookup "referrer-policy" response.headers ≡ wanted "no-referrer")
  unfolding lookup
  guarded-secure_headers =
      let refused = not (is_safe_method request.method) && is_cross_origin request in
      let inner = (auth_middleware now routes request w).0.headers in
      let (csp, sniff, frame, referrer) = lookup-secure_headers inner in
      let found : String → Dict String String → Option String =
        λ name headers. lookup name headers in
      elim (Bool-cases refused) [
        | inl cross ↦ rw cross (
          ap (found "content-security-policy") (headers-refused cross),
          ap (found "x-content-type-options") (headers-refused cross),
          ap (found "x-frame-options") (headers-refused cross),
          ap (found "referrer-policy") (headers-refused cross),
        )
        | inr passed ↦ rw passed (
          ap (found "content-security-policy") (headers-passed passed) ∙ csp,
          ap (found "x-content-type-options") (headers-passed passed) ∙ sniff,
          ap (found "x-frame-options") (headers-passed passed) ∙ frame,
          ap (found "referrer-policy") (headers-passed passed) ∙ referrer,
        )
      ]
