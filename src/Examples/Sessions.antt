-- ===== src/Examples/Sessions.antt =====
-- Logins, sessions and the throttle of src/web/auth.rs, at small inputs.
use netix_republisher.Prelude.{
  [], arith, false, length, nat_eq, none, refl, some, string_eq, true, ℕ, ◌∷◌, ◌≡◌, ◌≤◌,
}
use netix_republisher.Examples.Toy.{toy_argon, toy_auth, toy_world}
use netix_republisher.Auth.{
  IpAddr, check_session, ip_eq, login_max_failures, seconds, session_cookie,
  session_from_cookie_header, session_pair, throttled, v4, verify_password,
}
use netix_republisher.Dict.{lookup}
use netix_republisher.Text.{is_empty_text, is_whitespace, split_once, trim, trim_end, trim_start}
use netix_republisher.Text.Parts.{IsSolid}
use netix_republisher.Auth.Sessions.{
  SessionHistory, check, check_session_history, create, remove_token, session_run,
}
use netix_republisher.Auth.Throttle.{
  ThrottleHistory, asks, fails, recent_failures, throttle_run, throttled_history,
}
use netix_republisher.Auth.Cookie.{cookie_header, cookie_pair, cookie_round_trip}
use netix_republisher.Api.Session.{check_cookie, login}
use netix_republisher.Api.Session.Laws.{login-check_cookie}
use netix_republisher.Api.Session.Attempts.{LoginCall, login_run, login_run_lem}

-- One session a minute old, another that was removed.
abbrev session_calls : SessionHistory
session_calls =
    (seconds 60, check "abc")
    ∷ (seconds 50, remove_token "xyz")
    ∷ (seconds 40, create "abc")
    ∷ (seconds 30, create "xyz")
    ∷ []

check_session_history_example :
    (check_session "abc" (seconds 100) (session_run session_calls toy_auth)).0 ≡ true
check_session_history_example =
    check_session_history (seconds 100) "abc" session_calls toy_auth refl (ground arith)

abbrev one_host : IpAddr
one_host = v4 3232235777

abbrev throttle_calls : ThrottleHistory
throttle_calls =
    (seconds 20, asks one_host) ∷ (seconds 10, fails one_host) ∷ (seconds 5, fails (v4 1)) ∷ []

throttled_history_example :
    (throttled one_host (seconds 30) (throttle_run throttle_calls toy_auth)).0 ≡ false
throttled_history_example =
    throttled_history (seconds 30) one_host throttle_calls toy_auth refl (ground arith)

token-IsSolid : IsSolid "tok123"
unfolding is_whitespace
token-IsSolid = ground arith

theme-session_pair : session_pair "theme=dark" ≡ none
unfolding session_pair trim trim_start trim_end split_once is_empty_text is_whitespace
theme-session_pair = refl

calm_start : (throttled one_host (seconds 1) toy_auth).0 ≡ false
unfolding throttled lookup
calm_start = refl

right_password : verify_password toy_argon toy_auth "hunter2" ≡ true
unfolding verify_password
right_password = refl

cookie_round_trip_example :
    session_from_cookie_header
      (cookie_header ("theme=dark" ∷ cookie_pair (session_cookie toy_auth "tok123") ∷ []))
    ≡ some "tok123"
cookie_round_trip_example =
    cookie_round_trip toy_auth "tok123" ("theme=dark" ∷ []) [] (ground arith) token-IsSolid
      (ground arith, tt) tt (theme-session_pair, tt)

login-check_cookie_example :
    let cookie = session_cookie toy_auth "tok123" in
    let sent = cookie_header ("theme=dark" ∷ cookie_pair cookie ∷ []) in
    let (reply, w') =
      login toy_argon (λ s. true) one_host "hunter2" "tok123" (seconds 1) toy_world in
    (reply.status ≡ 200)
    × (reply.set_cookie ≡ some cookie)
    × (check_cookie (some sent) (seconds 2) w'.auth ≡ (true, w'.auth))
login-check_cookie_example =
    login-check_cookie toy_argon (λ s. true) one_host "hunter2" "tok123" (seconds 1)
      ("theme=dark" ∷ []) [] (seconds 2) toy_world refl calm_start right_password refl
      (ground arith) token-IsSolid (ground arith, tt) tt (theme-session_pair, tt) (omega arith)

abbrev guess : ℕ → LoginCall
guess at = record { at = seconds at; ip = one_host; password = "guess"; token = "unused" }

login_run_lem_example :
    length (
      recent_failures
        (seconds 9)
        one_host
        (login_run toy_argon (λ s. true) (guess 3 ∷ guess 2 ∷ guess 1 ∷ []) toy_world).0)
    ≤ login_max_failures
login_run_lem_example =
    login_run_lem toy_argon (λ s. true) toy_world refl (guess 3 ∷ guess 2 ∷ guess 1 ∷ [])
      (seconds 9) one_host refl (ground arith) (ground arith)
