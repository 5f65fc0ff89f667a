-- ===== src/Examples/Logins.antt =====
-- Logins at the same time, at concrete inputs.
use netix_republisher.Prelude.{
  Bool, String, [], arith, length, nat_eq, refl, string_eq, true, ◌+◌, ◌<◌, ◌∷◌, ◌≡◌,
}
use netix_republisher.Auth.{IpAddr, ip_eq, login_max_failures, throttled, v4, verify_password}
use netix_republisher.Api.Session.Concurrent.{Logins, noted, Logins_lem}
use netix_republisher.Api.Session.Concurrent.Burst.{Logins-burst}
use netix_republisher.Auth.Throttle.{ThrottleHistory, asks, fails, recent_failures}
use netix_republisher.Dict.{lookup}
use netix_republisher.Api.Session.{judge}
use netix_republisher.Examples.Toy.{toy_argon, toy_auth, toy_world}
use netix_republisher.State.{World}

abbrev headers_pass : String → Bool
headers_pass text = true

-- A burst of twenty logins of one address.
Logins-burst_example :
    (h : ThrottleHistory) × (v : World String) × Logins toy_argon headers_pass 20 [] h v
    × (length (recent_failures 7 (v4 1) h) ≡ 29)
unfolding verify_password
Logins-burst_example =
    Logins-burst String toy_argon headers_pass 20 7 (v4 1) "guess" "tok" toy_world refl refl
      (omega arith)

abbrev one : IpAddr
one = v4 1

-- Two logins are let in before the second of them is judged.
two_in :
    Logins toy_argon headers_pass 2 (one ∷ one ∷ []) ((6, asks one) ∷ (5, asks one) ∷ []) toy_world
unfolding throttled lookup
two_in =
    Logins.let_in 6 one (ground arith) refl (omega arith)
      (Logins.let_in 5 one tt refl (omega arith) (Logins.begin toy_world refl))

one_judged :
    let reply = (judge toy_argon headers_pass one "guess" "tok" 7 toy_world).0 in
    let history = noted one 7 reply ((6, asks one) ∷ (5, asks one) ∷ []) in
    Logins toy_argon headers_pass 2
      (one ∷ [])
      history
      (judge toy_argon headers_pass one "guess" "tok" 7 toy_world).1
one_judged = Logins.judged [] (one ∷ []) 7 one "guess" "tok" (ground arith) two_in

Logins_lem_example :
    length (recent_failures 8 one ((7, fails one) ∷ (6, asks one) ∷ (5, asks one) ∷ []))
    < login_max_failures + 2
unfolding judge verify_password
Logins_lem_example =
    Logins_lem toy_argon headers_pass 2 toy_auth refl 8 one (ground arith) one_judged
