-- ===== src/Auth.antt =====
-- src/web/auth.rs: the admin credential, sessions and the throttle on failed logins. Argon2 and
-- the random generator are parameters. An instant is a number of nanoseconds on the monotonic
-- clock; an operation reads the clock once, and is given the reading. Locks that a panic poisoned
-- are taken all the same, so an operation is a function of the state. Console output is left out.
pub mod Sessions
pub mod Throttle
pub mod Cookie
pub mod Startup
use netix_republisher.Prelude.{
  Bool, Eq, List, Option, String, [], arith, false, if◌then◌else◌, is_empty, keep, leb, length, ltb,
  nat_eq, none, or_else, refl, some, string_eq, true, unwrap_or, ℕ, ◌*◌, ◌++◌, ◌+◌, ◌-◌, ◌/◌, ◌==◌,
  ◌^◌, ◌↔◌, ◌∷◌, ◌≡◌,
}
use netix_republisher.Text.{split, split_once, trim, ◌<>◌}
use netix_republisher.Dict.{Dict, insert, lookup, remove, retain_mut}

-- An IPv4 or IPv6 address, by its bits.
pub data IpAddr : Type 0 where
  v4 v6 : ℕ → IpAddr

abbrev pub ip_beq : IpAddr → IpAddr → Bool
ip_beq (v4 a) (v4 b) = a == b
ip_beq (v6 a) (v6 b) = a == b
ip_beq _ _ = false

pub ip_beq_iff : (a b : IpAddr) → (ip_beq a b ≡ true) ↔ (a ≡ b)
ip_beq_iff (v4 a) (v4 b) = ground arith
ip_beq_iff (v6 a) (v6 b) = ground arith
ip_beq_iff (v4 a) (v6 b) = ground arith
ip_beq_iff (v6 a) (v4 b) = ground arith

instance abbrev pub ip_eq : Eq IpAddr
ip_eq = record { beq = ip_beq; beq_iff = ip_beq_iff }

-- `IpAddr::is_loopback`: 127.0.0.0/8 and ::1.
unfoldable pub is_loopback : IpAddr → Bool
is_loopback (v4 a) = a / 2 ^ 24 == 127
is_loopback (v6 a) = a == 1

abbrev pub seconds : ℕ → ℕ
seconds n = n * 1000000000

abbrev pub session_cookie_name : String
session_cookie_name = "republisher_sid"

abbrev pub session_ttl : ℕ
session_ttl = seconds (24 * 60 * 60)

abbrev pub login_window : ℕ
login_window = seconds 60

abbrev pub login_max_failures : ℕ
login_max_failures = 10

pub data Credential : Type 0 where
  plain hash : String → Credential

pub record Auth : Type 0 where
  pub required : Bool
  pub cookie_secure : Bool
  pub credential : Option Credential
  pub sessions : Dict String ℕ
  pub failures : Dict IpAddr (List ℕ)

-- `PasswordHash::new` gives an error's text or a parsed hash; `verify` checks a candidate.
pub record Argon2 : Type 0 where
  pub parse_error : String → Option String
  pub verify : (phc candidate : String) → Bool

unfoldable pub verify_password : Argon2 → Auth → String → Bool
verify_password argon auth candidate = elim auth.credential [
  | none ↦ false
  | some (plain expected) ↦ expected == candidate
  | some (hash phc) ↦ elim (argon.parse_error phc) [
    | none ↦ argon.verify phc candidate
    | some _ ↦ false
  ]
]

-- The token is 48 characters of the random generator.
unfoldable pub create_session : String → ℕ → Auth → Auth
create_session token now auth =
    let live = retain_mut (λ expiry. if ltb now expiry then some expiry else none) auth.sessions in
    record auth { sessions = insert token (now + session_ttl) live }

unfoldable pub check_session : String → ℕ → Auth → Bool × Auth
check_session token now auth = elim (lookup token auth.sessions) [
  | none ↦ (false, auth)
  | some expiry ↦
      if ltb now expiry
      then (true, auth)
      else (false, record auth { sessions = remove token auth.sessions })
]

unfoldable pub remove_session : String → Auth → Auth
remove_session token auth = record auth { sessions = remove token auth.sessions }

-- `now.duration_since(*at) < LOGIN_WINDOW`; the difference of instants stops at zero.
abbrev pub within : ℕ → ℕ → Bool
within now at = ltb (now - at) login_window

unfoldable pub throttled : IpAddr → ℕ → Auth → Bool × Auth
throttled ip now auth = elim (lookup ip auth.failures) [
  | none ↦ (false, auth)
  | some attempts ↦
      let recent = keep (within now) attempts in
      (
        leb login_max_failures (length recent),
        record auth { failures = insert ip recent auth.failures },
      )
]

-- The closure of `retain`: old attempts go, and an address with none left.
abbrev pub prune : ℕ → List ℕ → Option (List ℕ)
prune now attempts =
    let recent = keep (within now) attempts in if is_empty recent then none else some recent

unfoldable pub record_failure : IpAddr → ℕ → Auth → Auth
record_failure ip now auth =
    let attempts = unwrap_or (lookup ip auth.failures) [] in
    record auth {
      failures = retain_mut (prune now) (insert ip (attempts ++ now ∷ []) auth.failures);
    }

secure_suffix : Auth → String
secure_suffix auth = if auth.cookie_secure then "; Secure" else ""

unfoldable pub session_cookie : Auth → String → String
unfolding secure_suffix
session_cookie auth token =
    session_cookie_name
    <> "="
    <> token
    <> "; Path=/; HttpOnly; SameSite=Strict"
    <> secure_suffix auth

unfoldable pub clear_cookie : Auth → String
unfolding secure_suffix
clear_cookie auth =
    session_cookie_name <> "=; Path=/; HttpOnly; SameSite=Strict; Max-Age=0" <> secure_suffix auth

-- The body of the closure of `find_map`.
unfoldable pub session_pair : String → Option String
unfolding trim split_once
session_pair pair = elim (split_once b'=' (trim pair)) [
  | none ↦ none
  | some (name, value) ↦ if name == session_cookie_name then some value else none
]

unfoldable pub find_session : List String → Option String
unfolding session_pair
find_session [] = none
find_session (pair ∷ pairs) = or_else (session_pair pair) (find_session pairs)

unfoldable pub session_from_cookie_header : String → Option String
unfolding find_session split
session_from_cookie_header header = find_session (split b';' header)

cookie_tests :
    (session_from_cookie_header "a=b; republisher_sid=tok123; c=d" ≡ some "tok123")
    × (session_from_cookie_header "a=b" ≡ none)
unfolding session_from_cookie_header
cookie_tests = (refl, refl)
