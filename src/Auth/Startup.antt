-- ===== src/Auth/Startup.antt =====
-- `Auth::from_env` of src/web/auth.rs. The environment is a function from names to values; the
-- password that the random generator would draw is an argument.
use netix_republisher.Prelude.{
  Bool, Bool-cases, Option, Result, String, [], arith, err, false, if◌then◌else◌, inl, inr,
  map_option, nat_eq, none, not, ok, refl, some, string_eq, true, unwrap_or, ℕ, ◌==◌, ◌||◌, ◌≡◌,
  ◌⊎◌,
}
use netix_republisher.Text.{eq_ignore_ascii_case, is_empty_text, trim, ◌<>◌}
use netix_republisher.Auth.{Argon2, Auth, Credential, IpAddr, hash, ip_eq, is_loopback, plain}

pub record SocketAddr : Type 0 where
  pub ip : IpAddr
  pub port : ℕ
  pub display : String

abbrev pub Environment : Type 0
Environment = String → Option String

-- `std::env::var(key).map(test).unwrap_or(false)`
abbrev pub env_test : Environment → String → (String → Bool) → Bool
env_test env key test = unwrap_or (map_option test (env key)) false

is_disabled : Environment → Bool
is_disabled env = env_test env "REPUBLISHER_AUTH" (λ v. eq_ignore_ascii_case v "disabled")

unfoldable pub fresh_auth : Bool → Bool → Option Credential → Auth
fresh_auth required cookie_secure credential = record {
  required = required;
  cookie_secure = cookie_secure;
  credential = credential;
  sessions = [];
  failures = [];
}

-- The hash comes before the plain password, and a blank password counts as none.
choose_credential :
    Argon2 → Option String → Option String → (generated : String) → Result Credential String
choose_credential argon (some phc) password generated = elim (argon.parse_error phc) [
  | none ↦ ok (hash phc)
  | some why ↦ err ("REPUBLISHER_ADMIN_PASSWORD_HASH is not a valid PHC string: " <> why)
]
choose_credential argon none none generated = ok (plain generated)
choose_credential argon none (some password) generated =
    ok (plain (if is_empty_text (trim password) then generated else password))

with_credential : Bool → Result Credential String → Result Auth String
unfolding fresh_auth
with_credential cookie_secure (ok credential) = ok (fresh_auth true cookie_secure (some credential))
with_credential cookie_secure (err why) = err why

unfoldable pub from_env :
    Argon2
    → Environment
    → SocketAddr
    → (tls_enabled : Bool) → (generated : String) → Result Auth String
unfolding is_disabled with_credential choose_credential
from_env argon env bind tls_enabled generated =
    let cookie_secure =
      tls_enabled
      || env_test env "REPUBLISHER_COOKIE_SECURE"
          (λ v. v == "1" || eq_ignore_ascii_case v "true") in
    if is_disabled env
    then if not (is_loopback bind.ip)
      then err (
          "REPUBLISHER_AUTH=disabled is only allowed for loopback binds; refusing to serve an "
          <> "unauthenticated GUI on " <> bind.display)
      else ok (fresh_auth false cookie_secure none)
    else with_credential cookie_secure (
        choose_credential argon (env "REPUBLISHER_ADMIN_PASSWORD_HASH")
          (env "REPUBLISHER_ADMIN_PASSWORD") generated)

-- A credential that a blank candidate cannot meet by itself.
abbrev pub IsUsable : Argon2 → Credential → Type 0
IsUsable argon (plain password) = is_empty_text (trim password) ≡ false
IsUsable argon (hash phc) = argon.parse_error phc ≡ none

choose_credential-IsUsable :
    (argon : Argon2) (phc password : Option String) (generated : String) (c : Credential)
    → is_empty_text (trim generated) ≡ false
    → choose_credential argon phc password generated ≡ ok c
    → IsUsable argon c
unfolding choose_credential
choose_credential-IsUsable argon (some phc) password generated (hash h) drawn e = ground arith
choose_credential-IsUsable argon (some phc) password generated (plain h) drawn e = ground arith
choose_credential-IsUsable argon none none generated (hash h) drawn e = ground arith
choose_credential-IsUsable argon none none generated (plain h) drawn e = ground arith
choose_credential-IsUsable argon none (some password) generated (hash h) drawn e = ground arith
choose_credential-IsUsable argon none (some password) generated (plain h) drawn e = ground arith

-- The guarantees of a start: either the GUI is open and the address is a loopback one that was
-- asked to be open, or logins need a credential that no blank password meets.
abbrev pub IsGuarded : Argon2 → Environment → SocketAddr → Auth → Type 0
IsGuarded argon env bind auth =
    ((auth.required ≡ false)
      × (is_loopback bind.ip ≡ true)
      × (env_test env "REPUBLISHER_AUTH" (λ v. eq_ignore_ascii_case v "disabled") ≡ true))
    ⊎ ((auth.required ≡ true) × (c : Credential) × (auth.credential ≡ some c) × IsUsable argon c)

with_credential-IsGuarded :
    (argon : Argon2) (env : Environment) (bind : SocketAddr) (cookie_secure : Bool)
    (r : Result Credential String) (auth : Auth)
    → ((c : Credential) → r ≡ ok c → IsUsable argon c)
    → with_credential cookie_secure r ≡ ok auth
    → IsGuarded argon env bind auth
unfolding with_credential
with_credential-IsGuarded argon env bind cookie_secure (ok c) auth usable e =
    inr (ground arith, c, ground arith, usable c refl)
with_credential-IsGuarded argon env bind cookie_secure (err why) auth usable e = cc

-- Where the generator draws no blank password, a daemon that starts either serves without a login
-- on a loopback address, which REPUBLISHER_AUTH=disabled asked for, or it wants a credential: a
-- plain one that is not blank, or a hash that parses.
pub from_env-IsGuarded :
    (argon : Argon2) (env : Environment) (bind : SocketAddr) (tls_enabled : Bool)
    (generated : String) (auth : Auth)
    → is_empty_text (trim generated) ≡ false
    → from_env argon env bind tls_enabled generated ≡ ok auth
    → IsGuarded argon env bind auth
unfolding from_env
from_env-IsGuarded argon env bind tls_enabled generated auth drawn e =
    elim (Bool-cases (is_disabled env)) [
      | inl disabled ↦ inl (ground arith, ground arith, disabled)
      | inr enabled ↦
          let phc = env "REPUBLISHER_ADMIN_PASSWORD_HASH" in
          let password = env "REPUBLISHER_ADMIN_PASSWORD" in
          with_credential-IsGuarded argon env bind _
            (choose_credential argon phc password generated) auth
            (λ c. choose_credential-IsUsable argon phc password generated c drawn) (rw enabled at e)
    ]

with_credential-fresh :
    (cookie_secure : Bool) (credential : Result Credential String) (auth : Auth)
    → with_credential cookie_secure credential ≡ ok auth
    → (auth.required ≡ true) × (auth.sessions ≡ []) × (auth.failures ≡ [])
unfolding with_credential fresh_auth
with_credential-fresh cookie_secure (ok c) auth e = (ground arith, ground arith, ground arith)
with_credential-fresh cookie_secure (err why) auth e = cc

-- A start on another address than a loopback one requires a login, and begins with no session.
pub from_env-fresh :
    (argon : Argon2) (env : Environment) (bind : SocketAddr) (tls_enabled : Bool)
    (generated : String) (auth : Auth)
    → is_loopback bind.ip ≡ false
    → from_env argon env bind tls_enabled generated ≡ ok auth
    → (auth.required ≡ true) × (auth.sessions ≡ []) × (auth.failures ≡ [])
unfolding from_env
from_env-fresh argon env bind tls_enabled generated auth remote e =
    elim (Bool-cases (is_disabled env)) [
      | inl disabled ↦ ground (arith, remote, disabled, e)
      | inr enabled ↦ with_credential-fresh _ _ auth (rw enabled at e)
    ]
