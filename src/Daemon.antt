-- ===== src/Daemon.antt =====
-- src/bin/republisherd.rs: the command line of the daemon and its health probe. Console output is
-- left out.
pub mod Arguments
pub mod Probe
use netix_republisher.Prelude.{
  Bool, List, Option, Result, String, [], err, if◌then◌else◌, is_some, nat_eq, none, ok, some,
  string_eq, unwrap_or, ℕ, ◌==◌, ◌||◌, ◌∷◌,
}
use netix_republisher.Auth.Startup.{Environment}
use netix_republisher.Boot.{Files, ServerOptions, server_options}
use netix_republisher.Text.{parse_unsigned, split, strip_prefix, ◌<>◌}

pub data ExitCode : Type 0 where
  success failure : ExitCode

-- What the arguments ask for: to serve, with the configuration and the address that they name, or
-- something after which the program ends.
pub data Command : Type 0 where
  serve_with : (config bind : Option String) → Command
  probe show_usage show_version : Command
  usage_error : (message : String) → Command

-- The arguments that no value follows.
unfoldable pub other_argument : String → Command
other_argument arg =
    if arg == "healthcheck"
    then probe
    else if arg == "--help" || arg == "-h"
    then show_usage
    else if arg == "--version" || arg == "-V"
    then show_version
    else usage_error ("unknown argument '" <> arg <> "'")

unfoldable pub last_argument : String → Command
unfolding other_argument
last_argument arg =
    if arg == "--config"
    then usage_error "--config requires a path"
    else if arg == "--bind"
    then usage_error "--bind requires an address"
    else other_argument arg

-- The loop over the arguments, with the two variables that it fills.
unfoldable pub parse_from : List String → (config bind : Option String) → Command
unfolding last_argument
parse_from [] config bind = serve_with config bind
parse_from (arg ∷ []) config bind = last_argument arg
parse_from (arg ∷ value ∷ args) config bind =
    let config' = if arg == "--config" then some value else config in
    let bind' = if arg == "--bind" then some value else bind in
    let rest = parse_from args config' bind' in
    if arg == "--config" || arg == "--bind" then rest else other_argument arg

-- What the loopback interface answers: whether a port takes a connection, and the whole response to
-- a request, where it can be written and read.
pub record Loopback : Type 0 where
  pub connects : (port : ℕ) → Bool
  pub exchange : (port : ℕ) (request : String) → Option String

abbrev pub max_u16 : ℕ
max_u16 = 65535

-- `rsplit(sep).next()`: what stands behind the last separator.
unfoldable pub last_part : List String → String
last_part [] = ""
last_part (part ∷ []) = part
last_part (part ∷ next ∷ parts) = last_part (next ∷ parts)

unfoldable pub probe_port : Environment → Option ℕ
unfolding last_part
probe_port env =
    let bind = unwrap_or (env "REPUBLISHER_BIND") "0.0.0.0:8080" in
    parse_unsigned max_u16 (last_part (split b':' bind))

abbrev pub probe_request : String
probe_request = "GET /healthz HTTP/1.0\r\nHost: 127.0.0.1\r\nConnection: close\r\n\r\n"

unfoldable pub is_healthy : String → Bool
is_healthy response =
    is_some (strip_prefix "HTTP/1.0 200" response) || is_some (strip_prefix "HTTP/1.1 200" response)

-- The probe of a port that takes a connection.
unfoldable pub probe_open : Environment → Loopback → ℕ → ExitCode
unfolding is_healthy
probe_open env loopback port =
    if is_some (env "REPUBLISHER_TLS_CERT")
    then success
    else elim (loopback.exchange port probe_request) [
      | none ↦ failure
      | some response ↦ if is_healthy response then success else failure
    ]

unfoldable pub healthcheck : Environment → Loopback → ExitCode
unfolding probe_port probe_open
healthcheck env loopback = elim (probe_port env) [
  | none ↦ failure
  | some port ↦ if loopback.connects port then probe_open env loopback port else failure
]

-- `serve` on the options, with the start of its runtime, gives the text of an error or ends well.
module _ (files : Files) (env : Environment) (loopback : Loopback)
    (serve : ServerOptions → Option String) where
  pub run_server : Result ServerOptions String → ExitCode
  run_server (err why) = failure
  run_server (ok options) = elim (serve options) [ none ↦ success | some why ↦ failure ]

  unfoldable pub run_command : Command → ExitCode
  unfolding run_server
  run_command (serve_with config bind) = run_server (server_options files env config bind)
  run_command probe = healthcheck env loopback
  run_command show_usage = success
  run_command show_version = success
  run_command (usage_error message) = failure

  -- `main`, on the arguments behind the program's name.
  unfoldable pub main : List String → ExitCode
  unfolding run_command parse_from
  main args = run_command (parse_from args none none)
