-- ===== src/Boot.antt =====
-- src/web/mod.rs: the options, the configuration and the state with which the server starts, and
-- the step that the shutdown signal takes. Sockets and TLS are a parameter.
pub mod Laws
use netix_republisher.Prelude.{
  List, Option, Result, String, [], err, if◌then◌else◌, is_empty, is_some, none, ok, or_else, some,
  unwrap_or, ◌∷◌,
}
use netix_republisher.Auth.{Argon2, Auth}
use netix_republisher.Auth.Startup.{Environment, SocketAddr, from_env}
use netix_republisher.Config.{AppConfig}
use netix_republisher.Engine.{Engine, info}
use netix_republisher.EnvConfig.{Imports}
use netix_republisher.EnvConfig.Overrides.{apply_env_overrides}
use netix_republisher.State.{App, Registry, World, new_app, new_world, set_status}
use netix_republisher.Api.Control.{raise_flag, start_republisher}
use netix_republisher.Text.{is_empty_text, join, ◌<>◌}

-- What the boot asks of other code: `parse` at a socket address, the default path of the
-- configuration, `AppConfig::default`, and the file: none where it does not exist, else what
-- loading it gives.
pub record Files : Type 0 where
  pub parse_addr : String → Result SocketAddr String
  pub config_path : Result String String
  pub default_config : AppConfig
  pub load_from_path : String → Option (Result AppConfig String)

pub record TlsPaths : Type 0 where
  pub cert : String
  pub key : String

pub record ServerOptions : Type 0 where
  pub bind : SocketAddr
  pub config_path : String
  pub tls : Option TlsPaths

unfoldable pub tls_paths : (cert key : Option String) → Result (Option TlsPaths) String
tls_paths (some cert) (some key) = ok (some (record { cert = cert; key = key }))
tls_paths none none = ok none
tls_paths (some cert) none = err "REPUBLISHER_TLS_CERT and REPUBLISHER_TLS_KEY must be set together"
tls_paths none (some key) = err "REPUBLISHER_TLS_CERT and REPUBLISHER_TLS_KEY must be set together"

-- `?` on a result.
abbrev pub and_try : {A B : Type 0} → Result A String → (A → Result B String) → Result B String
and_try (ok a) f = f a
and_try (err why) f = err why

abbrev ok_or : {A : Type 0} → Option A → Result A String → Result A String
ok_or (some a) r = ok a
ok_or none r = r

parse_bind : Files → String → Result SocketAddr String
parse_bind files raw = elim (files.parse_addr raw) [
  | ok bind ↦ ok bind
  | err why ↦ err ("invalid bind address '" <> raw <> "': " <> why)
]

-- `ServerOptions::from_env`: the command line comes before the environment.
unfoldable pub server_options :
    Files → Environment → (cli_config cli_bind : Option String) → Result ServerOptions String
unfolding tls_paths parse_bind
server_options files env cli_config cli_bind =
    let bind_raw = unwrap_or (or_else cli_bind (env "REPUBLISHER_BIND")) "0.0.0.0:8080" in
    let path = ok_or (or_else cli_config (env "REPUBLISHER_CONFIG")) files.config_path in
    and_try (parse_bind files bind_raw) (λ bind. and_try path (λ config_path.
      and_try (tls_paths (env "REPUBLISHER_TLS_CERT") (env "REPUBLISHER_TLS_KEY"))
        (λ tls. ok (record { bind = bind; config_path = config_path; tls = tls }))))

loaded : Files → String → AppConfig × String
loaded files path = elim (files.load_from_path path) [
  | none ↦ (files.default_config, "Using default configuration")
  | some (ok config) ↦ (config, "Loaded saved configuration")
  | some (err why) ↦ (files.default_config, "Using defaults; config load failed: " <> why)
]

unfoldable pub boot_config :
    Files → Imports → Environment → (path : String) → Result (AppConfig × String) String
unfolding loaded
boot_config files core env path =
    let (config, status) = loaded files path in
    and_try (apply_env_overrides core env config) (λ (config', notes). ok (
      config',
      if is_empty notes then status else status <> "; env overrides: " <> join ", " notes,
    ))

-- Without a protocol the first one of the registry is taken.
unfoldable pub with_protocol : List String → AppConfig → AppConfig
with_protocol [] config = config
with_protocol (first ∷ ids) config =
    if is_empty_text config.protocol then record config { protocol = first } else config

module _ {I : Type 0} (engine : Engine I) (registry : Registry) where
  -- `serve` up to the router: the state, and the republisher where it is to start by itself.
  unfoldable pub start_world : (path : String) → AppConfig → Auth → (status : String) → World I
  unfolding with_protocol
  start_world path config auth status =
      let app = new_app engine registry path in
      let boot = with_protocol registry.ids config in
      let w = new_world engine registry boot auth status in
      let started = (start_republisher app w).1 in
      if w.shared.config.mqtt.autostart then started else w

-- `serve` up to its sockets: the configuration, the sessions and the state with which it starts.
module _ {I : Type 0} (files : Files) (core : Imports) (env : Environment) (argon : Argon2)
    (engine : Engine I) (registry : Registry) (generated : String) where
  unfoldable pub prepare : ServerOptions → Result (World I) String
  prepare options =
      let path = options.config_path in
      and_try (boot_config files core env path) (λ (config, status).
        and_try (from_env argon env options.bind (is_some options.tls) generated)
          (λ auth. ok (start_world engine registry path config auth status)))

  -- `listen` loads the TLS key, listens and runs the server to its end, or gives the text of an error.
  unfoldable pub serve :
      (listen : SocketAddr → Option TlsPaths → World I → Option String)
      → ServerOptions
      → Option String
  unfolding prepare
  serve listen options = elim (prepare options) [
    | err why ↦ some why
    | ok w ↦ listen options.bind options.tls w
  ]

-- What the shutdown signal does before the server stops.
unfoldable pub shut_down : {I : Type 0} → App I → World I → World I
shut_down app w = elim w.shared.stop_flag [
  | none ↦ set_status app.engine info "Shutting down…" w
  | some stop ↦ set_status app.engine info "Shutting down…" (raise_flag app stop w)
]
