-- ===== src/Examples/Guard.antt =====
-- A daemon that starts on every address, and a request for its state.
use netix_republisher.Prelude.{String, false, none, ok, refl, some, string_eq, true, ◌≡◌}
use netix_republisher.Auth.{ip_eq, is_loopback, plain, v4}
use netix_republisher.Api.Session.{check_cookie}
use netix_republisher.Auth.Startup.{fresh_auth, from_env}
use netix_republisher.Boot.{ServerOptions, boot_config, prepare, start_world}
use netix_republisher.EnvConfig.{env_bool, env_parse, env_value, note}
use netix_republisher.EnvConfig.Overrides.{
  apply_all, apply_env_overrides, autostart_override, bool_override, connection_override,
  discover_override, keep_alive_override, overrides, password_env_override, payload_format_override,
  points_override, port_override, protocol_override, text_override,
}
use netix_republisher.Http.Laws.{SameButLogins}
use netix_republisher.Http.Dispatch.{serve_request}
use netix_republisher.State.{World}
use netix_republisher.System.Guard.{prepare-SameButLogins}
use netix_republisher.System.Serving.{serve_request-Reach}
use netix_republisher.Examples.Boot.{no_environment, toy_imports, toy_registry}
use netix_republisher.Examples.Requests.{read_state}
use netix_republisher.Examples.System.{toy_axum-IsRouter, toy_moment, toy_server, wrong_login}
use netix_republisher.Examples.Tools.{edge_files}
use netix_republisher.Examples.Toy.{toy_argon, toy_config, toy_engine}

abbrev everywhere : ServerOptions
everywhere = record {
  bind = record { ip = v4 0; port = 8080; display = "0.0.0.0:8080" };
  config_path = "/data/config.toml";
  tls = none;
}

abbrev started : World String
started =
    start_world toy_engine toy_registry "/data/config.toml" toy_config
      (fresh_auth true false (some (plain "drawn"))) "Using default configuration"

prepared :
    prepare edge_files toy_imports no_environment toy_argon toy_engine toy_registry "drawn"
      everywhere
    ≡ ok started
unfolding prepare boot_config from_env apply_env_overrides overrides apply_all text_override
    bool_override protocol_override port_override keep_alive_override password_env_override
    payload_format_override autostart_override discover_override connection_override points_override
    env_value env_bool env_parse note
prepared = refl

-- The state is asked for after a login failed.
prepare-SameButLogins_example :
    let w = (serve_request toy_server toy_moment wrong_login started).1 in
    SameButLogins w (serve_request toy_server toy_moment read_state w).1
unfolding is_loopback check_cookie
prepare-SameButLogins_example =
    prepare-SameButLogins edge_files toy_imports no_environment toy_argon toy_engine toy_registry
      "drawn" everywhere refl toy_server toy_moment read_state toy_axum-IsRouter prepared
      (serve_request-Reach toy_server toy_moment wrong_login started) refl
