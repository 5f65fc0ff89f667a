-- ===== src/Examples/Boot.antt =====
-- The boot of src/web/mod.rs, src/web/envcfg.rs and `Auth::from_env`, at small inputs.
use netix_republisher.Dict.{lookup}
use netix_republisher.Boot.{start_world, with_protocol}
use netix_republisher.Boot.Laws.{start_world-autostart}
use netix_republisher.State.{Registry, World}
use netix_republisher.Engine.{Job, failed, running}
use netix_republisher.Examples.Toy.{
  toy_app, toy_argon, toy_auth, toy_caps, toy_config, toy_engine, toy_mqtt, toy_shared, toy_world,
}
use netix_republisher.Api.{ok_json}
use netix_republisher.Api.Control.{start_republisher}
use netix_republisher.Api.Control.Laws.{launched}
use netix_republisher.Api.Control.Restart.{after_end, start_republisher-ended}
use netix_republisher.Prelude.{
  List, String, [], arith, false, get_elem?, if◌then◌else◌, length, nat_eq, none, ok, refl, some,
  string_eq, true, ◌++◌, ◌==◌, ◌∷◌, ◌≡◌, ◌≤◌, ◌⊎◌,
}
use netix_republisher.Auth.Startup.{
  Environment, IsGuarded, SocketAddr, fresh_auth, from_env, from_env-IsGuarded,
}
use netix_republisher.Auth.{Auth, ip_eq, plain, v4}
use netix_republisher.EnvConfig.{Imports, env_bool, env_parse, env_value, note}
use netix_republisher.EnvConfig.Overrides.{
  apply_all, apply_env_overrides, autostart_override, bool_override, connection_override,
  discover_override, keep_alive_override, overrides, password_env_override, payload_format_override,
  points_override, port_override, protocol_override, text_override,
}
use netix_republisher.EnvConfig.Notes.{apply_env_overrides-notes, set_count, variables}
use netix_republisher.EnvConfig.Legal.{IsLegal, apply_env_overrides-IsLegal}
use netix_republisher.Config.{AppConfig}
use netix_republisher.Text.{
  is_empty_text, is_whitespace, parse_unsigned, scan_digits, trim, trim_end, trim_start,
}

abbrev pub no_environment : Environment
no_environment key = none

abbrev port_environment : Environment
port_environment key = if key == "REPUBLISHER_MQTT_PORT" then some "8883" else none

abbrev any_address : SocketAddr
any_address = record { ip = v4 0; port = 8080; display = "0.0.0.0:8080" }

abbrev drawn : Auth
drawn = fresh_auth true false (some (plain "drawnpassword"))

from_env-IsGuarded_example : IsGuarded toy_argon no_environment any_address drawn
unfolding from_env fresh_auth trim trim_start trim_end is_empty_text is_whitespace
from_env-IsGuarded_example =
    from_env-IsGuarded toy_argon no_environment any_address false "drawnpassword" drawn refl refl

abbrev pub toy_imports : Imports
toy_imports = record {
  parse_error = λ most raw. "invalid digit found in string";
  resolve_password_env = λ mqtt. (false, mqtt);
  map_from_str = λ raw. ok [];
  points_from_str = λ raw. ok [];
  merge_imported_points =
      λ old new. record { points = old ++ new; added = length new; updated = 0 };
  connection_mut = toy_engine.connection_mut;
}

quiet_boot : apply_env_overrides toy_imports no_environment toy_config ≡ ok (toy_config, [])
unfolding apply_env_overrides overrides apply_all text_override bool_override protocol_override
    port_override keep_alive_override password_env_override payload_format_override
    autostart_override discover_override connection_override points_override env_value env_bool
    env_parse note parse_unsigned scan_digits trim trim_start trim_end is_empty_text is_whitespace
quiet_boot = refl

abbrev secured : AppConfig
secured = record toy_config { mqtt = record toy_config.mqtt { port = 8883 } }

secured_boot :
    apply_env_overrides toy_imports port_environment toy_config
    ≡ ok (secured, "mqtt.port (env)" ∷ [])
unfolding apply_env_overrides overrides apply_all text_override bool_override protocol_override
    port_override keep_alive_override password_env_override payload_format_override
    autostart_override discover_override connection_override points_override env_value env_bool
    env_parse note parse_unsigned scan_digits trim trim_start trim_end is_empty_text is_whitespace
secured_boot = refl

abbrev told : List String
told = "mqtt.port (env)" ∷ []

apply_env_overrides-notes_example :
    (length told ≡ set_count toy_imports port_environment variables)
    × ((secured ≡ toy_config) ⊎ (1 ≤ length told))
apply_env_overrides-notes_example =
    apply_env_overrides-notes toy_imports port_environment toy_config secured told secured_boot

apply_env_overrides-IsLegal_example : IsLegal secured
apply_env_overrides-IsLegal_example =
    apply_env_overrides-IsLegal toy_imports port_environment (λ mqtt. (refl, refl))
      (λ config connection. refl) toy_config secured ("mqtt.port (env)" ∷ [])
      (omega arith, omega arith) secured_boot

abbrev pub toy_registry : Registry
toy_registry = record {
  get = toy_app.registry_get;
  ids = "bacnet" ∷ [];
  capabilities = toy_caps ∷ [];
}

abbrev pub eager : AppConfig
eager = record toy_config { protocol = ""; mqtt = record toy_mqtt { autostart = true } }

start_world-autostart_example :
    let w = start_world toy_engine toy_registry "/data/config.toml" eager toy_auth "ready" in
    (w.jobs ≡ Job.republisher 7 [] eager.mqtt eager.points false 0 ∷ [])
    × (w.flags ≡ false ∷ [])
    × (w.shared.stop_flag ≡ some 0)
    × (w.shared.config ≡ record eager { protocol = "bacnet" })
unfolding lookup is_empty_text with_protocol
start_world-autostart_example =
    start_world-autostart toy_engine toy_registry "/data/config.toml" eager toy_auth "ready" 7 refl
      refl refl

abbrev at_work : World String
at_work = record toy_world {
  shared = record toy_shared { lifecycle = running; stop_flag = some 0 };
  flags = false ∷ [];
}

-- The republisher fails after it was told to stop, and is started again.
start_republisher-ended_example :
    let (reply, again) = start_republisher toy_app (after_end toy_app (failed "lost") at_work) in
    (reply ≡ ok ok_json)
    × (again.jobs ≡ launched toy_app 7 toy_config 1 ∷ [])
    × (again.shared.stop_flag ≡ some 1)
    × (get_elem? again.flags 1 ≡ some false)
    × (get_elem? again.flags 0 ≡ some true)
unfolding is_empty_text
start_republisher-ended_example =
    start_republisher-ended toy_app 7 (failed "lost") at_work 0 refl refl (omega arith) refl refl
