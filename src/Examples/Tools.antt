-- ===== src/Examples/Tools.antt =====
-- The command line, the health probe and the sample configuration at concrete inputs.
use netix_republisher.Prelude.{
  List, Option, String, [], arith, if◌then◌else◌, is_some, nat_eq, none, ok, refl, some, string_eq,
  true, ◌++◌, ◌==◌, ◌↔◌, ◌∷◌, ◌≡◌, ◌⊎◌,
}
use netix_republisher.Auth.{ip_eq, v4}
use netix_republisher.Auth.Startup.{Environment}
use netix_republisher.Boot.{Files, ServerOptions, serve, server_options}
use netix_republisher.Examples.Boot.{toy_imports, toy_registry}
use netix_republisher.Api.Reads.{Interface}
use netix_republisher.Config.{Addressing}
use netix_republisher.Daemon.{
  Loopback, failure, healthcheck, main, probe_request, run_server, success,
}
use netix_republisher.Daemon.Arguments.{bind_is, config_is, main-words, words}
use netix_republisher.Daemon.Probe.{IsOk, healthcheck_iff}
use netix_republisher.Dict.{lookup}
use netix_republisher.SampleConfig.{sample_config}
use netix_republisher.SampleConfig.Laws.{IsChosen, sample_config-IsChosen}
use netix_republisher.Examples.Toy.{toy_argon, toy_config, toy_engine, toy_mqtt}
use netix_republisher.Text.{decimal, parse_unsigned, split, strip_prefix}

abbrev pub edge_files : Files
edge_files = record {
  parse_addr = λ text. ok (record { ip = v4 0; port = 9090; display = text });
  config_path = ok "/data/config.toml";
  default_config = toy_config;
  load_from_path = λ path. none;
}

abbrev edge_environment : Environment
edge_environment key = if key == "REPUBLISHER_BIND" then some "0.0.0.0:9090" else none

abbrev edge_loopback : Loopback
edge_loopback = record {
  connects = λ port. port == 9090;
  exchange = λ port request. some "HTTP/1.0 200 OK";
}

-- The server whose address is in use.
abbrev no_port : ServerOptions → Option String
no_port =
    serve edge_files toy_imports edge_environment toy_argon toy_engine toy_registry "drawn"
      (λ bind tls w. some "address in use")

main-words_example :
    let run = main edge_files edge_environment edge_loopback no_port in
    let settings = bind_is "[::]:80" ∷ config_is "/a" ∷ bind_is "[::]:81" ∷ [] in
    (run ("--bind" ∷ "[::]:80" ∷ "--config" ∷ "/a" ∷ "--bind" ∷ "[::]:81" ∷ [])
      ≡ run_server edge_files edge_environment edge_loopback no_port
          (server_options edge_files edge_environment (some "/a") (some "[::]:81")))
    × (run (words settings ++ "healthcheck" ∷ []) ≡ healthcheck edge_environment edge_loopback)
    × (run (words settings ++ "--verbose" ∷ []) ≡ failure)
    × (run (words settings ++ "--config" ∷ []) ≡ failure)
    × (run (words settings ++ "--bind" ∷ []) ≡ failure)
main-words_example =
    main-words edge_files edge_environment edge_loopback no_port
      (bind_is "[::]:80" ∷ config_is "/a" ∷ bind_is "[::]:81" ∷ []) "--verbose" [] refl

probed : healthcheck edge_environment edge_loopback ≡ success
unfolding healthcheck parse_unsigned split strip_prefix
probed = refl

healthcheck_iff_example : (healthcheck edge_environment edge_loopback ≡ success) ↔ (
    (edge_loopback.connects 9090 ≡ true)
    × ((is_some (edge_environment "REPUBLISHER_TLS_CERT") ≡ true)
        ⊎ ((response : String) × (edge_loopback.exchange 9090 probe_request ≡ some response)
            × IsOk response)))
unfolding decimal
healthcheck_iff_example =
    healthcheck_iff edge_environment edge_loopback "0.0.0.0" 9090 (omega arith) refl

abbrev en_and_bridge : List Interface
en_and_bridge = ("en0", "10.0.0.2") ∷ ("bridge100", "192.168.64.1") ∷ []

sample_config-IsChosen_example :
    let connections = (sample_config toy_config toy_mqtt en_and_bridge).connections in
    (connection : Addressing) × (lookup "bacnet" connections ≡ some connection)
    × IsChosen en_and_bridge (lookup "interface" connection)
sample_config-IsChosen_example = sample_config-IsChosen toy_config toy_mqtt en_and_bridge
