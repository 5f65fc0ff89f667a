-- ===== src/Daemon/Arguments.antt =====
-- The arguments of the daemon's command line.
use netix_republisher.Prelude.{
  Bool, List, Option, String, [], ap, arith, nat_eq, none, not, refl, some, string_eq, true, ◌++◌,
  ◌==◌, ◌||◌, ◌∙◌, ◌∷◌, ◌≡◌,
}
use netix_republisher.Auth.Startup.{Environment}
use netix_republisher.Boot.{Files, ServerOptions, server_options}
use netix_republisher.Daemon.{
  Command, ExitCode, Loopback, failure, healthcheck, last_argument, main, other_argument,
  parse_from, probe, run_command, run_server, usage_error,
}
use netix_republisher.Text.{◌<>◌}

-- An option with its value.
pub data Setting : Type 0 where
  config_is bind_is : String → Setting

abbrev pub words : List Setting → List String
words [] = []
words (config_is path ∷ settings) = "--config" ∷ path ∷ words settings
words (bind_is addr ∷ settings) = "--bind" ∷ addr ∷ words settings

-- The last value that is given, or the one that stands before.
abbrev pub config_after : List Setting → Option String → Option String
config_after [] config = config
config_after (config_is path ∷ settings) config = config_after settings (some path)
config_after (bind_is addr ∷ settings) config = config_after settings config

abbrev pub bind_after : List Setting → Option String → Option String
bind_after [] bind = bind
bind_after (config_is path ∷ settings) bind = bind_after settings bind
bind_after (bind_is addr ∷ settings) bind = bind_after settings (some addr)

parse_from-words :
    (settings : List Setting) (rest : List String) (config bind : Option String)
    → parse_from (words settings ++ rest) config bind
      ≡ parse_from rest (config_after settings config) (bind_after settings bind)
unfolding parse_from
parse_from-words [] rest config bind = refl
parse_from-words (config_is path ∷ settings) rest config bind =
    parse_from-words settings rest (some path) bind
parse_from-words (bind_is addr ∷ settings) rest config bind =
    parse_from-words settings rest config (some addr)

-- An argument that is none of the program's.
abbrev pub is_unknown : String → Bool
is_unknown arg = not (
    arg == "--config"
    || arg == "--bind"
    || arg == "healthcheck"
    || arg == "--help"
    || arg == "-h"
    || arg == "--version"
    || arg == "-V")

parse_from-unknown :
    (arg : String) (rest : List String) (config bind : Option String)
    → is_unknown arg ≡ true
    → parse_from (arg ∷ rest) config bind ≡ usage_error ("unknown argument '" <> arg <> "'")
unfolding parse_from last_argument other_argument
parse_from-unknown arg [] config bind h = ground (arith, h)
parse_from-unknown arg (value ∷ rest) config bind h = ground (arith, h)

parse_from-healthcheck :
    (rest : List String) (config bind : Option String)
    → parse_from ("healthcheck" ∷ rest) config bind ≡ probe
unfolding parse_from last_argument other_argument
parse_from-healthcheck [] config bind = refl
parse_from-healthcheck (value ∷ rest) config bind = refl

module _ (files : Files) (env : Environment) (loopback : Loopback)
    (serve : ServerOptions → Option String) (settings : List Setting) where
  abbrev last_config : Option String
  last_config = config_after settings none

  abbrev last_bind : Option String
  last_bind = bind_after settings none

  -- Options with their values, in any number and order, run the server with the last value of each.
  -- Behind them `healthcheck` runs the probe, whatever follows; an argument that is not known,
  -- whatever follows, and an option without its value end the program with a failure.
  pub main-words :
      (arg : String) (rest : List String)
      → is_unknown arg ≡ true
      → let run =
          λ (behind : List String). main files env loopback serve (words settings ++ behind) in
        (run []
          ≡ run_server files env loopback serve (server_options files env last_config last_bind))
        × (run ("healthcheck" ∷ rest) ≡ healthcheck env loopback)
        × (run (arg ∷ rest) ≡ failure)
        × (run ("--config" ∷ []) ≡ failure)
        × (run ("--bind" ∷ []) ≡ failure)
  unfolding main parse_from run_command last_argument
  main-words arg rest unknown =
      let runs : Command → ExitCode = run_command files env loopback serve in
      let parsed = λ (behind : List String). ap runs (parse_from-words settings behind none none) in
      (
        parsed [],
        parsed ("healthcheck" ∷ rest) ∙ ap runs (parse_from-healthcheck rest last_config last_bind),
        parsed (arg ∷ rest) ∙ ap runs (parse_from-unknown arg rest last_config last_bind unknown),
        parsed ("--config" ∷ []),
        parsed ("--bind" ∷ []),
      )
