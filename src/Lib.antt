-- ===== src/Lib.antt =====
-- The republisher daemon: a web server that polls devices of building protocols and publishes
-- their points to an MQTT broker. The core is in src/web of the repository: a state behind a
-- mutex, HTTP handlers that change it, a thread that applies the worker's events to it, and a
-- stream of events to the browsers. A session check and a security layer stand before the routes.
-- src/bin has the command line that starts the server and a tool that writes a sample
-- configuration.
--
-- Which file models which part:
--   State       src/web/state.rs: `Shared` and `WebState`. `World` is what changes: the state, the
--               events sent (`emit`), the jobs handed to the worker, the stop flags that jobs share
--               with the state, the attempts to save, and the sessions. State/Action: operations
--               that may fail, `save_config`. State/Views: the documents that are sent.
--               State/Events: `apply_event` and the drain. The other files of State hold lemmas.
--   Api         src/web/api.rs: one definition per handler, in Api/Reads, Api/Discovery,
--               Api/Points, Api/Settings, Api/Control and Api/Session. Each takes the mutex at its
--               first access and keeps it to its end, so a handler is one step on a `World`.
--               Api/Settings/Form: what `saveSettings` of web/app.js sends.
--   Auth        src/web/auth.rs: `Auth` and its operations; Auth/Startup: `Auth::from_env`.
--   Dto         src/web/dto.rs: the records and documents of the API.
--   Http        src/web/mod.rs: `is_public`, `auth_middleware`, `security_middleware`, and
--               `guarded`, the two layers as `router` nests them around any routes.
--               Http/Routes: the table of `router`. Http/Dispatch: what each endpoint runs, and the
--               whole server on one request, `serve_request`. Http/Assets: src/web/assets.rs.
--   System      the running daemon: `Step` is what is done under one lock by a request, a login, the
--               worker or the shutdown, and `Reach` relates a state to those that steps in any order
--               lead to. System/Invariant: the invariant `IsSound`.
--   EnvConfig   src/web/envcfg.rs: the overrides by environment variables, each an assignment and a
--               note on a configuration with the notes made so far.
--   Boot        src/web/mod.rs: `ServerOptions::from_env`, `boot_config`, and `serve`: what it
--               prepares, the autostart and the step of the shutdown; its sockets are a parameter.
--   Daemon      src/bin/republisherd.rs: the loop over the arguments, `main` and `healthcheck`.
--   SampleConfig  src/bin/write_config.rs.
--   Config, Engine, Json: the types of other crates by the fields that the program reads.
--   Prelude, Dict, Text: shared helpers; what Rust's slices, maps and `str` do.
--   Examples    the theorems at concrete inputs.
--
-- What other crates do is a parameter: `Engine` (republish_core), `Argon2` (argon2), `Axum` (axum:
-- routing, extractors, and the limit on bodies that the extractors enforce), `Imports` (serde_json
-- and republish_core at boot), `Files` (what the boot reads) and `Loopback` (what the health probe
-- sees). A theorem that relies on their behaviour has it as a named hypothesis. The token of a
-- session, the reading of the clock, the contents of embedded files and the test whether a text may
-- stand in a header are arguments.
--
-- Bounds. Ports, counters and intervals are natural numbers; the counter of the log wraps at
-- 2^64, as `+= 1` does in a release build, and the theorem on it has that bound as a hypothesis.
-- Parsing a number has the maximum of its type. Loops are structural recursions; the one definition
-- on fuel prints a number in decimal, with one round more than the number, which is enough since
-- each round takes a digit off.
--
-- Not modelled: sockets, TLS and the waiting for signals in `serve`, the start of the runtime, the
-- registry, which only calls other crates, and the vendored transport. Console output is left out,
-- and a poisoned lock is taken all the same, as in the source.
pub mod Prelude
pub mod Dict
pub mod Text
pub mod Json
pub mod Config
pub mod Engine
pub mod Dto
pub mod Auth
pub mod State
pub mod Api
pub mod Http
pub mod System
pub mod EnvConfig
pub mod Boot
pub mod Daemon
pub mod SampleConfig
pub mod Examples
