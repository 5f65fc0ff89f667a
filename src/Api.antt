-- ===== src/Api.antt =====
-- src/web/api.rs: what the handlers share. A handler is an action on the world: the mutex is held
-- from its first access to its end, so handlers and events interleave as whole steps.
pub mod Reads
pub mod Discovery
pub mod Points
pub mod Settings
pub mod Control
pub mod Session
use netix_republisher.Prelude.{
  List, String, [], nat_eq, none, some, string_eq, true, unwrap_or, ℕ, ◌-◌, ◌==◌, ◌^◌, ◌∷◌,
}
use netix_republisher.Json.{Json, array, bool, nat, object, str}
use netix_republisher.Dict.{Dict, insert, lookup}
use netix_republisher.Config.{
  Addressing, FieldKind, FieldSpec, boolean, enumeration, secret, text, u32,
}
use netix_republisher.Text.{parse_unsigned, trim}
use netix_republisher.State.{App, World, emit, set_status}
use netix_republisher.Engine.{DiscoveredDevice, Factory, Job, LogLevel}
use netix_republisher.State.Action.{Action, map_err, modify, or_fail, save_config}
use netix_republisher.State.Views.{devices_json}
use netix_republisher.Dto.Redaction.{redacted_config}

pub record ApiError : Type 0 where
  pub status : ℕ
  pub message : String

abbrev pub bad_request : String → ApiError
bad_request message = record { status = 400; message = message }

abbrev pub not_found : String → ApiError
not_found message = record { status = 404; message = message }

abbrev pub conflict : String → ApiError
conflict message = record { status = 409; message = message }

-- The reply `{ "ok": true }`.
abbrev pub ok_json : Json
ok_json = object (("ok", bool true) ∷ [])

abbrev pub Handler : Type 0 → Type 0
Handler I = Action I ApiError Json

abbrev pub max_u64 : ℕ
max_u64 = 2 ^ 64 - 1

-- The value of a field, by its kind, from the text that the UI sends.
unfoldable pub field_value : FieldKind → String → Json
field_value u32 raw = elim (parse_unsigned max_u64 (trim raw)) [ some n ↦ nat n | none ↦ str raw ]
field_value boolean raw = bool (raw == "true")
field_value text raw = str raw
field_value secret raw = str raw
field_value (enumeration options) raw = str raw

-- The loop of `build_addressing`.
build_from : List FieldSpec → Dict String String → Addressing → Addressing
unfolding field_value
build_from [] values addressing = addressing
build_from (spec ∷ specs) values addressing =
    let raw = unwrap_or (lookup spec.key values) "" in
    build_from specs values (insert spec.key (field_value spec.kind raw) addressing)

unfoldable pub build_addressing : List FieldSpec → Dict String String → Addressing
unfolding build_from
build_addressing specs values = build_from specs values []

module _ {I : Type 0} (app : App I) where
  -- `state.save_config(…).map_err(bad_request)?`
  abbrev pub save_or_400 : Action I ApiError (Unit {0})
  save_or_400 = map_err bad_request (save_config app)

  abbrev pub say : LogLevel → String → Action I ApiError (Unit {0})
  say level message = modify (set_status app.engine level message)

  abbrev pub config_event : World I → World I
  config_event w =
      emit
        (object
          (("type", str "config") ∷ ("config", redacted_config app.engine w.shared.config) ∷ []))
        w

  -- `state.registry.get(&shared.config.protocol).ok_or_else(…)?`
  abbrev pub selected_factory : Action I ApiError Factory
  selected_factory w =
      or_fail (app.registry_get w.shared.config.protocol) (bad_request "no protocol selected") w

abbrev pub spawn : {I : Type 0} → Job → World I → World I
spawn job w = record w { jobs = job ∷ w.jobs }

abbrev pub devices_event : List DiscoveredDevice → Json
devices_event devices = object (("type", str "devices") ∷ ("devices", devices_json devices) ∷ [])

abbrev pub no_browsed_event : Json
no_browsed_event = object (("type", str "browsed") ∷ ("points", array []) ∷ [])
