-- ===== src/SampleConfig.antt =====
-- src/bin/write_config.rs: a sample configuration for the BACnet simulator. The messages on the
-- console are left out.
pub mod Laws
use netix_republisher.Prelude.{
  Bool, List, Option, Result, String, [], err, false, if◌then◌else◌, is_some, nat_eq, none, ok,
  some, string_eq, true, unwrap_or, ℕ, ◌∷◌,
}
use netix_republisher.Api.Reads.{Interface}
use netix_republisher.Boot.{Files, and_try}
use netix_republisher.Config.{Addressing, AppConfig, MqttConfig, PointConfig}
use netix_republisher.Dict.{insert}
use netix_republisher.Json.{bool, nat, str}
use netix_republisher.Text.{strip_prefix}

bacnet_point :
    (device_key : String) (device_instance : ℕ) (object_type : String) (object_instance : ℕ)
    (tag_path : String)
    → PointConfig
bacnet_point device_key device_instance object_type object_instance tag_path = record {
  enabled = true;
  device_key = device_key;
  addressing = insert "property" (str "present_value") (
      insert "object_instance" (nat object_instance) (
        insert "object_type" (str object_type)
          (insert "device_instance" (nat device_instance) [])));
  tag_path = tag_path;
  poll_interval_secs = 10;
}

simulator_points : List PointConfig
unfolding bacnet_point
simulator_points =
    bacnet_point "AHU-L-001" 10700 "analog_input" 1 "AHU-L-001/SupplyAirTemp"
    ∷ bacnet_point "AHU-L-001" 10700 "analog_input" 2 "AHU-L-001/ReturnAirTemp"
    ∷ bacnet_point "AHU-L-001" 10700 "binary_input" 1 "AHU-L-001/SupplyFanStatus"
    ∷ bacnet_point "VAV-OFC-001" 10900 "analog_input" 1 "VAV-OFC-001/RoomTemp"
    ∷ bacnet_point "VAV-OFC-001" 10900 "analog_output" 1 "VAV-OFC-001/DamperPosition"
    ∷ bacnet_point "PLANT-MTR-001" 10600 "analog_input" 1 "PLANT-MTR-001/ActivePower"
    ∷ bacnet_point "PLANT-MTR-001" 10600 "analog_input" 9 "PLANT-MTR-001/TotalEnergy"
    ∷ []

-- `name.starts_with("bridge")`
abbrev pub is_bridge : Interface → Bool
is_bridge (name, addr) = is_some (strip_prefix "bridge" name)

unfoldable pub find_bridge : List Interface → Option Interface
find_bridge [] = none
find_bridge (interface ∷ interfaces) =
    let rest = find_bridge interfaces in if is_bridge interface then some interface else rest

-- The first bridge, or else the first interface.
unfoldable pub preferred_interface : List Interface → Option Interface
unfolding find_bridge
preferred_interface [] = none
preferred_interface (first ∷ interfaces) = some (unwrap_or (find_bridge (first ∷ interfaces)) first)

abbrev pub fixed_connection : Addressing
fixed_connection = insert "bind_failure_policy" (str "skip") (
    insert "broadcast_address" (str "255.255.255.255")
      (insert "port" (nat 0) (insert "discover_all_interfaces" (bool false) [])))

unfoldable pub sample_connection : List Interface → Addressing
unfolding preferred_interface
sample_connection interfaces = elim (preferred_interface interfaces) [
  | none ↦ fixed_connection
  | some (name, addr) ↦ insert "interface" (str addr) fixed_connection
]

-- Fields that are not set here have their defaults.
unfoldable pub sample_config :
    (default_config : AppConfig) → MqttConfig → List Interface → AppConfig
unfolding simulator_points sample_connection
sample_config default_config default_mqtt interfaces = record default_config {
  protocol = "bacnet";
  mqtt = record default_mqtt { use_tls = false; port = 1883 };
  points = simulator_points;
  connections = insert "bacnet" (sample_connection interfaces) default_config.connections;
}

-- `main`: what is written, and where; `save_to_path` gives the text of an error.
unfoldable pub write_config :
    Files
    → MqttConfig
    → (save_to_path : String → AppConfig → Option String) → List Interface
    → Result (String × AppConfig) String
unfolding sample_config
write_config files default_mqtt save_to_path interfaces = and_try files.config_path (λ path.
    let config = sample_config files.default_config default_mqtt interfaces in
    elim (save_to_path path config) [ none ↦ ok (path, config) | some why ↦ err why ])
