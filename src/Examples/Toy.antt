-- ===== src/Examples/Toy.antt =====
-- A small instance of the parameters, and a state with two points and a device.
use netix_republisher.Prelude.{
  String, [], false, if◌then◌else◌, nat_eq, none, pos, some, string_eq, true, unwrap_or, ◌+◌, ◌==◌,
  ◌∷◌,
}
use netix_republisher.Config.{
  Addressing, AppConfig, Capabilities, MqttConfig, PointConfig, broadcast, object_list, scalar,
}
use netix_republisher.Dict.{insert, lookup}
use netix_republisher.Engine.{DiscoveredPoint, Engine, PointStatus, stopped}
use netix_republisher.Json.{str}
use netix_republisher.State.{App, Shared, World}
use netix_republisher.Auth.{Argon2, Auth, ip_eq, plain}
use netix_republisher.Text.{is_empty_text, ◌<>◌}

abbrev connection_of : AppConfig → Addressing
connection_of config = unwrap_or (lookup config.protocol config.connections) []

abbrev fresh_status : PointStatus
fresh_status = record {
  last_value = none;
  last_sample_ms = none;
  stale = true;
  consecutive_failures = 0;
  last_error = none;
  last_publish_error = none;
}

-- A point is its tag path.
abbrev pub toy_engine : Engine String
toy_engine = record {
  validate = λ config. if is_empty_text config.protocol then some "no protocol" else none;
  save_to_path = λ n path config. none;
  config_json = λ config. str config.protocol;
  connection = connection_of;
  connection_mut = λ config. (
    connection_of config,
    λ c. record config { connections = insert config.protocol c config.connections },
  );
  iter = λ addressing. addressing;
  json_scalar = λ value. "value";
  from_point = λ point. point.tag_path;
  identity_entries = λ identity. ("tag", identity) ∷ [];
  point_name = λ point. point.tag_path;
  telemetry_topic = λ mqtt point. mqtt.topic_prefix <> "/" <> point.tag_path;
  default_status = fresh_status;
  record_sample = λ status sample. record status {
    last_value = some sample.value;
    last_sample_ms = some sample.timestamp_ms;
    stale = false;
    consecutive_failures = 0;
  };
  record_read_failure = λ status why. record status {
    consecutive_failures = status.consecutive_failures + 1;
    last_error = some why;
  };
  record_publish_success = λ status. record status { last_publish_error = none };
  record_publish_failure = λ status why. record status { last_publish_error = some why };
  now_millis = λ n. pos n;
}

abbrev pub toy_caps : Capabilities
toy_caps = record {
  id = "bacnet";
  display_name = "BACnet";
  discovery = broadcast;
  browse = object_list;
  connection_fields = [];
  addressing_fields = [];
  default_port = 47808;
}

abbrev pub toy_app : App String
toy_app = record {
  engine = toy_engine;
  registry_get = λ id. if id == "bacnet" then some 7 else none;
  caps = ("bacnet", toy_caps) ∷ [];
  protocol_ids = "bacnet" ∷ [];
  config_path = "/data/config.toml";
}

abbrev pub toy_point : String → PointConfig
toy_point tag = record {
  enabled = true;
  device_key = "ahu";
  addressing = [];
  tag_path = tag;
  poll_interval_secs = 10;
}

abbrev pub toy_mqtt : MqttConfig
toy_mqtt = record {
  host = "broker";
  port = 1883;
  use_tls = false;
  client_id = "edge";
  topic_prefix = "site";
  health_topic = "health";
  username = some "operator";
  password = some "secret";
  password_env = none;
  ca_cert_path = none;
  client_cert_path = none;
  client_key_path = none;
  client_key_passphrase = none;
  remember_secrets = false;
  retain = true;
  keep_alive_secs = 30;
  payload_format = scalar;
  device_topic_prefix = "";
  autostart = false;
}

abbrev pub toy_config : AppConfig
toy_config = record {
  protocol = "bacnet";
  connections = [];
  mqtt = toy_mqtt;
  points = toy_point "temp" ∷ toy_point "fan" ∷ [];
  theme = "dark";
  discover_on_start = false;
}

abbrev pub toy_found : DiscoveredPoint
toy_found = record {
  device_key = "ahu";
  name = some "Damper";
  description = none;
  units = none;
  value = none;
  addressing = [];
  suggested_tag_path = "damper";
}

abbrev pub toy_shared : Shared String
toy_shared = record {
  config = toy_config;
  devices = [];
  browsed = toy_found ∷ [];
  scan_progress = none;
  statuses = [];
  recent_samples = [];
  logs = [];
  log_seq = 0;
  lifecycle = stopped;
  stop_flag = none;
  published_total = 0;
  acked_total = 0;
  last_error = none;
  status_line = "Using default configuration";
}

abbrev pub toy_auth : Auth
toy_auth = record {
  required = true;
  cookie_secure = true;
  credential = some (plain "hunter2");
  sessions = [];
  failures = [];
}

abbrev pub toy_world : World String
toy_world = record {
  shared = toy_shared;
  events = [];
  jobs = [];
  flags = [];
  saves = [];
  auth = toy_auth;
}

abbrev pub toy_argon : Argon2
toy_argon = record { parse_error = λ phc. none; verify = λ phc candidate. false }
