-- ===== src/Engine.antt =====
-- The parts of `republish_core` that the daemon drives: its runtime values by the fields that
-- src/web reads, and its functions as a parameter, `Engine`, over the type `I` of
-- `PointIdentity`. Nothing is assumed of a function here; a theorem that relies on one says so.
use netix_republisher.Prelude.{Bool, List, Option, String, ℕ, ℤ}
use netix_republisher.Json.{Json}
use netix_republisher.Config.{Addressing, AppConfig, MqttConfig, PointConfig}

-- A point's value, by `as_json_value()` and `to_string()`.
pub record PointValue : Type 0 where
  pub as_json_value : Json
  pub display : String

pub record DiscoveredDevice : Type 0 where
  pub key : String
  pub instance_number : Option ℕ
  pub address : String
  pub detail : String

pub record DiscoveredPoint : Type 0 where
  pub device_key : String
  pub name : Option String
  pub description : Option String
  pub units : Option String
  pub value : Option PointValue
  pub addressing : Addressing
  pub suggested_tag_path : String

pub record PointSample : Type 0 where
  pub point : PointConfig
  pub topic : String
  pub value : PointValue
  pub timestamp_ms : ℤ

pub record ReadFailure : Type 0 where
  pub point : PointConfig
  pub error : String

pub record PointStatus : Type 0 where
  pub last_value : Option PointValue
  pub last_sample_ms : Option ℤ
  pub stale : Bool
  pub consecutive_failures : ℕ
  pub last_error : Option String
  pub last_publish_error : Option String

pub record PublishStats : Type 0 where
  pub published : ℕ
  pub acked : ℕ
  pub last_error : Option String

-- The result of `merge_imported_points` and of a bulk tag import.
pub record MergedPoints : Type 0 where
  pub points : List PointConfig
  pub added : ℕ
  pub updated : ℕ

pub data LogLevel : Type 0 where
  info warning error : LogLevel

pub data Lifecycle : Type 0 where
  starting running stopping stopped : Lifecycle
  failed : String → Lifecycle

pub data WorkerEvent (I : Type 0) : Type 0 where
  logged : LogLevel → String → WorkerEvent I
  devices : (found : List DiscoveredDevice) → (warnings : List String) → WorkerEvent I
  points : List DiscoveredPoint → WorkerEvent I
  scan_progress : (current total : ℕ) → WorkerEvent I
  bulk_tag_import : MergedPoints → WorkerEvent I
  samples : List PointSample → WorkerEvent I
  failures : List ReadFailure → WorkerEvent I
  publish_status : PublishStats → WorkerEvent I
  point_publish : I → Option String → WorkerEvent I
  lifecycle : Lifecycle → WorkerEvent I
  finished : String → WorkerEvent I

-- A handle of a protocol's factory, as the registry gives it out.
abbrev pub Factory : Type 0
Factory = ℕ

-- A call of `spawn_…`, with the arguments that it hands to the worker. `stop` is the place of the
-- shared `AtomicBool` in the store of flags.
pub data Job : Type 0 where
  discovery : Factory → Addressing → Job
  browse : Factory → Addressing → DiscoveredDevice → Job
  scan_all_objects : Factory → Addressing → List DiscoveredDevice → List PointConfig → Job
  poll_once : Factory → Addressing → MqttConfig → List PointConfig → Job
  republisher :
      Factory
      → Addressing
      → MqttConfig
      → List PointConfig
      → (discover_on_start : Bool) → (stop : ℕ) → Job

-- `validate` and `save_to_path` give the text of an error; the outcome of a save may depend on how
-- many went before. `now_millis n` is the reading of the clock for the n-th log record.
-- `connection_mut` gives the selected protocol's connection, and how it is written back. `iter` is
-- the order in which a map is walked.
pub record Engine (I : Type 0) : Type 0 where
  pub validate : AppConfig → Option String
  pub save_to_path : ℕ → String → AppConfig → Option String
  pub config_json : AppConfig → Json
  pub connection : AppConfig → Addressing
  pub connection_mut : AppConfig → Addressing × (Addressing → AppConfig)
  pub iter : Addressing → List (String × Json)
  pub json_scalar : Json → String
  pub from_point : PointConfig → I
  pub identity_entries : I → List (String × String)
  pub point_name : PointConfig → String
  pub telemetry_topic : MqttConfig → PointConfig → String
  pub default_status : PointStatus
  pub record_sample : PointStatus → PointSample → PointStatus
  pub record_read_failure : PointStatus → String → PointStatus
  pub record_publish_success : PointStatus → PointStatus
  pub record_publish_failure : PointStatus → String → PointStatus
  pub now_millis : ℕ → ℤ
