-- ===== src/Config.antt =====
-- The configuration types of `republish_core` and `proto_api`, by the fields that this program
-- reads or writes (src/web/api.rs, src/web/envcfg.rs, src/bin/write_config.rs). A field that it
-- never touches stays constant through a run, so it is part of the functions of `Engine`.
use netix_republisher.Prelude.{Bool, List, Option, String, ℕ}
use netix_republisher.Dict.{Dict}
use netix_republisher.Json.{Json}

-- `Addressing::new`, `insert`, `iter`: a map from field keys to values.
abbrev pub Addressing : Type 0
Addressing = Dict String Json

pub data PayloadFormat : Type 0 where
  scalar netix_envelope : PayloadFormat

pub record PointConfig : Type 0 where
  pub enabled : Bool
  pub device_key : String
  pub addressing : Addressing
  pub tag_path : String
  pub poll_interval_secs : ℕ

pub record MqttConfig : Type 0 where
  pub host : String
  pub port : ℕ
  pub use_tls : Bool
  pub client_id : String
  pub topic_prefix : String
  pub health_topic : String
  pub username : Option String
  pub password : Option String
  pub password_env : Option String
  pub ca_cert_path : Option String
  pub client_cert_path : Option String
  pub client_key_path : Option String
  pub client_key_passphrase : Option String
  pub remember_secrets : Bool
  pub retain : Bool
  pub keep_alive_secs : ℕ
  pub payload_format : PayloadFormat
  pub device_topic_prefix : String
  pub autostart : Bool

-- `theme` is `ui.theme`, by the name under which it is saved.
pub record AppConfig : Type 0 where
  pub protocol : String
  pub connections : Dict String Addressing
  pub mqtt : MqttConfig
  pub points : List PointConfig
  pub theme : String
  pub discover_on_start : Bool

-- `proto_api::FieldKind`, matched in full by src/web/dto.rs.
pub data FieldKind : Type 0 where
  text u32 boolean secret : FieldKind
  enumeration : List String → FieldKind

pub record FieldSpec : Type 0 where
  pub key : String
  pub label : String
  pub kind : FieldKind
  pub preset : Option Json
  pub help : Option String

pub data DiscoveryKind : Type 0 where
  broadcast endpoint_query subnet_scan manual_only : DiscoveryKind

pub data BrowseKind : Type 0 where
  object_list address_space register_scan no_browse : BrowseKind

pub record Capabilities : Type 0 where
  pub id : String
  pub display_name : String
  pub discovery : DiscoveryKind
  pub browse : BrowseKind
  pub connection_fields : List FieldSpec
  pub addressing_fields : List FieldSpec
  pub default_port : ℕ
