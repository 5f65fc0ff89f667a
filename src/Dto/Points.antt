-- ===== src/Dto/Points.antt =====
-- src/web/dto.rs: configured points, browsed points and samples.
use netix_republisher.Prelude.{Bool, Option, String, [], map, map_option, ℕ, ℤ, ◌∷◌}
use netix_republisher.Text.{join, ◌<>◌}
use netix_republisher.Json.{Json, bool, nat, num, object, opt_field, str}
use netix_republisher.Config.{Addressing, MqttConfig, PointConfig}
use netix_republisher.Engine.{DiscoveredPoint, Engine, PointSample, PointStatus}
use netix_republisher.Dto.Status.{PointStatusDto, status_dto, status_dto_json}

-- `format!("{k}={v}")` on the entries of a map.
unfoldable pub equals : String × String → String
equals (k, v) = k <> "=" <> v

module _ {I : Type 0} (engine : Engine I) where
  unfoldable pub addressing_display : Addressing → String
  unfolding equals join
  addressing_display addressing =
      join " "
        (map (λ (e : String × Json). equals (e.0, engine.json_scalar e.1)) (engine.iter addressing))

  -- The key under which the UI finds the status of a point.
  unfoldable pub identity_key : PointConfig → String
  unfolding equals join
  identity_key point = join "," (map equals (engine.identity_entries (engine.from_point point)))

pub record BrowsedPointDto : Type 0 where
  pub index : ℕ
  pub device_key : String
  pub name : Option String
  pub description : Option String
  pub units : Option String
  pub value : Option Json
  pub value_display : Option String
  pub addressing : Addressing
  pub addressing_display : String
  pub suggested_tag_path : String

pub record PointDto : Type 0 where
  pub index : ℕ
  pub identity : String
  pub enabled : Bool
  pub device_key : String
  pub tag_path : String
  pub poll_interval_secs : ℕ
  pub addressing : Addressing
  pub addressing_display : String
  pub display_name : String
  pub topic : String
  pub status : PointStatusDto

pub record SampleDto : Type 0 where
  pub identity : String
  pub device_key : String
  pub tag_path : String
  pub display_name : String
  pub topic : String
  pub value : Json
  pub value_display : String
  pub timestamp_ms : ℤ

module _ {I : Type 0} (engine : Engine I) where
  pub browsed_dto : ℕ → DiscoveredPoint → BrowsedPointDto
  browsed_dto index point = record {
    index = index;
    device_key = point.device_key;
    name = point.name;
    description = point.description;
    units = point.units;
    value = map_option (λ v. v.as_json_value) point.value;
    value_display = map_option (λ v. v.display) point.value;
    addressing = point.addressing;
    addressing_display = addressing_display engine point.addressing;
    suggested_tag_path = point.suggested_tag_path;
  }

  unfoldable pub point_dto : ℕ → PointConfig → MqttConfig → Option PointStatus → PointDto
  point_dto index point mqtt status = record {
    index = index;
    identity = identity_key engine point;
    enabled = point.enabled;
    device_key = point.device_key;
    tag_path = point.tag_path;
    poll_interval_secs = point.poll_interval_secs;
    addressing = point.addressing;
    addressing_display = addressing_display engine point.addressing;
    display_name = engine.point_name point;
    topic = engine.telemetry_topic mqtt point;
    status = status_dto status;
  }

  unfoldable pub sample_dto : PointSample → SampleDto
  sample_dto sample = record {
    identity = identity_key engine sample.point;
    device_key = sample.point.device_key;
    tag_path = sample.point.tag_path;
    display_name = engine.point_name sample.point;
    topic = sample.topic;
    value = sample.value.as_json_value;
    value_display = sample.value.display;
    timestamp_ms = sample.timestamp_ms;
  }

  pub browsed_json : BrowsedPointDto → Json
  browsed_json d = object (
      ("index", nat d.index)
      ∷ ("device_key", str d.device_key)
      ∷ opt_field "name" str d.name (
          opt_field "description" str d.description (
            opt_field "units" str d.units (
              opt_field "value" (λ v. v) d.value
                (opt_field "value_display" str d.value_display (
                  ("addressing", object (engine.iter d.addressing))
                  ∷ ("addressing_display", str d.addressing_display)
                  ∷ ("suggested_tag_path", str d.suggested_tag_path)
                  ∷ []))))))

  pub point_json : PointDto → Json
  point_json d = object (
      ("index", nat d.index)
      ∷ ("identity", str d.identity)
      ∷ ("enabled", bool d.enabled)
      ∷ ("device_key", str d.device_key)
      ∷ ("tag_path", str d.tag_path)
      ∷ ("poll_interval_secs", nat d.poll_interval_secs)
      ∷ ("addressing", object (engine.iter d.addressing))
      ∷ ("addressing_display", str d.addressing_display)
      ∷ ("display_name", str d.display_name)
      ∷ ("topic", str d.topic)
      ∷ ("status", status_dto_json d.status)
      ∷ [])

pub sample_json : SampleDto → Json
sample_json d = object (
    ("identity", str d.identity)
    ∷ ("device_key", str d.device_key)
    ∷ ("tag_path", str d.tag_path)
    ∷ ("display_name", str d.display_name)
    ∷ ("topic", str d.topic)
    ∷ ("value", d.value)
    ∷ ("value_display", str d.value_display)
    ∷ ("timestamp_ms", num d.timestamp_ms)
    ∷ [])
