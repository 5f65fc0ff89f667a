-- ===== src/Dto/Capability.antt =====
-- src/web/dto.rs: field specifications, capabilities and devices.
use netix_republisher.Prelude.{List, Option, String, [], map, none, some, ℕ, ◌∷◌}
use netix_republisher.Json.{Json, array, nat, object, opt_field, str}
use netix_republisher.Config.{
  BrowseKind, Capabilities, DiscoveryKind, FieldKind, FieldSpec, address_space, boolean, broadcast,
  endpoint_query, enumeration, manual_only, no_browse, object_list, register_scan, secret,
  subnet_scan, text, u32,
}
use netix_republisher.Engine.{DiscoveredDevice}

pub record FieldSpecDto : Type 0 where
  pub key : String
  pub label : String
  pub kind : String
  pub options : Option (List String)
  pub preset : Option Json
  pub help : Option String

-- The kind's name, and the options that only an enumeration has.
kind_dto : FieldKind → String × Option (List String)
kind_dto text = ("text", none)
kind_dto u32 = ("u32", none)
kind_dto boolean = ("bool", none)
kind_dto (enumeration options) = ("enum", some options)
kind_dto secret = ("secret", none)

pub field_spec_dto : FieldSpec → FieldSpecDto
unfolding kind_dto
field_spec_dto spec =
    let (kind, options) = kind_dto spec.kind in
    record {
      key = spec.key;
      label = spec.label;
      kind = kind;
      options = options;
      preset = spec.preset;
      help = spec.help;
    }

pub field_spec_json : FieldSpecDto → Json
field_spec_json d = object (
    ("key", str d.key)
    ∷ ("label", str d.label)
    ∷ ("kind", str d.kind)
    ∷ opt_field "options" (λ os. array (map str os)) d.options
        (opt_field "default" (λ v. v) d.preset (opt_field "help" str d.help [])))

pub record CapabilitiesDto : Type 0 where
  pub id : String
  pub display_name : String
  pub discovery : String
  pub discovery_label : String
  pub browse : String
  pub connection_fields : List FieldSpecDto
  pub addressing_fields : List FieldSpecDto
  pub default_port : ℕ

discovery_dto : DiscoveryKind → String × String
discovery_dto broadcast = ("broadcast", "Discover (broadcast)")
discovery_dto endpoint_query = ("endpoint_query", "Query endpoints")
discovery_dto subnet_scan = ("subnet_scan", "Scan subnet")
discovery_dto manual_only = ("manual", "Discover")

browse_dto : BrowseKind → String
browse_dto object_list = "object_list"
browse_dto address_space = "address_space"
browse_dto register_scan = "register_scan"
browse_dto no_browse = "none"

pub capabilities_dto : Capabilities → CapabilitiesDto
unfolding discovery_dto browse_dto
capabilities_dto caps =
    let (discovery, label) = discovery_dto caps.discovery in
    record {
      id = caps.id;
      display_name = caps.display_name;
      discovery = discovery;
      discovery_label = label;
      browse = browse_dto caps.browse;
      connection_fields = map field_spec_dto caps.connection_fields;
      addressing_fields = map field_spec_dto caps.addressing_fields;
      default_port = caps.default_port;
    }

pub capabilities_json : CapabilitiesDto → Json
capabilities_json d = object (
    ("id", str d.id)
    ∷ ("display_name", str d.display_name)
    ∷ ("discovery", str d.discovery)
    ∷ ("discovery_label", str d.discovery_label)
    ∷ ("browse", str d.browse)
    ∷ ("connection_fields", array (map field_spec_json d.connection_fields))
    ∷ ("addressing_fields", array (map field_spec_json d.addressing_fields))
    ∷ ("default_port", nat d.default_port)
    ∷ [])

pub record DeviceDto : Type 0 where
  pub index : ℕ
  pub key : String
  pub instance_number : Option ℕ
  pub address : String
  pub detail : String

pub device_dto : ℕ → DiscoveredDevice → DeviceDto
device_dto index device = record {
  index = index;
  key = device.key;
  instance_number = device.instance_number;
  address = device.address;
  detail = device.detail;
}

pub device_json : DeviceDto → Json
device_json d = object (
    ("index", nat d.index)
    ∷ ("key", str d.key)
    ∷ opt_field "instance" nat d.instance_number
        (("address", str d.address) ∷ ("detail", str d.detail) ∷ []))
