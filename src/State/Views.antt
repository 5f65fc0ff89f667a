-- ===== src/State/Views.antt =====
-- src/web/state.rs: the documents that describe the whole state.
use netix_republisher.Prelude.{
  Eq, List, Option, String, [], if◌then◌else◌, length, map, nat_eq, none, some, string_eq, suc, ℕ,
  ◌∷◌,
}
use netix_republisher.Dict.{Dict, lookup}
use netix_republisher.Json.{Json, array, enumerate, nat, null, object, opt, str}
use netix_republisher.Config.{Capabilities}
use netix_republisher.Engine.{DiscoveredDevice, DiscoveredPoint, Engine, PointStatus}
use netix_republisher.Dto.Capability.{capabilities_dto, capabilities_json, device_dto, device_json}
use netix_republisher.Dto.Status.{lifecycle_dto}
use netix_republisher.Dto.Points.{browsed_dto, browsed_json, point_dto, point_json, sample_json}
use netix_republisher.Dto.Redaction.{redacted_config}
use netix_republisher.State.{App, Shared, World, emit, log_json}

-- `filter_map(|id| caps.get(id))`
unfoldable pub capabilities_of : Dict String Capabilities → List String → List Json
capabilities_of caps [] = []
capabilities_of caps (id ∷ ids) =
    let rest = capabilities_of caps ids in
    elim (lookup id caps) [ none ↦ rest | some c ↦ capabilities_json (capabilities_dto c) ∷ rest ]

abbrev pub devices_json : List DiscoveredDevice → Json
devices_json devices = array (enumerate (λ i d. device_json (device_dto i d)) 0 devices)

-- How many points have gone stale.
pub stale_points : {I : Type 0} → Dict I PointStatus → ℕ
stale_points [] = 0
stale_points ((_, s) ∷ m) = let rest = stale_points m in if s.stale then suc rest else rest

scan_progress_json : Option (ℕ × ℕ) → Json
scan_progress_json none = null
scan_progress_json (some (current, total)) =
    object (("current", nat current) ∷ ("total", nat total) ∷ [])

module _ {I : Type 0} ⦃e : Eq I⦄ (engine : Engine I) where
  abbrev pub browsed_points_json : List DiscoveredPoint → Json
  browsed_points_json points =
      array (enumerate (λ i p. browsed_json engine (browsed_dto engine i p)) 0 points)

  unfoldable pub points_json : Shared I → Json
  points_json shared = array (
      enumerate
        (λ i p.
          point_json engine (
            point_dto engine i p shared.config.mqtt (lookup (engine.from_point p) shared.statuses)))
        0 shared.config.points)

  unfoldable pub points_event : Shared I → Json
  unfolding points_json
  points_event shared = object (("type", str "points") ∷ ("points", points_json shared) ∷ [])

  -- `emit_points`
  unfoldable pub emit_points : World I → World I
  unfolding points_event
  emit_points w = emit (points_event w.shared) w

module _ {I : Type 0} ⦃e : Eq I⦄ (app : App I) where
  unfoldable pub status_json : Shared I → Json
  unfolding stale_points scan_progress_json
  status_json shared = object (
      ("status_line", str shared.status_line)
      ∷ ("protocol", str shared.config.protocol)
      ∷ ("lifecycle", lifecycle_dto shared.lifecycle)
      ∷ ("points", nat (length shared.config.points))
      ∷ ("devices", nat (length shared.devices))
      ∷ ("published_total", nat shared.published_total)
      ∷ ("acked_total", nat shared.acked_total)
      ∷ ("last_error", opt str shared.last_error)
      ∷ ("stale_points", nat (stale_points shared.statuses))
      ∷ ("scan_progress", scan_progress_json shared.scan_progress)
      ∷ ("config_path", str app.config_path)
      ∷ [])

  unfoldable pub snapshot_json : Shared I → Json
  unfolding status_json points_json capabilities_of
  snapshot_json shared = object (
      ("type", str "snapshot")
      ∷ ("status", status_json shared)
      ∷ ("capabilities", array (capabilities_of app.caps app.protocol_ids))
      ∷ ("config", redacted_config app.engine shared.config)
      ∷ ("devices", devices_json shared.devices)
      ∷ ("browsed", browsed_points_json app.engine shared.browsed)
      ∷ ("points", points_json app.engine shared)
      ∷ ("recent_samples", array (map sample_json shared.recent_samples))
      ∷ ("logs", array (map log_json shared.logs))
      ∷ [])
