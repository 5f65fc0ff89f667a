-- ===== src/Api/Discovery.antt =====
-- src/web/api.rs: protocol and connection, discovery, browsing, scanning and polling.
pub mod Laws
use netix_republisher.Prelude.{
  String, [], err, get_elem?, if◌then◌else◌, is_empty, length, nat_eq, ok, some, string_eq, ℕ, ◌∷◌,
}
use netix_republisher.Json.{nat, object, str}
use netix_republisher.State.{App, World, emit, set_status, with_config, with_shared}
use netix_republisher.Dict.{Dict, contains_key, lookup}
use netix_republisher.Config.{Addressing}
use netix_republisher.Text.{◌<>◌}
use netix_republisher.Engine.{Job, info, warning}
use netix_republisher.Api.{
  Handler, bad_request, build_addressing, config_event, devices_event, no_browsed_event, not_found,
  ok_json, save_or_400, say, selected_factory, spawn,
}
use netix_republisher.State.Action.{gets, modify, or_fail, pure, ◌>>=◌, ◌>>◌}

module _ {I : Type 0} (app : App I) where
  unfoldable pub set_protocol : String → Handler I
  set_protocol id w =
      if contains_key id app.caps
      then (
        ok ok_json,
        emit no_browsed_event (
            emit (devices_event []) (
              config_event app (
                with_shared
                  (λ s. record s {
                    config = record s.config { protocol = id };
                    devices = [];
                    browsed = [];
                  })
                  w))),
      )
      else (err (bad_request ("unknown protocol '" <> id <> "'")), w)

  -- The selected protocol's connection is replaced.
  abbrev put_connection : Addressing → World I → World I
  put_connection addressing = with_config (λ c. (app.engine.connection_mut c).1 addressing)

  unfoldable pub set_connection : Dict String String → Handler I
  set_connection values = do
    protocol ← gets (λ w. w.shared.config.protocol)
    caps ← or_fail (lookup protocol app.caps) (bad_request "no protocol selected")
    modify (put_connection (build_addressing caps.connection_fields values))
    save_or_400 app
    modify (config_event app)
    pure ok_json

  unfoldable pub discover : Handler I
  discover = do
    factory ← selected_factory app
    modify (with_shared (λ s. record s { devices = [] }))
    say app info "Discovering…"
    modify (emit (devices_event []))
    modify (λ w. spawn (Job.discovery factory (app.engine.connection w.shared.config)) w)
    pure ok_json

  unfoldable pub browse_device : ℕ → Handler I
  browse_device index = do
    devices ← gets (λ w. w.shared.devices)
    device ← or_fail (get_elem? devices index) (not_found "no such discovered device")
    factory ← selected_factory app
    modify (with_shared (λ s. record s { browsed = [] }))
    say app info ("Browsing " <> device.key <> "…")
    modify (emit no_browsed_event)
    modify (λ w. spawn (Job.browse factory (app.engine.connection w.shared.config) device) w)
    pure ok_json

  -- The part of `scan_all` behind the test for devices.
  scan_devices : Handler I
  scan_devices = do
    factory ← selected_factory app
    devices ← gets (λ w. w.shared.devices)
    existing ← gets (λ w. w.shared.config.points)
    modify (with_shared (λ s. record s { scan_progress = some (0, length devices) }))
    say app info "Scanning all objects…"
    modify (
        emit (
          object (
            ("type", str "scan_progress")
            ∷ ("current", nat 0)
            ∷ ("total", nat (length devices))
            ∷ [])))
    modify (λ w.
        spawn
          (Job.scan_all_objects factory (app.engine.connection w.shared.config) devices existing) w)
    pure ok_json

  unfoldable pub scan_all : Handler I
  unfolding scan_devices
  scan_all w =
      if is_empty w.shared.devices
      then (
        err (bad_request "discover devices before scan-all"),
        set_status app.engine warning "Discover devices before scan-all" w,
      )
      else scan_devices w

  unfoldable pub poll_once : Handler I
  poll_once = do
    factory ← selected_factory app
    modify (λ w.
        spawn
          (Job.poll_once factory (app.engine.connection w.shared.config) w.shared.config.mqtt
            w.shared.config.points)
          w)
    say app info "Polling once…"
    pure ok_json
