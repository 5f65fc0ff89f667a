-- ===== src/State/Events.antt =====
-- `apply_event` of src/web/state.rs: each event of the worker changes the state and is passed on.
use netix_republisher.Prelude.{
  Eq, List, Option, String, [], map, max, nat_eq, none, some, string_eq, take, unwrap_or, ◌%◌, ◌+◌,
  ◌∷◌,
}
use netix_republisher.Text.{decimal, join, ◌<>◌}
use netix_republisher.Dict.{Dict, insert, lookup}
use netix_republisher.Json.{Json, array, nat, object, opt, str}
use netix_republisher.Engine.{
  Engine, Lifecycle, MergedPoints, PointSample, PointStatus, ReadFailure, WorkerEvent, error,
  failed, info, warning,
}
use netix_republisher.Dto.Status.{lifecycle_dto, status_dto, status_dto_json}
use netix_republisher.Dto.Points.{SampleDto, equals, identity_key, sample_dto, sample_json}
use netix_republisher.State.{
  App, World, emit, log_and_emit, recent_sample_capacity, set_status, with_config, with_shared,
  word,
}
use netix_republisher.State.Action.{save_config}
use netix_republisher.State.Views.{browsed_points_json, devices_json, emit_points}

-- `HashMap<String, Value>`: the statuses that an event changed, by the keys of the UI.
abbrev pub Changed : Type 0
Changed = Dict String Json

abbrev pub status_value : PointStatus → Json
status_value status = status_dto_json (status_dto (some status))

abbrev pub statuses_event : Changed → Json
statuses_event changed = object (("type", str "statuses") ∷ ("statuses", object changed) ∷ [])

-- `.lifecycle` and its error message.
abbrev pub failure_message : Lifecycle → Option String
failure_message (failed why) = some ("Republisher failed: " <> why)
failure_message _ = none

module _ {I : Type 0} (engine : Engine I) where
  -- `push_front` for each sample, in order.
  unfoldable pub push_samples : List PointSample → List SampleDto → List SampleDto
  push_samples [] recent = recent
  push_samples (sample ∷ rest) recent = push_samples rest (sample_dto engine sample ∷ recent)

  -- The key that a publish event builds from an identity.
  unfoldable pub publish_key : I → String
  unfolding equals join
  publish_key identity = join "," (map equals (engine.identity_entries identity))

  unfoldable pub record_publish : Option String → PointStatus → PointStatus
  record_publish none status = engine.record_publish_success status
  record_publish (some message) status = engine.record_publish_failure status message

  -- One log record and one event for each warning.
  unfoldable pub log_warnings : List String → World I → World I
  unfolding log_and_emit
  log_warnings [] w = w
  log_warnings (message ∷ rest) w = log_warnings rest (log_and_emit engine warning message w)

module _ {I : Type 0} ⦃e : Eq I⦄ (engine : Engine I) where
  -- `statuses.entry(identity).or_default()`, changed in place.
  unfoldable pub status_of : I → Dict I PointStatus → PointStatus
  status_of identity statuses = unwrap_or (lookup identity statuses) engine.default_status

  unfoldable pub record_samples :
      List PointSample → Dict I PointStatus × Changed → Dict I PointStatus × Changed
  unfolding status_of
  record_samples [] acc = acc
  record_samples (sample ∷ rest) (statuses, changed) =
      let identity = engine.from_point sample.point in
      let status = engine.record_sample (status_of identity statuses) sample in
      record_samples rest (
        insert identity status statuses,
        insert (identity_key engine sample.point) (status_value status) changed,
      )

  unfoldable pub record_failures :
      List ReadFailure → Dict I PointStatus × Changed → Dict I PointStatus × Changed
  unfolding status_of
  record_failures [] acc = acc
  record_failures (failure ∷ rest) (statuses, changed) =
      let identity = engine.from_point failure.point in
      let status = engine.record_read_failure (status_of identity statuses) failure.error in
      record_failures rest (
        insert identity status statuses,
        insert (identity_key engine failure.point) (status_value status) changed,
      )

module _ {I : Type 0} ⦃e : Eq I⦄ (app : App I) where
  abbrev pub with_merged : MergedPoints → World I → World I
  with_merged merged w =
      with_shared (λ s. record s { scan_progress = none })
        (with_config (λ c. record c { points = merged.points }) w)

  -- `let _ = state.save_config(…)`: the outcome is dropped.
  abbrev pub try_save : World I → World I
  try_save w = (save_config app w).1

  unfoldable pub apply_event : WorkerEvent I → World I → World I
  unfolding log_and_emit log_warnings set_status emit_points
  apply_event (WorkerEvent.logged level message) w = log_and_emit app.engine level message w
  apply_event (WorkerEvent.devices found warnings) w =
      let w1 =
        log_warnings app.engine warnings (with_shared (λ s. record s { devices = found }) w) in
      emit (object (("type", str "devices") ∷ ("devices", devices_json w1.shared.devices) ∷ [])) w1
  apply_event (WorkerEvent.points found) w =
      emit
        (object (("type", str "browsed") ∷ ("points", browsed_points_json app.engine found) ∷ []))
        (with_shared (λ s. record s { browsed = found }) w)
  apply_event (WorkerEvent.scan_progress current total) w =
      emit
        (object
          (("type", str "scan_progress") ∷ ("current", nat current) ∷ ("total", nat total) ∷ []))
        (with_shared (λ s. record s { scan_progress = some (current, total) }) w)
  apply_event (WorkerEvent.bulk_tag_import merged) w =
      let message =
        "Bulk import: "
        <> decimal merged.added
        <> " added, "
        <> decimal merged.updated
        <> " updated" in
      emit_points app.engine (set_status app.engine info message (try_save (with_merged merged w)))
  apply_event (WorkerEvent.samples samples) w =
      let (statuses, changed) = record_samples app.engine samples (w.shared.statuses, []) in
      let recent = push_samples app.engine samples w.shared.recent_samples in
      let w1 =
        with_shared
          (λ s. record s {
            statuses = statuses;
            recent_samples = take recent_sample_capacity recent;
          })
          w in
      emit
        (object (
          ("type", str "samples")
          ∷ ("samples", array (map (λ x. sample_json (sample_dto app.engine x)) samples))
          ∷ ("statuses", object changed)
          ∷ []))
        w1
  apply_event (WorkerEvent.failures failures) w =
      let (statuses, changed) = record_failures app.engine failures (w.shared.statuses, []) in
      emit (statuses_event changed) (with_shared (λ s. record s { statuses = statuses }) w)
  apply_event (WorkerEvent.publish_status stats) w =
      let published = (w.shared.published_total + stats.published) % word in
      let acked = max w.shared.acked_total stats.acked in
      let last_error = stats.last_error in
      emit
        (object (
          ("type", str "stats")
          ∷ ("published_total", nat published)
          ∷ ("acked_total", nat acked)
          ∷ ("last_error", opt str last_error)
          ∷ []))
        (with_shared
          (λ s. record s {
            published_total = published;
            acked_total = acked;
            last_error = last_error;
          })
          w)
  apply_event (WorkerEvent.point_publish identity failure) w =
      let status =
        record_publish app.engine failure (status_of app.engine identity w.shared.statuses) in
      emit (statuses_event ((publish_key app.engine identity, status_value status) ∷ []))
        (with_shared (λ s. record s { statuses = insert identity status s.statuses }) w)
  apply_event (WorkerEvent.lifecycle stage) w =
      let w1 : World I = elim (failure_message stage) [
        | none ↦ w
        | some message ↦ log_and_emit app.engine error message w
      ] in
      emit (object (("type", str "lifecycle") ∷ ("lifecycle", lifecycle_dto stage) ∷ []))
        (with_shared (λ s. record s { lifecycle = stage }) w1)
  apply_event (WorkerEvent.finished message) w = log_and_emit app.engine info message w

  -- The drain thread: events in the order in which the worker sends them.
  unfoldable pub drain : List (WorkerEvent I) → World I → World I
  drain [] w = w
  drain (event ∷ rest) w = drain rest (apply_event event w)
