-- ===== src/System/Events.antt =====
-- What the events of the worker leave alone.
use netix_republisher.Prelude.{Eq, List, String, [], arith, length-take-le, nat_eq, string_eq, ◌∷◌}
use netix_republisher.Dict.{Dict, IsMap, insert-IsMap}
use netix_republisher.Engine.{
  Engine, LogLevel, PointSample, PointStatus, ReadFailure, WorkerEvent, warning,
}
use netix_republisher.State.{
  App, World, log_and_emit, push_log, recent_sample_capacity, set_status, with_shared,
}
use netix_republisher.State.Events.{
  Changed, apply_event, log_warnings, push_samples, record_failures, record_publish, record_samples,
  status_of,
}
use netix_republisher.State.Action.{save_config, save_outcome}
use netix_republisher.State.Views.{emit_points}
use netix_republisher.System.Calm.{Calm, rings}

module _ {I : Type 0} ⦃e : Eq I⦄ (engine : Engine I) where
  record_samples-IsMap :
      (samples : List PointSample) (statuses : Dict I PointStatus) (changed : Changed)
      → IsMap statuses
      → IsMap (record_samples engine samples (statuses, changed)).0
  unfolding record_samples
  record_samples-IsMap [] statuses changed h = h
  record_samples-IsMap (sample ∷ rest) statuses changed h =
      record_samples-IsMap rest _ _ (insert-IsMap (engine.from_point sample.point) _ statuses h)

  record_failures-IsMap :
      (failures : List ReadFailure) (statuses : Dict I PointStatus) (changed : Changed)
      → IsMap statuses
      → IsMap (record_failures engine failures (statuses, changed)).0
  unfolding record_failures
  record_failures-IsMap [] statuses changed h = h
  record_failures-IsMap (failure ∷ rest) statuses changed h =
      record_failures-IsMap rest _ _ (insert-IsMap (engine.from_point failure.point) _ statuses h)

  log_and_emit-Calm :
      (level : LogLevel) (message : String) (w : World I)
      → Calm w (log_and_emit engine level message w)
  unfolding log_and_emit push_log
  log_and_emit-Calm level message w = grind rings

  Calm-trans : (u v w : World I) → Calm u v → Calm v w → Calm u w
  Calm-trans u v w a b = grind (arith, a, b)

  log_warnings-Calm :
      (messages : List String) (w : World I) → Calm w (log_warnings engine messages w)
  unfolding log_warnings
  log_warnings-Calm [] w = ground arith
  log_warnings-Calm (m ∷ ms) w =
      Calm-trans _ _ _ (log_and_emit-Calm warning m w) (log_warnings-Calm ms _)

module _ {I : Type 0} ⦃e : Eq I⦄ (app : App I) (w : World I) where
  pub apply_event-Calm : (event : WorkerEvent I) → Calm w (apply_event app event w)
  unfolding apply_event set_status emit_points save_config save_outcome push_log log_and_emit
  apply_event-Calm (WorkerEvent.logged level message) = grind rings
  apply_event-Calm (WorkerEvent.devices found warnings) = grind (
    rings,
    log_warnings-Calm app.engine warnings (with_shared (λ s. record s { devices = found }) w),
  )
  apply_event-Calm (WorkerEvent.points found) = grind rings
  apply_event-Calm (WorkerEvent.scan_progress current total) = grind rings
  apply_event-Calm (WorkerEvent.bulk_tag_import merged) = grind rings
  apply_event-Calm (WorkerEvent.samples samples) = grind (
    rings,
    length-take-le recent_sample_capacity (push_samples app.engine samples w.shared.recent_samples),
    record_samples-IsMap app.engine samples w.shared.statuses [],
  )
  apply_event-Calm (WorkerEvent.failures failures) =
      grind (rings, record_failures-IsMap app.engine failures w.shared.statuses [])
  apply_event-Calm (WorkerEvent.publish_status stats) = grind rings
  apply_event-Calm (WorkerEvent.point_publish identity failure) = grind (
    rings,
    insert-IsMap identity
        (record_publish app.engine failure (status_of app.engine identity w.shared.statuses))
        w.shared.statuses,
  )
  apply_event-Calm (WorkerEvent.lifecycle stage) = grind rings
  apply_event-Calm (WorkerEvent.finished message) = grind rings
