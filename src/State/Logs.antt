-- ===== src/State/Logs.antt =====
-- The log ring of src/web/state.rs: its bound and its numbering.
use netix_republisher.Prelude.{
  Eq, List, Option, Option-cases, String, [], arith, inl, inr, length, length-concat,
  length-take-le, none, refl, some, ◌-◌, ◌∷◌, ◌≡◌, ◌≤◌,
}
use netix_republisher.Engine.{
  Engine, LogLevel, WorkerEvent, error, failed, info, running, starting, stopped, stopping, warning,
}
use netix_republisher.State.{
  App, LogRecord, Shared, World, drop_oldest, log_and_emit, log_capacity, push_log,
  recent_sample_capacity, set_status, with_shared,
}
use netix_republisher.State.Action.{save_config, save_outcome}
use netix_republisher.State.Events.{apply_event, drain, log_warnings, try_save, with_merged}
use netix_republisher.Text.{◌<>◌}

-- The two rings stay within their capacities.
record IsBounded {I : Type 0} (s : Shared I) : Type 0 where
  few_logs : length s.logs ≤ log_capacity
  few_samples : length s.recent_samples ≤ recent_sample_capacity

pub length-drop_oldest : (rs : List LogRecord) → length (drop_oldest rs) ≡ length rs - 1
unfolding drop_oldest
length-drop_oldest [] = omega arith
length-drop_oldest (r ∷ rs) = omega arith

IsBounded-same :
    {I : Type 0} (s t : Shared I)
    → s.logs ≡ t.logs
    → s.recent_samples ≡ t.recent_samples
    → IsBounded s
    → IsBounded t
IsBounded-same s t logs samples b = record {
  few_logs = rw (← logs) b.few_logs;
  few_samples = rw (← samples) b.few_samples;
}

module _ {I : Type 0} (engine : Engine I) where
  push_log-IsBounded :
      (level : LogLevel) (message : String) (s : Shared I)
      → IsBounded s
      → IsBounded (push_log engine level message s).1
  unfolding push_log
  push_log-IsBounded level message s b = grind (arith, length-concat, length-drop_oldest)

  set_status-IsBounded :
      (level : LogLevel) (message : String) (w : World I)
      → IsBounded w.shared
      → IsBounded (set_status engine level message w).shared
  unfolding set_status
  set_status-IsBounded level message w b =
      push_log-IsBounded level message (record w.shared { status_line = message })
        (record { few_logs = b.few_logs; few_samples = b.few_samples })

  log_and_emit-IsBounded :
      (level : LogLevel) (message : String) (w : World I)
      → IsBounded w.shared
      → IsBounded (log_and_emit engine level message w).shared
  unfolding log_and_emit
  log_and_emit-IsBounded level message w b = push_log-IsBounded level message w.shared b

  log_warnings-IsBounded :
      (messages : List String) (w : World I)
      → IsBounded w.shared
      → IsBounded (log_warnings engine messages w).shared
  unfolding log_warnings
  log_warnings-IsBounded [] w b = b
  log_warnings-IsBounded (m ∷ ms) w b =
      log_warnings-IsBounded ms (log_and_emit engine warning m w)
        (log_and_emit-IsBounded warning m w b)

module _ {I : Type 0} (app : App I) where
  save_outcome-IsBounded :
      (outcome : Option String) (w : World I)
      → IsBounded w.shared
      → IsBounded (save_outcome app outcome w).1.shared
  unfolding save_outcome
  save_outcome-IsBounded none w b = set_status-IsBounded app.engine info _ w b
  save_outcome-IsBounded (some why) w b = set_status-IsBounded app.engine error _ w b

  save_config-IsBounded :
      (w : World I) → IsBounded w.shared → IsBounded (save_config app w).1.shared
  unfolding save_config
  save_config-IsBounded w b = elim (Option-cases (app.engine.validate w.shared.config)) [
    | inl valid ↦ rw (valid, save_config) (save_outcome-IsBounded _ _ b)
    | inr (why, invalid) ↦ rw (invalid, save_config) (set_status-IsBounded app.engine error _ w b)
  ]

module _ {I : Type 0} ⦃e : Eq I⦄ (app : App I) where
  -- Every event of the worker keeps both rings within their capacities.
  apply_event-IsBounded :
      (event : WorkerEvent I) (w : World I)
      → IsBounded w.shared
      → IsBounded (apply_event app event w).shared
  unfolding apply_event
  apply_event-IsBounded (WorkerEvent.logged level message) w b =
      log_and_emit-IsBounded app.engine level message w b
  apply_event-IsBounded (WorkerEvent.devices found warnings) w b =
      log_warnings-IsBounded app.engine warnings (with_shared (λ s. record s { devices = found }) w)
        (IsBounded-same w.shared _ refl refl b)
  apply_event-IsBounded (WorkerEvent.points found) w b = IsBounded-same w.shared _ refl refl b
  apply_event-IsBounded (WorkerEvent.scan_progress current total) w b =
      IsBounded-same w.shared _ refl refl b
  apply_event-IsBounded (WorkerEvent.bulk_tag_import merged) w b =
      set_status-IsBounded app.engine info _ (try_save app (with_merged app merged w)) (
        save_config-IsBounded app (with_merged app merged w)
          (IsBounded-same w.shared _ refl refl b))
  apply_event-IsBounded (WorkerEvent.samples samples) w b = record {
    few_logs = b.few_logs;
    few_samples = length-take-le recent_sample_capacity _;
  }
  apply_event-IsBounded (WorkerEvent.failures failures) w b = IsBounded-same w.shared _ refl refl b
  apply_event-IsBounded (WorkerEvent.publish_status stats) w b =
      IsBounded-same w.shared _ refl refl b
  apply_event-IsBounded (WorkerEvent.point_publish identity failure) w b =
      IsBounded-same w.shared _ refl refl b
  apply_event-IsBounded (WorkerEvent.lifecycle (failed why)) w b =
      IsBounded-same _ _ refl refl
        (log_and_emit-IsBounded app.engine error ("Republisher failed: " <> why) w b)
  apply_event-IsBounded (WorkerEvent.lifecycle starting) w b = IsBounded-same w.shared _ refl refl b
  apply_event-IsBounded (WorkerEvent.lifecycle running) w b = IsBounded-same w.shared _ refl refl b
  apply_event-IsBounded (WorkerEvent.lifecycle stopping) w b = IsBounded-same w.shared _ refl refl b
  apply_event-IsBounded (WorkerEvent.lifecycle stopped) w b = IsBounded-same w.shared _ refl refl b
  apply_event-IsBounded (WorkerEvent.finished message) w b =
      log_and_emit-IsBounded app.engine info message w b

  -- From rings within their capacities, whatever the worker sends, the log ring holds at most 500
  -- records and the ring of samples at most 200.
  drain-IsBounded :
      (events : List (WorkerEvent I)) (w : World I)
      → IsBounded w.shared
      → IsBounded (drain app events w).shared
  unfolding drain
  drain-IsBounded [] w b = b
  drain-IsBounded (event ∷ rest) w b =
      drain-IsBounded rest (apply_event app event w) (apply_event-IsBounded event w b)
