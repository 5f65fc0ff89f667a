-- ===== src/State.antt =====
-- src/web/state.rs: the daemon's state, its log ring, status line and saves. The mutex makes each
-- operation one step on a `World`; the lists of what leaves the daemon are the latest first.
pub mod Action
pub mod Views
pub mod Events
pub mod Frame
pub mod Logs
pub mod Numbering
pub mod Secrets
pub mod Samples
pub mod Statuses
use netix_republisher.Prelude.{
  Bool, List, Option, String, [], if◌then◌else◌, leb, length, nat_eq, none, string_eq, ℕ, ℤ, ◌%◌,
  ◌++◌, ◌+◌, ◌^◌, ◌∷◌,
}
use netix_republisher.Dict.{Dict, insert}
use netix_republisher.Json.{Json, nat, num, object, str}
use netix_republisher.Config.{AppConfig, Capabilities}
use netix_republisher.Engine.{
  DiscoveredDevice, DiscoveredPoint, Engine, Factory, Job, Lifecycle, LogLevel, PointStatus, error,
  info, stopped, warning,
}
use netix_republisher.Auth.{Auth, ip_eq}
use netix_republisher.Dto.Points.{SampleDto}

abbrev pub log_capacity : ℕ
log_capacity = 500

abbrev pub recent_sample_capacity : ℕ
recent_sample_capacity = 200

pub record LogRecord : Type 0 where
  pub seq : ℕ
  pub ts_ms : ℤ
  pub level : String
  pub message : String

pub level_str : LogLevel → String
level_str info = "info"
level_str warning = "warning"
level_str error = "error"

-- `logs` is the oldest first, `recent_samples` the latest first. `stop_flag` is the place of a flag
-- in the store of the world.
pub record Shared (I : Type 0) : Type 0 where
  pub config : AppConfig
  pub devices : List DiscoveredDevice
  pub browsed : List DiscoveredPoint
  pub scan_progress : Option (ℕ × ℕ)
  pub statuses : Dict I PointStatus
  pub recent_samples : List SampleDto
  pub logs : List LogRecord
  pub log_seq : ℕ
  pub lifecycle : Lifecycle
  pub stop_flag : Option ℕ
  pub published_total : ℕ
  pub acked_total : ℕ
  pub last_error : Option String
  pub status_line : String

-- What stays the same while the daemon runs.
pub record App (I : Type 0) : Type 0 where
  pub engine : Engine I
  pub registry_get : String → Option Factory
  pub caps : Dict String Capabilities
  pub protocol_ids : List String
  pub config_path : String

-- What changes: the state behind the lock, the events sent to subscribers, the jobs handed to the
-- worker, the flags that jobs share, the attempts to save with their outcomes, and the sessions.
pub record World (I : Type 0) : Type 0 where
  pub shared : Shared I
  pub events : List Json
  pub jobs : List Job
  pub flags : List Bool
  pub saves : List (AppConfig × Option String)
  pub auth : Auth

pub record Registry : Type 0 where
  pub get : String → Option Factory
  pub ids : List String
  pub capabilities : List Capabilities

abbrev pub word : ℕ
word = 2 ^ 64

pub drop_oldest : List LogRecord → List LogRecord
drop_oldest [] = []
drop_oldest (r ∷ rs) = rs

abbrev pub log_json : LogRecord → Json
log_json r = object (
    ("seq", nat r.seq)
    ∷ ("ts_ms", num r.ts_ms)
    ∷ ("level", str r.level)
    ∷ ("message", str r.message)
    ∷ [])

-- A map from a list of pairs: the last value of a key counts.
unfoldable pub collect : List Capabilities → Dict String Capabilities → Dict String Capabilities
collect [] m = m
collect (c ∷ cs) m = collect cs (insert c.id c m)

module _ {I : Type 0} (engine : Engine I) where
  unfoldable pub push_log : LogLevel → String → Shared I → LogRecord × Shared I
  unfolding drop_oldest level_str
  push_log level message shared =
      let kept =
        if leb log_capacity (length shared.logs) then drop_oldest shared.logs else shared.logs in
      let seq = (shared.log_seq + 1) % word in
      let entry : LogRecord = record {
        seq = seq;
        ts_ms = engine.now_millis seq;
        level = level_str level;
        message = message;
      } in
      (entry, record shared { logs = kept ++ entry ∷ []; log_seq = seq })

-- `WebState::new`
module _ {I : Type 0} (engine : Engine I) (registry : Registry) where
  unfoldable pub new_app : (config_path : String) → App I
  unfolding collect
  new_app config_path = record {
    engine = engine;
    registry_get = registry.get;
    caps = collect registry.capabilities [];
    protocol_ids = registry.ids;
    config_path = config_path;
  }

  unfoldable pub new_world : AppConfig → Auth → (boot_status : String) → World I
  unfolding push_log
  new_world config auth boot_status =
      let blank : Shared I = record {
        config = config;
        devices = [];
        browsed = [];
        scan_progress = none;
        statuses = [];
        recent_samples = [];
        logs = [];
        log_seq = 0;
        lifecycle = stopped;
        stop_flag = none;
        published_total = 0;
        acked_total = 0;
        last_error = none;
        status_line = boot_status;
      } in
      record {
        shared = (push_log engine info boot_status blank).1;
        events = [];
        jobs = [];
        flags = [];
        saves = [];
        auth = auth;
      }

module _ {I : Type 0} where
  -- One payload to every subscriber.
  abbrev pub emit : Json → World I → World I
  emit value w = record w { events = value ∷ w.events }

  abbrev pub with_shared : (Shared I → Shared I) → World I → World I
  with_shared f w = record w { shared = f w.shared }

  abbrev pub with_config : (AppConfig → AppConfig) → World I → World I
  with_config f = with_shared (λ s. record s { config = f s.config })

  -- `push_log` on its own, then the event for the new record.
  unfoldable pub log_and_emit : Engine I → LogLevel → String → World I → World I
  unfolding push_log
  log_and_emit engine level message w =
      let (entry, shared) = push_log engine level message w.shared in
      emit (object (("type", str "log") ∷ ("record", log_json entry) ∷ []))
        (record w { shared = shared })

  unfoldable pub set_status : Engine I → LogLevel → String → World I → World I
  unfolding push_log
  set_status engine level message w =
      let (entry, shared) =
        push_log engine level message (record w.shared { status_line = message }) in
      emit
        (object (
          ("type", str "log")
          ∷ ("record", log_json entry)
          ∷ ("status_line", str shared.status_line)
          ∷ []))
        (record w { shared = shared })
