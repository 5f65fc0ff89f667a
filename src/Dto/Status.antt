-- ===== src/Dto/Status.antt =====
-- src/web/dto.rs: the status of a point, and of the republisher.
use netix_republisher.Prelude.{
  Bool, Option, String, [], if◌then◌else◌, is_some, map_option, none, some, true, ℕ, ℤ, ◌∷◌,
}
use netix_republisher.Json.{Json, bool, nat, num, object, opt, opt_field, str}
use netix_republisher.Engine.{Lifecycle, PointStatus, failed, running, starting, stopped, stopping}

pub record PointStatusDto : Type 0 where
  pub state : String
  pub last_value : Option Json
  pub last_value_display : Option String
  pub last_sample_ms : Option ℤ
  pub stale : Bool
  pub consecutive_failures : ℕ
  pub last_error : Option String
  pub last_publish_error : Option String

-- The chip that the UI shows.
pub status_state : PointStatus → String
status_state status =
    if is_some status.last_publish_error
    then "publish_error"
    else if is_some status.last_error
    then "read_error"
    else if status.stale
    then "stale"
    else "ok"

unfoldable pub status_dto : Option PointStatus → PointStatusDto
unfolding status_state
status_dto none = record {
  state = "unknown";
  last_value = none;
  last_value_display = none;
  last_sample_ms = none;
  stale = true;
  consecutive_failures = 0;
  last_error = none;
  last_publish_error = none;
}
status_dto (some status) = record {
  state = status_state status;
  last_value = map_option (λ v. v.as_json_value) status.last_value;
  last_value_display = map_option (λ v. v.display) status.last_value;
  last_sample_ms = status.last_sample_ms;
  stale = status.stale;
  consecutive_failures = status.consecutive_failures;
  last_error = status.last_error;
  last_publish_error = status.last_publish_error;
}

unfoldable pub status_dto_json : PointStatusDto → Json
status_dto_json d = object (
    ("state", str d.state)
    ∷ opt_field "last_value" (λ v. v) d.last_value
        (opt_field "last_value_display" str d.last_value_display (
          opt_field "last_sample_ms" num d.last_sample_ms (
            ("stale", bool d.stale)
            ∷ ("consecutive_failures", nat d.consecutive_failures)
            ∷ opt_field "last_error" str d.last_error
                (opt_field "last_publish_error" str d.last_publish_error [])))))

lifecycle_state : Lifecycle → String × Option String
lifecycle_state starting = ("starting", none)
lifecycle_state running = ("running", none)
lifecycle_state stopping = ("stopping", none)
lifecycle_state stopped = ("stopped", none)
lifecycle_state (failed why) = ("failed", some why)

unfoldable pub lifecycle_dto : Lifecycle → Json
unfolding lifecycle_state
lifecycle_dto stage =
    let (state, why) = lifecycle_state stage in
    object (("state", str state) ∷ ("error", opt str why) ∷ [])
