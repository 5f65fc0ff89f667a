-- ===== src/System/Calm.antt =====
-- What the handlers of src/web/api.rs that start and stop nothing, and the events of the worker,
-- leave alone.
use netix_republisher.Prelude.{
  Bool, Eq, List, String, [], arith, length, length-concat, nat_eq, string_eq, ℕ, ◌∷◌, ◌≡◌, ◌≤◌,
}
use netix_republisher.Dict.{Dict, IsMap}
use netix_republisher.Engine.{Job}
use netix_republisher.State.{App, World, log_capacity, push_log, recent_sample_capacity, set_status}
use netix_republisher.State.Logs.{length-drop_oldest}
use netix_republisher.State.Action.{save_config, save_outcome}
use netix_republisher.State.Views.{emit_points}
use netix_republisher.Api.Discovery.{
  browse_device, discover, poll_once, scan_all, set_connection, set_protocol,
}
use netix_republisher.Api.Points.{
  PointReq, add_browsed_point, clear_points, delete_point, place_point, save_at, save_point,
  save_points, toggle_point,
}
use netix_republisher.Api.Settings.{SettingsReq, put_settings}
use netix_republisher.Api.Reads.{Interface, get_interfaces}

-- The stop flags of the republishers that were handed out, the last one first.
unfoldable pub stop_flags : List Job → List ℕ
stop_flags [] = []
stop_flags (Job.republisher factory addressing mqtt points discover_on_start stop ∷ jobs) =
    stop ∷ stop_flags jobs
stop_flags (_ ∷ jobs) = stop_flags jobs

pub record Calm {I : Type 0} ⦃e : Eq I⦄ (w w' : World I) : Type 0 where
  pub few_logs : length w.shared.logs ≤ log_capacity → length w'.shared.logs ≤ log_capacity
  pub few_samples :
      length w.shared.recent_samples ≤ recent_sample_capacity
      → length w'.shared.recent_samples ≤ recent_sample_capacity
  pub flags : w'.flags ≡ w.flags
  pub stop_flag : w'.shared.stop_flag ≡ w.shared.stop_flag
  pub started : stop_flags w'.jobs ≡ stop_flags w.jobs
  pub statuses : IsMap w.shared.statuses → IsMap w'.shared.statuses
  pub auth : w'.auth ≡ w.auth

pub ruleset rings = (arith, length-concat, length-drop_oldest)

module _ {I : Type 0} ⦃e : Eq I⦄ (app : App I) (w : World I) where
  pub discover-Calm : Calm w (discover app w).1
  unfolding discover set_status push_log stop_flags
  discover-Calm = grind rings

  pub set_protocol-Calm : (id : String) → Calm w (set_protocol app id w).1
  unfolding set_protocol
  set_protocol-Calm id = grind rings

  pub browse_device-Calm : (index : ℕ) → Calm w (browse_device app index w).1
  unfolding browse_device set_status push_log stop_flags
  browse_device-Calm index = grind rings

  pub scan_all-Calm : Calm w (scan_all app w).1
  unfolding scan_all set_status push_log stop_flags
  scan_all-Calm = grind rings

  pub poll_once-Calm : Calm w (poll_once app w).1
  unfolding poll_once set_status push_log stop_flags
  poll_once-Calm = grind rings

  pub get_interfaces-Calm :
      (interfaces : List Interface) → Calm w (get_interfaces app interfaces w).1
  unfolding get_interfaces set_status push_log
  get_interfaces-Calm interfaces = grind rings

  pub set_connection-Calm : (values : Dict String String) → Calm w (set_connection app values w).1
  unfolding set_connection save_config save_outcome set_status push_log
  set_connection-Calm values = grind rings

  pub put_settings-Calm : (req : SettingsReq) → Calm w (put_settings app req w).1
  unfolding put_settings save_config save_outcome set_status push_log
  put_settings-Calm req = grind rings

  pub save_point-Calm : (req : PointReq) → Calm w (save_point app req w).1
  unfolding save_point save_at place_point save_points emit_points save_config save_outcome
      set_status push_log
  save_point-Calm req = grind rings

  pub toggle_point-Calm : (index : ℕ) (enabled : Bool) → Calm w (toggle_point app index enabled w).1
  unfolding toggle_point save_points emit_points save_config save_outcome set_status push_log
  toggle_point-Calm index enabled = grind rings

  pub delete_point-Calm : (index : ℕ) → Calm w (delete_point app index w).1
  unfolding delete_point save_points emit_points save_config save_outcome set_status push_log
  delete_point-Calm index = grind rings

  pub clear_points-Calm : Calm w (clear_points app w).1
  unfolding clear_points emit_points save_config save_outcome set_status push_log
  clear_points-Calm = grind rings

  pub add_browsed_point-Calm : (index : ℕ) → Calm w (add_browsed_point app index w).1
  unfolding add_browsed_point emit_points save_config save_outcome set_status push_log
  add_browsed_point-Calm index = grind rings
