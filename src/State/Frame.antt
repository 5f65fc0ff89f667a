-- ===== src/State/Frame.antt =====
-- What a status message and a save leave alone.
use netix_republisher.Prelude.{
  Result, String, arith, err, if◌then◌else◌, is_some, length, none, ok, ◌↔◌, ◌∷◌, ◌≡◌,
}
use netix_republisher.State.{App, World, log_and_emit, set_status}
use netix_republisher.Engine.{Engine, LogLevel}
use netix_republisher.State.Action.{save_config, save_outcome}

-- The second world differs from the first in logs, status line and events at most.
pub record SameButTalk {I : Type 0} (w w' : World I) : Type 0 where
  pub config : w'.shared.config ≡ w.shared.config
  pub devices : w'.shared.devices ≡ w.shared.devices
  pub browsed : w'.shared.browsed ≡ w.shared.browsed
  pub scan_progress : w'.shared.scan_progress ≡ w.shared.scan_progress
  pub statuses : w'.shared.statuses ≡ w.shared.statuses
  pub recent_samples : w'.shared.recent_samples ≡ w.shared.recent_samples
  pub lifecycle : w'.shared.lifecycle ≡ w.shared.lifecycle
  pub stop_flag : w'.shared.stop_flag ≡ w.shared.stop_flag
  pub published_total : w'.shared.published_total ≡ w.shared.published_total
  pub acked_total : w'.shared.acked_total ≡ w.shared.acked_total
  pub last_error : w'.shared.last_error ≡ w.shared.last_error
  pub jobs : w'.jobs ≡ w.jobs
  pub flags : w'.flags ≡ w.flags
  pub saves : w'.saves ≡ w.saves
  pub auth : w'.auth ≡ w.auth

module _ {I : Type 0} (engine : Engine I) (level : LogLevel) (message : String) (w : World I) where
  pub set_status-SameButTalk : SameButTalk w (set_status engine level message w)
  unfolding set_status
  set_status-SameButTalk = ground arith

  pub log_and_emit-SameButTalk : SameButTalk w (log_and_emit engine level message w)
  unfolding log_and_emit
  log_and_emit-SameButTalk = ground arith

module _ {I : Type 0} (app : App I) where
  pub save_config-SameButTalk :
      (w : World I)
      → let after = (save_config app w).1 in SameButTalk (record w { saves = after.saves }) after
  unfolding save_config save_outcome set_status
  save_config-SameButTalk w = ground arith

  -- The reply that the UI shows.
  abbrev pub save_message : Result (Unit {0}) String → String
  save_message (ok _) = "Configuration saved"
  save_message (err message) = message

  -- A save succeeds exactly if the configuration is valid and its file is written. An invalid
  -- configuration is not written. Either way the status line tells the outcome, and nothing but
  -- logs, status line, events and the attempts to save changes.
  pub save_config_lem :
      (w : World I)
      → let outcome = app.engine.save_to_path (length w.saves) app.config_path w.shared.config in
        (((save_config app w).0 ≡ ok tt)
          ↔ ((app.engine.validate w.shared.config ≡ none) × (outcome ≡ none)))
        × ((save_config app w).1.saves ≡ (
            if is_some (app.engine.validate w.shared.config)
            then w.saves
            else (w.shared.config, outcome) ∷ w.saves))
        × ((save_config app w).1.shared.status_line ≡ save_message (save_config app w).0)
        × SameButTalk (record w { saves = (save_config app w).1.saves }) (save_config app w).1
  unfolding save_config save_outcome set_status
  save_config_lem w = (
    (λ h. (ground arith, ground arith), λ h. ground arith),
    ground arith,
    ground arith,
    save_config-SameButTalk w,
  )
