-- ===== src/Api/Control.antt =====
-- src/web/api.rs: starting and stopping the republisher. The flag that a job shares with the
-- handlers is a place in the world's store of flags.
pub mod Laws
pub mod Restart
use netix_republisher.Prelude.{
  Bool, [], err, false, if◌then◌else◌, length, none, ok, set, some, true, ℕ, ◌++◌, ◌∷◌,
}
use netix_republisher.State.{App, World, set_status, with_shared}
use netix_republisher.Text.{◌<>◌}
use netix_republisher.Engine.{
  Factory, Job, Lifecycle, error, failed, info, running, starting, stopped, stopping,
}
use netix_republisher.Api.{Handler, bad_request, conflict, ok_json, say, selected_factory, spawn}
use netix_republisher.State.Action.{modify, pure, ◌>>=◌, ◌>>◌}

abbrev pub is_active : Lifecycle → Bool
is_active starting = true
is_active running = true
is_active stopping = true
is_active stopped = false
is_active (failed why) = false

module _ {I : Type 0} (app : App I) where
  -- A new flag, kept in the state and handed to the job, with the counters reset.
  abbrev pub launch : Factory → World I → World I
  launch factory w =
      let stop = length w.flags in
      let config = w.shared.config in
      spawn
        (Job.republisher factory (app.engine.connection config) config.mqtt config.points
          config.discover_on_start stop)
        (with_shared
          (λ s. record s {
            stop_flag = some stop;
            published_total = 0;
            acked_total = 0;
            last_error = none;
          })
          (record w { flags = w.flags ++ false ∷ [] }))

  unfoldable pub start_valid : Handler I
  start_valid = do
    factory ← selected_factory app
    modify (launch factory)
    say app info "Republisher starting…"
    pure ok_json

  unfoldable pub start_republisher : Handler I
  unfolding start_valid
  start_republisher w =
      if is_active w.shared.lifecycle
      then (err (conflict "republisher is already running"), w)
      else elim (app.engine.validate w.shared.config) [
        | some why ↦
            let message = "Cannot start: " <> why in
            (err (bad_request message), set_status app.engine error message w)
        | none ↦ start_valid w
      ]

  -- `stop.store(true, …)` through the state's handle.
  abbrev pub raise_flag : ℕ → World I → World I
  raise_flag stop w = record w { flags = set w.flags stop true }

  unfoldable pub stop_republisher : Handler I
  stop_republisher w = elim w.shared.stop_flag [
    | none ↦ (ok ok_json, w)
    | some stop ↦
        (ok ok_json, set_status app.engine info "Stopping republisher…" (raise_flag stop w))
  ]
