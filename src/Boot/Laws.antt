-- ===== src/Boot/Laws.antt =====
-- With which job the server starts, and what its shutdown stops.
use netix_republisher.Prelude.{
  Option-cases, String, [], ap, arith, false, get_elem?, get_elem?-set, if◌then◌else◌, inl, inr,
  is_some, none, refl, some, true, ℕ, ◌&&◌, ◌∙◌, ◌∷◌, ◌≡◌,
}
use netix_republisher.Boot.{shut_down, start_world, with_protocol}
use netix_republisher.Api.Control.{start_republisher}
use netix_republisher.Api.Control.Laws.{holds, start_republisher_lem}
use netix_republisher.Engine.{Engine, Factory, Job}
use netix_republisher.State.{App, Registry, World, new_app, new_world, set_status}
use netix_republisher.State.Frame.{SameButTalk}
use netix_republisher.Config.{AppConfig}
use netix_republisher.Auth.{Auth}

module _ {I : Type 0} (engine : Engine I) (registry : Registry) (path : String) (config : AppConfig)
    (auth : Auth) (status : String) where
  -- A boot whose configuration, with the protocol that it may be given, is valid, of a registered
  -- protocol and to start by itself hands exactly one job to the worker, with that configuration
  -- and the only stop flag, which the state keeps and which is down.
  pub start_world-autostart :
      (factory : Factory)
      → let boot = with_protocol registry.ids config in
        boot.mqtt.autostart ≡ true
        → engine.validate boot ≡ none
        → registry.get boot.protocol ≡ some factory
        → let w = start_world engine registry path config auth status in
          (w.jobs
            ≡ Job.republisher factory
                (engine.connection boot)
                boot.mqtt
                boot.points
                boot.discover_on_start
                0
              ∷ [])
          × (w.flags ≡ false ∷ [])
          × (w.shared.stop_flag ≡ some 0)
          × (w.shared.config ≡ boot)
  unfolding start_world new_world new_app
  start_world-autostart factory auto valid known =
      let app = new_app engine registry path in
      let boot = with_protocol registry.ids config in
      let w = new_world engine registry boot auth status in
      let started = (start_republisher app w).1 in
      let (_, jobs, flags, stop, _, _, same, _) =
        start_republisher_lem app factory w refl valid known in
      let runs = ap (λ b. if b then started else w) auto in
      (
        ap (λ (x : World I). x.jobs) runs ∙ jobs,
        ap (λ (x : World I). x.flags) runs ∙ flags,
        ap (λ (x : World I). x.shared.stop_flag) runs ∙ stop,
        ap (λ (x : World I). x.shared.config) runs ∙ same,
      )

-- The shutdown raises the flag of the last start, where there was one, and no other; jobs, lifecycle,
-- configuration and counters stay.
pub shut_down_lem :
    {I : Type 0} (app : App I) (w : World I) (j : ℕ)
    → let after = shut_down app w in
      (get_elem? after.flags j ≡ (
        if holds w.shared.stop_flag j && is_some (get_elem? w.flags j)
        then some true
        else get_elem? w.flags j))
      × (after.shared.status_line ≡ "Shutting down…")
      × SameButTalk (record w { flags = after.flags }) after
unfolding shut_down set_status
shut_down_lem app w j = elim (Option-cases w.shared.stop_flag) [
  | inl never ↦ ground (arith, never)
  | inr (stop, started) ↦ ground (arith, started, get_elem?-set w.flags stop j true)
]
