-- ===== src/Api/Control/Restart.antt =====
-- A stop, the worker's word that the republisher ended, and a new start.
use netix_republisher.Prelude.{
  Bool, Eq, List, Option-cases, ap, arith, false, get_elem?, get_elem?-concat, inl, inr,
  is_some-get_elem?, length, length-set, none, ok, some, true, ℕ, ◌<◌, ◌∙◌, ◌∷◌, ◌≡◌,
}
use netix_republisher.Api.{ok_json}
use netix_republisher.Api.Control.{is_active, start_republisher, stop_republisher}
use netix_republisher.Api.Control.Laws.{launched, start_republisher_lem, stop_republisher_lem}
use netix_republisher.Config.{AppConfig}
use netix_republisher.Engine.{Factory, Lifecycle, WorkerEvent}
use netix_republisher.State.{App, World, log_and_emit, set_status}
use netix_republisher.State.Events.{apply_event}

module _ {I : Type 0} ⦃e : Eq I⦄ (app : App I) where
  -- The state in which the worker has told that the republisher ended.
  abbrev pub after_end : Lifecycle → World I → World I
  after_end stage w = apply_event app (WorkerEvent.lifecycle stage) (stop_republisher app w).1

  record HasEnded (stage : Lifecycle) (w : World I) : Type 0 where
    lifecycle : (after_end stage w).shared.lifecycle ≡ stage
    config : (after_end stage w).shared.config ≡ w.shared.config
    jobs : (after_end stage w).jobs ≡ w.jobs
    flags : (after_end stage w).flags ≡ (stop_republisher app w).1.flags
    places : length (after_end stage w).flags ≡ length w.flags

  after_end-HasEnded : (stage : Lifecycle) (w : World I) → HasEnded stage w
  unfolding apply_event stop_republisher log_and_emit set_status
  after_end-HasEnded stage w = elim (Option-cases w.shared.stop_flag) [
    | inl never ↦ ground (arith, never)
    | inr (stop, kept) ↦ ground (arith, kept, length-set w.flags stop true)
  ]

  -- A republisher that was stopped and of which the worker has told that it ended, well or not, is
  -- started again where the configuration is valid and its protocol registered: the start succeeds
  -- and hands out a second job with a flag of its own, which is down and which the state keeps,
  -- while the flag of the first job stays up.
  pub start_republisher-ended :
      (factory : Factory) (stage : Lifecycle) (w : World I) (stop : ℕ)
      → is_active stage ≡ false
      → w.shared.stop_flag ≡ some stop
      → stop < length w.flags
      → app.engine.validate w.shared.config ≡ none
      → app.registry_get w.shared.config.protocol ≡ some factory
      → let (reply, again) = start_republisher app (after_end stage w) in
        (reply ≡ ok ok_json)
        × (again.jobs ≡ launched app factory w.shared.config (length w.flags) ∷ w.jobs)
        × (again.shared.stop_flag ≡ some (length w.flags))
        × (get_elem? again.flags (length w.flags) ≡ some false)
        × (get_elem? again.flags stop ≡ some true)
  start_republisher-ended factory stage w stop over kept place valid known =
      let s = after_end-HasEnded stage w in
      let (reply, jobs, flags, flag, _, _, _, _) =
        start_republisher_lem app factory (after_end stage w) (ap is_active s.lifecycle ∙ over)
          (ap app.engine.validate s.config ∙ valid)
          (ap (λ (c : AppConfig). app.registry_get c.protocol) s.config ∙ known) in
      let (_, raised, _) = stop_republisher_lem app w stop in
      let fresh = get_elem?-concat (after_end stage w).flags false in
      let same = ap (λ (l : List Bool). get_elem? l stop) s.flags in
      let grown = λ (j : ℕ). ap (λ (l : List Bool). get_elem? l j) flags in
      let job = launched app factory in
      (
        reply,
        jobs
            ∙ ap (λ c. job c (length (after_end stage w).flags) ∷ (after_end stage w).jobs) s.config
            ∙ ap (λ n. job w.shared.config n ∷ (after_end stage w).jobs) s.places
            ∙ ap (◌∷◌ (job w.shared.config (length w.flags))) s.jobs,
        flag ∙ ap some s.places,
        ground (arith, grown (length w.flags), fresh (length w.flags), s.places),
        ground (
          arith,
          grown stop,
          fresh stop,
          s.places,
          same,
          raised,
          kept,
          place,
          is_some-get_elem? w.flags stop place,
        ),
      )
