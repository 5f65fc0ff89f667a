-- ===== src/Api/Control/Laws.antt =====
-- Starting and stopping the republisher, and what happens to two starts in a row.
use netix_republisher.Prelude.{
  Bool, List, Option, Option-cases, [], ap, arith, err, false, get_elem?, get_elem?-concat,
  get_elem?-set, if◌then◌else◌, inl, inr, is_some, length, length-concat, nat_beq, nat_eq, none, ok,
  some, string_eq, suc, true, ℕ, ◌&&◌, ◌++◌, ◌||◌, ◌↔◌, ◌∙◌, ◌∷◌, ◌≡◌,
}
use netix_republisher.Engine.{Factory, Job, info}
use netix_republisher.Api.Control.{
  is_active, launch, start_republisher, start_valid, stop_republisher,
}
use netix_republisher.State.{App, World, set_status}
use netix_republisher.Api.{ApiError, bad_request, ok_json, say, selected_factory}
use netix_republisher.State.Frame.{SameButTalk}
use netix_republisher.Json.{Json}
use netix_republisher.State.Action.{Action, bind-err, bind-ok, modify, or_fail, pure, ◌>>◌}
use netix_republisher.Config.{AppConfig}

-- A test for the place that an option holds.
abbrev pub holds : Option ℕ → ℕ → Bool
holds none j = false
holds (some i) j = nat_beq j i

module _ {I : Type 0} (app : App I) where
  -- The job of a start, by the configuration that it reads and the place of its flag.
  abbrev pub launched : Factory → AppConfig → ℕ → Job
  launched factory config =
      Job.republisher factory (app.engine.connection config) config.mqtt config.points
        config.discover_on_start

  announce : Action I ApiError Json
  announce = do say app info "Republisher starting…"; pure ok_json

  start_valid-known :
      (factory : Factory) (w : World I)
      → app.registry_get w.shared.config.protocol ≡ some factory
      → start_valid app w ≡ announce (launch app factory w)
  unfolding start_valid announce
  start_valid-known factory w h =
      bind-ok (selected_factory app) (λ f. modify (launch app f) >> announce)
        (ap (λ o. or_fail o (bad_request "no protocol selected") w) h)

  start_valid-unknown :
      (w : World I)
      → app.registry_get w.shared.config.protocol ≡ none
      → start_valid app w ≡ (err (bad_request "no protocol selected"), w)
  unfolding start_valid announce
  start_valid-unknown w h =
      bind-err (selected_factory app) (λ f. modify (launch app f) >> announce)
        (ap (λ o. or_fail o (bad_request "no protocol selected") w) h)

  -- Where no republisher is active, the configuration is valid and its protocol is registered, a
  -- start succeeds: the job that it hands to the worker has the configuration's points and broker
  -- and a new flag that is down, the state keeps that flag for a stop, and the counters restart.
  -- The lifecycle is as it was: it only changes by an event of the worker.
  pub start_republisher_lem :
      (factory : Factory) (w : World I)
      → is_active w.shared.lifecycle ≡ false
      → app.engine.validate w.shared.config ≡ none
      → app.registry_get w.shared.config.protocol ≡ some factory
      → let after = (start_republisher app w).1 in
        let config = w.shared.config in
        let stop = length w.flags in
        ((start_republisher app w).0 ≡ ok ok_json)
        × (after.jobs
            ≡ Job.republisher factory
                (app.engine.connection config)
                config.mqtt
                config.points
                config.discover_on_start
                stop
              ∷ w.jobs)
        × (after.flags ≡ w.flags ++ false ∷ [])
        × (after.shared.stop_flag ≡ some stop)
        × (after.shared.published_total ≡ 0)
        × (after.shared.acked_total ≡ 0)
        × (after.shared.config ≡ config)
        × (after.shared.lifecycle ≡ w.shared.lifecycle)
  unfolding start_republisher
  start_republisher_lem factory w idle valid known =
      rw (idle, valid, start_valid-known factory w known)
        (unfold announce set_status in ground arith)

  -- A start succeeds exactly if no republisher is active, the configuration is valid and its
  -- protocol is registered.
  pub start_republisher-ok_iff :
      (w : World I)
      → ((start_republisher app w).0 ≡ ok ok_json) ↔ (
          (is_active w.shared.lifecycle ≡ false)
          × (app.engine.validate w.shared.config ≡ none)
          × (is_some (app.registry_get w.shared.config.protocol) ≡ true))
  unfolding start_republisher
  start_republisher-ok_iff w = elim (Option-cases (app.registry_get w.shared.config.protocol)) [
    | inl unknown ↦
        (λ h. ground (arith, h, start_valid-unknown w unknown), λ h. ground (arith, unknown))
    | inr (factory, known) ↦ (
      λ h. (ground (arith, h), ground (arith, h), ground (arith, known)),
      λ (idle, valid, _). (start_republisher_lem factory w idle valid known).0,
    )
  ]

  -- A start that is refused hands out no job, makes no flag and leaves the flag of the last start
  -- in place: nothing but logs, status line and events changes.
  pub start_republisher-err :
      (why : ApiError) (w : World I)
      → (start_republisher app w).0 ≡ err why
      → SameButTalk w (start_republisher app w).1
  unfolding start_republisher announce set_status
  start_republisher-err why w h = elim (Option-cases (app.registry_get w.shared.config.protocol)) [
    | inl unknown ↦ ground (arith, start_valid-unknown w unknown)
    | inr (factory, known) ↦ ground (arith, h, start_valid-known factory w known)
  ]

  -- A stop always answers well. It raises the flag that the last start left in the state and no
  -- other; jobs, lifecycle, configuration, the counters and the flag in the state are as before.
  pub stop_republisher_lem :
      (w : World I) (j : ℕ)
      → let after = (stop_republisher app w).1 in
        ((stop_republisher app w).0 ≡ ok ok_json)
        × (get_elem? after.flags j ≡ (
            if holds w.shared.stop_flag j && is_some (get_elem? w.flags j)
            then some true
            else get_elem? w.flags j))
        × SameButTalk (record w { flags = after.flags }) after
  unfolding stop_republisher set_status
  stop_republisher_lem w j = elim (Option-cases w.shared.stop_flag) [
    | inl never ↦ ground (arith, never)
    | inr (stop, started) ↦ ground (arith, started, get_elem?-set w.flags stop j true)
  ]

  two_flags :
      (flags one two : List Bool)
      → one ≡ flags ++ false ∷ []
      → two ≡ one ++ false ∷ []
      → (j : ℕ)
      → get_elem? two j ≡ (
          if nat_beq j (length one) || nat_beq j (length flags)
          then some false
          else get_elem? flags j)
  two_flags flags one two h k j = ground (
    arith,
    ap (λ (l : List Bool). get_elem? l j) k,
    get_elem?-concat one false j,
    ap (λ (l : List Bool). get_elem? l j) h,
    get_elem?-concat flags false j,
  )

  -- Where no republisher is active, the configuration is valid and its protocol is registered, two
  -- starts in a row, with no event of the worker between them, both succeed: two jobs are handed
  -- out, each with a flag of its own. A stop after them raises the second job's flag and leaves the
  -- first job's down.
  pub start_republisher-twice :
      (factory : Factory) (w : World I)
      → is_active w.shared.lifecycle ≡ false
      → app.engine.validate w.shared.config ≡ none
      → app.registry_get w.shared.config.protocol ≡ some factory
      → let first = length w.flags in
        let job = launched factory w.shared.config in
        let once = (start_republisher app w).1 in
        let (reply, twice) = start_republisher app once in
        let stopped = (stop_republisher app twice).1 in
        (reply ≡ ok ok_json)
        × (stopped.jobs ≡ job (suc first) ∷ job first ∷ w.jobs)
        × (get_elem? stopped.flags first ≡ some false)
        × (get_elem? stopped.flags (suc first) ≡ some true)
  start_republisher-twice factory w idle valid known =
      let once = (start_republisher app w).1 in
      let twice = (start_republisher app once).1 in
      let first = length w.flags in
      let (_, jobs, flags, _, _, _, config, lifecycle) =
        start_republisher_lem factory w idle valid known in
      let (reply, jobs', flags', stop, _, _, _, _) =
        start_republisher_lem factory once (ap is_active lifecycle ∙ idle)
          (ap app.engine.validate config ∙ valid)
          (ap (λ (c : AppConfig). app.registry_get c.protocol) config ∙ known) in
      let (_, low, talk) = stop_republisher_lem twice first in
      let (_, high, _) = stop_republisher_lem twice (suc first) in
      let count = ap length flags ∙ length-concat w.flags false in
      let job = launched factory in
      let places = two_flags w.flags once.flags twice.flags flags flags' in
      (
        reply,
        talk.jobs
            ∙ jobs'
            ∙ ap (λ c. job c (length once.flags) ∷ once.jobs) config
            ∙ ap (λ n. job w.shared.config n ∷ once.jobs) count
            ∙ ap (◌∷◌ (job w.shared.config (suc first))) jobs,
        ground (arith, low, ap (λ o. holds o first) stop, count, places first),
        ground (arith, high, ap (λ o. holds o (suc first)) stop, count, places (suc first)),
      )
