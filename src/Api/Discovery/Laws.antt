-- ===== src/Api/Discovery/Laws.antt =====
-- The handlers that ask the worker for something: discovering, browsing, scanning and polling.
use netix_republisher.Prelude.{
  Bool, Bool-cases, Option-cases, [], arith, err, false, get_elem?, if◌then◌else◌, inl, inr,
  is_empty, is_some, length, not, ok, refl, some, true, ℕ, ◌&&◌, ◌∷◌, ◌≡◌, ◌⊎◌,
}
use netix_republisher.Api.{ApiError, Handler, bad_request, not_found, ok_json}
use netix_republisher.Api.Discovery.{browse_device, discover, poll_once, scan_all}
use netix_republisher.Engine.{DiscoveredDevice, Factory, Job}
use netix_republisher.State.{App, Shared, World, set_status}
use netix_republisher.State.Frame.{SameButTalk}

pub data Query : Type 0 where
  discovering scanning polling : Query
  browsing : (index : ℕ) → Query

abbrev no_protocol : ApiError
no_protocol = bad_request "no protocol selected"

module _ {I : Type 0} (app : App I) where
  abbrev pub ask : Query → Handler I
  ask discovering = discover app
  ask scanning = scan_all app
  ask polling = poll_once app
  ask (browsing index) = browse_device app index

  -- The job that a question is for, from the state before it.
  abbrev pub IsJobOf : Query → Factory → World I → Job → Type 0
  IsJobOf discovering factory w job =
      job ≡ Job.discovery factory (app.engine.connection w.shared.config)
  IsJobOf scanning factory w job =
      job
      ≡ Job.scan_all_objects factory (app.engine.connection w.shared.config) w.shared.devices
          w.shared.config.points
  IsJobOf polling factory w job =
      job
      ≡ Job.poll_once factory (app.engine.connection w.shared.config) w.shared.config.mqtt
          w.shared.config.points
  IsJobOf (browsing index) factory w job =
      (device : DiscoveredDevice) × (get_elem? w.shared.devices index ≡ some device)
      × (job ≡ Job.browse factory (app.engine.connection w.shared.config) device)

  -- A question needs a protocol that is registered; a scan needs a device, and browsing the device
  -- that it names.
  abbrev pub is_ready : Query → World I → Bool
  is_ready discovering w = is_some (app.registry_get w.shared.config.protocol)
  is_ready scanning w =
      not (is_empty w.shared.devices) && is_some (app.registry_get w.shared.config.protocol)
  is_ready polling w = is_some (app.registry_get w.shared.config.protocol)
  is_ready (browsing index) w =
      is_some (get_elem? w.shared.devices index)
      && is_some (app.registry_get w.shared.config.protocol)

  -- What a question resets in the shared state.
  abbrev pub cleared : Query → Shared I → Shared I
  cleared discovering s = record s { devices = [] }
  cleared scanning s = record s { scan_progress = some (0, length s.devices) }
  cleared polling s = s
  cleared (browsing index) s = record s { browsed = [] }

  -- The state with the job handed to the worker.
  abbrev pub handed : Query → Job → World I → World I
  handed query job w = record w { jobs = job ∷ w.jobs; shared = cleared query w.shared }

  -- A good reply, with one job more.
  abbrev pub IsAsked : Query → World I → Type 0
  IsAsked query w =
      (factory : Factory) × (job : Job) × ((ask query w).0 ≡ ok ok_json)
      × (app.registry_get w.shared.config.protocol ≡ some factory)
      × IsJobOf query factory w job
      × SameButTalk (handed query job w) (ask query w).1

  -- A bad reply, and nothing asked: a device that is not there is 404, all else is 400.
  abbrev pub refused_status : Query → World I → ℕ
  refused_status (browsing index) w =
      if is_some (get_elem? w.shared.devices index) then 400 else 404
  refused_status discovering w = 400
  refused_status scanning w = 400
  refused_status polling w = 400

  abbrev pub IsRefused : Query → World I → Type 0
  IsRefused query w =
      (why : ApiError) × ((ask query w).0 ≡ err why)
      × (why.status ≡ refused_status query w)
      × SameButTalk w (ask query w).1

  -- A question to the worker that has what it needs is answered well and hands over one job, which
  -- has the selected protocol's factory and connection and what the question is about; beside it
  -- discovering clears the devices, browsing clears the tree, scanning starts its progress at
  -- none of all devices, and nothing else changes but logs, status line and events. Any other
  -- question is refused, with 404 for browsing a device that is not there and 400 else, and
  -- changes nothing but logs, status line and events.
  pub ask-answered :
      (query : Query) (w : World I)
      → ((is_ready query w ≡ true) × IsAsked query w)
        ⊎ ((is_ready query w ≡ false) × IsRefused query w)
  unfolding discover scan_all poll_once browse_device set_status
  ask-answered discovering w = elim (Option-cases (app.registry_get w.shared.config.protocol)) [
    | inl unknown ↦ inr (
      ground (arith, unknown),
      (no_protocol, ground (arith, unknown), ground (arith, unknown), ground (arith, unknown)),
    )
    | inr (factory, known) ↦ inl (
      ground (arith, known),
      (factory, _, ground (arith, known), known, refl, ground (arith, known)),
    )
  ]
  ask-answered polling w = elim (Option-cases (app.registry_get w.shared.config.protocol)) [
    | inl unknown ↦ inr (
      ground (arith, unknown),
      (no_protocol, ground (arith, unknown), ground (arith, unknown), ground (arith, unknown)),
    )
    | inr (factory, known) ↦ inl (
      ground (arith, known),
      (factory, _, ground (arith, known), known, refl, ground (arith, known)),
    )
  ]
  ask-answered scanning w = elim (Bool-cases (is_empty w.shared.devices)) [
    | inl empty ↦ inr (
      ground (arith, empty),
      (
        bad_request "discover devices before scan-all",
        ground (arith, empty),
        refl,
        ground (arith, empty),
      ),
    )
    | inr full ↦ elim (Option-cases (app.registry_get w.shared.config.protocol)) [
      | inl unknown ↦ inr (
        ground (arith, full, unknown),
        (
          no_protocol,
          ground (arith, full, unknown),
          ground (arith, full, unknown),
          ground (arith, full, unknown),
        ),
      )
      | inr (factory, known) ↦ inl (
        ground (arith, full, known),
        (factory, _, ground (arith, full, known), known, refl, ground (arith, full, known)),
      )
    ]
  ]
  ask-answered (browsing index) w = elim (Option-cases (get_elem? w.shared.devices index)) [
    | inl missing ↦ inr (
      ground (arith, missing),
      (
        not_found "no such discovered device",
        ground (arith, missing),
        ground (arith, missing),
        ground (arith, missing),
      ),
    )
    | inr (device, there) ↦ elim (Option-cases (app.registry_get w.shared.config.protocol)) [
      | inl unknown ↦ inr (
        ground (arith, there, unknown),
        (
          no_protocol,
          ground (arith, there, unknown),
          ground (arith, there, unknown),
          ground (arith, there, unknown),
        ),
      )
      | inr (factory, known) ↦ inl (
        ground (arith, there, known),
        (
          factory,
          _,
          ground (arith, there, known),
          known,
          (device, there, refl),
          ground (arith, there, known),
        ),
      )
    ]
  ]
