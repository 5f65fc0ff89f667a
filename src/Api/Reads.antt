-- ===== src/Api/Reads.antt =====
-- src/web/api.rs: the endpoints that read, and the event stream.
use netix_republisher.Engine.{info}
use netix_republisher.Prelude.{Eq, List, String, [], length, map, ok, ◌∷◌}
use netix_republisher.Json.{Json, array, object, str}
use netix_republisher.State.{App, World, log_json}
use netix_republisher.Text.{decimal, ◌<>◌}
use netix_republisher.Api.{Handler, say}
use netix_republisher.State.Views.{capabilities_of, points_json, snapshot_json, status_json}
use netix_republisher.Dto.Redaction.{redacted_config}
use netix_republisher.State.Action.{pure, ◌>>◌}

-- The entries of `ipv4_interfaces()`: a name and an address.
abbrev pub Interface : Type 0
Interface = String × String

abbrev pub health : String
health = "ok"

interface_json : Interface → Json
interface_json (name, addr) = object (("name", str name) ∷ ("addr", str addr) ∷ [])

-- What a subscriber reads from the broadcast channel: a payload, or the news that it lagged.
pub data StreamItem : Type 0 where
  payload : Json → StreamItem
  lagged : StreamItem

-- A lagged subscriber skips.
unfoldable pub live_events : List StreamItem → List Json
live_events [] = []
live_events (payload v ∷ items) = v ∷ live_events items
live_events (lagged ∷ items) = live_events items

module _ {I : Type 0} ⦃e : Eq I⦄ (app : App I) where
  unfoldable pub get_state : Handler I
  get_state w = (ok (snapshot_json app w.shared), w)

  unfoldable pub get_status : Handler I
  get_status w = (ok (status_json app w.shared), w)

  unfoldable pub get_capabilities : Handler I
  get_capabilities w =
      (ok (object (("protocols", array (capabilities_of app.caps app.protocol_ids)) ∷ [])), w)

  unfoldable pub get_config : Handler I
  get_config w = (ok (redacted_config app.engine w.shared.config), w)

  unfoldable pub get_points : Handler I
  get_points w = (ok (points_json app.engine w.shared), w)

  unfoldable pub get_logs : Handler I
  get_logs w = (ok (object (("logs", array (map log_json w.shared.logs)) ∷ [])), w)

  unfoldable pub get_interfaces : List Interface → Handler I
  unfolding interface_json
  get_interfaces interfaces = do
    say app info ("Refreshed " <> decimal (length interfaces) <> " network interface(s)")
    pure (object (("interfaces", array (map interface_json interfaces)) ∷ []))

  -- The stream of a new subscriber: a snapshot, then what the channel brings it.
  unfoldable pub sse_events : List StreamItem → World I → List Json
  unfolding live_events
  sse_events items w = snapshot_json app w.shared ∷ live_events items
