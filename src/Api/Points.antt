-- ===== src/Api/Points.antt =====
-- src/web/api.rs: the configured points.
pub mod Laws
pub mod Saving
use netix_republisher.Prelude.{
  Bool, Eq, List, Option, String, [], erase_idx, err, get_elem?, if◌then◌else◌, leb, length, max,
  nat_eq, none, set, some, string_eq, true, unwrap_or, ℕ, ◌++◌, ◌==◌, ◌∷◌,
}
use netix_republisher.Json.{bool, nat, object}
use netix_republisher.State.{App, World, with_config, with_shared}
use netix_republisher.Dict.{Dict, lookup}
use netix_republisher.Config.{FieldSpec, PointConfig}
use netix_republisher.Text.{decimal, trim, ◌<>◌}
use netix_republisher.Engine.{DiscoveredPoint, Engine, info}
use netix_republisher.Api.{
  ApiError, Handler, bad_request, build_addressing, not_found, ok_json, save_or_400, say,
}
use netix_republisher.State.Action.{Action, gets, modify, or_fail, pure, ◌>>=◌, ◌>>◌}
use netix_republisher.State.Views.{emit_points}

pub record PointReq : Type 0 where
  pub index : Option ℕ
  pub enabled : Bool
  pub device_key : String
  pub tag_path : String
  pub poll_interval_secs : ℕ
  pub addressing : Dict String String

abbrev pub default_enabled : Bool
default_enabled = true

abbrev pub default_poll_interval : ℕ
default_poll_interval = 10

-- A request as serde reads it: each absent field has its default.
unfoldable pub point_req :
    (index : Option ℕ) (enabled : Option Bool) (device_key tag_path : Option String)
    (poll_interval_secs : Option ℕ) (addressing : Option (Dict String String))
    → PointReq
point_req index enabled device_key tag_path poll_interval_secs addressing = record {
  index = index;
  enabled = unwrap_or enabled default_enabled;
  device_key = unwrap_or device_key "";
  tag_path = unwrap_or tag_path "";
  poll_interval_secs = unwrap_or poll_interval_secs default_poll_interval;
  addressing = unwrap_or addressing [];
}

unfoldable pub point_of : List FieldSpec → PointReq → PointConfig
point_of specs req = record {
  enabled = req.enabled;
  device_key = trim req.device_key;
  addressing = build_addressing specs req.addressing;
  tag_path = trim req.tag_path;
  poll_interval_secs = max req.poll_interval_secs 1;
}

unfoldable pub browsed_point : DiscoveredPoint → PointConfig
browsed_point found = record {
  enabled = true;
  device_key = found.device_key;
  addressing = found.addressing;
  tag_path = found.suggested_tag_path;
  poll_interval_secs = 10;
}

abbrev pub points_of : {I : Type 0} → World I → List PointConfig
points_of w = w.shared.config.points

abbrev pub set_points : {I : Type 0} → List PointConfig → World I → World I
set_points points = with_config (λ c. record c { points = points })

module _ {I : Type 0} ⦃e : Eq I⦄ (engine : Engine I) where
  -- The first point with this identity gives way; where there is none, the point is added.
  unfoldable pub upsert : PointConfig → List PointConfig → List PointConfig
  upsert point [] = point ∷ []
  upsert point (p ∷ ps) =
      if engine.from_point p == engine.from_point point then point ∷ ps else p ∷ upsert point ps

module _ {I : Type 0} ⦃e : Eq I⦄ (app : App I) where
  -- The end of a handler that changed the points: they are saved, then sent.
  unfoldable pub save_points : Handler I
  save_points = do save_or_400 app; modify (emit_points app.engine); pure ok_json

  -- The write of `save_point`: at an index, or at the end.
  unfoldable pub place_point : Option ℕ → PointConfig → Action I ApiError (Unit {0})
  place_point none point = modify (λ w. set_points (points_of w ++ point ∷ []) w)
  place_point (some index) point = do
    points ← gets points_of
    or_fail (get_elem? points index) (not_found "no such point")
    modify (set_points (set points index point))

  -- The part of `save_point` behind the choice of the protocol.
  unfoldable pub save_at : Option ℕ → PointConfig → Handler I
  save_at index point = do place_point index point; save_points

  unfoldable pub save_point : PointReq → Handler I
  save_point req = do
    protocol ← gets (λ w. w.shared.config.protocol)
    caps ← or_fail (lookup protocol app.caps) (bad_request "select a protocol first")
    save_at req.index (point_of caps.addressing_fields req)

  unfoldable pub toggle_point : ℕ → Bool → Handler I
  unfolding save_points
  toggle_point index enabled = do
    points ← gets points_of
    point ← or_fail (get_elem? points index) (not_found "no such point")
    modify (set_points (set points index (record point { enabled = enabled })))
    save_points

  unfoldable pub delete_point : ℕ → Handler I
  unfolding save_points
  delete_point index w =
      if leb (length (points_of w)) index
      then (err (not_found "no such point"), w)
      else save_points (set_points (erase_idx (points_of w) index) w)

  unfoldable pub clear_points : Handler I
  clear_points = do
    removed ← gets (λ w. length (points_of w))
    modify (λ w. with_shared (λ s. record s { statuses = [] }) (set_points [] w))
    save_or_400 app
    say app info ("Cleared " <> decimal removed <> " configured point(s).")
    modify (emit_points app.engine)
    pure (object (("ok", bool true) ∷ ("removed", nat removed) ∷ []))

  unfoldable pub add_browsed_point : ℕ → Handler I
  unfolding upsert browsed_point
  add_browsed_point index = do
    browsed ← gets (λ w. w.shared.browsed)
    found ← or_fail (get_elem? browsed index) (not_found "no such browsed point")
    modify (λ w. set_points (upsert app.engine (browsed_point found) (points_of w)) w)
    save_or_400 app
    say app info "Added point from browse"
    modify (emit_points app.engine)
    pure ok_json
