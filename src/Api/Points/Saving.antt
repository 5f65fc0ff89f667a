-- ===== src/Api/Points/Saving.antt =====
-- `save_point` of src/web/api.rs: adding and editing a point by hand.
use netix_republisher.Prelude.{
  Eq, List, Option, Option-cases, [], ap, arith, err, get_elem?, get_elem?-set, if◌then◌else◌, inl,
  inr, is_some, length, nat_beq, nat_beq_iff, nat_eq, none, ok, refl, set, some, string_eq, ℕ, ◌&&◌,
  ◌++◌, ◌↔◌, ◌∙◌, ◌∷◌, ◌≡◌,
}
use netix_republisher.Dict.{lookup}
use netix_republisher.State.{App, World}
use netix_republisher.Api.Points.{
  PointReq, place_point, point_of, points_of, save_at, save_point, save_points, set_points,
}
use netix_republisher.Config.{AppConfig, Capabilities, PointConfig}
use netix_republisher.Api.{not_found, ok_json}
use netix_republisher.State.Action.{bind-err, bind-ok, save_config, save_outcome}
use netix_republisher.Api.Points.Laws.{points-save_points}

module _ {I : Type 0} ⦃e : Eq I⦄ (app : App I) where
  -- A configuration that the daemon takes and writes, as the next attempt to save.
  abbrev pub IsSavable : World I → AppConfig → Type 0
  IsSavable w config =
      (app.engine.validate config ≡ none)
      × (app.engine.save_to_path (length w.saves) app.config_path config ≡ none)

  save_points-ok_iff :
      (w : World I) → ((save_points app w).0 ≡ ok ok_json) ↔ IsSavable w w.shared.config
  unfolding save_points save_config save_outcome
  save_points-ok_iff w = (λ h. (ground arith, ground arith), λ h. ground arith)

  place_point-found :
      (index : ℕ) (point old : PointConfig) (w : World I)
      → get_elem? (points_of w) index ≡ some old
      → place_point app (some index) point w ≡ (ok tt, set_points (set (points_of w) index point) w)
  unfolding place_point
  place_point-found index point old w h = rw (h, place_point) refl

  place_point-missing :
      (index : ℕ) (point : PointConfig) (w : World I)
      → get_elem? (points_of w) index ≡ none
      → place_point app (some index) point w ≡ (err (not_found "no such point"), w)
  unfolding place_point
  place_point-missing index point w h = rw (h, place_point) refl

  save_at-none :
      (point : PointConfig) (w : World I)
      → save_at app none point w ≡ save_points app (set_points (points_of w ++ point ∷ []) w)
  unfolding save_at place_point
  save_at-none point w = refl

  save_at-found :
      (index : ℕ) (point old : PointConfig) (w : World I)
      → get_elem? (points_of w) index ≡ some old
      → save_at app (some index) point w
        ≡ save_points app (set_points (set (points_of w) index point) w)
  unfolding save_at
  save_at-found index point old w h =
      bind-ok (place_point app (some index) point) (λ _. save_points app)
        (place_point-found index point old w h)

  save_at-missing :
      (index : ℕ) (point : PointConfig) (w : World I)
      → get_elem? (points_of w) index ≡ none
      → save_at app (some index) point w ≡ (err (not_found "no such point"), w)
  unfolding save_at
  save_at-missing index point w h =
      bind-err (place_point app (some index) point) (λ _. save_points app)
        (place_point-missing index point w h)

  module _ (req : PointReq) (caps : Capabilities) (w : World I)
      (selected : lookup w.shared.config.protocol app.caps ≡ some caps) where
    save_point-save_at :
        (index : Option ℕ)
        → req.index ≡ index
        → save_point app req w ≡ save_at app index (point_of caps.addressing_fields req) w
    unfolding save_point
    save_point-save_at index h =
        rw (selected, save_point)
          (ap (λ i. save_at app i (point_of caps.addressing_fields req) w) h)

    -- A new point is the last one after the call. The reply is good exactly if the configuration
    -- with it is valid and was written; the point stays in the list also where it is not.
    pub save_point-add :
        req.index ≡ none
        → let points = points_of w ++ point_of caps.addressing_fields req ∷ [] in
          (points_of (save_point app req w).1 ≡ points)
          × (((save_point app req w).0 ≡ ok ok_json)
              ↔ IsSavable w (record w.shared.config { points = points }))
    save_point-add new =
        let point = point_of caps.addressing_fields req in
        let points = points_of w ++ point ∷ [] in
        rw (save_point-save_at none new ∙ save_at-none point w)
          (points-save_points app (set_points points w), save_points-ok_iff (set_points points w))

    -- Editing replaces the point at the index and no other, whatever the outcome of the save.
    pub save_point-edit :
        (index j : ℕ)
        → req.index ≡ some index
        → get_elem? (points_of (save_point app req w).1) j ≡ (
            if nat_beq j index && is_some (get_elem? (points_of w) j)
            then some (point_of caps.addressing_fields req)
            else get_elem? (points_of w) j)
    save_point-edit index j old =
        let point = point_of caps.addressing_fields req in
        let pts = points_of w in
        rw (save_point-save_at (some index) old) (elim (Option-cases (get_elem? pts index)) [
          | inl missing ↦
              rw (save_at-missing index point w missing)
                (ground (arith, missing, nat_beq_iff j index))
          | inr (p, found) ↦ rw (save_at-found index point p w found) (
              ap (λ (l : List PointConfig). get_elem? l j)
                (points-save_points app (set_points (set pts index point) w))
              ∙ get_elem?-set pts index j point)
        ])
