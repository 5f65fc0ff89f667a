-- ===== src/Api/Points/Laws.antt =====
-- What the handlers of points do to the list of points.
use netix_republisher.Prelude.{
  Bool, Eq, List, Option, Option-cases, Result, [], ap, arith, erase_idx, get_elem?, get_elem?-set,
  if◌then◌else◌, inl, inr, leb, length, ltb, map_option, nat_beq, nat_beq_iff, nat_eq, none, refl,
  set, some, string_eq, suc, unwrap_or, zero, ℕ, ◌==◌, ◌||◌, ◌∷◌, ◌≡◌,
}
use netix_republisher.Api.Points.{
  add_browsed_point, browsed_point, delete_point, points_of, save_points, set_points, toggle_point,
  upsert,
}
use netix_republisher.Config.{AppConfig, PointConfig}
use netix_republisher.Engine.{DiscoveredPoint, Engine}
use netix_republisher.Json.{Json}
use netix_republisher.State.{App, World, set_status}
use netix_republisher.Api.{ApiError}
use netix_republisher.State.Views.{emit_points}
use netix_republisher.State.Frame.{save_config-SameButTalk}

module _ {I : Type 0} ⦃e : Eq I⦄ (engine : Engine I) where
  -- The point that stands for an identity: the first.
  unfoldable pub find : I → List PointConfig → Option PointConfig
  find identity [] = none
  find identity (p ∷ ps) =
      let rest = find identity ps in if engine.from_point p == identity then some p else rest

  -- No two points have one identity.
  abbrev pub AreDistinct : List PointConfig → Type 0
  AreDistinct [] = Unit
  AreDistinct (p ∷ ps) = (find (engine.from_point p) ps ≡ none) × AreDistinct ps

  pub find-upsert :
      (identity : I) (point : PointConfig) (ps : List PointConfig)
      → find identity (upsert engine point ps)
        ≡ (if engine.from_point point == identity then some point else find identity ps)
  unfolding find upsert
  find-upsert identity point [] = refl
  find-upsert identity point (p ∷ ps) = ground (
    arith,
    find-upsert identity point ps,
    e.beq_iff (engine.from_point point) identity,
    e.beq_iff (engine.from_point p) identity,
    e.beq_iff (engine.from_point p) (engine.from_point point),
  )

  upsert-AreDistinct :
      (point : PointConfig) (ps : List PointConfig)
      → AreDistinct ps
      → AreDistinct (upsert engine point ps)
  unfolding find upsert
  upsert-AreDistinct point [] h = (refl, tt)
  upsert-AreDistinct point (p ∷ ps) (fresh, h) = ground (
    arith,
    find-upsert (engine.from_point p) point ps,
    upsert-AreDistinct point ps h,
    e.beq_iff (engine.from_point point) (engine.from_point p),
    e.beq_iff (engine.from_point p) (engine.from_point point),
  )

get_elem?-erase_idx :
    {A : Type 0} (xs : List A) (i j : ℕ)
    → get_elem? (erase_idx xs i) j ≡ (if ltb j i then get_elem? xs j else get_elem? xs (suc j))
get_elem?-erase_idx [] i j = ground arith
get_elem?-erase_idx (x ∷ xs) zero j = ground arith
get_elem?-erase_idx (x ∷ xs) (suc i) zero = ground arith
get_elem?-erase_idx (x ∷ xs) (suc i) (suc j) = ground (arith, get_elem?-erase_idx xs i j)

module _ {I : Type 0} ⦃e : Eq I⦄ (app : App I) where
  -- The reply of a handler that ends with a save.
  abbrev pub save_reply : World I → Result Json ApiError
  save_reply w = (save_points app w).0

  pub points-save_points : (w : World I) → points_of (save_points app w).1 ≡ points_of w
  unfolding save_points emit_points
  points-save_points w =
      let same = save_config-SameButTalk app w in
      ground (arith, ap (λ (c : AppConfig). c.points) same.config)

  -- Whatever the outcome of the save, a deleted point is gone, the ones behind it move up by one,
  -- and all others stay; beyond the end nothing is deleted.
  pub delete_point_lem :
      (index j : ℕ) (w : World I)
      → get_elem? (points_of (delete_point app index w).1) j ≡ (
          if leb (length (points_of w)) index || ltb j index
          then get_elem? (points_of w) j
          else get_elem? (points_of w) (suc j))
  unfolding delete_point
  delete_point_lem index j w =
      let after = set_points (erase_idx (points_of w) index) w in
      ground (
        arith,
        ap (λ (l : List PointConfig). get_elem? l j) (points-save_points after),
        get_elem?-erase_idx (points_of w) index j,
      )

  -- Switching a point changes its `enabled` and nothing else of any point.
  toggle_point_lem :
      (index : ℕ) (enabled : Bool) (j : ℕ) (w : World I)
      → get_elem? (points_of (toggle_point app index enabled w).1) j
        ≡ map_option
            (λ (p : PointConfig). record p {
              enabled = if nat_beq j index then enabled else p.enabled;
            })
            (get_elem? (points_of w) j)
  unfolding toggle_point
  toggle_point_lem index enabled j w = elim (Option-cases (get_elem? (points_of w) index)) [
    | inl missing ↦ rw (missing, toggle_point) (ground (arith, missing, nat_beq_iff j index))
    | inr (p, found) ↦
        let points = set (points_of w) index (record p { enabled = enabled }) in
        rw (found, toggle_point)
          (ground (
            arith,
            found,
            nat_beq_iff j index,
            ap (λ (l : List PointConfig). get_elem? l j) (points-save_points (set_points points w)),
            get_elem?-set (points_of w) index j (record p { enabled = enabled }),
          ))
  ]

  points-add_browsed_point :
      (index : ℕ) (w : World I)
      → points_of (add_browsed_point app index w).1
        ≡ unwrap_or
            (map_option
              (λ (found : DiscoveredPoint). upsert app.engine (browsed_point found) (points_of w))
              (get_elem? w.shared.browsed index))
            (points_of w)
  unfolding add_browsed_point emit_points set_status
  points-add_browsed_point index w = elim (Option-cases (get_elem? w.shared.browsed index)) [
    | inl missing ↦ rw (missing, add_browsed_point) refl
    | inr (found, e) ↦
        let added = set_points (upsert app.engine (browsed_point found) (points_of w)) w in
        let same = ap (λ (c : AppConfig). c.points) (save_config-SameButTalk app added).config in
        rw (e, add_browsed_point) (ground (arith, same))
  ]

  -- A browsed point that is added stands for its identity from then on, and the points of all
  -- other identities stay.
  pub add_browsed_point_lem :
      (index : ℕ) (found : DiscoveredPoint) (identity : I) (w : World I)
      → get_elem? w.shared.browsed index ≡ some found
      → find app.engine identity (points_of (add_browsed_point app index w).1) ≡ (
          if app.engine.from_point (browsed_point found) == identity
          then some (browsed_point found)
          else find app.engine identity (points_of w))
  add_browsed_point_lem index found identity w h =
      rw (points-add_browsed_point index w)
        (rw h (find-upsert app.engine identity (browsed_point found) (points_of w)))

  -- Adding browsed points never makes two points of one identity.
  pub add_browsed_point-AreDistinct :
      (index : ℕ) (w : World I)
      → AreDistinct app.engine (points_of w)
      → AreDistinct app.engine (points_of (add_browsed_point app index w).1)
  add_browsed_point-AreDistinct index w h =
      rw (points-add_browsed_point index w)
        (elim (Option-cases (get_elem? w.shared.browsed index)) [
          | inl missing ↦ rw missing h
          | inr (found, e) ↦
              rw e (upsert-AreDistinct app.engine (browsed_point found) (points_of w) h)
        ])
