-- ===== src/State/Secrets.antt =====
-- The broker's secrets do not leave the daemon by src/web/state.rs.
use mathlib.Core.Path.{ap₂}
use netix_republisher.Prelude.{Eq, List, Option, [], ap, length, refl, suc, ℕ, ◌∷◌, ◌≡◌}
use netix_republisher.Config.{AppConfig, PointConfig}
use netix_republisher.Engine.{Engine, PointStatus}
use netix_republisher.Dto.Redaction.{SameButSecrets, redacted_config-SameButSecrets}
use netix_republisher.Json.{Json, array, enumerate}
use netix_republisher.State.{App, Shared}
use netix_republisher.State.Views.{points_json, snapshot_json}
use netix_republisher.Dto.Points.{point_dto, point_json}

-- Topics are made of the visible settings: the documented behaviour of `telemetry_topic`.
abbrev pub TopicsIgnoreSecrets : {I : Type 0} → Engine I → Type 0
TopicsIgnoreSecrets engine =
    (a b : AppConfig) (point : PointConfig)
    → SameButSecrets a b
    → engine.telemetry_topic a.mqtt point ≡ engine.telemetry_topic b.mqtt point

enumerate_ext {ℓ} :
    {A : Type ℓ} (f g : ℕ → A → Json) (i : ℕ) (xs : List A)
    → ((j : ℕ) (a : A) → f j a ≡ g j a)
    → enumerate f i xs ≡ enumerate g i xs
unfolding enumerate
enumerate_ext f g i [] h = refl
enumerate_ext f g i (a ∷ xs) h = ap₂ ◌∷◌ (h i a) (enumerate_ext f g (suc i) xs h)

module _ {I : Type 0} ⦃e : Eq I⦄ (engine : Engine I) (topics : TopicsIgnoreSecrets engine) where
  point_dto-SameButSecrets :
      (a b : AppConfig) (i : ℕ) (p : PointConfig) (status : Option PointStatus)
      → SameButSecrets a b
      → point_dto engine i p a.mqtt status ≡ point_dto engine i p b.mqtt status
  unfolding point_dto
  point_dto-SameButSecrets a b i p status h = rw (topics a b p h)

  points_json-SameButSecrets :
      (s : Shared I) (b : AppConfig)
      → SameButSecrets s.config b
      → points_json engine s ≡ points_json engine (record s { config = b })
  unfolding points_json
  points_json-SameButSecrets s b h = rw (ap (λ (c : AppConfig). c.points) h.visible) (
      ap array (
        enumerate_ext _ _ 0 b.points
          λ i p. ap (point_json engine) (point_dto-SameButSecrets s.config b i p _ h)))

-- Where topics are made of the visible settings, the snapshot of a state does not depend on the
-- values of the broker's secrets, only on which of them are set: it is the same for two states
-- that differ in these values alone.
pub snapshot_json-SameButSecrets :
    {I : Type 0} ⦃e : Eq I⦄ (app : App I) (s : Shared I) (b : AppConfig)
    → TopicsIgnoreSecrets app.engine
    → SameButSecrets s.config b
    → snapshot_json app s ≡ snapshot_json app (record s { config = b })
unfolding snapshot_json
snapshot_json-SameButSecrets app s b topics h = cc (
  ap (λ (c : AppConfig). c.protocol) h.visible,
  ap (λ (c : AppConfig). length c.points) h.visible,
  redacted_config-SameButSecrets app.engine s.config b h,
  points_json-SameButSecrets app.engine topics s b h,
)
