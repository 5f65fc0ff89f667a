-- ===== src/State/Samples.antt =====
-- The ring of recent samples of src/web/state.rs.
use mathlib.Core.List.{reverse-cons}
use netix_republisher.Prelude.{
  Eq, List, [], ap, append_assoc, map, refl, reverse, sym, take, ◌++◌, ◌∙◌, ◌∷◌, ◌≡◌,
}
use netix_republisher.State.{App, World, recent_sample_capacity}
use netix_republisher.Engine.{Engine, PointSample, WorkerEvent}
use netix_republisher.State.Events.{apply_event, push_samples}
use netix_republisher.Dto.Points.{SampleDto, sample_dto}

module _ {I : Type 0} (engine : Engine I) where
  push_samples_lem :
      (samples : List PointSample) (recent : List SampleDto)
      → push_samples engine samples recent ≡ reverse (map (sample_dto engine) samples) ++ recent
  unfolding push_samples
  push_samples_lem [] recent = refl
  push_samples_lem (x ∷ xs) recent =
      let dto = sample_dto engine in
      push_samples_lem xs (dto x ∷ recent)
      ∙ sym (append_assoc (reverse (map dto xs)) (dto x ∷ []) recent)
      ∙ ap (λ (l : List SampleDto). l ++ recent) (sym (reverse-cons (dto x) (map dto xs)))

module _ {I : Type 0} ⦃e : Eq I⦄ (app : App I) where
  -- After an event with samples the ring holds the latest 200 of all samples, the new ones first.
  pub apply_event-samples :
      (samples : List PointSample) (w : World I)
      → (apply_event app (WorkerEvent.samples samples) w).shared.recent_samples
        ≡ take recent_sample_capacity
            (reverse (map (sample_dto app.engine) samples) ++ w.shared.recent_samples)
  unfolding apply_event
  apply_event-samples samples w = rw (push_samples_lem app.engine samples w.shared.recent_samples)
