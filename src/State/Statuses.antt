-- ===== src/State/Statuses.antt =====
-- The statuses of points of src/web/state.rs.
use netix_republisher.Prelude.{
  Bool, Bool-cases, Eq, List, Option, String, [], ap, arith, false, if◌then◌else◌, inl, inr, nat_eq,
  refl, some, string_eq, ◌==◌, ◌||◌, ◌∷◌, ◌≡◌,
}
use netix_republisher.Dict.{Dict, insert, lookup, lookup-insert}
use netix_republisher.Engine.{Engine, PointSample, PointStatus, ReadFailure, WorkerEvent}
use netix_republisher.State.Events.{
  Changed, apply_event, publish_key, record_failures, record_publish, record_samples, status_of,
  status_value, statuses_event,
}
use netix_republisher.Config.{PointConfig}
use netix_republisher.State.{App, World}
use netix_republisher.Dto.Points.{identity_key}

module _ {I : Type 0} ⦃e : Eq I⦄ (engine : Engine I) where
  -- What the samples of one point make of its status.
  abbrev pub sampled : I → List PointSample → PointStatus → PointStatus
  sampled identity [] status = status
  sampled identity (x ∷ xs) status =
      sampled identity xs
        (if engine.from_point x.point == identity then engine.record_sample status x else status)

  abbrev pub was_sampled : I → List PointSample → Bool
  was_sampled identity [] = false
  was_sampled identity (x ∷ xs) = engine.from_point x.point == identity || was_sampled identity xs

  sampled_no :
      (identity : I) (samples : List PointSample) (status : PointStatus)
      → was_sampled identity samples ≡ false
      → sampled identity samples status ≡ status
  sampled_no identity [] status h = refl
  sampled_no identity (x ∷ xs) status h = ground (arith, sampled_no identity xs status)

  status_of-insert :
      (k identity : I) (status : PointStatus) (statuses : Dict I PointStatus)
      → status_of engine identity (insert k status statuses)
        ≡ (if k == identity then status else status_of engine identity statuses)
  unfolding status_of
  status_of-insert k identity status statuses =
      ground (arith, lookup-insert k identity status statuses)

  record_samples_lem :
      (identity : I) (samples : List PointSample) (statuses : Dict I PointStatus)
      (changed : Changed)
      → lookup identity (record_samples engine samples (statuses, changed)).0 ≡ (
          if was_sampled identity samples
          then some (sampled identity samples (status_of engine identity statuses))
          else lookup identity statuses)
  unfolding record_samples
  record_samples_lem identity [] statuses changed = refl
  record_samples_lem identity (x ∷ xs) statuses changed =
      let k = engine.from_point x.point in
      let status = engine.record_sample (status_of engine k statuses) x in
      let changed' = insert (identity_key engine x.point) (status_value status) changed in
      rw (record_samples_lem identity xs (insert k status statuses) changed') (
        rw (status_of-insert k identity status statuses, lookup-insert k identity status statuses)
          (elim (Bool-cases (k == identity)) [
            | inl same ↦
                let here = (e.beq_iff k identity).0 same in
                ground (
                  arith,
                  same,
                  here,
                  ap (λ i. status_of engine i statuses) here,
                  sampled_no identity xs status,
                )
            | inr other ↦ rw other refl
          ]))

  -- The same for failed reads.
  abbrev failed_reads : I → List ReadFailure → PointStatus → PointStatus
  failed_reads identity [] status = status
  failed_reads identity (x ∷ xs) status = failed_reads identity xs (
      if engine.from_point x.point == identity
      then engine.record_read_failure status x.error
      else status)

  abbrev has_failed : I → List ReadFailure → Bool
  has_failed identity [] = false
  has_failed identity (x ∷ xs) = engine.from_point x.point == identity || has_failed identity xs

  failed_reads_no :
      (identity : I) (failures : List ReadFailure) (status : PointStatus)
      → has_failed identity failures ≡ false
      → failed_reads identity failures status ≡ status
  failed_reads_no identity [] status h = refl
  failed_reads_no identity (x ∷ xs) status h = ground (arith, failed_reads_no identity xs status)

  record_failures_lem :
      (identity : I) (failures : List ReadFailure) (statuses : Dict I PointStatus)
      (changed : Changed)
      → lookup identity (record_failures engine failures (statuses, changed)).0 ≡ (
          if has_failed identity failures
          then some (failed_reads identity failures (status_of engine identity statuses))
          else lookup identity statuses)
  unfolding record_failures
  record_failures_lem identity [] statuses changed = refl
  record_failures_lem identity (x ∷ xs) statuses changed =
      let k = engine.from_point x.point in
      let status = engine.record_read_failure (status_of engine k statuses) x.error in
      let changed' = insert (identity_key engine x.point) (status_value status) changed in
      rw (record_failures_lem identity xs (insert k status statuses) changed') (
        rw (status_of-insert k identity status statuses, lookup-insert k identity status statuses)
          (elim (Bool-cases (k == identity)) [
            | inl same ↦
                let here = (e.beq_iff k identity).0 same in
                ground (
                  arith,
                  same,
                  here,
                  ap (λ i. status_of engine i statuses) here,
                  failed_reads_no identity xs status,
                )
            | inr other ↦ rw other refl
          ]))

module _ {I : Type 0} ⦃e : Eq I⦄ (app : App I) where
  -- After an event with samples, the status of a point is what its own samples make, in order, of
  -- the status that it had, the default one if it had none; a point with no sample keeps what it
  -- had.
  pub statuses-samples :
      (identity : I) (samples : List PointSample) (w : World I)
      → lookup identity (apply_event app (WorkerEvent.samples samples) w).shared.statuses ≡ (
          if was_sampled app.engine identity samples
          then some (
              sampled app.engine identity samples (status_of app.engine identity w.shared.statuses))
          else lookup identity w.shared.statuses)
  unfolding apply_event
  statuses-samples identity samples w =
      record_samples_lem app.engine identity samples w.shared.statuses []

  -- After an event with failed reads, the status of a point is what its own failures make, in
  -- order, of the status that it had, the default one if it had none; a point with no failure keeps
  -- what it had.
  statuses-failures :
      (identity : I) (failures : List ReadFailure) (w : World I)
      → lookup identity (apply_event app (WorkerEvent.failures failures) w).shared.statuses ≡ (
          if has_failed app.engine identity failures
          then some (
              failed_reads app.engine identity failures
                (status_of app.engine identity w.shared.statuses))
          else lookup identity w.shared.statuses)
  unfolding apply_event
  statuses-failures identity failures w =
      record_failures_lem app.engine identity failures w.shared.statuses []

  -- A publish outcome changes the status of its own point alone, and the event that is sent names
  -- the point by the key under which the UI lists it.
  pub statuses-point_publish :
      (point : PointConfig) (failure : Option String) (identity : I) (w : World I)
      → let target = app.engine.from_point point in
        let after = apply_event app (WorkerEvent.point_publish target failure) w in
        let status =
          record_publish app.engine failure (status_of app.engine target w.shared.statuses) in
        (lookup identity after.shared.statuses
          ≡ (if target == identity then some status else lookup identity w.shared.statuses))
        × (after.events
            ≡ statuses_event ((identity_key app.engine point, status_value status) ∷ []) ∷ w.events)
  unfolding apply_event publish_key identity_key
  statuses-point_publish point failure identity w =
      let target = app.engine.from_point point in
      (lookup-insert target identity _ w.shared.statuses, refl)
