-- ===== src/Sweep/Engine.antt =====
-- sweep.rs: `SweepBackend`, `SweepEngine::run` and the replay backend.
use sdr_pi.Base.{ℕ, FloatOps, List, [], ◌∷◌, Result, ok, err, ◌>>=◌, ◌>>◌}
use sdr_pi.Sweep.Plan.{
  SweepPlan, ValidatedSweepPlan, BackendSweep, SweepReport, SweepError, sweep_error,
}
use sdr_pi.Sweep.Validate.{validate_plan}
use sdr_pi.Sweep.Points.{validate_points}
use sdr_pi.Sweep.Merge.{median_power_dbfs, merge_candidates}

-- The trait `SweepBackend`: a backend whose state is a `B`. `elapsed_ms` is what the clock has
-- counted since `run` began, in the state after the points were run.
pub record SweepBackend (V B : Type 0) : Type 0 where
  pub run_points : ValidatedSweepPlan → B → Result (SweepError V) BackendSweep × B
  pub elapsed_ms : B → ℕ

-- `ReplaySweepAdapter`: its state is the queue of sweeps.
abbrev pub replay_points :
    {V : Type 0}
    → ValidatedSweepPlan
    → List (Result (SweepError V) BackendSweep)
    → Result (SweepError V) BackendSweep × List (Result (SweepError V) BackendSweep)
replay_points plan [] = (err (sweep_error "replay_exhausted" "no replay sweeps remain"), [])
replay_points plan (sweep ∷ rest) = (sweep, rest)

abbrev pub replay_backend :
    {V : Type 0} → SweepBackend V (List (Result (SweepError V) BackendSweep))
replay_backend = record { run_points = replay_points; elapsed_ms = λ _. 0 }

module _ {V : Type 0} (f : FloatOps) where
  -- what `run` makes of the sweep that the backend returned
  unfoldable pub report_of :
      ValidatedSweepPlan → BackendSweep → ℕ → Result (SweepError V) SweepReport
  report_of validated backend elapsed_ms = do
    validate_points validated backend.points
    noise_floor_dbfs ← median_power_dbfs backend.points
    ok (record {
      sweep_id = validated.sweep_id;
      session_generation = validated.session_generation;
      backend = backend.backend;
      backend_version = backend.backend_version;
      estimated_duration_ms = validated.estimated_duration_ms;
      elapsed_ms = elapsed_ms;
      noise_floor_dbfs = noise_floor_dbfs;
      points = backend.points;
      candidates = merge_candidates f validated backend.points noise_floor_dbfs;
      dataset = backend.dataset;
    })

  module _ {B : Type 0} (backend : SweepBackend V B) where
    abbrev pub run_validated : ValidatedSweepPlan → B → Result (SweepError V) SweepReport × B
    run_validated validated b =
        let (swept, b') = backend.run_points validated b in
        elim swept [
          | ok sweep ↦ (report_of validated sweep (backend.elapsed_ms b'), b')
          | err e ↦ (err e, b')
        ]

    unfoldable pub run_sweep : SweepPlan → B → Result (SweepError V) SweepReport × B
    run_sweep plan b = elim (validate_plan {V = V} plan) [
      | ok validated ↦ run_validated validated b
      | err e ↦ (err e, b)
    ]
