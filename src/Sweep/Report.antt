-- ===== src/Sweep/Report.antt =====
-- sweep.rs: `SweepReport::planner_observation` and `planner_inspection_observation`.
use sdr_pi.Base.{
  ℕ, min, ℤ, F32, FloatOps, zero_f32, max_f32, String, true, false, Option, none, some, List, [],
  ◌∷◌, map, Result, ok, err, ◌=s◌, saturating_add, take,
}
use sdr_pi.Protocol.{
  max_candidates, CandidateSummary, HealthSummary, ObservationSummary, SweepObservationSummary,
}
use sdr_pi.Sweep.Plan.{
  SweepPoint, SweepCandidate, SweepReport, SweepError, sweep_error,
  max_planner_candidate_bandwidth_hz,
}

abbrev pub summary_of : ℕ → SweepCandidate → CandidateSummary
summary_of age_ms c = record {
  id = c.id;
  center_hz = c.center_hz;
  bandwidth_hz = min c.bandwidth_hz max_planner_candidate_bandwidth_hz;
  peak_dbfs = c.peak_dbfs;
  snr_db = c.snr_db;
  age_ms = age_ms;
}

abbrev pub point_pair : SweepPoint → ℕ × F32
point_pair p = (p.actual_center_hz, p.band_power_dbfs)

abbrev pub latest_sweep : SweepReport → ℤ → List SweepPoint → Option SweepObservationSummary
latest_sweep report fixed_gain_db [] = none
latest_sweep report fixed_gain_db (first ∷ _) = some (record {
  sweep_id = report.sweep_id;
  sample_rate_hz = first.sample_rate_hz;
  rf_bandwidth_hz = first.rf_bandwidth_hz;
  fixed_gain_db = fixed_gain_db;
  noise_floor_dbfs = report.noise_floor_dbfs;
  points = map point_pair report.points;
})

unfoldable pub planner_observation : SweepReport → ℕ → HealthSummary → ℤ → ObservationSummary
planner_observation report age_ms health fixed_gain_db = record {
  age_ms = age_ms;
  health = health;
  candidates = map (summary_of age_ms) (take max_candidates report.candidates);
  latest_sweep = latest_sweep report fixed_gain_db report.points;
  recognition = none;
}

abbrev pub age : ℕ → CandidateSummary → CandidateSummary
age elapsed_ms c = record c { age_ms = saturating_add c.age_ms elapsed_ms }

module _ (f : FloatOps) where
  -- the writes to the candidate that was inspected
  abbrev pub refresh : SweepPoint → CandidateSummary → CandidateSummary
  refresh point c = record c {
    center_hz = point.actual_center_hz;
    bandwidth_hz = point.rf_bandwidth_hz;
    peak_dbfs = point.band_power_dbfs;
    snr_db = max_f32 (f.sub point.band_power_dbfs (f.sub c.peak_dbfs c.snr_db)) zero_f32;
    age_ms = 0;
  }

  -- `iter_mut().find(..)` and the writes to what it finds: the first candidate with the id
  unfoldable pub refresh_first :
      SweepPoint → String → List CandidateSummary → Option (List CandidateSummary)
  refresh_first point candidate_id [] = none
  refresh_first point candidate_id (c ∷ rest) = elim (c.id =s candidate_id) [
    | true ↦ some (refresh point c ∷ rest)
    | false ↦ elim (refresh_first point candidate_id rest) [
      | none ↦ none
      | some updated ↦ some (c ∷ updated)
    ]
  ]

  module _ {V : Type 0} where
    abbrev pub inspected :
        SweepReport
        → SweepPoint
        → ObservationSummary
        → String
        → HealthSummary
        → Result (SweepError V) ObservationSummary
    inspected report point previous candidate_id health =
        elim (refresh_first point candidate_id (map (age report.elapsed_ms) previous.candidates)) [
          | none ↦ err (
              sweep_error "inspection_candidate"
                "inspected candidate is absent from the prior observation")
          | some candidates ↦ ok (record {
            age_ms = 0;
            health = health;
            candidates = candidates;
            latest_sweep = previous.latest_sweep;
            recognition = none;
          })
        ]

    abbrev pub inspect_points :
        SweepReport
        → List SweepPoint
        → ObservationSummary
        → String
        → HealthSummary
        → Result (SweepError V) ObservationSummary
    inspect_points report (point ∷ []) previous candidate_id health =
        inspected report point previous candidate_id health
    inspect_points report _ previous candidate_id health = err (
        sweep_error "inspection_points"
          "candidate inspection must return exactly one summary point")

    unfoldable pub planner_inspection_observation :
        SweepReport
        → ObservationSummary
        → String
        → HealthSummary
        → Result (SweepError V) ObservationSummary
    unfolding refresh_first
    planner_inspection_observation report previous candidate_id health =
        inspect_points report report.points previous candidate_id health
