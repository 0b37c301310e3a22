-- ===== src/Tests/Sweeps.antt =====
-- Tests of the sweep.
use sdr_pi.Base.{
  ℕ, All, ◌*◌, ◌+◌, is_finite, ◌-◌, ◌≡◌, ◌≤◌, ◌↔◌, pos, refl, inl, inr, true, false, none, some, ok,
  err, arith, List, [], ◌∷◌, Result, String, map, twelve_f32, F32,
}
use sdr_pi.Protocol.{ObservationSummary}
use sdr_pi.Policy.Candidates.{id_of}
use sdr_pi.Sweep.{
  SweepPlan, ValidatedSweepPlan, SweepPoint, SweepReport, SweepError, centers, range, validate_plan,
  validate_points, expand_centers, active_indices, ranges, merge_candidates,
  planner_inspection_observation, decode_base64, aggregate_ci16_power, median_power_dbfs, power_of,
}
use sdr_pi.Sweep.Accepted.{IsPlanOf, IsValidated, validate_plan-IsValidated}
use sdr_pi.Sweep.Grid.{expand_centers-range}
use sdr_pi.Sweep.Contract.{Measured, validate_points_iff}
use sdr_pi.Sweep.Merged.{IsMerged, merge_candidates-IsMerged}
use sdr_pi.Sweep.Inspected.{Inspected, inspection_observed}
use sdr_pi.Sweep.Median.{IsFinite, IsMedian, median_power_dbfs-IsMedian}
use sdr_pi.Sweep.Encoded.{encode, IsByte, decode_base64-encode}
use sdr_pi.Sweep.Summed.{power_of_bytes, clipped_in, aggregate_ci16_power-total}
use sdr_pi.Tests.Data.{test_request, test_health, test_candidate, test_floats, test_point}

abbrev test_sweep : SweepPlan
test_sweep = record {
  sweep_id = "sweep-1";
  session_generation = 7;
  frequencies = range 100_000_000 112_000_000 5_000_000;
  sample_rate_hz = 10_000_000;
  rf_bandwidth_hz = 8_000_000;
  settle_ms = 10;
  frame_samples = 4_096;
  aggregate_frames = 1;
  point_timeout_ms = 250;
  detection_threshold_db = twelve_f32;
  gain_db = some (pos 20);
}

abbrev test_validated : ValidatedSweepPlan
test_validated = record {
  sweep_id = "sweep-1";
  session_generation = 7;
  centers_hz = 100_000_000 ∷ 105_000_000 ∷ 110_000_000 ∷ 112_000_000 ∷ [];
  sample_rate_hz = 10_000_000;
  rf_bandwidth_hz = 8_000_000;
  settle_ms = 10;
  frame_samples = 4_096;
  aggregate_frames = 1;
  point_timeout_ms = 250;
  detection_threshold_db = twelve_f32;
  gain_db = some (pos 20);
  estimated_duration_ms = 1_040;
  maximum_summary_bytes = 196_608;
}

-- -60, -40, -40 and -60 dBFS
abbrev test_points : List SweepPoint
test_points =
    test_point 0 100_000_000 0xc2700000
    ∷ test_point 1 105_000_000 0xc2200000
    ∷ test_point 2 110_000_000 0xc2200000
    ∷ test_point 3 112_000_000 0xc2700000
    ∷ []

sweep_accepted : validate_plan {V = ℕ} test_sweep ≡ ok test_validated
unfolding validate_plan sdr_pi.Sweep.is_sweep_id sdr_pi.Base.byte_len sdr_pi.Base.all_chars
    expand_centers sdr_pi.Sweep.expand_range sdr_pi.Sweep.valid_centers sdr_pi.Sweep.valid_profile
    sdr_pi.Sweep.covers sdr_pi.Sweep.valid_summary sdr_pi.Base.is_finite sdr_pi.Base.le_f32
    sdr_pi.Sweep.estimate_duration
sweep_accepted = refl

validate_plan-IsValidated_example :
    IsPlanOf ℕ test_sweep test_validated × IsValidated test_validated
validate_plan-IsValidated_example =
    validate_plan-IsValidated test_sweep test_validated sweep_accepted

expand_centers-range_example :
    expand_centers {V = ℕ} (range 100_000_000 112_000_000 5_000_000)
    ≡ ok (100_000_000 ∷ 105_000_000 ∷ 110_000_000 ∷ 112_000_000 ∷ [])
expand_centers-range_example =
    expand_centers-range 100_000_000 112_000_000 5_000_000 (omega arith) (omega arith) (omega arith)

points_accepted : validate_points {V = ℕ} test_validated test_points ≡ ok tt
unfolding validate_points sdr_pi.Sweep.keeps_contract sdr_pi.Base.is_finite sdr_pi.Base.byte_len
points_accepted = refl

validate_points_iff_example : Measured test_validated 0 test_validated.centers_hz none test_points
validate_points_iff_example =
    (validate_points_iff {V = ℕ} test_validated test_points).0 points_accepted

-- with the sum that is the first of its terms, the threshold is the noise floor of -50 dBFS
two_active : active_indices test_floats 0xc2480000 twelve_f32 0 test_points ≡ 1 ∷ 2 ∷ []
unfolding active_indices sdr_pi.Base.le_f32
two_active = refl

merge_candidates-IsMerged_example :
    IsMerged test_floats test_validated test_points 0xc2480000
      (active_indices test_floats 0xc2480000 twelve_f32 0 test_points)
      (ranges (active_indices test_floats 0xc2480000 twelve_f32 0 test_points))
      (merge_candidates test_floats test_validated test_points 0xc2480000)
merge_candidates-IsMerged_example =
    merge_candidates-IsMerged test_floats test_validated test_points 0xc2480000

abbrev inspected_point : SweepPoint
inspected_point = test_point 0 2_437_000_000 0xc2200000

abbrev test_report : SweepReport
test_report = record {
  sweep_id = "inspect-42";
  session_generation = 7;
  backend = "replay";
  backend_version = 1;
  estimated_duration_ms = 260;
  elapsed_ms = 12;
  noise_floor_dbfs = 0xc2700000;
  points = inspected_point ∷ [];
  candidates = [];
  dataset = none;
}

abbrev inspected_observation : ObservationSummary
inspected_observation = record (test_request.observation) {
  candidates = record test_candidate { bandwidth_hz = 8_000_000; snr_db = 0; age_ms = 0 } ∷ [];
}

inspected :
    planner_inspection_observation test_floats {V = ℕ} test_report test_request.observation
      "candidate-1" test_health
    ≡ ok inspected_observation
unfolding planner_inspection_observation sdr_pi.Base.max_f32 sdr_pi.Base.le_f32
inspected = refl

inspection_observed_example :
    (p : SweepPoint) × (test_report.points ≡ p ∷ [])
    × Inspected test_floats p 12 "candidate-1" test_request.observation.candidates
        inspected_observation.candidates
    × (map id_of inspected_observation.candidates ≡ map id_of test_request.observation.candidates)
    × (inspected_observation.age_ms ≡ 0)
    × (inspected_observation.health ≡ test_health)
    × (inspected_observation.latest_sweep ≡ test_request.observation.latest_sweep)
    × (inspected_observation.recognition ≡ none)
inspection_observed_example =
    inspection_observed test_floats test_report test_request.observation inspected_observation
      "candidate-1" test_health inspected

four_bytes : All IsByte (115 ∷ 100 ∷ 114 ∷ 255 ∷ [])
four_bytes = ground arith

eight_bytes : All IsByte (3 ∷ 0 ∷ 252 ∷ 255 ∷ 255 ∷ 7 ∷ 0 ∷ 0 ∷ [])
eight_bytes = ground arith

-- "sdr" and one more byte
decode_base64-encode_example :
    decode_base64 {V = ℕ} (encode (115 ∷ 100 ∷ 114 ∷ 255 ∷ [])) ≡ ok (115 ∷ 100 ∷ 114 ∷ 255 ∷ [])
decode_base64-encode_example =
    decode_base64-encode (115 ∷ 100 ∷ 114 ∷ 255 ∷ []) (λ e. cc) four_bytes

encoded : encode (115 ∷ 100 ∷ 114 ∷ []) ≡ b'c' ∷ b'2' ∷ b'R' ∷ b'y' ∷ []
unfolding encode
encoded = refl

-- the sample (3, -4), and one at the end of the range
aggregate_ci16_power-total_example :
    aggregate_ci16_power {V = ℕ} (3 ∷ 0 ∷ 252 ∷ 255 ∷ 255 ∷ 7 ∷ 0 ∷ 0 ∷ []) 2
    ≡ ok (
      power_of_bytes (3 ∷ 0 ∷ 252 ∷ 255 ∷ 255 ∷ 7 ∷ 0 ∷ 0 ∷ []),
      clipped_in (3 ∷ 0 ∷ 252 ∷ 255 ∷ 255 ∷ 7 ∷ 0 ∷ 0 ∷ []),
    )
aggregate_ci16_power-total_example =
    aggregate_ci16_power-total (3 ∷ 0 ∷ 252 ∷ 255 ∷ 255 ∷ 7 ∷ 0 ∷ 0 ∷ []) 2 eight_bytes refl
      (omega arith)

two_summed : power_of_bytes (3 ∷ 0 ∷ 252 ∷ 255 ∷ 255 ∷ 7 ∷ 0 ∷ 0 ∷ []) ≡ 25 + 2_047 * 2_047
two_summed = refl

one_clipped : clipped_in (3 ∷ 0 ∷ 252 ∷ 255 ∷ 255 ∷ 7 ∷ 0 ∷ 0 ∷ []) ≡ 1
one_clipped = refl

powers-IsFinite : All IsFinite (map power_of test_points)
unfolding is_finite
powers-IsFinite = (refl, (refl, (refl, (refl, tt))))

median_power_dbfs-IsMedian_example :
    (m : F32) × (median_power_dbfs {V = ℕ} test_points ≡ ok m)
    × IsMedian (map power_of test_points) m
median_power_dbfs-IsMedian_example =
    median_power_dbfs-IsMedian test_points (λ e. cc) powers-IsFinite

-- of -60, -60, -40 and -40 dBFS the upper middle
median_of_four : median_power_dbfs {V = ℕ} test_points ≡ ok 0xc2200000
unfolding median_power_dbfs sdr_pi.Base.le_f32
median_of_four = refl
