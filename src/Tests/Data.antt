-- ===== src/Tests/Data.antt =====
-- The data of the tests, after the tests of policy.rs, runner.rs and sweep.rs.
use sdr_pi.Base.{ℕ, suc, true, false, none, some, [], ◌∷◌, FloatOps, F32, Result, ok}
use sdr_pi.Protocol.{
  idle, HealthSummary, CandidateSummary, SafetyLimits, PlanRequest, PlanStatus, PlannerMeta,
  ProposedAction, capture_bounded_iq, PlanResponse, ValidatedPlan,
}
use sdr_pi.Sdr.{SdrSnapshot}
use sdr_pi.Controller.{Planner, PlannerError}
use sdr_pi.Execution.{ExecutionObservation}
use sdr_pi.Sweep.{SweepPoint}
use sdr_pi.Runner.{Clock}

abbrev pub test_limits : SafetyLimits
test_limits = record {
  min_freq_hz = 70_000_000;
  max_freq_hz = 6_000_000_000;
  max_span_hz = 100_000_000;
  max_bandwidth_hz = 20_000_000;
  max_dwell_ms = 5_000;
  max_iq_samples = 1_048_576;
  max_iq_bytes = 4_194_304;
  auto_approve_iq_bytes = 1_048_576;
  max_observation_age_ms = 5_000;
}

abbrev pub test_health : HealthSummary
test_health = record {
  sdr_online = true;
  can_retune = true;
  can_capture_iq = true;
  recognizer_available = true;
  dropped_observations = 0;
}

-- -40 dBFS with 20 dB above the noise
abbrev pub test_candidate : CandidateSummary
test_candidate = record {
  id = "candidate-1";
  center_hz = 2_437_000_000;
  bandwidth_hz = 10_000_000;
  peak_dbfs = 0xc2200000;
  snr_db = 0x41a00000;
  age_ms = 100;
}

abbrev pub test_request : PlanRequest
test_request = record {
  protocol_version = 1;
  request_id = 42;
  session_generation = 7;
  instruction = "inspect the strongest candidate";
  state = idle;
  observation = record {
    age_ms = 0;
    health = test_health;
    candidates = test_candidate ∷ [];
    latest_sweep = none;
    recognition = none;
  };
  limits = test_limits;
}

abbrev pub test_capture : ProposedAction
test_capture = capture_bounded_iq "candidate-1" 2_437_000_000 10_000_000 8_000_000 524_288

abbrev pub test_planner : PlannerMeta
test_planner = record { provider = "local"; model = "model-1" }

abbrev pub test_response : PlanResponse
test_response = record {
  protocol_version = 1;
  request_id = 42;
  session_generation = 7;
  status = PlanStatus.ok;
  action = some test_capture;
  error = none;
  planner = test_planner;
}

abbrev pub test_plan : ValidatedPlan
test_plan = record {
  request_id = 42;
  session_generation = 7;
  approval_required = true;
  action = test_capture;
  planner = test_planner;
}

abbrev pub test_snapshot : SdrSnapshot
test_snapshot = record {
  online = true;
  healthy = true;
  health_flags = 0;
  iio_visible = true;
  can_retune = true;
  can_capture_iq = true;
}

abbrev pub test_execution : ExecutionObservation
test_execution = record {
  request_id = 42;
  session_generation = 7;
  capture = record {
    candidate_id = "candidate-1";
    feature_id = "feature-1";
    relative_path = "captures/1.ci16";
    samples_captured = 524_288;
    bytes_written = 2_097_152;
    sequence = 1;
    dropped_samples = 0;
    overflow = false;
    timeout = record { limit_ms = 1_000; elapsed_us = 10; timed_out = false };
    health = record { healthy = true; flags = 0; source = "sdrd" };
  };
  post_execution_sdr = test_snapshot;
}

-- arithmetic on powers that the tests do not look at
abbrev pub test_floats : FloatOps
test_floats = record { add = λ a b. a; sub = λ a b. a }

-- a planner that always gives the same answer
abbrev pub fixed_planner : Planner (Result PlannerError PlanResponse)
fixed_planner = record { plan = λ request answer. (answer, answer) }

-- a clock that counts
abbrev pub counter : Clock ℕ
counter = record { now = λ n. (ok n, suc n) }

abbrev pub test_point : ℕ → ℕ → F32 → SweepPoint
test_point index center_hz power = record {
  point_index = index;
  request_id = 9;
  session_generation = 7;
  requested_center_hz = center_hz;
  actual_center_hz = center_hz;
  sample_rate_hz = 10_000_000;
  rf_bandwidth_hz = 8_000_000;
  sequence = suc index;
  dropped_samples = 0;
  overflow = false;
  captured_samples = 4_096;
  band_power_dbfs = power;
  clipped_samples = 0;
  status_flags = 0;
  elapsed_us = 10;
  timeout = record { limit_ms = 250; elapsed_us = 10; timed_out = false };
  health = record { healthy = true; flags = 0; source = "sdrd" };
}
