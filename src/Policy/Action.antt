-- ===== src/Policy/Action.antt =====
-- policy.rs: `validate_action`, one function for each kind of action.
use sdr_pi.Base.{
  ℕ, ◌-◌, ◌*◌, ◌/◌, max, String, Bool, true, false, not, ◌&&◌, ok, ok_or, Option, none, some, ◌>>=◌,
  ◌>>◌, leb, ltb, contains, if◌then◌else◌, checked_add, checked_mul, checked_div, saturating_add,
  saturating_mul, saturating_sub, abs_diff,
}
use sdr_pi.Protocol.{
  PlanRequest, ControllerState, faulted, ProposedAction, hold, survey_band, inspect_candidate,
  capture_bounded_iq, run_local_recognition, stop_session,
}
use sdr_pi.Policy.Checks.{
  Checked, policy_error, require, validate_reason, validate_frequency, validate_dwell,
  validate_radio_profile, require_sdr_capability, find_candidate,
}

abbrev pub max_survey_points : ℕ
max_survey_points = 768

abbrev pub max_survey_duration_ms : ℕ
max_survey_duration_ms = 300_000

abbrev pub survey_point_timeout_ms : ℕ
survey_point_timeout_ms = 250

abbrev pub survey_frame_bytes : ℕ
survey_frame_bytes = 4_096 * 4

abbrev pub max_inspection_dwell_ms : ℕ
max_inspection_dwell_ms = 1_000

-- `checked_add(..).and_then(checked_div).and_then(checked_add)`
unfoldable pub survey_point_count : ℕ → ℕ → Option ℕ
survey_point_count span_hz step_hz = elim (checked_add span_hz (saturating_sub step_hz 1)) [
  | none ↦ none
  | some rounded ↦ elim (checked_div rounded step_hz) [
    | none ↦ none
    | some intervals ↦ checked_add intervals 1
  ]
]

-- the budget of a survey: points, duration and bytes
unfoldable pub validate_survey_budget : PlanRequest → ℕ → ℕ → ℕ → Checked Bool
validate_survey_budget request span_hz step_hz dwell_ms = do
  point_count ←
      ok_or (survey_point_count span_hz step_hz)
        (record { code = "survey_points"; message = "survey point count overflow" })
  require (leb point_count max_survey_points) "survey_points"
      "survey exceeds the 768-point execution limit"
  estimated_duration_ms ←
      ok_or (checked_mul point_count (saturating_add dwell_ms survey_point_timeout_ms))
        (record { code = "survey_duration"; message = "survey duration overflow" })
  require (leb estimated_duration_ms max_survey_duration_ms) "survey_duration"
      "survey exceeds the 300-second execution limit"
  processed_bytes ←
      ok_or (checked_mul point_count survey_frame_bytes)
        (record { code = "survey_bytes"; message = "survey byte budget overflow" })
  require (leb processed_bytes request.limits.max_iq_bytes) "survey_bytes"
      "survey exceeds the per-action receive-byte limit"
  ok false

unfoldable pub validate_survey : PlanRequest → ℕ → ℕ → ℕ → ℕ → ℕ → ℕ → Checked Bool
validate_survey request start_hz stop_hz step_hz sample_rate_hz rf_bandwidth_hz dwell_ms = do
  require_sdr_capability request true false
  validate_frequency start_hz request.limits
  validate_frequency stop_hz request.limits
  require (ltb start_hz stop_hz && leb (stop_hz - start_hz) request.limits.max_span_hz)
      "survey_span" "survey span is empty or exceeds the policy limit"
  require (ltb 0 step_hz && leb step_hz (stop_hz - start_hz)) "survey_step" "survey step is invalid"
  validate_radio_profile sample_rate_hz rf_bandwidth_hz request.limits
  require (leb step_hz (saturating_mul rf_bandwidth_hz 4 / 5)) "survey_coverage"
      "survey step exceeds 80 percent of RF bandwidth"
  validate_dwell dwell_ms request.limits
  validate_survey_budget request (stop_hz - start_hz) step_hz dwell_ms

unfoldable pub validate_inspection : PlanRequest → String → ℕ → ℕ → ℕ → ℕ → Checked Bool
validate_inspection request candidate_id center_hz sample_rate_hz rf_bandwidth_hz dwell_ms = do
  require_sdr_capability request true false
  candidate ← find_candidate request candidate_id
  validate_frequency center_hz request.limits
  validate_radio_profile sample_rate_hz rf_bandwidth_hz request.limits
  require
      (leb (abs_diff center_hz candidate.center_hz) (max candidate.bandwidth_hz rf_bandwidth_hz))
      "inspect_candidate_mismatch" "inspection frequency does not match the selected candidate"
  validate_dwell dwell_ms request.limits
  require (leb dwell_ms max_inspection_dwell_ms) "inspect_dwell"
      "candidate inspection dwell exceeds the one-second execution limit"
  require (leb survey_frame_bytes request.limits.max_iq_bytes) "inspect_bytes"
      "candidate inspection exceeds the per-action receive-byte limit"
  ok false

unfoldable pub validate_capture : PlanRequest → String → ℕ → ℕ → ℕ → ℕ → Checked Bool
validate_capture request candidate_id center_hz sample_rate_hz rf_bandwidth_hz samples = do
  require_sdr_capability request false true
  candidate ← find_candidate request candidate_id
  validate_frequency center_hz request.limits
  require (leb (abs_diff center_hz candidate.center_hz) candidate.bandwidth_hz)
      "capture_candidate_mismatch" "capture frequency does not match the selected candidate"
  require (contains 2_100_000 30_720_000 sample_rate_hz) "capture_sample_rate"
      "sample rate is outside the supported range"
  require
      (contains 200_000 request.limits.max_bandwidth_hz rf_bandwidth_hz
        && leb rf_bandwidth_hz sample_rate_hz)
      "capture_bandwidth" "RF bandwidth is invalid or exceeds the sample rate"
  require (ltb 0 samples && leb samples request.limits.max_iq_samples) "capture_samples"
      "IQ sample count exceeds the policy limit"
  bytes ←
      ok_or (checked_mul samples 4)
        (record { code = "capture_bytes"; message = "IQ byte count overflow" })
  require (leb bytes request.limits.max_iq_bytes) "capture_bytes"
      "IQ byte count exceeds the policy limit"
  ok (ltb request.limits.auto_approve_iq_bytes bytes)

unfoldable pub validate_local_recognition : PlanRequest → String → Checked Bool
validate_local_recognition request candidate_id = do
  require request.observation.health.recognizer_available "recognizer_unavailable"
      "local recognizer is not available"
  candidate ← find_candidate request candidate_id
  ok false

abbrev pub is_faulted : ControllerState → Bool
is_faulted faulted = true
is_faulted _ = false

-- `matches!(action, Hold { .. } | StopSession { .. })`
abbrev pub is_hold_or_stop : ProposedAction → Bool
is_hold_or_stop (hold reason) = true
is_hold_or_stop (stop_session reason) = true
is_hold_or_stop _ = false

-- the `match` on the action
unfoldable pub validate_kind : PlanRequest → ProposedAction → Checked Bool
validate_kind request (hold reason) = do validate_reason reason; ok false
validate_kind request (stop_session reason) = do validate_reason reason; ok false
validate_kind request
      (survey_band start_hz stop_hz step_hz sample_rate_hz rf_bandwidth_hz dwell_ms) =
    validate_survey request start_hz stop_hz step_hz sample_rate_hz rf_bandwidth_hz dwell_ms
validate_kind request (inspect_candidate id center_hz sample_rate_hz rf_bandwidth_hz dwell_ms) =
    validate_inspection request id center_hz sample_rate_hz rf_bandwidth_hz dwell_ms
validate_kind request (capture_bounded_iq id center_hz sample_rate_hz rf_bandwidth_hz samples) =
    validate_capture request id center_hz sample_rate_hz rf_bandwidth_hz samples
validate_kind request (run_local_recognition id) = validate_local_recognition request id

unfoldable pub validate_action : PlanRequest → ProposedAction → Checked Bool
validate_action request action =
    if is_faulted request.state && not (is_hold_or_stop action)
    then policy_error "faulted_state" "only hold or stop is allowed while the controller is faulted"
    else validate_kind request action
