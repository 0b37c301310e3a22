-- ===== src/Policy/Checks.antt =====
-- policy.rs: `PolicyError`, `require` and the tests on single values.
use sdr_pi.Base.{
  ℕ, String, Bool, not, ◌&&◌, ◌||◌, Result, ok, err, ok_or, Option, none, some, List, [], ◌∷◌, ◌>>◌,
  ◌=s◌, leb, ltb, contains, if◌then◌else◌, byte_len, is_control, all_chars, is_blank,
}
use sdr_pi.Protocol.{SafetyLimits, CandidateSummary, PlanRequest}

pub record PolicyError : Type 0 where
  pub code : String
  pub message : String

abbrev pub Checked : Type 0 → Type 0
Checked A = Result PolicyError A

abbrev pub policy_error : {A : Type 0} → String → String → Checked A
policy_error code message = err (record { code = code; message = message })

abbrev pub require : Bool → String → String → Checked (Unit {0})
require condition code message = if condition then ok tt else policy_error code message

unfoldable pub valid_label : String → ℕ → Bool
valid_label value max_bytes =
    not (is_blank value)
    && leb (byte_len value) max_bytes
    && all_chars (λ c. not (is_control c)) value

unfoldable pub validate_reason : String → Checked (Unit {0})
validate_reason reason =
    require (valid_label reason 256) "reason" "reason must contain 1 to 256 printable bytes"

unfoldable pub validate_frequency : ℕ → SafetyLimits → Checked (Unit {0})
validate_frequency frequency_hz limits =
    require (contains limits.min_freq_hz limits.max_freq_hz frequency_hz) "frequency"
      "frequency is outside the configured range"

unfoldable pub validate_dwell : ℕ → SafetyLimits → Checked (Unit {0})
validate_dwell dwell_ms limits =
    require (ltb 0 dwell_ms && leb dwell_ms limits.max_dwell_ms) "dwell"
      "dwell time exceeds the configured limit"

unfoldable pub validate_radio_profile : ℕ → ℕ → SafetyLimits → Checked (Unit {0})
validate_radio_profile sample_rate_hz rf_bandwidth_hz limits = do
  require (contains 2_100_000 30_720_000 sample_rate_hz) "sample_rate"
      "sample rate is outside the controlled hardware range"
  require
      (contains 200_000 limits.max_bandwidth_hz rf_bandwidth_hz
        && leb rf_bandwidth_hz sample_rate_hz)
      "rf_bandwidth" "RF bandwidth is invalid or exceeds the sample rate"

unfoldable pub require_sdr_capability : PlanRequest → Bool → Bool → Checked (Unit {0})
require_sdr_capability request retune capture = do
  require request.observation.health.sdr_online "sdr_offline" "SDR is offline"
  require (not retune || request.observation.health.can_retune) "retune_unavailable"
      "the current SDR capability set is read-only"
  require (not capture || request.observation.health.can_capture_iq) "capture_unavailable"
      "bounded IQ capture is not available"

-- `candidates.iter().find(|candidate| candidate.id == candidate_id)`
unfoldable pub find_by_id : String → List CandidateSummary → Option CandidateSummary
find_by_id candidate_id [] = none
find_by_id candidate_id (candidate ∷ rest) =
    if candidate.id =s candidate_id then some candidate else find_by_id candidate_id rest

unfoldable pub find_candidate : PlanRequest → String → Checked CandidateSummary
find_candidate request candidate_id =
    ok_or (find_by_id candidate_id request.observation.candidates)
      (record { code = "unknown_candidate"; message = "candidate id is not current" })
