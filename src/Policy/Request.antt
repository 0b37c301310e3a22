-- ===== src/Policy/Request.antt =====
-- policy.rs: `validate_limits`, `validate_candidate` and `ControllerPolicy::validate_request`.
use sdr_pi.Base.{
  ℕ, ◌-◌, String, Bool, true, false, not, ◌&&◌, ◌||◌, ok, Option, none, some, List, [], ◌∷◌, ◌>>=◌,
  ◌>>◌, ◌=s◌, leb, ltb, ◌==◌, contains, contains_ℤ, pos, F32, byte_len, is_blank, is_finite, le_f32,
  zero_f32, one_f32, length,
}
use sdr_pi.Protocol.{
  SafetyLimits, CandidateSummary, SweepObservationSummary, RecognitionSummary, PlanRequest,
  protocol_version, max_instruction_bytes, max_candidates, max_sweep_points,
}
use sdr_pi.Policy.Checks.{Checked, require, valid_label, validate_frequency}

unfoldable pub validate_limits : SafetyLimits → Checked (Unit {0})
validate_limits limits = do
  require (leb 70_000_000 limits.min_freq_hz && ltb limits.min_freq_hz limits.max_freq_hz)
      "limits_frequency" "invalid minimum or maximum frequency"
  require (leb limits.max_freq_hz 6_000_000_000) "limits_frequency"
      "maximum frequency exceeds the AD9361 policy limit"
  require
      (ltb 0 limits.max_span_hz && leb limits.max_span_hz (limits.max_freq_hz - limits.min_freq_hz))
      "limits_span" "invalid maximum scan span"
  require (contains 200_000 56_000_000 limits.max_bandwidth_hz) "limits_bandwidth"
      "invalid maximum bandwidth"
  require (contains 1 60_000 limits.max_dwell_ms) "limits_dwell" "invalid maximum dwell time"
  require
      (ltb 0 limits.max_iq_samples
        && ltb 0 limits.max_iq_bytes
        && leb limits.auto_approve_iq_bytes limits.max_iq_bytes)
      "limits_iq" "invalid IQ capture limits"
  require (ltb 0 limits.max_observation_age_ms) "limits_observation_age"
      "invalid observation age limit"

unfoldable pub validate_candidate : CandidateSummary → SafetyLimits → Checked (Unit {0})
validate_candidate candidate limits = do
  require (valid_label candidate.id 64) "candidate_id"
      "candidate id must contain 1 to 64 printable bytes"
  validate_frequency candidate.center_hz limits
  require (ltb 0 candidate.bandwidth_hz && leb candidate.bandwidth_hz limits.max_bandwidth_hz)
      "candidate_bandwidth" "candidate bandwidth exceeds the policy limit"
  require (is_finite candidate.peak_dbfs && is_finite candidate.snr_db) "candidate_power"
      "candidate power values must be finite"
  require (leb candidate.age_ms limits.max_observation_age_ms) "candidate_stale"
      "candidate is older than the configured limit"

-- membership in the `HashSet` of candidate ids, as the list of the ids inserted so far
unfoldable pub contains_id : String → List String → Bool
contains_id id [] = false
contains_id id (seen ∷ rest) = (id =s seen) || contains_id id rest

-- the loop over the candidates; the result is the set of their ids
unfoldable pub validate_candidates :
    SafetyLimits → List String → List CandidateSummary → Checked (List String)
validate_candidates limits candidate_ids [] = ok candidate_ids
validate_candidates limits candidate_ids (candidate ∷ rest) =
    validate_candidate candidate limits
    >> (require (not (contains_id candidate.id candidate_ids)) "duplicate_candidate_id"
          "candidate ids must be unique"
        >> validate_candidates limits (candidate.id ∷ candidate_ids) rest)

-- `previous_hz.map_or(true, |previous| previous < center_hz)`
abbrev pub above_previous : Option ℕ → ℕ → Bool
above_previous none center_hz = true
above_previous (some previous) center_hz = ltb previous center_hz

-- the loop over the points of the latest sweep
unfoldable pub validate_sweep_points : SafetyLimits → Option ℕ → List (ℕ × F32) → Checked (Unit {0})
validate_sweep_points limits previous_hz [] = ok tt
validate_sweep_points limits previous_hz ((center_hz, power_dbfs) ∷ rest) =
    validate_frequency center_hz limits
    >> (require (is_finite power_dbfs && above_previous previous_hz center_hz) "sweep_point"
          "latest sweep points must be finite, unique, and ascending"
        >> validate_sweep_points limits (some center_hz) rest)

unfoldable pub validate_latest_sweep :
    SafetyLimits → Option SweepObservationSummary → Checked (Unit {0})
validate_latest_sweep limits none = ok tt
validate_latest_sweep limits (some sweep) = do
  require (valid_label sweep.sweep_id 64) "sweep_id" "latest sweep id is invalid"
  require (ltb 0 (length sweep.points) && leb (length sweep.points) max_sweep_points) "sweep_points"
      "latest sweep must contain between one and 768 points"
  require
      (contains 2_100_000 30_720_000 sweep.sample_rate_hz
        && contains 200_000 sweep.sample_rate_hz sweep.rf_bandwidth_hz
        && contains_ℤ (pos 0) (pos 60) sweep.fixed_gain_db
        && is_finite sweep.noise_floor_dbfs)
      "sweep_profile" "latest sweep radio profile is invalid"
  validate_sweep_points limits none sweep.points

unfoldable pub validate_recognition : List String → Option RecognitionSummary → Checked (Unit {0})
validate_recognition candidate_ids none = ok tt
validate_recognition candidate_ids (some recognition) = do
  require (valid_label recognition.candidate_id 64) "recognition_candidate_id"
      "invalid candidate id"
  require (valid_label recognition.label 128) "recognition_label" "invalid recognition label"
  require
      (is_finite recognition.confidence
        && (le_f32 zero_f32 recognition.confidence && le_f32 recognition.confidence one_f32))
      "recognition_confidence" "must be finite and between zero and one"
  require (contains_id recognition.candidate_id candidate_ids) "recognition_stale"
      "recognition does not refer to a current candidate"

-- `ControllerPolicy::validate_request`
unfoldable pub validate_request : PlanRequest → Checked (Unit {0})
validate_request request = do
  require (request.protocol_version == protocol_version) "protocol_version"
      "unsupported planner protocol version"
  require (ltb 0 request.request_id) "request_id" "must be non-zero"
  require
      (not (is_blank request.instruction)
        && leb (byte_len request.instruction) max_instruction_bytes)
      "instruction" "must contain 1 to 1024 bytes"
  validate_limits request.limits
  require (leb request.observation.age_ms request.limits.max_observation_age_ms) "observation_stale"
      "observation is older than the configured limit"
  require (leb (length request.observation.candidates) max_candidates) "too_many_candidates"
      "candidate count exceeds the protocol limit"
  candidate_ids ← validate_candidates request.limits [] request.observation.candidates
  validate_latest_sweep request.limits request.observation.latest_sweep
  validate_recognition candidate_ids request.observation.recognition
