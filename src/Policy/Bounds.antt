-- ===== src/Policy/Bounds.antt =====
-- What the checks of policy.rs admit, stated by orders on the values alone, and the proof that the
-- checks decide it.
use sdr_pi.Base.{
  ℕ, ◌+◌, ◌≤◌, ◌<◌, ◌≡◌, ◌↔◌, String, true, false, ok, arith, some, inl, inr, List, [], ◌∷◌, eq_iff,
  ◌=s◌, Bool-cases, sym, ap, ◌∙◌,
}
use mathlib.Core.List.{Memᴰ}
use sdr_pi.Protocol.{SafetyLimits, CandidateSummary, PlanRequest}
use sdr_pi.Policy.Checks.{
  validate_frequency, validate_dwell, validate_radio_profile, require_sdr_capability, find_by_id,
}
use sdr_pi.Policy.Request.{validate_limits}

-- The limits that a request may carry.
pub record IsLimits (limits : SafetyLimits) : Type 0 where
  pub min_freq : 70_000_000 ≤ limits.min_freq_hz
  pub ordered : limits.min_freq_hz < limits.max_freq_hz
  pub max_freq : limits.max_freq_hz ≤ 6_000_000_000
  pub span_positive : 0 < limits.max_span_hz
  pub span_fits : limits.max_span_hz + limits.min_freq_hz ≤ limits.max_freq_hz
  pub min_bandwidth : 200_000 ≤ limits.max_bandwidth_hz
  pub max_bandwidth : limits.max_bandwidth_hz ≤ 56_000_000
  pub min_dwell : 1 ≤ limits.max_dwell_ms
  pub max_dwell : limits.max_dwell_ms ≤ 60_000
  pub samples_positive : 0 < limits.max_iq_samples
  pub bytes_positive : 0 < limits.max_iq_bytes
  pub approval_fits : limits.auto_approve_iq_bytes ≤ limits.max_iq_bytes
  pub age_positive : 0 < limits.max_observation_age_ms

-- `validate_limits` accepts exactly the limits of `IsLimits`.
pub validate_limits_iff :
    (limits : SafetyLimits) → (validate_limits limits ≡ ok tt) ↔ IsLimits limits
unfolding validate_limits
validate_limits_iff limits = (λ h. ground arith, λ h. ground arith)

abbrev pub InRange : ℕ → SafetyLimits → Type 0
InRange hz limits = (limits.min_freq_hz ≤ hz) × (hz ≤ limits.max_freq_hz)

-- A sample rate and a bandwidth that the radio accepts under the limits.
pub record IsProfile (sample_rate_hz rf_bandwidth_hz : ℕ) (limits : SafetyLimits) : Type 0 where
  pub min_rate : 2_100_000 ≤ sample_rate_hz
  pub max_rate : sample_rate_hz ≤ 30_720_000
  pub min_bandwidth : 200_000 ≤ rf_bandwidth_hz
  pub max_bandwidth : rf_bandwidth_hz ≤ limits.max_bandwidth_hz
  pub below_rate : rf_bandwidth_hz ≤ sample_rate_hz

pub validate_frequency_iff :
    (hz : ℕ) (limits : SafetyLimits) → (validate_frequency hz limits ≡ ok tt) ↔ InRange hz limits
unfolding validate_frequency
validate_frequency_iff hz limits = ground arith

pub validate_dwell_iff :
    (ms : ℕ) (limits : SafetyLimits)
    → (validate_dwell ms limits ≡ ok tt) ↔ ((0 < ms) × (ms ≤ limits.max_dwell_ms))
unfolding validate_dwell
validate_dwell_iff ms limits = ground arith

pub validate_radio_profile_iff :
    (rate bandwidth : ℕ) (limits : SafetyLimits)
    → (validate_radio_profile rate bandwidth limits ≡ ok tt) ↔ IsProfile rate bandwidth limits
unfolding validate_radio_profile
validate_radio_profile_iff rate bandwidth limits = (λ h. ground arith, λ h. ground arith)

pub require_retune_iff :
    (request : PlanRequest)
    → (require_sdr_capability request true false ≡ ok tt) ↔ (
        (request.observation.health.sdr_online ≡ true)
        × (request.observation.health.can_retune ≡ true))
unfolding require_sdr_capability
require_retune_iff request = ground arith

pub require_capture_iff :
    (request : PlanRequest)
    → (require_sdr_capability request false true ≡ ok tt) ↔ (
        (request.observation.health.sdr_online ≡ true)
        × (request.observation.health.can_capture_iq ≡ true))
unfolding require_sdr_capability
require_capture_iff request = ground arith

-- What is found has the id and is in the list.
pub find_by_id-some :
    (id : String) (candidates : List CandidateSummary) {c : CandidateSummary}
    → find_by_id id candidates ≡ some c
    → Memᴰ c candidates × (c.id ≡ id)
unfolding find_by_id
find_by_id-some id [] h = cc
find_by_id-some id (x ∷ xs) {c} h = elim (Bool-cases (x.id =s id)) [
  | inl same ↦
      let e : x ≡ c = ground arith in
      (Memᴰ.head (sym e), sym (ap (λ (d : CandidateSummary). d.id) e) ∙ (eq_iff x.id id).0 same)
  | inr other ↦
      let (found, id_eq) = find_by_id-some id xs {c = c} (ground arith) in (Memᴰ.tail found, id_eq)
]
