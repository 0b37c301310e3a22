-- ===== src/Policy/Survey.antt =====
-- What the policy admits as a survey, and the proof that `validate_survey` decides it.
use sdr_pi.Base.{ℕ, ◌-◌, ◌+◌, ◌*◌, ◌/◌, ◌≤◌, ◌<◌, ◌≡◌, ◌↔◌, Bool, true, false, ok, arith, some}
use sdr_pi.Protocol.{PlanRequest}
use sdr_pi.Policy.Action.{survey_point_count, validate_survey_budget, validate_survey}
use sdr_pi.Policy.Bounds.{
  IsLimits, InRange, IsProfile, validate_frequency_iff, validate_dwell_iff,
  validate_radio_profile_iff, require_retune_iff,
}

abbrev pub point_count : ℕ → ℕ → ℕ
point_count span_hz step_hz = (span_hz + (step_hz - 1)) / step_hz + 1

-- Within the frequency range no operation of the point count overflows.
pub survey_point_count_lem :
    (span step : ℕ)
    → 0 < step
    → step ≤ span
    → span ≤ 6_000_000_000
    → survey_point_count span step ≡ some (point_count span step)
unfolding survey_point_count
survey_point_count_lem span step p s h = ground arith

-- A survey that the policy lets through.
pub record IsSurvey (request : PlanRequest)
    (start_hz stop_hz step_hz sample_rate_hz rf_bandwidth_hz dwell_ms : ℕ) : Type 0 where
  pub online : request.observation.health.sdr_online ≡ true
  pub retunable : request.observation.health.can_retune ≡ true
  pub start_range : InRange start_hz request.limits
  pub stop_range : InRange stop_hz request.limits
  pub ordered : start_hz < stop_hz
  pub span_fits : stop_hz ≤ start_hz + request.limits.max_span_hz
  pub step_positive : 0 < step_hz
  pub step_fits : start_hz + step_hz ≤ stop_hz
  pub profile : IsProfile sample_rate_hz rf_bandwidth_hz request.limits
  -- a step is at most 80 percent of the bandwidth
  pub coverage : 5 * step_hz ≤ 4 * rf_bandwidth_hz
  pub dwell_positive : 0 < dwell_ms
  pub dwell_fits : dwell_ms ≤ request.limits.max_dwell_ms
  pub points : point_count (stop_hz - start_hz) step_hz ≤ 768
  pub duration : point_count (stop_hz - start_hz) step_hz * (dwell_ms + 250) ≤ 300_000
  pub bytes : point_count (stop_hz - start_hz) step_hz * 16_384 ≤ request.limits.max_iq_bytes

duration_bound : (n dwell : ℕ) → n ≤ 768 → dwell ≤ 60_000 → n * (dwell + 250) ≤ 46_272_000
duration_bound n dwell h k = grind arith

pub validate_survey_budget_iff :
    (request : PlanRequest) (span step dwell n : ℕ) (b : Bool)
    → survey_point_count span step ≡ some n
    → dwell ≤ 60_000
    → (validate_survey_budget request span step dwell ≡ ok b) ↔ (
        (b ≡ false)
        × (n ≤ 768)
        × (n * (dwell + 250) ≤ 300_000)
        × (n * 16_384 ≤ request.limits.max_iq_bytes))
unfolding validate_survey_budget
validate_survey_budget_iff request span step dwell n b e d =
    rw e (λ h. ground (arith, duration_bound n dwell), λ h. ground (arith, duration_bound n dwell))

pub validate_survey_iff :
    (request : PlanRequest) (start stop step rate bandwidth dwell : ℕ) (b : Bool)
    → IsLimits request.limits
    → (validate_survey request start stop step rate bandwidth dwell ≡ ok b)
      ↔ ((b ≡ false) × IsSurvey request start stop step rate bandwidth dwell)
unfolding validate_survey
validate_survey_iff request start stop step rate bandwidth dwell b l = (
  λ h. ground (
    arith,
    require_retune_iff request,
    validate_frequency_iff start request.limits,
    validate_frequency_iff stop request.limits,
    validate_radio_profile_iff rate bandwidth request.limits,
    validate_dwell_iff dwell request.limits,
    survey_point_count_lem (stop - start) step,
    validate_survey_budget_iff request (stop - start) step dwell (point_count (stop - start) step)
        b,
  ),
  λ h. ground (
    arith,
    require_retune_iff request,
    validate_frequency_iff start request.limits,
    validate_frequency_iff stop request.limits,
    validate_radio_profile_iff rate bandwidth request.limits,
    validate_dwell_iff dwell request.limits,
    survey_point_count_lem (stop - start) step,
    validate_survey_budget_iff request (stop - start) step dwell (point_count (stop - start) step)
        b,
  ),
)
