-- ===== src/Runner/Surveys.antt =====
-- The sweep that the runner makes of an admitted survey (runner.rs), against the checks of the
-- sweep engine (sweep.rs).
use sdr_pi.Base.{
  ℕ, suc, ◌+◌, ◌*◌, ◌-◌, ◌≤◌, ◌<◌, ◌≡◌, refl, err, ◌∙◌, ℤ, pos, true, ok, arith, length, contains_ℤ,
  all_chars, byte_len, decimal, decimal_digits, ◌+++◌, all_chars-append, byte_len-append,
  AcceptsDigits, all_chars-decimal_digits, byte_len-decimal_digits, not, ◌&&◌, ◌==◌, ltb,
}
use sdr_pi.Protocol.{PlanRequest, ValidatedPlan}
use sdr_pi.Policy.Bounds.{IsLimits}
use sdr_pi.Policy.Survey.{IsSurvey, point_count}
use sdr_pi.Sweep.{
  SweepPlan, sweep_error, ValidatedSweepPlan, validate_plan, is_sweep_id, is_safe, valid_centers,
  covers, expand_centers, range, estimate_duration, valid_profile, valid_summary,
}
use sdr_pi.Sweep.Grid.{grid, step_count, step_count-Steps, expand_centers-range, length-grid}
use sdr_pi.Sweep.Complete.{
  grid-valid, grid-covered, finite_threshold, threshold_above, threshold_below, accepted_plan,
  validate_plan-accepted, validate_plan-summary,
}
use sdr_pi.Runner.Sweeps.{survey_plan}

safe_digits : AcceptsDigits is_safe
safe_digits c h k = ground arith

prefix_len : byte_len "request-" ≡ 8
unfolding byte_len
prefix_len = refl

prefix-safe : all_chars is_safe "request-" ≡ true
unfolding all_chars
prefix-safe = refl

short_enough : (m : ℕ) → m ≤ 20 → (not ((8 + m) == 0) && ltb (8 + m) 64) ≡ true
short_enough m h = ground arith

-- The name of a sweep of a request is a safe identifier.
request_id-safe : (n : ℕ) → is_sweep_id ("request-" +++ decimal n) ≡ true
unfolding is_sweep_id decimal
request_id-safe n =
    let bytes = byte_len-append "request-" (decimal_digits 20 n) in
    let few = byte_len-decimal_digits 20 n in
    let safe =
      all_chars-append is_safe "request-" (decimal_digits 20 n) prefix-safe
        (all_chars-decimal_digits is_safe 20 n safe_digits) in
    let e : byte_len ("request-" +++ decimal_digits 20 n) ≡ 8 + byte_len (decimal_digits 20 n) =
      rw prefix_len at bytes in
    rw (e, safe, short_enough (byte_len (decimal_digits 20 n)) few) refl

-- What the checks before the summary profile ask of a survey, at its grid of centers.
record Surveyed (V : Type 0) (p : SweepPlan) (stop step start n : ℕ) : Type 0 where
  id_safe : is_sweep_id p.sweep_id ≡ true
  expanded : expand_centers {V = V} p.frequencies ≡ ok (grid stop step start n)
  valid : valid_centers (grid stop step start n) ≡ true
  profile : valid_profile p ≡ true
  covered : covers p.rf_bandwidth_hz (grid stop step start n) ≡ true

survey_plan-Surveyed :
    {V : Type 0} (request : PlanRequest) (plan : ValidatedPlan)
    (start stop step rate bandwidth dwell timeout : ℕ) (gain : ℤ)
    → IsLimits request.limits
    → IsSurvey request start stop step rate bandwidth dwell
    → Surveyed V
        (survey_plan plan start stop step rate bandwidth dwell timeout gain)
        stop
        step
        start
        (step_count (stop - start) step)
unfolding survey_plan valid_profile
survey_plan-Surveyed {V} request plan start stop step rate bandwidth dwell timeout gain l s =
    let n = step_count (stop - start) step in
    let cs = grid stop step start n in
    let expanded =
      expand_centers-range {V = V} start stop step (ground arith) s.step_positive (ground arith) in
    let steps = step_count-Steps start stop step (ground arith) s.step_positive in
    let found : expand_centers {V = V} (range start stop step) ≡ ok cs = ground (arith, expanded) in
    let valid : valid_centers cs ≡ true =
      grid-valid stop step start n s.step_positive (ground arith) (ground arith) steps in
    let covered : covers bandwidth cs ≡ true =
      grid-covered bandwidth stop step start n (ground arith) s.coverage steps in
    record {
      id_safe = request_id-safe plan.request_id;
      expanded = found;
      valid = valid;
      profile = ground arith;
      covered = covered;
    }

-- Under valid limits, a survey that the policy admits with a dwell of at most a second becomes,
-- where the generation is not zero, the gain is 0 to 60 dB and the point timeout 1 to 250 ms, a
-- sweep plan that `validate_plan` accepts; its centers are the grid of the survey, as many as
-- the policy counted.
pub survey_plan-accepted :
    {V : Type 0} (request : PlanRequest) (plan : ValidatedPlan)
    (start stop step rate bandwidth dwell timeout : ℕ) (gain : ℤ)
    → IsLimits request.limits
    → IsSurvey request start stop step rate bandwidth dwell
    → 0 < plan.session_generation
    → dwell ≤ 1_000
    → 0 < timeout
    → timeout ≤ 250
    → contains_ℤ (pos 0) (pos 60) gain ≡ true
    → (v : ValidatedSweepPlan) × (validate_plan {V = V}
          (survey_plan plan start stop step rate bandwidth dwell timeout gain)
        ≡ ok v)
      × (v.centers_hz ≡ grid stop step start (step_count (stop - start) step))
      × (length v.centers_hz ≡ point_count (stop - start) step)
unfolding survey_plan estimate_duration valid_summary
survey_plan-accepted {V} request plan start stop step rate bandwidth dwell timeout gain l s g d t u
      k =
    let p = survey_plan plan start stop step rate bandwidth dwell timeout gain in
    let n = step_count (stop - start) step in
    let cs = grid stop step start n in
    let counted : length cs ≡ suc n = length-grid stop step start n in
    let checks =
      survey_plan-Surveyed {V = V} request plan start stop step rate bandwidth dwell timeout gain l
        s in
    let short : (dwell + timeout) * suc n ≤ 300_000 = grind (arith, s.duration) in
    let summary : valid_summary p ≡ true =
      ground (arith, finite_threshold, threshold_above, threshold_below) in
    let estimate : estimate_duration {V = V} p cs ≡ ok ((dwell + timeout) * length cs) =
      rw counted (ground (arith, short)) in
    (
      accepted_plan p cs ((dwell + timeout) * length cs),
      validate_plan-accepted p cs _ checks.id_safe g checks.expanded (rw counted (omega arith))
          (rw counted (omega arith)) checks.valid checks.profile k checks.covered summary estimate
          (rw counted short),
      refl,
      counted ∙ omega arith,
    )

-- Under valid limits, where the generation is not zero and the gain is 0 to 60 dB, the sweep plan
-- of a survey that the policy admits with a dwell above a second is refused by `validate_plan` for
-- its summary profile.
pub slow_survey-refused :
    {V : Type 0} (request : PlanRequest) (plan : ValidatedPlan)
    (start stop step rate bandwidth dwell timeout : ℕ) (gain : ℤ)
    → IsLimits request.limits
    → IsSurvey request start stop step rate bandwidth dwell
    → 0 < plan.session_generation
    → 1_000 < dwell
    → contains_ℤ (pos 0) (pos 60) gain ≡ true
    → validate_plan {V = V} (survey_plan plan start stop step rate bandwidth dwell timeout gain)
      ≡ err (
          sweep_error "summary_profile"
            "settle, frame, aggregate, timeout, or threshold is outside limits")
unfolding survey_plan valid_summary
slow_survey-refused {V} request plan start stop step rate bandwidth dwell timeout gain l s g d k =
    let p = survey_plan plan start stop step rate bandwidth dwell timeout gain in
    let cs = grid stop step start (step_count (stop - start) step) in
    let counted = length-grid stop step start (step_count (stop - start) step) in
    let checks =
      survey_plan-Surveyed {V = V} request plan start stop step rate bandwidth dwell timeout gain l
        s in
    validate_plan-summary p cs checks.id_safe g checks.expanded (rw counted (omega arith))
      (rw counted (omega arith)) checks.valid checks.profile k checks.covered (ground arith)
