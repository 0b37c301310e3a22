-- ===== src/Sweep/Complete.antt =====
-- The converse of Accepted: `validate_plan` accepts a plan that passes each of its checks, and the
-- grid of a survey passes those on its centers.
use sdr_pi.Base.{
  ℕ, min, ◌*◌, ◌/◌, ◌≤◌, ◌<◌, ◌≡◌, refl, err, true, false, ok, arith, length, List, saturating_mul,
  twelve_f32, is_finite, le_f32, one_f32, sixty_f32,
}
use sdr_pi.Sweep.Plan.{SweepPlan, ValidatedSweepPlan, sweep_error}
use sdr_pi.Sweep.Centers.{expand_centers}
use sdr_pi.Sweep.Validate.{
  is_sweep_id, valid_gain, valid_centers, covers, valid_profile, valid_summary, estimate_duration,
  validate_plan,
}
use sdr_pi.Sweep.Grid.{grid, Steps, any_pair-grid, any_pair_gap-grid, any_outside-grid}

pub grid-valid :
    (stop step c k : ℕ)
    → 0 < step
    → 70_000_000 ≤ min c stop
    → stop ≤ 6_000_000_000
    → Steps stop step c k
    → valid_centers (grid stop step c k) ≡ true
unfolding valid_centers
grid-valid stop step c k p lo hi s =
    rw
      (
        any_pair-grid stop step c k p s,
        any_outside-grid 70_000_000 6_000_000_000 stop step c k lo hi,
      )
      refl

pub grid-covered :
    (bandwidth stop step c k : ℕ)
    → bandwidth ≤ 56_000_000
    → 5 * step ≤ 4 * bandwidth
    → Steps stop step c k
    → covers bandwidth (grid stop step c k) ≡ true
unfolding covers
grid-covered bandwidth stop step c k w h s =
    let limit = saturating_mul bandwidth 4 / 5 in
    let below : step ≤ limit = ground arith in
    ground (arith, any_pair_gap-grid limit stop step c k below s)

pub finite_threshold : is_finite twelve_f32 ≡ true
unfolding is_finite
finite_threshold = refl

pub threshold_above : le_f32 one_f32 twelve_f32 ≡ true
unfolding le_f32
threshold_above = refl

pub threshold_below : le_f32 twelve_f32 sixty_f32 ≡ true
unfolding le_f32
threshold_below = refl

-- the plan that is accepted with its centers and duration
abbrev pub accepted_plan : SweepPlan → List ℕ → ℕ → ValidatedSweepPlan
accepted_plan plan cs duration = record {
  sweep_id = plan.sweep_id;
  session_generation = plan.session_generation;
  centers_hz = cs;
  sample_rate_hz = plan.sample_rate_hz;
  rf_bandwidth_hz = plan.rf_bandwidth_hz;
  settle_ms = plan.settle_ms;
  frame_samples = plan.frame_samples;
  aggregate_frames = plan.aggregate_frames;
  point_timeout_ms = plan.point_timeout_ms;
  detection_threshold_db = plan.detection_threshold_db;
  gain_db = plan.gain_db;
  estimated_duration_ms = duration;
  maximum_summary_bytes = 768 * 256;
}

pub validate_plan-accepted :
    {V : Type 0} (plan : SweepPlan) (cs : List ℕ) (duration : ℕ)
    → is_sweep_id plan.sweep_id ≡ true
    → 0 < plan.session_generation
    → expand_centers {V = V} plan.frequencies ≡ ok cs
    → 1 ≤ length cs
    → length cs ≤ 768
    → valid_centers cs ≡ true
    → valid_profile plan ≡ true
    → valid_gain plan.gain_db ≡ true
    → covers plan.rf_bandwidth_hz cs ≡ true
    → valid_summary plan ≡ true
    → estimate_duration {V = V} plan cs ≡ ok duration
    → duration ≤ 300_000
    → validate_plan {V = V} plan ≡ ok (accepted_plan plan cs duration)
unfolding validate_plan
validate_plan-accepted plan cs duration a b c d e f g h i j k l = ground arith

pub validate_plan-summary :
    {V : Type 0} (plan : SweepPlan) (cs : List ℕ)
    → is_sweep_id plan.sweep_id ≡ true
    → 0 < plan.session_generation
    → expand_centers {V = V} plan.frequencies ≡ ok cs
    → 1 ≤ length cs
    → length cs ≤ 768
    → valid_centers cs ≡ true
    → valid_profile plan ≡ true
    → valid_gain plan.gain_db ≡ true
    → covers plan.rf_bandwidth_hz cs ≡ true
    → valid_summary plan ≡ false
    → validate_plan {V = V} plan
      ≡ err (
          sweep_error "summary_profile"
            "settle, frame, aggregate, timeout, or threshold is outside limits")
unfolding validate_plan
validate_plan-summary plan cs a b c d e f g h i j = ground arith
