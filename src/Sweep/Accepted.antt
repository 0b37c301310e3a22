-- ===== src/Sweep/Accepted.antt =====
-- What holds of a plan that `validate_plan` accepts.
use sdr_pi.Base.{
  ℕ, ◌+◌, ◌*◌, ◌-◌, ◌/◌, ◌≤◌, ◌<◌, ◌≡◌, sym, inl, inr, true, false, List, [], ◌∷◌, ok, arith,
  length, All, any, not, contains, ltb, leb, Result-cases, le_f32, one_f32, sixty_f32,
  saturating_mul,
}
use mathlib.Core.Path.{subst, subst₂}
use sdr_pi.Sweep.Plan.{SweepPlan, ValidatedSweepPlan}
use sdr_pi.Sweep.Centers.{expand_centers}
use sdr_pi.Sweep.Validate.{
  any_pair, is_sweep_id, valid_gain, valid_centers, covers, valid_profile, valid_summary,
  estimate_duration, validate_plan,
}

-- Neighbouring centers rise, by at most 80 percent of the bandwidth.
abbrev pub Covering : ℕ → List ℕ → Type 0
Covering bandwidth [] = Unit
Covering bandwidth (x ∷ []) = Unit
Covering bandwidth (x ∷ y ∷ rest) =
    (x < y) × (5 * y ≤ 5 * x + 4 * bandwidth) × Covering bandwidth (y ∷ rest)

abbrev pub InBand : ℕ → Type 0
InBand hz = (70_000_000 ≤ hz) × (hz ≤ 6_000_000_000)

-- What a validated plan satisfies.
pub record IsValidated (v : ValidatedSweepPlan) : Type 0 where
  pub id_safe : is_sweep_id v.sweep_id ≡ true
  pub generation : 0 < v.session_generation
  pub nonempty : 1 ≤ length v.centers_hz
  pub bounded : length v.centers_hz ≤ 768
  pub in_band : All InBand v.centers_hz
  pub covering : Covering v.rf_bandwidth_hz v.centers_hz
  pub min_rate : 2_100_000 ≤ v.sample_rate_hz
  pub max_rate : v.sample_rate_hz ≤ 30_720_000
  pub min_bandwidth : 200_000 ≤ v.rf_bandwidth_hz
  pub max_bandwidth : v.rf_bandwidth_hz ≤ v.sample_rate_hz
  pub gain : valid_gain v.gain_db ≡ true
  pub settle : v.settle_ms ≤ 1_000
  pub min_samples : 64 ≤ v.frame_samples
  pub max_samples : v.frame_samples ≤ 65_535
  pub min_frames : 1 ≤ v.aggregate_frames
  pub max_frames : v.aggregate_frames ≤ 65_535
  pub min_timeout : 1 ≤ v.point_timeout_ms
  pub max_timeout : v.point_timeout_ms ≤ 5_000
  pub min_threshold : le_f32 one_f32 v.detection_threshold_db ≡ true
  pub max_threshold : le_f32 v.detection_threshold_db sixty_f32 ≡ true
  pub duration : v.estimated_duration_ms ≡ (v.settle_ms + v.point_timeout_ms) * length v.centers_hz
  pub max_duration : v.estimated_duration_ms ≤ 300_000

-- The validated plan is the plan with its centers expanded.
pub record IsPlanOf (V : Type 0) (plan : SweepPlan) (v : ValidatedSweepPlan) : Type 0 where
  pub centers : expand_centers {V = V} plan.frequencies ≡ ok v.centers_hz
  pub same_id : v.sweep_id ≡ plan.sweep_id
  pub same_generation : v.session_generation ≡ plan.session_generation
  pub same_rate : v.sample_rate_hz ≡ plan.sample_rate_hz
  pub same_bandwidth : v.rf_bandwidth_hz ≡ plan.rf_bandwidth_hz
  pub same_settle : v.settle_ms ≡ plan.settle_ms
  pub same_samples : v.frame_samples ≡ plan.frame_samples
  pub same_frames : v.aggregate_frames ≡ plan.aggregate_frames
  pub same_timeout : v.point_timeout_ms ≡ plan.point_timeout_ms
  pub same_threshold : v.detection_threshold_db ≡ plan.detection_threshold_db
  pub same_gain : v.gain_db ≡ plan.gain_db

any_outside-All :
    (cs : List ℕ)
    → any (λ center. not (contains 70_000_000 6_000_000_000 center)) cs ≡ false
    → All InBand cs
any_outside-All [] h = tt
any_outside-All (x ∷ cs) h = (ground arith, any_outside-All cs (ground arith))

any_pair-Covering :
    (bandwidth : ℕ) (cs : List ℕ)
    → bandwidth ≤ 56_000_000
    → any_pair (λ a b. leb b a) cs ≡ false
    → any_pair (λ a b. ltb (saturating_mul bandwidth 4 / 5) (b - a)) cs ≡ false
    → Covering bandwidth cs
any_pair-Covering bandwidth [] w r g = tt
any_pair-Covering bandwidth (x ∷ []) w r g = tt
any_pair-Covering bandwidth (x ∷ y ∷ cs) w r g = (
  ground arith,
  ground arith,
  any_pair-Covering bandwidth (y ∷ cs) w (ground arith) (ground arith),
)

centers_accepted :
    (bandwidth : ℕ) (cs : List ℕ)
    → bandwidth ≤ 56_000_000
    → valid_centers cs ≡ true
    → covers bandwidth cs ≡ true
    → All InBand cs × Covering bandwidth cs
unfolding valid_centers covers
centers_accepted bandwidth [] w v c = (tt, tt)
centers_accepted bandwidth (x ∷ []) w v c = (any_outside-All (x ∷ []) (ground arith), tt)
centers_accepted bandwidth (x ∷ y ∷ cs) w v c = (
  any_outside-All (x ∷ y ∷ cs) (ground arith),
  any_pair-Covering bandwidth (x ∷ y ∷ cs) w (ground arith) (ground arith),
)

-- A plan that is accepted becomes a validated plan with the same settings and its expanded centers,
-- which are 1 to 768 strictly rising centers in the band of the radio with no gap above 80 percent
-- of the bandwidth; every setting is within its limits and the estimated duration, which is the
-- time per point times the number of points, is at most 300 seconds.
pub validate_plan-IsValidated :
    {V : Type 0} (plan : SweepPlan) (v : ValidatedSweepPlan)
    → validate_plan {V = V} plan ≡ ok v
    → IsPlanOf V plan v × IsValidated v
unfolding validate_plan valid_profile valid_summary estimate_duration
validate_plan-IsValidated {V} plan v h =
    elim (Result-cases (expand_centers {V = V} plan.frequencies)) [
      | inr (e, failed) ↦ absurd (ground arith)
      | inl (cs, found) ↦
          let same : IsPlanOf V plan v = ground (arith, found) in
          let e : cs ≡ v.centers_hz = ground (arith, found) in
          let bounds =
            centers_accepted plan.rf_bandwidth_hz cs (ground (arith, found)) (ground (arith, found))
              (ground (arith, found)) in
          let in_band = subst (All InBand) e bounds.0 in
          let covering = subst₂ Covering (sym same.same_bandwidth) e bounds.1 in
          (same, ground (arith, found, in_band, covering))
    ]
