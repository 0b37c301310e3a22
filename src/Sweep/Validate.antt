-- ===== src/Sweep/Validate.antt =====
-- sweep.rs: `validate_plan`.
use sdr_pi.Base.{
  ℕ, ◌*◌, ◌/◌, ◌-◌, ℤ, pos, String, Bool, true, false, not, ◌&&◌, ◌||◌, Option, none, some, List,
  [], ◌∷◌, Result, ok, err, ok_or, ◌>>=◌, ◌>>◌, ltb, leb, ◌==◌, contains, contains_ℤ, if◌then◌else◌,
  checked_add, checked_mul, saturating_mul, length, any, all_chars, byte_len, is_finite, le_f32,
  one_f32, sixty_f32,
}
use sdr_pi.Sweep.Plan.{
  SweepPlan, ValidatedSweepPlan, SweepError, sweep_error, max_points, max_duration_ms,
}
use sdr_pi.Sweep.Centers.{expand_centers}

-- `centers.windows(2).any(|pair| p(pair[0], pair[1]))`
abbrev pub any_pair : (ℕ → ℕ → Bool) → List ℕ → Bool
any_pair p [] = false
any_pair p (x ∷ []) = false
any_pair p (x ∷ y ∷ rest) = p x y || any_pair p (y ∷ rest)

-- `value.is_ascii_alphanumeric() || matches!(value, b'-' | b'_')`
abbrev pub is_safe : ℕ → Bool
is_safe c =
    contains b'0' b'9' c
    || contains b'A' b'Z' c
    || contains b'a' b'z' c
    || (c == b'-')
    || (c == b'_')

-- A byte of a character that is not ASCII is no ASCII byte, so all bytes are safe exactly when all
-- characters are.
unfoldable pub is_sweep_id : String → Bool
is_sweep_id id = not (byte_len id == 0) && ltb (byte_len id) 64 && all_chars is_safe id

abbrev pub valid_gain : Option ℤ → Bool
valid_gain none = true
valid_gain (some gain_db) = contains_ℤ (pos 0) (pos 60) gain_db

unfoldable pub valid_centers : List ℕ → Bool
valid_centers centers = not (
    any_pair (λ a b. leb b a) centers
    || any (λ center. not (contains 70_000_000 6_000_000_000 center)) centers)

unfoldable pub covers : ℕ → List ℕ → Bool
covers rf_bandwidth_hz centers = not (
    ltb 1 (length centers)
    && any_pair (λ a b. ltb (saturating_mul rf_bandwidth_hz 4 / 5) (b - a)) centers)

unfoldable pub valid_profile : SweepPlan → Bool
valid_profile plan =
    contains 2_100_000 30_720_000 plan.sample_rate_hz
    && contains 200_000 56_000_000 plan.rf_bandwidth_hz
    && leb plan.rf_bandwidth_hz plan.sample_rate_hz

unfoldable pub valid_summary : SweepPlan → Bool
valid_summary plan =
    leb plan.settle_ms 1_000
    && contains 64 65_535 plan.frame_samples
    && not (plan.aggregate_frames == 0)
    && leb plan.aggregate_frames 65_535
    && contains 1 5_000 plan.point_timeout_ms
    && is_finite plan.detection_threshold_db
    && (le_f32 one_f32 plan.detection_threshold_db && le_f32 plan.detection_threshold_db sixty_f32)

module _ {V : Type 0} where
  -- `if !condition { return Err(..) }`
  abbrev pub ensure : Bool → String → String → Result (SweepError V) (Unit {0})
  ensure condition code message = if condition then ok tt else err (sweep_error code message)

  unfoldable pub estimate_duration : SweepPlan → List ℕ → Result (SweepError V) ℕ
  estimate_duration plan centers = do
    point_ms ←
        ok_or (checked_add plan.settle_ms plan.point_timeout_ms)
          (sweep_error "duration" "sweep duration overflow")
    ok_or (checked_mul point_ms (length centers)) (sweep_error "duration" "sweep duration overflow")

  unfoldable pub validate_plan : SweepPlan → Result (SweepError V) ValidatedSweepPlan
  validate_plan plan = do
    ensure (is_sweep_id plan.sweep_id) "sweep_id"
        "sweep id must be a safe non-empty identifier shorter than 64 bytes"
    ensure (not (plan.session_generation == 0)) "session_generation"
        "session generation must be non-zero"
    centers_hz ← expand_centers plan.frequencies
    ensure (not (length centers_hz == 0) && leb (length centers_hz) max_points) "point_count"
        "sweep must contain between one and 768 points"
    ensure (valid_centers centers_hz) "frequencies"
        "sweep centers must be unique, ascending, and between 70 MHz and 6 GHz"
    ensure (valid_profile plan) "radio_profile"
        "sample rate or RF bandwidth is outside the controlled profile"
    ensure (valid_gain plan.gain_db) "gain" "manual sweep gain must be between 0 and 60 dB"
    ensure (covers plan.rf_bandwidth_hz centers_hz) "coverage_gap"
        "sweep step exceeds 80 percent of RF bandwidth"
    ensure (valid_summary plan) "summary_profile"
        "settle, frame, aggregate, timeout, or threshold is outside limits"
    estimated_duration_ms ← estimate_duration plan centers_hz
    ensure (leb estimated_duration_ms max_duration_ms) "duration"
        "estimated sweep duration exceeds 300 seconds"
    ok (record {
      sweep_id = plan.sweep_id;
      session_generation = plan.session_generation;
      centers_hz = centers_hz;
      sample_rate_hz = plan.sample_rate_hz;
      rf_bandwidth_hz = plan.rf_bandwidth_hz;
      settle_ms = plan.settle_ms;
      frame_samples = plan.frame_samples;
      aggregate_frames = plan.aggregate_frames;
      point_timeout_ms = plan.point_timeout_ms;
      detection_threshold_db = plan.detection_threshold_db;
      gain_db = plan.gain_db;
      estimated_duration_ms = estimated_duration_ms;
      maximum_summary_bytes = max_points * 256;
    })
