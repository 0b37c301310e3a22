-- ===== src/Sweep/Points.antt =====
-- sweep.rs: `validate_points`, the contract of what a backend measured.
use sdr_pi.Base.{
  ℕ, suc, Bool, false, not, ◌&&◌, Option, none, some, List, [], ◌∷◌, Result, ok, err, leb, ◌==◌,
  if◌then◌else◌, abs_diff, length, is_finite, byte_len,
}
use sdr_pi.Sweep.Plan.{SweepPoint, ValidatedSweepPlan, SweepError, sweep_error}

-- `previous_sequence.is_some_and(|previous| point.sequence <= previous)`
abbrev pub not_after : Option ℕ → ℕ → Bool
not_after none sequence = false
not_after (some previous) sequence = leb sequence previous

-- The negation of the long test in the loop, in three parts: what identifies the point at the
-- center with its index, the radio profile and the signal, and the timing and the health.
unfoldable pub is_identified : ValidatedSweepPlan → ℕ → ℕ → SweepPoint → Bool
is_identified plan index center_hz point =
    (point.point_index == index)
    && not (point.request_id == 0)
    && (point.session_generation == plan.session_generation)
    && (point.requested_center_hz == center_hz)
    && leb (abs_diff point.actual_center_hz center_hz) 2

unfoldable pub has_profile : ValidatedSweepPlan → SweepPoint → Bool
has_profile plan point =
    (point.sample_rate_hz == plan.sample_rate_hz)
    && (point.rf_bandwidth_hz == plan.rf_bandwidth_hz)
    && is_finite point.band_power_dbfs
    && (point.dropped_samples == 0)
    && not point.overflow
    && (point.status_flags == 0)

unfoldable pub is_sound : Option ℕ → SweepPoint → Bool
is_sound previous_sequence point =
    not (point.timeout.limit_ms == 0)
    && not point.timeout.timed_out
    && (point.timeout.elapsed_us == point.elapsed_us)
    && point.health.healthy
    && (point.health.flags == point.status_flags)
    && not (byte_len point.health.source == 0)
    && not (not_after previous_sequence point.sequence)

unfoldable pub keeps_contract : ValidatedSweepPlan → ℕ → ℕ → Option ℕ → SweepPoint → Bool
unfolding is_identified has_profile is_sound
keeps_contract plan index center_hz previous_sequence point =
    is_identified plan index center_hz point
    && has_profile plan point
    && is_sound previous_sequence point

module _ {V : Type 0} where
  -- The loop over the points. The lengths are equal before it starts, so the second clause, where
  -- an index would be out of bounds, is not reached.
  unfoldable pub check_points :
      ValidatedSweepPlan
      → ℕ
      → List ℕ
      → Option ℕ
      → List SweepPoint
      → Result (SweepError V) (Unit {0})
  check_points plan index centers previous_sequence [] = ok tt
  check_points plan index [] previous_sequence (point ∷ rest) =
      err (sweep_error "point_contract" "backend point violates the sweep result contract")
  check_points plan index (center_hz ∷ centers) previous_sequence (point ∷ rest) =
      let following = check_points plan (suc index) centers (some point.sequence) rest in
      if keeps_contract plan index center_hz previous_sequence point
      then following
      else err (sweep_error "point_contract" "backend point violates the sweep result contract")

  unfoldable pub validate_points :
      ValidatedSweepPlan → List SweepPoint → Result (SweepError V) (Unit {0})
  unfolding check_points
  validate_points plan points =
      if not (length points == length plan.centers_hz)
      then err (sweep_error "point_count" "backend point count does not match the validated plan")
      else check_points plan 0 plan.centers_hz none points
