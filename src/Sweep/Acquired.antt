-- ===== src/Sweep/Acquired.antt =====
-- What a point keeps to that is made of a capture which the checks accept.
use sdr_pi.Base.{
  ℕ, ◌+◌, ◌*◌, ◌≤◌, ◌<◌, ◌≡◌, sym, inl, inr, true, false, List, ok, arith, Result-cases, Bool-cases,
  eq_iff,
}
use mathlib.Core.Path.{subst}
use sdr_pi.Sweep.Words.{power-words}
use sdr_pi.Sdr.Wire.{Wire}
use sdr_pi.Sweep.Plan.{ValidatedSweepPlan, SweepPoint}
use sdr_pi.Sweep.Power.{aggregate_ci16_power}
use sdr_pi.Sweep.Responses.{
  SweepShapes, ProfileResponse, InlineCaptureResponse, is_other_profile, is_other_capture,
  profile_args, capture_args, capture_size, max_inline_bytes,
}
use sdr_pi.Sweep.Adapter.{
  PowerDbfs, ask, point_of, u96_power_dbfs, low_word, middle_word, apply_profile, capture_inline,
}

-- A point that was measured for the center with its index, as the plan asks: within 2 Hz, in the
-- plan's session, with its profile, from all of its samples, without loss, overflow, clipping or a
-- flag, in time, by the healthy adapter of the radio; its power is that of the sum of the squares of
-- the samples, none of them clipped, as two words.
pub record IsAcquired (V : Type 0) (dbfs : PowerDbfs) (plan : ValidatedSweepPlan)
    (index center_hz : ℕ) (iq : List ℕ) (p : SweepPoint) : Type 0 where
  pub power : ℕ
  pub summed : aggregate_ci16_power {V = V} iq p.captured_samples ≡ ok (power, 0)
  pub low : ℕ
  pub middle : ℕ
  pub low_bounded : low < 4294967296
  pub middle_bounded : middle < 4294967296
  pub split : power ≡ middle * 4294967296 + low
  pub shown : p.band_power_dbfs ≡ dbfs low middle 0 p.captured_samples
  pub index_kept : p.point_index ≡ index
  pub same_session : p.session_generation ≡ plan.session_generation
  pub requested : p.requested_center_hz ≡ center_hz
  pub tuned_low : center_hz ≤ p.actual_center_hz + 2
  pub tuned_high : p.actual_center_hz ≤ center_hz + 2
  pub same_rate : p.sample_rate_hz ≡ plan.sample_rate_hz
  pub same_bandwidth : p.rf_bandwidth_hz ≡ plan.rf_bandwidth_hz
  pub no_drop : p.dropped_samples ≡ 0
  pub no_overflow : p.overflow ≡ false
  pub no_flags : p.status_flags ≡ 0
  pub all_samples : p.captured_samples ≡ plan.frame_samples * plan.aggregate_frames
  pub some_samples : 0 < p.captured_samples
  pub in_frame : p.captured_samples * 4 ≤ max_inline_bytes
  pub unclipped : p.clipped_samples ≡ 0
  pub same_limit : p.timeout.limit_ms ≡ plan.point_timeout_ms
  pub in_time : p.timeout.timed_out ≡ false
  pub same_elapsed : p.timeout.elapsed_us ≡ p.elapsed_us
  pub healthy : p.health.healthy ≡ true
  pub same_flags : p.health.flags ≡ p.status_flags
  pub from_adapter : p.health.source ≡ "iio_adapter"

pub capture_size_bounded :
    {V : Type 0} (plan : ValidatedSweepPlan) (samples bytes : ℕ)
    → capture_size {V = V} plan ≡ ok (samples, bytes)
    → (samples ≡ plan.frame_samples * plan.aggregate_frames)
      × (bytes ≡ samples * 4)
      × (bytes ≤ max_inline_bytes)
unfolding capture_size
capture_size_bounded plan samples bytes h = (ground arith, ground arith, ground arith)

pub point_of-IsAcquired :
    {V : Type 0} (dbfs : PowerDbfs) (plan : ValidatedSweepPlan) (index center samples bytes : ℕ)
    (profile : ProfileResponse) (capture : InlineCaptureResponse) (power clipped : ℕ)
    (p : SweepPoint)
    → is_other_profile profile plan center ≡ false
    → is_other_capture capture plan samples bytes ≡ false
    → capture_size {V = V} plan ≡ ok (samples, bytes)
    → (iq : List ℕ) → aggregate_ci16_power {V = V} iq samples ≡ ok (power, clipped)
    → point_of {V = V} dbfs plan index center samples profile capture (power, clipped) ≡ ok p
    → IsAcquired V dbfs plan index center iq p
unfolding point_of u96_power_dbfs
point_of-IsAcquired {V} dbfs plan index center samples bytes profile capture power clipped p a b c
      iq sum h =
    let size = capture_size_bounded {V = V} plan samples bytes c in
    let taken : p.captured_samples ≡ samples = ground arith in
    let words = power-words {V = V} iq samples power clipped sum in
    let unclipped : clipped ≡ 0 = ground arith in
    record {
      power = power;
      summed =
          subst (λ k. aggregate_ci16_power {V = V} iq p.captured_samples ≡ ok (power, k)) unclipped
            (subst (λ k. aggregate_ci16_power {V = V} iq k ≡ ok (power, clipped)) (sym taken) sum);
      low = low_word power;
      middle = middle_word power;
      low_bounded = words.0;
      middle_bounded = words.1;
      split = words.2;
      shown = ground arith;
      index_kept = ground arith;
      same_session = ground arith;
      requested = ground arith;
      tuned_low = ground arith;
      tuned_high = ground arith;
      same_rate = ground arith;
      same_bandwidth = ground arith;
      no_drop = ground arith;
      no_overflow = ground arith;
      no_flags = ground arith;
      all_samples = ground (arith, size.0);
      some_samples = ground arith;
      in_frame = ground (arith, size);
      unclipped = ground arith;
      same_limit = ground arith;
      in_time = ground arith;
      same_elapsed = ground arith;
      healthy = ground arith;
      same_flags = ground arith;
      from_adapter = (eq_iff p.health.source "iio_adapter").0 (ground arith);
    }

module _ {V N : Type 0} (wire : Wire V N) (shapes : SweepShapes V) where
  pub apply_profile-accepted :
      (plan : ValidatedSweepPlan) (center : ℕ) (n : N) (profile : ProfileResponse)
      → (apply_profile wire shapes plan center n).0 ≡ ok profile
      → (is_other_profile profile plan center ≡ false)
        × ((ask wire shapes shapes.profile "APPLY_PROFILE" (profile_args plan center) n).0
            ≡ ok profile)
  unfolding apply_profile
  apply_profile-accepted plan center n profile h =
      let told = ask wire shapes shapes.profile "APPLY_PROFILE" (profile_args plan center) n in
      elim (Result-cases told.0) [
        | inr (e, p) ↦ absurd (ground (arith, p))
        | inl (x, p) ↦ elim (Bool-cases (is_other_profile x plan center)) [
          | inl other ↦ absurd (ground (arith, p, other))
          | inr same ↦
              let e : x ≡ profile = ground (arith, p, same) in
              (
                subst (λ x. is_other_profile x plan center ≡ false) e same,
                subst (λ x. told.0 ≡ ok x) e p,
              )
        ]
      ]

  pub capture_inline-accepted :
      (plan : ValidatedSweepPlan) (index samples bytes : ℕ) (n : N)
      (capture : InlineCaptureResponse)
      → (capture_inline wire shapes plan index (samples, bytes) n).0 ≡ ok capture
      → (is_other_capture capture plan samples bytes ≡ false)
        × ((ask wire shapes shapes.capture "CAPTURE_IQ_INLINE"
              (capture_args plan index samples bytes)
              n).0
            ≡ ok capture)
  unfolding capture_inline
  capture_inline-accepted plan index samples bytes n capture h =
      let told =
        ask wire shapes shapes.capture "CAPTURE_IQ_INLINE" (capture_args plan index samples bytes)
          n in
      elim (Result-cases told.0) [
        | inr (e, p) ↦ absurd (ground (arith, p))
        | inl (x, p) ↦ elim (Bool-cases (is_other_capture x plan samples bytes)) [
          | inl other ↦ absurd (ground (arith, p, other))
          | inr same ↦
              let e : x ≡ capture = ground (arith, p, same) in
              (
                subst (λ x. is_other_capture x plan samples bytes ≡ false) e same,
                subst (λ x. told.0 ≡ ok x) e p,
              )
        ]
      ]
