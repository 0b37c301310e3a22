-- ===== src/Sweep/Contract.antt =====
-- What holds of points that `validate_points` accepts.
use sdr_pi.Base.{
  ℕ, suc, ◌+◌, ◌≤◌, ◌<◌, ◌≡◌, ◌↔◌, inl, inr, refl, ap, true, false, Option, some, none, List, [],
  ◌∷◌, ok, arith, length, Bool-cases, is_finite, byte_len,
}
use sdr_pi.Sweep.Plan.{SweepPoint, ValidatedSweepPlan}
use sdr_pi.Sweep.Points.{
  is_identified, has_profile, is_sound, keeps_contract, check_points, validate_points,
}

-- A point that is measured at the center with its index, within 2 Hz, in the plan's session.
pub record IsIdentified (plan : ValidatedSweepPlan) (index center_hz : ℕ) (p : SweepPoint)
    : Type 0 where
  pub index_kept : p.point_index ≡ index
  pub identified : 0 < p.request_id
  pub same_session : p.session_generation ≡ plan.session_generation
  pub requested : p.requested_center_hz ≡ center_hz
  pub tuned_low : center_hz ≤ p.actual_center_hz + 2
  pub tuned_high : p.actual_center_hz ≤ center_hz + 2

-- A point with the plan's radio profile and a power that is finite, with no loss, overflow or flag.
pub record HasProfile (plan : ValidatedSweepPlan) (p : SweepPoint) : Type 0 where
  pub same_rate : p.sample_rate_hz ≡ plan.sample_rate_hz
  pub same_bandwidth : p.rf_bandwidth_hz ≡ plan.rf_bandwidth_hz
  pub finite : is_finite p.band_power_dbfs ≡ true
  pub no_drop : p.dropped_samples ≡ 0
  pub no_overflow : p.overflow ≡ false
  pub no_flags : p.status_flags ≡ 0

-- A point follows the one with the previous sequence number.
abbrev pub Follows : Option ℕ → ℕ → Type 0
Follows none sequence = Unit
Follows (some previous) sequence = previous < sequence

-- A point of a healthy radio, in time, after the one before.
pub record IsSound (previous : Option ℕ) (p : SweepPoint) : Type 0 where
  pub limited : 0 < p.timeout.limit_ms
  pub on_time : p.timeout.timed_out ≡ false
  pub same_elapsed : p.timeout.elapsed_us ≡ p.elapsed_us
  pub healthy : p.health.healthy ≡ true
  pub same_flags : p.health.flags ≡ p.status_flags
  pub sourced : 0 < byte_len p.health.source
  pub follows : Follows previous p.sequence

is_identified_iff :
    (plan : ValidatedSweepPlan) (index center : ℕ) (p : SweepPoint)
    → (is_identified plan index center p ≡ true) ↔ IsIdentified plan index center p
unfolding is_identified
is_identified_iff plan index center p = (λ h. ground arith, λ h. ground arith)

has_profile_iff :
    (plan : ValidatedSweepPlan) (p : SweepPoint) → (has_profile plan p ≡ true) ↔ HasProfile plan p
unfolding has_profile
has_profile_iff plan p = (λ h. ground arith, λ h. ground arith)

is_sound_iff :
    (previous : Option ℕ) (p : SweepPoint) → (is_sound previous p ≡ true) ↔ IsSound previous p
unfolding is_sound
is_sound_iff none p = (λ h. ground arith, λ h. ground arith)
is_sound_iff (some previous) p = (λ h. ground arith, λ h. ground arith)

-- What the contract asks of a point.
abbrev pub IsMeasured : ValidatedSweepPlan → ℕ → ℕ → Option ℕ → SweepPoint → Type 0
IsMeasured plan index center previous p =
    IsIdentified plan index center p × HasProfile plan p × IsSound previous p

keeps_contract_iff :
    (plan : ValidatedSweepPlan) (index center : ℕ) (previous : Option ℕ) (p : SweepPoint)
    → (keeps_contract plan index center previous p ≡ true) ↔ IsMeasured plan index center previous p
unfolding keeps_contract
keeps_contract_iff plan index center previous p =
    let a = is_identified_iff plan index center p in
    let b = has_profile_iff plan p in
    let c = is_sound_iff previous p in
    (
      λ h. (a.0 (ground arith), b.0 (ground arith), c.0 (ground arith)),
      λ h. rw (a.1 h.0, b.1 h.1, c.1 h.2) refl,
    )

-- Points that are measured at the centers one by one, their sequence numbers rising.
abbrev pub Measured : ValidatedSweepPlan → ℕ → List ℕ → Option ℕ → List SweepPoint → Type 0
Measured plan index [] previous [] = Unit
Measured plan index (c ∷ cs) previous (p ∷ ps) =
    IsMeasured plan index c previous p × Measured plan (suc index) cs (some p.sequence) ps
Measured plan index _ previous _ = ⊥

Measured-length :
    (plan : ValidatedSweepPlan) (index : ℕ) (cs : List ℕ) (previous : Option ℕ)
    (ps : List SweepPoint)
    → Measured plan index cs previous ps
    → length ps ≡ length cs
Measured-length plan index [] previous [] h = refl
Measured-length plan index (c ∷ cs) previous [] h = elim h [ ]
Measured-length plan index [] previous (p ∷ ps) h = elim h [ ]
Measured-length plan index (c ∷ cs) previous (p ∷ ps) h =
    ap suc (Measured-length plan (suc index) cs (some p.sequence) ps h.1)

module _ {V : Type 0} (plan : ValidatedSweepPlan) where
  check_points_iff :
      (index : ℕ) (cs : List ℕ) (previous : Option ℕ) (ps : List SweepPoint)
      → length ps ≡ length cs
      → (check_points {V = V} plan index cs previous ps ≡ ok tt)
        ↔ Measured plan index cs previous ps
  unfolding check_points
  check_points_iff index [] previous [] l = (λ h. tt, λ h. refl)
  check_points_iff index (c ∷ cs) previous [] l = absurd (omega (arith, l))
  check_points_iff index [] previous (p ∷ ps) l = absurd (omega (arith, l))
  check_points_iff index (c ∷ cs) previous (p ∷ ps) l =
      let rest = check_points_iff (suc index) cs (some p.sequence) ps (omega (arith, l)) in
      let kept = keeps_contract_iff plan index c previous p in
      elim (Bool-cases (keeps_contract plan index c previous p)) [
        | inr e ↦ rw e (λ h. absurd (ground arith), λ h. absurd (ground (arith, kept.1 h.0)))
        | inl e ↦ rw e (λ h. (kept.0 e, rest.0 h), λ h. rest.1 h.1)
      ]

  -- The points of a backend are accepted exactly when they are as many as the centers and each is
  -- measured at the center with its index within 2 Hz, in the session and with the profile of the
  -- plan, without loss, fault or timeout, and with a sequence number above that of the point before.
  pub validate_points_iff :
      (ps : List SweepPoint)
      → (validate_points {V = V} plan ps ≡ ok tt) ↔ Measured plan 0 plan.centers_hz none ps
  unfolding validate_points
  validate_points_iff ps = (
    λ h. (check_points_iff 0 plan.centers_hz none ps (ground arith)).0 (ground arith),
    λ h.
        let same = Measured-length plan 0 plan.centers_hz none ps h in
        ground (arith, (check_points_iff 0 plan.centers_hz none ps same).1 h),
  )
