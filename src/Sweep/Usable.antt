-- ===== src/Sweep/Usable.antt =====
-- The sweep engine over the SDRD adapter: what the adapter returns is accepted, up to what the daemon
-- alone decides.
use sdr_pi.Base.{
  ℕ, suc, ◌<◌, ◌≡◌, sym, true, Option, none, some, List, [], ◌∷◌, ok, arith, is_finite, byte_len,
  String,
}
use mathlib.Core.Path.{subst}
use sdr_pi.Sdr.Wire.{Wire}
use sdr_pi.Sweep.Plan.{ValidatedSweepPlan, BackendSweep, SweepPoint}
use sdr_pi.Sweep.Points.{validate_points}
use sdr_pi.Sweep.Contract.{Follows, IsMeasured, Measured, validate_points_iff}
use sdr_pi.Sweep.Responses.{SweepShapes}
use sdr_pi.Sweep.Sigmf.{Files}
use sdr_pi.Sweep.Adapter.{PowerDbfs, run_sdrd_points}
use sdr_pi.Sweep.Acquired.{IsAcquired}
use sdr_pi.Sweep.Delivered.{AllDelivered, run_sdrd_points-AllDelivered}

-- What the daemon and the floating-point unit decide: positive request numbers, finite powers, and
-- sequence numbers that rise.
abbrev pub Numbered : Option ℕ → List SweepPoint → Type 0
Numbered previous [] = Unit
Numbered previous (p ∷ ps) =
    (0 < p.request_id)
    × (is_finite p.band_power_dbfs ≡ true)
    × Follows previous p.sequence
    × Numbered (some p.sequence) ps

module _ (V : Type 0) (dbfs : PowerDbfs) (plan : ValidatedSweepPlan) where
  IsAcquired-IsMeasured :
      (index center : ℕ) (iq : List ℕ) (previous : Option ℕ) (p : SweepPoint)
      → 0 < plan.point_timeout_ms
      → IsAcquired V dbfs plan index center iq p
      → 0 < p.request_id
      → is_finite p.band_power_dbfs ≡ true
      → Follows previous p.sequence
      → IsMeasured plan index center previous p
  unfolding byte_len
  IsAcquired-IsMeasured index center iq previous p limit a id finite follows = (
    record {
      index_kept = a.index_kept;
      identified = id;
      same_session = a.same_session;
      requested = a.requested;
      tuned_low = a.tuned_low;
      tuned_high = a.tuned_high;
    },
    record {
      same_rate = a.same_rate;
      same_bandwidth = a.same_bandwidth;
      finite = finite;
      no_drop = a.no_drop;
      no_overflow = a.no_overflow;
      no_flags = a.no_flags;
    },
    record {
      limited = omega (arith, limit, a.same_limit);
      on_time = a.in_time;
      same_elapsed = a.same_elapsed;
      healthy = a.healthy;
      same_flags = a.same_flags;
      sourced = subst (λ (s : String). 0 < byte_len s) (sym a.from_adapter) (omega arith);
      follows = follows;
    },
  )

module _ {V N : Type 0} (wire : Wire V N) (shapes : SweepShapes V) (dbfs : PowerDbfs)
    (plan : ValidatedSweepPlan) where
  AllDelivered-Measured :
      (index : ℕ) (centers : List ℕ) (previous : Option ℕ) (ps : List SweepPoint)
      → 0 < plan.point_timeout_ms
      → AllDelivered wire shapes dbfs plan index centers ps
      → Numbered previous ps
      → Measured plan index centers previous ps
  AllDelivered-Measured index [] previous [] limit a n = tt
  AllDelivered-Measured index [] previous (p ∷ ps) limit a n = elim a [ ]
  AllDelivered-Measured index (c ∷ cs) previous [] limit a n = elim a [ ]
  AllDelivered-Measured index (c ∷ cs) previous (p ∷ ps) limit a n = (
    IsAcquired-IsMeasured V dbfs plan index c a.0.iq previous p limit a.0.acquired n.0 n.1 n.2,
    AllDelivered-Measured (suc index) cs (some p.sequence) ps limit a.1 n.3,
  )

module _ {V N : Type 0} (wire : Wire V N) (shapes : SweepShapes V) (files : Files N)
    (dbfs : PowerDbfs) (plan : ValidatedSweepPlan) where
  -- The points of a sweep that the adapter returns for a plan with a positive point timeout pass the
  -- engine's check, if the daemon numbers the captures upwards and the powers are finite.
  pub run_sdrd_points-accepted :
      (timeout : ℕ) (directory : Option String) (n : N) (sweep : BackendSweep)
      → 0 < plan.point_timeout_ms
      → (run_sdrd_points wire shapes files dbfs plan timeout directory n).0 ≡ ok sweep
      → Numbered none sweep.points
      → validate_points {V = V} plan sweep.points ≡ ok tt
  run_sdrd_points-accepted timeout directory n sweep limit h numbered =
      let a =
        run_sdrd_points-AllDelivered wire shapes files dbfs plan timeout directory n sweep h in
      (validate_points_iff {V = V} plan sweep.points).1 (
        AllDelivered-Measured wire shapes dbfs plan 0 plan.centers_hz none sweep.points limit a.2
          numbered)
