-- ===== src/Sweep/Delivered.antt =====
-- What holds of the points that `run_sdrd_points` returns: they are what the daemon answered.
use sdr_pi.Base.{ℕ, suc, ◌≡◌, inl, inr, String, Option, List, [], ◌∷◌, ok, arith, Result-cases}
use mathlib.Core.Path.{subst}
use sdr_pi.Sdr.Wire.{Wire}
use sdr_pi.Sweep.Plan.{ValidatedSweepPlan, BackendSweep, SweepPoint}
use sdr_pi.Sweep.Base64.{decode_base64}
use sdr_pi.Sweep.Power.{aggregate_ci16_power}
use sdr_pi.Sweep.Responses.{
  SweepShapes, ProfileResponse, InlineCaptureResponse, profile_args, capture_args, capture_size,
}
use sdr_pi.Sweep.Sigmf.{Files, SigmfWriter, discard}
use sdr_pi.Sweep.Adapter.{
  PowerDbfs, ask, point_of, u96_power_dbfs, apply_profile, capture_inline, measure_point,
  measure_points, open_sigmf, measure_and_stop, sweep_in_session, clean_up, start_session,
  check_endpoint, run_session, run_sdrd_points,
}
use sdr_pi.Sweep.Acquired.{
  IsAcquired, point_of-IsAcquired, apply_profile-accepted, capture_inline-accepted,
}

module _ {V N : Type 0} (wire : Wire V N) (shapes : SweepShapes V) (dbfs : PowerDbfs)
    (plan : ValidatedSweepPlan) where
  -- An acquired point that is what the daemon answered: the center that its profile reports, and the
  -- number, the sequence and the samples of its capture.
  pub record IsDelivered (index center : ℕ) (p : SweepPoint) : Type 0 where
    pub iq : List ℕ
    pub acquired : IsAcquired V dbfs plan index center iq p
    pub profile : ProfileResponse
    pub capture : InlineCaptureResponse
    pub size : ℕ × ℕ
    pub tuned_at : N
    pub captured_at : N
    pub sized : capture_size {V = V} plan ≡ ok size
    pub tuned :
        (ask wire shapes shapes.profile "APPLY_PROFILE" (profile_args plan center) tuned_at).0
        ≡ ok profile
    pub answered :
        (ask wire shapes shapes.capture "CAPTURE_IQ_INLINE"
          (capture_args plan index size.0 size.1)
          captured_at).0
        ≡ ok capture
    pub decoded : decode_base64 {V = V} capture.iq_base64 ≡ ok iq
    pub same_center : p.actual_center_hz ≡ profile.center_hz
    pub same_number : p.request_id ≡ capture.request_id
    pub same_sequence : p.sequence ≡ capture.sequence

  -- The points of the centers, one by one.
  abbrev pub AllDelivered : ℕ → List ℕ → List SweepPoint → Type 0
  AllDelivered index [] [] = Unit
  AllDelivered index (c ∷ cs) (p ∷ ps) = IsDelivered index c p × AllDelivered (suc index) cs ps
  AllDelivered index _ _ = ⊥

point_of-copied :
    {V : Type 0} (dbfs : PowerDbfs) (plan : ValidatedSweepPlan) (index center samples : ℕ)
    (profile : ProfileResponse) (capture : InlineCaptureResponse) (sum : ℕ × ℕ) (p : SweepPoint)
    → point_of {V = V} dbfs plan index center samples profile capture sum ≡ ok p
    → (p.actual_center_hz ≡ profile.center_hz)
      × (p.request_id ≡ capture.request_id)
      × (p.sequence ≡ capture.sequence)
unfolding point_of u96_power_dbfs
point_of-copied dbfs plan index center samples profile capture (power, clipped) p h =
    (ground arith, ground arith, ground arith)

module _ {V N : Type 0} (wire : Wire V N) (shapes : SweepShapes V) (dbfs : PowerDbfs)
    (plan : ValidatedSweepPlan) where
  point_of-IsDelivered :
      (index center : ℕ) (tuned_at captured_at : N) (profile : ProfileResponse)
      (capture : InlineCaptureResponse) (size : ℕ × ℕ) (iq : List ℕ) (sum : ℕ × ℕ) (p : SweepPoint)
      → (apply_profile wire shapes plan center tuned_at).0 ≡ ok profile
      → capture_size {V = V} plan ≡ ok size
      → (capture_inline wire shapes plan index size captured_at).0 ≡ ok capture
      → decode_base64 {V = V} capture.iq_base64 ≡ ok iq
      → aggregate_ci16_power {V = V} iq size.0 ≡ ok sum
      → point_of {V = V} dbfs plan index center size.0 profile capture sum ≡ ok p
      → IsDelivered wire shapes dbfs plan index center p
  point_of-IsDelivered index center tuned_at captured_at profile capture size iq sum p a b c d f
        made =
      let tuned = apply_profile-accepted wire shapes plan center tuned_at profile a in
      let answered =
        capture_inline-accepted wire shapes plan index size.0 size.1 captured_at capture c in
      let copied =
        point_of-copied {V = V} dbfs plan index center size.0 profile capture sum p made in
      record {
        iq = iq;
        acquired =
            point_of-IsAcquired {V = V} dbfs plan index center size.0 size.1 profile capture sum.0
              sum.1 p tuned.0 answered.0 b iq f made;
        profile = profile;
        capture = capture;
        size = size;
        tuned_at = tuned_at;
        captured_at = captured_at;
        sized = b;
        tuned = tuned.1;
        answered = answered.1;
        decoded = d;
        same_center = copied.0;
        same_number = copied.1;
        same_sequence = copied.2;
      }

module _ {V N : Type 0} (wire : Wire V N) (shapes : SweepShapes V) (files : Files N)
    (dbfs : PowerDbfs) (plan : ValidatedSweepPlan) where
  measure_point-IsDelivered :
      (sigmf : Option SigmfWriter) (index center : ℕ) (n : N) (p : SweepPoint)
      (w : Option SigmfWriter)
      → (measure_point wire shapes files dbfs plan sigmf index center n).0 ≡ ok (p, w)
      → IsDelivered wire shapes dbfs plan index center p
  unfolding measure_point
  measure_point-IsDelivered sigmf index center n p w h =
      let profiled = apply_profile wire shapes plan center n in
      let settled = wire.sleep plan.settle_ms profiled.1 in
      elim (Result-cases profiled.0) [
        | inr (e, a) ↦ absurd (ground (arith, a))
        | inl (profile, a) ↦ elim (Result-cases (capture_size {V = V} plan)) [
          | inr (e, b) ↦ absurd (ground (arith, a, b))
          | inl (size, b) ↦
              let captured = capture_inline wire shapes plan index size settled in
              elim (Result-cases captured.0) [
                | inr (e, c) ↦ absurd (ground (arith, a, b, c))
                | inl (capture, c) ↦ elim (Result-cases (decode_base64 {V = V} capture.iq_base64)) [
                  | inr (e, d) ↦ absurd (ground (arith, a, b, c, d))
                  | inl (iq, d) ↦ elim (Result-cases (aggregate_ci16_power {V = V} iq size.0)) [
                    | inr (e, f) ↦ absurd (ground (arith, a, b, c, d, f))
                    | inl (sum, f) ↦
                        point_of-IsDelivered wire shapes dbfs plan index center n settled profile
                          capture size iq sum p a b c d f (ground (arith, a, b, c, d, f))
                  ]
                ]
              ]
        ]
      ]

  measure_points-AllDelivered :
      (sigmf : Option SigmfWriter) (index : ℕ) (centers : List ℕ) (n : N) (ps : List SweepPoint)
      (w : Option SigmfWriter)
      → (measure_points wire shapes files dbfs plan sigmf index centers n).0 ≡ ok (ps, w)
      → AllDelivered wire shapes dbfs plan index centers ps
  unfolding measure_points
  measure_points-AllDelivered sigmf index [] n [] w h = tt
  measure_points-AllDelivered sigmf index [] n (p ∷ ps) w h = absurd (ground (arith, h))
  measure_points-AllDelivered sigmf index (c ∷ centers) n ps w h =
      let first = measure_point wire shapes files dbfs plan sigmf index c n in
      elim (Result-cases first.0) [
        | inr (e, a) ↦ absurd (ground (arith, a))
        | inl ((x, w'), a) ↦
            let later = measure_points wire shapes files dbfs plan w' (suc index) centers first.1 in
            elim (Result-cases later.0) [
              | inr (e, b) ↦ absurd (ground (arith, a, b))
              | inl ((xs, w''), b) ↦
                  let all : x ∷ xs ≡ ps = ground (arith, a, b) in
                  subst (AllDelivered wire shapes dbfs plan index (c ∷ centers)) all (
                    measure_point-IsDelivered sigmf index c n x w' a,
                    measure_points-AllDelivered w' (suc index) centers first.1 xs w'' b,
                  )
            ]
      ]

  sweep_in_session-AllDelivered :
      (directory : Option String) (n : N) (ps : List SweepPoint) (w : Option SigmfWriter)
      → (sweep_in_session wire shapes files dbfs plan directory n).0 ≡ ok (ps, w)
      → AllDelivered wire shapes dbfs plan 0 plan.centers_hz ps
  unfolding sweep_in_session measure_and_stop discard
  sweep_in_session-AllDelivered directory n ps w h =
      let opened = open_sigmf {V = V} files plan directory n in
      elim (Result-cases opened.0) [
        | inr (e, a) ↦ absurd (ground (arith, a))
        | inl (sigmf, a) ↦
            let swept =
              measure_points wire shapes files dbfs plan sigmf 0 plan.centers_hz opened.1 in
            elim (Result-cases swept.0) [
              | inr (e, b) ↦ absurd (ground (arith, a, b))
              | inl ((xs, w'), b) ↦
                  let same : xs ≡ ps = ground (arith, a, b) in
                  subst (AllDelivered wire shapes dbfs plan 0 plan.centers_hz) same
                    (measure_points-AllDelivered sigmf 0 plan.centers_hz opened.1 xs w' b)
            ]
      ]

  -- A sweep that is returned is named for the adapter and has, for each center of the plan and in
  -- order, one point that was acquired as the plan asks and is what the daemon answered; its power is
  -- that of the sum of the squares of the samples of the answer, none of them clipped, given as its
  -- two words of 32 bits.
  pub run_sdrd_points-AllDelivered :
      (timeout : ℕ) (directory : Option String) (n : N) (sweep : BackendSweep)
      → (run_sdrd_points wire shapes files dbfs plan timeout directory n).0 ≡ ok sweep
      → (sweep.backend ≡ "agx_iq_software_aggregate")
        × (sweep.backend_version ≡ 1)
        × AllDelivered wire shapes dbfs plan 0 plan.centers_hz sweep.points
  unfolding run_sdrd_points run_session clean_up
  run_sdrd_points-AllDelivered timeout directory n sweep h =
      let joined = wire.connect timeout n in
      let checked = check_endpoint wire shapes joined.1 in
      let started = start_session wire shapes plan.session_generation checked.1 in
      let swept = sweep_in_session wire shapes files dbfs plan directory started.1 in
      elim (Result-cases swept.0) [
        | inr (e, a) ↦ absurd (ground (arith, a))
        | inl ((ps, w), a) ↦
            let same : ps ≡ sweep.points = ground (arith, a) in
            (
              ground (arith, a),
              ground (arith, a),
              subst (AllDelivered wire shapes dbfs plan 0 plan.centers_hz) same
                  (sweep_in_session-AllDelivered directory started.1 ps w a),
            )
      ]
