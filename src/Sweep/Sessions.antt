-- ===== src/Sweep/Sessions.antt =====
-- The commands that a sweep sends for its points, over a connection that records them.
use sdr_pi.Base.{
  ℕ, suc, ◌*◌, ◌≡◌, refl, sym, ap, ◌∙◌, inl, inr, Bool, true, false, Option, List, [], ◌∷◌, Result,
  ok, err, arith, Result-cases, ◌||◌, ◌=s◌,
}
use mathlib.Core.Path.{subst}
use sdr_pi.Sdr.Wire.{Wire}
use sdr_pi.Sdr.Recorded.{
  WireEvent, connected, sent, slept, recorded, told, LastOf, Leaves, done, failed, Leaves-done,
  Leaves-failed,
}
use sdr_pi.Sweep.Plan.{ValidatedSweepPlan, SweepError}
use sdr_pi.Sweep.Responses.{SweepShapes, profile_args, capture_args, capture_size}
use sdr_pi.Sweep.Acquired.{capture_size_bounded}
use sdr_pi.Sweep.Base64.{decode_base64}
use sdr_pi.Sweep.Silent.{beside, keep-silent}
use sdr_pi.Sweep.Sigmf.{Files, SigmfWriter}
use sdr_pi.Sweep.Adapter.{PowerDbfs, apply_profile, capture_inline, measure_point, measure_points}

-- The events of a point, in order.
abbrev pub point_script : ValidatedSweepPlan → (index center : ℕ) → List WireEvent
point_script plan index center =
    let samples = plan.frame_samples * plan.aggregate_frames in
    sent "APPLY_PROFILE" (profile_args plan center)
    ∷ slept plan.settle_ms
    ∷ sent "CAPTURE_IQ_INLINE" (capture_args plan index samples (samples * 4))
    ∷ []

-- The trail of the points of the centers from an index on.
abbrev pub visited : ValidatedSweepPlan → ℕ → List ℕ → List WireEvent → List WireEvent
visited plan index [] before = before
visited plan index (c ∷ cs) before =
    visited plan (suc index) cs (told 3 (point_script plan index c) before)

-- an event while the points are measured, or the stop after them
abbrev pub is_session_event : WireEvent → Bool
is_session_event (connected timeout) = false
is_session_event (slept ms) = true
is_session_event (sent command arguments) =
    (command =s "APPLY_PROFILE") || (command =s "CAPTURE_IQ_INLINE") || (command =s "STOP_SESSION")

-- A trail that adds such events only to another.
pub data Measures (before : List WireEvent) : List WireEvent → Type 0 where
  nothing : Measures before before
  event :
      {trail : List WireEvent} (e : WireEvent)
      → is_session_event e ≡ true
      → Measures before trail
      → Measures before (e ∷ trail)

pub Measures-trans : {a b c : List WireEvent} → Measures a b → Measures b c → Measures a c
Measures-trans m nothing = m
Measures-trans m (event e h more) = event e h (Measures-trans m more)

point-Measures :
    (plan : ValidatedSweepPlan) (index center : ℕ) (before : List WireEvent)
    → Measures before (told 3 (point_script plan index center) before)
point-Measures plan index center before =
    event _ refl (event (slept plan.settle_ms) refl (event _ refl nothing))

pub visited-Measures :
    (plan : ValidatedSweepPlan) (index : ℕ) (centers : List ℕ) (before : List WireEvent)
    → Measures before (visited plan index centers before)
visited-Measures plan index [] before = nothing
visited-Measures plan index (c ∷ cs) before =
    Measures-trans (point-Measures plan index c before)
      (visited-Measures plan (suc index) cs (told 3 (point_script plan index c) before))

module _ {V N : Type 0} (wire : Wire V N) (shapes : SweepShapes V) where
  apply_profile-sent :
      (plan : ValidatedSweepPlan) (center : ℕ) (s : N × List WireEvent)
      → (apply_profile (recorded wire) shapes plan center s).1.1
        ≡ sent "APPLY_PROFILE" (profile_args plan center) ∷ s.1
  unfolding apply_profile
  apply_profile-sent plan center s = ground arith

  capture_inline-sent :
      (plan : ValidatedSweepPlan) (index samples bytes : ℕ) (s : N × List WireEvent)
      → (capture_inline (recorded wire) shapes plan index (samples, bytes) s).1.1
        ≡ sent "CAPTURE_IQ_INLINE" (capture_args plan index samples bytes) ∷ s.1
  unfolding capture_inline
  capture_inline-sent plan index samples bytes s = ground arith

-- What the points of the centers leave.
abbrev pub Visited :
    {V X N : Type 0}
    → ValidatedSweepPlan
    → ℕ
    → List ℕ
    → List WireEvent
    → Result (SweepError V) X × (N × List WireEvent)
    → Type 0
Visited plan index centers before =
    Leaves (λ t. t ≡ visited plan index centers before) (Measures before)

module _ {V N : Type 0} (wire : Wire V N) (shapes : SweepShapes V) (files : Files N)
    (dbfs : PowerDbfs) (plan : ValidatedSweepPlan) where
  -- what one point leaves
  abbrev Pointed :
      {X : Type 0}
      → ℕ
      → ℕ
      → List WireEvent
      → Result (SweepError V) X × (N × List WireEvent)
      → Type 0
  Pointed index center before (ok x, s) = s.1 ≡ told 3 (point_script plan index center) before
  Pointed index center before (err e, s) = LastOf (point_script plan index center) 1 3 before s.1

  Pointed-Measures :
      {X : Type 0} (index center : ℕ) (before : List WireEvent)
      (outcome : Result (SweepError V) X × (N × List WireEvent))
      → Pointed index center before outcome
      → Measures before outcome.1.1
  Pointed-Measures index center before (ok x, s) h =
      subst (Measures before) (sym h) (point-Measures plan index center before)
  Pointed-Measures index center before (err e, s) (inl h) =
      subst (Measures before) (sym h) (event _ refl nothing)
  Pointed-Measures index center before (err e, s) (inr (inl h)) =
      subst (Measures before) (sym h) (event (slept plan.settle_ms) refl (event _ refl nothing))
  Pointed-Measures index center before (err e, s) (inr (inr (inl h))) =
      subst (Measures before) (sym h) (point-Measures plan index center before)
  Pointed-Measures index center before (err e, s) (inr (inr (inr h))) = elim h [ ]

  measure_point-Pointed :
      (sigmf : Option SigmfWriter) (index center : ℕ) (s : N × List WireEvent)
      → Pointed index center s.1
          (measure_point (recorded wire) shapes (beside files) dbfs plan sigmf index center s)
  unfolding measure_point
  measure_point-Pointed sigmf index center s =
      let profiled = apply_profile (recorded wire) shapes plan center s in
      let tuned = apply_profile-sent wire shapes plan center s in
      let settled : N × List WireEvent =
        (wire.sleep plan.settle_ms profiled.1.0, slept plan.settle_ms ∷ profiled.1.1) in
      elim (Result-cases profiled.0) [
        | inr (e, a) ↦ ground (arith, a, tuned)
        | inl (profile, a) ↦ elim (Result-cases (capture_size {V = V} plan)) [
          | inr (e, b) ↦ ground (arith, a, b, tuned)
          | inl ((samples, bytes), b) ↦
              let size = capture_size_bounded {V = V} plan samples bytes b in
              let asks = λ (k b : ℕ) (rest : List WireEvent).
                sent "CAPTURE_IQ_INLINE" (capture_args plan index k b) ∷ rest in
              let captured =
                capture_inline (recorded wire) shapes plan index (samples, bytes) settled in
              let asked = capture_inline-sent wire shapes plan index samples bytes settled in
              let trail : captured.1.1 ≡ told 3 (point_script plan index center) s.1 =
                asked
                ∙ ap (λ k. asks k bytes settled.1) size.0
                ∙ ap (λ k. asks (plan.frame_samples * plan.aggregate_frames) k settled.1)
                    (size.1 ∙ ap (λ k. k * 4) size.0)
                ∙ ap
                    (λ t.
                      asks (plan.frame_samples * plan.aggregate_frames)
                        (plan.frame_samples * plan.aggregate_frames * 4) (slept plan.settle_ms ∷ t))
                    tuned in
              elim (Result-cases captured.0) [
                | inr (e, c) ↦ ground (arith, a, b, c, trail)
                | inl (capture, c) ↦ elim (Result-cases (decode_base64 {V = V} capture.iq_base64)) [
                  | inr (e, d) ↦ ground (arith, a, b, c, d, trail)
                  | inl (iq, d) ↦ ground (
                    arith,
                    a,
                    b,
                    c,
                    d,
                    trail,
                    keep-silent V files sigmf index center iq captured.1,
                  )
                ]
              ]
        ]
      ]

  measure_point-Measures :
      (sigmf : Option SigmfWriter) (index center : ℕ) (s : N × List WireEvent)
      → Measures s.1
          (measure_point (recorded wire) shapes (beside files) dbfs plan sigmf index center s).1.1
  measure_point-Measures sigmf index center s =
      Pointed-Measures index center s.1
        (measure_point (recorded wire) shapes (beside files) dbfs plan sigmf index center s)
        (measure_point-Pointed sigmf index center s)

  pub measure_points-Visited :
      (sigmf : Option SigmfWriter) (index : ℕ) (centers : List ℕ) (s : N × List WireEvent)
      → Visited plan index centers s.1
          (measure_points (recorded wire) shapes (beside files) dbfs plan sigmf index centers s)
  unfolding measure_points
  measure_points-Visited sigmf index [] s = done ([], sigmf) refl refl
  measure_points-Visited sigmf index (c ∷ cs) s =
      let first = measure_point (recorded wire) shapes (beside files) dbfs plan sigmf index c s in
      let all =
        measure_points (recorded wire) shapes (beside files) dbfs plan sigmf index (c ∷ cs) s in
      elim (Result-cases first.0) [
        | inr (e, a) ↦ failed e (ground (arith, a)) (
            subst (Measures s.1) (sym (ground (arith, a))) (measure_point-Measures sigmf index c s))
        | inl ((p, w), a) ↦
            let later =
              measure_points (recorded wire) shapes (beside files) dbfs plan w (suc index) cs
                first.1 in
            let pointed : first.1.1 ≡ told 3 (point_script plan index c) s.1 =
              ground (arith, a, measure_point-Pointed sigmf index c s) in
            let visits = measure_points-Visited w (suc index) cs first.1 in
            elim (Result-cases later.0) [
              | inr (e, b) ↦
                  let same : all.1.1 ≡ later.1.1 = ground (arith, a, b) in
                  failed e (ground (arith, a, b)) (
                    subst (Measures s.1) (sym same) (
                      Measures-trans (measure_point-Measures sigmf index c s)
                        (Leaves-failed visits b)))
              | inl ((ps, w'), b) ↦
                  let same : all.1.1 ≡ later.1.1 = ground (arith, a, b) in
                  done (p ∷ ps, w') (ground (arith, a, b))
                    (same ∙ Leaves-done visits b ∙ ap (visited plan (suc index) cs) pointed)
            ]
      ]
