-- ===== src/Execution/Executed.antt =====
-- The trail of an execution over a connection that records it: the opening of the connection, the
-- session and its closing, and the observations after it.
use sdr_pi.Base.{
  ℕ, zero, suc, ◌≤◌, ◌*◌, ◌≡◌, refl, ◌⊎◌, inl, inr, List, [], ◌∷◌, Result, ok, err, arith,
  Result-cases, Bool-cases, String, sym,
}
use mathlib.Core.Path.{subst}
use sdr_pi.Protocol.{ValidatedPlan, capture_bounded_iq}
use sdr_pi.Sdr.{SdrError}
use sdr_pi.Sdr.Wire.{Wire}
use sdr_pi.Sdr.Observe.{ObserveShapes, sdrd_observe}
use sdr_pi.Sdr.Observed.{sdrd_observe-Reads}
use sdr_pi.Sdr.Recorded.{
  WireEvent, sent, connected, slept, recorded, told, LastOf, Within, Reads, query, Reads-trans,
}
use sdr_pi.Execution.Authorization.{ExecutionAuthorization}
use sdr_pi.Execution.Responses.{ExecuteShapes}
use sdr_pi.Execution.Adapter.{
  Capture, capture_of, check_endpoint, run_session, is_busy, observe_retrying,
  observe_after_worker_release, capture_and_observe, sdrd_execute_capture, sdrd_execute,
}
use sdr_pi.Execution.Sessions.{script, ClosedAfter, Closed, run_session-Closed}

-- The events before the session, in order.
abbrev pub opening : ℕ → List WireEvent
opening timeout = connected timeout ∷ sent "HELLO" "" ∷ sent "CAPABILITIES" "" ∷ []

module _ {V N : Type 0} (wire : Wire V N) (observe_shapes : ObserveShapes V) (timeout : ℕ) where
  -- Whatever the daemon answers, the observation after an execution ends, after one attempt more than
  -- the retries at most, each of which only reads.
  pub observe_retrying-Reads :
      (retries : ℕ) (s : N × List WireEvent)
      → (n : ℕ) × (n ≤ suc retries)
        × Reads s.1 n (observe_retrying (recorded wire) observe_shapes timeout retries s).1.1
  unfolding observe_retrying
  observe_retrying-Reads zero s =
      (1, (omega arith), sdrd_observe-Reads wire observe_shapes timeout s)
  observe_retrying-Reads (suc retries) s =
      let once = sdrd_observe (recorded wire) observe_shapes timeout s in
      let reads = sdrd_observe-Reads wire observe_shapes timeout s in
      elim (Result-cases once.0) [
        | inl (snapshot, h) ↦
            (1, (omega arith), subst (Reads s.1 1) (sym (ground (arith, h))) reads)
        | inr (e, h) ↦ elim (Bool-cases (is_busy e)) [
          | inr other ↦
              (1, (omega arith), subst (Reads s.1 1) (sym (ground (arith, h, other))) reads)
          | inl busy ↦
              let paused : N × List WireEvent = (wire.sleep 10 once.1.0, slept 10 ∷ once.1.1) in
              let again = observe_retrying-Reads retries paused in
              (
                suc again.0,
                (omega (arith, again.1)),
                subst (Reads s.1 (suc again.0)) (sym (ground (arith, h, busy)))
                    (Reads-trans (query (slept 10) refl reads) again.2),
              )
        ]
      ]

  observe_after_worker_release-Reads :
      (s : N × List WireEvent)
      → (n : ℕ) × (n ≤ 21)
        × Reads s.1 n (observe_after_worker_release (recorded wire) observe_shapes timeout s).1.1
  unfolding observe_after_worker_release
  observe_after_worker_release-Reads s = observe_retrying-Reads 20 s

-- A complete session, and the observations after it.
abbrev pub Finished : Capture → List WireEvent → List WireEvent → Type 0
Finished c opened trail = (n : ℕ) × (n ≤ 21) × Reads (told 6 (script c) opened) n trail

-- The trail that an execution leaves over what was before: only a complete session gives a result.
abbrev pub Traced :
    {V X N : Type 0}
    → Capture
    → ℕ
    → List WireEvent
    → Result (SdrError V) X × (N × List WireEvent)
    → Type 0
Traced c timeout before (ok o, s) = Finished c (told 3 (opening timeout) before) s.1
Traced c timeout before (err e, s) =
    LastOf (opening timeout) 0 4 before s.1
    ⊎ ClosedAfter c 1 6 (told 3 (opening timeout) before) s.1
    ⊎ Finished c (told 3 (opening timeout) before) s.1

Finished-Traced :
    {V X N : Type 0} (c : Capture) (timeout : ℕ) (before : List WireEvent)
    (outcome : Result (SdrError V) X × (N × List WireEvent))
    → Finished c (told 3 (opening timeout) before) outcome.1.1
    → Traced c timeout before outcome
Finished-Traced c timeout before (ok o, s) h = h
Finished-Traced c timeout before (err e, s) h = inr (inr h)

module _ {V N : Type 0} (wire : Wire V N) (shapes : ExecuteShapes V)
    (observe_shapes : ObserveShapes V) (timeout : ℕ) where
  check_endpoint-Within :
      (max_bytes : ℕ) (s : N × List WireEvent) (before : List WireEvent)
      → s.1 ≡ told 1 (opening timeout) before
      → Within (opening timeout) 1 2 before (check_endpoint (recorded wire) shapes max_bytes s)
  unfolding check_endpoint
  check_endpoint-Within max_bytes s before h = ground arith

  capture_and_observe-Traced :
      (plan : ValidatedPlan) (c : Capture) (s : N × List WireEvent)
      → Traced c timeout s.1
          (capture_and_observe (recorded wire) shapes observe_shapes timeout plan c s)
  unfolding capture_and_observe
  capture_and_observe-Traced plan c s =
      let joined = (recorded wire).connect timeout s in
      let all = capture_and_observe (recorded wire) shapes observe_shapes timeout plan c s in
      let checked = check_endpoint (recorded wire) shapes c.max_bytes joined.1 in
      let within = check_endpoint-Within c.max_bytes joined.1 s.1 refl in
      elim (Result-cases joined.0) [
        | inr (e, p) ↦ ground (arith, p)
        | inl (_, p) ↦ elim (Result-cases checked.0) [
          | inr (e, q) ↦ ground (arith, p, q, within)
          | inl (_, q) ↦
              let opened : checked.1.1 ≡ told 3 (opening timeout) s.1 = ground (arith, q, within) in
              let session = run_session (recorded wire) shapes c checked.1 in
              let closed =
                subst (λ b. Closed c b session) opened
                  (run_session-Closed wire shapes c checked.1) in
              elim (Result-cases session.0) [
                | inr (e, r) ↦ ground (arith, p, q, r, closed)
                | inl (capture, r) ↦
                    let observed =
                      observe_after_worker_release (recorded wire) observe_shapes timeout
                        session.1 in
                    let reads =
                      observe_after_worker_release-Reads wire observe_shapes timeout session.1 in
                    let told_all : session.1.1 ≡ told 6 (script c) (told 3 (opening timeout) s.1) =
                      ground (arith, r, closed) in
                    let last : all.1.1 ≡ observed.1.1 = ground (arith, p, q, r) in
                    let read = subst (λ b. Reads b reads.0 observed.1.1) told_all reads.2 in
                    Finished-Traced c timeout s.1 all (
                      reads.0,
                      reads.1,
                      subst (Reads (told 6 (script c) (told 3 (opening timeout) s.1)) reads.0)
                          (sym last) read,
                    )
              ]
        ]
      ]

  sdrd_execute_capture-Traced :
      (plan : ValidatedPlan) (id : String) (center rate bandwidth samples : ℕ)
      (s : N × List WireEvent)
      → Traced
          (capture_of timeout plan id center rate bandwidth samples (samples * 4))
          timeout
          s.1
          (sdrd_execute_capture
            (recorded wire)
            shapes
            observe_shapes
            timeout
            plan
            id
            center
            rate
            bandwidth
            samples
            s)
  unfolding sdrd_execute_capture
  sdrd_execute_capture-Traced plan id center rate bandwidth samples s = ground (
    arith,
    capture_and_observe-Traced plan
        (capture_of timeout plan id center rate bandwidth samples (samples * 4)) s,
  )

  -- The execution of a capture plan that gives a result has connected and sent HELLO, CAPABILITIES and
  -- the six commands of the session, in order, and then only read, in at most 21 observations. One
  -- that fails has done that, or sent no more than a first part of what comes before the session, or
  -- sent a first part of the session and closed it: with STOP_SESSION and QUIT from its second command
  -- to its fifth, with QUIT alone at its first or its last.
  pub sdrd_execute-Traced :
      (plan : ValidatedPlan) (authorization : ExecutionAuthorization) (id : String)
      (center rate bandwidth samples : ℕ) (s : N × List WireEvent)
      → plan.action ≡ capture_bounded_iq id center rate bandwidth samples
      → Traced
          (capture_of timeout plan id center rate bandwidth samples (samples * 4))
          timeout
          s.1
          (sdrd_execute (recorded wire) shapes observe_shapes timeout plan authorization s)
  unfolding sdrd_execute
  sdrd_execute-Traced plan authorization id center rate bandwidth samples s h =
      ground (arith, sdrd_execute_capture-Traced plan id center rate bandwidth samples s)
