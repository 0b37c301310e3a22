-- ===== src/Execution/Fulfilled.antt =====
-- What an execution that gives an observation has checked: the contract of the capture.
use sdr_pi.Base.{
  ℕ, zero, suc, ◌∙◌, ◌*◌, ◌≡◌, sym, inl, inr, String, true, ok, arith, Result-cases, Bool-cases,
}
use sdr_pi.Protocol.{
  ValidatedPlan, ProposedAction, capture_bounded_iq, survey_band, inspect_candidate, hold,
  run_local_recognition, stop_session,
}
use sdr_pi.Sdr.Wire.{Wire, request}
use sdr_pi.Sdr.Observe.{ObserveShapes, sdrd_observe}
use sdr_pi.Sdr.Observed.{Reported, sdrd_observe-Reported}
use sdr_pi.Sdr.{SdrSnapshot}
use mathlib.Core.Path.{subst}
use sdr_pi.Execution.Authorization.{
  ExecutionAuthorization, ExecutionObservation, CaptureObservation, validate_authorization,
}
use sdr_pi.Execution.Granted.{Authorizes, validate_authorization_iff}
use sdr_pi.Execution.Responses.{ExecuteShapes, CaptureResponse}
use sdr_pi.Execution.Adapter.{
  Capture, capture_of, observation_of, start_session, capture_in_session, run_session, clean_up,
  check_endpoint, observe_retrying, observe_after_worker_release, is_busy, capture_arguments,
  apply_profile, capture_iq, capture_and_observe, sdrd_execute_capture, sdrd_execute,
  perform_action,
}
use sdr_pi.Execution.Contract.{Fulfils, validate_capture_response_iff}

module _ {V N : Type 0} (wire : Wire V N) (shapes : ExecuteShapes V) where
  -- A response that the daemon gave to the command of a capture, and that keeps its contract.
  pub record IsCaptured (c : Capture) (r : CaptureResponse) : Type 0 where
    pub asked_at : N
    pub answered :
        (request wire shapes.capture "CAPTURE_IQ" (capture_arguments c) asked_at).0 ≡ ok r
    pub fulfilled : Fulfils c r

  capture_iq-IsCaptured :
      (c : Capture) (n : N) (r : CaptureResponse)
      → (capture_iq wire shapes c n).0 ≡ ok r
      → IsCaptured c r
  unfolding capture_iq
  capture_iq-IsCaptured c n r h =
      let response = request wire shapes.capture "CAPTURE_IQ" (capture_arguments c) n in
      elim (Result-cases response.0) [
        | inr (e, p) ↦ absurd (ground (arith, p))
        | inl (x, p) ↦
            let same : x ≡ r = ground (arith, p) in
            record {
              asked_at = n;
              answered = subst (λ y. response.0 ≡ ok y) same p;
              fulfilled =
                  subst (Fulfils c) same
                    ((validate_capture_response_iff {V = V} c x).0 (ground (arith, p)));
            }
      ]

  capture_in_session-IsCaptured :
      (c : Capture) (n : N) (r : CaptureResponse)
      → (capture_in_session wire shapes c n).0 ≡ ok r
      → IsCaptured c r
  unfolding capture_in_session
  capture_in_session-IsCaptured c n r h =
      let profiled = apply_profile wire shapes c n in
      capture_iq-IsCaptured c profiled.1 r (ground arith)

  run_session-IsCaptured :
      (c : Capture) (n : N) (o : CaptureObservation)
      → (run_session wire shapes c n).0 ≡ ok o
      → (r : CaptureResponse) × IsCaptured c r × (o ≡ observation_of c r)
  unfolding run_session clean_up
  run_session-IsCaptured c n o h =
      let started = start_session wire shapes c.generation n in
      let captured = capture_in_session wire shapes c started.1 in
      elim (Result-cases captured.0) [
        | inr (e, p) ↦ absurd (ground (arith, p))
        | inl (r, p) ↦ (r, capture_in_session-IsCaptured c started.1 r p, ground (arith, p))
      ]

module _ {V N : Type 0} (wire : Wire V N) (observe_shapes : ObserveShapes V) (timeout : ℕ) where
  observe_retrying-Reported :
      (retries : ℕ) (n : N) (snapshot : SdrSnapshot)
      → (observe_retrying wire observe_shapes timeout retries n).0 ≡ ok snapshot
      → (m : N) × Reported wire observe_shapes timeout m snapshot
  unfolding observe_retrying
  observe_retrying-Reported zero n snapshot h =
      (n, sdrd_observe-Reported wire observe_shapes timeout n snapshot h)
  observe_retrying-Reported (suc retries) n snapshot h =
      let once = sdrd_observe wire observe_shapes timeout n in
      elim (Result-cases once.0) [
        | inl (s, p) ↦
            (n, sdrd_observe-Reported wire observe_shapes timeout n snapshot (ground (arith, p)))
        | inr (e, p) ↦ elim (Bool-cases (is_busy e)) [
          | inr other ↦ absurd (ground (arith, p, other))
          | inl busy ↦
              observe_retrying-Reported retries (wire.sleep 10 once.1) snapshot
                (ground (arith, p, busy))
        ]
      ]

module _ {V N : Type 0} (wire : Wire V N) (shapes : ExecuteShapes V)
    (observe_shapes : ObserveShapes V) (timeout : ℕ) where
  -- What an execution of a capture stands for: the observation of a response that the daemon gave and
  -- that keeps the contract, for the plan, and a healthy radio that the daemon reported.
  pub record Executed (plan : ValidatedPlan) (c : Capture) (o : ExecutionObservation) : Type 0 where
    pub response : CaptureResponse
    pub captured : IsCaptured wire shapes c response
    pub observed : o.capture ≡ observation_of c response
    pub same_request : o.request_id ≡ plan.request_id
    pub same_session : o.session_generation ≡ plan.session_generation
    pub online : o.post_execution_sdr.online ≡ true
    pub healthy : o.post_execution_sdr.healthy ≡ true
    pub observed_at : N
    pub reported : Reported wire observe_shapes timeout observed_at o.post_execution_sdr

  -- a plan to capture that was executed with an observation
  abbrev pub Performed : ProposedAction → ValidatedPlan → ExecutionObservation → Type 0
  Performed (capture_bounded_iq id center rate bandwidth samples) plan o =
      Executed plan (capture_of timeout plan id center rate bandwidth samples (samples * 4)) o
  Performed _ plan o = ⊥

  capture_and_observe-Executed :
      (plan : ValidatedPlan) (c : Capture) (n : N) (o : ExecutionObservation)
      → (capture_and_observe wire shapes observe_shapes timeout plan c n).0 ≡ ok o
      → Executed plan c o
  unfolding capture_and_observe observe_after_worker_release
  capture_and_observe-Executed plan c n o h =
      let joined = wire.connect timeout n in
      let checked = check_endpoint wire shapes c.max_bytes joined.1 in
      let session = run_session wire shapes c checked.1 in
      let observed = observe_retrying wire observe_shapes timeout 20 session.1 in
      elim (Result-cases session.0) [
        | inr (e, p) ↦ absurd (ground (arith, p))
        | inl (capture, p) ↦ elim (Result-cases observed.0) [
          | inr (e, q) ↦ absurd (ground (arith, p, q))
          | inl (snapshot, q) ↦
              let f = run_session-IsCaptured wire shapes c checked.1 capture p in
              let taken : o.capture ≡ capture = ground (arith, p, q) in
              let after : o.post_execution_sdr ≡ snapshot = ground (arith, p, q) in
              let report =
                observe_retrying-Reported wire observe_shapes timeout 20 session.1 snapshot q in
              record {
                response = f.0;
                captured = f.1;
                observed = taken ∙ f.2;
                same_request = ground (arith, p, q);
                same_session = ground (arith, p, q);
                online = ground (arith, p, q);
                healthy = ground (arith, p, q);
                observed_at = report.0;
                reported =
                    subst (Reported wire observe_shapes timeout report.0) (sym after) report.1;
              }
        ]
      ]

  sdrd_execute_capture-Executed :
      (plan : ValidatedPlan) (id : String) (center rate bandwidth samples : ℕ) (n : N)
      (o : ExecutionObservation)
      → (sdrd_execute_capture wire shapes observe_shapes timeout plan id center rate bandwidth
          samples n).0
        ≡ ok o
      → Executed plan (capture_of timeout plan id center rate bandwidth samples (samples * 4)) o
  unfolding sdrd_execute_capture
  sdrd_execute_capture-Executed plan id center rate bandwidth samples n o h =
      capture_and_observe-Executed plan
        (capture_of timeout plan id center rate bandwidth samples (samples * 4)) n o (ground arith)

  perform_action-Performed :
      (action : ProposedAction) (plan : ValidatedPlan) (n : N) (o : ExecutionObservation)
      → (perform_action wire shapes observe_shapes timeout plan action n).0 ≡ ok o
      → Performed action plan o
  perform_action-Performed (capture_bounded_iq id center rate bandwidth samples) plan n o h =
      sdrd_execute_capture-Executed plan id center rate bandwidth samples n o h
  perform_action-Performed (survey_band start stop step rate bandwidth dwell) plan n o h =
      absurd (ground (arith, h))
  perform_action-Performed (inspect_candidate id center rate bandwidth dwell) plan n o h =
      absurd (ground (arith, h))
  perform_action-Performed (hold reason) plan n o h = absurd (ground (arith, h))
  perform_action-Performed (run_local_recognition id) plan n o h = absurd (ground (arith, h))
  perform_action-Performed (stop_session reason) plan n o h = absurd (ground (arith, h))

  pub sdrd_execute-Performed :
      (plan : ValidatedPlan) (authorization : ExecutionAuthorization) (n : N)
      (o : ExecutionObservation)
      → (sdrd_execute wire shapes observe_shapes timeout plan authorization n).0 ≡ ok o
      → Authorizes plan authorization × Performed plan.action plan o
  unfolding sdrd_execute
  sdrd_execute-Performed plan authorization n o h =
      elim (Result-cases (validate_authorization {V = V} plan authorization)) [
        | inr (e, p) ↦ absurd (ground (arith, p))
        | inl (_, p) ↦ (
          (validate_authorization_iff plan authorization).0 p,
          perform_action-Performed plan.action plan n o (ground (arith, p)),
        )
      ]
