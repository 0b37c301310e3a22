-- ===== src/Runner/Captured.antt =====
-- What the executor promises of its observations holds of those that a run reports.
use sdr_pi.Base.{
  ◌≡◌, inl, inr, String, ◌&&◌, Option, some, none, ok, arith, Result-cases, Bool-cases,
}
use mathlib.Core.Path.{subst₂}
use sdr_pi.Protocol.{
  PlanRequest, ValidatedPlan, ProposedAction, capture_bounded_iq, survey_band, inspect_candidate,
  hold, run_local_recognition, stop_session,
}
use sdr_pi.Sdr.{SdrSnapshot}
use sdr_pi.Execution.{ExecutionAuthorization, ExecutionObservation}
use sdr_pi.Sweep.{SweepPlan, SweepReport}
use sdr_pi.Runner.Audit.{ApprovalMode, RunReport, Payload, as_str}
use sdr_pi.Runner.State.{Runner, Parts, append_audit}
use sdr_pi.Runner.Sweeps.{report_sweep, execute_sweep}
use sdr_pi.Runner.Once.{
  is_pending, is_executable, authorize, prepare, execute_capture, execute_action, dispatch,
  run_once,
}

module _ {V O P E B A K : Type 0} (parts : Parts V O P E B A K) where
  report_sweep-none :
      (request : PlanRequest) (plan : ValidatedPlan) (swept : SweepReport) (snapshot : SdrSnapshot)
      (id : Option String) (r : Runner O P E B A K) (report : RunReport)
      → (report_sweep parts request plan swept snapshot id r).0 ≡ ok report
      → report.execution ≡ none
  unfolding report_sweep
  report_sweep-none request plan swept snapshot id r report h = ground arith

  execute_sweep-none :
      (request : PlanRequest) (plan : ValidatedPlan) (sweep_plan : SweepPlan) (id : Option String)
      (r : Runner O P E B A K) (report : RunReport)
      → (execute_sweep parts request plan sweep_plan id r).0 ≡ ok report
      → report.execution ≡ none
  unfolding execute_sweep
  execute_sweep-none request plan sweep_plan id r report h =
      ground (arith, report_sweep-none request plan)

module _ {V O P E B A K : Type 0} (parts : Parts V O P E B A K)
    (Holds : ValidatedPlan → ExecutionObservation → Type 0)
    (contract : (plan : ValidatedPlan) (authorization : ExecutionAuthorization) (e : E)
        (o : ExecutionObservation)
      → (parts.executing.execute plan authorization e).0 ≡ ok o
      → Holds plan o) where
  execute_capture-Holds :
      (request : PlanRequest) (plan : ValidatedPlan) (authorization : ExecutionAuthorization)
      (r : Runner O P E B A K) (report : RunReport) (o : ExecutionObservation)
      → (execute_capture parts request plan authorization r).0 ≡ ok report
      → report.execution ≡ some o
      → Holds report.plan o
  unfolding execute_capture
  execute_capture-Holds request plan authorization r report o h q =
      elim (Result-cases (parts.executing.execute plan authorization r.executor).0) [
        | inr (e, p) ↦ absurd (ground (arith, p))
        | inl (x, p) ↦
            let same : x ≡ o = ground (arith, p) in
            let planned : plan ≡ report.plan = ground (arith, p) in
            subst₂ Holds planned same (contract plan authorization r.executor x p)
      ]

  execute_action-Holds :
      (action : ProposedAction) (request : PlanRequest) (plan : ValidatedPlan)
      (authorization : ExecutionAuthorization) (r : Runner O P E B A K) (report : RunReport)
      (o : ExecutionObservation)
      → (execute_action parts action request plan authorization r).0 ≡ ok report
      → report.execution ≡ some o
      → Holds report.plan o
  unfolding execute_action
  execute_action-Holds (capture_bounded_iq id center rate bandwidth samples) request plan
        authorization r report o h q =
      execute_capture-Holds request plan authorization r report o h q
  execute_action-Holds (survey_band start stop step rate bandwidth dwell) request plan authorization
        r report o h q =
      absurd (ground (arith, execute_sweep-none parts request plan _ none r report h, q))
  execute_action-Holds (inspect_candidate id center rate bandwidth dwell) request plan authorization
        r report o h q =
      absurd (ground (arith, execute_sweep-none parts request plan _ (some id) r report h, q))
  execute_action-Holds (hold reason) request plan authorization r report o h q =
      absurd (ground (arith, h, q))
  execute_action-Holds (run_local_recognition id) request plan authorization r report o h q =
      absurd (ground (arith, h, q))
  execute_action-Holds (stop_session reason) request plan authorization r report o h q =
      absurd (ground (arith, h, q))

  dispatch-Holds :
      (approval : ApprovalMode) (request : PlanRequest) (plan : ValidatedPlan)
      (r : Runner O P E B A K) (report : RunReport) (o : ExecutionObservation)
      → (dispatch parts approval (request, plan) r).0 ≡ ok report
      → report.execution ≡ some o
      → Holds report.plan o
  unfolding dispatch
  dispatch-Holds approval request plan r report o h q =
      elim (Bool-cases (plan.approval_required && is_pending approval)) [
        | inl waits ↦ absurd (ground (arith, waits))
        | inr goes ↦ elim (Bool-cases (is_executable plan.action)) [
          | inr idle ↦ absurd (ground (arith, goes, idle))
          | inl runs ↦
              let authorized = authorize parts approval request plan r in
              elim (Result-cases authorized.0) [
                | inr (e, p) ↦ absurd (ground (arith, goes, runs, p))
                | inl (authorization, p) ↦
                    let audited =
                      append_audit parts "authorized" request (Payload.mode (as_str approval))
                        authorized.1 in
                    execute_action-Holds plan.action request plan authorization audited.1 report o
                      (ground (arith, goes, runs, p)) q
              ]
        ]
      ]

  -- If the executor gives an observation for a plan only where a relation holds between the two, that
  -- relation holds between the plan and the observation of a run's report.
  pub run_once-Holds :
      (request : PlanRequest) (approval : ApprovalMode) (r : Runner O P E B A K)
      (report : RunReport) (o : ExecutionObservation)
      → (run_once parts request approval r).0 ≡ ok report
      → report.execution ≡ some o
      → Holds report.plan o
  unfolding run_once
  run_once-Holds request approval r report o h q =
      let prepared = prepare parts request r in
      elim (Result-cases prepared.0) [
        | inr (e, p) ↦ absurd (ground (arith, p))
        | inl ((request', plan), p) ↦
            dispatch-Holds approval request' plan prepared.1 report o (ground (arith, p)) q
      ]
