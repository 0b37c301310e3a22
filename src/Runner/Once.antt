-- ===== src/Runner/Once.antt =====
-- runner.rs: `Runner::run_once`, in the phases of its text.
use sdr_pi.Base.{String, Bool, true, false, not, ◌&&◌, none, some, Result, if◌then◌else◌, ◌+++◌}
use sdr_pi.Protocol.{
  PlanRequest, ValidatedPlan, ObservationSummary, ProposedAction, survey_band, inspect_candidate,
  capture_bounded_iq,
}
use sdr_pi.Policy.{PolicyError, validate_request, validate_response}
use sdr_pi.Controller.{PlannerError, ControllerError}
use sdr_pi.Sdr.{SdrError, SdrSnapshot, planner_health}
use sdr_pi.Execution.{ExecutionAuthorization, ExecutionObservation}
use sdr_pi.Execution as Execution
use sdr_pi.Runner.Audit.{
  ApprovalMode, pending, automatic, operator, as_str, Payload, RunnerError, RunReport, RunStatus,
}
use sdr_pi.Runner.State.{
  Runner, Parts, Action, ◌>>=◌, ◌>>◌, pure, attempt, ignore, or_report, call_observe, call_planner,
  call_executor, append_audit, audit_sdr_failure,
}
use sdr_pi.Runner.Sweeps.{survey_plan, inspection_plan, execute_sweep}

-- the request with the health of a live observation
unfoldable pub refreshed : PlanRequest → SdrSnapshot → PlanRequest
refreshed request live = record request {
  observation = record (request.observation) {
    age_ms = 0;
    health =
        planner_health live request.observation.health.recognizer_available
          request.observation.health.dropped_observations;
  };
}

-- `matches!(plan.action, CaptureBoundedIq | SurveyBand | InspectCandidate)`
abbrev pub is_executable : ProposedAction → Bool
is_executable (capture_bounded_iq id center rate bandwidth samples) = true
is_executable (survey_band start stop step rate bandwidth dwell) = true
is_executable (inspect_candidate id center rate bandwidth dwell) = true
is_executable _ = false

abbrev pub is_pending : ApprovalMode → Bool
is_pending pending = true
is_pending automatic = false
is_pending operator = false

-- a report of a run that executed nothing
abbrev pub not_run : RunStatus → ValidatedPlan → ObservationSummary → RunReport
not_run status plan observation = record {
  status = status;
  plan = plan;
  execution = none;
  sweep = none;
  next_observation = observation;
}

abbrev pub policy_failed : {V : Type 0} → PolicyError → RunnerError V
policy_failed e = RunnerError.controller (ControllerError.policy e)

abbrev pub planner_failed : {V : Type 0} → PlannerError → RunnerError V
planner_failed e = RunnerError.controller (ControllerError.planner e)

-- `error.to_string()`
abbrev pub planner_text : PlannerError → String
planner_text e = e.kind +++ ": " +++ e.message

module _ {V O P E B A K : Type 0} (parts : Parts V O P E B A K) where
  -- from the observation to the validated plan
  unfoldable pub prepare :
      PlanRequest → Action (Runner O P E B A K) (RunnerError V) (PlanRequest × ValidatedPlan)
  unfolding append_audit
  prepare given = do
    observed ← attempt (call_observe parts)
    live ←
        or_report observed
          (λ e. append_audit parts "observation_failed" given (Payload.sdr_failure e))
          RunnerError.sdr
    let request = refreshed given live
    append_audit parts "input_observation" request (Payload.observation request.observation)
    or_report (validate_request request)
        (λ e. append_audit parts "request_rejected" request (Payload.policy_failure e))
        policy_failed
    planned ← attempt (call_planner parts request)
    response ←
        or_report planned
          (λ e.
            append_audit parts "planning_failed" request
              (Payload.planning_failure (planner_text e)))
          planner_failed
    append_audit parts "planner_proposal" request (Payload.proposal response)
    plan ←
        or_report (validate_response request response)
          (λ e. append_audit parts "validation_failed" request (Payload.policy_failure e))
          policy_failed
    append_audit parts "validated_plan" request (Payload.plan plan)
    pure (request, plan)

  -- a refused authorization is audited if it can be
  unfoldable pub granted :
      PlanRequest
      → Result (SdrError V) ExecutionAuthorization
      → Action (Runner O P E B A K) (RunnerError V) ExecutionAuthorization
  unfolding append_audit
  granted request authorization =
      or_report authorization
        (λ e.
          ignore (
            append_audit parts "authorization_rejected" request (Payload.refused e.code e.message)))
        RunnerError.sdr

  -- `match approval`
  unfoldable pub authorize :
      ApprovalMode
      → PlanRequest
      → ValidatedPlan
      → Action (Runner O P E B A K) (RunnerError V) ExecutionAuthorization
  unfolding granted
  authorize operator request plan = pure (Execution.operator_approved plan)
  authorize automatic request plan = granted request (Execution.automatic plan)
  authorize pending request plan = granted request (Execution.automatic plan)

  unfoldable pub execute_capture :
      PlanRequest
      → ValidatedPlan
      → ExecutionAuthorization
      → Action (Runner O P E B A K) (RunnerError V) RunReport
  unfolding append_audit audit_sdr_failure
  execute_capture request plan authorization = do
    executed ← attempt (call_executor parts plan authorization)
    execution ← or_report executed (audit_sdr_failure parts request) RunnerError.sdr
    let next_observation = record (request.observation) {
      age_ms = 0;
      health =
          planner_health execution.post_execution_sdr
            request.observation.health.recognizer_available
            request.observation.health.dropped_observations;
    }
    append_audit parts "execution_observation" request (Payload.execution execution)
    pure (record {
      status = RunStatus.executed;
      plan = plan;
      execution = some execution;
      sweep = none;
      next_observation = next_observation;
    })

  -- `match &plan.action`; the other actions returned before, and what stands for the panic of
  -- `unreachable!` is not reached
  unfoldable pub execute_action :
      ProposedAction
      → PlanRequest
      → ValidatedPlan
      → ExecutionAuthorization
      → Action (Runner O P E B A K) (RunnerError V) RunReport
  unfolding execute_capture execute_sweep
  execute_action (capture_bounded_iq id center rate bandwidth samples) request plan authorization
        r =
      execute_capture request plan authorization r
  execute_action (survey_band start stop step rate bandwidth dwell) request plan authorization r =
      execute_sweep parts request plan
        (survey_plan plan start stop step rate bandwidth dwell r.sweep_point_timeout_ms
          r.survey_gain_db)
        none r
  execute_action (inspect_candidate id center rate bandwidth dwell) request plan authorization r =
      execute_sweep parts request plan
        (inspection_plan plan center rate bandwidth dwell r.sweep_point_timeout_ms r.survey_gain_db)
        (some id) r
  execute_action _ request plan authorization r =
      pure (not_run RunStatus.planned_only plan request.observation) r

  -- from the validated plan to the report
  unfoldable pub dispatch :
      ApprovalMode
      → PlanRequest × ValidatedPlan
      → Action (Runner O P E B A K) (RunnerError V) RunReport
  unfolding append_audit authorize
  dispatch approval (request, plan) =
      if plan.approval_required && is_pending approval
      then append_audit parts "awaiting_approval" request Payload.approval_required
        >> pure (not_run RunStatus.awaiting_approval plan request.observation)
      else if not (is_executable plan.action)
      then append_audit parts "planned_only" request
          (Payload.no_executor "no production executor for this action")
        >> pure (not_run RunStatus.planned_only plan request.observation)
      else (do
        authorization ← authorize approval request plan
        append_audit parts "authorized" request (Payload.mode (as_str approval))
        execute_action plan.action request plan authorization)

  unfoldable pub run_once :
      PlanRequest → ApprovalMode → Action (Runner O P E B A K) (RunnerError V) RunReport
  run_once request approval = prepare request >>= dispatch approval
