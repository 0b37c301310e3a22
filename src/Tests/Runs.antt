-- ===== src/Tests/Runs.antt =====
-- Tests of the runner, with the replaying parts of the source.
use sdr_pi.Base.{
  ℕ, ◌-◌, ◌≡◌, ◌⊎◌, pos, refl, none, ok, err, arith, List, [], ◌∷◌, Result, String, length, map,
  is_blank, byte_len, is_control, is_finite, le_f32, all_chars,
}
use sdr_pi.Protocol.{PlanResponse}
use sdr_pi.Controller.{PlannerError}
use sdr_pi.Policy.{
  validate_request, validate_response, validate_limits, validate_candidates, validate_candidate,
  valid_label, validate_frequency, contains_id, validate_latest_sweep, validate_recognition,
  successful_response, validate_action, validate_kind, validate_capture, find_candidate, find_by_id,
  require_sdr_capability,
}
use sdr_pi.Policy.Survey.{IsSurvey, point_count}
use sdr_pi.Sdr.{SdrSnapshot, replay_engine}
use sdr_pi.Execution.{
  ExecutionObservation, Queue, replay_executor, replay_execute, operator_approved,
  validate_authorization, ExecutionAuthorization,
}
use sdr_pi.Execution.Granted.{Authorizes, replay_execute-Authorizes}
use sdr_pi.Sweep.{
  SweepError, BackendSweep, replay_backend, ValidatedSweepPlan, validate_plan, sweep_error,
}
use sdr_pi.Sweep.Grid.{grid}
use sdr_pi.Runner.{
  ApprovalMode, operator, pending, RunReport, RunnerError, Runner, Parts, AuditEvent, run_once,
  prepare, refreshed, dispatch, append_audit, authorize, execute_action, execute_capture, as_str,
  survey_plan,
}
use sdr_pi.Runner.Called.{Untouched}
use sdr_pi.Runner.Allowed.{IsCleared, run_once-IsCleared}
use sdr_pi.Runner.Entries.{entries, journal}
use sdr_pi.Runner.Trail.{Trail}
use sdr_pi.Runner.Surveys.{survey_plan-accepted, slow_survey-refused}
use sdr_pi.Tests.Data.{
  test_request, test_response, test_plan, test_snapshot, test_execution, test_floats, fixed_planner,
  counter,
}
use sdr_pi.Tests.Policies.{test_limits-IsLimits}

-- no detail of an error is looked at
abbrev Details : Type 0
Details = ℕ

abbrev TestRunner : Type 0
TestRunner =
    Runner (List SdrSnapshot) (Result PlannerError PlanResponse) (Queue Details)
      (List (Result (SweepError Details) BackendSweep)) (List (AuditEvent Details)) ℕ

abbrev test_runner : TestRunner
test_runner = record {
  observer = test_snapshot ∷ [];
  planner = ok test_response;
  executor = ok test_execution ∷ [];
  sweep = [];
  survey_gain_db = pos 20;
  sweep_point_timeout_ms = 250;
  audit = [];
  clock = 0;
}

abbrev test_parts :
    Parts Details
      (List SdrSnapshot)
      (Result PlannerError PlanResponse)
      (Queue Details)
      (List (Result (SweepError Details) BackendSweep))
      (List (AuditEvent Details))
      ℕ
test_parts = record {
  engine = replay_engine;
  planning = fixed_planner;
  executing = replay_executor;
  sweeping = replay_backend;
  auditing = journal (λ event events. none);
  timing = counter;
  floats = test_floats;
}

abbrev run_of : ApprovalMode → Result (RunnerError Details) RunReport × TestRunner
run_of mode = run_once test_parts test_request mode test_runner

-- what a run records, the newest event first
abbrev trail_of : ApprovalMode → List String
trail_of mode = map (λ entry. entry.0) (entries (run_of mode).1)

-- the plan waits for an operator, and the executor keeps its queue
pending_waits :
    trail_of pending
    ≡ "awaiting_approval" ∷ "validated_plan" ∷ "planner_proposal" ∷ "input_observation" ∷ []
unfolding run_once prepare refreshed validate_request is_blank byte_len validate_limits
    validate_candidates validate_candidate valid_label is_control validate_frequency is_finite
    contains_id validate_latest_sweep validate_recognition validate_response successful_response
    validate_action validate_kind validate_capture find_candidate find_by_id require_sdr_capability
    le_f32 all_chars dispatch append_audit authorize execute_action execute_capture
    operator_approved validate_authorization as_str
pending_waits = refl

pending_untouched : length (run_of pending).1.executor ≡ 1
unfolding run_once prepare refreshed validate_request is_blank byte_len validate_limits
    validate_candidates validate_candidate valid_label is_control validate_frequency is_finite
    contains_id validate_latest_sweep validate_recognition validate_response successful_response
    validate_action validate_kind validate_capture find_candidate find_by_id require_sdr_capability
    le_f32 all_chars dispatch append_audit authorize execute_action execute_capture
    operator_approved validate_authorization as_str
pending_untouched = refl

-- an operator's approval executes it
operator_executes : length (run_of operator).1.executor ≡ 0
unfolding run_once prepare refreshed validate_request is_blank byte_len validate_limits
    validate_candidates validate_candidate valid_label is_control validate_frequency is_finite
    contains_id validate_latest_sweep validate_recognition validate_response successful_response
    validate_action validate_kind validate_capture find_candidate find_by_id require_sdr_capability
    le_f32 all_chars dispatch append_audit authorize execute_action execute_capture
    operator_approved validate_authorization as_str
operator_executes = refl

run_once-IsCleared_example :
    Untouched test_runner (run_of operator).1
    ⊎ IsCleared test_parts test_request operator test_runner (run_of operator).1
run_once-IsCleared_example =
    run_once-IsCleared test_parts test_request operator test_runner (omega arith)

replayed :
    (replay_execute {V = Details} test_plan
      (operator_approved test_plan)
      (ok test_execution ∷ [])).0
    ≡ ok test_execution
unfolding operator_approved sdr_pi.Execution.validate_authorization
replayed = refl

replay_execute-Authorizes_example :
    Authorizes test_plan (operator_approved test_plan)
    × (test_execution.request_id ≡ 42)
    × (test_execution.session_generation ≡ 7)
    × ((ok test_execution ∷ [])
        ≡ ok test_execution
          ∷ (replay_execute {V = Details} test_plan
              (operator_approved test_plan)
              (ok test_execution ∷ [])).1)
replay_execute-Authorizes_example =
    replay_execute-Authorizes test_plan (operator_approved test_plan) (ok test_execution ∷ [])
      test_execution replayed

quick-IsSurvey : IsSurvey test_request 100_000_000 112_000_000 5_000_000 10_000_000 8_000_000 500
quick-IsSurvey = ground arith

slow-IsSurvey : IsSurvey test_request 100_000_000 112_000_000 5_000_000 10_000_000 8_000_000 2_000
slow-IsSurvey = ground arith

survey_plan-accepted_example :
    (v : ValidatedSweepPlan) × (validate_plan {V = Details} (
        survey_plan test_plan 100_000_000 112_000_000 5_000_000 10_000_000 8_000_000 500 250
          (pos 20))
      ≡ ok v)
    × (v.centers_hz ≡ grid 112_000_000 5_000_000 100_000_000 3)
    × (length v.centers_hz ≡ point_count (112_000_000 - 100_000_000) 5_000_000)
survey_plan-accepted_example =
    survey_plan-accepted test_request test_plan 100_000_000 112_000_000 5_000_000 10_000_000
      8_000_000 500 250 (pos 20) test_limits-IsLimits quick-IsSurvey (omega arith) (omega arith)
      (omega arith) (omega arith) refl

slow_survey-refused_example :
    validate_plan {V = Details} (
      survey_plan test_plan 100_000_000 112_000_000 5_000_000 10_000_000 8_000_000 2_000 250
        (pos 20))
    ≡ err (
        sweep_error "summary_profile"
          "settle, frame, aggregate, timeout, or threshold is outside limits")
slow_survey-refused_example =
    slow_survey-refused test_request test_plan 100_000_000 112_000_000 5_000_000 10_000_000
      8_000_000 2_000 250 (pos 20) test_limits-IsLimits slow-IsSurvey (omega arith) (omega arith)
      refl
