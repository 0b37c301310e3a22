-- ===== src/Tests/Missions.antt =====
-- A run of the runner whose capture is executed with the daemon of Tests/Devices.
use sdr_pi.Base.{
  ℕ, suc, ◌+◌, ◌*◌, ◌≡◌, ◌⊎◌, refl, inl, inr, true, false, none, some, arith, String, List, [], ◌∷◌,
  Result, ok, err, ◌≤◌, ◌↔◌, pos, is_blank, byte_len, is_control, is_finite, le_f32, all_chars,
}
use sdr_pi.Sdr.Observe.{sdrd_observe}
use sdr_pi.Execution.{ExecutionAuthorization, ExecutionObservation, operator_approved}
use sdr_pi.Execution.Responses.{
  StartResponse, ProfileResponse, CaptureResponse, StatusResponse, StopResponse, CancelResponse,
  ExecuteShapes, validate_capture_response,
}
use sdr_pi.Execution.Adapter.{Capture, capture_of, feature_id_of, sdrd_execute, observe_retrying}
use sdr_pi.Execution.Fulfilled.{Executed}
use sdr_pi.Protocol.{PlanResponse}
use sdr_pi.Controller.{PlannerError}
use sdr_pi.Policy.{
  validate_request, validate_response, validate_limits, validate_candidates, validate_candidate,
  valid_label, validate_frequency, contains_id, validate_latest_sweep, validate_recognition,
  successful_response, validate_action, validate_kind, validate_capture, find_candidate, find_by_id,
  require_sdr_capability,
}
use sdr_pi.Sdr.{SdrSnapshot, replay_engine}
use sdr_pi.Execution.{Queue, replay_executor, validate_authorization}
use sdr_pi.Sweep.{SweepError, BackendSweep, replay_backend}
use sdr_pi.Runner.{
  RunReport, RunStatus, RunnerError, Runner, Parts, AuditEvent, memory_sink, run_once, operator,
  prepare, refreshed, dispatch, append_audit, authorize, execute_action, execute_capture, as_str,
}
use sdr_pi.Runner.Devices.{with_sdrd, run_once-Performed}
use sdr_pi.Tests.Data.{
  test_plan, test_snapshot, test_request, test_response, test_floats, fixed_planner, counter,
}
use sdr_pi.Tests.Devices.{
  Answer, test_wire, execute_shapes, observe_shapes, session, test_observation,
}

-- the parts of Tests/Runs, with no detail of an error looked at, over this daemon
abbrev test_parts :
    Parts Answer
      (List SdrSnapshot)
      (Result PlannerError PlanResponse)
      (Queue Answer)
      (List (Result (SweepError Answer) BackendSweep))
      (List (AuditEvent Answer))
      ℕ
test_parts = record {
  engine = replay_engine;
  planning = fixed_planner;
  executing = replay_executor;
  sweeping = replay_backend;
  auditing = memory_sink;
  timing = counter;
  floats = test_floats;
}

abbrev test_runner :
    Runner
      (List SdrSnapshot)
      (Result PlannerError PlanResponse)
      (List Answer)
      (List (Result (SweepError Answer) BackendSweep))
      (List (AuditEvent Answer))
      ℕ
test_runner = record {
  observer = test_snapshot ∷ [];
  planner = ok test_response;
  executor = session;
  sweep = [];
  survey_gain_db = pos 20;
  sweep_point_timeout_ms = 250;
  audit = [];
  clock = 0;
}

abbrev run_result : Result (RunnerError Answer) RunReport
run_result =
    (run_once (with_sdrd test_parts test_wire execute_shapes observe_shapes 2_000) test_request
      operator test_runner).0

runs :
    run_result
    ≡ ok (record {
      status = RunStatus.executed;
      plan = test_plan;
      execution = some test_observation;
      sweep = none;
      next_observation = test_request.observation;
    })
unfolding run_once prepare refreshed validate_request is_blank byte_len validate_limits
    validate_candidates validate_candidate valid_label is_control validate_frequency is_finite
    contains_id validate_latest_sweep validate_recognition validate_response successful_response
    validate_action validate_kind validate_capture find_candidate find_by_id require_sdr_capability
    le_f32 all_chars dispatch append_audit authorize execute_action execute_capture
    operator_approved validate_authorization as_str sdrd_execute
    sdr_pi.Execution.Adapter.sdrd_execute_capture sdr_pi.Execution.Adapter.feature_id_of
    sdr_pi.Base.decimal sdr_pi.Execution.Adapter.capture_and_observe
    sdr_pi.Execution.Adapter.check_endpoint sdr_pi.Execution.Adapter.run_session
    sdr_pi.Execution.Adapter.start_session sdr_pi.Execution.Adapter.capture_in_session
    sdr_pi.Execution.Adapter.apply_profile sdr_pi.Execution.Adapter.capture_iq
    sdr_pi.Execution.Responses.validate_capture_response sdr_pi.Execution.Adapter.confirm_status
    sdr_pi.Execution.Adapter.stop_session sdr_pi.Execution.Adapter.quit_session
    sdr_pi.Base.decimal_digits sdr_pi.Base.digit sdr_pi.Base.contains_text
    sdr_pi.Execution.Adapter.observe_after_worker_release observe_retrying sdrd_observe
runs = refl

run_once-Performed_example :
    Executed test_wire execute_shapes observe_shapes 2_000 test_plan
      (capture_of 2_000 test_plan "candidate-1" 2_437_000_000 10_000_000 8_000_000 524_288
        2_097_152)
      test_observation
run_once-Performed_example =
    run_once-Performed test_parts test_wire execute_shapes observe_shapes 2_000 test_request
      operator test_runner
      (record {
        status = RunStatus.executed;
        plan = test_plan;
        execution = some test_observation;
        sweep = none;
        next_observation = test_request.observation;
      })
      test_observation runs refl
