-- ===== src/Tests/Policies.antt =====
-- Tests of the policy and of the controller.
use sdr_pi.Base.{
  ◌≡◌, refl, true, none, some, ok, err, arith, is_blank, byte_len, is_control, is_finite,
}
use sdr_pi.Protocol.{faulted, PlanStatus, PlanResponse}
use sdr_pi.Policy.{
  valid_label, validate_request, validate_response, validate_action, validate_limits,
  validate_candidates,
}
use sdr_pi.Policy.Bounds.{IsLimits}
use sdr_pi.Policy.Allowed.{IsAllowed, approval, validate_action_iff}
use sdr_pi.Policy.Accepted.{IsRequest, validate_request-IsRequest}
use sdr_pi.Policy.Plans.{IsAnswer, validate_response_iff}
use sdr_pi.Controller.{decide}
use sdr_pi.Controller.Decided.{decide-IsAnswer}
use sdr_pi.Tests.Data.{
  test_limits, test_request, test_capture, test_response, test_plan, fixed_planner,
}

pub test_limits-IsLimits : IsLimits test_limits
test_limits-IsLimits = ground arith

request_accepted : validate_request test_request ≡ ok tt
unfolding validate_request is_blank byte_len validate_limits validate_candidates
    sdr_pi.Policy.validate_candidate valid_label is_control sdr_pi.Policy.validate_frequency
    is_finite sdr_pi.Policy.contains_id sdr_pi.Policy.validate_latest_sweep
    sdr_pi.Policy.validate_recognition
request_accepted = refl

capture_accepted : validate_action test_request test_capture ≡ ok true
unfolding validate_action sdr_pi.Policy.validate_kind sdr_pi.Policy.validate_capture
    sdr_pi.Policy.require_sdr_capability sdr_pi.Policy.find_candidate sdr_pi.Policy.find_by_id
    sdr_pi.Policy.validate_frequency
capture_accepted = refl

response_accepted : validate_response test_request test_response ≡ ok test_plan
unfolding validate_response valid_label is_blank byte_len is_control
    sdr_pi.Policy.successful_response validate_action sdr_pi.Policy.validate_kind
    sdr_pi.Policy.validate_capture sdr_pi.Policy.require_sdr_capability sdr_pi.Policy.find_candidate
    sdr_pi.Policy.find_by_id sdr_pi.Policy.validate_frequency
response_accepted = refl

-- a capture is refused while the controller is faulted
faulted_refused :
    validate_action (record test_request { state = faulted }) test_capture
    ≡ err (record {
      code = "faulted_state";
      message = "only hold or stop is allowed while the controller is faulted";
    })
unfolding validate_action
faulted_refused = refl

-- a response of an older session is stale
stale_refused :
    validate_response test_request (record test_response { session_generation = 6 })
    ≡ err (record {
      code = "stale_session_generation";
      message = "planner response belongs to a stale controller session";
    })
unfolding validate_response
stale_refused = refl

validate_action_iff_example :
    (true ≡ approval test_request test_capture) × IsAllowed test_request test_capture
validate_action_iff_example =
    (validate_action_iff test_request test_capture true test_limits-IsLimits (omega arith)).0
      capture_accepted

validate_response_iff_example : IsAnswer test_request test_response test_plan
validate_response_iff_example =
    (validate_response_iff test_request test_response test_plan test_limits-IsLimits
        (omega arith)).0
      response_accepted

validate_request-IsRequest_example : IsRequest test_request
validate_request-IsRequest_example = validate_request-IsRequest test_request request_accepted

abbrev failed_plan : PlanResponse
failed_plan = record test_response {
  status = PlanStatus.unavailable;
  action = none;
  error = some "model timeout";
}

decided : (decide fixed_planner test_request (ok test_response)).0 ≡ ok test_plan
unfolding decide
decided = ground (arith, request_accepted, response_accepted)

decide-IsAnswer_example :
    IsRequest test_request
    × ((response : PlanResponse) × ((fixed_planner.plan test_request (ok test_response)).0
          ≡ ok response)
        × IsAnswer test_request response test_plan)
decide-IsAnswer_example =
    decide-IsAnswer fixed_planner test_request test_plan (ok test_response) (omega arith) decided
