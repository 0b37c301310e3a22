-- ===== src/Policy/Response.antt =====
-- policy.rs: `ControllerPolicy::validate_response`.
use sdr_pi.Base.{
  String, Bool, true, false, not, ◌&&◌, ok, ok_or, Option, none, some, ◌>>=◌, ◌>>◌, leb, ◌==◌,
  if◌then◌else◌, byte_len, is_blank,
}
use sdr_pi.Protocol.{PlanRequest, PlanResponse, PlanStatus, ValidatedPlan, protocol_version}
use sdr_pi.Policy.Checks.{Checked, policy_error, require, valid_label}
use sdr_pi.Policy.Action.{validate_action}

abbrev pub is_ok : PlanStatus → Bool
is_ok PlanStatus.ok = true
is_ok PlanStatus.error = false
is_ok PlanStatus.unavailable = false

abbrev pub is_none : {A : Type 0} → Option A → Bool
is_none none = true
is_none (some _) = false

abbrev pub unbounded_message : String
unbounded_message = "planner failed without a bounded error message"

-- `error.filter(..).unwrap_or_else(..)`
unfoldable pub bounded_message : Option String → String
bounded_message none = unbounded_message
bounded_message (some value) =
    if not (is_blank value) && leb (byte_len value) 512 then value else unbounded_message

-- the branch of a response whose status is not `ok`
unfoldable pub failed_response : PlanResponse → Checked ValidatedPlan
failed_response response = do
  require (is_none response.action) "planner_error_action"
      "failed planner response must not contain an action"
  policy_error "planner_unavailable" (bounded_message response.error)

-- the branch of a response whose status is `ok`
unfoldable pub successful_response : PlanRequest → PlanResponse → Checked ValidatedPlan
successful_response request response = do
  require (is_none response.error) "planner_ok_error"
      "successful planner response must not contain an error"
  action ←
      ok_or response.action
        (record { code = "planner_missing_action"; message = "planner returned no action" })
  approval_required ← validate_action request action
  ok (record {
    request_id = request.request_id;
    session_generation = request.session_generation;
    approval_required = approval_required;
    action = action;
    planner = response.planner;
  })

unfoldable pub validate_response : PlanRequest → PlanResponse → Checked ValidatedPlan
validate_response request response = do
  require (response.protocol_version == protocol_version) "response_protocol_version"
      "planner returned an unsupported protocol version"
  require (response.request_id == request.request_id) "response_request_id"
      "planner response does not match the request"
  require (response.session_generation == request.session_generation) "stale_session_generation"
      "planner response belongs to a stale controller session"
  require (valid_label response.planner.provider 64) "planner_provider" "invalid planner provider"
  require (valid_label response.planner.model 128) "planner_model" "invalid planner model"
  (if is_ok response.status then successful_response request response else failed_response response)
