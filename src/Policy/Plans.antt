-- ===== src/Policy/Plans.antt =====
-- What holds of a plan that `validate_response` makes of a planner response, and of its errors.
use sdr_pi.Base.{
  ◌≤◌, ◌≡◌, ◌↔◌, inl, inr, Bool, true, ok, arith, some, none, Option-cases, Result-cases,
}
use mathlib.Core.Path.{subst}
use sdr_pi.Protocol.{PlanRequest, PlanResponse, PlanStatus, ProposedAction, ValidatedPlan}
use sdr_pi.Policy.Checks.{valid_label}
use sdr_pi.Policy.Action.{validate_action}
use sdr_pi.Policy.Response.{failed_response, successful_response, validate_response}
use sdr_pi.Policy.Bounds.{IsLimits}
use sdr_pi.Policy.Allowed.{IsAllowed, approval, validate_action_iff}

-- The response answers the request and proposes the plan's action, which is allowed.
pub record IsAnswer (request : PlanRequest) (response : PlanResponse) (plan : ValidatedPlan)
    : Type 0 where
  pub version : response.protocol_version ≡ 1
  pub same_request : response.request_id ≡ request.request_id
  pub same_session : response.session_generation ≡ request.session_generation
  pub provider : valid_label response.planner.provider 64 ≡ true
  pub model : valid_label response.planner.model 128 ≡ true
  pub succeeded : response.status ≡ PlanStatus.ok
  pub no_error : response.error ≡ none
  pub proposed : response.action ≡ some plan.action
  pub plan_request : plan.request_id ≡ request.request_id
  pub plan_session : plan.session_generation ≡ request.session_generation
  pub plan_planner : plan.planner ≡ response.planner
  pub plan_approval : plan.approval_required ≡ approval request plan.action
  pub allowed : IsAllowed request plan.action

module _ (request : PlanRequest) (response : PlanResponse) (plan : ValidatedPlan) where
  action-IsAnswer :
      (action : ProposedAction) (b : Bool)
      → response.action ≡ some action
      → validate_action request action ≡ ok b
      → (b ≡ approval request action) × IsAllowed request action
      → validate_response request response ≡ ok plan
      → IsAnswer request response plan
  unfolding validate_response successful_response failed_response
  action-IsAnswer action b e v a h =
      let same : action ≡ plan.action = ground arith in
      record {
        version = ground arith;
        same_request = ground arith;
        same_session = ground arith;
        provider = ground arith;
        model = ground arith;
        succeeded = ground arith;
        no_error = ground arith;
        proposed = ground arith;
        plan_request = ground arith;
        plan_session = ground arith;
        plan_planner = ground arith;
        plan_approval = ground arith;
        allowed = subst (IsAllowed request) same a.1;
      }

  response_answers :
      IsLimits request.limits
      → request.limits.max_iq_bytes ≤ 18446744073709551615
      → validate_response request response ≡ ok plan
      → IsAnswer request response plan
  unfolding validate_response successful_response failed_response
  response_answers l w h = elim (Option-cases response.action) [
    | inl missing ↦ absurd (ground arith)
    | inr (action, e) ↦ elim (Result-cases (validate_action request action)) [
      | inl (b, v) ↦ action-IsAnswer action b e v ((validate_action_iff request action b l w).0 v) h
      | inr (x, v) ↦ absurd (ground arith)
    ]
  ]

  answer_accepted :
      IsLimits request.limits
      → request.limits.max_iq_bytes ≤ 18446744073709551615
      → IsAnswer request response plan
      → validate_response request response ≡ ok plan
  unfolding validate_response successful_response
  answer_accepted l w a = ground (
    arith,
    (validate_action_iff request plan.action plan.approval_required l w).1
        (a.plan_approval, a.allowed),
  )

  -- Under valid limits with a byte limit that fits in 64 bits, a planner response becomes a plan
  -- exactly when it answers this request in this session with success and no error, names a valid
  -- planner and proposes the plan's action, which is allowed, with the approval flag that its size
  -- calls for.
  pub validate_response_iff :
      IsLimits request.limits
      → request.limits.max_iq_bytes ≤ 18446744073709551615
      → (validate_response request response ≡ ok plan) ↔ IsAnswer request response plan
  validate_response_iff l w = (response_answers l w, answer_accepted l w)
