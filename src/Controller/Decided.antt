-- ===== src/Controller/Decided.antt =====
-- What `Controller::decide` returns.
use sdr_pi.Base.{◌≤◌, ◌≡◌, inl, inr, ok, err, arith, Result-cases}
use sdr_pi.Protocol.{PlanRequest, PlanResponse, ValidatedPlan}
use sdr_pi.Policy.{PolicyError, validate_request, validate_response}
use sdr_pi.Policy.Accepted.{IsRequest, validate_request-IsRequest}
use sdr_pi.Policy.Plans.{IsAnswer, validate_response_iff}
use sdr_pi.Controller.{Planner, ControllerError, decide}

module _ {P : Type 0} (planner : Planner P) where
  -- With a byte limit that fits in 64 bits, a decision is a plan only for a valid request, and only
  -- one that the planner's response to that request answers it with.
  pub decide-IsAnswer :
      (request : PlanRequest) (plan : ValidatedPlan) (s : P)
      → request.limits.max_iq_bytes ≤ 18446744073709551615
      → (decide planner request s).0 ≡ ok plan
      → IsRequest request
        × ((response : PlanResponse) × ((planner.plan request s).0 ≡ ok response)
            × IsAnswer request response plan)
  unfolding decide
  decide-IsAnswer request plan s w h = elim (Result-cases (validate_request request)) [
    | inr (e, refused) ↦ absurd (ground (arith, refused))
    | inl (_, accepted) ↦
        let valid = validate_request-IsRequest request accepted in
        elim (Result-cases (planner.plan request s).0) [
          | inr (e, failed) ↦ absurd (ground (arith, accepted, failed))
          | inl (response, planned) ↦
              let answered : validate_response request response ≡ ok plan =
                ground (arith, accepted, planned) in
              (
                valid,
                (
                  response,
                  planned,
                  (validate_response_iff request response plan valid.limits_valid w).0 answered,
                ),
              )
        ]
  ]

  -- A request that the policy refuses is the controller's policy error, and the planner is not
  -- called.
  pub decide-refused :
      (request : PlanRequest) (e : PolicyError) (s : P)
      → validate_request request ≡ err e
      → decide planner request s ≡ (err (ControllerError.policy e), s)
  unfolding decide
  decide-refused request e s h = ground (arith, h)
