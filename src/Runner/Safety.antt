-- ===== src/Runner/Safety.antt =====
-- When a run calls the executor or the sweep backend.
use sdr_pi.Base.{
  ◌≡◌, ◌⊎◌, inl, inr, refl, sym, ◌∙◌, true, ◌&&◌, String, ok, arith, Result-cases, Bool-cases,
}
use mathlib.Core.Path.{subst}
use sdr_pi.Protocol.{PlanRequest, PlanResponse, ValidatedPlan}
use sdr_pi.Policy.{validate_request, validate_response}
use sdr_pi.Sdr.{SdrSnapshot}
use sdr_pi.Execution.{ExecutionAuthorization}
use sdr_pi.Execution as Execution
use sdr_pi.Execution.Granted.{Authorizes, automatic_iff}
use sdr_pi.Runner.Audit.{ApprovalMode, pending, automatic, operator, Payload, as_str}
use sdr_pi.Runner.State.{Runner, Parts, append_audit}
use sdr_pi.Runner.Once.{
  refreshed, is_pending, is_executable, authorize, prepare, execute_action, dispatch, run_once,
}
use sdr_pi.Runner.Called.{Untouched, Called, Called-after, execute_action-Called}

Untouched-trans :
    {O P E B A K : Type 0} {r r1 r2 : Runner O P E B A K}
    → Untouched r r1
    → Untouched r1 r2
    → Untouched r r2
Untouched-trans a b = record {
  executor = b.executor ∙ a.executor;
  sweep = b.sweep ∙ a.sweep;
  gain = b.gain ∙ a.gain;
  timeout = b.timeout ∙ a.timeout;
}

module _ {V O P E B A K : Type 0} (parts : Parts V O P E B A K) where
  -- The engine observed the radio, the request with what it observed is valid, and the planner's
  -- response to that request became the plan.
  pub record IsPrepared (given : PlanRequest) (r : Runner O P E B A K) (request : PlanRequest)
      (plan : ValidatedPlan) : Type 0 where
    pub live : SdrSnapshot
    pub response : PlanResponse
    pub observed : (parts.engine.observe r.observer).0 ≡ ok live
    pub refreshed_request : request ≡ refreshed given live
    pub request_valid : validate_request request ≡ ok tt
    pub responded : (parts.planning.plan request r.planner).0 ≡ ok response
    pub response_valid : validate_response request response ≡ ok plan

  audit-Untouched :
      (phase : String) (request : PlanRequest) (payload : Payload V) (r : Runner O P E B A K)
      → Untouched r (append_audit parts phase request payload r).1
  unfolding append_audit
  audit-Untouched phase request payload r = ground arith

  prepare-Untouched :
      (request : PlanRequest) (r : Runner O P E B A K) → Untouched r (prepare parts request r).1
  unfolding prepare
  prepare-Untouched request r = ground arith

  prepare-IsPrepared :
      (given request : PlanRequest) (plan : ValidatedPlan) (r : Runner O P E B A K)
      → (prepare parts given r).0 ≡ ok (request, plan)
      → IsPrepared given r request plan
  unfolding prepare
  prepare-IsPrepared given request plan r h =
      elim (Result-cases (parts.engine.observe r.observer).0) [
        | inr (x, e) ↦ absurd (ground arith)
        | inl (live, e) ↦
            elim (Result-cases (parts.planning.plan (refreshed given live) r.planner).0) [
              | inr (x, p) ↦ absurd (ground arith)
              | inl (response, p) ↦
                  let same : request ≡ refreshed given live = ground arith in
                  record {
                    live = live;
                    response = response;
                    observed = e;
                    refreshed_request = same;
                    request_valid = ground arith;
                    responded =
                        subst (λ q. (parts.planning.plan q r.planner).0 ≡ ok response) (sym same) p;
                    response_valid = ground arith;
                  }
            ]
      ]

  authorize-Untouched :
      (approval : ApprovalMode) (request : PlanRequest) (plan : ValidatedPlan)
      (r : Runner O P E B A K)
      → Untouched r (authorize parts approval request plan r).1
  unfolding authorize
  authorize-Untouched operator request plan r = ground arith
  authorize-Untouched automatic request plan r = ground arith
  authorize-Untouched pending request plan r = ground arith

  -- an authorization of the plan, which an operator approved if it wants approval
  authorize-Authorizes :
      (approval : ApprovalMode) (request : PlanRequest) (plan : ValidatedPlan)
      (r : Runner O P E B A K) (authorization : ExecutionAuthorization)
      → (authorize parts approval request plan r).0 ≡ ok authorization
      → Authorizes plan authorization × (plan.approval_required ≡ true → approval ≡ operator)
  unfolding authorize Execution.operator_approved
  authorize-Authorizes operator request plan r a h = (
    record {
      same_request = ground arith;
      same_session = ground arith;
      approved = λ q. ground arith;
    },
    λ q. refl,
  )
  authorize-Authorizes automatic request plan r a h =
      let granted = (automatic_iff {V = V} plan a).0 (ground arith) in
      (granted.2, λ q. absurd (ground (arith, q, granted.0)))
  authorize-Authorizes pending request plan r a h =
      let granted = (automatic_iff {V = V} plan a).0 (ground arith) in
      (granted.2, λ q. absurd (ground (arith, q, granted.0)))

  dispatch-Called :
      (approval : ApprovalMode) (request : PlanRequest) (plan : ValidatedPlan)
      (r : Runner O P E B A K)
      → Untouched r (dispatch parts approval (request, plan) r).1
        ⊎ (plan.approval_required ≡ true → approval ≡ operator)
          × Called parts plan.action plan r.executor r.sweep r.sweep_point_timeout_ms
              r.survey_gain_db
              (dispatch parts approval (request, plan) r).1
  unfolding dispatch
  dispatch-Called approval request plan r =
      let all = dispatch parts approval (request, plan) r in
      let authorized = authorize parts approval request plan r in
      let kept = authorize-Untouched approval request plan r in
      let audited =
        append_audit parts "authorized" request (Payload.mode (as_str approval)) authorized.1 in
      let before =
        Untouched-trans kept
          (audit-Untouched "authorized" request (Payload.mode (as_str approval)) authorized.1) in
      elim (Bool-cases (plan.approval_required && is_pending approval)) [
        | inl waits ↦
            let audit =
              append_audit parts "awaiting_approval" request Payload.approval_required r in
            let ended : audit.1 ≡ all.1 = ground (arith, waits) in
            inl (
              subst (Untouched r) ended
                (audit-Untouched "awaiting_approval" request Payload.approval_required r))
        | inr goes ↦ elim (Bool-cases (is_executable plan.action)) [
          | inr idle ↦
              let reason = Payload.no_executor "no production executor for this action" in
              let audit = append_audit parts "planned_only" request reason r in
              let ended : audit.1 ≡ all.1 = ground (arith, goes, idle) in
              inl (subst (Untouched r) ended (audit-Untouched "planned_only" request reason r))
          | inl runs ↦ elim (Result-cases authorized.0) [
            | inr (e, p) ↦
                let ended : authorized.1 ≡ all.1 = ground (arith, goes, runs, p) in
                inl (subst (Untouched r) ended kept)
            | inl (authorization, p) ↦ elim (Result-cases audited.0) [
              | inr (e, q) ↦
                  let ended : audited.1 ≡ all.1 = ground (arith, goes, runs, p, q) in
                  inl (subst (Untouched r) ended before)
              | inl (_, q) ↦
                  let done =
                    execute_action parts plan.action request plan authorization audited.1 in
                  let ended : done.1 ≡ all.1 = ground (arith, goes, runs, p, q) in
                  let granted = authorize-Authorizes approval request plan r authorization p in
                  elim (execute_action-Called parts plan.action request plan authorization audited.1
                    granted.0) [
                      | inl same ↦ inl (subst (Untouched r) ended (Untouched-trans before same))
                      | inr called ↦ inr (
                        granted.1,
                        subst
                            (Called parts plan.action plan r.executor r.sweep
                              r.sweep_point_timeout_ms r.survey_gain_db)
                            ended
                            (Called-after parts plan.action plan r audited.1 done.1 before called),
                      )
                    ]
            ]
          ]
        ]
      ]

  -- A run calls neither the executor nor the sweep backend, unless the request and the plan are
  -- prepared, and an operator approved the plan if it wants approval; then it calls once what the
  -- action of the plan asks for.
  pub run_once-Called :
      (given : PlanRequest) (approval : ApprovalMode) (r : Runner O P E B A K)
      → Untouched r (run_once parts given approval r).1
        ⊎ ((request : PlanRequest) × (plan : ValidatedPlan) × IsPrepared given r request plan
            × (plan.approval_required ≡ true → approval ≡ operator)
            × Called parts plan.action plan r.executor r.sweep r.sweep_point_timeout_ms
                r.survey_gain_db
                (run_once parts given approval r).1)
  unfolding run_once
  run_once-Called given approval r =
      let prepared = prepare parts given r in
      let kept = prepare-Untouched given r in
      let all = run_once parts given approval r in
      elim (Result-cases prepared.0) [
        | inr (x, e) ↦
            let ended : prepared.1 ≡ all.1 = ground (arith, e) in
            inl (subst (Untouched r) ended kept)
        | inl ((request, plan), e) ↦
            let done = dispatch parts approval (request, plan) prepared.1 in
            let ended : done.1 ≡ all.1 = ground (arith, e) in
            elim (dispatch-Called approval request plan prepared.1) [
              | inl same ↦ inl (subst (Untouched r) ended (Untouched-trans kept same))
              | inr (approved, called) ↦ inr (
                request,
                plan,
                prepare-IsPrepared given request plan r e,
                approved,
                subst
                    (Called parts plan.action plan r.executor r.sweep r.sweep_point_timeout_ms
                      r.survey_gain_db)
                    ended (Called-after parts plan.action plan r prepared.1 done.1 kept called),
              )
            ]
      ]
