-- ===== src/Runner/Responded.antt =====
-- The entries that `prepare` leaves from the response of the planner on.
use sdr_pi.Base.{
  ◌≡◌, inl, inr, refl, ◌∙◌, ap, List, ◌∷◌, Option, String, Result, ok, err, arith, Result-cases,
}
use sdr_pi.Protocol.{PlanRequest, PlanResponse, ValidatedPlan}
use sdr_pi.Policy.{PolicyError, validate_request, validate_response}
use sdr_pi.Controller.{ControllerError}
use sdr_pi.Sdr.{SdrSnapshot}
use sdr_pi.Runner.Audit.{RunnerError, Payload, AuditEvent}
use sdr_pi.Runner.State.{Runner, Parts, append_audit}
use sdr_pi.Runner.Once.{refreshed, prepare}
use sdr_pi.Runner.Entries.{
  Entry, entries, recording, Unprepared, unrecorded, unfit, PreparedTrail, proposed_entries,
  audit-Recorded,
}
use mathlib.Core.Path.{subst, sym}

module _ {V O P E B K : Type 0} (parts : Parts V O P E B (List (AuditEvent V)) K)
    (failure : AuditEvent V → List (AuditEvent V) → Option String) where
  abbrev Trailed : Type 0
  Trailed = Runner O P E B (List (AuditEvent V)) K

  pub failed-PreparedTrail :
      (given : PlanRequest) (r : Trailed)
      (x : Result (RunnerError V) (PlanRequest × ValidatedPlan) × Trailed) (e : RunnerError V)
      → x.0 ≡ err e
      → Unprepared parts given r e (entries x.1)
      → PreparedTrail parts given r x.0 (entries x.1)
  failed-PreparedTrail given r x e h u =
      subst (λ y. PreparedTrail parts given r y (entries x.1)) (sym h) u

  -- the same where an audit failed
  pub unrecorded-PreparedTrail :
      (given : PlanRequest) (r : Trailed)
      (x : Result (RunnerError V) (PlanRequest × ValidatedPlan) × Trailed) (message : String)
      → x.0 ≡ err (RunnerError.audit message)
      → PreparedTrail parts given r x.0 (entries x.1)
  unrecorded-PreparedTrail given r x message h =
      failed-PreparedTrail given r x (RunnerError.audit message) h (unrecorded message refl)

  -- the audit of the observation, and that of the response
  abbrev input_of :
      PlanRequest → SdrSnapshot → Trailed → Result (RunnerError V) (Unit {0}) × Trailed
  unfolding refreshed
  input_of given live r =
      append_audit (recording failure parts) "input_observation" (refreshed given live)
        (Payload.observation (refreshed given live).observation)
        (record r { observer = (parts.engine.observe r.observer).1 })

  abbrev proposal_of :
      PlanRequest
      → SdrSnapshot
      → PlanResponse
      → Trailed
      → Result (RunnerError V) (Unit {0}) × Trailed
  proposal_of given live response r =
      append_audit (recording failure parts) "planner_proposal" (refreshed given live)
        (Payload.proposal response)
        (record ((input_of given live r).1) {
          planner = (parts.planning.plan (refreshed given live) r.planner).1;
        })

  -- the end of a preparation: an audit, and then a result
  abbrev Ending :
      Result (RunnerError V) (PlanRequest × ValidatedPlan) × Trailed
      → Result (RunnerError V) (Unit {0}) × Trailed
      → Result (RunnerError V) (PlanRequest × ValidatedPlan)
      → Type 0
  Ending x d y =
      (d.0 ≡ ok tt → x.0 ≡ y) × ((m : RunnerError V) → d.0 ≡ err m → x.0 ≡ err m) × (x.1 ≡ d.1)

  Ending-PreparedTrail :
      (given : PlanRequest) (phase : String) (request : PlanRequest) (payload : Payload V)
      (before : List (Entry V)) (r r1 : Trailed)
      (x : Result (RunnerError V) (PlanRequest × ValidatedPlan) × Trailed)
      (y : Result (RunnerError V) (PlanRequest × ValidatedPlan))
      → Ending x (append_audit (recording failure parts) phase request payload r1) y
      → entries r1 ≡ before
      → PreparedTrail parts given r y ((phase, payload) ∷ before)
      → PreparedTrail parts given r x.0 (entries x.1)
  Ending-PreparedTrail given phase request payload before r r1 x y h t p =
      let d = append_audit (recording failure parts) phase request payload r1 in
      elim (audit-Recorded parts failure phase request payload r1) [
        | inl (m, a) ↦ unrecorded-PreparedTrail given r x m (h.1 (RunnerError.audit m) a)
        | inr (a, kept, _) ↦
            let result : y ≡ x.0 = sym (h.0 a) in
            let trail : ((phase, payload) ∷ before) ≡ entries x.1 =
              sym (ap entries h.2 ∙ kept ∙ ap (λ b. (phase, payload) ∷ b) t) in
            subst (λ z. PreparedTrail parts given r z (entries x.1)) result
              (subst (λ b. PreparedTrail parts given r y b) trail p)
      ]

  abbrev unfit_audit :
      PlanRequest
      → SdrSnapshot
      → PlanResponse
      → PolicyError
      → Trailed
      → Result (RunnerError V) (Unit {0}) × Trailed
  unfit_audit given live response e r =
      append_audit (recording failure parts) "validation_failed" (refreshed given live)
        (Payload.policy_failure e) (proposal_of given live response r).1

  unfit-Ending :
      (given : PlanRequest) (live : SdrSnapshot) (response : PlanResponse) (r : Trailed)
      → (parts.engine.observe r.observer).0 ≡ ok live
      → validate_request (refreshed given live) ≡ ok tt
      → (parts.planning.plan (refreshed given live) r.planner).0 ≡ ok response
      → (input_of given live r).0 ≡ ok tt
      → (input_of given live r).1.planner ≡ r.planner
      → (proposal_of given live response r).0 ≡ ok tt
      → (e : PolicyError) → validate_response (refreshed given live) response ≡ err e
      → Ending
          (prepare (recording failure parts) given r)
          (unfit_audit given live response e r)
          (err (RunnerError.controller (ControllerError.policy e)))
  unfolding prepare refreshed
  unfit-Ending given live response r o v c a planner b e w = (
    λ d. ground (arith, o, v, a, planner, c, b, w, d),
    λ m d. ground (arith, o, v, a, planner, c, b, w, d),
    ground (arith, o, v, a, planner, c, b, w),
  )

  unfit-trail :
      (given : PlanRequest) (live : SdrSnapshot) (response : PlanResponse) (r : Trailed)
      → (parts.engine.observe r.observer).0 ≡ ok live
      → validate_request (refreshed given live) ≡ ok tt
      → (parts.planning.plan (refreshed given live) r.planner).0 ≡ ok response
      → (input_of given live r).0 ≡ ok tt
      → (input_of given live r).1.planner ≡ r.planner
      → (proposal_of given live response r).0 ≡ ok tt
      → entries (proposal_of given live response r).1
        ≡ proposed_entries given live response (entries r)
      → (e : PolicyError) → validate_response (refreshed given live) response ≡ err e
      → PreparedTrail parts given r
          (prepare (recording failure parts) given r).0
          (entries (prepare (recording failure parts) given r).1)
  unfolding refreshed
  unfit-trail given live response r o v c a planner b kept2 e w =
      Ending-PreparedTrail given "validation_failed" (refreshed given live)
        (Payload.policy_failure e) (proposed_entries given live response (entries r)) r
        (proposal_of given live response r).1 (prepare (recording failure parts) given r)
        (err (RunnerError.controller (ControllerError.policy e)))
        (unfit-Ending given live response r o v c a planner b e w) kept2
        (unfit live response e o v c w refl refl)

  abbrev plan_audit :
      PlanRequest
      → SdrSnapshot
      → PlanResponse
      → ValidatedPlan
      → Trailed
      → Result (RunnerError V) (Unit {0}) × Trailed
  plan_audit given live response plan r =
      append_audit (recording failure parts) "validated_plan" (refreshed given live)
        (Payload.plan plan) (proposal_of given live response r).1

  ready-Ending :
      (given : PlanRequest) (live : SdrSnapshot) (response : PlanResponse) (r : Trailed)
      → (parts.engine.observe r.observer).0 ≡ ok live
      → validate_request (refreshed given live) ≡ ok tt
      → (parts.planning.plan (refreshed given live) r.planner).0 ≡ ok response
      → (input_of given live r).0 ≡ ok tt
      → (input_of given live r).1.planner ≡ r.planner
      → (proposal_of given live response r).0 ≡ ok tt
      → (plan : ValidatedPlan) → validate_response (refreshed given live) response ≡ ok plan
      → Ending
          (prepare (recording failure parts) given r)
          (plan_audit given live response plan r)
          (ok (refreshed given live, plan))
  unfolding prepare refreshed
  ready-Ending given live response r o v c a planner b plan w = (
    λ d. ground (arith, o, v, a, planner, c, b, w, d),
    λ m d. ground (arith, o, v, a, planner, c, b, w, d),
    ground (arith, o, v, a, planner, c, b, w),
  )

  ready-trail :
      (given : PlanRequest) (live : SdrSnapshot) (response : PlanResponse) (r : Trailed)
      → (parts.engine.observe r.observer).0 ≡ ok live
      → validate_request (refreshed given live) ≡ ok tt
      → (parts.planning.plan (refreshed given live) r.planner).0 ≡ ok response
      → (input_of given live r).0 ≡ ok tt
      → (input_of given live r).1.planner ≡ r.planner
      → (proposal_of given live response r).0 ≡ ok tt
      → entries (proposal_of given live response r).1
        ≡ proposed_entries given live response (entries r)
      → (plan : ValidatedPlan) → validate_response (refreshed given live) response ≡ ok plan
      → PreparedTrail parts given r
          (prepare (recording failure parts) given r).0
          (entries (prepare (recording failure parts) given r).1)
  unfolding refreshed
  ready-trail given live response r o v c a planner b kept2 plan w =
      Ending-PreparedTrail given "validated_plan" (refreshed given live) (Payload.plan plan)
        (proposed_entries given live response (entries r)) r (proposal_of given live response r).1
        (prepare (recording failure parts) given r) (ok (refreshed given live, plan))
        (ready-Ending given live response r o v c a planner b plan w) kept2
        (
          live,
          response,
          refl,
          record { observed = o; request_valid = v; responded = c; response_valid = w },
          refl,
        )

  -- after the response of the planner
  pub responded-trail :
      (given : PlanRequest) (live : SdrSnapshot) (response : PlanResponse) (r : Trailed)
      → (parts.engine.observe r.observer).0 ≡ ok live
      → validate_request (refreshed given live) ≡ ok tt
      → (parts.planning.plan (refreshed given live) r.planner).0 ≡ ok response
      → PreparedTrail parts given r
          (prepare (recording failure parts) given r).0
          (entries (prepare (recording failure parts) given r).1)
  unfolding prepare refreshed
  responded-trail given live response r o v c =
      let request = refreshed given live in
      let all = prepare (recording failure parts) given r in
      let seen = Payload.observation request.observation in
      let input = input_of given live r in
      elim (audit-Recorded parts failure "input_observation" request seen
        (record r { observer = (parts.engine.observe r.observer).1 })) [
          | inl (m, a) ↦ unrecorded-PreparedTrail given r all m (ground (arith, o, a))
          | inr (a, kept, planner) ↦
              elim (audit-Recorded parts failure "planner_proposal" request
                (Payload.proposal response)
                (record (input.1) { planner = (parts.planning.plan request r.planner).1 })) [
                  | inl (m, b) ↦
                      unrecorded-PreparedTrail given r all m
                        (ground (arith, o, v, a, planner, c, b))
                  | inr (b, kept2, _) ↦
                      let both =
                        kept2
                        ∙ ap (λ t. ("planner_proposal", Payload.proposal response) ∷ t) kept in
                      elim (Result-cases (validate_response request response)) [
                        | inr (e, w) ↦ unfit-trail given live response r o v c a planner b both e w
                        | inl (plan, w) ↦
                            ready-trail given live response r o v c a planner b both plan w
                      ]
                ]
        ]
