-- ===== src/Runner/Prepared.antt =====
-- The entries that `prepare`, the first phase of a run, leaves.
use sdr_pi.Base.{◌≡◌, inl, inr, refl, List, Option, String, ok, arith, Result-cases}
use sdr_pi.Protocol.{PlanRequest}
use sdr_pi.Policy.{validate_request}
use sdr_pi.Controller.{ControllerError}
use sdr_pi.Sdr.{SdrSnapshot}
use sdr_pi.Runner.Audit.{RunnerError, Payload, AuditEvent}
use sdr_pi.Runner.State.{Runner, Parts, append_audit}
use sdr_pi.Runner.Once.{refreshed, prepare, planner_text}
use sdr_pi.Runner.Entries.{
  entries, recording, unobserved, rejected, unplanned, PreparedTrail, audit-Recorded,
}
use sdr_pi.Runner.Responded.{failed-PreparedTrail, unrecorded-PreparedTrail, responded-trail}

module _ {V O P E B K : Type 0} (parts : Parts V O P E B (List (AuditEvent V)) K)
    (failure : AuditEvent V → List (AuditEvent V) → Option String) where
  abbrev Trailed : Type 0
  Trailed = Runner O P E B (List (AuditEvent V)) K

  -- after an observation, the entry of it and a request that the policy accepts
  planned-trail :
      (given : PlanRequest) (live : SdrSnapshot) (r : Trailed)
      → (parts.engine.observe r.observer).0 ≡ ok live
      → validate_request (refreshed given live) ≡ ok tt
      → PreparedTrail parts given r
          (prepare (recording failure parts) given r).0
          (entries (prepare (recording failure parts) given r).1)
  unfolding prepare refreshed
  planned-trail given live r o v =
      let request = refreshed given live in
      let all = prepare (recording failure parts) given r in
      let r1 : Trailed = record r { observer = (parts.engine.observe r.observer).1 } in
      let input =
        append_audit (recording failure parts) "input_observation" request
          (Payload.observation request.observation) r1 in
      elim (audit-Recorded parts failure "input_observation" request
        (Payload.observation request.observation) r1) [
          | inl (m, a) ↦ unrecorded-PreparedTrail parts failure given r all m (ground (arith, o, a))
          | inr (a, kept, planner) ↦
              let called = parts.planning.plan request r.planner in
              let r2 : Trailed = record (input.1) { planner = called.1 } in
              elim (Result-cases called.0) [
                | inr (e, c) ↦
                    let payload = Payload.planning_failure (planner_text e) in
                    elim (audit-Recorded parts failure "planning_failed" request payload r2) [
                      | inl (m, b) ↦
                          unrecorded-PreparedTrail parts failure given r all m
                            (ground (arith, o, v, a, planner, c, b))
                      | inr (b, kept2, _) ↦
                          failed-PreparedTrail parts failure given r all
                            (RunnerError.controller (ControllerError.planner e))
                            (ground (arith, o, v, a, planner, c, b))
                            (unplanned live e o v c refl
                              (ground (arith, o, v, a, kept, planner, c, b, kept2)))
                    ]
                | inl (response, c) ↦ responded-trail parts failure given live response r o v c
              ]
        ]

  -- What the preparation of this run leaves.
  pub prepare-trail :
      (given : PlanRequest) (r : Trailed)
      → PreparedTrail parts given r
          (prepare (recording failure parts) given r).0
          (entries (prepare (recording failure parts) given r).1)
  unfolding prepare refreshed
  prepare-trail given r =
      let all = prepare (recording failure parts) given r in
      let observed = parts.engine.observe r.observer in
      let r1 : Trailed = record r { observer = observed.1 } in
      elim (Result-cases observed.0) [
        | inr (e, o) ↦
            elim (audit-Recorded parts failure "observation_failed" given (Payload.sdr_failure e)
              r1) [
                | inl (m, a) ↦
                    unrecorded-PreparedTrail parts failure given r all m (ground (arith, o, a))
                | inr (a, kept, _) ↦
                    failed-PreparedTrail parts failure given r all (RunnerError.sdr e)
                      (ground (arith, o, a)) (unobserved e o refl (ground (arith, o, a, kept)))
              ]
        | inl (live, o) ↦
            let request = refreshed given live in
            elim (Result-cases (validate_request request)) [
              | inl (_, v) ↦ planned-trail given live r o v
              | inr (e, v) ↦
                  let input =
                    append_audit (recording failure parts) "input_observation" request
                      (Payload.observation request.observation) r1 in
                  elim (audit-Recorded parts failure "input_observation" request
                    (Payload.observation request.observation) r1) [
                      | inl (m, a) ↦
                          unrecorded-PreparedTrail parts failure given r all m
                            (ground (arith, o, a))
                      | inr (a, kept, _) ↦
                          elim (audit-Recorded parts failure "request_rejected" request
                            (Payload.policy_failure e) input.1) [
                              | inl (m, b) ↦
                                  unrecorded-PreparedTrail parts failure given r all m
                                    (ground (arith, o, v, a, b))
                              | inr (b, kept2, _) ↦
                                  failed-PreparedTrail parts failure given r all
                                    (RunnerError.controller (ControllerError.policy e))
                                    (ground (arith, o, v, a, b))
                                    (rejected live e o v refl
                                      (ground (arith, o, v, a, kept, b, kept2)))
                            ]
                    ]
            ]
      ]
