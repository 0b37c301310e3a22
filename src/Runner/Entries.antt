-- ===== src/Runner/Entries.antt =====
-- What a run records, over a sink that records events, the newest first, or fails: the entries of
-- each step, and what a preparation leaves.
use sdr_pi.Base.{◌≡◌, ◌⊎◌, String, Option, some, none, List, ◌∷◌, map, Result, ok, err, arith}
use sdr_pi.Protocol.{PlanRequest, PlanResponse, ValidatedPlan}
use sdr_pi.Policy.{PolicyError, validate_request, validate_response}
use sdr_pi.Controller.{PlannerError, ControllerError}
use sdr_pi.Sdr.{SdrError, SdrSnapshot}
use sdr_pi.Runner.Audit.{RunnerError, Payload, AuditEvent, AuditSink}
use sdr_pi.Runner.State.{Runner, Parts, append_audit}
use sdr_pi.Runner.Once.{planner_text}
use sdr_pi.Runner.Allowed.{with_live}

-- A sink whose failures are told by a function of the event and of what is recorded.
abbrev pub journal :
    {V : Type 0}
    → (AuditEvent V → List (AuditEvent V) → Option String)
    → AuditSink V (List (AuditEvent V))
journal failure = record {
  append = λ event events. elim (failure event events) [
    | none ↦ (ok tt, event ∷ events)
    | some message ↦ (err message, events)
  ];
}

-- the phase of an event, and what it tells
abbrev pub Entry : Type 0 → Type 0
Entry V = String × Payload V

abbrev pub entry_of : {V : Type 0} → AuditEvent V → Entry V
entry_of e = (e.phase, e.payload)

-- the entries of a request that was observed
abbrev pub observed_entries :
    {V : Type 0} → PlanRequest → SdrSnapshot → List (Entry V) → List (Entry V)
observed_entries given live before =
    ("input_observation", Payload.observation (with_live given live).observation) ∷ before

-- the entries of a response of the planner
abbrev pub proposed_entries :
    {V : Type 0} → PlanRequest → SdrSnapshot → PlanResponse → List (Entry V) → List (Entry V)
proposed_entries given live response before =
    ("planner_proposal", Payload.proposal response) ∷ observed_entries given live before

-- the entries of a plan that was validated
abbrev pub planned_entries :
    {V : Type 0}
    → PlanRequest
    → SdrSnapshot
    → PlanResponse
    → ValidatedPlan
    → List (Entry V)
    → List (Entry V)
planned_entries given live response plan before =
    ("validated_plan", Payload.plan plan) ∷ proposed_entries given live response before

abbrev pub entries :
    {V O P E B K : Type 0} → Runner O P E B (List (AuditEvent V)) K → List (Entry V)
entries r = map entry_of r.audit

-- the parts over such a sink
abbrev pub recording :
    {V O P E B K : Type 0}
    → (AuditEvent V → List (AuditEvent V) → Option String)
    → Parts V O P E B (List (AuditEvent V)) K
    → Parts V O P E B (List (AuditEvent V)) K
recording failure parts = record parts { auditing = journal failure }

module _ {V O P E B K : Type 0} (parts : Parts V O P E B (List (AuditEvent V)) K) where
  -- The steps of this run up to a validated plan, each of which succeeded.
  pub record Plans (given : PlanRequest) (r : Runner O P E B (List (AuditEvent V)) K)
      (live : SdrSnapshot) (response : PlanResponse) (plan : ValidatedPlan) : Type 0 where
    pub observed : (parts.engine.observe r.observer).0 ≡ ok live
    pub request_valid : validate_request (with_live given live) ≡ ok tt
    pub responded : (parts.planning.plan (with_live given live) r.planner).0 ≡ ok response
    pub response_valid : validate_response (with_live given live) response ≡ ok plan

  -- The step of this run before a validated plan that failed, with its error and the entries that
  -- it leaves; of an audit that failed nothing is said.
  pub data Unprepared (given : PlanRequest) (r : Runner O P E B (List (AuditEvent V)) K)
      (error : RunnerError V) (trail : List (Entry V)) : Type 0 where
    unrecorded :
        (message : String) → error ≡ RunnerError.audit message → Unprepared given r error trail
    unobserved :
        (e : SdrError V)
        → (parts.engine.observe r.observer).0 ≡ err e
        → error ≡ RunnerError.sdr e
        → trail ≡ ("observation_failed", Payload.sdr_failure e) ∷ entries r
        → Unprepared given r error trail
    rejected :
        (live : SdrSnapshot) (e : PolicyError)
        → (parts.engine.observe r.observer).0 ≡ ok live
        → validate_request (with_live given live) ≡ err e
        → error ≡ RunnerError.controller (ControllerError.policy e)
        → trail
          ≡ ("request_rejected", Payload.policy_failure e) ∷ observed_entries given live (entries r)
        → Unprepared given r error trail
    unplanned :
        (live : SdrSnapshot) (e : PlannerError)
        → (parts.engine.observe r.observer).0 ≡ ok live
        → validate_request (with_live given live) ≡ ok tt
        → (parts.planning.plan (with_live given live) r.planner).0 ≡ err e
        → error ≡ RunnerError.controller (ControllerError.planner e)
        → trail
          ≡ ("planning_failed", Payload.planning_failure (planner_text e))
            ∷ observed_entries given live (entries r)
        → Unprepared given r error trail
    unfit :
        (live : SdrSnapshot) (response : PlanResponse) (e : PolicyError)
        → (parts.engine.observe r.observer).0 ≡ ok live
        → validate_request (with_live given live) ≡ ok tt
        → (parts.planning.plan (with_live given live) r.planner).0 ≡ ok response
        → validate_response (with_live given live) response ≡ err e
        → error ≡ RunnerError.controller (ControllerError.policy e)
        → trail
          ≡ ("validation_failed", Payload.policy_failure e)
            ∷ proposed_entries given live response (entries r)
        → Unprepared given r error trail

  -- what a preparation leaves
  abbrev pub PreparedTrail :
      PlanRequest
      → Runner O P E B (List (AuditEvent V)) K
      → Result (RunnerError V) (PlanRequest × ValidatedPlan)
      → List (Entry V)
      → Type 0
  PreparedTrail given r (err e) trail = Unprepared given r e trail
  PreparedTrail given r (ok (request, plan)) trail =
      (live : SdrSnapshot) × (response : PlanResponse) × (request ≡ with_live given live)
      × Plans given r live response plan
      × (trail ≡ planned_entries given live response plan (entries r))

  -- an entry is recorded, or the audit fails
  abbrev Recorded :
      String
      → Payload V
      → Runner O P E B (List (AuditEvent V)) K
      → Result (RunnerError V) (Unit {0}) × Runner O P E B (List (AuditEvent V)) K
      → Type 0
  Recorded phase payload r x =
      ((message : String) × (x.0 ≡ err (RunnerError.audit message)))
      ⊎ (x.0 ≡ ok tt) × (entries x.1 ≡ (phase, payload) ∷ entries r) × (x.1.planner ≡ r.planner)

  pub audit-Recorded :
      (failure : AuditEvent V → List (AuditEvent V) → Option String) (phase : String)
      (request : PlanRequest) (payload : Payload V) (r : Runner O P E B (List (AuditEvent V)) K)
      → Recorded phase payload r (append_audit (recording failure parts) phase request payload r)
  unfolding append_audit
  audit-Recorded failure phase request payload r = ground arith
