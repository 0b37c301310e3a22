-- ===== src/Runner/Allowed.antt =====
-- What is known of the request and the plan of a run that touches the executor or the backend.
use sdr_pi.Base.{◌≤◌, ◌≡◌, ◌⊎◌, inl, inr, refl, ◌∙◌, true, ◌&&◌, ok}
use sdr_pi.Protocol.{PlanRequest, PlanResponse, ValidatedPlan}
use sdr_pi.Policy.Accepted.{IsRequest, validate_request-IsRequest}
use sdr_pi.Policy.Plans.{IsAnswer, validate_response_iff}
use sdr_pi.Sdr.{SdrSnapshot}
use sdr_pi.Runner.Audit.{ApprovalMode, operator}
use sdr_pi.Runner.State.{Runner, Parts}
use sdr_pi.Runner.Once.{refreshed, run_once}
use sdr_pi.Runner.Called.{Untouched, Called}
use sdr_pi.Runner.Safety.{run_once-Called}
use mathlib.Core.Path.{subst, sym}

-- The request with an observation of age 0 and the health that the snapshot tells, in which an
-- online and healthy radio has the snapshot's capabilities and any other none.
abbrev pub with_live : PlanRequest → SdrSnapshot → PlanRequest
with_live given live = record {
  protocol_version = given.protocol_version;
  request_id = given.request_id;
  session_generation = given.session_generation;
  instruction = given.instruction;
  state = given.state;
  observation = record {
    age_ms = 0;
    health = record {
      sdr_online = live.online && live.healthy;
      can_retune = live.online && live.healthy && live.can_retune;
      can_capture_iq = live.online && live.healthy && live.can_capture_iq;
      recognizer_available = given.observation.health.recognizer_available;
      dropped_observations = given.observation.health.dropped_observations;
    };
    candidates = given.observation.candidates;
    latest_sweep = given.observation.latest_sweep;
    recognition = given.observation.recognition;
  };
  limits = given.limits;
}

refreshed-with_live :
    (given : PlanRequest) (live : SdrSnapshot) → refreshed given live ≡ with_live given live
unfolding refreshed
refreshed-with_live given live = refl

module _ {V O P E B A K : Type 0} (parts : Parts V O P E B A K) where
  -- The engine's snapshot, the request with it, which is valid, the planner's response to that
  -- request, the plan of that response, and the one call, whose states are those after the run.
  pub record IsCleared (given : PlanRequest) (mode : ApprovalMode) (r r' : Runner O P E B A K)
      : Type 0 where
    pub live : SdrSnapshot
    pub request : PlanRequest
    pub response : PlanResponse
    pub plan : ValidatedPlan
    pub observed : (parts.engine.observe r.observer).0 ≡ ok live
    pub refreshed_request : request ≡ with_live given live
    pub request_valid : IsRequest request
    pub responded : (parts.planning.plan request r.planner).0 ≡ ok response
    pub answers : IsAnswer request response plan
    pub approved : plan.approval_required ≡ true → mode ≡ operator
    pub called :
        Called parts plan.action plan r.executor r.sweep r.sweep_point_timeout_ms r.survey_gain_db
          r'

  -- A run with a byte limit that fits in 64 bits leaves the states of the executor and the sweep
  -- backend as they were, unless this holds: the engine observed the radio; the request with what
  -- it observed is valid; the planner's response to that request answers it, in its session, with
  -- the action of a plan that the policy allows; and an operator approved the plan if the size of
  -- its action calls for approval. Then the run made one call: for a capture of the executor, with
  -- that plan and an authorization of it; for a survey of the backend, with a valid sweep plan of
  -- the survey's range and settings; for an inspection of the backend, with a valid sweep plan of
  -- the one center. No other action makes a call.
  pub run_once-IsCleared :
      (given : PlanRequest) (mode : ApprovalMode) (r : Runner O P E B A K)
      → given.limits.max_iq_bytes ≤ 18446744073709551615
      → Untouched r (run_once parts given mode r).1
        ⊎ IsCleared given mode r (run_once parts given mode r).1
  run_once-IsCleared given mode r w = elim (run_once-Called parts given mode r) [
    | inl same ↦ inl same
    | inr (request, plan, p, approved, called) ↦
        let valid = validate_request-IsRequest request p.request_valid in
        let same : request ≡ with_live given p.live =
          p.refreshed_request ∙ refreshed-with_live given p.live in
        let word : request.limits.max_iq_bytes ≤ 18446744073709551615 =
          subst (λ (q : PlanRequest). q.limits.max_iq_bytes ≤ 18446744073709551615) (sym same) w in
        inr (record {
          live = p.live;
          request = request;
          response = p.response;
          plan = plan;
          observed = p.observed;
          refreshed_request = same;
          request_valid = valid;
          responded = p.responded;
          answers =
              (validate_response_iff request p.response plan valid.limits_valid word).0
                p.response_valid;
          approved = approved;
          called = called;
        })
  ]
