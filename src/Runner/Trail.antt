-- ===== src/Runner/Trail.antt =====
-- The audit trail of a whole run, over a sink that records events, the newest first, or fails.
use sdr_pi.Base.{◌≡◌, ◌⊎◌, true, false, List, ◌∷◌, Option, String, Result, ok, err}
use sdr_pi.Protocol.{PlanRequest, PlanResponse, ValidatedPlan}
use sdr_pi.Sdr.{SdrError, SdrSnapshot}
use sdr_pi.Execution.{ExecutionAuthorization}
use sdr_pi.Execution as Execution
use sdr_pi.Runner.Audit.{
  ApprovalMode, pending, automatic, as_str, RunnerError, RunReport, RunStatus, Payload, AuditEvent,
}
use sdr_pi.Runner.State.{Runner, Parts}
use sdr_pi.Runner.Once.{is_executable}
use sdr_pi.Runner.Entries.{Entry, planned_entries, entries, Plans, Unprepared}
use sdr_pi.Runner.Ran.{Ran}

-- What a run with a validated plan leaves over the entries of the plan.
pub data Dispatched {V : Type 0} (mode : ApprovalMode) (plan : ValidatedPlan)
    (before : List (Entry V)) (result : Result (RunnerError V) RunReport) (trail : List (Entry V))
    : Type 0 where
  unrecorded :
      (message : String)
      → result ≡ err (RunnerError.audit message)
      → Dispatched mode plan before result trail
  waits :
      (report : RunReport)
      → plan.approval_required ≡ true
      → mode ≡ pending
      → result ≡ ok report
      → report.status ≡ RunStatus.awaiting_approval
      → trail ≡ ("awaiting_approval", Payload.approval_required) ∷ before
      → Dispatched mode plan before result trail
  idles :
      (report : RunReport)
      → is_executable plan.action ≡ false
      → result ≡ ok report
      → report.status ≡ RunStatus.planned_only
      → trail
        ≡ ("planned_only", Payload.no_executor "no production executor for this action") ∷ before
      → Dispatched mode plan before result trail
  refused :
      (e : SdrError V)
      → is_executable plan.action ≡ true
      → Execution.automatic plan ≡ err e
      → result ≡ err (RunnerError.sdr e)
      → (trail ≡ ("authorization_rejected", Payload.refused e.code e.message) ∷ before)
        ⊎ (trail ≡ before)
      → Dispatched mode plan before result trail
  ran :
      is_executable plan.action ≡ true
      → Ran (("authorized", Payload.mode (as_str mode)) ∷ before) result trail
      → Dispatched mode plan before result trail

module _ {V O P E B K : Type 0} (parts : Parts V O P E B (List (AuditEvent V)) K)
    (failure : AuditEvent V → List (AuditEvent V) → Option String) where
  abbrev Trailed : Type 0
  Trailed = Runner O P E B (List (AuditEvent V)) K

  -- a refused authorization leaves its entry, or nothing where that audit failed
  abbrev Refusal :
      SdrError V → Trailed → Result (RunnerError V) ExecutionAuthorization × Trailed → Type 0
  Refusal e r x =
      (x.0 ≡ err (RunnerError.sdr e))
      × ((entries x.1 ≡ ("authorization_rejected", Payload.refused e.code e.message) ∷ entries r)
          ⊎ (entries x.1 ≡ entries r))

  -- What a run leaves: the entries of the step before the plan that failed, or those of a plan that
  -- was validated in this run and then those of what became of it.
  pub data Trail (given : PlanRequest) (mode : ApprovalMode) (r : Trailed)
      (result : Result (RunnerError V) RunReport) (trail : List (Entry V)) : Type 0 where
    unprepared :
        (e : RunnerError V)
        → result ≡ err e
        → Unprepared parts given r e trail
        → Trail given mode r result trail
    prepared :
        (live : SdrSnapshot) (response : PlanResponse) (plan : ValidatedPlan)
        → Plans parts given r live response plan
        → Dispatched mode plan (planned_entries given live response plan (entries r)) result trail
        → Trail given mode r result trail
