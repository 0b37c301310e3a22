-- ===== src/Runner/State.antt =====
-- runner.rs: the state of `Runner`, the monad of its methods and the calls of its parts. A method
-- returns its result with the state, also where it fails.
pub use sdr_pi.Base.Action.{Action, ◌>>=◌, ◌>>◌, pure, raise, attempt, ignore, or_report}
use sdr_pi.Base.{ℕ, ℤ, FloatOps, String, Result, map_err}
use sdr_pi.Protocol.{PlanRequest, PlanResponse, ValidatedPlan}
use sdr_pi.Controller.{Planner, PlannerError}
use sdr_pi.Sdr.{SdrEngine, SdrError, SdrSnapshot}
use sdr_pi.Execution.{SdrActionExecutor, ExecutionAuthorization, ExecutionObservation}
use sdr_pi.Sweep.{SweepBackend, SweepError, SweepPlan, SweepReport, run_sweep}
use sdr_pi.Runner.Audit.{
  AuditSink, AuditEvent, Clock, Payload, sdr_failure, sweep_failure, RunnerError,
  audit_schema_version,
}

-- the states of the parts, and the two settings
pub record Runner (O P E B A K : Type 0) : Type 0 where
  pub observer : O
  pub planner : P
  pub executor : E
  pub sweep : B
  pub survey_gain_db : ℤ
  pub sweep_point_timeout_ms : ℕ
  pub audit : A
  pub clock : K

-- what the parts do
pub record Parts (V O P E B A K : Type 0) : Type 0 where
  pub engine : SdrEngine V O
  pub planning : Planner P
  pub executing : SdrActionExecutor V E
  pub sweeping : SweepBackend V B
  pub auditing : AuditSink V A
  pub timing : Clock K
  pub floats : FloatOps

module _ {V O P E B A K : Type 0} (parts : Parts V O P E B A K) where
  abbrev pub call_observe :
      Runner O P E B A K → Result (SdrError V) SdrSnapshot × Runner O P E B A K
  call_observe r = let (s, o) = parts.engine.observe r.observer in (s, record r { observer = o })

  abbrev pub call_planner :
      PlanRequest → Runner O P E B A K → Result PlannerError PlanResponse × Runner O P E B A K
  call_planner request r =
      let (s, p) = parts.planning.plan request r.planner in (s, record r { planner = p })

  abbrev pub call_executor :
      ValidatedPlan
      → ExecutionAuthorization
      → Runner O P E B A K
      → Result (SdrError V) ExecutionObservation × Runner O P E B A K
  call_executor validated authorization r =
      let (s, e) = parts.executing.execute validated authorization r.executor in
      (s, record r { executor = e })

  abbrev pub call_sweep :
      SweepPlan → Runner O P E B A K → Result (SweepError V) SweepReport × Runner O P E B A K
  call_sweep sweep_plan r =
      let (s, b) = run_sweep parts.floats parts.sweeping sweep_plan r.sweep in
      (s, record r { sweep = b })

  abbrev pub call_sink :
      AuditEvent V → Runner O P E B A K → Result String (Unit {0}) × Runner O P E B A K
  call_sink event r =
      let (s, a) = parts.auditing.append event r.audit in (s, record r { audit = a })

  abbrev pub call_clock : Runner O P E B A K → Result String ℕ × Runner O P E B A K
  call_clock r = let (s, k) = parts.timing.now r.clock in (s, record r { clock = k })

  -- a call whose error becomes the method's
  abbrev pub or_audit_error :
      {X : Type 0}
      → (Runner O P E B A K → Result String X × Runner O P E B A K)
      → Action (Runner O P E B A K) (RunnerError V) X
  or_audit_error call r = let (s, r') = call r in (map_err RunnerError.audit s, r')

  -- `Runner::audit`
  unfoldable pub append_audit :
      String → PlanRequest → Payload V → Action (Runner O P E B A K) (RunnerError V) (Unit {0})
  append_audit phase request payload = do
    timestamp_unix_ms ← or_audit_error call_clock
    or_audit_error (
        call_sink (record {
          schema_version = audit_schema_version;
          timestamp_unix_ms = timestamp_unix_ms;
          phase = phase;
          request_id = request.request_id;
          session_generation = request.session_generation;
          payload = payload;
        }))

  unfoldable pub audit_sdr_failure :
      PlanRequest → SdrError V → Action (Runner O P E B A K) (RunnerError V) (Unit {0})
  unfolding append_audit
  audit_sdr_failure request e = append_audit "execution_failed" request (sdr_failure e)

  unfoldable pub audit_sweep_failure :
      PlanRequest → SweepError V → Action (Runner O P E B A K) (RunnerError V) (Unit {0})
  unfolding append_audit
  audit_sweep_failure request e = append_audit "execution_failed" request (sweep_failure e)
