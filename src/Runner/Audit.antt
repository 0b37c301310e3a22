-- ===== src/Runner/Audit.antt =====
-- runner.rs: approval modes, reports, errors, audit events and their sinks. A payload is what the
-- source makes a JSON value of; `serde_json::Value` is the type parameter `V`.
use sdr_pi.Base.{ℕ, String, Option, List, [], ◌∷◌, ◌++◌, Result, ok}
use sdr_pi.Protocol.{ObservationSummary, PlanResponse, ValidatedPlan}
use sdr_pi.Policy.{PolicyError}
use sdr_pi.Controller.{ControllerError}
use sdr_pi.Sdr.{SdrError, SdrSnapshot}
use sdr_pi.Execution.{ExecutionObservation}
use sdr_pi.Sweep.{SweepError, SweepReport}

abbrev pub audit_schema_version : ℕ
audit_schema_version = 1

pub data ApprovalMode : Type 0 where
  pending automatic operator : ApprovalMode

pub data RunStatus : Type 0 where
  awaiting_approval planned_only executed : RunStatus

pub record RunReport : Type 0 where
  pub status : RunStatus
  pub plan : ValidatedPlan
  pub execution : Option ExecutionObservation
  pub sweep : Option SweepReport
  pub next_observation : ObservationSummary

pub data RunnerError (V : Type 0) : Type 0 where
  controller : ControllerError → RunnerError V
  sdr : SdrError V → RunnerError V
  sweep : SweepError V → RunnerError V
  audit : String → RunnerError V

pub data Payload (V : Type 0) : Type 0 where
  sdr_failure : SdrError V → Payload V
  sweep_failure : SweepError V → Payload V
  policy_failure : PolicyError → Payload V
  planning_failure : String → Payload V
  refused : (code message : String) → Payload V
  observation : ObservationSummary → Payload V
  proposal : PlanResponse → Payload V
  plan : ValidatedPlan → Payload V
  approval_required : Payload V
  no_executor : (reason : String) → Payload V
  mode : String → Payload V
  execution : ExecutionObservation → Payload V
  swept : SweepReport → SdrSnapshot → ObservationSummary → Payload V

pub record AuditEvent (V : Type 0) : Type 0 where
  pub schema_version : ℕ
  pub timestamp_unix_ms : ℕ
  pub phase : String
  pub request_id : ℕ
  pub session_generation : ℕ
  pub payload : Payload V

-- The trait `AuditSink`: a sink whose state is an `A`; an I/O error is its text.
pub record AuditSink (V A : Type 0) : Type 0 where
  pub append : AuditEvent V → A → Result String (Unit {0}) × A

-- `MemoryAuditAdapter`: its state is the list of events.
abbrev pub memory_sink : {V : Type 0} → AuditSink V (List (AuditEvent V))
memory_sink = record { append = λ event events. (ok tt, events ++ event ∷ []) }

-- `SystemTime::now().duration_since(UNIX_EPOCH)` in milliseconds
pub record Clock (K : Type 0) : Type 0 where
  pub now : K → Result String ℕ × K

-- `ApprovalMode::as_str`
unfoldable pub as_str : ApprovalMode → String
as_str pending = "pending"
as_str automatic = "automatic"
as_str operator = "operator"
