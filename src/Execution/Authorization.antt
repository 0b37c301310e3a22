-- ===== src/Execution/Authorization.antt =====
-- execution.rs: `ExecutionAuthorization` and the observations of an execution.
use sdr_pi.Base.{
  ℕ, String, Bool, true, false, not, ◌&&◌, ◌||◌, Result, ok, err, ◌==◌, if◌then◌else◌,
}
use sdr_pi.Protocol.{ValidatedPlan}
use sdr_pi.Sdr.{SdrError, sdr_error, SdrSnapshot}

pub record ExecutionAuthorization : Type 0 where
  pub request_id : ℕ
  pub session_generation : ℕ
  pub operator_approved : Bool

-- `ExecutionAuthorization::automatic`
unfoldable pub automatic : {V : Type 0} → ValidatedPlan → Result (SdrError V) ExecutionAuthorization
automatic plan =
    if plan.approval_required
    then err
        (sdr_error "approval_required" "the validated plan requires explicit operator approval")
    else ok (record {
      request_id = plan.request_id;
      session_generation = plan.session_generation;
      operator_approved = false;
    })

-- `ExecutionAuthorization::operator_approved`
unfoldable pub operator_approved : ValidatedPlan → ExecutionAuthorization
operator_approved plan = record {
  request_id = plan.request_id;
  session_generation = plan.session_generation;
  operator_approved = true;
}

unfoldable pub validate_authorization :
    {V : Type 0} → ValidatedPlan → ExecutionAuthorization → Result (SdrError V) (Unit {0})
validate_authorization plan authorization =
    if not (authorization.request_id == plan.request_id)
      || not (authorization.session_generation == plan.session_generation)
    then err (
        sdr_error "stale_authorization" "execution authorization does not match the validated plan")
    else if plan.approval_required && not authorization.operator_approved
    then err (sdr_error "approval_required" "operator approval is required for this plan")
    else ok tt

pub record ExecutionTimeoutMetadata : Type 0 where
  pub limit_ms : ℕ
  pub elapsed_us : ℕ
  pub timed_out : Bool

pub record ExecutionHealthMetadata : Type 0 where
  pub healthy : Bool
  pub flags : ℕ
  pub source : String

pub record CaptureObservation : Type 0 where
  pub candidate_id : String
  pub feature_id : String
  pub relative_path : String
  pub samples_captured : ℕ
  pub bytes_written : ℕ
  pub sequence : ℕ
  pub dropped_samples : ℕ
  pub overflow : Bool
  pub timeout : ExecutionTimeoutMetadata
  pub health : ExecutionHealthMetadata

pub record ExecutionObservation : Type 0 where
  pub request_id : ℕ
  pub session_generation : ℕ
  pub capture : CaptureObservation
  pub post_execution_sdr : SdrSnapshot

pub record CancelObservation : Type 0 where
  pub session_generation : ℕ
  pub cancel_requested : Bool

-- The trait `SdrActionExecutor`: an executor whose state is an `E`.
pub record SdrActionExecutor (V E : Type 0) : Type 0 where
  pub execute :
      ValidatedPlan → ExecutionAuthorization → E → Result (SdrError V) ExecutionObservation × E
  pub cancel : ℕ → E → Result (SdrError V) CancelObservation × E
