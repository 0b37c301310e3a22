-- ===== src/Execution/Adapter.antt =====
-- execution.rs: `SdrdActionAdapter`, which executes a capture in a session of the SDRD daemon.
use sdr_pi.Base.{
  ℕ, zero, suc, String, Bool, true, false, not, ◌&&◌, ◌||◌, ok, err, ok_or, checked_mul, min, ◌==◌,
  ◌=s◌, leb, if◌then◌else◌, decimal, ◌+++◌, byte_len,
}
use sdr_pi.Base.Action.{Action, ◌>>=◌, ◌>>◌, pure, raise, lift, attempt, ignore}
use sdr_pi.Protocol.{ValidatedPlan, ProposedAction, capture_bounded_iq}
use sdr_pi.Sdr.{SdrError, sdr_error, SdrSnapshot}
use sdr_pi.Sdr.Wire.{Wire, request, pause}
use sdr_pi.Sdr.Observe.{ObserveShapes, sdrd_observe}
use sdr_pi.Execution.Authorization.{
  ExecutionAuthorization, ExecutionObservation, CaptureObservation, CancelObservation,
  SdrActionExecutor, validate_authorization,
}
use sdr_pi.Execution.Responses.{
  ExecuteShapes, CaptureResponse, is_uncontrolled, is_incapable, is_unarmed, is_other_profile,
  is_inconsistent, is_unrestored, is_uncancelled, validate_capture_response,
}

-- `if condition { return Err(SdrError::new(code, message)); }`
abbrev pub refuse_if : {V N : Type 0} → Bool → String → String → Action N (SdrError V) (Unit {0})
refuse_if condition code message = if condition then raise (sdr_error code message) else pure tt

-- what a capture asks for; `timeout_ms` is that of the capture command
pub record Capture : Type 0 where
  pub generation : ℕ
  pub candidate_id : String
  pub center_hz : ℕ
  pub sample_rate_hz : ℕ
  pub rf_bandwidth_hz : ℕ
  pub samples : ℕ
  pub max_bytes : ℕ
  pub feature_id : String
  pub timeout_ms : ℕ

unfoldable pub profile_arguments : Capture → String
profile_arguments c =
    decimal c.generation
    +++ " "
    +++ decimal c.center_hz
    +++ " "
    +++ decimal c.sample_rate_hz
    +++ " "
    +++ decimal c.rf_bandwidth_hz
    +++ " slow_attack 1"

unfoldable pub capture_arguments : Capture → String
capture_arguments c =
    decimal c.generation
    +++ " "
    +++ decimal c.samples
    +++ " "
    +++ decimal c.max_bytes
    +++ " "
    +++ c.feature_id
    +++ " "
    +++ decimal c.timeout_ms

-- `format!("agent-{}-{}", plan.session_generation, plan.request_id)`
unfoldable pub feature_id_of : ValidatedPlan → String
feature_id_of plan =
    "agent-" +++ decimal plan.session_generation +++ "-" +++ decimal plan.request_id

-- the capture that a plan stands for
abbrev pub capture_of :
    ℕ → ValidatedPlan → String → (center rate bandwidth samples max_bytes : ℕ) → Capture
capture_of timeout plan candidate_id center_hz sample_rate_hz rf_bandwidth_hz samples max_bytes =
    record {
      generation = plan.session_generation;
      candidate_id = candidate_id;
      center_hz = center_hz;
      sample_rate_hz = sample_rate_hz;
      rf_bandwidth_hz = rf_bandwidth_hz;
      samples = samples;
      max_bytes = max_bytes;
      feature_id = feature_id_of plan;
      timeout_ms = min timeout 5_000;
    }

abbrev pub observation_of : Capture → CaptureResponse → CaptureObservation
observation_of c response = record {
  candidate_id = c.candidate_id;
  feature_id = c.feature_id;
  relative_path = response.relative_path;
  samples_captured = response.samples_captured;
  bytes_written = response.bytes_written;
  sequence = response.sequence;
  dropped_samples = response.dropped_samples;
  overflow = response.overflow;
  timeout = response.timeout;
  health = response.health;
}

-- a busy answer, which is worth another attempt
abbrev pub is_busy : {V : Type 0} → SdrError V → Bool
is_busy e = (e.code =s "remote_error") && (e.message =s "server_busy")

abbrev pub max_busy_retries : ℕ
max_busy_retries = 20

module _ {V N : Type 0} (wire : Wire V N) (shapes : ExecuteShapes V) where
  -- the commands before the session
  unfoldable pub check_endpoint : ℕ → Action N (SdrError V) (Unit {0})
  check_endpoint max_bytes = do
    hello ← request wire shapes.hello "HELLO" ""
    refuse_if (is_uncontrolled hello) "controlled_mode_unavailable"
        "SDRD is not the expected controlled endpoint"
    capabilities ← request wire shapes.capabilities "CAPABILITIES" ""
    refuse_if (is_incapable capabilities max_bytes) "execution_capability"
        "SDRD cannot execute the bounded IQ request"

  -- the closure `execution` up to `session_started = true`
  unfoldable pub start_session : ℕ → Action N (SdrError V) (Unit {0})
  start_session generation = do
    start ← request wire shapes.start "START_SESSION" (decimal generation)
    refuse_if (is_unarmed start generation) "session_start" "SDRD did not arm state restoration"

  -- the commands of the closure from there on, in order
  unfoldable pub apply_profile : Capture → Action N (SdrError V) (Unit {0})
  apply_profile c = do
    profile ← request wire shapes.profile "APPLY_PROFILE" (profile_arguments c)
    refuse_if (is_other_profile profile c.generation c.center_hz c.sample_rate_hz c.rf_bandwidth_hz)
        "profile_response" "SDRD profile response does not match the request"

  unfoldable pub capture_iq : Capture → Action N (SdrError V) CaptureResponse
  capture_iq c = do
    response ← request wire shapes.capture "CAPTURE_IQ" (capture_arguments c)
    lift (
        validate_capture_response response c.generation c.samples c.max_bytes c.timeout_ms
          c.feature_id)
    pure response

  unfoldable pub confirm_status : ℕ → Action N (SdrError V) (Unit {0})
  confirm_status generation = do
    status ← request wire shapes.status "EXECUTION_STATUS" (decimal generation)
    refuse_if (is_inconsistent status generation) "execution_status"
        "SDRD execution status is inconsistent"

  unfoldable pub stop_session : ℕ → Action N (SdrError V) (Unit {0})
  stop_session generation = do
    stop ← request wire shapes.stop "STOP_SESSION" (decimal generation)
    refuse_if (is_unrestored stop generation) "restore_response"
        "SDRD did not confirm stop and restoration"

  -- up to `session_started = false`
  unfoldable pub capture_in_session : Capture → Action N (SdrError V) CaptureResponse
  capture_in_session c = do
    apply_profile c
    response ← capture_iq c
    confirm_status c.generation
    stop_session c.generation
    pure response

  -- the end of the closure
  unfoldable pub quit_session : Action N (SdrError V) (Unit {0})
  quit_session = do
    quit ← request wire shapes.quit "QUIT" ""
    refuse_if (not quit.closing) "quit_rejected" "SDRD did not close the session"

  -- the branch of the error: a session that was started is stopped, and the connection is closed
  unfoldable pub clean_up : Bool → ℕ → SdrError V → {X : Type 0} → Action N (SdrError V) X
  clean_up session_started generation e = do
    (if session_started
        then ignore (request wire shapes.stop "STOP_SESSION" (decimal generation))
        else pure tt)
    ignore (request wire shapes.quit "QUIT" "")
    raise e

  -- `m`, and the error branch if it fails
  abbrev pub or_clean_up :
      {X : Type 0} → Bool → ℕ → Action N (SdrError V) X → Action N (SdrError V) X
  or_clean_up session_started generation m = do
    outcome ← attempt m
    elim outcome [ ok x ↦ pure x | err e ↦ clean_up session_started generation e ]

  -- the closure and the branch of its error
  unfoldable pub run_session : Capture → Action N (SdrError V) CaptureObservation
  run_session c = do
    or_clean_up false c.generation (start_session c.generation)
    response ← or_clean_up true c.generation (capture_in_session c)
    or_clean_up false c.generation quit_session
    pure (observation_of c response)

module _ {V N : Type 0} (wire : Wire V N) (observe_shapes : ObserveShapes V) (timeout : ℕ) where
  -- the loop of `observe_after_worker_release` with the attempts that are left after the next one
  unfoldable pub observe_retrying : ℕ → Action N (SdrError V) SdrSnapshot
  observe_retrying zero = sdrd_observe wire observe_shapes timeout
  observe_retrying (suc retries) = do
    outcome ← attempt (sdrd_observe wire observe_shapes timeout)
    elim outcome [
      | ok snapshot ↦ pure snapshot
      | err e ↦ elim (is_busy e) [
        | true ↦ pause wire 10 >> observe_retrying retries
        | false ↦ raise e
      ]
    ]

  unfoldable pub observe_after_worker_release : Action N (SdrError V) SdrSnapshot
  observe_after_worker_release = observe_retrying max_busy_retries

module _ {V N : Type 0} (wire : Wire V N) (shapes : ExecuteShapes V)
    (observe_shapes : ObserveShapes V) (timeout : ℕ) where
  -- from the connection on
  unfoldable pub capture_and_observe :
      ValidatedPlan → Capture → Action N (SdrError V) ExecutionObservation
  capture_and_observe plan c = do
    wire.connect timeout
    check_endpoint wire shapes c.max_bytes
    capture ← run_session wire shapes c
    post_execution_sdr ← observe_after_worker_release wire observe_shapes timeout
    refuse_if (not post_execution_sdr.online || not post_execution_sdr.healthy)
        "post_execution_health" "SDR is not healthy after execution and restoration"
    pure (record {
      request_id = plan.request_id;
      session_generation = plan.session_generation;
      capture = capture;
      post_execution_sdr = post_execution_sdr;
    })

  -- `SdrdActionAdapter::execute_capture`
  unfoldable pub sdrd_execute_capture :
      ValidatedPlan
      → String
      → (center rate bandwidth samples : ℕ) → Action N (SdrError V) ExecutionObservation
  sdrd_execute_capture plan candidate_id center_hz sample_rate_hz rf_bandwidth_hz samples = do
    max_bytes ←
        lift (ok_or (checked_mul samples 4) (sdr_error "capture_bytes" "IQ byte count overflow"))
    refuse_if (leb 64 (byte_len (feature_id_of plan))) "feature_id"
        "derived execution feature id exceeds the SDRD limit"
    capture_and_observe plan (
        capture_of timeout plan candidate_id center_hz sample_rate_hz rf_bandwidth_hz samples
          max_bytes)

  -- `match &plan.action`
  abbrev pub perform_action :
      ValidatedPlan → ProposedAction → Action N (SdrError V) ExecutionObservation
  perform_action plan (capture_bounded_iq id center rate bandwidth samples) =
      sdrd_execute_capture plan id center rate bandwidth samples
  perform_action plan _ =
      raise (sdr_error "unsupported_action" "this executor slice supports only capture_bounded_iq")

  unfoldable pub sdrd_execute :
      ValidatedPlan → ExecutionAuthorization → Action N (SdrError V) ExecutionObservation
  sdrd_execute plan authorization = do
    lift (validate_authorization plan authorization)
    perform_action plan plan.action

  unfoldable pub sdrd_cancel : ℕ → Action N (SdrError V) CancelObservation
  sdrd_cancel session_generation = do
    refuse_if (session_generation == 0) "cancel_generation" "cancel generation must be non-zero"
    wire.connect timeout
    response ← request wire shapes.cancel "CANCEL_SESSION" (decimal session_generation)
    refuse_if (is_uncancelled response session_generation) "cancel_response"
        "SDRD did not acknowledge the requested generation cancellation"
    pure (record { session_generation = session_generation; cancel_requested = true })

  abbrev pub sdrd_executor : SdrActionExecutor V N
  sdrd_executor = record { execute = sdrd_execute; cancel = sdrd_cancel }
