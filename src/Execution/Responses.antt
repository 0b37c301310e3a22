-- ===== src/Execution/Responses.antt =====
-- execution.rs: the responses of a capture session and their checks. Fields that the code never reads
-- are left out, and the decoders (serde) are parameters.
use sdr_pi.Base.{
  ℕ, String, Bool, not, ◌||◌, none, some, Result, ok, err, checked_mul, ◌==◌, ◌=s◌, ltb,
  if◌then◌else◌, ◌+++◌, starts_with, contains_text,
}
use sdr_pi.Sdr.{SdrError, sdr_error}
use sdr_pi.Sdr.Observe.{HelloResponse, CapabilitiesResponse, QuitResponse}
use sdr_pi.Execution.Authorization.{ExecutionTimeoutMetadata, ExecutionHealthMetadata}

pub record StartResponse : Type 0 where
  pub generation : ℕ
  pub session_generation : ℕ
  pub session_state : String
  pub restore_armed : Bool

pub record ProfileResponse : Type 0 where
  pub generation : ℕ
  pub session_generation : ℕ
  pub center_hz : ℕ
  pub sample_rate_hz : ℕ
  pub rf_bandwidth_hz : ℕ
  pub gain_mode : String
  pub enabled_channels : ℕ

pub record CaptureResponse : Type 0 where
  pub generation : ℕ
  pub session_generation : ℕ
  pub feature_id : String
  pub samples_captured : ℕ
  pub bytes_written : ℕ
  pub sequence : ℕ
  pub dropped_samples : ℕ
  pub overflow : Bool
  pub timeout : ExecutionTimeoutMetadata
  pub health : ExecutionHealthMetadata
  pub relative_path : String

pub record StatusResponse : Type 0 where
  pub generation : ℕ
  pub session_generation : ℕ
  pub active : Bool
  pub profile_applied : Bool
  pub restore_armed : Bool
  pub faulted : Bool

pub record StopResponse : Type 0 where
  pub generation : ℕ
  pub session_generation : ℕ
  pub stopped : Bool
  pub restored : Bool

pub record CancelResponse : Type 0 where
  pub generation : ℕ
  pub session_generation : ℕ
  pub cancel_requested : Bool

pub record ExecuteShapes (V : Type 0) : Type 0 where
  pub hello : V → Result String HelloResponse
  pub capabilities : V → Result String CapabilitiesResponse
  pub start : V → Result String StartResponse
  pub profile : V → Result String ProfileResponse
  pub capture : V → Result String CaptureResponse
  pub status : V → Result String StatusResponse
  pub stop : V → Result String StopResponse
  pub quit : V → Result String QuitResponse
  pub cancel : V → Result String CancelResponse

-- not the controlled endpoint; the sweep has the same test
abbrev pub is_uncontrolled : HelloResponse → Bool
is_uncontrolled hello =
    not (hello.server =s "p201-sdrd")
    || not (hello.protocol =s "SDRD/1")
    || not (hello.mode =s "controlled")
    || not hello.mutating_commands

abbrev pub is_incapable : CapabilitiesResponse → ℕ → Bool
is_incapable capabilities max_bytes =
    not (capabilities.mode =s "controlled")
    || not capabilities.iio_visible
    || not capabilities.radio_control
    || not capabilities.raw_iq_capture
    || ltb capabilities.max_capture_bytes max_bytes

abbrev pub is_unarmed : StartResponse → ℕ → Bool
is_unarmed start generation =
    not (start.generation == generation)
    || not (start.session_generation == generation)
    || not (start.session_state =s "owned")
    || not start.restore_armed

abbrev pub is_other_profile : ProfileResponse → (generation center rate bandwidth : ℕ) → Bool
is_other_profile profile generation center_hz sample_rate_hz rf_bandwidth_hz =
    not (profile.generation == generation)
    || not (profile.session_generation == generation)
    || not (profile.center_hz == center_hz)
    || not (profile.sample_rate_hz == sample_rate_hz)
    || not (profile.rf_bandwidth_hz == rf_bandwidth_hz)
    || not (profile.gain_mode =s "slow_attack")
    || not (profile.enabled_channels == 1)

abbrev pub is_inconsistent : StatusResponse → ℕ → Bool
is_inconsistent status generation =
    not (status.generation == generation)
    || not (status.session_generation == generation)
    || not status.active
    || not status.profile_applied
    || not status.restore_armed
    || status.faulted

-- the sweep has the same test
abbrev pub is_unrestored : StopResponse → ℕ → Bool
is_unrestored stop generation =
    not (stop.generation == generation)
    || not (stop.session_generation == generation)
    || not stop.stopped
    || not stop.restored

abbrev pub is_uncancelled : CancelResponse → ℕ → Bool
is_uncancelled response session_generation =
    not (response.generation == session_generation)
    || not (response.session_generation == session_generation)
    || not response.cancel_requested

-- the long condition of `validate_capture_response`
abbrev pub is_violation :
    CaptureResponse → (generation samples max_bytes timeout_ms : ℕ) → String → ℕ → Bool
is_violation response generation samples max_bytes timeout_ms feature_id shaped_bytes =
    not (response.generation == generation)
    || not (response.session_generation == generation)
    || not (response.feature_id =s feature_id)
    || ltb samples response.samples_captured
    || ltb max_bytes response.bytes_written
    || not (response.bytes_written == shaped_bytes)
    || contains_text response.relative_path ".."
    || not (starts_with response.relative_path (feature_id +++ "/"))
    || response.overflow
    || not (response.dropped_samples == 0)
    || not (response.timeout.limit_ms == timeout_ms)
    || response.timeout.timed_out
    || not response.health.healthy
    || not (response.health.flags == 0)
    || not (response.health.source =s "iio_adapter")

unfoldable pub validate_capture_response :
    {V : Type 0}
    → CaptureResponse
    → (generation samples max_bytes timeout_ms : ℕ) → String
    → Result (SdrError V) (Unit {0})
unfolding contains_text
validate_capture_response response generation samples max_bytes timeout_ms feature_id =
    elim (checked_mul response.samples_captured 4) [
      | none ↦ err (sdr_error "capture_response" "capture byte count overflow")
      | some shaped_bytes ↦
          if is_violation response generation samples max_bytes timeout_ms feature_id shaped_bytes
          then err
              (sdr_error "capture_response" "SDRD capture response violates the execution contract")
          else ok tt
    ]
