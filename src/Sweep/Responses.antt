-- ===== src/Sweep/Responses.antt =====
-- sweep.rs: the responses of a sweep session and their checks. Fields that the code never reads are
-- left out; the decoders (serde) are parameters. The samples of a capture are the bytes of its text.
use sdr_pi.Base.{
  ℕ, ℤ, pos, negsuc, suc, String, Bool, true, false, not, ◌||◌, Option, none, some, List, Result,
  ok, err, ok_or, ◌>>=◌, checked_mul, ◌==◌, ◌=s◌, ltb, if◌then◌else◌, abs_diff, decimal, ◌+++◌,
}
use sdr_pi.Sdr.Observe.{HelloResponse, QuitResponse}
use sdr_pi.Execution.{ExecutionTimeoutMetadata, ExecutionHealthMetadata}
use sdr_pi.Execution.Responses.{StopResponse}
use sdr_pi.Sweep.Plan.{ValidatedSweepPlan, SweepError, sweep_error}

pub record CapabilitiesResponse : Type 0 where
  pub iio_visible : Bool
  pub radio_control : Bool
  pub raw_iq_capture : Bool

pub record StartResponse : Type 0 where
  pub generation : ℕ
  pub session_generation : ℕ
  pub restore_armed : Bool

pub record ProfileResponse : Type 0 where
  pub generation : ℕ
  pub session_generation : ℕ
  pub center_hz : ℕ
  pub sample_rate_hz : ℕ
  pub rf_bandwidth_hz : ℕ
  pub gain_mode : String
  pub hardware_gain_db : Option ℤ

pub record InlineCaptureResponse : Type 0 where
  pub request_id : ℕ
  pub generation : ℕ
  pub session_generation : ℕ
  pub samples_captured : ℕ
  pub bytes_transferred : ℕ
  pub sequence : ℕ
  pub dropped_samples : ℕ
  pub overflow : Bool
  pub timeout : ExecutionTimeoutMetadata
  pub health : ExecutionHealthMetadata
  pub iq_base64 : List ℕ

pub record SweepShapes (V : Type 0) : Type 0 where
  pub hello : V → Result String HelloResponse
  pub capabilities : V → Result String CapabilitiesResponse
  pub start : V → Result String StartResponse
  pub profile : V → Result String ProfileResponse
  pub capture : V → Result String InlineCaptureResponse
  pub stop : V → Result String StopResponse
  pub quit : V → Result String QuitResponse

-- equality of integers, and of settings of the gain
abbrev pub same_int : ℤ → ℤ → Bool
same_int (pos m) (pos n) = m == n
same_int (negsuc m) (negsuc n) = m == n
same_int _ _ = false

abbrev pub same_gain : Option ℤ → Option ℤ → Bool
same_gain none none = true
same_gain (some a) (some b) = same_int a b
same_gain _ _ = false

abbrev pub is_unarmed : StartResponse → ℕ → Bool
is_unarmed start generation =
    not (start.generation == generation)
    || not (start.session_generation == generation)
    || not start.restore_armed

-- the mode of the gain that a plan asks for
abbrev pub gain_mode_of : Option ℤ → String
gain_mode_of none = "slow_attack"
gain_mode_of (some gain_db) = "manual"

abbrev pub is_other_profile : ProfileResponse → ValidatedSweepPlan → ℕ → Bool
is_other_profile profile plan center_hz =
    not (profile.generation == plan.session_generation)
    || not (profile.session_generation == plan.session_generation)
    || ltb 2 (abs_diff profile.center_hz center_hz)
    || not (profile.sample_rate_hz == plan.sample_rate_hz)
    || not (profile.rf_bandwidth_hz == plan.rf_bandwidth_hz)
    || not (profile.gain_mode =s gain_mode_of plan.gain_db)
    || not (same_gain profile.hardware_gain_db plan.gain_db)

abbrev pub is_other_capture :
    InlineCaptureResponse → ValidatedSweepPlan → (samples bytes : ℕ) → Bool
is_other_capture capture plan captured_samples bytes =
    not (capture.generation == plan.session_generation)
    || not (capture.session_generation == plan.session_generation)
    || not (capture.samples_captured == captured_samples)
    || not (capture.bytes_transferred == bytes)
    || not (capture.dropped_samples == 0)
    || capture.overflow
    || not (capture.timeout.limit_ms == plan.point_timeout_ms)
    || capture.timeout.timed_out
    || not capture.health.healthy
    || not (capture.health.flags == 0)
    || not (capture.health.source =s "iio_adapter")

-- an integer as `format!` prints it
unfoldable pub decimal_int : ℤ → String
decimal_int (pos n) = decimal n
decimal_int (negsuc n) = "-" +++ decimal (suc n)

abbrev pub gain_arguments : Option ℤ → String
gain_arguments none = " slow_attack 1"
gain_arguments (some gain_db) = " manual " +++ decimal_int gain_db +++ " 1"

unfoldable pub profile_args : ValidatedSweepPlan → ℕ → String
profile_args plan center_hz =
    decimal plan.session_generation
    +++ " "
    +++ decimal center_hz
    +++ " "
    +++ decimal plan.sample_rate_hz
    +++ " "
    +++ decimal plan.rf_bandwidth_hz
    +++ gain_arguments plan.gain_db

unfoldable pub capture_args : ValidatedSweepPlan → (point_index samples bytes : ℕ) → String
capture_args plan point_index captured_samples bytes =
    decimal plan.session_generation
    +++ " "
    +++ decimal captured_samples
    +++ " "
    +++ decimal bytes
    +++ " agx-sweep-"
    +++ decimal plan.session_generation
    +++ "-"
    +++ decimal point_index
    +++ " "
    +++ decimal plan.point_timeout_ms

abbrev pub max_inline_bytes : ℕ
max_inline_bytes = 262144

-- the samples and the bytes of a point
unfoldable pub capture_size : {V : Type 0} → ValidatedSweepPlan → Result (SweepError V) (ℕ × ℕ)
capture_size plan = do
  captured_samples ←
      ok_or (checked_mul plan.frame_samples plan.aggregate_frames)
        (sweep_error "sample_count" "sample count overflow")
  bytes ←
      ok_or (checked_mul captured_samples 4) (sweep_error "sample_count" "IQ byte count overflow")
  (if ltb max_inline_bytes bytes
      then err (
          sweep_error "agx_capture_size"
            "one AGX software-aggregate point exceeds the 256 KiB transport frame")
      else ok (captured_samples, bytes))
