-- ===== src/Recognizer/Messages.antt =====
-- recognizer.rs: requests, outputs, responses and errors.
use sdr_pi.Base.{ℕ, F32, String, Option, List}

abbrev pub recognizer_protocol_version : ℕ
recognizer_protocol_version = 1

abbrev pub recognizer_max_frame_bytes : ℕ
recognizer_max_frame_bytes = 16384

abbrev pub recognizer_max_samples_per_channel : ℕ
recognizer_max_samples_per_channel = 16384

abbrev pub recognizer_max_alternatives : ℕ
recognizer_max_alternatives = 8

pub record IqFileRef : Type 0 where
  pub path : String
  pub offset_bytes : ℕ
  pub length_bytes : ℕ

pub data IqSampleFormat : Type 0 where
  f32_le : IqSampleFormat

pub data IqLayout : Type 0 where
  planar_iq : IqLayout

pub data IqNormalization : Type 0 where
  unit_rms : IqNormalization

pub record BoundedIqRef : Type 0 where
  pub storage : IqFileRef
  pub sample_format : IqSampleFormat
  pub layout : IqLayout
  pub normalization : IqNormalization
  pub samples_per_channel : ℕ
  pub sample_rate_hz : ℕ
  pub center_hz : ℕ

pub record RecognitionRequest : Type 0 where
  pub protocol_version : ℕ
  pub request_id : ℕ
  pub session_generation : ℕ
  pub candidate_id : String
  pub iq : BoundedIqRef
  pub max_latency_ms : ℕ

pub record RecognitionAlternative : Type 0 where
  pub label : String
  pub confidence : F32

pub record RecognizerBackend : Type 0 where
  pub runtime : String
  pub runtime_version : String
  pub model_id : String
  pub model_sha256 : String
  pub threads : ℕ

pub record RecognitionTiming : Type 0 where
  pub map_us : ℕ
  pub preprocess_us : ℕ
  pub inference_us : ℕ
  pub total_us : ℕ

pub record RecognitionOutput : Type 0 where
  pub candidate_id : String
  pub label : String
  pub confidence : F32
  pub alternatives : List RecognitionAlternative
  pub backend : RecognizerBackend
  pub timing : RecognitionTiming

pub data RecognitionStatus : Type 0 where
  ok error unavailable : RecognitionStatus

pub record RecognitionResponse : Type 0 where
  pub protocol_version : ℕ
  pub request_id : ℕ
  pub session_generation : ℕ
  pub status : RecognitionStatus
  pub output : Option RecognitionOutput
  pub error : Option String

pub record RecognizerError : Type 0 where
  pub code : String
  pub message : String
