-- ===== src/Recognizer/Checks.antt =====
-- recognizer.rs: the checks of a request, of an output and of a response. `validate_request` is that
-- without a spool root, as both adapters call it.
use sdr_pi.Base.{
  ℕ, zero, suc, ◌*◌, ◌%◌, ◌^◌, F32, String, Bool, false, not, ◌&&◌, ◌||◌, Option, none, some, List,
  [], ◌∷◌, Result, ok, err, ◌>>◌, ◌==◌, ◌=s◌, leb, contains, if◌then◌else◌, length, ◌+++◌, byte_len,
  is_control, all_chars, is_finite, le_f32, zero_f32, one_f32, checked_add,
}
use sdr_pi.Recognizer.Messages.{
  RecognitionRequest, RecognitionOutput, RecognitionAlternative, RecognizerBackend,
  RecognitionTiming, RecognitionResponse, RecognitionStatus, RecognizerError,
  recognizer_protocol_version, recognizer_max_samples_per_channel, recognizer_max_alternatives,
}

-- `RecognizerError::new`
abbrev pub recognizer_error : {X : Type 0} → String → String → Result RecognizerError X
recognizer_error code message = err (record { code = code; message = message })

-- `if !condition { return Err(...); }`
abbrev pub require : Bool → String → String → Result RecognizerError (Unit {0})
require condition code message = if condition then ok tt else recognizer_error code message

unfoldable pub is_text : String → ℕ → Bool
is_text value max_bytes =
    not (byte_len value == 0)
    && leb (byte_len value) max_bytes
    && all_chars (λ c. not (is_control c)) value

abbrev pub require_text : String → ℕ → String → Result RecognizerError (Unit {0})
require_text value max_bytes field =
    require (is_text value max_bytes) field
      (field +++ " is empty, too long, or contains control characters")

unfoldable pub is_confidence : F32 → Bool
is_confidence value = is_finite value && le_f32 zero_f32 value && le_f32 value one_f32

abbrev pub require_confidence : F32 → String → Result RecognizerError (Unit {0})
require_confidence value field =
    require (is_confidence value) field (field +++ " must be finite and between 0 and 1")

-- whether a number is one of the first powers of two
unfoldable pub is_power_below : ℕ → ℕ → Bool
is_power_below zero n = false
is_power_below (suc k) n = (n == 2 ^ k) || is_power_below k n

-- `u32::is_power_of_two`
abbrev pub is_power_of_two : ℕ → Bool
is_power_of_two n = is_power_below 32 n

-- The byte length of at most 16384 samples fits in 64 bits, so that the checked products of the source
-- do not fail.
unfoldable pub validate_request : RecognitionRequest → Result RecognizerError (Unit {0})
validate_request request = do
  require (request.protocol_version == recognizer_protocol_version) "protocol_version"
      "unsupported recognizer protocol version"
  require_text request.candidate_id 64 "candidate_id"
  require (not (request.max_latency_ms == 0) && leb request.max_latency_ms 5_000) "max_latency_ms"
      "max latency must be between 1 and 5000 ms"
  require
      (contains 256 recognizer_max_samples_per_channel request.iq.samples_per_channel
        && is_power_of_two request.iq.samples_per_channel)
      "samples_per_channel" "samples per channel must be a power of two between 256 and 16384"
  require (not (request.iq.sample_rate_hz == 0) && leb request.iq.sample_rate_hz 30_720_000)
      "sample_rate_hz" "sample rate must be between 1 and 30720000 Hz"
  require (leb request.iq.center_hz 6_000_000_000) "center_hz" "center frequency exceeds 6 GHz"
  require (request.iq.storage.length_bytes == request.iq.samples_per_channel * 2 * 4) "iq_length"
      "IQ byte length does not match planar float32 shape"
  require (request.iq.storage.offset_bytes % 4 == 0) "iq_offset"
      "IQ byte offset must be float32 aligned"
  require
      (not (byte_len request.iq.storage.path == 0) && leb (byte_len request.iq.storage.path) 1024)
      "iq_path" "IQ path must contain between 1 and 1024 bytes"

-- whether a label is in the set of those that were seen
unfoldable pub contains_label : String → List String → Bool
contains_label label [] = false
contains_label label (x ∷ seen) = (label =s x) || contains_label label seen

-- the loop over the alternatives
unfoldable pub validate_alternatives :
    List String → List RecognitionAlternative → Result RecognizerError (Unit {0})
validate_alternatives labels [] = ok tt
validate_alternatives labels (alternative ∷ rest) = do
  require_text alternative.label 128 "alternative_label"
  require_confidence alternative.confidence "alternative_confidence"
  require (not (contains_label alternative.label labels)) "duplicate_label"
      "recognizer returned a duplicate label"
  validate_alternatives (alternative.label ∷ labels) rest

-- `u8::is_ascii_hexdigit`; a text of such bytes is a text of such characters
abbrev pub is_ascii_hexdigit : ℕ → Bool
is_ascii_hexdigit c = contains b'0' b'9' c || contains b'a' b'f' c || contains b'A' b'F' c

unfoldable pub validate_backend : RecognizerBackend → Result RecognizerError (Unit {0})
validate_backend backend = do
  require_text backend.runtime 64 "runtime"
  require_text backend.runtime_version 64 "runtime_version"
  require_text backend.model_id 128 "model_id"
  require
      ((byte_len backend.model_sha256 == 64) && all_chars is_ascii_hexdigit backend.model_sha256)
      "model_sha256" "model SHA-256 must contain exactly 64 hexadecimal characters"
  require (not (backend.threads == 0) && leb backend.threads 4) "threads"
      "recognizer thread count must be between 1 and 4"

-- the time that is accounted for
unfoldable pub accounted_us : RecognitionTiming → Option ℕ
accounted_us timing = elim (checked_add timing.map_us timing.preprocess_us) [
  | none ↦ none
  | some value ↦ checked_add value timing.inference_us
]

unfoldable pub validate_timing : RecognitionTiming → ℕ → Result RecognizerError (Unit {0})
unfolding accounted_us
validate_timing timing max_latency_ms = elim (accounted_us timing) [
  | none ↦ recognizer_error "timing" "recognizer timing overflow"
  | some accounted ↦
      require (leb accounted timing.total_us && leb timing.total_us (max_latency_ms * 1_000))
        "timing" "recognizer timing is inconsistent or exceeds the request deadline"
]

unfoldable pub validate_output :
    RecognitionRequest → RecognitionOutput → Result RecognizerError (Unit {0})
unfolding validate_alternatives validate_backend validate_timing
validate_output request output = do
  require (output.candidate_id =s request.candidate_id) "candidate_id"
      "recognizer output refers to a different candidate"
  require_text output.label 128 "label"
  require_confidence output.confidence "confidence"
  require (leb (length output.alternatives) recognizer_max_alternatives) "alternatives"
      "recognizer returned more than 8 alternatives"
  validate_alternatives (output.label ∷ []) output.alternatives
  validate_backend output.backend
  validate_timing output.timing request.max_latency_ms

-- the branch of a successful response
unfoldable pub accept_output :
    RecognitionRequest
    → Option RecognitionOutput
    → Option String
    → Result RecognizerError RecognitionOutput
accept_output request output (some message) =
    recognizer_error "response_shape" "successful recognizer response contains an error"
accept_output request none none =
    recognizer_error "response_shape" "successful recognizer response has no output"
accept_output request (some output) none = validate_output request output >> ok output

-- the branch of a failed one
unfoldable pub report_failure :
    String → Option RecognitionOutput → Option String → Result RecognizerError RecognitionOutput
report_failure default (some output) message =
    recognizer_error "response_shape" "failed recognizer response contains an output"
report_failure default none none = recognizer_error "remote_error" default
report_failure default none (some message) = recognizer_error "remote_error" message

-- `match response.status`
unfoldable pub accept_status :
    RecognitionRequest
    → RecognitionStatus
    → Option RecognitionOutput
    → Option String
    → Result RecognizerError RecognitionOutput
unfolding accept_output report_failure
accept_status request RecognitionStatus.ok output message = accept_output request output message
accept_status request RecognitionStatus.error output message =
    report_failure "recognizer failed" output message
accept_status request RecognitionStatus.unavailable output message =
    report_failure "recognizer unavailable" output message

unfoldable pub validate_response :
    RecognitionRequest → RecognitionResponse → Result RecognizerError RecognitionOutput
unfolding accept_status
validate_response request response = do
  require (response.protocol_version == recognizer_protocol_version) "response_protocol_version"
      "unsupported recognizer response protocol version"
  require
      ((response.request_id == request.request_id)
        && (response.session_generation == request.session_generation))
      "response_correlation" "recognizer response does not match the active request"
  accept_status request response.status response.output response.error
