-- ===== src/Tests/Recognitions.antt =====
-- Recognitions after the tests of recognizer.rs, over a worker that answers once.
use sdr_pi.Base.{
  ℕ, suc, ◌+◌, ◌*◌, ◌≡◌, ◌↔◌, refl, true, false, none, some, arith, String, List, [], ◌∷◌, Result,
  ok, err, ◌=s◌, if◌then◌else◌,
}
use sdr_pi.Recognizer.{
  IqSampleFormat, IqLayout, IqNormalization, RecognitionRequest, RecognitionOutput,
  RecognitionAlternative, RecognitionResponse, RecognitionStatus, validate_request, validate_output,
  validate_response, SpoolFiles, WorkerSocket, socket_classify, replay_classify,
}
use sdr_pi.Recognizer.Requests.{IsRequest, validate_request_iff}
use sdr_pi.Recognizer.Outputs.{IsOutput, validate_output_iff}
use sdr_pi.Recognizer.Answers.{IsAnswer, validate_response-IsAnswer}

abbrev test_request : RecognitionRequest
test_request = record {
  protocol_version = 1;
  request_id = 7;
  session_generation = 3;
  candidate_id = "candidate-1";
  iq = record {
    storage = record { path = "/spool/1.iq"; offset_bytes = 0; length_bytes = 16_384 };
    sample_format = IqSampleFormat.f32_le;
    layout = IqLayout.planar_iq;
    normalization = IqNormalization.unit_rms;
    samples_per_channel = 2_048;
    sample_rate_hz = 2_000_000;
    center_hz = 2_400_000_000;
  };
  max_latency_ms = 250;
}

-- a confidence of 0.75, and of 0.125 for the alternative
abbrev test_output : RecognitionOutput
test_output = record {
  candidate_id = "candidate-1";
  label = "GFSK";
  confidence = 0x3f400000;
  alternatives = record { label = "QPSK"; confidence = 0x3e000000 } ∷ [];
  backend = record {
    runtime = "mnn";
    runtime_version = "2.9.5";
    model_id = "model-1";
    model_sha256 = "0000000000000000000000000000000000000000000000000000000000000000";
    threads = 1;
  };
  timing = record { map_us = 1; preprocess_us = 2; inference_us = 3; total_us = 7 };
}

abbrev test_response : RecognitionResponse
test_response = record {
  protocol_version = 1;
  request_id = 7;
  session_generation = 3;
  status = RecognitionStatus.ok;
  output = some test_output;
  error = none;
}

-- a spool of one file, of 16384 bytes
abbrev test_files : SpoolFiles (Unit {0})
test_files = record {
  canonicalize =
      λ path n. (ok (if path =s "/spool" then "spool" ∷ [] else "spool" ∷ "1.iq" ∷ []), n);
  metadata = λ path n. (ok (true, 16_384), n);
  to_str = λ path. some "/spool/1.iq";
}

abbrev test_socket : WorkerSocket (Unit {0})
test_socket = record {
  connect = λ path n. (ok tt, n);
  set_read_timeout = λ timeout n. (ok tt, n);
  set_write_timeout = λ timeout n. (ok tt, n);
  write_all = λ frame n. (ok tt, n);
  read_until = λ limit n. (ok (123 ∷ 125 ∷ 10 ∷ []), n);
  encode = λ request. ok (123 ∷ 125 ∷ []);
  decode = λ frame. ok test_response;
}

validate_request_iff_example : (validate_request test_request ≡ ok tt) ↔ IsRequest test_request
validate_request_iff_example = validate_request_iff test_request

validate_output_iff_example :
    (validate_output test_request test_output ≡ ok tt) ↔ IsOutput test_request test_output
validate_output_iff_example = validate_output_iff test_request test_output

validate_response-IsAnswer_example :
    (validate_response test_request test_response ≡ ok test_output)
    ↔ IsAnswer test_request test_response test_output
validate_response-IsAnswer_example =
    validate_response-IsAnswer test_request test_response test_output

answers : validate_response test_request test_response ≡ ok test_output
unfolding validate_response validate_output sdr_pi.Recognizer.is_text sdr_pi.Base.byte_len
    sdr_pi.Base.all_chars sdr_pi.Base.is_control sdr_pi.Recognizer.is_confidence
    sdr_pi.Base.is_finite sdr_pi.Base.le_f32 sdr_pi.Recognizer.contains_label
answers = refl

classifies :
    (socket_classify test_files test_socket "/run/recognizer.sock" "/spool" 250 test_request tt).0
    ≡ ok test_output
unfolding socket_classify validate_request sdr_pi.Recognizer.is_text sdr_pi.Base.byte_len
    sdr_pi.Base.all_chars sdr_pi.Base.is_control sdr_pi.Recognizer.is_power_below
    sdr_pi.Recognizer.validate_spool_file sdr_pi.Recognizer.is_below sdr_pi.Recognizer.check_range
    sdr_pi.Recognizer.request_frame sdr_pi.Recognizer.ask_worker sdr_pi.Recognizer.read_response
    validate_response validate_output sdr_pi.Recognizer.is_confidence sdr_pi.Base.is_finite
    sdr_pi.Base.le_f32 sdr_pi.Recognizer.accept_output sdr_pi.Recognizer.accept_status
    sdr_pi.Recognizer.accounted_us sdr_pi.Recognizer.contains_label sdr_pi.Recognizer.report_failure
    sdr_pi.Recognizer.validate_alternatives sdr_pi.Recognizer.validate_backend
    sdr_pi.Recognizer.validate_timing
classifies = refl

replays : (replay_classify test_request (test_output ∷ [])) ≡ (ok test_output, [])
unfolding replay_classify validate_request sdr_pi.Recognizer.is_text sdr_pi.Base.byte_len
    sdr_pi.Base.all_chars sdr_pi.Base.is_control sdr_pi.Recognizer.is_power_below validate_output
    sdr_pi.Recognizer.is_confidence sdr_pi.Base.is_finite sdr_pi.Base.le_f32
    sdr_pi.Recognizer.contains_label
replays = refl
