-- ===== src/Tests/Devices.antt =====
-- A daemon that answers from a list, and executions and observations against it.
use sdr_pi.Base.{
  ℕ, suc, ◌+◌, ◌*◌, ◌≡◌, ◌⊎◌, refl, inl, inr, true, false, none, some, arith, String, List, [], ◌∷◌,
  Result, ok, err, ◌≤◌, ◌↔◌, pos, is_blank, is_control, is_finite, le_f32, all_chars,
}
use sdr_pi.Sdr.{SdrError, sdr_error}
use sdr_pi.Sdr.Wire.{Wire}
use sdr_pi.Sdr.Observe.{
  HelloResponse, CapabilitiesResponse, HealthResponse, QuitResponse, ObserveShapes, sdrd_observe,
}
use sdr_pi.Sdr.Observed.{Reported, sdrd_observe-Reported}
use sdr_pi.Sdr.Recorded.{Reads, recorded}
use sdr_pi.Execution.{ExecutionAuthorization, ExecutionObservation, operator_approved}
use sdr_pi.Execution.Responses.{
  StartResponse, ProfileResponse, CaptureResponse, StatusResponse, StopResponse, CancelResponse,
  ExecuteShapes, validate_capture_response,
}
use sdr_pi.Execution.Adapter.{Capture, capture_of, feature_id_of, sdrd_execute, observe_retrying}
use sdr_pi.Execution.Executed.{Traced, sdrd_execute-Traced, observe_retrying-Reads}
use sdr_pi.Execution.Contract.{Fulfils, validate_capture_response_iff}
use sdr_pi.Execution.Fulfilled.{Executed}
use sdr_pi.Execution.{Queue, replay_executor}
use sdr_pi.Tests.Data.{test_plan, test_snapshot}

pub data Answer : Type 0 where
  hello : HelloResponse → Answer
  capabilities : CapabilitiesResponse → Answer
  health : HealthResponse → Answer
  quit : QuitResponse → Answer
  start : StartResponse → Answer
  profile : ProfileResponse → Answer
  capture : CaptureResponse → Answer
  status : StatusResponse → Answer
  stop : StopResponse → Answer
  cancel : CancelResponse → Answer

abbrev hello_of : Answer → Result String HelloResponse
hello_of (hello r) = ok r
hello_of _ = err "shape"

abbrev capabilities_of : Answer → Result String CapabilitiesResponse
capabilities_of (capabilities r) = ok r
capabilities_of _ = err "shape"

abbrev health_in : Answer → Result String HealthResponse
health_in (health r) = ok r
health_in _ = err "shape"

abbrev quit_of : Answer → Result String QuitResponse
quit_of (quit r) = ok r
quit_of _ = err "shape"

abbrev start_of : Answer → Result String StartResponse
start_of (start r) = ok r
start_of _ = err "shape"

abbrev profile_of : Answer → Result String ProfileResponse
profile_of (profile r) = ok r
profile_of _ = err "shape"

abbrev capture_in : Answer → Result String CaptureResponse
capture_in (capture r) = ok r
capture_in _ = err "shape"

abbrev status_of : Answer → Result String StatusResponse
status_of (status r) = ok r
status_of _ = err "shape"

abbrev stop_of : Answer → Result String StopResponse
stop_of (stop r) = ok r
stop_of _ = err "shape"

abbrev cancel_of : Answer → Result String CancelResponse
cancel_of (cancel r) = ok r
cancel_of _ = err "shape"

abbrev pub observe_shapes : ObserveShapes Answer
observe_shapes = record {
  hello = hello_of;
  capabilities = capabilities_of;
  health = health_in;
  quit = quit_of;
}

abbrev pub execute_shapes : ExecuteShapes Answer
execute_shapes = record {
  hello = hello_of;
  capabilities = capabilities_of;
  start = start_of;
  profile = profile_of;
  capture = capture_in;
  status = status_of;
  stop = stop_of;
  quit = quit_of;
  cancel = cancel_of;
}

abbrev next_answer : List Answer → Result (SdrError Answer) Answer × List Answer
next_answer [] = (err (sdr_error "read_response" "closed"), [])
next_answer (a ∷ rest) = (ok a, rest)

abbrev pub test_wire : Wire Answer (List Answer)
test_wire = record {
  connect = λ timeout n. (ok tt, n);
  exchange = λ command arguments n. next_answer n;
  sleep = λ ms n. n;
}

abbrev pub test_hello : HelloResponse
test_hello = record {
  server = "p201-sdrd";
  protocol = "SDRD/1";
  mode = "controlled";
  mutating_commands = true;
}

abbrev test_capabilities : CapabilitiesResponse
test_capabilities = record {
  mode = "controlled";
  iio_visible = true;
  radio_control = true;
  raw_iq_capture = true;
  max_capture_bytes = 4_194_304;
}

abbrev test_health : HealthResponse
test_health = record {
  healthy = true;
  health_flags = 0;
  iio_phy_visible = true;
  iio_rx_visible = true;
  session_faulted = false;
}

abbrev closing : Answer
closing = quit (record { closing = true })

-- the answers to an observation
abbrev observed : List Answer
observed = hello test_hello ∷ capabilities test_capabilities ∷ health test_health ∷ closing ∷ []

-- a capture of fewer samples than the plan's
abbrev captured : CaptureResponse
captured = record {
  generation = 7;
  session_generation = 7;
  feature_id = "agent-7-42";
  samples_captured = 500_000;
  bytes_written = 2_000_000;
  sequence = 1;
  dropped_samples = 0;
  overflow = false;
  timeout = record { limit_ms = 2_000; elapsed_us = 10; timed_out = false };
  health = record { healthy = true; flags = 0; source = "iio_adapter" };
  relative_path = "agent-7-42/1.ci16";
}

-- the answers to the commands of a session
abbrev pub session : List Answer
session =
    hello test_hello
    ∷ capabilities test_capabilities
    ∷ start (record {
      generation = 7;
      session_generation = 7;
      session_state = "owned";
      restore_armed = true;
    })
    ∷ profile (record {
      generation = 7;
      session_generation = 7;
      center_hz = 2_437_000_000;
      sample_rate_hz = 10_000_000;
      rf_bandwidth_hz = 8_000_000;
      gain_mode = "slow_attack";
      enabled_channels = 1;
    })
    ∷ capture captured
    ∷ status (record {
      generation = 7;
      session_generation = 7;
      active = true;
      profile_applied = true;
      restore_armed = true;
      faulted = false;
    })
    ∷ stop (record { generation = 7; session_generation = 7; stopped = true; restored = true })
    ∷ closing
    ∷ observed

abbrev pub test_observation : ExecutionObservation
test_observation = record {
  request_id = 42;
  session_generation = 7;
  capture = record {
    candidate_id = "candidate-1";
    feature_id = "agent-7-42";
    relative_path = "agent-7-42/1.ci16";
    samples_captured = 500_000;
    bytes_written = 2_000_000;
    sequence = 1;
    dropped_samples = 0;
    overflow = false;
    timeout = record { limit_ms = 2_000; elapsed_us = 10; timed_out = false };
    health = record { healthy = true; flags = 0; source = "iio_adapter" };
  };
  post_execution_sdr = test_snapshot;
}

observes : (sdrd_observe test_wire observe_shapes 2_000 observed).0 ≡ ok test_snapshot
unfolding sdrd_observe
observes = refl

sdrd_observe-Reported_example : Reported test_wire observe_shapes 2_000 observed test_snapshot
sdrd_observe-Reported_example =
    sdrd_observe-Reported test_wire observe_shapes 2_000 observed test_snapshot observes

sdrd_execute-Traced_example :
    Traced
      (capture_of 2_000 test_plan "candidate-1" 2_437_000_000 10_000_000 8_000_000 524_288
        2_097_152)
      2_000
      []
      (sdrd_execute
        (recorded test_wire)
        execute_shapes
        observe_shapes
        2_000
        test_plan
        (operator_approved test_plan)
        (session, []))
sdrd_execute-Traced_example =
    sdrd_execute-Traced test_wire execute_shapes observe_shapes 2_000 test_plan
      (operator_approved test_plan) "candidate-1" 2_437_000_000 10_000_000 8_000_000 524_288
      (session, []) refl

observe_retrying-Reads_example :
    (n : ℕ) × (n ≤ 21)
    × Reads [] n (observe_retrying (recorded test_wire) observe_shapes 2_000 20 (observed, [])).1.1
observe_retrying-Reads_example =
    observe_retrying-Reads test_wire observe_shapes 2_000 20 (observed, [])

abbrev asked : Capture
asked =
    capture_of 2_000 test_plan "candidate-1" 2_437_000_000 10_000_000 8_000_000 524_288 2_097_152

validate_capture_response_iff_example :
    (validate_capture_response {V = Answer} captured 7 524_288 2_097_152 2_000
        (feature_id_of test_plan)
      ≡ ok tt)
    ↔ Fulfils asked captured
validate_capture_response_iff_example = validate_capture_response_iff {V = Answer} asked captured
