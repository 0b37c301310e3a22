-- ===== src/Tests/Scans.antt =====
-- Sweeps of one center against a daemon that answers from a list.
use sdr_pi.Base.{
  ◌≡◌, refl, true, false, none, some, pos, arith, String, List, [], ◌∷◌, Result, ok, err, is_finite,
}
use sdr_pi.Base.Action.{Action}
use sdr_pi.Sdr.{SdrError, sdr_error}
use sdr_pi.Sdr.Wire.{Wire}
use sdr_pi.Sdr.Observe.{HelloResponse, QuitResponse}
use sdr_pi.Sdr.Recorded.{recorded}
use sdr_pi.Execution.Responses.{StopResponse}
use sdr_pi.Sweep.{ValidatedSweepPlan, BackendSweep, SweepPoint, validate_points}
use sdr_pi.Sweep.Responses.{
  CapabilitiesResponse, StartResponse, ProfileResponse, InlineCaptureResponse, SweepShapes,
}
use sdr_pi.Sweep.Sigmf.{Files}
use sdr_pi.Sweep.Adapter.{check_endpoint, PowerDbfs, run_sdrd_points}
use sdr_pi.Sweep.Silent.{beside}
use sdr_pi.Sweep.Restored.{SweepTraced, Unconfirmed, run_sdrd_points-SweepTraced}
use sdr_pi.Sweep.Delivered.{AllDelivered, run_sdrd_points-AllDelivered}
use sdr_pi.Sweep.Usable.{run_sdrd_points-accepted}
use sdr_pi.Tests.Devices.{test_hello}

data Reply : Type 0 where
  hello : HelloResponse → Reply
  capabilities : CapabilitiesResponse → Reply
  start : StartResponse → Reply
  profile : ProfileResponse → Reply
  capture : InlineCaptureResponse → Reply
  stop : StopResponse → Reply
  quit : QuitResponse → Reply

abbrev hello_of : Reply → Result String HelloResponse
hello_of (hello r) = ok r
hello_of _ = err "shape"

abbrev capabilities_of : Reply → Result String CapabilitiesResponse
capabilities_of (capabilities r) = ok r
capabilities_of _ = err "shape"

abbrev start_of : Reply → Result String StartResponse
start_of (start r) = ok r
start_of _ = err "shape"

abbrev profile_of : Reply → Result String ProfileResponse
profile_of (profile r) = ok r
profile_of _ = err "shape"

abbrev inline_capture_of : Reply → Result String InlineCaptureResponse
inline_capture_of (capture r) = ok r
inline_capture_of _ = err "shape"

abbrev stop_of : Reply → Result String StopResponse
stop_of (stop r) = ok r
stop_of _ = err "shape"

abbrev quit_of : Reply → Result String QuitResponse
quit_of (quit r) = ok r
quit_of _ = err "shape"

abbrev sweep_shapes : SweepShapes Reply
sweep_shapes = record {
  hello = hello_of;
  capabilities = capabilities_of;
  start = start_of;
  profile = profile_of;
  capture = inline_capture_of;
  stop = stop_of;
  quit = quit_of;
}

abbrev next_reply : List Reply → Result (SdrError Reply) Reply × List Reply
next_reply [] = (err (sdr_error "read_response" "closed"), [])
next_reply (a ∷ rest) = (ok a, rest)

abbrev test_wire : Wire Reply (List Reply)
test_wire = record {
  connect = λ timeout n. (ok tt, n);
  exchange = λ command arguments n. next_reply n;
  sleep = λ ms n. n;
}

abbrev succeeds : {X : Type 0} → X → Action (List Reply) String X
succeeds x n = (ok x, n)

-- a file system that takes everything
abbrev test_files : Files (List Reply)
test_files = record {
  exists = λ path n. true;
  symlink_metadata = λ path. succeeds (true, false);
  create_dir_all = λ path. succeeds tt;
  set_permissions = λ path mode. succeeds tt;
  statvfs = λ path. succeeds (1_000_000, 4_096);
  now_ns = λ n. (1_700_000_000_000_000_000, n);
  create_new = λ path. succeeds tt;
  write_all = λ path bytes. succeeds tt;
  sync_all = λ path. succeeds tt;
  write_metadata = λ path writer. succeeds tt;
  remove_file = λ path n. n;
}

-- -40 dBFS, whatever the sum
abbrev test_dbfs : PowerDbfs
test_dbfs lo mid hi samples = 0xc2200000

abbrev test_scan : ValidatedSweepPlan
test_scan = record {
  sweep_id = "sweep-1";
  session_generation = 7;
  centers_hz = 100_000_000 ∷ [];
  sample_rate_hz = 2_100_000;
  rf_bandwidth_hz = 200_000;
  settle_ms = 5;
  frame_samples = 1;
  aggregate_frames = 1;
  point_timeout_ms = 250;
  detection_threshold_db = 0x40c00000;
  gain_db = some (pos 20);
  estimated_duration_ms = 255;
  maximum_summary_bytes = 196_608;
}

-- one sample, 1 + 2i
abbrev test_inline : InlineCaptureResponse
test_inline = record {
  request_id = 5;
  generation = 7;
  session_generation = 7;
  samples_captured = 1;
  bytes_transferred = 4;
  sequence = 3;
  dropped_samples = 0;
  overflow = false;
  timeout = record { limit_ms = 250; elapsed_us = 10; timed_out = false };
  health = record { healthy = true; flags = 0; source = "iio_adapter" };
  iq_base64 = b'A' ∷ b'Q' ∷ b'A' ∷ b'C' ∷ b'A' ∷ b'A' ∷ b'=' ∷ b'=' ∷ [];
}

abbrev scan : List Reply
scan =
    hello test_hello
    ∷ capabilities (record { iio_visible = true; radio_control = true; raw_iq_capture = true })
    ∷ start (record { generation = 7; session_generation = 7; restore_armed = true })
    ∷ profile (record {
      generation = 7;
      session_generation = 7;
      center_hz = 100_000_001;
      sample_rate_hz = 2_100_000;
      rf_bandwidth_hz = 200_000;
      gain_mode = "manual";
      hardware_gain_db = some (pos 20);
    })
    ∷ capture test_inline
    ∷ stop (record { generation = 7; session_generation = 7; stopped = true; restored = true })
    ∷ quit (record { closing = true })
    ∷ []

abbrev scanned : SweepPoint
scanned = record {
  point_index = 0;
  request_id = 5;
  session_generation = 7;
  requested_center_hz = 100_000_000;
  actual_center_hz = 100_000_001;
  sample_rate_hz = 2_100_000;
  rf_bandwidth_hz = 200_000;
  sequence = 3;
  dropped_samples = 0;
  overflow = false;
  captured_samples = 1;
  band_power_dbfs = 0xc2200000;
  clipped_samples = 0;
  status_flags = 0;
  elapsed_us = 10;
  timeout = record { limit_ms = 250; elapsed_us = 10; timed_out = false };
  health = record { healthy = true; flags = 0; source = "iio_adapter" };
}

abbrev swept : BackendSweep
swept = record {
  backend = "agx_iq_software_aggregate";
  backend_version = 1;
  points = scanned ∷ [];
  dataset = none;
}

sweeps :
    (run_sdrd_points test_wire sweep_shapes test_files test_dbfs test_scan 2_000 none scan).0
    ≡ ok swept
unfolding run_sdrd_points sdr_pi.Sweep.Adapter.run_session sdr_pi.Sweep.Adapter.check_endpoint
    sdr_pi.Sweep.Adapter.start_session sdr_pi.Sweep.Adapter.sweep_in_session
    sdr_pi.Sweep.Adapter.open_sigmf sdr_pi.Sweep.Adapter.measure_and_stop
    sdr_pi.Sweep.Adapter.measure_points sdr_pi.Sweep.Adapter.measure_point
    sdr_pi.Sweep.Adapter.apply_profile sdr_pi.Sweep.Adapter.capture_inline sdr_pi.Sweep.Adapter.keep
    sdr_pi.Sweep.Adapter.point_of sdr_pi.Sweep.Adapter.u96_power_dbfs
    sdr_pi.Sweep.Adapter.stop_session sdr_pi.Sweep.Adapter.quit_session
    sdr_pi.Sweep.Adapter.close_sweep sdr_pi.Sweep.Adapter.finish_sigmf
    sdr_pi.Sweep.Responses.capture_size sdr_pi.Sweep.decode_base64 sdr_pi.Sweep.decode_blocks
    sdr_pi.Sweep.decode_block sdr_pi.Sweep.base64_value sdr_pi.Sweep.aggregate_ci16_power
    sdr_pi.Sweep.sum_samples
sweeps = refl

run_sdrd_points-SweepTraced_example :
    SweepTraced
      (Unconfirmed
        (recorded test_wire)
        sweep_shapes
        test_scan
        (check_endpoint
          (recorded test_wire)
          sweep_shapes
          ((recorded test_wire).connect 2_000 (scan, [])).1).1)
      test_scan
      2_000
      []
      (run_sdrd_points
        (recorded test_wire)
        sweep_shapes
        (beside test_files)
        test_dbfs
        test_scan
        2_000
        (some "captures")
        (scan, []))
run_sdrd_points-SweepTraced_example =
    run_sdrd_points-SweepTraced test_wire sweep_shapes test_files test_dbfs test_scan 2_000
      (some "captures") (scan, [])

run_sdrd_points-AllDelivered_example :
    (swept.backend ≡ "agx_iq_software_aggregate")
    × (swept.backend_version ≡ 1)
    × AllDelivered test_wire sweep_shapes test_dbfs test_scan 0 test_scan.centers_hz swept.points
run_sdrd_points-AllDelivered_example =
    run_sdrd_points-AllDelivered test_wire sweep_shapes test_files test_dbfs test_scan 2_000 none
      scan swept sweeps

scanned_finite : is_finite scanned.band_power_dbfs ≡ true
unfolding is_finite
scanned_finite = refl

run_sdrd_points-accepted_example : validate_points {V = Reply} test_scan swept.points ≡ ok tt
run_sdrd_points-accepted_example =
    run_sdrd_points-accepted test_wire sweep_shapes test_files test_dbfs test_scan 2_000 none scan
      swept (omega arith) sweeps ((omega arith), scanned_finite, tt, tt)
