-- ===== src/Sweep/Adapter.antt =====
-- sweep.rs: `SdrdSoftwareSweepAdapter`, which measures the points of a sweep in a session of the SDRD
-- daemon. The power in dBFS of a sum of squares, in `f64`, is a parameter.
use sdr_pi.Base.{
  ℕ, suc, ◌/◌, ◌%◌, String, F32, Bool, true, false, not, ◌||◌, Option, none, some, List, [], ◌∷◌,
  Result, ok, err, ◌==◌, if◌then◌else◌, decimal,
}
use sdr_pi.Base.Action.{Action, ◌>>=◌, ◌>>◌, pure, raise, lift, map_failure, attempt, ignore}
use sdr_pi.Sdr.Wire.{Wire, request}
use sdr_pi.Execution.Responses.{is_uncontrolled, is_unrestored}
use sdr_pi.Sweep.Plan.{
  ValidatedSweepPlan, BackendSweep, SweepPoint, SweepDataset, SweepError, sweep_error,
  from_sdr_error,
}
use sdr_pi.Sweep.Base64.{decode_base64}
use sdr_pi.Sweep.Power.{aggregate_ci16_power}
use sdr_pi.Sweep.Engine.{SweepBackend}
use sdr_pi.Sweep.Responses.{
  SweepShapes, ProfileResponse, InlineCaptureResponse, is_unarmed, is_other_profile,
  is_other_capture, profile_args, capture_args, capture_size,
}
use sdr_pi.Sweep.Sigmf.{Files, SigmfWriter, create, append, or_discard, finish}

-- `10 log10` of the mean square of the sum `hi * 2^64 + mid * 2^32 + lo` over the samples at full
-- scale: the arithmetic of `u96_power_dbfs` in `f64`
abbrev pub PowerDbfs : Type 0
PowerDbfs = (lo mid hi samples : ℕ) → F32

unfoldable pub u96_power_dbfs :
    {V : Type 0} → PowerDbfs → (lo mid hi samples : ℕ) → Result (SweepError V) F32
u96_power_dbfs dbfs lo mid hi samples =
    if samples == 0
    then err (sweep_error "summary_shape" "summary has zero samples")
    else ok (dbfs lo mid hi samples)

-- `if condition { return Err(SweepError::new(code, message)); }`
abbrev pub refuse_if : {V N : Type 0} → Bool → String → String → Action N (SweepError V) (Unit {0})
refuse_if condition code message = if condition then raise (sweep_error code message) else pure tt

-- `power as u32` and `(power >> 32) as u32`
abbrev pub low_word : ℕ → ℕ
low_word power = power % 4294967296

abbrev pub middle_word : ℕ → ℕ
middle_word power = power / 4294967296 % 4294967296

-- the point of a capture with its power sum and its count of clipped samples
unfoldable pub point_of :
    {V : Type 0}
    → PowerDbfs
    → ValidatedSweepPlan
    → (point_index center_hz captured_samples : ℕ) → ProfileResponse
    → InlineCaptureResponse
    → ℕ × ℕ
    → Result (SweepError V) SweepPoint
unfolding u96_power_dbfs
point_of dbfs plan point_index center_hz captured_samples profile capture (power, clipped) =
    if not (capture.generation == plan.session_generation) || not (capture.health.flags == 0)
    then err (
        sweep_error "summary_quality"
          "SDR summary reported invalid, stale, overflow, or shape flags")
    else if not (clipped == 0)
    then err (
        sweep_error "summary_clipped"
          "SDR summary clipped at the configured fixed gain; lower survey gain and retry")
    else if not (captured_samples == captured_samples)
    then err (sweep_error "summary_shape" "aggregate sample count does not match the plan")
    else (elim (u96_power_dbfs dbfs (low_word power) (middle_word power) 0 captured_samples) [
      | err e ↦ err e
      | ok band_power_dbfs ↦ ok (record {
        point_index = point_index;
        request_id = capture.request_id;
        session_generation = capture.session_generation;
        requested_center_hz = center_hz;
        actual_center_hz = profile.center_hz;
        sample_rate_hz = profile.sample_rate_hz;
        rf_bandwidth_hz = profile.rf_bandwidth_hz;
        sequence = capture.sequence;
        dropped_samples = capture.dropped_samples;
        overflow = capture.overflow;
        captured_samples = captured_samples;
        band_power_dbfs = band_power_dbfs;
        clipped_samples = clipped;
        status_flags = capture.health.flags;
        elapsed_us = capture.timeout.elapsed_us;
        timeout = capture.timeout;
        health = capture.health;
      })
    ])

-- `thread::sleep`
abbrev pub settle : {V N : Type 0} → Wire V N → ℕ → Action N (SweepError V) (Unit {0})
settle wire ms n = (ok tt, wire.sleep ms n)

module _ {V N : Type 0} (wire : Wire V N) (shapes : SweepShapes V) where
  -- a request, with the error converted by `?`
  abbrev pub ask :
      {T : Type 0} → (V → Result String T) → String → String → Action N (SweepError V) T
  ask shape command arguments = map_failure from_sdr_error (request wire shape command arguments)

  -- up to the session
  unfoldable pub check_endpoint : Action N (SweepError V) (Unit {0})
  check_endpoint = do
    hello ← ask shapes.hello "HELLO" ""
    refuse_if (is_uncontrolled hello) "controlled_mode_unavailable"
        "SDRD is not the expected controlled endpoint"
    capabilities ← ask shapes.capabilities "CAPABILITIES" ""
    refuse_if (not capabilities.iio_visible || not capabilities.radio_control) "radio_capability"
        "SDRD cannot own and retune the receive path"
    (if not capabilities.raw_iq_capture
        then ignore (request wire shapes.quit "QUIT" "")
          >> raise (
              sweep_error "raw_iq_transport_unavailable"
                "SDRD does not expose bounded raw-IQ acquisition for AGX aggregation")
        else pure tt)

  -- the closure up to `session_started = true`
  unfoldable pub start_session : ℕ → Action N (SweepError V) (Unit {0})
  start_session generation = do
    start ← ask shapes.start "START_SESSION" (decimal generation)
    refuse_if (is_unarmed start generation) "session_start" "SDRD did not arm sweep restoration"

  -- the loop's body, in order: the profile, the pause, the capture, and the point of its samples
  unfoldable pub apply_profile : ValidatedSweepPlan → ℕ → Action N (SweepError V) ProfileResponse
  apply_profile plan center_hz = do
    profile ← ask shapes.profile "APPLY_PROFILE" (profile_args plan center_hz)
    refuse_if (is_other_profile profile plan center_hz) "profile_response"
        "SDRD sweep profile readback is inconsistent"
    pure profile

  unfoldable pub capture_inline :
      ValidatedSweepPlan → ℕ → ℕ × ℕ → Action N (SweepError V) InlineCaptureResponse
  capture_inline plan point_index (captured_samples, bytes) = do
    capture ←
        ask shapes.capture "CAPTURE_IQ_INLINE"
          (capture_args plan point_index captured_samples bytes)
    refuse_if (is_other_capture capture plan captured_samples bytes) "agx_capture_shape"
        "inline IQ response does not match the validated AGX aggregation plan"
    pure capture

  -- the end of the closure's session
  unfoldable pub stop_session : ℕ → Action N (SweepError V) (Unit {0})
  stop_session generation = do
    stop ← ask shapes.stop "STOP_SESSION" (decimal generation)
    refuse_if (is_unrestored stop generation) "restore_response"
        "SDRD did not confirm sweep restoration"

  unfoldable pub quit_session : Action N (SweepError V) (Unit {0})
  quit_session = do
    quit ← ask shapes.quit "QUIT" ""
    refuse_if (not quit.closing) "quit_rejected" "SDRD did not close"

  -- the commands after the closure where it failed
  unfoldable pub clean_up : Bool → ℕ → SweepError V → {X : Type 0} → Action N (SweepError V) X
  clean_up session_started generation e = do
    (if session_started
        then ignore (request wire shapes.stop "STOP_SESSION" (decimal generation))
        else pure tt)
    ignore (request wire shapes.quit "QUIT" "")
    raise e

  abbrev pub or_clean_up :
      {X : Type 0} → Bool → ℕ → Action N (SweepError V) X → Action N (SweepError V) X
  or_clean_up session_started generation m = do
    outcome ← attempt m
    elim outcome [ ok x ↦ pure x | err e ↦ clean_up session_started generation e ]

module _ {V N : Type 0} (files : Files N) where
  -- `if let Some(writer) = sigmf.as_mut()`
  unfoldable pub keep :
      Option SigmfWriter
      → (point_index center_hz : ℕ) → List ℕ
      → Action N (SweepError V) (Option SigmfWriter)
  keep none point_index center_hz iq = pure none
  keep (some writer) point_index center_hz iq =
      append files writer point_index center_hz iq >>= λ w. pure (some w)

  -- `sigmf_directory.map(...).transpose()?`
  unfoldable pub open_sigmf :
      ValidatedSweepPlan → Option String → Action N (SweepError V) (Option SigmfWriter)
  open_sigmf plan none = pure none
  open_sigmf plan (some directory) = create files directory plan >>= λ w. pure (some w)

  -- `sigmf.map(|writer| writer.finish()).transpose()?`
  unfoldable pub finish_sigmf : Option SigmfWriter → Action N (SweepError V) (Option SweepDataset)
  finish_sigmf none = pure none
  finish_sigmf (some writer) = finish files writer >>= λ d. pure (some d)

module _ {V N : Type 0} (wire : Wire V N) (shapes : SweepShapes V) (files : Files N)
    (dbfs : PowerDbfs) (plan : ValidatedSweepPlan) where
  unfoldable pub measure_point :
      Option SigmfWriter
      → (point_index center_hz : ℕ) → Action N (SweepError V) (SweepPoint × Option SigmfWriter)
  measure_point sigmf point_index center_hz = do
    profile ← apply_profile wire shapes plan center_hz
    settle wire plan.settle_ms
    size ← lift (capture_size plan)
    capture ← capture_inline wire shapes plan point_index size
    iq ← lift (decode_base64 capture.iq_base64)
    sigmf' ← keep files sigmf point_index center_hz iq
    sum ← lift (aggregate_ci16_power iq size.0)
    point ← lift (point_of dbfs plan point_index center_hz size.0 profile capture sum)
    pure (point, sigmf')

  -- the loop over the centers, from an index on
  unfoldable pub measure_points :
      Option SigmfWriter
      → ℕ
      → List ℕ
      → Action N (SweepError V) (List SweepPoint × Option SigmfWriter)
  measure_points sigmf point_index [] = pure ([], sigmf)
  measure_points sigmf point_index (center_hz ∷ centers) = do
    measured ← measure_point sigmf point_index center_hz
    rest ← measure_points measured.1 (suc point_index) centers
    pure (measured.0 ∷ rest.0, rest.1)

  -- the loop and the stop after it
  unfoldable pub measure_and_stop :
      Option SigmfWriter → Action N (SweepError V) (List SweepPoint × Option SigmfWriter)
  measure_and_stop sigmf = do
    swept ← measure_points sigmf 0 plan.centers_hz
    stop_session wire shapes plan.session_generation
    pure swept

  -- what is done while the session is started
  unfoldable pub sweep_in_session :
      Option String → Action N (SweepError V) (List SweepPoint × Option SigmfWriter)
  sweep_in_session sigmf_directory = do
    sigmf ← open_sigmf files plan sigmf_directory
    or_discard files sigmf (measure_and_stop sigmf)

  -- what is done after it
  unfoldable pub close_sweep : Option SigmfWriter → Action N (SweepError V) (Option SweepDataset)
  close_sweep sigmf = do or_discard files sigmf (quit_session wire shapes); finish_sigmf files sigmf

  -- the closure, and what is done after it where it failed
  unfoldable pub run_session : Option String → Action N (SweepError V) BackendSweep
  run_session sigmf_directory = do
    or_clean_up wire shapes false plan.session_generation
        (start_session wire shapes plan.session_generation)
    swept ← or_clean_up wire shapes true plan.session_generation (sweep_in_session sigmf_directory)
    dataset ← or_clean_up wire shapes false plan.session_generation (close_sweep swept.1)
    pure (record {
      backend = "agx_iq_software_aggregate";
      backend_version = 1;
      points = swept.0;
      dataset = dataset;
    })

  unfoldable pub run_sdrd_points : ℕ → Option String → Action N (SweepError V) BackendSweep
  run_sdrd_points timeout sigmf_directory = do
    map_failure from_sdr_error (wire.connect timeout)
    check_endpoint wire shapes
    run_session sigmf_directory

-- `SdrdSoftwareSweepAdapter`; `elapsed_ms` is the clock of the engine
abbrev pub sdrd_backend :
    {V N : Type 0}
    → Wire V N
    → SweepShapes V
    → Files N
    → PowerDbfs
    → ℕ
    → Option String
    → (N → ℕ)
    → SweepBackend V N
sdrd_backend wire shapes files dbfs timeout sigmf_directory elapsed_ms = record {
  run_points = λ plan. run_sdrd_points wire shapes files dbfs plan timeout sigmf_directory;
  elapsed_ms = elapsed_ms;
}
