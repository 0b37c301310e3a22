-- ===== src/Sweep/Plan.antt =====
-- sweep.rs: plans, points, candidates, reports and errors of a sweep.
use sdr_pi.Base.{ℕ, ℤ, F32, String, Bool, List, Option, none}
use sdr_pi.Sdr.{SdrError}
use sdr_pi.Execution.{ExecutionTimeoutMetadata, ExecutionHealthMetadata}

abbrev pub max_points : ℕ
max_points = 768

abbrev pub max_duration_ms : ℕ
max_duration_ms = 300_000

abbrev pub max_planner_candidate_bandwidth_hz : ℕ
max_planner_candidate_bandwidth_hz = 10_000_000

pub data SweepFrequencies : Type 0 where
  range : (start_hz stop_hz step_hz : ℕ) → SweepFrequencies
  centers : (centers_hz : List ℕ) → SweepFrequencies

pub record SweepPlan : Type 0 where
  pub sweep_id : String
  pub session_generation : ℕ
  pub frequencies : SweepFrequencies
  pub sample_rate_hz : ℕ
  pub rf_bandwidth_hz : ℕ
  pub settle_ms : ℕ
  pub frame_samples : ℕ
  pub aggregate_frames : ℕ
  pub point_timeout_ms : ℕ
  pub detection_threshold_db : F32
  pub gain_db : Option ℤ

pub record ValidatedSweepPlan : Type 0 where
  pub sweep_id : String
  pub session_generation : ℕ
  pub centers_hz : List ℕ
  pub sample_rate_hz : ℕ
  pub rf_bandwidth_hz : ℕ
  pub settle_ms : ℕ
  pub frame_samples : ℕ
  pub aggregate_frames : ℕ
  pub point_timeout_ms : ℕ
  pub detection_threshold_db : F32
  pub gain_db : Option ℤ
  pub estimated_duration_ms : ℕ
  pub maximum_summary_bytes : ℕ

pub record SweepPoint : Type 0 where
  pub point_index : ℕ
  pub request_id : ℕ
  pub session_generation : ℕ
  pub requested_center_hz : ℕ
  pub actual_center_hz : ℕ
  pub sample_rate_hz : ℕ
  pub rf_bandwidth_hz : ℕ
  pub sequence : ℕ
  pub dropped_samples : ℕ
  pub overflow : Bool
  pub captured_samples : ℕ
  pub band_power_dbfs : F32
  pub clipped_samples : ℕ
  pub status_flags : ℕ
  pub elapsed_us : ℕ
  pub timeout : ExecutionTimeoutMetadata
  pub health : ExecutionHealthMetadata

pub record SweepCandidate : Type 0 where
  pub id : String
  pub start_hz : ℕ
  pub stop_hz : ℕ
  pub center_hz : ℕ
  pub bandwidth_hz : ℕ
  pub peak_dbfs : F32
  pub snr_db : F32
  pub point_count : ℕ

pub record SweepDataset : Type 0 where
  pub format : String
  pub datatype : String
  pub data_path : String
  pub metadata_path : String
  pub bytes : ℕ

pub record SweepReport : Type 0 where
  pub sweep_id : String
  pub session_generation : ℕ
  pub backend : String
  pub backend_version : ℕ
  pub estimated_duration_ms : ℕ
  pub elapsed_ms : ℕ
  pub noise_floor_dbfs : F32
  pub points : List SweepPoint
  pub candidates : List SweepCandidate
  pub dataset : Option SweepDataset

pub record BackendSweep : Type 0 where
  pub backend : String
  pub backend_version : ℕ
  pub points : List SweepPoint
  pub dataset : Option SweepDataset

pub record SweepError (V : Type 0) : Type 0 where
  pub code : String
  pub message : String
  pub details : Option V

-- `SweepError::new`
abbrev pub sweep_error : {V : Type 0} → String → String → SweepError V
sweep_error code message = record { code = code; message = message; details = none }

-- `impl From<SdrError> for SweepError`
abbrev pub from_sdr_error : {V : Type 0} → SdrError V → SweepError V
from_sdr_error e = record { code = e.code; message = e.message; details = e.details }
