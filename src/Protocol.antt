-- ===== src/Protocol.antt =====
-- The messages between controller and planner
-- (raspberry-pi/sdr-agent/controller/src/protocol.rs).
use sdr_pi.Base.{ℕ, ℤ, F32, String, Bool, List, Option, some, none, Result, if◌then◌else◌}

abbrev pub protocol_version : ℕ
protocol_version = 1

abbrev pub max_frame_bytes : ℕ
max_frame_bytes = 32768

abbrev pub max_instruction_bytes : ℕ
max_instruction_bytes = 1024

abbrev pub max_candidates : ℕ
max_candidates = 32

abbrev pub max_sweep_points : ℕ
max_sweep_points = 768

pub data ControllerState : Type 0 where
  idle surveying inspecting recognizing holding faulted : ControllerState

pub record HealthSummary : Type 0 where
  pub sdr_online : Bool
  pub can_retune : Bool
  pub can_capture_iq : Bool
  pub recognizer_available : Bool
  pub dropped_observations : ℕ

pub record HealthSummaryWire : Type 0 where
  pub sdr_online : Bool
  pub can_retune : Bool
  pub can_capture_iq : Bool
  pub fpga_available : Option Bool
  pub recognizer_available : Bool
  pub dropped_observations : ℕ

-- The body of `Deserialize for HealthSummary`, after the wire record was read.
abbrev health_of : HealthSummaryWire → HealthSummary
health_of wire = record {
  sdr_online = wire.sdr_online;
  can_retune = wire.can_retune;
  can_capture_iq = wire.can_capture_iq;
  recognizer_available = wire.recognizer_available;
  dropped_observations = wire.dropped_observations;
}

unfoldable pub from_wire : HealthSummaryWire → Result String HealthSummary
from_wire wire = elim wire.fpga_available [
  | none ↦ Result.ok (health_of wire)
  | some fpga ↦
      if fpga
      then Result.err "fpga_available is retired and must be false"
      else Result.ok (health_of wire)
]

pub record CandidateSummary : Type 0 where
  pub id : String
  pub center_hz : ℕ
  pub bandwidth_hz : ℕ
  pub peak_dbfs : F32
  pub snr_db : F32
  pub age_ms : ℕ

pub record SweepObservationSummary : Type 0 where
  pub sweep_id : String
  pub sample_rate_hz : ℕ
  pub rf_bandwidth_hz : ℕ
  pub fixed_gain_db : ℤ
  pub noise_floor_dbfs : F32
  pub points : List (ℕ × F32)

pub record RecognitionSummary : Type 0 where
  pub candidate_id : String
  pub label : String
  pub confidence : F32

pub record ObservationSummary : Type 0 where
  pub age_ms : ℕ
  pub health : HealthSummary
  pub candidates : List CandidateSummary
  pub latest_sweep : Option SweepObservationSummary
  pub recognition : Option RecognitionSummary

pub record SafetyLimits : Type 0 where
  pub min_freq_hz : ℕ
  pub max_freq_hz : ℕ
  pub max_span_hz : ℕ
  pub max_bandwidth_hz : ℕ
  pub max_dwell_ms : ℕ
  pub max_iq_samples : ℕ
  pub max_iq_bytes : ℕ
  pub auto_approve_iq_bytes : ℕ
  pub max_observation_age_ms : ℕ

pub record PlanRequest : Type 0 where
  pub protocol_version : ℕ
  pub request_id : ℕ
  pub session_generation : ℕ
  pub instruction : String
  pub state : ControllerState
  pub observation : ObservationSummary
  pub limits : SafetyLimits

pub data PlanStatus : Type 0 where
  ok error unavailable : PlanStatus

pub record PlannerMeta : Type 0 where
  pub provider : String
  pub model : String

pub data ProposedAction : Type 0 where
  hold : (reason : String) → ProposedAction
  survey_band :
      (start_hz stop_hz step_hz sample_rate_hz rf_bandwidth_hz dwell_ms : ℕ) → ProposedAction
  inspect_candidate :
      (candidate_id : String) (center_hz sample_rate_hz rf_bandwidth_hz dwell_ms : ℕ)
      → ProposedAction
  capture_bounded_iq :
      (candidate_id : String) (center_hz sample_rate_hz rf_bandwidth_hz samples : ℕ)
      → ProposedAction
  run_local_recognition : (candidate_id : String) → ProposedAction
  stop_session : (reason : String) → ProposedAction

pub record PlanResponse : Type 0 where
  pub protocol_version : ℕ
  pub request_id : ℕ
  pub session_generation : ℕ
  pub status : PlanStatus
  pub action : Option ProposedAction
  pub error : Option String
  pub planner : PlannerMeta

pub record ValidatedPlan : Type 0 where
  pub request_id : ℕ
  pub session_generation : ℕ
  pub approval_required : Bool
  pub action : ProposedAction
  pub planner : PlannerMeta
