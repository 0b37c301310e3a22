-- ===== src/Sdr/Snapshot.antt =====
-- sdr.rs: `SdrError`, `SdrSnapshot`, `SdrEngine` and its replay adapter.
use sdr_pi.Base.{ℕ, String, Bool, ◌&&◌, Option, none, List, [], ◌∷◌, Result, ok, err}
use sdr_pi.Protocol.{HealthSummary}

pub record SdrError (V : Type 0) : Type 0 where
  pub code : String
  pub message : String
  pub details : Option V

-- `SdrError::new`
abbrev pub sdr_error : {V : Type 0} → String → String → SdrError V
sdr_error code message = record { code = code; message = message; details = none }

pub record SdrSnapshot : Type 0 where
  pub online : Bool
  pub healthy : Bool
  pub health_flags : ℕ
  pub iio_visible : Bool
  pub can_retune : Bool
  pub can_capture_iq : Bool

abbrev pub planner_health : SdrSnapshot → Bool → ℕ → HealthSummary
planner_health s recognizer_available dropped_observations = record {
  sdr_online = s.online && s.healthy;
  can_retune = s.online && s.healthy && s.can_retune;
  can_capture_iq = s.online && s.healthy && s.can_capture_iq;
  recognizer_available = recognizer_available;
  dropped_observations = dropped_observations;
}

-- The trait `SdrEngine`: an engine whose state is an `O`.
pub record SdrEngine (V O : Type 0) : Type 0 where
  pub observe : O → Result (SdrError V) SdrSnapshot × O

-- `ReplaySdrAdapter`: its state is the queue of snapshots.
abbrev pub replay_observe :
    {V : Type 0} → List SdrSnapshot → Result (SdrError V) SdrSnapshot × List SdrSnapshot
replay_observe [] = (err (sdr_error "replay_exhausted" "no replay snapshots remain"), [])
replay_observe (s ∷ rest) = (ok s, rest)

abbrev pub replay_engine : {V : Type 0} → SdrEngine V (List SdrSnapshot)
replay_engine = record { observe = replay_observe }
