-- ===== src/Autonomy/Events.antt =====
-- The operations of `CruiseControl` as events, so that histories of calls can be stated.
use sdr_pi.Base.{ℕ, List, [], ◌∷◌}
use sdr_pi.Autonomy.Labels.{CruisePhase, CruiseStopReason}
use sdr_pi.Autonomy.Cruise.{
  CruiseControl, stop, switch_to_step_approval, set_phase, record_sdr_available,
  record_sdr_unavailable, record_planner_action, record_planner_missing, record_execution,
  check_duration,
}

-- a call of a method other than `start`
pub data Event : Type 0 where
  to_phase : (phase : CruisePhase) → Event
  sdr_available sdr_unavailable planner_action planner_missing step_approval : Event
  execution : (iq_bytes : ℕ) → Event
  duration : (now : ℕ) → Event
  stopping : (reason : CruiseStopReason) → Event

unfoldable pub step : Event → CruiseControl → CruiseControl
unfolding stop switch_to_step_approval set_phase record_sdr_available record_sdr_unavailable
    record_planner_action record_planner_missing record_execution check_duration
step (Event.to_phase phase) c = set_phase phase c
step Event.sdr_available c = record_sdr_available c
step Event.sdr_unavailable c = (record_sdr_unavailable c).1
step Event.planner_action c = record_planner_action c
step Event.planner_missing c = (record_planner_missing c).1
step Event.step_approval c = switch_to_step_approval c
step (Event.execution iq_bytes) c = record_execution iq_bytes c
step (Event.duration now) c = (check_duration now c).1
step (Event.stopping reason) c = stop reason c

unfoldable pub run : List Event → CruiseControl → CruiseControl
run [] c = c
run (e ∷ es) c = run es (step e c)
