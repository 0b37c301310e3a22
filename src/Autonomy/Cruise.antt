-- ===== src/Autonomy/Cruise.antt =====
-- autonomy.rs: `CruiseControl`. Instants and durations are nanoseconds; a method that mutates
-- `self` returns the new record, and with it the result if it has one.
use sdr_pi.Base.{
  ℕ, ◌-◌, ◌*◌, ◌/◌, ◌%◌, ◌^◌, String, Bool, true, false, not, ◌&&◌, Option, none, some, Result, ok,
  err, leb, ◌==◌, contains, if◌then◌else◌, saturating_add, saturating_add_u8, saturating_sub,
  u64_max,
}
use sdr_pi.Autonomy.Labels.{
  auto_retry_limit, default_auto_max_steps, hard_auto_max_steps, default_auto_duration_secs,
  min_auto_duration_secs, hard_auto_duration_secs, InteractionMode, step_approval, automatic_cruise,
  CruisePhase, stopped, checking_sdr, waiting_to_retry, CruiseStopReason, operator_stopped,
  sdr_retry_exhausted, planner_retry_exhausted, step_budget_exhausted, duration_budget_exhausted,
  byte_budget_exhausted, phase_label, reason_label,
}

pub record CruiseControl : Type 0 where
  pub mode : InteractionMode
  pub active : Bool
  pub phase : CruisePhase
  pub started_at : Option ℕ
  pub completed_steps : ℕ  -- u8
  pub used_iq_bytes : ℕ  -- u64
  pub max_iq_bytes : ℕ  -- u64
  pub max_steps : ℕ  -- u8
  pub max_duration : ℕ
  pub sdr_retry_count : ℕ  -- u8
  pub planner_retry_count : ℕ  -- u8
  pub stop_reason : Option CruiseStopReason

-- `Duration::from_secs`
abbrev pub from_secs : ℕ → ℕ
from_secs secs = secs * 1_000_000_000

-- `Duration::as_millis`
abbrev pub as_millis : ℕ → ℕ
as_millis nanos = nanos / 1_000_000

-- `now.saturating_duration_since(started)`
abbrev pub duration_since : ℕ → ℕ → ℕ
duration_since now started = now - started

-- `CruiseControl::default`
unfoldable pub default : CruiseControl
default = record {
  mode = step_approval;
  active = false;
  phase = stopped;
  started_at = none;
  completed_steps = 0;
  used_iq_bytes = 0;
  max_iq_bytes = 0;
  max_steps = default_auto_max_steps;
  max_duration = from_secs default_auto_duration_secs;
  sdr_retry_count = 0;
  planner_retry_count = 0;
  stop_reason = none;
}

unfoldable pub start : ℕ → ℕ → ℕ → ℕ → CruiseControl → Result String (Unit {0}) × CruiseControl
start max_iq_bytes max_steps max_duration_secs now c =
    if max_iq_bytes == 0
    then (err "automatic cruise IQ byte budget must be a positive finite value", c)
    else if not (contains 1 hard_auto_max_steps max_steps)
    then (err "automatic cruise steps must be between 1 and 128", c)
    else if not (contains min_auto_duration_secs hard_auto_duration_secs max_duration_secs)
    then (err "automatic cruise duration must be between 10 and 1800 seconds", c)
    else (
      ok tt,
      record {
        mode = automatic_cruise;
        active = true;
        phase = checking_sdr;
        started_at = some now;
        completed_steps = 0;
        used_iq_bytes = 0;
        max_iq_bytes = max_iq_bytes;
        max_steps = max_steps;
        max_duration = from_secs max_duration_secs;
        sdr_retry_count = 0;
        planner_retry_count = 0;
        stop_reason = none;
      },
    )

unfoldable pub stop : CruiseStopReason → CruiseControl → CruiseControl
stop reason c = record c { active = false; phase = stopped; stop_reason = some reason }

unfoldable pub switch_to_step_approval : CruiseControl → CruiseControl
unfolding stop
switch_to_step_approval c = stop operator_stopped (record c { mode = step_approval })

unfoldable pub set_phase : CruisePhase → CruiseControl → CruiseControl
set_phase phase c = if c.active then record c { phase = phase } else c

unfoldable pub record_sdr_available : CruiseControl → CruiseControl
record_sdr_available c = record c { sdr_retry_count = 0 }

-- the `bool` says whether the cruise goes on retrying
unfoldable pub record_sdr_unavailable : CruiseControl → Bool × CruiseControl
unfolding stop
record_sdr_unavailable c =
    let c' = record c {
      sdr_retry_count = saturating_add_u8 c.sdr_retry_count 1;
      phase = waiting_to_retry;
    } in
    if leb auto_retry_limit c'.sdr_retry_count
    then (false, stop sdr_retry_exhausted c')
    else (true, c')

unfoldable pub record_planner_action : CruiseControl → CruiseControl
record_planner_action c = record c { planner_retry_count = 0 }

unfoldable pub record_planner_missing : CruiseControl → Bool × CruiseControl
unfolding stop
record_planner_missing c =
    let c' = record c {
      planner_retry_count = saturating_add_u8 c.planner_retry_count 1;
      phase = waiting_to_retry;
    } in
    if leb auto_retry_limit c'.planner_retry_count
    then (false, stop planner_retry_exhausted c')
    else (true, c')

unfoldable pub record_execution : ℕ → CruiseControl → CruiseControl
unfolding stop
record_execution iq_bytes c =
    let c' = record c {
      completed_steps = saturating_add_u8 c.completed_steps 1;
      used_iq_bytes = saturating_add c.used_iq_bytes iq_bytes;
    } in
    if leb c'.max_steps c'.completed_steps
    then stop step_budget_exhausted c'
    else if leb c'.max_iq_bytes c'.used_iq_bytes
    then stop byte_budget_exhausted c'
    else record c' { phase = checking_sdr }

unfoldable pub remaining_iq_bytes : CruiseControl → ℕ
remaining_iq_bytes c = saturating_sub c.max_iq_bytes c.used_iq_bytes

-- `started_at.is_some_and(|started| now.saturating_duration_since(started) >= max_duration)`
abbrev pub is_expired : ℕ → Option ℕ → ℕ → Bool
is_expired now none max_duration = false
is_expired now (some started) max_duration = leb max_duration (duration_since now started)

unfoldable pub check_duration : ℕ → CruiseControl → Bool × CruiseControl
unfolding stop
check_duration now c =
    let c' =
      if c.active && is_expired now c.started_at c.max_duration
      then stop duration_budget_exhausted c
      else c in
    (c'.active, c')

pub record CruiseSnapshot : Type 0 where
  pub mode : InteractionMode
  pub active : Bool
  pub phase : CruisePhase
  pub phase_label : String
  pub completed_steps : ℕ
  pub max_steps : ℕ
  pub elapsed_ms : ℕ
  pub max_duration_ms : ℕ
  pub used_iq_bytes : ℕ
  pub max_iq_bytes : ℕ
  pub sdr_retry_count : ℕ
  pub planner_retry_count : ℕ
  pub retry_limit : ℕ
  pub stop_reason : Option CruiseStopReason
  pub stop_reason_label : Option String

-- `started_at.map(..).unwrap_or_default()`
abbrev pub elapsed : ℕ → Option ℕ → ℕ
elapsed now none = 0
elapsed now (some started) = duration_since now started

-- `try_into().unwrap_or(u64::MAX)`
abbrev pub clamp_u64 : ℕ → ℕ
clamp_u64 n = if leb n u64_max then n else u64_max

abbrev pub label_of : Option CruiseStopReason → Option String
label_of none = none
label_of (some reason) = some (reason_label reason)

unfoldable pub snapshot : ℕ → CruiseControl → CruiseSnapshot
snapshot now c = record {
  mode = c.mode;
  active = c.active;
  phase = c.phase;
  phase_label = phase_label c.phase;
  completed_steps = c.completed_steps;
  max_steps = c.max_steps;
  elapsed_ms = clamp_u64 (as_millis (elapsed now c.started_at));
  max_duration_ms = as_millis c.max_duration % 2 ^ 64;
  used_iq_bytes = c.used_iq_bytes;
  max_iq_bytes = c.max_iq_bytes;
  sdr_retry_count = c.sdr_retry_count;
  planner_retry_count = c.planner_retry_count;
  retry_limit = auto_retry_limit;
  stop_reason = c.stop_reason;
  stop_reason_label = label_of c.stop_reason;
}
