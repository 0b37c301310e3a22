-- ===== src/Autonomy/Invariant.antt =====
-- What holds of a cruise between two calls, and when and why a call stops it.
use sdr_pi.Base.{
  ℕ, ◌+◌, ◌≤◌, ◌<◌, ◌≡◌, ◌≢◌, ◌⊎◌, ◌↔◌, true, false, none, some, List, [], ◌∷◌, arith,
}
use sdr_pi.Autonomy.Labels.{
  automatic_cruise, CruiseStopReason, operator_stopped, sdr_retry_exhausted,
  planner_retry_exhausted, step_budget_exhausted, duration_budget_exhausted, byte_budget_exhausted,
}
use sdr_pi.Autonomy.Cruise.{CruiseControl, start, default, is_expired}
use sdr_pi.Autonomy.Events.{Event, step, run}

-- The words are in range, and an active cruise is within all its limits.
pub record IsCruise (c : CruiseControl) : Type 0 where
  pub steps_word : c.completed_steps ≤ 255
  pub bytes_word : c.used_iq_bytes ≤ 18446744073709551615
  pub limit_word : c.max_iq_bytes ≤ 18446744073709551615
  pub steps_hard : c.max_steps ≤ 128
  pub duration_hard : c.max_duration ≤ 1_800_000_000_000
  pub active_mode : c.active ≡ true → c.mode ≡ automatic_cruise
  pub active_started : c.active ≡ true → c.started_at ≢ none
  pub active_steps : c.active ≡ true → c.completed_steps < c.max_steps
  pub active_bytes : c.active ≡ true → c.used_iq_bytes < c.max_iq_bytes
  pub active_sdr : c.active ≡ true → c.sdr_retry_count < 5
  pub active_planner : c.active ≡ true → c.planner_retry_count < 5
  pub active_reason : c.active ≡ true → c.stop_reason ≡ none
  pub idle_reason : c.active ≡ false → c.mode ≡ automatic_cruise → c.stop_reason ≢ none

pub default-IsCruise : IsCruise default
unfolding default
default-IsCruise = ground arith

-- Whether `start` accepts its arguments or not, the state that it leaves is well formed.
pub start-IsCruise :
    (bytes steps secs now : ℕ) (c : CruiseControl)
    → bytes ≤ 18446744073709551615
    → IsCruise c
    → IsCruise (start bytes steps secs now c).1
unfolding start
start-IsCruise bytes steps secs now c w h = ground arith

pub step-IsCruise : (e : Event) (c : CruiseControl) → IsCruise c → IsCruise (step e c)
unfolding step
step-IsCruise e c h = ground arith

-- Why a call stops an active cruise.
abbrev pub Cause : Event → CruiseControl → CruiseStopReason → Type 0
Cause (Event.to_phase phase) c r = ⊥
Cause Event.sdr_available c r = ⊥
Cause Event.planner_action c r = ⊥
Cause Event.sdr_unavailable c r = (r ≡ sdr_retry_exhausted) × (4 ≤ c.sdr_retry_count)
Cause Event.planner_missing c r = (r ≡ planner_retry_exhausted) × (4 ≤ c.planner_retry_count)
Cause Event.step_approval c r = r ≡ operator_stopped
Cause (Event.stopping reason) c r = r ≡ reason
Cause (Event.execution iq_bytes) c r =
    ((r ≡ step_budget_exhausted) × (c.max_steps ≤ c.completed_steps + 1))
    ⊎ ((r ≡ byte_budget_exhausted)
        × (c.completed_steps + 1 < c.max_steps)
        × (c.max_iq_bytes ≤ c.used_iq_bytes + iq_bytes))
Cause (Event.duration now) c r =
    (r ≡ duration_budget_exhausted) × (is_expired now c.started_at c.max_duration ≡ true)

-- what a call leaves of an active cruise: stopped for a cause, or active
stop-Cause :
    (e : Event) (c : CruiseControl) (r : CruiseStopReason)
    → IsCruise c
    → c.active ≡ true
    → ((step e c).active ≡ false) × ((step e c).stop_reason ≡ some r)
    → Cause e c r
unfolding step
stop-Cause (Event.to_phase phase) c r h a s = ground arith
stop-Cause e c r h a s = ground arith

Cause-stop :
    (e : Event) (c : CruiseControl) (r : CruiseStopReason)
    → IsCruise c
    → c.active ≡ true
    → Cause e c r
    → ((step e c).active ≡ false) × ((step e c).stop_reason ≡ some r)
unfolding step
Cause-stop (Event.to_phase phase) c r h a s = absurd s
Cause-stop Event.sdr_available c r h a s = absurd s
Cause-stop Event.planner_action c r h a s = absurd s
Cause-stop e c r h a s = ground arith

-- Of an active, well-formed cruise: a call stops it with the reason `r` exactly when `r` is the
-- call's cause. That is the fifth failure in a row to find the SDR or to get a plan, the last step
-- or else the last byte of the budget, the end of the time, a switch to step approval, or a stop
-- for that very reason; the other calls never stop it.
pub step_stop_iff :
    (e : Event) (c : CruiseControl) (r : CruiseStopReason)
    → IsCruise c
    → c.active ≡ true
    → (((step e c).active ≡ false) × ((step e c).stop_reason ≡ some r)) ↔ Cause e c r
step_stop_iff e c r h a = (stop-Cause e c r h a, Cause-stop e c r h a)

step_inactive : (e : Event) (c : CruiseControl) → c.active ≡ false → (step e c).active ≡ false
unfolding step
step_inactive e c h = ground arith

-- Once stopped, a cruise stays stopped whatever is called, until it is started again.
pub run_inactive :
    (es : List Event) (c : CruiseControl) → c.active ≡ false → (run es c).active ≡ false
unfolding run
run_inactive [] c h = h
run_inactive (e ∷ es) c h = run_inactive es (step e c) (step_inactive e c h)

pub run-IsCruise : (es : List Event) (c : CruiseControl) → IsCruise c → IsCruise (run es c)
unfolding run
run-IsCruise [] c h = h
run-IsCruise (e ∷ es) c h = run-IsCruise es (step e c) (step-IsCruise e c h)
