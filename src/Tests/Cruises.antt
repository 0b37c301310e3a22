-- ===== src/Tests/Cruises.antt =====
-- Tests of the cruise.
use sdr_pi.Base.{◌≡◌, ◌<◌, ◌*◌, ◌+◌, refl, true, false, some, ok, arith, List, [], ◌∷◌}
use sdr_pi.Autonomy.{
  CruiseControl, sdr_retry_exhausted, default, start, check_duration, Event, step, run,
}
use sdr_pi.Autonomy.Invariant.{
  IsCruise, default-IsCruise, start-IsCruise, run-IsCruise, step_stop_iff, run_inactive,
}
use sdr_pi.Autonomy.Budgets.{
  sdr_failures, planner_failures, active_within_budget, active_within_duration,
}

-- a cruise of 4 steps, 1,000 bytes and 60 seconds, started at the instant 0
abbrev cruising : CruiseControl
cruising = (start 1_000 4 60 0 default).1

started : start 1_000 4 60 0 default ≡ (ok tt, cruising)
unfolding start default
started = refl

cruising-IsCruise : IsCruise cruising
cruising-IsCruise = start-IsCruise 1_000 4 60 0 default (omega arith) default-IsCruise

abbrev four_failures : List Event
four_failures =
    Event.sdr_unavailable ∷ Event.sdr_unavailable ∷ Event.sdr_unavailable ∷ Event.sdr_unavailable
    ∷ []

-- four failures in a row leave the cruise active, the fifth one stops it
still_active : (run four_failures cruising).active ≡ true
unfolding run step start default
still_active = refl

four_counted : (run four_failures cruising).sdr_retry_count ≡ 4
unfolding run step start default
four_counted = refl

step_stop_iff_example :
    ((step Event.sdr_unavailable (run four_failures cruising)).active ≡ false)
    × ((step Event.sdr_unavailable (run four_failures cruising)).stop_reason
        ≡ some sdr_retry_exhausted)
step_stop_iff_example =
    (step_stop_iff Event.sdr_unavailable (run four_failures cruising) sdr_retry_exhausted
        (run-IsCruise four_failures cruising cruising-IsCruise) still_active).1
      (refl, omega (arith, four_counted))

abbrev stopped_cruise : CruiseControl
stopped_cruise = step (Event.duration 60_000_000_000) cruising

expired : stopped_cruise.active ≡ false
unfolding step start default
expired = refl

run_inactive_example :
    (run (Event.execution 10 ∷ Event.sdr_available ∷ []) stopped_cruise).active ≡ false
run_inactive_example =
    run_inactive (Event.execution 10 ∷ Event.sdr_available ∷ []) stopped_cruise expired

abbrev history : List Event
history = Event.execution 100 ∷ Event.sdr_unavailable ∷ Event.execution 200 ∷ []

history_active : (run history cruising).active ≡ true
unfolding run step start default
history_active = refl

active_within_budget_example :
    ((run history cruising).completed_steps ≡ 2)
    × ((run history cruising).used_iq_bytes ≡ 300)
    × (2 < 4)
    × (300 < 1_000)
    × (sdr_failures 0 history < 5)
    × (planner_failures 0 history < 5)
active_within_budget_example =
    active_within_budget 1_000 4 60 0 default cruising (omega arith) default-IsCruise started
      history history_active

in_time : (check_duration 59_999_999_999 (run history cruising)).0 ≡ true
unfolding check_duration run step start default
in_time = refl

active_within_duration_example : 59_999_999_999 < 0 + 60 * 1_000_000_000
active_within_duration_example =
    active_within_duration 1_000 4 60 0 default cruising (omega arith) default-IsCruise started
      history 59_999_999_999 in_time
