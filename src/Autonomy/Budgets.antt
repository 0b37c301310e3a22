-- ===== src/Autonomy/Budgets.antt =====
-- What an active cruise has spent since its start, counted over the history of calls.
use sdr_pi.Base.{
  ℕ, suc, ◌+◌, ◌≤◌, ◌<◌, ◌≡◌, inl, inr, true, List, [], ◌∷◌, ok, arith, Bool-cases, ap, ◌*◌,
}
use mathlib.Core.Path.{subst}
use sdr_pi.Autonomy.Cruise.{CruiseControl, start, check_duration}
use sdr_pi.Autonomy.Events.{Event, step, run}
use sdr_pi.Autonomy.Invariant.{IsCruise, start-IsCruise, step-IsCruise, run-IsCruise, run_inactive}

-- the number of executions in a history
abbrev pub executions : List Event → ℕ
executions [] = 0
executions (Event.execution iq_bytes ∷ es) = suc (executions es)
executions (_ ∷ es) = executions es

-- the bytes that the executions of a history received
abbrev pub bytes : List Event → ℕ
bytes [] = 0
bytes (Event.execution iq_bytes ∷ es) = iq_bytes + bytes es
bytes (_ ∷ es) = bytes es

-- the failures to find the SDR since it was last found, after `n` before the history
abbrev pub sdr_failures : ℕ → List Event → ℕ
sdr_failures n [] = n
sdr_failures n (Event.sdr_unavailable ∷ es) = sdr_failures (suc n) es
sdr_failures n (Event.sdr_available ∷ es) = sdr_failures 0 es
sdr_failures n (_ ∷ es) = sdr_failures n es

-- the failures to get a plan since one was last seen
abbrev pub planner_failures : ℕ → List Event → ℕ
planner_failures n [] = n
planner_failures n (Event.planner_missing ∷ es) = planner_failures (suc n) es
planner_failures n (Event.planner_action ∷ es) = planner_failures 0 es
planner_failures n (_ ∷ es) = planner_failures n es

-- What a history has added to the counters of a cruise.
pub record Spent (es : List Event) (c d : CruiseControl) : Type 0 where
  pub steps : d.completed_steps ≡ c.completed_steps + executions es
  pub bytes_used : d.used_iq_bytes ≡ c.used_iq_bytes + bytes es
  pub sdr : d.sdr_retry_count ≡ sdr_failures c.sdr_retry_count es
  pub planner : d.planner_retry_count ≡ planner_failures c.planner_retry_count es
  pub max_steps : d.max_steps ≡ c.max_steps
  pub max_bytes : d.max_iq_bytes ≡ c.max_iq_bytes
  pub max_duration : d.max_duration ≡ c.max_duration
  pub started : d.started_at ≡ c.started_at

Spent-step :
    (e : Event) (es : List Event) (c d : CruiseControl)
    → IsCruise c
    → c.active ≡ true
    → (step e c).active ≡ true
    → Spent es (step e c) d
    → Spent (e ∷ es) c d
unfolding step
Spent-step (Event.to_phase phase) es c d h a b s = ground arith
Spent-step e es c d h a b s = ground arith

active_of_step : (e : Event) (c : CruiseControl) → (step e c).active ≡ true → c.active ≡ true
unfolding step
active_of_step e c h = ground arith

run-Spent :
    (es : List Event) (c : CruiseControl)
    → IsCruise c
    → (run es c).active ≡ true
    → Spent es c (run es c)
unfolding run
run-Spent [] c h a = ground arith
run-Spent (e ∷ es) c h a = elim (Bool-cases (step e c).active) [
  | inl on ↦
      Spent-step e es c (run es (step e c)) h (active_of_step e c on) on
        (run-Spent es (step e c) (step-IsCruise e c h) a)
  | inr off ↦ absurd (ground (arith, run_inactive es (step e c) off))
]

module _ (byte_limit steps secs now : ℕ) (c d : CruiseControl)
    (word : byte_limit ≤ 18446744073709551615) (valid : IsCruise c)
    (started : start byte_limit steps secs now c ≡ (ok tt, d)) where
  started-IsCruise : IsCruise d
  started-IsCruise =
      subst IsCruise (ap (λ p. p.1) started) (start-IsCruise byte_limit steps secs now c word valid)

  -- A cruise that is still active after a history of calls since its start has executed fewer
  -- actions than the step limit and received fewer bytes than the byte limit, both counted
  -- exactly, and has seen fewer than five failures in a row to find the SDR or to get a plan.
  pub active_within_budget :
      (es : List Event)
      → (run es d).active ≡ true
      → ((run es d).completed_steps ≡ executions es)
        × ((run es d).used_iq_bytes ≡ bytes es)
        × (executions es < steps)
        × (bytes es < byte_limit)
        × (sdr_failures 0 es < 5)
        × (planner_failures 0 es < 5)
  unfolding start
  active_within_budget es a =
      ground (arith, run-Spent es d started-IsCruise a, run-IsCruise es d started-IsCruise)

  -- If a check of the duration at an instant `later`, after a history of calls since the start,
  -- finds the cruise active, then less than the allowed time has passed.
  pub active_within_duration :
      (es : List Event) (later : ℕ)
      → (check_duration later (run es d)).0 ≡ true
      → later < now + secs * 1_000_000_000
  unfolding start check_duration
  active_within_duration es later a = ground (arith, run-Spent es d started-IsCruise)
