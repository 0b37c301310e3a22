-- ===== src/Execution/Replay.antt =====
-- execution.rs: `ReplayActionExecutor`, which answers from a queue.
use sdr_pi.Base.{ℕ, true, not, ◌||◌, List, [], ◌∷◌, Result, ok, err, ◌==◌, if◌then◌else◌}
use sdr_pi.Protocol.{ValidatedPlan}
use sdr_pi.Sdr.{SdrError, sdr_error}
use sdr_pi.Execution.Authorization.{
  ExecutionAuthorization, ExecutionObservation, CancelObservation, SdrActionExecutor,
  validate_authorization,
}

abbrev pub Queue : Type 0 → Type 0
Queue V = List (Result (SdrError V) ExecutionObservation)

module _ {V : Type 0} where
  -- what is taken from the queue must belong to the plan
  abbrev pub correlate :
      ValidatedPlan
      → Result (SdrError V) ExecutionObservation
      → Result (SdrError V) ExecutionObservation
  correlate plan (err e) = err e
  correlate plan (ok observation) =
      if not (observation.request_id == plan.request_id)
        || not (observation.session_generation == plan.session_generation)
      then err
          (sdr_error "replay_correlation" "replay observation does not match the validated plan")
      else ok observation

  abbrev pub pop_execution :
      ValidatedPlan → Queue V → Result (SdrError V) ExecutionObservation × Queue V
  pop_execution plan [] = (err (sdr_error "replay_exhausted" "no replay executions remain"), [])
  pop_execution plan (o ∷ rest) = (correlate plan o, rest)

  abbrev pub replay_execute :
      ValidatedPlan
      → ExecutionAuthorization
      → Queue V
      → Result (SdrError V) ExecutionObservation × Queue V
  replay_execute plan authorization queue =
      elim (validate_authorization {V = V} plan authorization) [
        | ok _ ↦ pop_execution plan queue
        | err e ↦ (err e, queue)
      ]

  -- the same in every executor of the source: a zero generation is refused
  abbrev pub replay_cancel : ℕ → Queue V → Result (SdrError V) CancelObservation × Queue V
  replay_cancel session_generation queue =
      if session_generation == 0
      then (err (sdr_error "cancel_generation" "cancel generation must be non-zero"), queue)
      else (ok (record { session_generation = session_generation; cancel_requested = true }), queue)

  abbrev pub replay_executor : SdrActionExecutor V (Queue V)
  replay_executor = record { execute = replay_execute; cancel = replay_cancel }
