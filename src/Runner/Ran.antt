-- ===== src/Runner/Ran.antt =====
-- The entries that an execution (`execute_capture`, `execute_sweep`) leaves.
use sdr_pi.Base.{
  ◌≡◌, inl, inr, refl, true, not, ◌||◌, List, ◌∷◌, Option, some, none, String, Result, ok, err,
  arith, Result-cases, Bool-cases,
}
use sdr_pi.Protocol.{
  PlanRequest, ValidatedPlan, ProposedAction, capture_bounded_iq, survey_band, inspect_candidate,
  hold, run_local_recognition, stop_session,
}
use sdr_pi.Sdr.{SdrError, sdr_error, SdrSnapshot, planner_health}
use sdr_pi.Execution.{ExecutionAuthorization, ExecutionObservation}
use sdr_pi.Sweep.{SweepError, SweepPlan, SweepReport, run_sweep}
use sdr_pi.Runner.Audit.{RunnerError, RunReport, RunStatus, Payload, AuditEvent}
use sdr_pi.Runner.State.{Runner, Parts, audit_sdr_failure, audit_sweep_failure}
use sdr_pi.Runner.Once.{is_executable, execute_capture, execute_action}
use sdr_pi.Runner.Sweeps.{sweep_observation, report_sweep, execute_sweep}
use mathlib.Core.Path.{subst}
use sdr_pi.Runner.Entries.{Entry, entries, recording, audit-Recorded}

-- What an execution with a result leaves over the entries before it: what failed, with the error,
-- or what was executed, as the report has it; of an audit that failed nothing is said.
pub data Ran {V : Type 0} (before : List (Entry V)) (result : Result (RunnerError V) RunReport)
    (trail : List (Entry V)) : Type 0 where
  unrecorded :
      (message : String) → result ≡ err (RunnerError.audit message) → Ran before result trail
  failed :
      (e : SdrError V)
      → result ≡ err (RunnerError.sdr e)
      → trail ≡ ("execution_failed", Payload.sdr_failure e) ∷ before
      → Ran before result trail
  failed_sweep :
      (e : SweepError V)
      → result ≡ err (RunnerError.sweep e)
      → trail ≡ ("execution_failed", Payload.sweep_failure e) ∷ before
      → Ran before result trail
  captured :
      (report : RunReport) (execution : ExecutionObservation)
      → result ≡ ok report
      → report.status ≡ RunStatus.executed
      → report.execution ≡ some execution
      → trail ≡ ("execution_observation", Payload.execution execution) ∷ before
      → Ran before result trail
  swept :
      (report : RunReport) (sweep : SweepReport) (snapshot : SdrSnapshot)
      → result ≡ ok report
      → report.status ≡ RunStatus.executed
      → report.sweep ≡ some sweep
      → trail
        ≡ ("execution_observation", Payload.swept sweep snapshot report.next_observation) ∷ before
      → Ran before result trail

module _ {V O P E B K : Type 0} (parts : Parts V O P E B (List (AuditEvent V)) K)
    (failure : AuditEvent V → List (AuditEvent V) → Option String) where
  abbrev Trailed : Type 0
  Trailed = Runner O P E B (List (AuditEvent V)) K

  -- what the execution `x` from `r` leaves
  abbrev pub RanFrom : Trailed → Result (RunnerError V) RunReport × Trailed → Type 0
  RanFrom r x = Ran (entries r) x.0 (entries x.1)

  execute_capture-Ran :
      (request : PlanRequest) (plan : ValidatedPlan) (authorization : ExecutionAuthorization)
      (r : Trailed)
      → RanFrom r (execute_capture (recording failure parts) request plan authorization r)
  unfolding execute_capture audit_sdr_failure
  execute_capture-Ran request plan authorization r =
      let executed = parts.executing.execute plan authorization r.executor in
      let r1 : Trailed = record r { executor = executed.1 } in
      elim (Result-cases executed.0) [
        | inr (e, x) ↦
            elim (audit-Recorded parts failure "execution_failed" request (Payload.sdr_failure e)
              r1) [
                | inl (m, a) ↦ unrecorded m (ground (arith, x, a))
                | inr (a, kept, _) ↦ failed e (ground (arith, x, a)) (ground (arith, x, a, kept))
              ]
        | inl (execution, x) ↦
            elim (audit-Recorded parts failure "execution_observation" request
              (Payload.execution execution) r1) [
                | inl (m, a) ↦ unrecorded m (ground (arith, x, a))
                | inr (a, kept, _) ↦
                    captured
                      (record {
                        status = RunStatus.executed;
                        plan = plan;
                        execution = some execution;
                        sweep = none;
                        next_observation = record (request.observation) {
                          age_ms = 0;
                          health =
                              planner_health execution.post_execution_sdr
                                request.observation.health.recognizer_available
                                request.observation.health.dropped_observations;
                        };
                      })
                      execution (ground (arith, x, a)) refl refl (ground (arith, x, a, kept))
              ]
      ]

  report_sweep-Ran :
      (request : PlanRequest) (plan : ValidatedPlan) (report : SweepReport) (snapshot : SdrSnapshot)
      (id : Option String) (r : Trailed)
      → RanFrom r (report_sweep (recording failure parts) request plan report snapshot id r)
  unfolding report_sweep audit_sweep_failure
  report_sweep-Ran request plan report snapshot id r =
      elim (Result-cases
        (sweep_observation (recording failure parts) request report snapshot r.survey_gain_db id)) [
          | inr (e, x) ↦
              elim (audit-Recorded parts failure "execution_failed" request
                (Payload.sweep_failure e) r) [
                  | inl (m, a) ↦ unrecorded m (ground (arith, x, a))
                  | inr (a, kept, _) ↦
                      failed_sweep e (ground (arith, x, a)) (ground (arith, x, a, kept))
                ]
          | inl (next, x) ↦
              elim (audit-Recorded parts failure "execution_observation" request
                (Payload.swept report snapshot next) r) [
                  | inl (m, a) ↦ unrecorded m (ground (arith, x, a))
                  | inr (a, kept, _) ↦
                      swept
                        (record {
                          status = RunStatus.executed;
                          plan = plan;
                          execution = none;
                          sweep = some report;
                          next_observation = next;
                        })
                        report snapshot (ground (arith, x, a)) refl refl
                        (ground (arith, x, a, kept))
                ]
        ]

  -- a sweep that was done, and a snapshot after it
  observed_sweep-Ran :
      (request : PlanRequest) (plan : ValidatedPlan) (sweep_plan : SweepPlan) (id : Option String)
      (report : SweepReport) (snapshot : SdrSnapshot) (r : Trailed)
      → (run_sweep parts.floats parts.sweeping sweep_plan r.sweep).0 ≡ ok report
      → (parts.engine.observe r.observer).0 ≡ ok snapshot
      → RanFrom r (execute_sweep (recording failure parts) request plan sweep_plan id r)
  unfolding execute_sweep audit_sdr_failure
  observed_sweep-Ran request plan sweep_plan id report snapshot r s o =
      let unhealthy =
        sdr_error {V = V} "post_execution_health"
          "SDR is not healthy after sweep execution and restoration" in
      let r2 : Trailed = record r {
        sweep = (run_sweep parts.floats parts.sweeping sweep_plan r.sweep).1;
        observer = (parts.engine.observe r.observer).1;
      } in
      let all = execute_sweep (recording failure parts) request plan sweep_plan id r in
      elim (Bool-cases (not snapshot.online || not snapshot.healthy)) [
        | inl b ↦
            elim (audit-Recorded parts failure "execution_failed" request
              (Payload.sdr_failure unhealthy) r2) [
                | inl (m, a) ↦ unrecorded m (ground (arith, s, o, b, a))
                | inr (a, kept, _) ↦
                    failed unhealthy (ground (arith, s, o, b, a)) (ground (arith, s, o, b, a, kept))
              ]
        | inr b ↦
            let done = report_sweep (recording failure parts) request plan report snapshot id r2 in
            let ended : done ≡ all = ground (arith, s, o, b) in
            subst (λ x. RanFrom r x) ended (report_sweep-Ran request plan report snapshot id r2)
      ]

  execute_sweep-Ran :
      (request : PlanRequest) (plan : ValidatedPlan) (sweep_plan : SweepPlan) (id : Option String)
      (r : Trailed)
      → RanFrom r (execute_sweep (recording failure parts) request plan sweep_plan id r)
  unfolding execute_sweep audit_sdr_failure audit_sweep_failure
  execute_sweep-Ran request plan sweep_plan id r =
      let done = run_sweep parts.floats parts.sweeping sweep_plan r.sweep in
      let r1 : Trailed = record r { sweep = done.1 } in
      let observed = parts.engine.observe r.observer in
      let r2 : Trailed = record r1 { observer = observed.1 } in
      elim (Result-cases done.0) [
        | inr (e, s) ↦
            elim (audit-Recorded parts failure "execution_failed" request (Payload.sweep_failure e)
              r1) [
                | inl (m, a) ↦ unrecorded m (ground (arith, s, a))
                | inr (a, kept, _) ↦
                    failed_sweep e (ground (arith, s, a)) (ground (arith, s, a, kept))
              ]
        | inl (report, s) ↦ elim (Result-cases observed.0) [
          | inl (snapshot, o) ↦ observed_sweep-Ran request plan sweep_plan id report snapshot r s o
          | inr (e, o) ↦
              elim (audit-Recorded parts failure "execution_failed" request (Payload.sdr_failure e)
                r2) [
                  | inl (m, a) ↦ unrecorded m (ground (arith, s, o, a))
                  | inr (a, kept, _) ↦
                      failed e (ground (arith, s, o, a)) (ground (arith, s, o, a, kept))
                ]
        ]
      ]

  -- An execution of an action that has an executor.
  pub execute_action-Ran :
      (action : ProposedAction) (request : PlanRequest) (plan : ValidatedPlan)
      (authorization : ExecutionAuthorization) (r : Trailed)
      → is_executable action ≡ true
      → RanFrom r (execute_action (recording failure parts) action request plan authorization r)
  unfolding execute_action
  execute_action-Ran (capture_bounded_iq id center rate bandwidth samples) request plan
        authorization r h =
      execute_capture-Ran request plan authorization r
  execute_action-Ran (survey_band start stop step rate bandwidth dwell) request plan authorization r
        h =
      execute_sweep-Ran request plan _ none r
  execute_action-Ran (inspect_candidate id center rate bandwidth dwell) request plan authorization r
        h =
      execute_sweep-Ran request plan _ (some id) r
  execute_action-Ran (hold x) request plan authorization r h = absurd (ground arith)
  execute_action-Ran (run_local_recognition a) request plan authorization r h =
      absurd (ground arith)
  execute_action-Ran (stop_session x) request plan authorization r h = absurd (ground arith)
