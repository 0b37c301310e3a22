-- ===== src/Runner/Sweeps.antt =====
-- runner.rs: the sweep plans of a survey and of an inspection, and `execute_sweep`.
use sdr_pi.Base.{
  ℕ, ℤ, String, not, ◌||◌, Option, none, some, [], ◌∷◌, Result, ok, if◌then◌else◌, ◌+++◌, decimal,
  twelve_f32,
}
use sdr_pi.Protocol.{PlanRequest, ValidatedPlan, ObservationSummary}
use sdr_pi.Sdr.{sdr_error, SdrSnapshot, planner_health}
use sdr_pi.Sweep.{
  SweepPlan, SweepFrequencies, range, centers, SweepReport, SweepError, planner_observation,
  planner_inspection_observation,
}
use sdr_pi.Runner.Audit.{swept, RunnerError, RunReport, executed}
use sdr_pi.Runner.State.{
  Runner, Parts, Action, ◌>>=◌, ◌>>◌, pure, raise, attempt, or_report, call_observe, call_sweep,
  append_audit, audit_sdr_failure, audit_sweep_failure,
}

-- the plan that `run_once` makes of frequencies with the fixed settings of the runner
unfoldable pub fixed_plan : String → ℕ → SweepFrequencies → ℕ → ℕ → ℕ → ℕ → ℤ → SweepPlan
fixed_plan sweep_id generation frequencies sample_rate_hz rf_bandwidth_hz dwell_ms timeout_ms
      gain_db =
    record {
      sweep_id = sweep_id;
      session_generation = generation;
      frequencies = frequencies;
      sample_rate_hz = sample_rate_hz;
      rf_bandwidth_hz = rf_bandwidth_hz;
      settle_ms = dwell_ms;
      frame_samples = 4_096;
      aggregate_frames = 1;
      point_timeout_ms = timeout_ms;
      detection_threshold_db = twelve_f32;
      gain_db = some gain_db;
    }

unfoldable pub survey_plan : ValidatedPlan → ℕ → ℕ → ℕ → ℕ → ℕ → ℕ → ℕ → ℤ → SweepPlan
unfolding fixed_plan
survey_plan plan start_hz stop_hz step_hz sample_rate_hz rf_bandwidth_hz dwell_ms timeout_ms
      gain_db =
    fixed_plan ("request-" +++ decimal plan.request_id) plan.session_generation
      (range start_hz stop_hz step_hz) sample_rate_hz rf_bandwidth_hz dwell_ms timeout_ms gain_db

unfoldable pub inspection_plan : ValidatedPlan → ℕ → ℕ → ℕ → ℕ → ℕ → ℤ → SweepPlan
unfolding fixed_plan
inspection_plan plan center_hz sample_rate_hz rf_bandwidth_hz dwell_ms timeout_ms gain_db =
    fixed_plan ("inspect-" +++ decimal plan.request_id) plan.session_generation
      (centers (center_hz ∷ [])) sample_rate_hz rf_bandwidth_hz dwell_ms timeout_ms gain_db

module _ {V O P E B A K : Type 0} (parts : Parts V O P E B A K) where
  -- `match candidate_id.as_deref()`
  abbrev pub sweep_observation :
      PlanRequest
      → SweepReport
      → SdrSnapshot
      → ℤ
      → Option String
      → Result (SweepError V) ObservationSummary
  sweep_observation request report snapshot gain_db none = ok (
      planner_observation report 0
        (planner_health snapshot request.observation.health.recognizer_available
          request.observation.health.dropped_observations)
        gain_db)
  sweep_observation request report snapshot gain_db (some candidate_id) =
      planner_inspection_observation parts.floats report request.observation candidate_id (
        planner_health snapshot request.observation.health.recognizer_available
          request.observation.health.dropped_observations)

  -- the check after a sweep that the radio is well
  abbrev pub require_healthy :
      PlanRequest → SdrSnapshot → Action (Runner O P E B A K) (RunnerError V) (Unit {0})
  require_healthy request snapshot =
      let unhealthy =
        sdr_error {V = V} "post_execution_health"
          "SDR is not healthy after sweep execution and restoration" in
      if not snapshot.online || not snapshot.healthy
      then audit_sdr_failure parts request unhealthy >> raise (RunnerError.sdr unhealthy)
      else pure tt

  -- the end of `execute_sweep`, from the next observation
  unfoldable pub report_sweep :
      PlanRequest
      → ValidatedPlan
      → SweepReport
      → SdrSnapshot
      → Option String
      → Action (Runner O P E B A K) (RunnerError V) RunReport
  unfolding append_audit audit_sweep_failure
  report_sweep request plan report snapshot candidate_id r =
      (do
        next_observation ←
            or_report (sweep_observation request report snapshot r.survey_gain_db candidate_id)
              (audit_sweep_failure parts request) RunnerError.sweep
        append_audit parts "execution_observation" request (swept report snapshot next_observation)
        pure (record {
          status = executed;
          plan = plan;
          execution = none;
          sweep = some report;
          next_observation = next_observation;
        }))
        r

  -- `execute_sweep`
  unfoldable pub execute_sweep :
      PlanRequest
      → ValidatedPlan
      → SweepPlan
      → Option String
      → Action (Runner O P E B A K) (RunnerError V) RunReport
  unfolding append_audit audit_sdr_failure audit_sweep_failure report_sweep
  execute_sweep request plan sweep_plan candidate_id = do
    swept_result ← attempt (call_sweep parts sweep_plan)
    report ← or_report swept_result (audit_sweep_failure parts request) RunnerError.sweep
    observed ← attempt (call_observe parts)
    snapshot ← or_report observed (audit_sdr_failure parts request) RunnerError.sdr
    require_healthy request snapshot
    report_sweep request plan report snapshot candidate_id
