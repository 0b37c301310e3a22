-- ===== src/Runner/Called.antt =====
-- What an execution calls, and with what.
use sdr_pi.Base.{
  ℕ, ℤ, ◌≡◌, ◌⊎◌, inl, inr, ◌∙◌, String, Option, none, some, [], ◌∷◌, arith, Result-cases,
}
use mathlib.Core.Path.{subst}
use sdr_pi.Protocol.{
  PlanRequest, ValidatedPlan, ProposedAction, capture_bounded_iq, survey_band, inspect_candidate,
  hold, run_local_recognition, stop_session,
}
use sdr_pi.Sdr.{SdrSnapshot}
use sdr_pi.Execution.{ExecutionAuthorization}
use sdr_pi.Execution.Granted.{Authorizes}
use sdr_pi.Sweep.{
  SweepPlan, SweepFrequencies, range, centers, ValidatedSweepPlan, SweepReport, validate_plan,
  run_sweep,
}
use sdr_pi.Sweep.Accepted.{IsPlanOf, IsValidated, validate_plan-IsValidated}
use sdr_pi.Runner.State.{Runner, Parts}
use sdr_pi.Runner.Sweeps.{fixed_plan, survey_plan, inspection_plan, report_sweep, execute_sweep}
use sdr_pi.Runner.Once.{execute_capture, execute_action}

-- Neither the executor nor the sweep backend has been called.
pub record Untouched {O P E B A K : Type 0} (r r' : Runner O P E B A K) : Type 0 where
  pub executor : r'.executor ≡ r.executor
  pub sweep : r'.sweep ≡ r.sweep
  pub gain : r'.survey_gain_db ≡ r.survey_gain_db
  pub timeout : r'.sweep_point_timeout_ms ≡ r.sweep_point_timeout_ms

-- A sweep of one frame of 4096 samples at each of the frequencies, in the plan's session.
pub record IsSweepPlan (plan : ValidatedPlan) (frequencies : SweepFrequencies)
    (rate bandwidth dwell timeout : ℕ) (gain : ℤ) (p : SweepPlan) : Type 0 where
  pub same_session : p.session_generation ≡ plan.session_generation
  pub same_frequencies : p.frequencies ≡ frequencies
  pub same_rate : p.sample_rate_hz ≡ rate
  pub same_bandwidth : p.rf_bandwidth_hz ≡ bandwidth
  pub settles : p.settle_ms ≡ dwell
  pub same_timeout : p.point_timeout_ms ≡ timeout
  pub same_gain : p.gain_db ≡ some gain
  pub one_frame : p.aggregate_frames ≡ 1
  pub frame : p.frame_samples ≡ 4096

module _ {V O P E B A K : Type 0} (parts : Parts V O P E B A K) where
  -- The backend, and not the executor, was given a valid plan of a sweep.
  pub record CallsSweep (plan : ValidatedPlan) (frequencies : SweepFrequencies)
      (rate bandwidth dwell : ℕ) (e : E) (b : B) (timeout : ℕ) (gain : ℤ) (r : Runner O P E B A K)
      : Type 0 where
    pub sweep_plan : SweepPlan
    pub planned : IsSweepPlan plan frequencies rate bandwidth dwell timeout gain sweep_plan
    pub validated : ValidatedSweepPlan
    pub of_plan : IsPlanOf V sweep_plan validated
    pub valid : IsValidated validated
    pub executor : r.executor ≡ e
    pub sweep : r.sweep ≡ (parts.sweeping.run_points validated b).1

  -- The executor, and not the backend, was given the plan with an authorization of it.
  pub record CallsExecutor (plan : ValidatedPlan) (e : E) (b : B) (r : Runner O P E B A K)
      : Type 0 where
    pub authorization : ExecutionAuthorization
    pub authorizes : Authorizes plan authorization
    pub executor : r.executor ≡ (parts.executing.execute plan authorization e).1
    pub sweep : r.sweep ≡ b

  -- What is called for an action of a plan, once, from the states of the executor and the backend
  -- and the settings of the runner.
  abbrev pub Called : ProposedAction → ValidatedPlan → E → B → ℕ → ℤ → Runner O P E B A K → Type 0
  Called (capture_bounded_iq id center rate bandwidth samples) plan e b timeout gain r =
      CallsExecutor plan e b r
  Called (survey_band start stop step rate bandwidth dwell) plan e b timeout gain r =
      CallsSweep plan (range start stop step) rate bandwidth dwell e b timeout gain r
  Called (inspect_candidate id center rate bandwidth dwell) plan e b timeout gain r =
      CallsSweep plan (centers (center ∷ [])) rate bandwidth dwell e b timeout gain r
  Called _ plan e b timeout gain r = ⊥

  -- the same of a state in which nothing had been called
  pub Called-after :
      (action : ProposedAction) (plan : ValidatedPlan) (r r1 r' : Runner O P E B A K)
      → Untouched r r1
      → Called action plan r1.executor r1.sweep r1.sweep_point_timeout_ms r1.survey_gain_db r'
      → Called action plan r.executor r.sweep r.sweep_point_timeout_ms r.survey_gain_db r'
  Called-after action plan r r1 r' u c =
      subst (λ g. Called action plan r.executor r.sweep r.sweep_point_timeout_ms g r') u.gain
        (subst (λ t. Called action plan r.executor r.sweep t r1.survey_gain_db r') u.timeout
          (subst
            (λ b. Called action plan r.executor b r1.sweep_point_timeout_ms r1.survey_gain_db r')
            u.sweep
            (subst
              (λ e. Called action plan e r1.sweep r1.sweep_point_timeout_ms r1.survey_gain_db r')
              u.executor c)))

  execute_capture-Called :
      (request : PlanRequest) (plan : ValidatedPlan) (authorization : ExecutionAuthorization)
      (r : Runner O P E B A K)
      → Authorizes plan authorization
      → CallsExecutor plan r.executor r.sweep (execute_capture parts request plan authorization r).1
  unfolding execute_capture
  execute_capture-Called request plan authorization r a = record {
    authorization = authorization;
    authorizes = a;
    executor = ground arith;
    sweep = ground arith;
  }

  report_sweep-Untouched :
      (request : PlanRequest) (plan : ValidatedPlan) (report : SweepReport) (snapshot : SdrSnapshot)
      (id : Option String) (r : Runner O P E B A K)
      → Untouched r (report_sweep parts request plan report snapshot id r).1
  unfolding report_sweep
  report_sweep-Untouched request plan report snapshot id r = ground arith

  execute_sweep-states :
      (request : PlanRequest) (plan : ValidatedPlan) (sweep_plan : SweepPlan) (id : Option String)
      (r : Runner O P E B A K)
      → ((execute_sweep parts request plan sweep_plan id r).1.executor ≡ r.executor)
        × ((execute_sweep parts request plan sweep_plan id r).1.sweep
            ≡ (run_sweep parts.floats parts.sweeping sweep_plan r.sweep).1)
        × ((execute_sweep parts request plan sweep_plan id r).1.survey_gain_db ≡ r.survey_gain_db)
        × ((execute_sweep parts request plan sweep_plan id r).1.sweep_point_timeout_ms
            ≡ r.sweep_point_timeout_ms)
  unfolding execute_sweep
  execute_sweep-states request plan sweep_plan id r =
      ground (arith, report_sweep-Untouched request plan)

  run_sweep-states :
      (sweep_plan : SweepPlan) (b : B)
      → ((run_sweep parts.floats parts.sweeping sweep_plan b).1 ≡ b)
        ⊎ ((validated : ValidatedSweepPlan) × IsPlanOf V sweep_plan validated
            × IsValidated validated
            × ((run_sweep parts.floats parts.sweeping sweep_plan b).1
                ≡ (parts.sweeping.run_points validated b).1))
  unfolding run_sweep
  run_sweep-states sweep_plan b = elim (Result-cases (validate_plan {V = V} sweep_plan)) [
    | inr (e, p) ↦ inl (ground (arith, p))
    | inl (validated, p) ↦
        let valid = validate_plan-IsValidated {V = V} sweep_plan validated p in
        inr (validated, valid.0, valid.1, ground (arith, p))
  ]

  execute_sweep-Called :
      (request : PlanRequest) (plan : ValidatedPlan) (sweep_plan : SweepPlan) (id : Option String)
      (frequencies : SweepFrequencies) (rate bandwidth dwell : ℕ) (r : Runner O P E B A K)
      → IsSweepPlan plan frequencies rate bandwidth dwell r.sweep_point_timeout_ms r.survey_gain_db
          sweep_plan
      → Untouched r (execute_sweep parts request plan sweep_plan id r).1
        ⊎ CallsSweep plan frequencies rate bandwidth dwell r.executor r.sweep
            r.sweep_point_timeout_ms r.survey_gain_db
            (execute_sweep parts request plan sweep_plan id r).1
  execute_sweep-Called request plan sweep_plan id frequencies rate bandwidth dwell r planned =
      let states = execute_sweep-states request plan sweep_plan id r in
      elim (run_sweep-states sweep_plan r.sweep) [
        | inl kept ↦ inl (record {
          executor = states.0;
          sweep = states.1 ∙ kept;
          gain = states.2;
          timeout = states.3;
        })
        | inr (validated, of_plan, valid, ran) ↦ inr (record {
          sweep_plan = sweep_plan;
          planned = planned;
          validated = validated;
          of_plan = of_plan;
          valid = valid;
          executor = states.0;
          sweep = states.1 ∙ ran;
        })
      ]

  survey_plan-IsSweepPlan :
      (plan : ValidatedPlan) (start stop step rate bandwidth dwell timeout : ℕ) (gain : ℤ)
      → IsSweepPlan plan
          (range start stop step)
          rate
          bandwidth
          dwell
          timeout
          gain
          (survey_plan plan start stop step rate bandwidth dwell timeout gain)
  unfolding survey_plan fixed_plan
  survey_plan-IsSweepPlan plan start stop step rate bandwidth dwell timeout gain = ground arith

  inspection_plan-IsSweepPlan :
      (plan : ValidatedPlan) (center rate bandwidth dwell timeout : ℕ) (gain : ℤ)
      → IsSweepPlan plan
          (centers (center ∷ []))
          rate
          bandwidth
          dwell
          timeout
          gain
          (inspection_plan plan center rate bandwidth dwell timeout gain)
  unfolding inspection_plan fixed_plan
  inspection_plan-IsSweepPlan plan center rate bandwidth dwell timeout gain = ground arith

  -- An execution of an authorized plan calls what its action asks for, or nothing.
  pub execute_action-Called :
      (action : ProposedAction) (request : PlanRequest) (plan : ValidatedPlan)
      (authorization : ExecutionAuthorization) (r : Runner O P E B A K)
      → Authorizes plan authorization
      → Untouched r (execute_action parts action request plan authorization r).1
        ⊎ Called action plan r.executor r.sweep r.sweep_point_timeout_ms r.survey_gain_db
            (execute_action parts action request plan authorization r).1
  unfolding execute_action
  execute_action-Called (capture_bounded_iq id center rate bandwidth samples) request plan
        authorization r a =
      inr (execute_capture-Called request plan authorization r a)
  execute_action-Called (survey_band start stop step rate bandwidth dwell) request plan
        authorization r a =
      execute_sweep-Called request plan
        (survey_plan plan start stop step rate bandwidth dwell r.sweep_point_timeout_ms
          r.survey_gain_db)
        none (range start stop step) rate bandwidth dwell r
        (survey_plan-IsSweepPlan plan start stop step rate bandwidth dwell r.sweep_point_timeout_ms
          r.survey_gain_db)
  execute_action-Called (inspect_candidate id center rate bandwidth dwell) request plan
        authorization r a =
      execute_sweep-Called request plan
        (inspection_plan plan center rate bandwidth dwell r.sweep_point_timeout_ms r.survey_gain_db)
        (some id) (centers (center ∷ [])) rate bandwidth dwell r
        (inspection_plan-IsSweepPlan plan center rate bandwidth dwell r.sweep_point_timeout_ms
          r.survey_gain_db)
  execute_action-Called (hold x) request plan authorization r a = inl (ground arith)
  execute_action-Called (run_local_recognition x) request plan authorization r a =
      inl (ground arith)
  execute_action-Called (stop_session x) request plan authorization r a = inl (ground arith)
