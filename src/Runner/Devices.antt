-- ===== src/Runner/Devices.antt =====
-- The runner over the executor that captures with the SDRD daemon.
use sdr_pi.Base.{ℕ, ◌≡◌, some, ok}
use sdr_pi.Protocol.{PlanRequest}
use sdr_pi.Sdr.Wire.{Wire}
use sdr_pi.Sdr.Observe.{ObserveShapes}
use sdr_pi.Execution.{ExecutionObservation}
use sdr_pi.Execution.Responses.{ExecuteShapes}
use sdr_pi.Execution.Adapter.{sdrd_executor}
use sdr_pi.Execution.Fulfilled.{Performed, sdrd_execute-Performed}
use sdr_pi.Runner.Audit.{ApprovalMode, RunReport}
use sdr_pi.Runner.State.{Runner, Parts}
use sdr_pi.Runner.Once.{run_once}
use sdr_pi.Runner.Captured.{run_once-Holds}

-- the parts with this executor
abbrev pub with_sdrd :
    {V O P E B A K N : Type 0}
    → Parts V O P E B A K
    → Wire V N
    → ExecuteShapes V
    → ObserveShapes V
    → ℕ
    → Parts V O P N B A K
with_sdrd parts wire shapes observe_shapes timeout = record {
  engine = parts.engine;
  planning = parts.planning;
  executing = sdrd_executor wire shapes observe_shapes timeout;
  sweeping = parts.sweeping;
  auditing = parts.auditing;
  timing = parts.timing;
  floats = parts.floats;
}

module _ {V O P E B A K N : Type 0} (parts : Parts V O P E B A K) (wire : Wire V N)
    (shapes : ExecuteShapes V) (observe_shapes : ObserveShapes V) (timeout : ℕ) where
  -- Where a run whose captures are executed with the SDRD daemon reports an observation, its plan is to
  -- capture, the observation is what the daemon answered to the command of that capture, which keeps
  -- its contract, and the daemon reported a healthy radio.
  pub run_once-Performed :
      (request : PlanRequest) (approval : ApprovalMode) (r : Runner O P N B A K)
      (report : RunReport) (o : ExecutionObservation)
      → (run_once (with_sdrd parts wire shapes observe_shapes timeout) request approval r).0
        ≡ ok report
      → report.execution ≡ some o
      → Performed wire shapes observe_shapes timeout report.plan.action report.plan o
  run_once-Performed =
      run_once-Holds (with_sdrd parts wire shapes observe_shapes timeout)
        (λ plan o. Performed wire shapes observe_shapes timeout plan.action plan o)
        (λ plan authorization n o h.
          (sdrd_execute-Performed wire shapes observe_shapes timeout plan authorization n o h).1)
