-- ===== src/Autonomy/Labels.antt =====
-- autonomy.rs: the limits of a cruise, its modes, phases and stop reasons with their labels.
use sdr_pi.Base.{ℕ, String}

abbrev pub auto_retry_limit : ℕ
auto_retry_limit = 5

abbrev pub auto_retry_delay_secs : ℕ
auto_retry_delay_secs = 10

abbrev pub default_auto_max_steps : ℕ
default_auto_max_steps = 8

abbrev pub hard_auto_max_steps : ℕ
hard_auto_max_steps = 128

abbrev pub default_auto_duration_secs : ℕ
default_auto_duration_secs = 120

abbrev pub min_auto_duration_secs : ℕ
min_auto_duration_secs = 10

abbrev pub hard_auto_duration_secs : ℕ
hard_auto_duration_secs = 1_800

pub data InteractionMode : Type 0 where
  step_approval automatic_cruise : InteractionMode

pub data CruisePhase : Type 0 where
  stopped checking_sdr waiting_for_planner : CruisePhase
  waiting_for_approval executing waiting_to_retry : CruisePhase

pub data CruiseStopReason : Type 0 where
  operator_stopped sdr_retry_exhausted planner_retry_exhausted : CruiseStopReason
  step_budget_exhausted duration_budget_exhausted byte_budget_exhausted : CruiseStopReason
  approval_required unsupported_action planner_requested_stop fault : CruiseStopReason

-- `InteractionMode::label`
unfoldable pub mode_label : InteractionMode → String
mode_label step_approval = "逐步人工批准"
mode_label automatic_cruise = "受限自动巡航"

-- `CruisePhase::label`
unfoldable pub phase_label : CruisePhase → String
phase_label stopped = "已停止"
phase_label checking_sdr = "正在检查 SDR"
phase_label waiting_for_planner = "正在等待上游给出下一步"
phase_label waiting_for_approval = "正在等待人工批准"
phase_label executing = "正在执行受限动作"
phase_label waiting_to_retry = "等待重试"

-- `CruiseStopReason::label`
unfoldable pub reason_label : CruiseStopReason → String
reason_label operator_stopped = "操作员已停止"
reason_label sdr_retry_exhausted = "连续 5 次检测不到 SDR"
reason_label planner_retry_exhausted = "连续 5 次未收到上游下一步"
reason_label step_budget_exhausted = "已用完巡航步数"
reason_label duration_budget_exhausted = "已达到巡航时长上限"
reason_label byte_budget_exhausted = "已达到 IQ 字节预算"
reason_label approval_required = "下一步需要人工批准"
reason_label unsupported_action = "下一步没有生产执行器"
reason_label planner_requested_stop = "上游建议停止或保持"
reason_label fault = "控制器检测到故障"
