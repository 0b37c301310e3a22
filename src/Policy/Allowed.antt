-- ===== src/Policy/Allowed.antt =====
-- What the policy admits as an inspection, a capture, a recognition or any action, and the proof
-- that `validate_action` decides it.
use sdr_pi.Base.{
  ℕ, ◌*◌, ◌≤◌, ◌<◌, ◌≡◌, ◌↔◌, inl, inr, String, Bool, true, false, ok, arith, some, abs_diff, max,
  ltb, Option-cases, Bool-cases, not, ◌&&◌, refl,
}
use sdr_pi.Protocol.{
  PlanRequest, CandidateSummary, ControllerState, faulted, ProposedAction, hold, survey_band,
  inspect_candidate, capture_bounded_iq, run_local_recognition, stop_session,
}
use sdr_pi.Policy.Checks.{find_by_id, find_candidate, valid_label, validate_reason}
use sdr_pi.Policy.Action.{
  validate_inspection, validate_capture, validate_local_recognition, validate_kind, validate_action,
  is_faulted, is_hold_or_stop,
}
use sdr_pi.Policy.Bounds.{
  IsLimits, InRange, IsProfile, validate_frequency_iff, validate_dwell_iff,
  validate_radio_profile_iff, require_retune_iff, require_capture_iff,
}
use sdr_pi.Policy.Survey.{IsSurvey, validate_survey_iff}

-- An inspection of the candidate that is found under the id.
pub record IsInspection (request : PlanRequest) (candidate : CandidateSummary) (id : String)
    (center_hz sample_rate_hz rf_bandwidth_hz dwell_ms : ℕ) : Type 0 where
  pub found : find_by_id id request.observation.candidates ≡ some candidate
  pub online : request.observation.health.sdr_online ≡ true
  pub retunable : request.observation.health.can_retune ≡ true
  pub center_range : InRange center_hz request.limits
  pub profile : IsProfile sample_rate_hz rf_bandwidth_hz request.limits
  pub near_candidate :
      abs_diff center_hz candidate.center_hz ≤ max candidate.bandwidth_hz rf_bandwidth_hz
  pub dwell_positive : 0 < dwell_ms
  pub dwell_fits : dwell_ms ≤ request.limits.max_dwell_ms
  pub dwell_second : dwell_ms ≤ 1_000
  pub bytes : 16_384 ≤ request.limits.max_iq_bytes

-- A capture around the candidate that is found under the id.
pub record IsCapture (request : PlanRequest) (candidate : CandidateSummary) (id : String)
    (center_hz sample_rate_hz rf_bandwidth_hz samples : ℕ) : Type 0 where
  pub found : find_by_id id request.observation.candidates ≡ some candidate
  pub online : request.observation.health.sdr_online ≡ true
  pub capturable : request.observation.health.can_capture_iq ≡ true
  pub center_range : InRange center_hz request.limits
  pub near_candidate : abs_diff center_hz candidate.center_hz ≤ candidate.bandwidth_hz
  pub profile : IsProfile sample_rate_hz rf_bandwidth_hz request.limits
  pub samples_positive : 0 < samples
  pub samples_fit : samples ≤ request.limits.max_iq_samples
  pub bytes : 4 * samples ≤ request.limits.max_iq_bytes

pub validate_inspection_iff :
    (request : PlanRequest) (id : String) (center rate bandwidth dwell : ℕ) (b : Bool)
    → (validate_inspection request id center rate bandwidth dwell ≡ ok b) ↔ (
        (b ≡ false)
        × ((c : CandidateSummary) × IsInspection request c id center rate bandwidth dwell))
unfolding validate_inspection find_candidate
validate_inspection_iff request id center rate bandwidth dwell b =
    let retune = require_retune_iff request in
    let range = validate_frequency_iff center request.limits in
    let profile = validate_radio_profile_iff rate bandwidth request.limits in
    let dwells = validate_dwell_iff dwell request.limits in
    elim (Option-cases (find_by_id id request.observation.candidates)) [
      | inl missing ↦ (
        λ h. ground (arith, retune, range, profile, dwells),
        λ h. ground (arith, retune, range, profile, dwells),
      )
      | inr (c, found) ↦ (
        λ h. (
          ground (arith, retune, range, profile, dwells),
          (c, ground (arith, retune, range, profile, dwells)),
        ),
        λ h. ground (arith, retune, range, profile, dwells),
      )
    ]

pub validate_capture_iff :
    (request : PlanRequest) (id : String) (center rate bandwidth samples : ℕ) (b : Bool)
    → request.limits.max_iq_bytes ≤ 18446744073709551615
    → (validate_capture request id center rate bandwidth samples ≡ ok b) ↔ (
        (b ≡ ltb request.limits.auto_approve_iq_bytes (4 * samples))
        × ((c : CandidateSummary) × IsCapture request c id center rate bandwidth samples))
unfolding validate_capture find_candidate
validate_capture_iff request id center rate bandwidth samples b word =
    let capture = require_capture_iff request in
    let range = validate_frequency_iff center request.limits in
    elim (Option-cases (find_by_id id request.observation.candidates)) [
      | inl missing ↦ (λ h. ground (arith, capture, range), λ h. ground (arith, capture, range))
      | inr (c, found) ↦ (
        λ h. (ground (arith, capture, range), (c, ground (arith, capture, range))),
        λ h. ground (arith, capture, range),
      )
    ]

pub validate_local_recognition_iff :
    (request : PlanRequest) (id : String) (b : Bool)
    → (validate_local_recognition request id ≡ ok b) ↔ (
        (b ≡ false)
        × (request.observation.health.recognizer_available ≡ true)
        × ((c : CandidateSummary) × (find_by_id id request.observation.candidates ≡ some c)))
unfolding validate_local_recognition find_candidate
validate_local_recognition_iff request id b =
    elim (Option-cases (find_by_id id request.observation.candidates)) [
      | inl missing ↦ (λ h. ground arith, λ h. ground arith)
      | inr (c, found) ↦ (λ h. (ground arith, ground arith, (c, found)), λ h. ground arith)
    ]

-- What the policy admits of each kind of action.
abbrev pub KindAllowed : PlanRequest → ProposedAction → Type 0
KindAllowed request (hold reason) = valid_label reason 256 ≡ true
KindAllowed request (stop_session reason) = valid_label reason 256 ≡ true
KindAllowed request (survey_band start stop step rate bandwidth dwell) =
    IsSurvey request start stop step rate bandwidth dwell
KindAllowed request (inspect_candidate id center rate bandwidth dwell) =
    (c : CandidateSummary) × IsInspection request c id center rate bandwidth dwell
KindAllowed request (capture_bounded_iq id center rate bandwidth samples) =
    (c : CandidateSummary) × IsCapture request c id center rate bandwidth samples
KindAllowed request (run_local_recognition id) =
    (request.observation.health.recognizer_available ≡ true)
    × ((c : CandidateSummary) × (find_by_id id request.observation.candidates ≡ some c))

abbrev pub IsHoldOrStop : ProposedAction → Type 0
IsHoldOrStop action = is_hold_or_stop action ≡ true

-- An action that may be run at a request: while faulted only a hold or a stop.
pub record IsAllowed (request : PlanRequest) (action : ProposedAction) : Type 0 where
  pub not_faulted : request.state ≡ faulted → IsHoldOrStop action
  pub kind : KindAllowed request action

-- Only a capture of more bytes than the limit for automatic approval wants an operator.
abbrev pub approval : PlanRequest → ProposedAction → Bool
approval request (capture_bounded_iq id center rate bandwidth samples) =
    ltb request.limits.auto_approve_iq_bytes (4 * samples)
approval request _ = false

validate_kind_iff :
    (request : PlanRequest) (action : ProposedAction) (b : Bool)
    → IsLimits request.limits
    → request.limits.max_iq_bytes ≤ 18446744073709551615
    → (validate_kind request action ≡ ok b)
      ↔ ((b ≡ approval request action) × KindAllowed request action)
unfolding validate_kind validate_reason
validate_kind_iff request (hold reason) b l w = ground arith
validate_kind_iff request (stop_session reason) b l w = ground arith
validate_kind_iff request (survey_band start stop step rate bandwidth dwell) b l w =
    validate_survey_iff request start stop step rate bandwidth dwell b l
validate_kind_iff request (inspect_candidate id center rate bandwidth dwell) b l w =
    validate_inspection_iff request id center rate bandwidth dwell b
validate_kind_iff request (capture_bounded_iq id center rate bandwidth samples) b l w =
    validate_capture_iff request id center rate bandwidth samples b w
validate_kind_iff request (run_local_recognition id) b l w = (
  λ h. let p = (validate_local_recognition_iff request id b).0 h in (p.0, (p.1, p.2)),
  λ h. (validate_local_recognition_iff request id b).1 (h.0, h.1.0, h.1.1),
)

-- The test by which a faulted controller refuses an action.
abbrev refused : ControllerState → ProposedAction → Bool
refused state action = is_faulted state && not (is_hold_or_stop action)

refused_iff :
    (state : ControllerState) (action : ProposedAction)
    → (refused state action ≡ false) ↔ (state ≡ faulted → IsHoldOrStop action)
refused_iff faulted action = (λ h f. ground arith, λ h. ground (arith, h refl))
refused_iff _ action = (λ h f. cc, λ h. refl)

-- Under valid limits with a byte limit that fits in 64 bits, the policy accepts an action with the
-- approval flag `b` exactly when the action is allowed and `b` is the flag that its size calls for.
pub validate_action_iff :
    (request : PlanRequest) (action : ProposedAction) (b : Bool)
    → IsLimits request.limits
    → request.limits.max_iq_bytes ≤ 18446744073709551615
    → (validate_action request action ≡ ok b)
      ↔ ((b ≡ approval request action) × IsAllowed request action)
unfolding validate_action
validate_action_iff request action b l w =
    let kind = validate_kind_iff request action b l w in
    elim (Bool-cases (refused request.state action)) [
      | inl e ↦ (
        λ h. absurd (ground arith),
        λ h. absurd (ground (arith, (refused_iff request.state action).1 h.1.not_faulted)),
      )
      | inr e ↦ (
        λ h.
            let p = kind.0 (rw e at h) in
            (p.0, record { not_faulted = (refused_iff request.state action).0 e; kind = p.1 }),
        λ h. rw e (kind.1 (h.0, h.1.kind)),
      )
    ]
