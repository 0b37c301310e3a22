-- ===== src/Policy/Accepted.antt =====
-- What holds of a request that `validate_request` accepts.
use sdr_pi.Base.{
  ℕ, ◌≤◌, ◌<◌, ◌≡◌, ◌⊎◌, inl, inr, String, true, false, ok, arith, some, none, Option, List, [],
  ◌∷◌, map, All, length, is_finite, F32, Result-cases, is_blank, byte_len, le_f32, zero_f32,
  one_f32, contains_ℤ, pos,
}
use mathlib.Core.List.{Memᴰ}
use sdr_pi.Protocol.{
  SafetyLimits, CandidateSummary, SweepObservationSummary, RecognitionSummary, PlanRequest,
}
use sdr_pi.Policy.Checks.{valid_label}
use sdr_pi.Policy.Request.{
  validate_candidates, validate_sweep_points, validate_latest_sweep, validate_recognition,
  validate_request,
}
use sdr_pi.Policy.Bounds.{IsLimits, InRange, validate_limits_iff, validate_frequency_iff}
use sdr_pi.Policy.Candidates.{
  IsCandidate, id_of, Distinct, contains_id-true, validate_candidates-Passed,
}

-- Finite powers at frequencies within the limits that rise strictly, all above the bound.
abbrev pub Ascending : SafetyLimits → Option ℕ → List (ℕ × F32) → Type 0
Ascending limits bound [] = Unit
Ascending limits none (p ∷ rest) =
    InRange p.0 limits × (is_finite p.1 ≡ true) × Ascending limits (some p.0) rest
Ascending limits (some bound) (p ∷ rest) =
    InRange p.0 limits × (is_finite p.1 ≡ true) × (bound < p.0) × Ascending limits (some p.0) rest

validate_sweep_points-Ascending :
    (limits : SafetyLimits) (bound : Option ℕ) (points : List (ℕ × F32))
    → validate_sweep_points limits bound points ≡ ok tt
    → Ascending limits bound points
unfolding validate_sweep_points
validate_sweep_points-Ascending limits bound [] h = tt
validate_sweep_points-Ascending limits none ((hz, power) ∷ rest) h =
    let range = validate_frequency_iff hz limits in
    (
      ground (arith, range),
      ground (arith, range),
      validate_sweep_points-Ascending limits (some hz) rest (ground (arith, range)),
    )
validate_sweep_points-Ascending limits (some bound) ((hz, power) ∷ rest) h =
    let range = validate_frequency_iff hz limits in
    (
      ground (arith, range),
      ground (arith, range),
      ground (arith, range),
      validate_sweep_points-Ascending limits (some hz) rest (ground (arith, range)),
    )

pub record IsSweep (limits : SafetyLimits) (sweep : SweepObservationSummary) : Type 0 where
  pub labelled : valid_label sweep.sweep_id 64 ≡ true
  pub nonempty : 1 ≤ length sweep.points
  pub bounded : length sweep.points ≤ 768
  pub min_rate : 2_100_000 ≤ sweep.sample_rate_hz
  pub max_rate : sweep.sample_rate_hz ≤ 30_720_000
  pub min_bandwidth : 200_000 ≤ sweep.rf_bandwidth_hz
  pub max_bandwidth : sweep.rf_bandwidth_hz ≤ sweep.sample_rate_hz
  pub gain : contains_ℤ (pos 0) (pos 60) sweep.fixed_gain_db ≡ true
  pub floor_finite : is_finite sweep.noise_floor_dbfs ≡ true
  pub ascending : Ascending limits none sweep.points

pub record IsRecognition (candidates : List CandidateSummary) (recognition : RecognitionSummary)
    : Type 0 where
  pub labelled : valid_label recognition.label 128 ≡ true
  pub at_least_zero : le_f32 zero_f32 recognition.confidence ≡ true
  pub at_most_one : le_f32 recognition.confidence one_f32 ≡ true
  pub current : Memᴰ recognition.candidate_id (map id_of candidates)

abbrev pub OptionAll : {A : Type 0} → (A → Type 0) → Option A → Type 0
OptionAll P none = Unit
OptionAll P (some a) = P a

-- What an accepted request satisfies.
pub record IsRequest (request : PlanRequest) : Type 0 where
  pub version : request.protocol_version ≡ 1
  pub id_nonzero : 0 < request.request_id
  pub instruction_nonblank : is_blank request.instruction ≡ false
  pub instruction_bounded : byte_len request.instruction ≤ 1024
  pub limits_valid : IsLimits request.limits
  pub observation_fresh : request.observation.age_ms ≤ request.limits.max_observation_age_ms
  pub few_candidates : length request.observation.candidates ≤ 32
  pub candidates_valid : All (IsCandidate request.limits) request.observation.candidates
  pub ids_distinct : Distinct (map id_of request.observation.candidates)
  pub sweep_valid : OptionAll (IsSweep request.limits) request.observation.latest_sweep
  pub recognition_valid :
      OptionAll (IsRecognition request.observation.candidates) request.observation.recognition

validate_latest_sweep-IsSweep :
    (limits : SafetyLimits) (sweep : Option SweepObservationSummary)
    → validate_latest_sweep limits sweep ≡ ok tt
    → OptionAll (IsSweep limits) sweep
unfolding validate_latest_sweep
validate_latest_sweep-IsSweep limits none h = tt
validate_latest_sweep-IsSweep limits (some sweep) h =
    ground (arith, validate_sweep_points-Ascending limits none sweep.points)

validate_recognition-IsRecognition :
    (ids : List String) (cs : List CandidateSummary) (recognition : Option RecognitionSummary)
    → ((id : String) → Memᴰ id ids → Memᴰ id (map id_of cs))
    → validate_recognition ids recognition ≡ ok tt
    → OptionAll (IsRecognition cs) recognition
unfolding validate_recognition
validate_recognition-IsRecognition ids cs none known h = tt
validate_recognition-IsRecognition ids cs (some r) known h = record {
  labelled = ground arith;
  at_least_zero = ground arith;
  at_most_one = ground arith;
  current = known r.candidate_id (contains_id-true r.candidate_id ids (ground arith));
}

known_empty : (id : String) (xs : List String) → Memᴰ id xs ⊎ Memᴰ id [] → Memᴰ id xs
known_empty id xs (inl m) = m
known_empty id xs (inr m) = elim m [ ]

-- A request that the policy accepts has the current version, a nonzero id, a bounded instruction,
-- valid limits and fresh data: at most 32 valid candidates under distinct ids, a sweep of 1 to 768
-- points at rising frequencies if there is one, and a recognition only of a current candidate.
pub validate_request-IsRequest :
    (request : PlanRequest) → validate_request request ≡ ok tt → IsRequest request
unfolding validate_request
validate_request-IsRequest request h =
    elim (Result-cases (validate_candidates request.limits [] request.observation.candidates)) [
      | inr (e, failed) ↦ absurd (ground (arith, validate_limits_iff request.limits))
      | inl (ids, found) ↦
          let limits = validate_limits_iff request.limits in
          let passed = validate_candidates-Passed request.limits [] _ {ids = ids} found in
          record {
            version = ground (arith, found);
            id_nonzero = ground (arith, found);
            instruction_nonblank = ground (arith, found);
            instruction_bounded = ground (arith, found);
            limits_valid = limits.0 (ground (arith, found));
            observation_fresh = ground (arith, found);
            few_candidates = ground (arith, found);
            candidates_valid = passed.all_valid;
            ids_distinct = passed.distinct;
            sweep_valid =
                validate_latest_sweep-IsSweep request.limits request.observation.latest_sweep
                  (ground (arith, found));
            recognition_valid =
                validate_recognition-IsRecognition ids request.observation.candidates
                  request.observation.recognition (λ id m. known_empty id _ (passed.known id m))
                  (ground (arith, found));
          }
    ]
