-- ===== src/Recognizer/Outputs.antt =====
-- What an output is that `validate_output` accepts for a request.
use sdr_pi.Base.{
  ℕ, ◌+◌, ◌*◌, ◌≤◌, ◌≡◌, ◌≢◌, ◌↔◌, inl, inr, refl, String, true, false, ok, arith, List, [], ◌∷◌,
  All, length, eq_iff, ◌=s◌, byte_len, all_chars, Bool-cases, u64_max,
}
use sdr_pi.Recognizer.Messages.{
  RecognitionRequest, RecognitionOutput, RecognitionAlternative, RecognizerBackend,
  RecognitionTiming,
}
use sdr_pi.Recognizer.Checks.{
  is_text, is_confidence, contains_label, is_ascii_hexdigit, validate_alternatives,
  validate_backend, accounted_us, validate_timing, validate_output,
}

abbrev pub label_of : RecognitionAlternative → String
label_of a = a.label

-- Alternatives with texts as labels and confidences, whose labels are none of those before and differ
-- from each other.
abbrev pub Alternatives : List String → List RecognitionAlternative → Type 0
Alternatives seen [] = Unit
Alternatives seen (a ∷ rest) =
    (is_text a.label 128 ≡ true)
    × (is_confidence a.confidence ≡ true)
    × All (λ x. a.label ≢ x) seen
    × Alternatives (a.label ∷ seen) rest

contains_label-All :
    (label : String) (seen : List String)
    → (contains_label label seen ≡ false) ↔ All (λ x. label ≢ x) seen
unfolding contains_label
contains_label-All label [] = (λ h. tt, λ h. refl)
contains_label-All label (x ∷ seen) =
    let rest = contains_label-All label seen in
    elim (Bool-cases (label =s x)) [
      | inl same ↦
          let e = (eq_iff label x).0 same in
          (λ h. absurd (ground (arith, same)), λ h. absurd (h.0 e))
      | inr other ↦ (
        λ h. (λ e. ground (arith, other, (eq_iff label x).1 e), rest.0 (ground (arith, other))),
        λ h. ground (arith, other, rest.1 h.1),
      )
    ]

validate_alternatives_iff :
    (seen : List String) (alternatives : List RecognitionAlternative)
    → (validate_alternatives seen alternatives ≡ ok tt) ↔ Alternatives seen alternatives
unfolding validate_alternatives
validate_alternatives_iff seen [] = (λ h. tt, λ h. refl)
validate_alternatives_iff seen (a ∷ rest) =
    let new = contains_label-All a.label seen in
    let later = validate_alternatives_iff (a.label ∷ seen) rest in
    (
      λ h. (ground arith, ground arith, new.0 (ground arith), later.0 (ground arith)),
      λ h. ground (arith, h.0, h.1, new.1 h.2, later.1 h.3),
    )

-- A backend that is named, with a SHA-256 of 64 hexadecimal digits and 1 to 4 threads.
pub record IsBackend (b : RecognizerBackend) : Type 0 where
  pub runtime_text : is_text b.runtime 64 ≡ true
  pub version_text : is_text b.runtime_version 64 ≡ true
  pub model_text : is_text b.model_id 128 ≡ true
  pub hash_length : byte_len b.model_sha256 ≡ 64
  pub hash_digits : all_chars is_ascii_hexdigit b.model_sha256 ≡ true
  pub some_threads : 1 ≤ b.threads
  pub few_threads : b.threads ≤ 4

validate_backend_iff : (b : RecognizerBackend) → (validate_backend b ≡ ok tt) ↔ IsBackend b
unfolding validate_backend
validate_backend_iff b = (
  λ h. record {
    runtime_text = ground arith;
    version_text = ground arith;
    model_text = ground arith;
    hash_length = ground arith;
    hash_digits = ground arith;
    some_threads = ground arith;
    few_threads = ground arith;
  },
  λ q. ground (
    arith, q.runtime_text, q.version_text, q.model_text, q.hash_length, q.hash_digits,
    q.some_threads, q.few_threads,
  ),
)

-- Times that add up within the total, which is within the deadline.
pub record IsTimed (t : RecognitionTiming) (max_latency_ms : ℕ) : Type 0 where
  pub in_range : t.map_us + t.preprocess_us + t.inference_us ≤ u64_max
  pub accounted : t.map_us + t.preprocess_us + t.inference_us ≤ t.total_us
  pub in_time : t.total_us ≤ max_latency_ms * 1_000

validate_timing_iff :
    (t : RecognitionTiming) (max_latency_ms : ℕ)
    → (validate_timing t max_latency_ms ≡ ok tt) ↔ IsTimed t max_latency_ms
unfolding validate_timing accounted_us
validate_timing_iff t max_latency_ms = (
  λ h. record { in_range = ground arith; accounted = ground arith; in_time = ground arith },
  λ q. ground (arith, q.in_range, q.accounted, q.in_time),
)

-- An output for the request's candidate, with a text as its label and a confidence, at most 8
-- alternatives under labels of their own, by a backend that is identified, in time.
pub record IsOutput (r : RecognitionRequest) (o : RecognitionOutput) : Type 0 where
  pub same_candidate : o.candidate_id ≡ r.candidate_id
  pub labelled : is_text o.label 128 ≡ true
  pub confident : is_confidence o.confidence ≡ true
  pub few_alternatives : length o.alternatives ≤ 8
  pub alternatives : Alternatives (o.label ∷ []) o.alternatives
  pub backend : IsBackend o.backend
  pub timed : IsTimed o.timing r.max_latency_ms

-- An output is accepted exactly if it is for the request's candidate, its label is a text of at most
-- 128 bytes and its confidence a number from 0 to 1, as are those of its at most 8 alternatives, no
-- label is given twice, its backend is identified, and its times add up within the deadline.
pub validate_output_iff :
    (r : RecognitionRequest) (o : RecognitionOutput) → (validate_output r o ≡ ok tt) ↔ IsOutput r o
unfolding validate_output
validate_output_iff r o =
    let same = eq_iff o.candidate_id r.candidate_id in
    let alternatives = validate_alternatives_iff (o.label ∷ []) o.alternatives in
    let backend = validate_backend_iff o.backend in
    let timing = validate_timing_iff o.timing r.max_latency_ms in
    (
      λ h. record {
        same_candidate = same.0 (ground arith);
        labelled = ground arith;
        confident = ground arith;
        few_alternatives = ground arith;
        alternatives = alternatives.0 (ground arith);
        backend = backend.0 (ground arith);
        timed = timing.0 (ground arith);
      },
      λ q. ground (
        arith,
        same.1 q.same_candidate,
        q.labelled,
        q.confident,
        q.few_alternatives,
        alternatives.1 q.alternatives,
        backend.1 q.backend,
        timing.1 q.timed,
      ),
    )
