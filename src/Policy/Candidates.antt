-- ===== src/Policy/Candidates.antt =====
-- What the loop over the candidates of `validate_request` leaves.
use sdr_pi.Base.{
  ◌≤◌, ◌<◌, ◌≡◌, ◌≢◌, ◌⊎◌, inl, inr, sym, String, true, false, ok, arith, List, [], ◌∷◌, map, All,
  eq_iff, ◌=s◌, is_finite, passed_check, Bool-cases, not,
}
use mathlib.Core.Path.{subst}
use mathlib.Core.List.{Memᴰ}
use sdr_pi.Protocol.{SafetyLimits, CandidateSummary}
use sdr_pi.Policy.Checks.{require, valid_label}
use sdr_pi.Policy.Request.{validate_candidate, contains_id, validate_candidates}
use sdr_pi.Policy.Bounds.{InRange, validate_frequency_iff}

pub record IsCandidate (limits : SafetyLimits) (candidate : CandidateSummary) : Type 0 where
  pub labelled : valid_label candidate.id 64 ≡ true
  pub center_range : InRange candidate.center_hz limits
  pub bandwidth_positive : 0 < candidate.bandwidth_hz
  pub bandwidth_fits : candidate.bandwidth_hz ≤ limits.max_bandwidth_hz
  pub peak_finite : is_finite candidate.peak_dbfs ≡ true
  pub snr_finite : is_finite candidate.snr_db ≡ true
  pub fresh : candidate.age_ms ≤ limits.max_observation_age_ms

abbrev pub id_of : CandidateSummary → String
id_of c = c.id

-- No two entries are equal.
abbrev pub Distinct : List String → Type 0
Distinct [] = Unit
Distinct (x ∷ xs) = All (λ y. x ≢ y) xs × Distinct xs

validate_candidate-ok :
    (c : CandidateSummary) (limits : SafetyLimits)
    → validate_candidate c limits ≡ ok tt
    → IsCandidate limits c
unfolding validate_candidate
validate_candidate-ok c limits h = ground (arith, validate_frequency_iff c.center_hz limits)

contains_id-false :
    (id : String) (seen : List String) → contains_id id seen ≡ false → All (λ y. id ≢ y) seen
unfolding contains_id
contains_id-false id [] h = tt
contains_id-false id (x ∷ seen) h =
    (ground (arith, eq_iff id x), contains_id-false id seen (ground arith))

pub contains_id-true :
    (id : String) (seen : List String) → contains_id id seen ≡ true → Memᴰ id seen
unfolding contains_id
contains_id-true id [] h = cc
contains_id-true id (x ∷ seen) h = elim (Bool-cases (id =s x)) [
  | inl same ↦ Memᴰ.head ((eq_iff id x).0 same)
  | inr other ↦ Memᴰ.tail (contains_id-true id seen (ground arith))
]

-- what the loop over the candidates leaves: its set of ids and the facts on those it passed
pub record Passed (limits : SafetyLimits) (seen : List String) (cs : List CandidateSummary)
    (ids : List String) : Type 0 where
  pub all_valid : All (IsCandidate limits) cs
  pub all_new : All (λ c. All (λ y. c.id ≢ y) seen) cs
  pub distinct : Distinct (map id_of cs)
  pub known : (id : String) → Memᴰ id ids → Memᴰ id (map id_of cs) ⊎ Memᴰ id seen

All-head-ne :
    (id : String) (seen : List String) (cs : List CandidateSummary)
    → All (λ c. All (λ y. c.id ≢ y) (id ∷ seen)) cs
    → All (λ y. id ≢ y) (map id_of cs) × All (λ c. All (λ y. c.id ≢ y) seen) cs
All-head-ne id seen [] h = (tt, tt)
All-head-ne id seen (c ∷ cs) h =
    let rest = All-head-ne id seen cs h.1 in ((λ e. h.0.0 (sym e), rest.0), (h.0.1, rest.1))

move_known :
    (x id : String) (seen : List String) (cs : List CandidateSummary)
    → Memᴰ id (map id_of cs) ⊎ Memᴰ id (x ∷ seen)
    → Memᴰ id (x ∷ map id_of cs) ⊎ Memᴰ id seen
move_known x id seen cs (inl m) = inl (Memᴰ.tail m)
move_known x id seen cs (inr (Memᴰ.head e)) = inl (Memᴰ.head e)
move_known x id seen cs (inr (Memᴰ.tail m)) = inr m

pub validate_candidates-Passed :
    (limits : SafetyLimits) (seen : List String) (cs : List CandidateSummary) {ids : List String}
    → validate_candidates limits seen cs ≡ ok ids
    → Passed limits seen cs ids
unfolding validate_candidates
validate_candidates-Passed limits seen [] {ids} h = record {
  all_valid = tt;
  all_new = tt;
  distinct = tt;
  known = λ id m. let e : ids ≡ seen = ground arith in inr (subst (λ l. Memᴰ id l) e m);
}
validate_candidates-Passed limits seen (c ∷ cs) {ids} h =
    let (valid, h') = passed_check (validate_candidate c limits) _ h in
    let (new, h'') =
      passed_check
        (require (not (contains_id c.id seen)) "duplicate_candidate_id"
          "candidate ids must be unique")
        (validate_candidates limits (c.id ∷ seen) cs) h' in
    let rest = validate_candidates-Passed limits (c.id ∷ seen) cs {ids = ids} h'' in
    let (apart, news) = All-head-ne c.id seen cs rest.all_new in
    record {
      all_valid = (validate_candidate-ok c limits valid, rest.all_valid);
      all_new = (contains_id-false c.id seen (ground arith), news);
      distinct = (apart, rest.distinct);
      known = λ id m. move_known c.id id seen cs (rest.known id m);
    }
