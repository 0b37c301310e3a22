-- ===== src/Sweep/Merged.antt =====
-- The candidates of `merge_candidates` against the ranges that they are built from.
use sdr_pi.Base.{
  ℕ, zero, suc, ◌+◌, ◌-◌, ◌≤◌, ◌<◌, ◌≡◌, inl, inr, refl, ap, sym, ◌∙◌, F32, FloatOps, some, List,
  [], ◌∷◌, arith, length, get_elem?, take, drop, Option-cases,
}
use mathlib.Core.Path.{subst}
use sdr_pi.Sweep.Plan.{SweepPoint, SweepCandidate, ValidatedSweepPlan}
use sdr_pi.Sweep.Merge.{
  active_indices, ranges, peak?, candidate_of, collect_candidates, candidate_ranges,
  merge_candidates,
}
use sdr_pi.Sweep.Runs.{indices, Apart, active_indices-Rising, ranges-Runs, take-Apart}

pub get_elem?-below :
    {A : Type 0} (xs : List A) (i : ℕ) → i < length xs → (x : A) × (get_elem? xs i ≡ some x)
get_elem?-below [] i h = elim h [ ]
get_elem?-below (x ∷ xs) zero h = (x, refl)
get_elem?-below (x ∷ xs) (suc i) h = get_elem?-below xs i (omega (arith, h))

peak-slice :
    (k start : ℕ) (ps : List SweepPoint)
    → start < length ps
    → (p : SweepPoint) × (peak? (take (suc k) (drop start ps)) ≡ some p)
peak-slice k start [] h = elim h [ ]
peak-slice k zero (p ∷ ps) h = (_, refl)
peak-slice k (suc start) (p ∷ ps) h = peak-slice k start ps (omega (arith, h))

candidate_of-total :
    (f : FloatOps) (plan : ValidatedSweepPlan) (ps : List SweepPoint) (noise : F32)
    (index start stop : ℕ)
    → start ≤ stop
    → stop < length ps
    → (c : SweepCandidate) × (candidate_of f plan ps noise index (start, stop) ≡ some c)
unfolding candidate_of
candidate_of-total f plan ps noise index start stop h b =
    let first = get_elem?-below ps start (omega arith) in
    let last = get_elem?-below ps stop b in
    let peak = peak-slice (stop - start) start ps (omega arith) in
    let n : stop + 1 - start ≡ suc (stop - start) = omega arith in
    let slice_peak =
      subst (λ (k : ℕ). peak? (take k (drop start ps)) ≡ some peak.0) (sym n) peak.1 in
    elim (Option-cases (candidate_of f plan ps noise index (start, stop))) [
      | inr found ↦ found
      | inl missing ↦ absurd (ground (arith, missing, first.1, last.1, slice_peak))
    ]

collect_candidates-total :
    (f : FloatOps) (plan : ValidatedSweepPlan) (ps : List SweepPoint) (noise : F32) (index low : ℕ)
    (rs : List (ℕ × ℕ))
    → Apart low (length ps) rs
    → (cs : List SweepCandidate) × (collect_candidates f plan ps noise index rs ≡ some cs)
      × (length cs ≡ length rs)
unfolding collect_candidates
collect_candidates-total f plan ps noise index low [] a = ([], refl, refl)
collect_candidates-total f plan ps noise index low ((start, stop) ∷ rest) a =
    let (c, found) = candidate_of-total f plan ps noise index start stop a.1 a.2 in
    let (cs, others, counted) =
      collect_candidates-total f plan ps noise (suc index) (suc (suc stop)) rest a.3 in
    (c ∷ cs, rw (found, others) refl, ap suc counted)

length-take : {A : Type 0} (n : ℕ) (xs : List A) → length (take n xs) ≤ n
length-take zero xs = omega arith
length-take (suc n) [] = omega arith
length-take (suc n) (x ∷ xs) = omega (arith, length-take n xs)

merge_candidates-collected :
    (f : FloatOps) (plan : ValidatedSweepPlan) (ps : List SweepPoint) (noise : F32)
    (cs : List SweepCandidate)
    → collect_candidates f plan ps noise 0
        (take 32 (ranges (active_indices f noise plan.detection_threshold_db 0 ps)))
      ≡ some cs
    → merge_candidates f plan ps noise ≡ cs
unfolding merge_candidates candidate_ranges
merge_candidates-collected f plan ps noise cs e = ground (arith, e)

-- What `merge_candidates` makes of points: the active indices in their maximal ranges, and a
-- candidate of each of the first 32 ranges.
pub record IsMerged (f : FloatOps) (plan : ValidatedSweepPlan) (ps : List SweepPoint) (noise : F32)
    (active : List ℕ) (rs : List (ℕ × ℕ)) (cs : List SweepCandidate) : Type 0 where
  pub same_indices : indices rs ≡ active
  pub apart : Apart 0 (length ps) rs
  pub built : collect_candidates f plan ps noise 0 (take 32 rs) ≡ some cs
  pub counted : length cs ≡ length (take 32 rs)
  pub few : length cs ≤ 32

-- The ranges of the active points stand for exactly the active indices, in order, none is empty and
-- between two neighbours an index is missing; every index that the candidates are built from is in
-- bounds, so that `merge_candidates` does not panic and returns a candidate of each of the first 32
-- ranges.
pub merge_candidates-IsMerged :
    (f : FloatOps) (plan : ValidatedSweepPlan) (ps : List SweepPoint) (noise : F32)
    → IsMerged f plan ps noise
        (active_indices f noise plan.detection_threshold_db 0 ps)
        (ranges (active_indices f noise plan.detection_threshold_db 0 ps))
        (merge_candidates f plan ps noise)
merge_candidates-IsMerged f plan ps noise =
    let active = active_indices f noise plan.detection_threshold_db 0 ps in
    let runs = ranges-Runs (length ps) active (
      active_indices-Rising f noise plan.detection_threshold_db 0 0 (length ps) ps (omega arith)
        (omega arith)) in
    let total =
      collect_candidates-total f plan ps noise 0 0 (take 32 (ranges active))
        (take-Apart 32 0 (length ps) (ranges active) runs.1) in
    let same = merge_candidates-collected f plan ps noise total.0 total.1 in
    let counted = ap (λ (cs : List SweepCandidate). length cs) same ∙ total.2 in
    record {
      same_indices = runs.0;
      apart = runs.1;
      built = total.1 ∙ ap some (sym same);
      counted = counted;
      few = omega (arith, counted, length-take 32 (ranges active));
    }
