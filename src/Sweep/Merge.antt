-- ===== src/Sweep/Merge.antt =====
-- sweep.rs: `median_power_dbfs` and `merge_candidates`.
use sdr_pi.Base.{
  ℕ, suc, ◌+◌, ◌-◌, ◌/◌, F32, FloatOps, Bool, true, false, Option, none, some, List, [], ◌∷◌, map,
  Result, ok_or, ◌==◌, if◌then◌else◌, saturating_add, saturating_sub, length, take, drop, get_elem?,
  le_f32, gt_f32, ◌+++◌, decimal,
}
use sdr_pi.Protocol.{max_candidates}
use sdr_pi.Sweep.Plan.{SweepPoint, SweepCandidate, ValidatedSweepPlan, SweepError, sweep_error}

abbrev pub power_of : SweepPoint → F32
power_of p = p.band_power_dbfs

-- `sort_unstable_by` on powers that compare: the sorted list is one whatever the algorithm, but
-- for the order of the two zeros.
unfoldable pub insert_power : F32 → List F32 → List F32
insert_power x [] = x ∷ []
insert_power x (y ∷ ys) =
    let rest = insert_power x ys in if le_f32 x y then x ∷ y ∷ ys else y ∷ rest

unfoldable pub sort_powers : List F32 → List F32
unfolding insert_power
sort_powers [] = []
sort_powers (x ∷ xs) = insert_power x (sort_powers xs)

unfoldable pub median_power_dbfs : {V : Type 0} → List SweepPoint → Result (SweepError V) F32
unfolding sort_powers
median_power_dbfs points =
    let powers = sort_powers (map power_of points) in
    ok_or (get_elem? powers (length powers / 2))
      (sweep_error "noise_floor" "sweep returned no powers")

-- `max_by`: of equal maxima the last
abbrev pub higher : SweepPoint → SweepPoint → SweepPoint
higher left right = if gt_f32 left.band_power_dbfs right.band_power_dbfs then left else right

unfoldable pub peak_of : SweepPoint → List SweepPoint → SweepPoint
peak_of best [] = best
peak_of best (p ∷ rest) = peak_of (higher best p) rest

-- a chain of steps that may panic
infixl 5 ◌>>=◌
abbrev pub ◌>>=◌ : {A B : Type 0} → Option A → (A → Option B) → Option B
none >>= f = none
some a >>= f = f a

module _ (f : FloatOps) where
  abbrev pub is_active : F32 → F32 → SweepPoint → Bool
  is_active noise_floor_dbfs threshold_db point =
      le_f32 (f.add noise_floor_dbfs threshold_db) point.band_power_dbfs

  -- `active`: the indices of the points at or above the threshold, counted from `index`
  unfoldable pub active_indices : F32 → F32 → ℕ → List SweepPoint → List ℕ
  active_indices noise threshold index [] = []
  active_indices noise threshold index (p ∷ rest) =
      let following = active_indices noise threshold (suc index) rest in
      if is_active noise threshold p then index ∷ following else following

-- the loop that joins neighbouring indices into ranges
unfoldable pub ranges_from : ℕ → ℕ → List ℕ → List (ℕ × ℕ)
ranges_from start stop [] = (start, stop) ∷ []
ranges_from start stop (index ∷ rest) = elim (index == stop + 1) [
  | true ↦ ranges_from start index rest
  | false ↦ (start, stop) ∷ ranges_from index index rest
]

unfoldable pub ranges : List ℕ → List (ℕ × ℕ)
unfolding ranges_from
ranges [] = []
ranges (index ∷ rest) = ranges_from index index rest

-- `points[start..=stop]`
abbrev pub slice : ℕ → ℕ → List SweepPoint → List SweepPoint
slice start stop points = take (stop + 1 - start) (drop start points)

-- `iter().max_by(..)`
abbrev pub peak? : List SweepPoint → Option SweepPoint
peak? [] = none
peak? (p ∷ rest) = some (peak_of p rest)

-- One candidate of the final `map`; `none` stands for the panic of an index out of bounds.
unfoldable pub candidate_of :
    FloatOps → ValidatedSweepPlan → List SweepPoint → F32 → ℕ → ℕ × ℕ → Option SweepCandidate
unfolding peak_of
candidate_of f plan points noise candidate_index (start, stop) = do
  peak ← peak? (slice start stop points)
  first ← get_elem? points start
  last ← get_elem? points stop
  let edge = plan.rf_bandwidth_hz / 2
  let start_hz = saturating_sub first.actual_center_hz edge
  let stop_hz = saturating_add last.actual_center_hz edge
  some (record {
    id = plan.sweep_id +++ "-" +++ decimal (candidate_index + 1);
    start_hz = start_hz;
    stop_hz = stop_hz;
    center_hz = peak.actual_center_hz;
    bandwidth_hz = saturating_sub stop_hz start_hz;
    peak_dbfs = peak.band_power_dbfs;
    snr_db = f.sub peak.band_power_dbfs noise;
    point_count = stop - start + 1;
  })

-- `enumerate().map(..).collect()`; a panic ends the whole
unfoldable pub collect_candidates :
    FloatOps
    → ValidatedSweepPlan
    → List SweepPoint
    → F32
    → ℕ
    → List (ℕ × ℕ)
    → Option (List SweepCandidate)
unfolding candidate_of
collect_candidates f plan points noise index [] = some []
collect_candidates f plan points noise index (r ∷ rest) = do
  candidate ← candidate_of f plan points noise index r
  others ← collect_candidates f plan points noise (suc index) rest
  some (candidate ∷ others)

-- the ranges that become candidates
unfoldable pub candidate_ranges :
    FloatOps → ValidatedSweepPlan → List SweepPoint → F32 → List (ℕ × ℕ)
unfolding ranges active_indices
candidate_ranges f plan points noise =
    take max_candidates (ranges (active_indices f noise plan.detection_threshold_db 0 points))

-- The value that stands for a panic is `[]`.
unfoldable pub merge_candidates :
    FloatOps → ValidatedSweepPlan → List SweepPoint → F32 → List SweepCandidate
unfolding collect_candidates candidate_ranges
merge_candidates f plan points noise =
    elim (collect_candidates f plan points noise 0 (candidate_ranges f plan points noise)) [
      | none ↦ []
      | some candidates ↦ candidates
    ]
