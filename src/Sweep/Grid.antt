-- ===== src/Sweep/Grid.antt =====
-- The loop of `expand_centers` against its closed form: the grid of multiples of the step, cut at
-- the end of the range.
use sdr_pi.Base.{
  ℕ, zero, suc, ◌+◌, ◌*◌, ◌-◌, ◌/◌, ◌≤◌, ◌<◌, min, ◌≡◌, refl, inl, inr, false, some, List, [], ◌∷◌,
  ok, arith, length, get_elem?, any, leb→le, not, contains, if◌then◌else◌, ◌∙◌, Bool-cases, ap, leb,
  ltb,
}
use sdr_pi.Sweep.Plan.{range}
use sdr_pi.Sweep.Centers.{too_many_points, expand_range, expand_centers}
use sdr_pi.Sweep.Validate.{any_pair}

-- `k + 1` centers from `c` on, a step apart, none beyond `stop`
abbrev pub grid : ℕ → ℕ → ℕ → ℕ → List ℕ
grid stop step c zero = min c stop ∷ []
grid stop step c (suc k) = min c stop ∷ grid stop step (c + step) k

-- `k` is the number of steps from `c` to `stop`, the last one cut short.
pub record Steps (stop step c k : ℕ) : Type 0 where
  pub reached : stop ≤ c + k * step
  pub not_before : (j : ℕ) → k ≡ suc j → c + j * step < stop

abbrev pub step_count : ℕ → ℕ → ℕ
step_count span step = (span + (step - 1)) / step

step_count_bounds :
    (span step : ℕ)
    → 0 < step
    → (span ≤ step_count span step * step) × (step_count span step * step < span + step)
step_count_bounds span step p = grind arith

pub step_count-Steps :
    (start stop step : ℕ)
    → start ≤ stop
    → 0 < step
    → Steps stop step start (step_count (stop - start) step)
step_count-Steps start stop step h p =
    let b = step_count_bounds (stop - start) step p in
    record { reached = omega arith; not_before = λ j e. omega (arith, ap (λ (t : ℕ). t * step) e) }

Steps-next : {stop step c k : ℕ} → Steps stop step c (suc k) → Steps stop step (c + step) k
Steps-next {stop} {step} {c} {k} s = record {
  reached = omega (arith, s.reached);
  not_before = λ j e. omega (arith, s.not_before (suc j) (ap suc e));
}

module _ {V : Type 0} where
  expand_range-grid :
      (left stop step c k : ℕ)
      → 0 < step
      → stop + step ≤ 18446744073709551615
      → Steps stop step c k
      → k ≤ left
      → expand_range {V = V} left (min c stop) stop step ≡ ok (grid stop step c k)
  unfolding expand_range
  expand_range-grid zero stop step c zero p w s h = ground (arith, s.reached)
  expand_range-grid zero stop step c (suc k) p w s h = elim h [ ]
  expand_range-grid (suc left) stop step c zero p w s h = ground (arith, s.reached)
  expand_range-grid (suc left) stop step c (suc k) p w s h =
      let below = s.not_before k refl in
      let e : min c stop ≡ c = omega arith in
      rw e (
        ground (
          arith,
          below,
          expand_range-grid left stop step (c + step) k p w (Steps-next s) (omega arith),
        ))

  -- More steps than may follow are refused.
  expand_range-too_many :
      (left stop step c k : ℕ)
      → 0 < step
      → stop + step ≤ 18446744073709551615
      → Steps stop step c k
      → left < k
      → expand_range {V = V} left (min c stop) stop step ≡ too_many_points
  unfolding expand_range
  expand_range-too_many left stop step c zero p w s h = elim h [ ]
  expand_range-too_many zero stop step c (suc k) p w s h =
      let below = s.not_before k refl in ground (arith, below)
  expand_range-too_many (suc left) stop step c (suc k) p w s h =
      let below = s.not_before k refl in
      let e : min c stop ≡ c = omega arith in
      rw e (
        ground (
          arith,
          below,
          expand_range-too_many left stop step (c + step) k p w (Steps-next s) (omega arith),
        ))

  -- A range from `start` up to `stop` by a positive step, where one more step does not overflow,
  -- expands to the multiples of the step from `start`, cut at `stop`, if it takes at most 768
  -- steps, and is refused if it takes more.
  pub expand_centers-range :
      (start stop step : ℕ)
      → start ≤ stop
      → 0 < step
      → stop + step ≤ 18446744073709551615
      → expand_centers {V = V} (range start stop step) ≡ (
          if leb (step_count (stop - start) step) 768
          then ok (grid stop step start (step_count (stop - start) step))
          else too_many_points)
  unfolding expand_centers
  expand_centers-range start stop step h p w =
      let s = step_count-Steps start stop step h p in
      let e : min start stop ≡ start = omega arith in
      elim (Bool-cases (leb (step_count (stop - start) step) 768)) [
        | inl few ↦
            let g =
              expand_range-grid 768 stop step start (step_count (stop - start) step) p w s
                (leb→le _ _ few) in
            ground (arith, rw e at g)
        | inr many ↦
            let g =
              expand_range-too_many 768 stop step start (step_count (stop - start) step) p w s
                (ground arith) in
            ground (arith, rw e at g)
      ]

pub length-grid : (stop step c k : ℕ) → length (grid stop step c k) ≡ suc k
length-grid stop step c zero = refl
length-grid stop step c (suc k) = ap suc (length-grid stop step (c + step) k)

-- The center at each index.
pub get_elem?-grid :
    (stop step c k i : ℕ)
    → i ≤ k
    → get_elem? (grid stop step c k) i ≡ some (min (c + i * step) stop)
get_elem?-grid stop step c zero zero h = ap some (omega arith)
get_elem?-grid stop step c zero (suc i) h = elim h [ ]
get_elem?-grid stop step c (suc k) zero h = ap some (omega arith)
get_elem?-grid stop step c (suc k) (suc i) h =
    get_elem?-grid stop step (c + step) k i (omega arith) ∙ ap some (omega arith)

-- The grid rises strictly.
pub any_pair-grid :
    (stop step c k : ℕ)
    → 0 < step
    → Steps stop step c k
    → any_pair (λ a b. leb b a) (grid stop step c k) ≡ false
any_pair-grid stop step c zero p s = refl
any_pair-grid stop step c (suc zero) p s = ground (arith, s.not_before 0 refl)
any_pair-grid stop step c (suc (suc k)) p s =
    ground (
      arith,
      s.not_before (suc k) refl,
      any_pair-grid stop step (c + step) (suc k) p (Steps-next s),
    )

pub any_pair_gap-grid :
    (limit stop step c k : ℕ)
    → step ≤ limit
    → Steps stop step c k
    → any_pair (λ a b. ltb limit (b - a)) (grid stop step c k) ≡ false
any_pair_gap-grid limit stop step c zero p s = refl
any_pair_gap-grid limit stop step c (suc zero) p s = ground (arith, s.not_before 0 refl)
any_pair_gap-grid limit stop step c (suc (suc k)) p s = ground (
  arith,
  s.not_before (suc k) refl,
  any_pair_gap-grid limit stop step (c + step) (suc k) p (Steps-next s),
)

pub any_outside-grid :
    (lo hi stop step c k : ℕ)
    → lo ≤ min c stop
    → stop ≤ hi
    → any (λ center. not (contains lo hi center)) (grid stop step c k) ≡ false
any_outside-grid lo hi stop step c zero h p = ground arith
any_outside-grid lo hi stop step c (suc k) h p =
    ground (arith, any_outside-grid lo hi stop step (c + step) k (omega arith) p)
