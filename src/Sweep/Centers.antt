-- ===== src/Sweep/Centers.antt =====
-- sweep.rs: `expand_centers`, the list of center frequencies that a plan stands for.
use sdr_pi.Base.{
  ℕ, zero, suc, min, true, false, ◌||◌, none, some, List, [], ◌∷◌, Result, ok, err, ◌>>=◌, ltb,
  ◌==◌, if◌then◌else◌, checked_add,
}
use sdr_pi.Sweep.Plan.{SweepFrequencies, range, centers, SweepError, sweep_error, max_points}

module _ {V : Type 0} where
  abbrev pub too_many_points : Result (SweepError V) (List ℕ)
  too_many_points = err (sweep_error "frequency_range" "range must contain at most 768 points")

  -- The `loop`: `left` is how many centers may still follow the one at hand, so the test
  -- `centers.len() > MAX_POINTS` fires when it is zero. The recursive call is made only where the
  -- loop goes round.
  unfoldable pub expand_range : ℕ → ℕ → ℕ → ℕ → Result (SweepError V) (List ℕ)
  expand_range zero center stop_hz step_hz =
      if center == stop_hz then ok (center ∷ []) else elim (checked_add center step_hz) [
        | none ↦ err (sweep_error "frequency_range" "frequency range overflow")
        | some next ↦ too_many_points
      ]
  expand_range (suc left) center stop_hz step_hz = elim (center == stop_hz) [
    | true ↦ ok (center ∷ [])
    | false ↦ elim (checked_add center step_hz) [
      | none ↦ err (sweep_error "frequency_range" "frequency range overflow")
      | some next ↦
          expand_range left (min next stop_hz) stop_hz step_hz >>= λ rest. ok (center ∷ rest)
    ]
  ]

  unfoldable pub expand_centers : SweepFrequencies → Result (SweepError V) (List ℕ)
  expand_centers (centers centers_hz) = ok centers_hz
  expand_centers (range start_hz stop_hz step_hz) =
      if ltb stop_hz start_hz || (step_hz == 0)
      then err (sweep_error "frequency_range" "range requires start <= stop and a positive step")
      else expand_range max_points start_hz stop_hz step_hz
