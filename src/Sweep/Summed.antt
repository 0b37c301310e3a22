-- ===== src/Sweep/Summed.antt =====
-- The sum of `aggregate_ci16_power` without overflow.
use sdr_pi.Base.{
  ℕ, zero, suc, some, inl, inr, checked_add, saturating_add, ◌+◌, ◌*◌, ◌≤◌, ◌<◌, ◌≡◌, ◌||◌, List,
  [], ◌∷◌, ok, arith, length, All, if◌then◌else◌, Bool-cases,
}
use sdr_pi.Sweep.Power.{
  word_of, absolute, is_clipped, sample_power, sum_samples, aggregate_ci16_power,
}
use sdr_pi.Sweep.Encoded.{IsByte}

-- the power of samples: the sum of the squares of both parts of each
abbrev pub power_of_bytes : List ℕ → ℕ
power_of_bytes (a ∷ b ∷ c ∷ d ∷ rest) =
    sample_power (word_of a b) (word_of c d) + power_of_bytes rest
power_of_bytes _ = 0

-- the number of samples with a part at the end of the range of the converter
abbrev pub clipped_in : List ℕ → ℕ
clipped_in (a ∷ b ∷ c ∷ d ∷ rest) =
    (if is_clipped (word_of a b) || is_clipped (word_of c d) then 1 else 0) + clipped_in rest
clipped_in _ = 0

checked_add_fits : (a b : ℕ) → a + b ≤ 18446744073709551615 → checked_add a b ≡ some (a + b)
checked_add_fits a b h = ground arith

square_bound : (n : ℕ) → n ≤ 32768 → n * n ≤ 1073741824
square_bound n h = grind arith

absolute_bound : (a b : ℕ) → a < 256 → b < 256 → absolute (word_of a b) ≤ 32768
absolute_bound a b h k = ground arith

sample_power_bound :
    (a b c d : ℕ)
    → a < 256
    → b < 256
    → c < 256
    → d < 256
    → sample_power (word_of a b) (word_of c d) ≤ 2147483648
sample_power_bound a b c d ha hb hc hd =
    let i = square_bound (absolute (word_of a b)) (absolute_bound a b ha hb) in
    let q = square_bound (absolute (word_of c d)) (absolute_bound c d hc hd) in omega (arith, i, q)

module _ {V : Type 0} where
  sum_samples-total :
      (n power clipped : ℕ) (bytes : List ℕ)
      → All IsByte bytes
      → length bytes ≡ 4 * n
      → power + 2147483648 * n ≤ 18446744073709551615
      → clipped + n ≤ 18446744073709551615
      → sum_samples {V = V} power clipped bytes
        ≡ ok (power + power_of_bytes bytes, clipped + clipped_in bytes)
  unfolding sum_samples
  sum_samples-total n power clipped [] h l p c = ground arith
  sum_samples-total n power clipped (x ∷ []) h l p c = absurd (omega (arith, l))
  sum_samples-total n power clipped (x ∷ y ∷ []) h l p c = absurd (omega (arith, l))
  sum_samples-total n power clipped (x ∷ y ∷ z ∷ []) h l p c = absurd (omega (arith, l))
  sum_samples-total zero power clipped (x ∷ y ∷ z ∷ w ∷ rest) h l p c = absurd (omega (arith, l))
  sum_samples-total (suc n) power clipped (x ∷ y ∷ z ∷ w ∷ rest) h l p c =
      let bound = sample_power_bound x y z w h.0 h.1.0 h.1.1.0 h.1.1.1.0 in
      let here = sample_power (word_of x y) (word_of z w) in
      let fits = checked_add_fits power here (omega (arith, bound, p)) in
      let summed : power + (here + power_of_bytes rest) ≡ (power + here) + power_of_bytes rest =
        omega arith in
      elim (Bool-cases (is_clipped (word_of x y) || is_clipped (word_of z w))) [
        | inl e ↦
            let counted : saturating_add clipped 1 ≡ clipped + 1 = ground (arith, c) in
            let total : clipped + (1 + clipped_in rest) ≡ (clipped + 1) + clipped_in rest =
              omega arith in
            rw (fits, e, counted, summed, total)
              (sum_samples-total n (power + here) (clipped + 1) rest h.1.1.1.1 (omega (arith, l))
                (omega (arith, bound, p)) (omega (arith, c)))
        | inr e ↦
            let total : clipped + (0 + clipped_in rest) ≡ clipped + clipped_in rest = omega arith in
            rw (fits, e, summed, total)
              (sum_samples-total n (power + here) clipped rest h.1.1.1.1 (omega (arith, l))
                (omega (arith, bound, p)) (omega (arith, c)))
      ]

  -- For up to 2 ^ 32 samples, the bytes of which are all there, no sum overflows: the result is the
  -- sum of the squares of both parts of every sample and the number of clipped samples.
  pub aggregate_ci16_power-total :
      (bytes : List ℕ) (samples : ℕ)
      → All IsByte bytes
      → length bytes ≡ 4 * samples
      → samples ≤ 4294967296
      → aggregate_ci16_power {V = V} bytes samples ≡ ok (power_of_bytes bytes, clipped_in bytes)
  unfolding aggregate_ci16_power
  aggregate_ci16_power-total bytes samples h l b =
      let total = sum_samples-total samples 0 0 bytes h l (omega (arith, b)) (omega (arith, b)) in
      ground (arith, total, l, b)
