-- ===== src/Sweep/Words.antt =====
-- The two words of a power sum, which fits in 64 bits.
use sdr_pi.Base.{
  ℕ, ◌+◌, ◌*◌, ◌≤◌, ◌<◌, ◌≡◌, inl, inr, List, [], ◌∷◌, ok, arith, Option-cases, checked_add,
  saturating_add, if◌then◌else◌, ◌||◌,
}
use sdr_pi.Sweep.Power.{aggregate_ci16_power, sum_samples, sample_power, word_of, is_clipped}
use sdr_pi.Sweep.Adapter.{low_word, middle_word}

sum_samples_bounded :
    {V : Type 0} (power clipped : ℕ) (iq : List ℕ) (total count : ℕ)
    → power ≤ 18446744073709551615
    → sum_samples {V = V} power clipped iq ≡ ok (total, count)
    → total ≤ 18446744073709551615
unfolding sum_samples
sum_samples_bounded {V} power clipped (a ∷ b ∷ c ∷ d ∷ rest) total count h e =
    elim (Option-cases (checked_add power (sample_power (word_of a b) (word_of c d)))) [
      | inl over ↦ absurd (ground (arith, over))
      | inr (power', fits) ↦
          let clipped' =
            if is_clipped (word_of a b) || is_clipped (word_of c d)
            then saturating_add clipped 1
            else clipped in
          sum_samples_bounded {V = V} power' clipped' rest total count (ground (arith, fits))
            (ground (arith, fits))
    ]
sum_samples_bounded power clipped (a ∷ b ∷ c ∷ []) total count h e = ground arith
sum_samples_bounded power clipped (a ∷ b ∷ []) total count h e = ground arith
sum_samples_bounded power clipped (a ∷ []) total count h e = ground arith
sum_samples_bounded power clipped [] total count h e = ground arith

aggregate_ci16_power_bounded :
    {V : Type 0} (iq : List ℕ) (samples power clipped : ℕ)
    → aggregate_ci16_power {V = V} iq samples ≡ ok (power, clipped)
    → power ≤ 18446744073709551615
unfolding aggregate_ci16_power
aggregate_ci16_power_bounded {V} iq samples power clipped h =
    sum_samples_bounded {V = V} 0 0 iq power clipped (omega arith) (ground arith)

words_of :
    (power : ℕ)
    → power ≤ 18446744073709551615
    → (low_word power < 4294967296)
      × (middle_word power < 4294967296)
      × (power ≡ middle_word power * 4294967296 + low_word power)
words_of power h = (omega arith, omega arith, omega (arith, h))

pub power-words :
    {V : Type 0} (iq : List ℕ) (samples power clipped : ℕ)
    → aggregate_ci16_power {V = V} iq samples ≡ ok (power, clipped)
    → (low_word power < 4294967296)
      × (middle_word power < 4294967296)
      × (power ≡ middle_word power * 4294967296 + low_word power)
power-words {V} iq samples power clipped h =
    words_of power (aggregate_ci16_power_bounded {V = V} iq samples power clipped h)
