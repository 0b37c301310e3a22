-- ===== src/Sweep/Power.antt =====
-- sweep.rs: `aggregate_ci16_power`, on the bytes of a capture. A byte is a number below 256.
use sdr_pi.Base.{
  ℕ, ◌+◌, ◌-◌, ◌*◌, Bool, not, ◌||◌, List, ◌∷◌, Result, ok, err, ok_or, ◌>>=◌, ◌==◌, ltb, leb,
  if◌then◌else◌, length, checked_add, checked_mul, saturating_add,
}
use sdr_pi.Sweep.Plan.{SweepError, sweep_error}

-- `i16::from_le_bytes`, as the word in two's complement
abbrev pub word_of : ℕ → ℕ → ℕ
word_of low high = low + 256 * high

-- the absolute value of a word; its square is that of the signed number
abbrev pub absolute : ℕ → ℕ
absolute word = if ltb word 32768 then word else 65536 - word

-- `v <= -2048 || v >= 2047`
abbrev pub is_clipped : ℕ → Bool
is_clipped word = if ltb word 32768 then leb 2047 word else leb 2048 (65536 - word)

abbrev pub sample_power : ℕ → ℕ → ℕ
sample_power i q = absolute i * absolute i + absolute q * absolute q

module _ {V : Type 0} where
  -- the loop over the samples; what is left of fewer than four bytes is not read
  unfoldable pub sum_samples : ℕ → ℕ → List ℕ → Result (SweepError V) (ℕ × ℕ)
  sum_samples power clipped (a ∷ b ∷ c ∷ d ∷ rest) = do
    power' ←
        ok_or (checked_add power (sample_power (word_of a b) (word_of c d)))
          (sweep_error "agx_power_overflow" "AGX IQ power sum overflow")
    sum_samples power'
        (if is_clipped (word_of a b) || is_clipped (word_of c d)
          then saturating_add clipped 1
          else clipped)
        rest
  sum_samples power clipped _ = ok (power, clipped)

  unfoldable pub aggregate_ci16_power : List ℕ → ℕ → Result (SweepError V) (ℕ × ℕ)
  unfolding sum_samples
  aggregate_ci16_power bytes samples = do
    expected ← ok_or (checked_mul samples 4) (sweep_error "agx_iq_shape" "IQ byte count overflow")
    (if not (length bytes == expected)
        then err
            (sweep_error "agx_iq_shape" "decoded IQ length does not match the capture sample count")
        else sum_samples 0 0 bytes)
