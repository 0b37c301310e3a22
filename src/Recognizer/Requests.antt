-- ===== src/Recognizer/Requests.antt =====
-- What a recognition request is that `validate_request` accepts.
use sdr_pi.Base.{
  ℕ, zero, suc, ◌*◌, ◌%◌, ◌^◌, ◌≤◌, ◌<◌, ◌≡◌, ◌↔◌, inl, inr, true, ok, arith, byte_len, Bool-cases,
  ap, ◌∙◌, ==_iff, ◌==◌,
}
use sdr_pi.Recognizer.Messages.{RecognitionRequest}
use sdr_pi.Recognizer.Checks.{is_text, is_power_below, validate_request}

is_power_below-power : (m n : ℕ) → is_power_below m n ≡ true → (k : ℕ) × (k < m) × (n ≡ 2 ^ k)
unfolding is_power_below
is_power_below-power zero n h = absurd (ground arith)
is_power_below-power (suc m) n h = elim (Bool-cases (n == 2 ^ m)) [
  | inl same ↦ (m, (omega arith), ground (arith, same))
  | inr other ↦
      let r = is_power_below-power m n (ground (arith, other)) in (r.0, (omega (arith, r.1)), r.2)
]

power-is_power_below : (m n k : ℕ) → k < m → n ≡ 2 ^ k → is_power_below m n ≡ true
unfolding is_power_below
power-is_power_below zero n k h e = absurd (omega (arith, h))
power-is_power_below (suc m) n k h e = elim (Bool-cases (k == m)) [
  | inl same ↦
      let here : n ≡ 2 ^ m = e ∙ ap (λ j. 2 ^ j) ((==_iff k m).0 same) in ground (arith, here)
  | inr other ↦ ground (arith, power-is_power_below m n k (ground (arith, other)) e)
]

-- A request of the protocol's version for a named candidate, within a deadline of 1 to 5000 ms, whose
-- samples are a power of two from 256 to 16384, at a rate and a frequency of the radio, in a file at an
-- aligned offset and of the length of two planes of float32.
pub record IsRequest (r : RecognitionRequest) : Type 0 where
  pub versioned : r.protocol_version ≡ 1
  pub named : is_text r.candidate_id 64 ≡ true
  pub some_latency : 1 ≤ r.max_latency_ms
  pub bounded_latency : r.max_latency_ms ≤ 5_000
  pub exponent : ℕ
  pub exponent_bounded : exponent < 32
  pub power : r.iq.samples_per_channel ≡ 2 ^ exponent
  pub min_samples : 256 ≤ r.iq.samples_per_channel
  pub max_samples : r.iq.samples_per_channel ≤ 16_384
  pub some_rate : 1 ≤ r.iq.sample_rate_hz
  pub bounded_rate : r.iq.sample_rate_hz ≤ 30_720_000
  pub bounded_center : r.iq.center_hz ≤ 6_000_000_000
  pub shaped : r.iq.storage.length_bytes ≡ r.iq.samples_per_channel * 8
  pub aligned : r.iq.storage.offset_bytes % 4 ≡ 0
  pub some_path : 1 ≤ byte_len r.iq.storage.path
  pub bounded_path : byte_len r.iq.storage.path ≤ 1_024

-- A request is accepted exactly if it is of the protocol's version, for a named candidate, within a
-- deadline of 1 to 5000 ms, and its samples are a power of two from 256 to 16384, at a rate and a
-- frequency in range, in a file with a path of 1 to 1024 bytes, at an offset that is a multiple of 4,
-- of 8 bytes a sample.
pub validate_request_iff : (r : RecognitionRequest) → (validate_request r ≡ ok tt) ↔ IsRequest r
unfolding validate_request
validate_request_iff r = (
  λ h.
      let power = is_power_below-power 32 r.iq.samples_per_channel (ground arith) in
      record {
        versioned = ground arith;
        named = ground arith;
        some_latency = ground arith;
        bounded_latency = ground arith;
        exponent = power.0;
        exponent_bounded = power.1;
        power = power.2;
        min_samples = ground arith;
        max_samples = ground arith;
        some_rate = ground arith;
        bounded_rate = ground arith;
        bounded_center = ground arith;
        shaped = ground arith;
        aligned = ground arith;
        some_path = ground arith;
        bounded_path = ground arith;
      },
  λ q.
      let power =
        power-is_power_below 32 r.iq.samples_per_channel q.exponent q.exponent_bounded q.power in
      ground (
        arith, power, q.versioned, q.named, q.some_latency, q.bounded_latency, q.min_samples,
        q.max_samples, q.some_rate, q.bounded_rate, q.bounded_center, q.shaped, q.aligned,
        q.some_path, q.bounded_path,
      ),
)
