-- ===== src/Execution/Contract.antt =====
-- The contract of a capture: what a response keeps that `validate_capture_response` accepts.
use sdr_pi.Base.{
  ◌*◌, ◌≤◌, ◌≡◌, ◌↔◌, inl, inr, true, false, ok, arith, Bool-cases, eq_iff, ◌+++◌, contains_text,
  contains_text_iff, StandsIn, u64_max,
}
use text.Mathlib.TextBridge.{IsPrefix}
use text.Mathlib.TextEquality.{starts_with_iff}
use sdr_pi.Execution.Responses.{CaptureResponse, validate_capture_response}
use sdr_pi.Execution.Adapter.{Capture}

-- A response that keeps the contract of a capture: no more samples than were asked for, four bytes
-- for each, within the bytes allowed, in a file below the capture's directory, without loss, in time
-- and healthy.
pub record Fulfils (c : Capture) (r : CaptureResponse) : Type 0 where
  pub same_generation : r.generation ≡ c.generation
  pub same_session : r.session_generation ≡ c.generation
  pub same_feature : r.feature_id ≡ c.feature_id
  pub samples_bounded : r.samples_captured ≤ c.samples
  pub bytes_bounded : r.bytes_written ≤ c.max_bytes
  pub bytes_shaped : r.bytes_written ≡ r.samples_captured * 4
  pub in_range : r.bytes_written ≤ u64_max
  pub no_parent : ¬ StandsIn ".." r.relative_path
  pub below_feature : IsPrefix (c.feature_id +++ "/") r.relative_path
  pub no_overflow : r.overflow ≡ false
  pub none_dropped : r.dropped_samples ≡ 0
  pub same_limit : r.timeout.limit_ms ≡ c.timeout_ms
  pub in_time : r.timeout.timed_out ≡ false
  pub healthy : r.health.healthy ≡ true
  pub no_flags : r.health.flags ≡ 0
  pub from_adapter : r.health.source ≡ "iio_adapter"

-- A capture's response is accepted exactly if it is of the capture's session and feature, has at most
-- the samples asked for and four bytes for each, within the bytes allowed and 64 bits, in a file below
-- the feature's directory whose path does not contain "..", nothing lost, under the time limit asked
-- for and within it, and healthy at the IIO adapter.
pub validate_capture_response_iff :
    {V : Type 0} (c : Capture) (r : CaptureResponse)
    → (validate_capture_response {V = V} r c.generation c.samples c.max_bytes c.timeout_ms
          c.feature_id
        ≡ ok tt)
      ↔ Fulfils c r
unfolding validate_capture_response
validate_capture_response_iff c r = (
  λ h. record {
    same_generation = ground arith;
    same_session = ground arith;
    same_feature = (eq_iff r.feature_id c.feature_id).0 (ground arith);
    samples_bounded = ground arith;
    bytes_bounded = ground arith;
    bytes_shaped = ground arith;
    in_range = ground arith;
    no_parent = λ parent.
        let found = (contains_text_iff r.relative_path "..").1 parent in ground (arith, found);
    below_feature = (starts_with_iff r.relative_path (c.feature_id +++ "/")).0 (ground arith);
    no_overflow = ground arith;
    none_dropped = ground arith;
    same_limit = ground arith;
    in_time = ground arith;
    healthy = ground arith;
    no_flags = ground arith;
    from_adapter = (eq_iff r.health.source "iio_adapter").0 (ground arith);
  },
  λ f.
      let feature = (eq_iff r.feature_id c.feature_id).1 f.same_feature in
      let source = (eq_iff r.health.source "iio_adapter").1 f.from_adapter in
      let below = (starts_with_iff r.relative_path (c.feature_id +++ "/")).1 f.below_feature in
      let inside : contains_text r.relative_path ".." ≡ false =
        elim (Bool-cases (contains_text r.relative_path "..")) [
          | inl parent ↦ absurd (f.no_parent ((contains_text_iff r.relative_path "..").0 parent))
          | inr inside ↦ inside
        ] in
      ground (
        arith, below, inside, feature, source, f.same_generation, f.same_session, f.samples_bounded,
        f.bytes_bounded, f.bytes_shaped, f.in_range, f.no_overflow, f.none_dropped, f.same_limit,
        f.in_time, f.healthy, f.no_flags,
      ),
)
