-- ===== src/Sdr/Framed.antt =====
-- What `SdrdWire` accepts as the answer to a command, and how it numbers its commands.
use sdr_pi.Base.{
  last, pop, is_newline, newline, pop-framed, last-append, pop-append, ℕ, suc, ◌≤◌, ◌<◌, ◌≡◌, refl,
  inl, inr, String, List, [], ◌∷◌, ◌++◌, ok, err, some, arith, Result-cases, Bool-cases, length,
  u64_max, eq_iff, ap, leb, ◌∙◌, sym, ◌↔◌, ◌⊎◌, inl, true,
}
use sdr_pi.Sdr.Snapshot.{sdr_error}
use sdr_pi.Sdr.Socket.{
  Stream, Json, CommonResponse, SdrdWire, accept_common, accept_frame, take_request_id, exchange,
  sdrd_max_response_bytes,
}

-- A value that a frame carries as the answer to the request of an identifier: the frame is a line of
-- at most 384 KiB, the value is what the JSON library reads in it, and the value's common fields have
-- the protocol's version, the request's identifier and the status "ok".
pub record Carries {V : Type 0} (json : Json V) (request_id : ℕ) (frame : List ℕ) (value : V)
    : Type 0 where
  pub body : List ℕ
  pub common : CommonResponse
  pub framed : frame ≡ body ++ newline ∷ []
  pub bounded : length frame ≤ sdrd_max_response_bytes
  pub decoded : json.from_slice body ≡ ok value
  pub has_common : json.common value ≡ ok common
  pub versioned : common.schema_version ≡ 1
  pub correlated : common.request_id ≡ request_id
  pub succeeded : common.status ≡ "ok"

module _ {V : Type 0} (json : Json V) where
  accept_common_iff :
      (request_id : ℕ) (value accepted : V) (common : CommonResponse)
      → (accept_common json request_id value common ≡ ok accepted)
        ↔ (common.schema_version ≡ 1)
          × (common.request_id ≡ request_id)
          × (common.status ≡ "ok")
          × (value ≡ accepted)
  unfolding accept_common
  accept_common_iff request_id value accepted common = (
    λ h. (ground arith, ground arith, (eq_iff common.status "ok").0 (ground arith), ground arith),
    λ h. ground (arith, h.0, h.1, (eq_iff common.status "ok").1 h.2, h.3),
  )

  -- what a frame needs before its common fields are looked at
  accept_frame-opened :
      (request_id : ℕ) (frame : List ℕ) (value : V)
      → accept_frame json request_id frame ≡ ok value
      → (length frame ≤ sdrd_max_response_bytes)
        × (is_newline (last frame) ≡ true)
        × ((read : V) × (common : CommonResponse) × (json.from_slice (pop frame) ≡ ok read)
            × (json.common read ≡ ok common)
            × (accept_common json request_id read common ≡ ok value))
  unfolding accept_frame
  accept_frame-opened request_id frame value h = elim (Result-cases (json.from_slice (pop frame))) [
    | inr (e, p) ↦ absurd (ground (arith, p))
    | inl (read, p) ↦ elim (Result-cases (json.common read)) [
      | inr (e, q) ↦ absurd (ground (arith, p, q))
      | inl (common, q) ↦ (ground arith, ground arith, (read, common, p, q, ground (arith, p, q)))
    ]
  ]

  -- A frame is accepted with a value exactly if it is a line of at most 384 KiB, the value is what the
  -- JSON library reads in it, and the value's common fields have the protocol's version, the request's
  -- identifier and the status "ok".
  pub accept_frame_iff :
      (request_id : ℕ) (frame : List ℕ) (value : V)
      → (accept_frame json request_id frame ≡ ok value) ↔ Carries json request_id frame value
  unfolding accept_frame
  accept_frame_iff request_id frame value = (
    λ h.
        let o = accept_frame-opened request_id frame value h in
        let c = (accept_common_iff request_id o.2.0 value o.2.1).0 o.2.4 in
        record {
          body = pop frame;
          common = o.2.1;
          framed = pop-framed frame o.1;
          bounded = o.0;
          decoded = o.2.2 ∙ ap (λ (v : V). ok v) c.3;
          has_common = ap json.common (sym c.3) ∙ o.2.3;
          versioned = c.0;
          correlated = c.1;
          succeeded = c.2;
        },
    λ c.
        let ended : last frame ≡ some newline = ap last c.framed ∙ last-append c.body newline in
        let popped : pop frame ≡ c.body = ap pop c.framed ∙ pop-append c.body newline in
        let decoded : json.from_slice (pop frame) ≡ ok value =
          ap json.from_slice popped ∙ c.decoded in
        let accepted =
          (accept_common_iff request_id value value c.common).1
            (c.versioned, c.correlated, c.succeeded, refl) in
        ground (arith, ended, decoded, c.has_common, c.bounded, accepted),
  )

module _ {V N : Type 0} (stream : Stream N) (json : Json V) where
  -- Whatever comes of a command, its identifier is used up; the largest one is refused, and then
  -- nothing is written.
  pub exchange-numbers :
      (command arguments : String) (w : SdrdWire N)
      → ((w.next_request_id < u64_max)
          × ((exchange stream json command arguments w).1.next_request_id ≡ suc w.next_request_id))
        ⊎ ((u64_max ≤ w.next_request_id)
            × (exchange stream json command arguments w
                ≡ (err (sdr_error "request_id_exhausted" "SDRD request id exhausted"), w)))
  unfolding exchange take_request_id
  exchange-numbers command arguments w = elim (Bool-cases (leb (suc w.next_request_id) u64_max)) [
    | inl h ↦ inl (ground (arith, h), ground (arith, h))
    | inr h ↦ inr (ground (arith, h), ground (arith, h))
  ]
