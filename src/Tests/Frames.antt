-- ===== src/Tests/Frames.antt =====
-- A stream of frames whose first byte is the identifier of the request, and commands over it.
use sdr_pi.Base.{ℕ, ◌<◌, ◌≤◌, ◌≡◌, ◌⊎◌, ◌↔◌, none, String, List, [], ◌∷◌, Result, ok, err, u64_max}
use sdr_pi.Base.Action.{Action}
use sdr_pi.Sdr.{sdr_error}
use sdr_pi.Sdr.Socket.{Stream, Json, CommonResponse, SdrdWire, exchange, accept_frame}
use sdr_pi.Sdr.Framed.{Carries, accept_frame_iff, exchange-numbers}

abbrev succeeds : {X : Type 0} → X → Action (List (List ℕ)) String X
succeeds x frames = (ok x, frames)

abbrev next_frame : Action (List (List ℕ)) String (List ℕ)
next_frame [] = (err "closed", [])
next_frame (frame ∷ rest) = (ok frame, rest)

abbrev test_stream : Stream (List (List ℕ))
test_stream = record {
  connect_timeout = λ timeout. succeeds tt;
  set_read_timeout = λ timeout. succeeds tt;
  set_write_timeout = λ timeout. succeeds tt;
  try_clone = succeeds tt;
  write_all = λ line. succeeds tt;
  flush = succeeds tt;
  read_until = λ limit. next_frame;
  sleep = λ ms frames. frames;
}

abbrev common_of : List ℕ → Result String CommonResponse
common_of [] = err "shape"
common_of (id ∷ rest) =
    ok (record { schema_version = 1; request_id = id; status = "ok"; error = none })

abbrev test_json : Json (List ℕ)
test_json = record { from_slice = λ bytes. ok bytes; common = common_of }

abbrev test_wire : SdrdWire (List (List ℕ))
test_wire = record { stream = (5 ∷ 20 ∷ 10 ∷ []) ∷ []; next_request_id = 5 }

accept_frame_iff_example :
    (accept_frame test_json 5 (5 ∷ 20 ∷ 10 ∷ []) ≡ ok (5 ∷ 20 ∷ []))
    ↔ Carries test_json 5 (5 ∷ 20 ∷ 10 ∷ []) (5 ∷ 20 ∷ [])
accept_frame_iff_example = accept_frame_iff test_json 5 (5 ∷ 20 ∷ 10 ∷ []) (5 ∷ 20 ∷ [])

exchange-numbers_example :
    ((5 < u64_max) × ((exchange test_stream test_json "HELLO" "" test_wire).1.next_request_id ≡ 6))
    ⊎ ((u64_max ≤ 5)
        × (exchange test_stream test_json "HELLO" "" test_wire
            ≡ (err (sdr_error "request_id_exhausted" "SDRD request id exhausted"), test_wire)))
exchange-numbers_example = exchange-numbers test_stream test_json "HELLO" "" test_wire
