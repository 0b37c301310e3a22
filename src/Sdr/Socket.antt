-- ===== src/Sdr/Socket.antt =====
-- sdr.rs: `SdrdWire`, a connection to the SDRD daemon over a stream. The stream (std::net, std::io)
-- and the JSON library (serde_json) are parameters.
use sdr_pi.Base.{
  last, pop, is_newline, ℕ, ◌+◌, String, not, Option, none, some, List, Result, ok, err, map_err,
  checked_add, decimal, ◌+++◌, ◌==◌, ◌=s◌, leb, length, if◌then◌else◌,
}
use sdr_pi.Base.Action.{Action, ◌>>=◌, ◌>>◌, lift}
use sdr_pi.Sdr.Snapshot.{SdrError, sdr_error}
use sdr_pi.Sdr.Wire.{Wire, reported}

abbrev pub sdrd_schema_version : ℕ
sdrd_schema_version = 1

abbrev pub sdrd_max_response_bytes : ℕ
sdrd_max_response_bytes = 393216

pub record CommonResponse : Type 0 where
  pub schema_version : ℕ
  pub request_id : ℕ
  pub status : String
  pub error : Option String

-- The calls of std on the stream, each with the text of its error. `read_until limit` is
-- `take(limit).read_until(b'\n')`: the bytes up to a newline, at most `limit` of them.
pub record Stream (N : Type 0) : Type 0 where
  pub connect_timeout : ℕ → Action N String (Unit {0})
  pub set_read_timeout : ℕ → Action N String (Unit {0})
  pub set_write_timeout : ℕ → Action N String (Unit {0})
  pub try_clone : Action N String (Unit {0})
  pub write_all : String → Action N String (Unit {0})
  pub flush : Action N String (Unit {0})
  pub read_until : ℕ → Action N String (List ℕ)
  pub sleep : ℕ → N → N

-- What is used of serde_json: a value from bytes, and the common fields of a value.
pub record Json (V : Type 0) : Type 0 where
  pub from_slice : List ℕ → Result String V
  pub common : V → Result String CommonResponse

-- the stream and its reader are in `stream`
pub record SdrdWire (N : Type 0) : Type 0 where
  pub stream : N
  pub next_request_id : ℕ

-- the line that asks for a command
unfoldable pub request_line : String → String → ℕ → String
request_line command arguments request_id =
    if arguments =s ""
    then "SDRD/1 " +++ command +++ " " +++ decimal request_id +++ "\n"
    else "SDRD/1 " +++ command +++ " " +++ decimal request_id +++ " " +++ arguments +++ "\n"

abbrev pub error_or_default : Option String → String
error_or_default none = "SDRD request failed"
error_or_default (some message) = message

module _ {V : Type 0} (json : Json V) where
  -- the checks of the common fields of a response
  unfoldable pub accept_common : ℕ → V → CommonResponse → Result (SdrError V) V
  accept_common request_id value common =
      if not (common.schema_version == sdrd_schema_version)
      then err (sdr_error "schema_version" "unsupported SDRD schema version")
      else if not (common.request_id == request_id)
      then err (sdr_error "request_id" "SDRD response request id mismatch")
      else if not (common.status =s "ok")
      then err (record {
        code = "remote_error";
        message = error_or_default common.error;
        details = some value;
      })
      else ok value

  -- the value of a frame that was read, if it is accepted
  unfoldable pub accept_frame : ℕ → List ℕ → Result (SdrError V) V
  accept_frame request_id frame =
      if not (leb (length frame) sdrd_max_response_bytes)
      then err (sdr_error "response_too_large" "SDRD response exceeds 2048 bytes")
      else if not (is_newline (last frame))
      then err (sdr_error "response_framing" "SDRD response is not newline framed")
      else (elim (json.from_slice (pop frame)) [
        | err e ↦ err (reported "response_json" e)
        | ok value ↦ elim (json.common value) [
          | err e ↦ err (reported "response_common" e)
          | ok common ↦ accept_common request_id value common
        ]
      ])

module _ {V N : Type 0} (stream : Stream N) (json : Json V) where
  -- a call of the stream, with `SdrError::io`
  abbrev pub io : {X : Type 0} → String → Action N String X → Action (SdrdWire N) (SdrError V) X
  io operation call w =
      let (r, n) = call w.stream in (map_err (reported operation) r, record w { stream = n })

  -- `SdrdWire::connect`: the identifiers begin at 1
  unfoldable pub connect : ℕ → Action (SdrdWire N) (SdrError V) (Unit {0})
  connect timeout = do
    io "connect" (stream.connect_timeout timeout)
    io "set_read_timeout" (stream.set_read_timeout timeout)
    io "set_write_timeout" (stream.set_write_timeout timeout)
    io "clone_stream" stream.try_clone
    (λ w. (ok tt, record w { next_request_id = 1 }))

  -- the identifier of the next request, which is used up
  unfoldable pub take_request_id : Action (SdrdWire N) (SdrError V) ℕ
  take_request_id w = elim (checked_add w.next_request_id 1) [
    | none ↦ (err (sdr_error "request_id_exhausted" "SDRD request id exhausted"), w)
    | some next ↦ (ok w.next_request_id, record w { next_request_id = next })
  ]

  -- `SdrdWire::request` up to the decoding of the value
  unfoldable pub exchange : String → String → Action (SdrdWire N) (SdrError V) V
  unfolding take_request_id
  exchange command arguments = do
    request_id ← take_request_id
    io "write_request" (stream.write_all (request_line command arguments request_id))
    io "flush_request" stream.flush
    frame ← io "read_response" (stream.read_until (sdrd_max_response_bytes + 1))
    lift (accept_frame json request_id frame)

  abbrev pub sdrd_wire : Wire V (SdrdWire N)
  sdrd_wire = record {
    connect = connect;
    exchange = exchange;
    sleep = λ ms w. record w { stream = stream.sleep ms w.stream };
  }
