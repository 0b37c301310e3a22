-- ===== src/Controller/Worker.antt =====
-- planner.rs: `UnixPlannerAdapter`, which asks a planner over a Unix socket. The socket (std) and the
-- JSON library (serde_json) are parameters.
use sdr_pi.Base.{
  ℕ, ◌+◌, String, not, List, [], ◌∷◌, ◌++◌, Result, ok, err, map_err, ◌+++◌, leb, length, last, pop,
  is_newline, newline, if◌then◌else◌,
}
use sdr_pi.Base.Action.{Action, ◌>>=◌, ◌>>◌, lift, map_failure}
use sdr_pi.Protocol.{PlanRequest, PlanResponse, max_frame_bytes}
use sdr_pi.Controller.{Planner, PlannerError}

-- The calls of std on the socket, each with the text of its error. `read_until limit` is
-- `take(limit).read_until(b'\n')`.
pub record Socket (N : Type 0) : Type 0 where
  pub connect : String → Action N String (Unit {0})
  pub set_read_timeout : ℕ → Action N String (Unit {0})
  pub set_write_timeout : ℕ → Action N String (Unit {0})
  pub write_all : List ℕ → Action N String (Unit {0})
  pub read_until : ℕ → Action N String (List ℕ)

-- `serde_json::to_vec` of a request and `serde_json::from_slice` of a response
pub record Codec : Type 0 where
  pub encode : PlanRequest → Result String (List ℕ)
  pub decode : List ℕ → Result String PlanResponse

-- `PlannerError::transport`
abbrev pub transport : String → String → PlannerError
transport operation error = record { kind = "transport"; message = operation +++ ": " +++ error }

-- `PlannerError::protocol`
abbrev pub protocol : String → PlannerError
protocol message = record { kind = "protocol"; message = message }

module _ (codec : Codec) where
  -- the frame of a request, with its newline
  unfoldable pub request_frame : PlanRequest → Result PlannerError (List ℕ)
  request_frame request = elim (codec.encode request) [
    | err e ↦ err (protocol ("encode request: " +++ e))
    | ok frame ↦
        if not (leb (length frame) max_frame_bytes)
        then err (protocol "request frame exceeds 32 KiB")
        else ok (frame ++ newline ∷ [])
  ]

  -- the response of a frame that was read
  unfoldable pub read_response : List ℕ → Result PlannerError PlanResponse
  read_response frame =
      if not (leb (length frame) (max_frame_bytes + 1))
      then err (protocol "response frame exceeds 32 KiB")
      else if not (is_newline (last frame))
      then err (protocol "planner response is not newline framed")
      else map_err (λ e. protocol ("decode response: " +++ e)) (codec.decode (pop frame))

  module _ {N : Type 0} (socket : Socket N) (socket_path : String) (timeout : ℕ) where
    -- `UnixPlannerAdapter::plan`
    unfoldable pub socket_plan : PlanRequest → Action N PlannerError PlanResponse
    socket_plan request = do
      frame ← lift (request_frame request)
      map_failure (transport "connect planner socket") (socket.connect socket_path)
      map_failure (transport "set planner read timeout") (socket.set_read_timeout timeout)
      map_failure (transport "set planner write timeout") (socket.set_write_timeout timeout)
      map_failure (transport "write planner request") (socket.write_all frame)
      response_frame ←
          map_failure (transport "read planner response") (socket.read_until (max_frame_bytes + 1))
      lift (read_response response_frame)

    abbrev pub socket_planner : Planner N
    socket_planner = record { plan = socket_plan }
