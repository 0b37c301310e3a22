-- ===== src/Recognizer/Adapter.antt =====
-- recognizer.rs: `LocalRecognizer`, the adapter that replays and the one that asks a worker over a
-- Unix socket. The socket, the file system (std) and the JSON library are parameters; a canonical
-- path is the list of its components.
use sdr_pi.Base.{
  ℕ, ◌+◌, String, Bool, true, false, not, ◌&&◌, Option, none, some, List, [], ◌∷◌, ◌++◌, Result, ok,
  err, ok_or, map_err, ◌=s◌, leb, length, last, pop, is_newline, newline, if◌then◌else◌,
  starts_with, checked_add,
}
use sdr_pi.Base.Action.{Action, ◌>>=◌, ◌>>◌, pure, lift, map_failure}
use sdr_pi.Recognizer.Messages.{
  RecognitionRequest, RecognitionOutput, RecognitionResponse, RecognizerError,
  recognizer_max_frame_bytes,
}
use sdr_pi.Recognizer.Checks.{
  recognizer_error, require, validate_request, validate_output, validate_response,
}

-- The trait `LocalRecognizer`: a recognizer whose state is an `R`.
pub record LocalRecognizer (R : Type 0) : Type 0 where
  pub classify : RecognitionRequest → Action R RecognizerError RecognitionOutput

-- the text of an error of the library
abbrev pub reported : String → String → RecognizerError
reported operation message = record { code = operation; message = message }

-- `ReplayRecognizerAdapter`: its state is the queue of outputs.
abbrev pub pop_output : Action (List RecognitionOutput) RecognizerError RecognitionOutput
pop_output [] = (recognizer_error "replay_exhausted" "no replay outputs remain", [])
pop_output (output ∷ rest) = (ok output, rest)

unfoldable pub replay_classify :
    RecognitionRequest → Action (List RecognitionOutput) RecognizerError RecognitionOutput
replay_classify request = do
  lift (validate_request request)
  output ← pop_output
  lift (validate_output request output)
  pure output

abbrev pub replay_recognizer : LocalRecognizer (List RecognitionOutput)
replay_recognizer = record { classify = replay_classify }

abbrev pub Components : Type 0
Components = List String

-- The calls of std::fs, each with the text of its error: `metadata` tells whether a path is a regular
-- file, and its length. `to_str` of a path is a text if it is valid UTF-8.
pub record SpoolFiles (N : Type 0) : Type 0 where
  pub canonicalize : String → Action N String Components
  pub metadata : Components → Action N String (Bool × ℕ)
  pub to_str : Components → Option String

-- The calls of std on the socket, as in Controller/Worker, and the JSON library.
pub record WorkerSocket (N : Type 0) : Type 0 where
  pub connect : String → Action N String (Unit {0})
  pub set_read_timeout : ℕ → Action N String (Unit {0})
  pub set_write_timeout : ℕ → Action N String (Unit {0})
  pub write_all : List ℕ → Action N String (Unit {0})
  pub read_until : ℕ → Action N String (List ℕ)
  pub encode : RecognitionRequest → Result String (List ℕ)
  pub decode : List ℕ → Result String RecognitionResponse

-- `Path::starts_with`: the components of the root are the first of the path
unfoldable pub is_below : Components → Components → Bool
is_below path [] = true
is_below [] (r ∷ root) = false
is_below (c ∷ path) (r ∷ root) = (c =s r) && is_below path root

-- the range of the file that the request names
unfoldable pub check_range : RecognitionRequest → ℕ → Result RecognizerError (Unit {0})
check_range request file_length =
    elim (checked_add request.iq.storage.offset_bytes request.iq.storage.length_bytes) [
      | none ↦ recognizer_error "iq_range" "IQ file range overflow"
      | some end ↦ require (leb end file_length) "iq_range" "IQ file range exceeds file length"
    ]

-- the request with the canonical path
abbrev pub with_path : RecognitionRequest → String → RecognitionRequest
with_path request path = record request {
  iq = record (request.iq) { storage = record (request.iq.storage) { path = path } };
}

module _ {N : Type 0} (files : SpoolFiles N) where
  unfoldable pub validate_spool_file :
      String → RecognitionRequest → Action N RecognizerError Components
  validate_spool_file spool_root request = do
    root ← map_failure (reported "canonicalize_spool_root") (files.canonicalize spool_root)
    lift (require (starts_with request.iq.storage.path "/") "iq_path" "IQ path must be absolute")
    path ←
        map_failure (reported "canonicalize_iq_path") (files.canonicalize request.iq.storage.path)
    lift (
        require (is_below path root) "iq_path_escape"
          "IQ path is outside the configured spool root")
    metadata ← map_failure (reported "stat_iq") (files.metadata path)
    lift (require metadata.0 "iq_not_file" "IQ reference is not a regular file")
    lift (check_range request metadata.1)
    pure path

module _ {N : Type 0} (socket : WorkerSocket N) where
  -- the frame of a request, with its newline
  unfoldable pub request_frame : RecognitionRequest → Result RecognizerError (List ℕ)
  request_frame request = elim (socket.encode request) [
    | err e ↦ err (reported "encode_request" e)
    | ok frame ↦
        if not (leb (length frame) recognizer_max_frame_bytes)
        then recognizer_error "request_too_large" "recognizer request exceeds 16 KiB"
        else ok (frame ++ newline ∷ [])
  ]

  -- the response of a frame that was read
  unfoldable pub read_response : List ℕ → Result RecognizerError RecognitionResponse
  read_response frame =
      if not (leb (length frame) (recognizer_max_frame_bytes + 1))
      then recognizer_error "response_too_large" "recognizer response exceeds 16 KiB"
      else if not (is_newline (last frame))
      then recognizer_error "response_framing" "recognizer response is not newline framed"
      else map_err (reported "decode_response") (socket.decode (pop frame))

  -- the exchange with the worker
  unfoldable pub ask_worker : String → ℕ → List ℕ → Action N RecognizerError (List ℕ)
  ask_worker socket_path timeout frame = do
    map_failure (reported "connect") (socket.connect socket_path)
    map_failure (reported "set_read_timeout") (socket.set_read_timeout timeout)
    map_failure (reported "set_write_timeout") (socket.set_write_timeout timeout)
    map_failure (reported "write_request") (socket.write_all frame)
    map_failure (reported "read_response") (socket.read_until (recognizer_max_frame_bytes + 1))

module _ {N : Type 0} (files : SpoolFiles N) (socket : WorkerSocket N) (socket_path : String)
    (spool_root : String) (timeout : ℕ) where
  -- `UnixRecognizerAdapter::classify`
  unfoldable pub socket_classify : RecognitionRequest → Action N RecognizerError RecognitionOutput
  socket_classify request = do
    lift (validate_request request)
    canonical_iq_path ← validate_spool_file files spool_root request
    path ←
        lift
          (ok_or (files.to_str canonical_iq_path) (reported "iq_path" "IQ path is not valid UTF-8"))
    frame ← lift (request_frame socket (with_path request path))
    response_frame ← ask_worker socket socket_path timeout frame
    response ← lift (read_response socket response_frame)
    lift (validate_response request response)

  abbrev pub socket_recognizer : LocalRecognizer N
  socket_recognizer = record { classify = socket_classify }
