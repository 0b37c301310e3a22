-- ===== src/Tests/Workers.antt =====
-- A planner that answers over its socket, and an event that is appended to a file.
use sdr_pi.Base.{ℕ, ◌≡◌, refl, List, [], ◌∷◌, ◌++◌, ok}
use sdr_pi.Controller.{PlannerError}
use sdr_pi.Controller.Worker.{Socket, Codec, socket_plan}
use sdr_pi.Controller.Exchanged.{Exchanged}
use sdr_pi.Runner.{AuditEvent, Payload, audit_schema_version}
use sdr_pi.Runner.Journal.{AuditFile, jsonl_append}
use sdr_pi.Tests.Data.{test_request, test_response}

-- a socket whose state is what was written to it
abbrev test_socket : Socket (List ℕ)
test_socket = record {
  connect = λ path n. (ok tt, n);
  set_read_timeout = λ timeout n. (ok tt, n);
  set_write_timeout = λ timeout n. (ok tt, n);
  write_all = λ frame n. (ok tt, n ++ frame);
  read_until = λ limit n. (ok (91 ∷ 93 ∷ 10 ∷ []), n);
}

abbrev test_codec : Codec
test_codec = record { encode = λ request. ok (123 ∷ 125 ∷ []); decode = λ frame. ok test_response }

plans :
    socket_plan test_codec test_socket "/run/planner.sock" 250 test_request []
    ≡ (ok test_response, 123 ∷ 125 ∷ 10 ∷ [])
unfolding socket_plan sdr_pi.Controller.Worker.request_frame sdr_pi.Controller.Worker.read_response
plans = refl

-- a file whose state is what was written to it
abbrev test_file : AuditFile ℕ (List ℕ)
test_file = record {
  open_append = λ path mode n. (ok tt, n);
  encode = λ event. ok (123 ∷ 125 ∷ []);
  write_all = λ frame n. (ok tt, n ++ frame);
  flush = λ n. (ok tt, n);
}

abbrev test_event : AuditEvent ℕ
test_event = record {
  schema_version = audit_schema_version;
  timestamp_unix_ms = 1_700_000_000_000;
  phase = "authorized";
  request_id = 42;
  session_generation = 7;
  payload = Payload.mode "operator";
}

appends : jsonl_append test_file test_event [] ≡ (ok tt, 123 ∷ 125 ∷ 10 ∷ [])
unfolding jsonl_append sdr_pi.Runner.Journal.event_line
appends = refl
