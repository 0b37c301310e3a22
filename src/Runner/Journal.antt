-- ===== src/Runner/Journal.antt =====
-- runner.rs: `JsonlAuditAdapter`, which appends each event to a file as a line. The file (std::fs) and
-- the JSON library are parameters; an I/O error is its text.
use sdr_pi.Base.{
  ℕ, String, not, List, [], ◌∷◌, ◌++◌, Result, ok, err, leb, length, newline, if◌then◌else◌,
}
use sdr_pi.Base.Action.{Action, ◌>>=◌, ◌>>◌, lift}
use sdr_pi.Runner.Audit.{AuditEvent, AuditSink}

abbrev pub max_audit_event_bytes : ℕ
max_audit_event_bytes = 32768

-- The calls of std::fs on the file, and `serde_json::to_vec` of an event. `open_append` is `open` for
-- appending, with the permissions of a file that is created.
pub record AuditFile (V N : Type 0) : Type 0 where
  pub open_append : String → ℕ → Action N String (Unit {0})
  pub encode : AuditEvent V → Result String (List ℕ)
  pub write_all : List ℕ → Action N String (Unit {0})
  pub flush : Action N String (Unit {0})

module _ {V N : Type 0} (file : AuditFile V N) where
  -- `JsonlAuditAdapter::open`; 0o600 is 384
  abbrev pub jsonl_open : String → Action N String (Unit {0})
  jsonl_open path = file.open_append path 384

  -- the line of an event
  unfoldable pub event_line : AuditEvent V → Result String (List ℕ)
  event_line event = elim (file.encode event) [
    | err e ↦ err e
    | ok frame ↦
        if not (leb (length frame) max_audit_event_bytes)
        then err "audit event exceeds 32 KiB"
        else ok (frame ++ newline ∷ [])
  ]

  -- `JsonlAuditAdapter::append`
  unfoldable pub jsonl_append : AuditEvent V → Action N String (Unit {0})
  jsonl_append event = do frame ← lift (event_line event); file.write_all frame; file.flush

  abbrev pub jsonl_sink : AuditSink V N
  jsonl_sink = record { append = jsonl_append }
