-- ===== src/Lib.antt =====
-- sdr-pi: the controller of the SDR agent, verified.
--
-- The controller (raspberry-pi/sdr-agent/controller/src) turns one request into at most one action of
-- a software radio. A run observes the radio, has the policy check the request, asks a planner for an
-- action, has the policy check the planner's response, and then, if the action has an executor and the
-- approval that it needs, executes it: a capture by the action executor, a survey or an inspection by
-- the sweep engine. Each step leaves an event in an audit sink. A cruise repeats such runs within
-- budgets of steps, bytes, time and retries.
--
-- Files and what they model, all paths from the root of the repository:
--   Base        what the source uses of Rust: results, checked and saturating arithmetic, strings,
--               f32 bit patterns, decimal printing, lists measured by native numbers
--   Protocol    raspberry-pi/sdr-agent/controller/src/protocol.rs: the messages
--   Policy      .../policy.rs: ControllerPolicy. Checks, Request, Action and Response have the checks
--               in the order of the source, each with its error; Bounds, Survey, Allowed, Candidates,
--               Accepted and Plans state what they admit, by orders on the values
--   Autonomy    .../autonomy.rs: CruiseControl. Cruise has one function per method, Events the methods
--               as events; Invariant and Budgets are about histories of events
--   Sdr         .../sdr.rs: Snapshot (snapshots, errors, the engine interface and its replay adapter),
--               Wire (what the adapters ask of a connection to the daemon), Socket (SdrdWire:
--               framing, numbering, the checks of a response), Observe (SdrdAdapter). Recorded is a
--               connection that records what its client does; Framed and Observed have the proofs
--   Execution   .../execution.rs: Authorization and Replay (authorizations, observations, the executor
--               interface and its replay adapter), Responses (the daemon's answers and their checks),
--               Adapter (SdrdActionAdapter). Granted states what is authorized, Sessions and Executed
--               what is sent to the daemon and when, Contract and Fulfilled what an observation is
--               worth
--   Sweep       .../sweep.rs: Plan (records), Centers (expand_centers), Validate (validate_plan),
--               Points (validate_points), Merge (median_power_dbfs, merge_candidates), Report (planner
--               observations), Engine (SweepEngine::run), Base64 (decode_base64), Power
--               (aggregate_ci16_power), Responses (the daemon's answers), Sigmf (SigmfWriter), Adapter
--               (run_sdrd_points). Grid, Accepted, Complete, Contract, Runs, Merged, Median, Inspected,
--               Encoded and Summed have the proofs on plans, points and samples; Words (the words of a
--               power), Acquired, Delivered, Usable, Silent, Sessions and Restored those on sweeps over
--               the daemon
--   Recognizer  .../recognizer.rs: Messages, Checks (validate_request, validate_output,
--               validate_response), Adapter (the replay adapter and UnixRecognizerAdapter); Requests,
--               Outputs, Answers, Spooled (the spool file), Asked (the exchange) and Classified have the
--               proofs
--   Controller  .../lib.rs and planner.rs: Controller::decide, with its proofs in Decided; Worker
--               (UnixPlannerAdapter), with its proofs in Exchanged
--   Runner      .../runner.rs: Audit (events and sinks), State (the runner's state and its monad),
--               Sweeps (execute_sweep), Once (run_once in its phases), Journal (JsonlAuditAdapter);
--               Called (what an execution calls), Safety and Allowed have the proofs on calls, Entries,
--               Responded, Prepared, Ran and Trail those on the audit, and Surveys those on survey plans; Captured
--               carries what an executor promises over to the runner, and Devices does that for the
--               daemon's executor
--   Tests       concrete runs, and instances of the theorems
--
-- How state and effects are modelled:
--   - A method that changes `self` takes the record and returns the new one, with its result. The
--     methods of the runner are actions of a state and error monad that keeps the state on an error,
--     as the source does.
--   - The traits SdrEngine, Planner, SdrActionExecutor, SweepBackend and AuditSink are records of
--     operations over a state of any type, and so is the clock: what theorems say of the runner holds
--     for every implementation of them. The replay adapters of the source are instances.
--   - serde_json::Value is a type parameter V. An audit event has, in place of the JSON value, the data
--     that the source makes the value of.
--   - Machine integers are native numbers. Arithmetic that the source checks or saturates is checked or
--     saturated at 2 ^ 64 - 1 (2 ^ 8 - 1 for the step and retry counters).
--   - An f32 is its bit pattern. Comparisons and finiteness are computed from the fields of the
--     pattern; sum and difference are the parameter FloatOps.
--   - A string's length is its number of UTF-8 bytes; predicates on characters are written out by code
--     point.
--   - The loop of expand_centers counts down the centers that may still follow, from 768, where the
--     source counts those it has: it stops at the same center, with the same result. Decimal printing
--     has fuel for 20 digits, and a u64 has at most 20.
--   - The bytes of captured samples are lists of numbers below 256, and the 16-bit parts of a sample
--     are words in two's complement.
--   - The measured time of a sweep is read from the backend's state after it has run.
--   - What the sources ask of std and serde_json is a record of operations over a state of any type: the
--     TCP stream, the Unix sockets, the files, the clock, and the JSON library. An error of theirs is its
--     text. Theorems hold for every instance. The arithmetic in f64 of u96_power_dbfs is a parameter.
--   - The adapters over the daemon take a Wire, of which SdrdWire over a stream is an instance. A command
--     is its name and its arguments as text; the answer is a JSON value, which a response's shape reads.
--     Fields of a response that are never read are left out.
--   - A closure with the clean-up after it is the monadic action of its commands, with the clean-up where
--     one fails; the flag session_started is the argument of the clean-up. A SigmfWriter is dropped where
--     its scope fails.
--   - The observations after an execution are a recursion on the retries left, from 20, as many as the
--     source allows. Timeouts are whole milliseconds. The nanoseconds in a file name are printed with
--     fuel for 39 digits, which are those of a u128.
--
-- Not modelled: the command line, the operator console and the web console (terminal and HTTP input and
-- output around the parts above), the workers in other languages, the FPGA and FFT aggregation
-- (raspberry-pi/p201pro-rust), and the daemon sdrd itself.
pub mod Base
pub mod Protocol
pub mod Policy
pub mod Autonomy
pub mod Sdr
pub mod Execution
pub mod Sweep
pub mod Recognizer
pub mod Controller
pub mod Runner
pub mod Tests
