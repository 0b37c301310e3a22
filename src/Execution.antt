-- ===== src/Execution.antt =====
-- The execution of a capture (raspberry-pi/sdr-agent/controller/src/execution.rs): `Authorization` and
-- `Replay` have the interface and the adapter that replays, `Responses` and `Adapter` the one that asks
-- the SDRD daemon.
mod Authorization
mod Replay
pub mod Responses
pub mod Adapter
pub mod Sessions
pub mod Executed
pub mod Contract
pub mod Fulfilled
pub mod Granted
unfoldable pub use Authorization.*
unfoldable pub use Replay.*
