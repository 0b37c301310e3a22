-- ===== src/Runner.antt =====
-- The runner of one request (raspberry-pi/sdr-agent/controller/src/runner.rs): `Audit` has the
-- events and their sinks, `State` the runner and the monad of its methods, `Sweeps` the execution
-- of a sweep, `Once` the whole run and `Journal` the sink that writes to a file.
mod Audit
mod State
mod Sweeps
mod Once
pub mod Journal
pub mod Captured
pub mod Devices
pub mod Called
pub mod Safety
pub mod Entries
pub mod Responded
pub mod Prepared
pub mod Ran
pub mod Trail
pub mod Allowed
pub mod Surveys
unfoldable pub use Audit.*
unfoldable pub use State.*
unfoldable pub use Sweeps.*
unfoldable pub use Once.*
