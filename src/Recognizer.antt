-- ===== src/Recognizer.antt =====
-- The local recognizer (raspberry-pi/sdr-agent/controller/src/recognizer.rs): `Messages` has its
-- messages, `Checks` their validation, `Adapter` the adapters that replay and that ask a worker.
mod Messages
mod Checks
mod Adapter
pub mod Requests
pub mod Outputs
pub mod Answers
pub mod Spooled
pub mod Asked
pub mod Classified
pub use Messages.*
unfoldable pub use Checks.*
unfoldable pub use Adapter.*
