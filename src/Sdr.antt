-- ===== src/Sdr.antt =====
-- The SDR engine (raspberry-pi/sdr-agent/controller/src/sdr.rs): the observation of the radio and
-- its errors, and the connection to the SDRD daemon. `serde_json::Value` is the type parameter `V`.
mod Snapshot
pub mod Wire
pub mod Socket
pub mod Observe
pub mod Observed
pub mod Recorded
pub mod Framed
pub use Snapshot.*
