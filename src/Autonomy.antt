-- ===== src/Autonomy.antt =====
-- The control of an automatic cruise (raspberry-pi/sdr-agent/controller/src/autonomy.rs): `Labels`
-- has the enumerations, `Cruise` the state and its operations, `Events` the operations as events.
mod Labels
mod Cruise
mod Events
pub mod Invariant
pub mod Budgets
unfoldable pub use Labels.*
unfoldable pub use Cruise.*
unfoldable pub use Events.*
