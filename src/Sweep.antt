-- ===== src/Sweep.antt =====
-- The frequency sweep (raspberry-pi/sdr-agent/controller/src/sweep.rs): `Plan` has the plans and
-- reports, `Centers` and `Validate` the validation of a plan, `Points` that of measured points,
-- `Merge` the candidates, `Report` the observations for the planner, `Engine` the engine, `Base64`
-- the decoding of samples, `Responses` and `Adapter` the sweep over the SDRD daemon, `Sigmf` its
-- recording.
mod Plan
mod Centers
mod Validate
mod Points
mod Merge
mod Report
mod Engine
pub mod Grid
pub mod Accepted
pub mod Complete
pub mod Contract
pub mod Runs
pub mod Merged
pub mod Median
pub mod Inspected
mod Base64
mod Power
pub mod Responses
pub mod Sigmf
pub mod Adapter
pub mod Words
pub mod Acquired
pub mod Delivered
pub mod Usable
pub mod Silent
pub mod Sessions
pub mod Restored
pub mod Summed
pub mod Encoded
unfoldable pub use Plan.*
unfoldable pub use Centers.*
unfoldable pub use Validate.*
unfoldable pub use Points.*
unfoldable pub use Merge.*
unfoldable pub use Report.*
unfoldable pub use Power.*
unfoldable pub use Base64.{base64_value, decode_block, decode_blocks, decode_base64}
unfoldable pub use Engine.*
