-- ===== src/Policy.antt =====
-- The controller policy (raspberry-pi/sdr-agent/controller/src/policy.rs): what a request and a
-- planner response must satisfy. `Checks` has the tests on single values, `Request` and `Action`
-- the validation of a request and of a proposed action, `Response` that of a response.
mod Checks
mod Request
mod Action
mod Response
pub mod Bounds
pub mod Survey
pub mod Allowed
pub mod Candidates
pub mod Accepted
pub mod Plans
unfoldable pub use Checks.*
unfoldable pub use Request.*
unfoldable pub use Action.*
unfoldable pub use Response.*
