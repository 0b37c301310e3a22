-- ===== src/Controller.antt =====
-- The controller (raspberry-pi/sdr-agent/controller/src/lib.rs and planner.rs): `Worker` asks a planner
-- over a socket.
pub mod Decided
pub mod Worker
pub mod Exchanged
use sdr_pi.Base.{String, Result, ok, err, map_err, ℕ}
use sdr_pi.Protocol.{PlanRequest, PlanResponse, ValidatedPlan}
use sdr_pi.Policy.{PolicyError, validate_request, validate_response}

pub record PlannerError : Type 0 where
  pub kind : String
  pub message : String

-- The trait `Planner`: a planner whose state is a `P`.
pub record Planner (P : Type 0) : Type 0 where
  pub plan : PlanRequest → P → Result PlannerError PlanResponse × P

pub data ControllerError : Type 0 where
  planner : PlannerError → ControllerError
  policy : PolicyError → ControllerError

module _ {P : Type 0} (p : Planner P) where
  abbrev pub decide_response :
      PlanRequest → Result PlannerError PlanResponse → Result ControllerError ValidatedPlan
  decide_response request (ok response) =
      map_err ControllerError.policy (validate_response request response)
  decide_response request (err e) = err (ControllerError.planner e)

  -- `Controller::decide`
  unfoldable pub decide : PlanRequest → P → Result ControllerError ValidatedPlan × P
  decide request s = elim (validate_request request) [
    | err e ↦ (err (ControllerError.policy e), s)
    | ok _ ↦ let (planned, s') = p.plan request s in (decide_response request planned, s')
  ]
