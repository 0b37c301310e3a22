-- ===== src/Execution/Granted.antt =====
-- What `validate_authorization` admits, and the executor that replays.
use sdr_pi.Base.{
  ◌≡◌, ◌↔◌, inl, inr, ◌∙◌, ap, sym, true, false, [], ◌∷◌, ok, err, arith, Result-cases, Bool-cases,
}
use sdr_pi.Protocol.{ValidatedPlan}
use sdr_pi.Execution.Authorization.{
  ExecutionAuthorization, ExecutionObservation, automatic, validate_authorization,
}
use sdr_pi.Execution.Replay.{Queue, pop_execution, replay_execute}

-- An authorization of the plan, by an operator if the plan wants one.
pub record Authorizes (plan : ValidatedPlan) (a : ExecutionAuthorization) : Type 0 where
  pub same_request : a.request_id ≡ plan.request_id
  pub same_session : a.session_generation ≡ plan.session_generation
  pub approved : plan.approval_required ≡ true → a.operator_approved ≡ true

module _ {V : Type 0} where
  -- An authorization is accepted exactly when it names the plan's request and session, and an
  -- operator approved it if the plan wants approval.
  pub validate_authorization_iff :
      (plan : ValidatedPlan) (a : ExecutionAuthorization)
      → (validate_authorization {V = V} plan a ≡ ok tt) ↔ Authorizes plan a
  unfolding validate_authorization
  validate_authorization_iff plan a = (
    λ h. record {
      same_request = ground arith;
      same_session = ground arith;
      approved = λ q. ground arith;
    },
    λ h. elim (Bool-cases plan.approval_required) [
      | inl q ↦ ground (arith, h.same_request, h.same_session, h.approved q)
      | inr q ↦ ground (arith, h.same_request, h.same_session)
    ],
  )

  -- An automatic authorization is granted exactly to a plan that wants no approval, and it
  -- authorizes that plan; that of an operator authorizes every plan.
  pub automatic_iff :
      (plan : ValidatedPlan) (a : ExecutionAuthorization)
      → (automatic {V = V} plan ≡ ok a)
        ↔ (plan.approval_required ≡ false) × (a.operator_approved ≡ false) × Authorizes plan a
  unfolding automatic
  automatic_iff plan a = (
    λ h. (
      ground arith,
      ground arith,
      record {
        same_request = ground arith;
        same_session = ground arith;
        approved = λ q. ground arith;
      },
    ),
    λ h. ground (arith, h.2.same_request, h.2.same_session),
  )

  pop_execution-correlated :
      (plan : ValidatedPlan) (queue : Queue V) (o : ExecutionObservation)
      → (pop_execution plan queue).0 ≡ ok o
      → (o.request_id ≡ plan.request_id)
        × (o.session_generation ≡ plan.session_generation)
        × (queue ≡ ok o ∷ (pop_execution plan queue).1)
  pop_execution-correlated plan [] o h = absurd (ground arith)
  pop_execution-correlated plan (err e ∷ rest) o h = absurd (ground arith)
  pop_execution-correlated plan (ok x ∷ rest) o h = (ground arith, ground arith, ground arith)

  -- The replaying executor gives an observation only for an authorization of the plan, only the one
  -- at the head of its queue, and only if that is of the plan's request and session; the queue
  -- loses its head.
  pub replay_execute-Authorizes :
      (plan : ValidatedPlan) (a : ExecutionAuthorization) (queue : Queue V)
      (o : ExecutionObservation)
      → (replay_execute plan a queue).0 ≡ ok o
      → Authorizes plan a
        × (o.request_id ≡ plan.request_id)
        × (o.session_generation ≡ plan.session_generation)
        × (queue ≡ ok o ∷ (replay_execute plan a queue).1)
  replay_execute-Authorizes plan a queue o h =
      elim (Result-cases (validate_authorization {V = V} plan a)) [
        | inr (e, refused) ↦ absurd (ground (arith, refused))
        | inl (_, granted) ↦
            let popped : (pop_execution plan queue).0 ≡ ok o = ground (arith, granted) in
            let rest : (replay_execute plan a queue).1 ≡ (pop_execution plan queue).1 =
              ground (arith, granted) in
            let p = pop_execution-correlated plan queue o popped in
            (
              (validate_authorization_iff plan a).0 granted,
              p.0,
              p.1,
              p.2 ∙ ap (λ (q : Queue V). ok o ∷ q) (sym rest),
            )
      ]
