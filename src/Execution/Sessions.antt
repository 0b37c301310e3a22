-- ===== src/Execution/Sessions.antt =====
-- The commands of an execution, over a connection that records them: what a session sends, in which
-- order, and how it is closed where it fails.
use sdr_pi.Base.{
  ℕ, zero, suc, ◌≡◌, ◌⊎◌, inl, inr, List, [], ◌∷◌, ◌++◌, Result, ok, err, arith, Result-cases,
  decimal,
}
use sdr_pi.Sdr.{SdrError}
use sdr_pi.Sdr.Wire.{Wire}
use sdr_pi.Sdr.Recorded.{WireEvent, sent, recorded, told, Within}
use sdr_pi.Execution.Responses.{ExecuteShapes}
use sdr_pi.Execution.Adapter.{
  Capture, profile_arguments, capture_arguments, start_session, capture_in_session, apply_profile,
  capture_iq, confirm_status, stop_session, quit_session, clean_up, run_session,
}

-- The commands of a session, in order.
abbrev pub script : Capture → List WireEvent
script c =
    sent "START_SESSION" (decimal c.generation)
    ∷ sent "APPLY_PROFILE" (profile_arguments c)
    ∷ sent "CAPTURE_IQ" (capture_arguments c)
    ∷ sent "EXECUTION_STATUS" (decimal c.generation)
    ∷ sent "STOP_SESSION" (decimal c.generation)
    ∷ sent "QUIT" ""
    ∷ []

-- The commands that close a session whose `k`-th command failed, the newest first: it is stopped if
-- its start was confirmed and its stop was not.
abbrev pub closing : Capture → ℕ → List WireEvent
closing c (suc zero) = sent "QUIT" "" ∷ []
closing c (suc (suc (suc (suc (suc (suc k)))))) = sent "QUIT" "" ∷ []
closing c k = sent "QUIT" "" ∷ sent "STOP_SESSION" (decimal c.generation) ∷ []

-- the trail that is left if one of the `n` commands from the `k`-th on failed and the session was
-- closed
abbrev pub ClosedAfter : Capture → ℕ → ℕ → List WireEvent → List WireEvent → Type 0
ClosedAfter c k zero before trail = ⊥
ClosedAfter c k (suc n) before trail =
    (trail ≡ closing c k ++ told k (script c) before) ⊎ ClosedAfter c (suc k) n before trail

abbrev pub Closed :
    {V X N : Type 0}
    → Capture
    → List WireEvent
    → Result (SdrError V) X × (N × List WireEvent)
    → Type 0
Closed c before (ok x, s) = s.1 ≡ told 6 (script c) before
Closed c before (err e, s) = ClosedAfter c 1 6 before s.1

module _ {V N : Type 0} (wire : Wire V N) (shapes : ExecuteShapes V) where
  start_session-Within :
      (c : Capture) (s : N × List WireEvent)
      → Within (script c) 0 1 s.1 (start_session (recorded wire) shapes c.generation s)
  unfolding start_session
  start_session-Within c s = ground arith

  capture_in_session-Within :
      (c : Capture) (s : N × List WireEvent) (before : List WireEvent)
      → s.1 ≡ told 1 (script c) before
      → Within (script c) 1 4 before (capture_in_session (recorded wire) shapes c s)
  unfolding capture_in_session apply_profile capture_iq confirm_status stop_session
  capture_in_session-Within c s before h = ground arith

  quit_session-Within :
      (c : Capture) (s : N × List WireEvent) (before : List WireEvent)
      → s.1 ≡ told 5 (script c) before
      → Within (script c) 5 1 before (quit_session (recorded wire) shapes s)
  unfolding quit_session
  quit_session-Within c s before h = ground arith

  pub run_session-Closed :
      (c : Capture) (s : N × List WireEvent) → Closed c s.1 (run_session (recorded wire) shapes c s)
  unfolding run_session clean_up
  run_session-Closed c s =
      let started = start_session (recorded wire) shapes c.generation s in
      let captured = capture_in_session (recorded wire) shapes c started.1 in
      let quit = quit_session (recorded wire) shapes captured.1 in
      elim (Result-cases started.0) [
        | inr (e, p) ↦ ground (arith, p, start_session-Within c s)
        | inl (_, p) ↦
            let begun : started.1.1 ≡ told 1 (script c) s.1 =
              ground (arith, p, start_session-Within c s) in
            let within = capture_in_session-Within c started.1 s.1 begun in
            elim (Result-cases captured.0) [
              | inr (e, q) ↦ ground (arith, p, q, within)
              | inl (response, q) ↦
                  let stopped : captured.1.1 ≡ told 5 (script c) s.1 = ground (arith, q, within) in
                  ground (arith, p, q, quit_session-Within c captured.1 s.1 stopped)
            ]
      ]
