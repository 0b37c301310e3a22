-- ===== src/Sweep/Restored.antt =====
-- The trail of a whole sweep: its session is stopped and its connection closed, however it ends.
use sdr_pi.Base.{
  ℕ, ◌≡◌, refl, sym, ap, ◌∙◌, ◌⊎◌, inl, inr, String, Option, some, none, List, ◌∷◌, Result, ok, err,
  arith, Result-cases, Bool-cases, decimal, ◌≢◌, true, false, ◌==◌,
}
use mathlib.Core.Path.{subst}
use sdr_pi.Sdr.Wire.{Wire}
use sdr_pi.Sdr.Recorded.{
  WireEvent, sent, recorded, told, LastOf, Leaves, done, failed, Leaves-done, Leaves-failed,
}
use sdr_pi.Execution.Executed.{opening}
use sdr_pi.Sweep.Plan.{ValidatedSweepPlan, SweepError, from_sdr_error}
use sdr_pi.Sweep.Responses.{SweepShapes, StartResponse, is_unarmed}
use sdr_pi.Sweep.Sigmf.{Files, SigmfWriter, discard}
use sdr_pi.Sweep.Silent.{beside, open_sigmf-silent, finish_sigmf-silent, or_discard-silent}
use sdr_pi.Sweep.Sessions.{
  visited, Measures, nothing, event, measure_points-Visited, visited-Measures,
}
use sdr_pi.Sweep.Adapter.{
  PowerDbfs, ask, check_endpoint, start_session, stop_session, quit_session, clean_up,
  measure_points, open_sigmf, measure_and_stop, sweep_in_session, close_sweep, run_session,
  run_sdrd_points,
}

abbrev pub start_event : ValidatedSweepPlan → WireEvent
start_event plan = sent "START_SESSION" (decimal plan.session_generation)

abbrev pub stop_event : ValidatedSweepPlan → WireEvent
stop_event plan = sent "STOP_SESSION" (decimal plan.session_generation)

-- The trail of a sweep that is closed after a session over what was before: it is complete.
abbrev pub completed : ValidatedSweepPlan → List WireEvent → List WireEvent
completed plan opened =
    sent "QUIT" "" ∷ stop_event plan ∷ visited plan 0 plan.centers_hz (start_event plan ∷ opened)

-- an opening that was refused, once it was connected
abbrev pub Refused : ℕ → List WireEvent → List WireEvent → Type 0
Refused timeout before t =
    LastOf (opening timeout) 2 2 before t ⊎ (t ≡ sent "QUIT" "" ∷ told 3 (opening timeout) before)

-- The start of a session, from a state of the connection, was not confirmed: the command failed, or
-- its answer is of another generation or has no restoration armed.
abbrev pub Unconfirmed : {V M : Type 0} → Wire V M → SweepShapes V → ValidatedSweepPlan → M → Type 0
Unconfirmed {V} wire shapes plan m =
    let answer = ask wire shapes shapes.start "START_SESSION" (decimal plan.session_generation) m in
    ((e : SweepError V) × (answer.0 ≡ err e))
    ⊎ ((start : StartResponse) × (answer.0 ≡ ok start)
        × ((start.generation ≢ plan.session_generation)
            ⊎ (start.session_generation ≢ plan.session_generation)
            ⊎ (start.restore_armed ≡ false)))

-- A session that failed, over what was before its start: the start was not confirmed, or the session
-- was stopped after some of its events, or it is complete and its connection or its recording could
-- not be closed.
abbrev pub AbortedSession : Type 0 → ValidatedSweepPlan → List WireEvent → List WireEvent → Type 0
AbortedSession NotStarted plan opened t =
    NotStarted × (t ≡ sent "QUIT" "" ∷ start_event plan ∷ opened)
    ⊎ ((partial : List WireEvent) × Measures (start_event plan ∷ opened) partial
        × (t ≡ sent "QUIT" "" ∷ stop_event plan ∷ partial))
    ⊎ (t ≡ sent "QUIT" "" ∷ completed plan opened)

-- The trail that a sweep leaves over what was before; `NotStarted` says that its start was not
-- confirmed.
abbrev pub SweepTraced :
    {V X N : Type 0}
    → Type 0
    → ValidatedSweepPlan
    → ℕ
    → List WireEvent
    → Result (SweepError V) X × (N × List WireEvent)
    → Type 0
SweepTraced NotStarted plan timeout before =
    let opened = told 3 (opening timeout) before in
    Leaves (λ t. t ≡ completed plan opened)
      (λ t.
        (t ≡ told 1 (opening timeout) before)
        ⊎ Refused timeout before t
        ⊎ AbortedSession NotStarted plan opened t)

-- what the session leaves after its start
abbrev Swept :
    {V X N : Type 0}
    → ValidatedSweepPlan
    → List WireEvent
    → Result (SweepError V) X × (N × List WireEvent)
    → Type 0
Swept plan before =
    Leaves (λ t. t ≡ stop_event plan ∷ visited plan 0 plan.centers_hz before) (Measures before)

-- what the opening leaves once it is connected
abbrev Opened :
    {V X N : Type 0} → ℕ → List WireEvent → Result (SweepError V) X × (N × List WireEvent) → Type 0
Opened timeout before (ok x, s) = s.1 ≡ told 3 (opening timeout) before
Opened timeout before (err e, s) = Refused timeout before s.1

Opened-failed :
    {V X N : Type 0} (timeout : ℕ) (before : List WireEvent)
    (outcome : Result (SweepError V) X × (N × List WireEvent)) (e : SweepError V)
    → Opened timeout before outcome
    → outcome.0 ≡ err e
    → Refused timeout before outcome.1.1
Opened-failed timeout before (ok x, s) e h p = absurd (ground (arith, p))
Opened-failed timeout before (err e', s) e h p = h

is_unarmed-why :
    (start : StartResponse) (generation : ℕ)
    → is_unarmed start generation ≡ true
    → (start.generation ≢ generation)
      ⊎ (start.session_generation ≢ generation)
      ⊎ (start.restore_armed ≡ false)
is_unarmed-why start generation h = elim (Bool-cases (start.generation == generation)) [
  | inr other ↦ inl (λ same. absurd (ground (arith, other, same)))
  | inl own ↦ elim (Bool-cases (start.session_generation == generation)) [
    | inr other ↦ inr (inl (λ same. absurd (ground (arith, other, same))))
    | inl kept ↦ inr (inr (ground (arith, h, own, kept)))
  ]
]

module _ {V N : Type 0} (wire : Wire V N) (shapes : SweepShapes V) where
  check_endpoint-Opened :
      (timeout : ℕ) (before : List WireEvent) (s : N × List WireEvent)
      → s.1 ≡ told 1 (opening timeout) before
      → Opened timeout before (check_endpoint (recorded wire) shapes s)
  unfolding check_endpoint
  check_endpoint-Opened timeout before s h = ground arith

  start_session-sent :
      (plan : ValidatedSweepPlan) (s : N × List WireEvent)
      → (start_session (recorded wire) shapes plan.session_generation s).1.1
        ≡ start_event plan ∷ s.1
  unfolding start_session
  start_session-sent plan s = ground arith

  start_session-Unconfirmed :
      (plan : ValidatedSweepPlan) (s : N × List WireEvent) (e : SweepError V)
      → (start_session (recorded wire) shapes plan.session_generation s).0 ≡ err e
      → Unconfirmed (recorded wire) shapes plan s
  unfolding start_session
  start_session-Unconfirmed plan s e h =
      let generation = plan.session_generation in
      let answer = ask (recorded wire) shapes shapes.start "START_SESSION" (decimal generation) s in
      elim (Result-cases answer.0) [
        | inr (x, p) ↦ inl (x, p)
        | inl (start, p) ↦
            let refused : is_unarmed start generation ≡ true = ground (arith, p) in
            inr (start, p, is_unarmed-why start generation refused)
      ]

  stop_session-sent :
      (plan : ValidatedSweepPlan) (s : N × List WireEvent)
      → (stop_session (recorded wire) shapes plan.session_generation s).1.1 ≡ stop_event plan ∷ s.1
  unfolding stop_session
  stop_session-sent plan s = ground arith

  quit_session-sent :
      (s : N × List WireEvent) → (quit_session (recorded wire) shapes s).1.1 ≡ sent "QUIT" "" ∷ s.1
  unfolding quit_session
  quit_session-sent s = ground arith

module _ {V N : Type 0} (wire : Wire V N) (shapes : SweepShapes V) (files : Files N)
    (dbfs : PowerDbfs) (plan : ValidatedSweepPlan) where
  measure_and_stop-Swept :
      (sigmf : Option SigmfWriter) (s : N × List WireEvent)
      → Swept plan s.1 (measure_and_stop (recorded wire) shapes (beside files) dbfs plan sigmf s)
  unfolding measure_and_stop
  measure_and_stop-Swept sigmf s =
      let swept =
        measure_points (recorded wire) shapes (beside files) dbfs plan sigmf 0 plan.centers_hz s in
      let all = measure_and_stop (recorded wire) shapes (beside files) dbfs plan sigmf s in
      let visits = measure_points-Visited wire shapes files dbfs plan sigmf 0 plan.centers_hz s in
      let stopped = stop_session-sent wire shapes plan swept.1 in
      elim (Result-cases swept.0) [
        | inr (e, a) ↦
            let same : all.1.1 ≡ swept.1.1 = ground (arith, a) in
            failed e (ground (arith, a)) (subst (Measures s.1) (sym same) (Leaves-failed visits a))
        | inl (x, a) ↦
            let shown = Leaves-done visits a in
            let ended : all.1.1 ≡ stop_event plan ∷ visited plan 0 plan.centers_hz s.1 =
              ground (arith, a, stopped, shown) in
            elim (Result-cases all.0) [
              | inl (y, b) ↦ done y b ended
              | inr (e, b) ↦ failed e b (
                  subst (Measures s.1) (sym ended)
                    (event (stop_event plan) refl (visited-Measures plan 0 plan.centers_hz s.1)))
            ]
      ]

  sweep_in_session-Swept :
      (directory : Option String) (s : N × List WireEvent)
      → Swept plan s.1
          (sweep_in_session (recorded wire) shapes (beside files) dbfs plan directory s)
  unfolding sweep_in_session
  sweep_in_session-Swept directory s =
      let opened = open_sigmf {V = V} (beside files) plan directory s in
      let silent = open_sigmf-silent V files plan directory s in
      let all = sweep_in_session (recorded wire) shapes (beside files) dbfs plan directory s in
      elim (Result-cases opened.0) [
        | inr (e, a) ↦
            let same : all.1.1 ≡ s.1 = ground (arith, a, silent) in
            failed e (ground (arith, a)) (subst (Measures s.1) (sym same) nothing)
        | inl (sigmf, a) ↦
            let body = measure_and_stop (recorded wire) shapes (beside files) dbfs plan sigmf in
            let inner = body opened.1 in
            let kept = or_discard-silent V files sigmf body opened.1 in
            let result : all.0 ≡ inner.0 = ground (arith, a, kept) in
            let trail : all.1.1 ≡ inner.1.1 = ground (arith, a, kept) in
            let swept =
              subst (λ b. Swept plan b inner) silent (measure_and_stop-Swept sigmf opened.1) in
            elim (Result-cases inner.0) [
              | inl (x, b) ↦ done x (result ∙ b) (trail ∙ Leaves-done swept b)
              | inr (e, b) ↦
                  failed e (result ∙ b) (subst (Measures s.1) (sym trail) (Leaves-failed swept b))
            ]
      ]

  close_sweep-sent :
      (sigmf : Option SigmfWriter) (s : N × List WireEvent)
      → (close_sweep (recorded wire) shapes (beside files) dbfs plan sigmf s).1.1
        ≡ sent "QUIT" "" ∷ s.1
  unfolding close_sweep discard
  close_sweep-sent none s =
      let quit = quit_session (recorded wire) shapes s in
      ground (arith, quit_session-sent wire shapes s, finish_sigmf-silent V files none quit.1)
  close_sweep-sent (some writer) s =
      let quit = quit_session (recorded wire) shapes s in
      ground
        (arith, quit_session-sent wire shapes s, finish_sigmf-silent V files (some writer) quit.1)

  run_session-Leaves :
      (directory : Option String) (s : N × List WireEvent)
      → Leaves
          (λ t. t ≡ completed plan s.1)
          (AbortedSession (Unconfirmed (recorded wire) shapes plan s) plan s.1)
          (run_session (recorded wire) shapes (beside files) dbfs plan directory s)
  unfolding run_session clean_up
  run_session-Leaves directory s =
      let all = run_session (recorded wire) shapes (beside files) dbfs plan directory s in
      let started = start_session (recorded wire) shapes plan.session_generation s in
      let start = start_session-sent wire shapes plan s in
      let swept =
        sweep_in_session (recorded wire) shapes (beside files) dbfs plan directory started.1 in
      let leaves =
        subst (λ t. Swept plan t swept) start (sweep_in_session-Swept directory started.1) in
      elim (Result-cases started.0) [
        | inr (e, c) ↦
            let trail : all.1.1 ≡ sent "QUIT" "" ∷ started.1.1 = ground (arith, c) in
            failed e (ground (arith, c)) (
              inl (
                start_session-Unconfirmed wire shapes plan s e c,
                trail ∙ ap (λ t. sent "QUIT" "" ∷ t) start,
              ))
        | inl (_, c) ↦ elim (Result-cases swept.0) [
          | inr (e, d) ↦
              let trail : all.1.1 ≡ sent "QUIT" "" ∷ stop_event plan ∷ swept.1.1 =
                ground (arith, c, d) in
              failed e (ground (arith, c, d)) (inr (inl (swept.1.1, Leaves-failed leaves d, trail)))
          | inl ((ps, w), d) ↦
              let closed = close_sweep (recorded wire) shapes (beside files) dbfs plan w swept.1 in
              let ended : closed.1.1 ≡ completed plan s.1 =
                close_sweep-sent w swept.1 ∙ ap (λ t. sent "QUIT" "" ∷ t) (Leaves-done leaves d) in
              elim (Result-cases closed.0) [
                | inr (e, f) ↦
                    let trail : all.1.1 ≡ sent "QUIT" "" ∷ closed.1.1 = ground (arith, c, d, f) in
                    failed e (ground (arith, c, d, f))
                      (inr (inr (trail ∙ ap (λ t. sent "QUIT" "" ∷ t) ended)))
                | inl (dataset, f) ↦
                    let trail : all.1.1 ≡ closed.1.1 = ground (arith, c, d, f) in
                    done
                      (record {
                        backend = "agx_iq_software_aggregate";
                        backend_version = 1;
                        points = ps;
                        dataset = dataset;
                      })
                      (ground (arith, c, d, f)) (trail ∙ ended)
              ]
        ]
      ]

  -- A sweep that succeeds has tuned and captured each center once, in order, in one session that was
  -- stopped before the connection was closed. A sweep that fails has sent nothing but queries, or sent
  -- the start of the session after the queries and closed the connection: at once only if the start
  -- was not confirmed, that is, its command failed or its answer is of another generation or has no
  -- restoration armed, and else after it stopped the session.
  pub run_sdrd_points-SweepTraced :
      (timeout : ℕ) (directory : Option String) (s : N × List WireEvent)
      → SweepTraced
          (Unconfirmed
            (recorded wire)
            shapes
            plan
            (check_endpoint (recorded wire) shapes ((recorded wire).connect timeout s).1).1)
          plan
          timeout
          s.1
          (run_sdrd_points (recorded wire) shapes (beside files) dbfs plan timeout directory s)
  unfolding run_sdrd_points
  run_sdrd_points-SweepTraced timeout directory s =
      let all =
        run_sdrd_points (recorded wire) shapes (beside files) dbfs plan timeout directory s in
      let joined = (recorded wire).connect timeout s in
      let checked = check_endpoint (recorded wire) shapes joined.1 in
      let opened = check_endpoint-Opened wire shapes timeout s.1 joined.1 refl in
      let NotStarted = Unconfirmed (recorded wire) shapes plan checked.1 in
      let session =
        run_session (recorded wire) shapes (beside files) dbfs plan directory checked.1 in
      elim (Result-cases joined.0) [
        | inr (e, a) ↦
            let trail : all.1.1 ≡ told 1 (opening timeout) s.1 = ground (arith, a) in
            failed (from_sdr_error e) (ground (arith, a)) (inl trail)
        | inl (_, a) ↦ elim (Result-cases checked.0) [
          | inr (e, b) ↦
              let trail : all.1.1 ≡ checked.1.1 = ground (arith, a, b) in
              failed e (ground (arith, a, b)) (
                inr (
                  inl (
                    subst (Refused timeout s.1) (sym trail)
                      (Opened-failed timeout s.1 checked e opened b))))
          | inl (_, b) ↦
              let tuned : checked.1.1 ≡ told 3 (opening timeout) s.1 = ground (arith, b, opened) in
              let leaves =
                subst
                  (λ o.
                    Leaves (λ t. t ≡ completed plan o) (AbortedSession NotStarted plan o) session)
                  tuned (run_session-Leaves directory checked.1) in
              let trail : all.1.1 ≡ session.1.1 = ground (arith, a, b) in
              let result : all.0 ≡ session.0 = ground (arith, a, b) in
              elim (Result-cases session.0) [
                | inl (x, c) ↦ done x (result ∙ c) (trail ∙ Leaves-done leaves c)
                | inr (e, c) ↦ failed e (result ∙ c) (
                    inr (
                      inr (
                        subst (AbortedSession NotStarted plan (told 3 (opening timeout) s.1))
                          (sym trail) (Leaves-failed leaves c))))
              ]
        ]
      ]
