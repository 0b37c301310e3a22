-- ===== src/Sweep/Inspected.antt =====
-- What `planner_inspection_observation` changes in the observation.
use sdr_pi.Base.{
  ℕ, ◌≡◌, ◌⊎◌, inl, inr, ◌∙◌, refl, ap, String, FloatOps, some, none, List, [], ◌∷◌, map, ok, arith,
  ◌=s◌, Bool-cases, Option-cases, eq_iff, ◌≢◌, ◌≤◌, ◌<◌, ◌+◌, leb, max_f32, zero_f32,
}
use sdr_pi.Protocol.{CandidateSummary, HealthSummary, ObservationSummary}
use sdr_pi.Policy.Candidates.{id_of}
use sdr_pi.Sweep.Plan.{SweepPoint, SweepReport}
use mathlib.Core.Path.{subst}
use sdr_pi.Sweep.Report.{
  age, refresh, refresh_first, inspect_points, planner_inspection_observation,
}

-- A candidate that only got older, by a time that is added up to the largest number of 64 bits.
pub record Aged (elapsed : ℕ) (c d : CandidateSummary) : Type 0 where
  pub same_id : d.id ≡ c.id
  pub same_center : d.center_hz ≡ c.center_hz
  pub same_width : d.bandwidth_hz ≡ c.bandwidth_hz
  pub same_peak : d.peak_dbfs ≡ c.peak_dbfs
  pub same_snr : d.snr_db ≡ c.snr_db
  pub older :
      ((c.age_ms + elapsed ≤ 18446744073709551615) × (d.age_ms ≡ c.age_ms + elapsed))
      ⊎ ((18446744073709551615 < c.age_ms + elapsed) × (d.age_ms ≡ 18446744073709551615))

age-Aged : (elapsed : ℕ) (c : CandidateSummary) → Aged elapsed c (age elapsed c)
age-Aged elapsed c = record {
  same_id = refl;
  same_center = refl;
  same_width = refl;
  same_peak = refl;
  same_snr = refl;
  older = elim (Bool-cases (leb (c.age_ms + elapsed) 18446744073709551615)) [
    | inl fits ↦ inl (ground (arith, fits), ground (arith, fits))
    | inr over ↦ inr (ground (arith, over), ground (arith, over))
  ];
}

-- Candidates that all got older.
abbrev pub AllAged : ℕ → List CandidateSummary → List CandidateSummary → Type 0
AllAged elapsed [] [] = Unit
AllAged elapsed (c ∷ cs) (d ∷ ds) = Aged elapsed c d × AllAged elapsed cs ds
AllAged elapsed _ _ = ⊥

map-AllAged : (elapsed : ℕ) (cs : List CandidateSummary) → AllAged elapsed cs (map (age elapsed) cs)
map-AllAged elapsed [] = tt
map-AllAged elapsed (c ∷ cs) = (age-Aged elapsed c, map-AllAged elapsed cs)

-- A candidate with what a point measured: its frequency, its width, its power, and its distance from
-- the noise that the candidate had stood above, which is not below zero.
pub record Refreshed (f : FloatOps) (p : SweepPoint) (c d : CandidateSummary) : Type 0 where
  pub same_id : d.id ≡ c.id
  pub measured_center : d.center_hz ≡ p.actual_center_hz
  pub measured_width : d.bandwidth_hz ≡ p.rf_bandwidth_hz
  pub measured_peak : d.peak_dbfs ≡ p.band_power_dbfs
  pub above_noise :
      d.snr_db ≡ max_f32 (f.sub p.band_power_dbfs (f.sub c.peak_dbfs c.snr_db)) zero_f32
  pub fresh : d.age_ms ≡ 0

refresh-Refreshed :
    (f : FloatOps) (p : SweepPoint) (elapsed : ℕ) (c : CandidateSummary)
    → Refreshed f p c (refresh f p (age elapsed c))
refresh-Refreshed f p elapsed c = record {
  same_id = refl;
  measured_center = refl;
  measured_width = refl;
  measured_peak = refl;
  above_noise = refl;
  fresh = refl;
}

cons-ids : (a b : String) (xs ys : List String) → a ≡ b → xs ≡ ys → (a ∷ xs) ≡ (b ∷ ys)
cons-ids a b xs ys p q = ap (λ x. x ∷ xs) p ∙ ap (λ zs. b ∷ zs) q

module _ (f : FloatOps) where
  -- The candidates after an inspection: those before the first with the id and those after it are
  -- older by the time of the sweep, and that one carries what was measured.
  abbrev pub Inspected :
      SweepPoint → ℕ → String → List CandidateSummary → List CandidateSummary → Type 0
  Inspected p elapsed id [] after = ⊥
  Inspected p elapsed id (c ∷ cs) [] = ⊥
  Inspected p elapsed id (c ∷ cs) (d ∷ ds) =
      (c.id ≡ id) × Refreshed f p c d × AllAged elapsed cs ds
      ⊎ (c.id ≢ id) × Aged elapsed c d × Inspected p elapsed id cs ds

  refresh_first-Inspected :
      (p : SweepPoint) (elapsed : ℕ) (id : String) (cs ds : List CandidateSummary)
      → refresh_first f p id (map (age elapsed) cs) ≡ some ds
      → Inspected p elapsed id cs ds
  unfolding refresh_first
  refresh_first-Inspected p elapsed id [] ds h = absurd (ground arith)
  refresh_first-Inspected p elapsed id (c ∷ cs) [] h = ground arith
  refresh_first-Inspected p elapsed id (c ∷ cs) (d ∷ ds) h = elim (Bool-cases (c.id =s id)) [
    | inl e ↦
        let written : refresh f p (age elapsed c) ≡ d = ground (arith, e) in
        let kept : map (age elapsed) cs ≡ ds = ground (arith, e) in
        inl (
          (eq_iff c.id id).0 e,
          subst (Refreshed f p c) written (refresh-Refreshed f p elapsed c),
          subst (AllAged elapsed cs) kept (map-AllAged elapsed cs),
        )
    | inr e ↦ elim (Option-cases (refresh_first f p id (map (age elapsed) cs))) [
      | inl missing ↦ absurd (ground arith)
      | inr (rest, found) ↦
          let kept : age elapsed c ≡ d = ground (arith, e, found) in
          inr (
            (λ same. absurd (ground (arith, e, (eq_iff c.id id).1 same))),
            subst (Aged elapsed c) kept (age-Aged elapsed c),
            refresh_first-Inspected p elapsed id cs ds (ground arith),
          )
    ]
  ]

  AllAged-ids :
      (elapsed : ℕ) (cs ds : List CandidateSummary)
      → AllAged elapsed cs ds
      → map id_of ds ≡ map id_of cs
  AllAged-ids elapsed [] [] h = refl
  AllAged-ids elapsed [] (d ∷ ds) h = elim h [ ]
  AllAged-ids elapsed (c ∷ cs) [] h = elim h [ ]
  AllAged-ids elapsed (c ∷ cs) (d ∷ ds) h =
      cons-ids d.id c.id (map id_of ds) (map id_of cs) h.0.same_id (AllAged-ids elapsed cs ds h.1)

  Inspected-ids :
      (p : SweepPoint) (elapsed : ℕ) (id : String) (cs ds : List CandidateSummary)
      → Inspected p elapsed id cs ds
      → map id_of ds ≡ map id_of cs
  Inspected-ids p elapsed id [] ds h = elim h [ ]
  Inspected-ids p elapsed id (c ∷ cs) [] h = elim h [ ]
  Inspected-ids p elapsed id (c ∷ cs) (d ∷ ds) (inl (e, fresh, rest)) =
      cons-ids d.id c.id (map id_of ds) (map id_of cs) fresh.same_id
        (AllAged-ids elapsed cs ds rest)
  Inspected-ids p elapsed id (c ∷ cs) (d ∷ ds) (inr (e, older, rest)) =
      cons-ids d.id c.id (map id_of ds) (map id_of cs) older.same_id
        (Inspected-ids p elapsed id cs ds rest)

  inspect_points-observed :
      {V : Type 0} (report : SweepReport) (ps : List SweepPoint)
      (previous next : ObservationSummary) (id : String) (health : HealthSummary)
      → inspect_points f {V = V} report ps previous id health ≡ ok next
      → (p : SweepPoint) × (ps ≡ p ∷ [])
        × Inspected p report.elapsed_ms id previous.candidates next.candidates
        × (map id_of next.candidates ≡ map id_of previous.candidates)
        × (next.age_ms ≡ 0)
        × (next.health ≡ health)
        × (next.latest_sweep ≡ previous.latest_sweep)
        × (next.recognition ≡ none)
  inspect_points-observed report [] previous next id health h = absurd (ground arith)
  inspect_points-observed report (p ∷ q ∷ ps) previous next id health h = absurd (ground arith)
  inspect_points-observed report (p ∷ []) previous next id health h =
      elim (Option-cases (refresh_first f p id (map (age report.elapsed_ms) previous.candidates))) [
        | inl missing ↦ absurd (ground arith)
        | inr (cs, found) ↦
            let same : cs ≡ next.candidates = ground arith in
            let i =
              refresh_first-Inspected p report.elapsed_ms id previous.candidates next.candidates
                (found ∙ ap some same) in
            (
              p,
              refl,
              i,
              Inspected-ids p report.elapsed_ms id previous.candidates next.candidates i,
              ground arith,
              ground arith,
              ground arith,
              ground arith,
            )
      ]

  -- An inspection that is accepted has measured one point: the first candidate with the inspected id
  -- takes the frequency, the width and the power that were measured, stands above the noise that it
  -- had stood above before, by nothing if it is below, and is of age 0; every other candidate keeps
  -- all but its age, to which the time of the sweep is added, up to the largest number of 64 bits. The
  -- order and the ids stay, the sweep observation is kept, and the recognition is dropped.
  pub inspection_observed :
      {V : Type 0} (report : SweepReport) (previous next : ObservationSummary) (id : String)
      (health : HealthSummary)
      → planner_inspection_observation f {V = V} report previous id health ≡ ok next
      → (p : SweepPoint) × (report.points ≡ p ∷ [])
        × Inspected p report.elapsed_ms id previous.candidates next.candidates
        × (map id_of next.candidates ≡ map id_of previous.candidates)
        × (next.age_ms ≡ 0)
        × (next.health ≡ health)
        × (next.latest_sweep ≡ previous.latest_sweep)
        × (next.recognition ≡ none)
  unfolding planner_inspection_observation
  inspection_observed {V} report previous next id health h =
      inspect_points-observed report report.points previous next id health h
