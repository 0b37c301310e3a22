-- ===== src/Sweep/Runs.antt =====
-- The ranges of active points against the indices that they are made of.
use sdr_pi.Base.{
  ℕ, zero, suc, ◌+◌, ◌-◌, ◌≤◌, ◌<◌, ◌≡◌, ◌==◌, inl, inr, refl, ap, sym, ◌∙◌, true, false, F32,
  FloatOps, List, [], ◌∷◌, ◌++◌, arith, length, take, Bool-cases,
}
use mathlib.Core.Path.{subst}
use sdr_pi.Sweep.Plan.{SweepPoint}
use sdr_pi.Sweep.Merge.{is_active, active_indices, ranges_from, ranges}

-- `k + 1` indices from `i` on
abbrev pub counting : ℕ → ℕ → List ℕ
counting i zero = i ∷ []
counting i (suc k) = i ∷ counting (suc i) k

-- the indices that ranges stand for, in order
abbrev pub indices : List (ℕ × ℕ) → List ℕ
indices [] = []
indices ((start, stop) ∷ rest) = counting start (stop - start) ++ indices rest

-- Ranges from `low` on below `bound`: none is empty, and between two neighbours an index is missing.
abbrev pub Apart : ℕ → ℕ → List (ℕ × ℕ) → Type 0
Apart low bound [] = Unit
Apart low bound ((start, stop) ∷ rest) =
    (low ≤ start) × (start ≤ stop) × (stop < bound) × Apart (suc (suc stop)) bound rest

-- Indices rising from `low` on, below `bound`.
abbrev pub Rising : ℕ → ℕ → List ℕ → Type 0
Rising low bound [] = Unit
Rising low bound (i ∷ rest) = (low ≤ i) × (i < bound) × Rising (suc i) bound rest

counting-last :
    (i k : ℕ) (xs : List ℕ) → counting i (suc k) ++ xs ≡ counting i k ++ (suc (i + k) ∷ xs)
counting-last i zero xs = ap (λ (n : ℕ). i ∷ n ∷ xs) (omega arith)
counting-last i (suc k) xs =
    ap (λ (t : List ℕ). i ∷ t)
      (counting-last (suc i) k xs ∙ ap (λ (n : ℕ). counting (suc i) k ++ (n ∷ xs)) (omega arith))

ranges_from-next :
    (start stop i : ℕ) (rest : List ℕ)
    → (i == stop + 1) ≡ true
    → ranges_from start stop (i ∷ rest) ≡ ranges_from start i rest
unfolding ranges_from
ranges_from-next start stop i rest e = ground arith

ranges_from-gap :
    (start stop i : ℕ) (rest : List ℕ)
    → (i == stop + 1) ≡ false
    → ranges_from start stop (i ∷ rest) ≡ (start, stop) ∷ ranges_from i i rest
unfolding ranges_from
ranges_from-gap start stop i rest e = ground arith

counting-step :
    (start stop i : ℕ) (xs : List ℕ)
    → start ≤ stop
    → i ≡ suc stop
    → counting start (i - start) ++ xs ≡ counting start (stop - start) ++ (i ∷ xs)
counting-step start stop i xs h e =
    let a : i - start ≡ suc (stop - start) = omega arith in
    let b : suc (start + (stop - start)) ≡ i = omega arith in
    ap (λ (n : ℕ). counting start n ++ xs) a
    ∙ counting-last start (stop - start) xs
    ∙ ap (λ (n : ℕ). counting start (stop - start) ++ (n ∷ xs)) b

-- The ranges stand for exactly the indices they are made of, in order.
indices-ranges_from :
    (start stop : ℕ) (xs : List ℕ)
    → start ≤ stop
    → indices (ranges_from start stop xs) ≡ counting start (stop - start) ++ xs
unfolding ranges_from
indices-ranges_from start stop [] h = refl
indices-ranges_from start stop (i ∷ rest) h = elim (Bool-cases (i == stop + 1)) [
  | inl e ↦
      ap indices (ranges_from-next start stop i rest e)
      ∙ indices-ranges_from start i rest (ground arith)
      ∙ counting-step start stop i rest h (ground arith)
  | inr e ↦
      let self : i - i ≡ 0 = omega arith in
      ap indices (ranges_from-gap start stop i rest e)
      ∙ ap (λ (t : List ℕ). counting start (stop - start) ++ t)
          (indices-ranges_from i i rest (omega arith) ∙ ap (λ (n : ℕ). counting i n ++ rest) self)
]

ranges_from-Apart :
    (low bound start stop : ℕ) (xs : List ℕ)
    → low ≤ start
    → start ≤ stop
    → stop < bound
    → Rising (suc stop) bound xs
    → Apart low bound (ranges_from start stop xs)
unfolding ranges_from
ranges_from-Apart low bound start stop [] l h b r = (l, h, b, tt)
ranges_from-Apart low bound start stop (i ∷ rest) l h b r = elim (Bool-cases (i == stop + 1)) [
  | inl e ↦
      subst (Apart low bound) (sym (ranges_from-next start stop i rest e))
        (ranges_from-Apart low bound start i rest l (ground arith) r.1 r.2)
  | inr e ↦ subst (Apart low bound) (sym (ranges_from-gap start stop i rest e)) (
    l,
    h,
    b,
    ranges_from-Apart (suc (suc stop)) bound i i rest (ground (arith, r.0)) (omega arith) r.1 r.2,
  )
]

pub active_indices-Rising :
    (f : FloatOps) (noise threshold : F32) (low index bound : ℕ) (ps : List SweepPoint)
    → low ≤ index
    → index + length ps ≤ bound
    → Rising low bound (active_indices f noise threshold index ps)
unfolding active_indices
active_indices-Rising f noise threshold low index bound [] l b = tt
active_indices-Rising f noise threshold low index bound (p ∷ ps) l b =
    elim (Bool-cases (is_active f noise threshold p)) [
      | inl e ↦ rw e (
        l,
        omega (arith, b),
        active_indices-Rising f noise threshold (suc index) (suc index) bound ps (omega arith)
            (omega (arith, b)),
      )
      | inr e ↦ rw e (
          active_indices-Rising f noise threshold low (suc index) bound ps (omega (arith, l))
            (omega (arith, b)))
    ]

-- The ranges of indices that rise below a bound stand for exactly those indices, in order; none is
-- empty, and between two neighbours an index is missing.
pub ranges-Runs :
    (bound : ℕ) (is : List ℕ)
    → Rising 0 bound is
    → (indices (ranges is) ≡ is) × Apart 0 bound (ranges is)
unfolding ranges
ranges-Runs bound [] r = (refl, tt)
ranges-Runs bound (i ∷ rest) r =
    let self : i - i ≡ 0 = omega arith in
    (
      indices-ranges_from i i rest (omega arith) ∙ ap (λ (n : ℕ). counting i n ++ rest) self,
      ranges_from-Apart 0 bound i i rest (omega arith) (omega arith) r.1 r.2,
    )

Apart-weaken :
    (low low' bound : ℕ) (rs : List (ℕ × ℕ)) → low' ≤ low → Apart low bound rs → Apart low' bound rs
Apart-weaken low low' bound [] h a = tt
Apart-weaken low low' bound ((start, stop) ∷ rest) h a = (omega (arith, a.0), a.1, a.2, a.3)

pub take-Apart :
    (n low bound : ℕ) (rs : List (ℕ × ℕ)) → Apart low bound rs → Apart low bound (take n rs)
take-Apart zero low bound rs a = tt
take-Apart (suc n) low bound [] a = tt
take-Apart (suc n) low bound ((start, stop) ∷ rest) a =
    (a.0, a.1, a.2, take-Apart n (suc (suc stop)) bound rest a.3)
