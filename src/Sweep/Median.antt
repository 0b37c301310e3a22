-- ===== src/Sweep/Median.antt =====
-- What `median_power_dbfs` returns.
use sdr_pi.Base.{
  suc, ◌/◌, ◌<◌, ◌≡◌, ◌≢◌, inl, inr, refl, ap, true, false, F32, some, List, [], ◌∷◌, map, ok,
  arith, length, get_elem?, All, Bool-cases, is_finite, le_f32,
}
use mathlib.Core.List.{Permᴰ}
use mathlib.Core.List.Permᴰ as Permutation
use sdr_pi.Sweep.Plan.{SweepPoint}
use sdr_pi.Sweep.Merge.{power_of, insert_power, sort_powers, median_power_dbfs}
use sdr_pi.Sweep.Merged.{get_elem?-below}

abbrev pub IsFinite : F32 → Type 0
IsFinite x = is_finite x ≡ true

-- Powers that do not fall.
abbrev pub Sorted : List F32 → Type 0
Sorted [] = Unit
Sorted (x ∷ []) = Unit
Sorted (x ∷ y ∷ rest) = (le_f32 x y ≡ true) × Sorted (y ∷ rest)

le_f32-total : (x y : F32) → IsFinite x → IsFinite y → le_f32 x y ≡ false → le_f32 y x ≡ true
unfolding le_f32 is_finite
le_f32-total x y hx hy h = ground arith

insert_power-All :
    (P : F32 → Type 0) (x : F32) (ys : List F32) → P x → All P ys → All P (insert_power x ys)
unfolding insert_power
insert_power-All P x [] p h = (p, tt)
insert_power-All P x (y ∷ ys) p h = elim (Bool-cases (le_f32 x y)) [
  | inl e ↦ rw e (p, h)
  | inr e ↦ rw e (h.0, insert_power-All P x ys p h.1)
]

Sorted-tail : (y : F32) (ys : List F32) → Sorted (y ∷ ys) → Sorted ys
Sorted-tail y [] s = tt
Sorted-tail y (z ∷ zs) s = s.1

-- An element before a sorted list after an insertion.
insert_power-head :
    (y x : F32) (ys : List F32)
    → le_f32 y x ≡ true
    → Sorted (y ∷ ys)
    → Sorted (insert_power x ys)
    → Sorted (y ∷ insert_power x ys)
unfolding insert_power
insert_power-head y x [] l s t = (l, tt)
insert_power-head y x (z ∷ zs) l s t = elim (Bool-cases (le_f32 x z)) [
  | inl e ↦ rw e (l, rw e at t)
  | inr e ↦ rw e (s.0, rw e at t)
]

insert_power-Sorted :
    (x : F32) (ys : List F32)
    → IsFinite x
    → All IsFinite ys
    → Sorted ys
    → Sorted (insert_power x ys)
unfolding insert_power
insert_power-Sorted x [] p h s = tt
insert_power-Sorted x (y ∷ ys) p h s = elim (Bool-cases (le_f32 x y)) [
  | inl e ↦ rw e (e, s)
  | inr e ↦ rw e (
      insert_power-head y x ys (le_f32-total x y p h.0 e) s
        (insert_power-Sorted x ys p h.1 (Sorted-tail y ys s)))
]

insert_power-Perm : (x : F32) (ys : List F32) → Permᴰ (insert_power x ys) (x ∷ ys)
unfolding insert_power
insert_power-Perm x [] = Permutation.refl (x ∷ [])
insert_power-Perm x (y ∷ ys) = elim (Bool-cases (le_f32 x y)) [
  | inl e ↦ rw e (Permutation.refl (x ∷ y ∷ ys))
  | inr e ↦ rw e (Permᴰ.trans (Permᴰ.cons refl (insert_power-Perm x ys)) (Permᴰ.swap refl refl))
]

sort_powers-All : (P : F32 → Type 0) (xs : List F32) → All P xs → All P (sort_powers xs)
unfolding sort_powers
sort_powers-All P [] h = tt
sort_powers-All P (x ∷ xs) h = insert_power-All P x (sort_powers xs) h.0 (sort_powers-All P xs h.1)

sort_powers-Sorted : (xs : List F32) → All IsFinite xs → Sorted (sort_powers xs)
unfolding sort_powers
sort_powers-Sorted [] h = tt
sort_powers-Sorted (x ∷ xs) h =
    insert_power-Sorted x (sort_powers xs) h.0 (sort_powers-All IsFinite xs h.1)
      (sort_powers-Sorted xs h.1)

sort_powers-Perm : (xs : List F32) → Permᴰ (sort_powers xs) xs
unfolding sort_powers
sort_powers-Perm [] = Permᴰ.nil
sort_powers-Perm (x ∷ xs) =
    Permᴰ.trans (insert_power-Perm x (sort_powers xs)) (Permᴰ.cons refl (sort_powers-Perm xs))

insert_power-length : (x : F32) (ys : List F32) → length (insert_power x ys) ≡ suc (length ys)
unfolding insert_power
insert_power-length x [] = refl
insert_power-length x (y ∷ ys) = elim (Bool-cases (le_f32 x y)) [
  | inl e ↦ rw e refl
  | inr e ↦ rw e (ap suc (insert_power-length x ys))
]

-- A middle element of a list in order that has the same powers.
pub record IsMedian (powers : List F32) (m : F32) : Type 0 where
  pub ordered : List F32
  pub same_powers : Permᴰ ordered powers
  pub rising : Sorted ordered
  pub middle : get_elem? ordered (length ordered / 2) ≡ some m

sorted_nonempty :
    (x : F32) (xs : List F32) → length (sort_powers (x ∷ xs)) / 2 < length (sort_powers (x ∷ xs))
unfolding sort_powers
sorted_nonempty x xs = omega (arith, insert_power-length x (sort_powers xs))

-- For points with finite powers, of which there is at least one, the noise floor is the middle
-- element of their powers in order, the upper one of two.
pub median_power_dbfs-IsMedian :
    {V : Type 0} (ps : List SweepPoint)
    → ps ≢ []
    → All IsFinite (map power_of ps)
    → (m : F32) × (median_power_dbfs {V = V} ps ≡ ok m) × IsMedian (map power_of ps) m
unfolding median_power_dbfs
median_power_dbfs-IsMedian [] n h = absurd (n refl)
median_power_dbfs-IsMedian (p ∷ ps) n h =
    let powers = map power_of (p ∷ ps) in
    let (m, found) =
      get_elem?-below (sort_powers powers) (length (sort_powers powers) / 2)
        (sorted_nonempty (power_of p) (map power_of ps)) in
    (
      m,
      rw found refl,
      record {
        ordered = sort_powers powers;
        same_powers = sort_powers-Perm powers;
        rising = sort_powers-Sorted powers h;
        middle = found;
      },
    )
