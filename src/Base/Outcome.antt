-- ===== src/Base/Outcome.antt =====
-- Rust's `Result<A, E>` and the `?` operator as a bind.
use mathlib.Core.Path.{◌≡◌, refl}
use mathlib.Core.Logic.{◌⊎◌, inl, inr}
use mathlib.Core.Option.{Option, none, some}

pub data Result (E A : Type 0) : Type 0 where
  ok : A → Result E A
  err : E → Result E A

-- `result.map_err(f)`
abbrev pub map_err : {E D A : Type 0} → (E → D) → Result E A → Result D A
map_err f (ok a) = ok a
map_err f (err e) = err (f e)

-- `result?`, and then the rest of the function
infixl 5 ◌>>=◌
abbrev pub ◌>>=◌ : {E A B : Type 0} → Result E A → (A → Result E B) → Result E B
err failure >>= next = err failure
ok value >>= next = next value

-- `option.ok_or(e)`
abbrev pub ok_or : {E A : Type 0} → Option A → E → Result E A
ok_or none e = err e
ok_or (some a) e = ok a

-- `check?;`
infixl 5 ◌>>◌
abbrev pub ◌>>◌ : {E B : Type 0} → Result E (Unit {0}) → Result E B → Result E B
check >> rest = check >>= λ _. rest

pub Result-cases :
    {E A : Type 0} (r : Result E A) → ((a : A) × (r ≡ ok a)) ⊎ ((e : E) × (r ≡ err e))
Result-cases (ok a) = inl (a, refl)
Result-cases (err e) = inr (e, refl)

-- A check that is followed by more has passed if the whole has.
pub passed_check :
    {E B : Type 0} (check : Result E (Unit {0})) (rest : Result E B) {b : B}
    → (check >> rest) ≡ ok b
    → (check ≡ ok tt) × (rest ≡ ok b)
passed_check (ok tt) rest whole = (refl, whole)
passed_check (err failure) rest whole = cc
