-- ===== src/Base/Action.antt =====
-- Stateful methods that may fail: a method on `&mut self` returns its `Result` with the state, also
-- where it fails. The binds stand beside those of `Result`, so this module is used by name.
use sdr_pi.Base.Outcome.{Result, ok, err, map_err}

-- a method on a state `S` that may fail with a `D`
abbrev pub Action : Type 0 → Type 0 → Type 0 → Type 0
Action S D X = S → Result D X × S

infixl 5 ◌>>=◌ ◌>>◌
abbrev pub ◌>>=◌ : {S D X Y : Type 0} → Action S D X → (X → Action S D Y) → Action S D Y
◌>>=◌ m f s = let (r, s') = m s in elim r [ ok x ↦ f x s' | err e ↦ (err e, s') ]

abbrev pub ◌>>◌ : {S D Y : Type 0} → Action S D (Unit {0}) → Action S D Y → Action S D Y
m >> k = m >>= λ _. k

abbrev pub pure : {S D X : Type 0} → X → Action S D X
pure x s = (ok x, s)

abbrev pub raise : {S D X : Type 0} → D → Action S D X
raise e s = (err e, s)

-- a `Result` that needs no state, followed by `?`
abbrev pub lift : {S D X : Type 0} → Result D X → Action S D X
lift r s = (r, s)

-- `call.map_err(f)`
abbrev pub map_failure : {S C D X : Type 0} → (C → D) → Action S C X → Action S D X
map_failure f m s = let (r, s') = m s in (map_err f r, s')

-- a call whose `Result` the caller matches on
abbrev pub attempt : {S D C X : Type 0} → (S → Result C X × S) → Action S D (Result C X)
attempt call s = let (r, s') = call s in (ok r, s')

-- `let _ = m;`: the error is dropped
abbrev pub ignore : {S D C X : Type 0} → Action S C X → Action S D (Unit {0})
ignore m s = let (r, s') = m s in (ok tt, s')

-- `match r { Ok(x) => x, Err(e) => { report(e)?; return Err(wrap(e)); } }`
abbrev pub or_report :
    {S D C X : Type 0} → Result C X → (C → Action S D (Unit {0})) → (C → D) → Action S D X
or_report (ok x) report wrap = pure x
or_report (err e) report wrap = report e >> raise (wrap e)
