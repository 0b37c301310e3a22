-- ===== src/Sdr/Recorded.antt =====
-- A connection that records what its client does, the newest event first, over any connection.
use sdr_pi.Base.{
  ℕ, zero, suc, ◌+◌, String, List, [], ◌∷◌, Bool, true, false, ◌||◌, ◌=s◌, ◌≡◌, ◌⊎◌, arith, Result,
  ok, err,
}
use sdr_pi.Sdr.Wire.{Wire}

pub data WireEvent : Type 0 where
  connected : (timeout : ℕ) → WireEvent
  sent : (command arguments : String) → WireEvent
  slept : (ms : ℕ) → WireEvent

-- An attempt counts, whether it succeeds or fails.
abbrev pub recorded : {V N : Type 0} → Wire V N → Wire V (N × List WireEvent)
recorded wire = record {
  connect = λ timeout s. let (r, n) = wire.connect timeout s.0 in (r, (n, connected timeout ∷ s.1));
  exchange = λ command arguments s.
      let (r, n) = wire.exchange command arguments s.0 in (r, (n, sent command arguments ∷ s.1));
  sleep = λ ms s. (wire.sleep ms s.0, slept ms ∷ s.1);
}

-- the first `k` of the events of a script, told over what was before
abbrev pub told : ℕ → List WireEvent → List WireEvent → List WireEvent
told zero script before = before
told (suc k) [] before = before
told (suc k) (e ∷ script) before = told k script (e ∷ before)

-- the trail that is left if one of the `n` events of the script from the `k`-th on is the last
abbrev pub LastOf : List WireEvent → ℕ → ℕ → List WireEvent → List WireEvent → Type 0
LastOf script k zero before trail = ⊥
LastOf script k (suc n) before trail =
    (trail ≡ told k script before) ⊎ LastOf script (suc k) n before trail

-- what the part of a script that begins after `m` events and has `n` leaves
abbrev pub Within :
    {D X N : Type 0}
    → List WireEvent
    → ℕ
    → ℕ
    → List WireEvent
    → Result D X × (N × List WireEvent)
    → Type 0
Within script m n before (ok x, s) = s.1 ≡ told (m + n) script before
Within script m n before (err e, s) = LastOf script (suc m) n before s.1

-- a pause, or a command that leaves the radio as it is
abbrev pub is_query : WireEvent → Bool
is_query (connected timeout) = false
is_query (slept ms) = true
is_query (sent command arguments) =
    (command =s "HELLO")
    || (command =s "CAPABILITIES")
    || (command =s "HEALTH")
    || (command =s "QUIT")

-- A trail that adds `n` connections and queries only to another.
pub data Reads (before : List WireEvent) : ℕ → List WireEvent → Type 0 where
  nothing : Reads before 0 before
  reconnect :
      {n : ℕ} {trail : List WireEvent} (timeout : ℕ)
      → Reads before n trail
      → Reads before (suc n) (connected timeout ∷ trail)
  query :
      {n : ℕ} {trail : List WireEvent} (e : WireEvent)
      → is_query e ≡ true
      → Reads before n trail
      → Reads before n (e ∷ trail)

pub Reads-trans : {a b c : List WireEvent} {n : ℕ} → Reads a 1 b → Reads b n c → Reads a (suc n) c
Reads-trans r nothing = r
Reads-trans r (reconnect timeout more) = reconnect timeout (Reads-trans r more)
Reads-trans r (query e h more) = query e h (Reads-trans r more)

-- What an outcome leaves as its trail, by whether it is a result or an error.
pub data Leaves {D X N : Type 0} (Done Failed : List WireEvent → Type 0)
    (outcome : Result D X × (N × List WireEvent)) : Type 0 where
  done : (x : X) → outcome.0 ≡ ok x → Done outcome.1.1 → Leaves Done Failed outcome
  failed : (e : D) → outcome.0 ≡ err e → Failed outcome.1.1 → Leaves Done Failed outcome

pub Leaves-done :
    {D X N : Type 0} {Done Failed : List WireEvent → Type 0}
    {outcome : Result D X × (N × List WireEvent)} {x : X}
    → Leaves Done Failed outcome
    → outcome.0 ≡ ok x
    → Done outcome.1.1
Leaves-done (done x' h d) p = d
Leaves-done (failed e h f) p = absurd (ground (arith, h, p))

pub Leaves-failed :
    {D X N : Type 0} {Done Failed : List WireEvent → Type 0}
    {outcome : Result D X × (N × List WireEvent)} {e : D}
    → Leaves Done Failed outcome
    → outcome.0 ≡ err e
    → Failed outcome.1.1
Leaves-failed (done x h d) p = absurd (ground (arith, h, p))
Leaves-failed (failed e' h f) p = f
