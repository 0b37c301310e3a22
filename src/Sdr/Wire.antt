-- ===== src/Sdr/Wire.antt =====
-- sdr.rs: what the clients of the SDRD daemon use of a connection. `Wire` is the interface that they
-- take; Socket has the connection over a stream that implements it.
use sdr_pi.Base.{ℕ, String, Result, ok, map_err}
use sdr_pi.Base.Action.{Action, ◌>>=◌, lift}
use sdr_pi.Sdr.Snapshot.{SdrError, sdr_error}

-- `SdrError::protocol` and `SdrError::io`: the text of the error that the library reports
abbrev pub reported : {V : Type 0} → String → String → SdrError V
reported operation message = sdr_error operation message

-- The network as a client sees it, in the state `N`: a connection that is opened with a timeout in
-- milliseconds, a command with its arguments, answered by a value of status "ok" or by an error, and
-- a pause in milliseconds.
pub record Wire (V N : Type 0) : Type 0 where
  pub connect : ℕ → Action N (SdrError V) (Unit {0})
  pub exchange : String → String → Action N (SdrError V) V
  pub sleep : ℕ → N → N

module _ {V N : Type 0} (wire : Wire V N) where
  -- `SdrdWire::request::<T>`: the value of an accepted response, decoded as a `T`
  abbrev pub request :
      {T : Type 0} → (V → Result String T) → String → String → Action N (SdrError V) T
  request shape command arguments = do
    value ← wire.exchange command arguments
    lift (map_err (reported "response_shape") (shape value))

  -- `thread::sleep`
  abbrev pub pause : ℕ → Action N (SdrError V) (Unit {0})
  pause ms n = (ok tt, wire.sleep ms n)
