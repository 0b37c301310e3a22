-- ===== src/Sdr/Observe.antt =====
-- sdr.rs: `SdrdAdapter`, which observes the radio over a connection of its own. The decoders of the
-- responses (serde) are parameters; fields of a response that the code never reads are left out.
use sdr_pi.Base.{ℕ, String, Bool, true, not, ◌&&◌, ◌||◌, Result, ◌==◌, ◌=s◌, ltb, if◌then◌else◌}
use sdr_pi.Base.Action.{Action, ◌>>=◌, ◌>>◌, pure, raise}
use sdr_pi.Sdr.Snapshot.{SdrError, sdr_error, SdrSnapshot, SdrEngine}
use sdr_pi.Sdr.Wire.{Wire, request}

pub record HelloResponse : Type 0 where
  pub server : String
  pub protocol : String
  pub mode : String
  pub mutating_commands : Bool

pub record CapabilitiesResponse : Type 0 where
  pub mode : String
  pub iio_visible : Bool
  pub radio_control : Bool
  pub raw_iq_capture : Bool
  pub max_capture_bytes : ℕ

pub record HealthResponse : Type 0 where
  pub healthy : Bool
  pub health_flags : ℕ
  pub iio_phy_visible : Bool
  pub iio_rx_visible : Bool
  pub session_faulted : Bool

pub record QuitResponse : Type 0 where
  pub closing : Bool

-- `serde_json::from_value` at each type of response
pub record ObserveShapes (V : Type 0) : Type 0 where
  pub hello : V → Result String HelloResponse
  pub capabilities : V → Result String CapabilitiesResponse
  pub health : V → Result String HealthResponse
  pub quit : V → Result String QuitResponse

-- an endpoint that is not SDRD, in neither mode, or in shadow with mutating commands
abbrev pub is_unexpected : HelloResponse → Bool
is_unexpected hello =
    not (hello.server =s "p201-sdrd")
    || not (hello.protocol =s "SDRD/1")
    || not ((hello.mode =s "shadow") || (hello.mode =s "controlled"))
    || ((hello.mode =s "shadow") && hello.mutating_commands)

-- the snapshot of the answers
abbrev pub snapshot_of : CapabilitiesResponse → HealthResponse → SdrSnapshot
snapshot_of capabilities health =
    let iio_visible = capabilities.iio_visible && health.iio_phy_visible && health.iio_rx_visible in
    record {
      online = true;
      healthy =
          health.healthy && (health.health_flags == 0) && iio_visible && not health.session_faulted;
      health_flags = health.health_flags;
      iio_visible = iio_visible;
      can_retune = capabilities.radio_control;
      can_capture_iq = capabilities.raw_iq_capture && ltb 0 capabilities.max_capture_bytes;
    }

module _ {V N : Type 0} (wire : Wire V N) (shapes : ObserveShapes V) (timeout : ℕ) where
  -- `SdrdAdapter::observe`
  unfoldable pub sdrd_observe : Action N (SdrError V) SdrSnapshot
  sdrd_observe = do
    wire.connect timeout
    hello ← request wire shapes.hello "HELLO" ""
    (if is_unexpected hello
        then raise (sdr_error "unexpected_server" "SDRD endpoint identity or mode is inconsistent")
        else pure tt)
    capabilities ← request wire shapes.capabilities "CAPABILITIES" ""
    (if not (capabilities.mode =s hello.mode)
        then raise (sdr_error "unexpected_mode" "SDRD hello and capability modes do not match")
        else pure tt)
    health ← request wire shapes.health "HEALTH" ""
    quit ← request wire shapes.quit "QUIT" ""
    (if not quit.closing
        then raise (sdr_error "quit_rejected" "SDRD did not acknowledge connection close")
        else pure tt)
    pure (snapshot_of capabilities health)

  abbrev pub sdrd_engine : SdrEngine V N
  sdrd_engine = record { observe = sdrd_observe }
