-- ===== src/Sdr/Observed.antt =====
-- What an observation of the radio sends, over a connection that records it, and what it reports.
use sdr_pi.Base.{
  ℕ, String, zero, suc, ◌≤◌, ◌≡◌, refl, inl, inr, sym, ◌+◌, true, false, List, [], ◌∷◌, ok, arith,
  Result-cases, Bool-cases, eq_iff, ◌⊎◌, ◌↔◌, ◌<◌, ap, ◌=s◌,
}
use sdr_pi.Sdr.Snapshot.{SdrSnapshot}
use sdr_pi.Sdr.Wire.{Wire, request}
use sdr_pi.Sdr.Observe.{
  HelloResponse, CapabilitiesResponse, HealthResponse, QuitResponse, snapshot_of, is_unexpected,
  ObserveShapes, sdrd_observe,
}
use sdr_pi.Sdr.Recorded.{
  WireEvent, connected, sent, recorded, told, LastOf, Within, is_query, Reads, nothing, reconnect,
  query,
}
use mathlib.Core.Path.{subst}

-- The events of an observation, in order.
abbrev pub observe_script : ℕ → List WireEvent
observe_script timeout =
    connected timeout
    ∷ sent "HELLO" ""
    ∷ sent "CAPABILITIES" ""
    ∷ sent "HEALTH" ""
    ∷ sent "QUIT" ""
    ∷ []

module _ {V N : Type 0} (wire : Wire V N) (shapes : ObserveShapes V) (timeout : ℕ) where
  pub sdrd_observe-Within :
      (s : N × List WireEvent)
      → Within (observe_script timeout) 0 5 s.1 (sdrd_observe (recorded wire) shapes timeout s)
  unfolding sdrd_observe
  sdrd_observe-Within s = ground arith

  asked :
      {n : ℕ} {before trail : List WireEvent} (command : String)
      → is_query (sent command "") ≡ true
      → Reads before n trail
      → Reads before n (sent command "" ∷ trail)
  asked command h r = query (sent command "") h r

  told-Reads :
      (k : ℕ) (before : List WireEvent)
      → suc k ≤ 5
      → Reads before 1 (told (suc k) (observe_script timeout) before)
  told-Reads zero before h = reconnect timeout nothing
  told-Reads (suc zero) before h = asked "HELLO" refl (reconnect timeout nothing)
  told-Reads (suc (suc zero)) before h =
      asked "CAPABILITIES" refl (asked "HELLO" refl (reconnect timeout nothing))
  told-Reads (suc (suc (suc zero))) before h =
      asked "HEALTH" refl
        (asked "CAPABILITIES" refl (asked "HELLO" refl (reconnect timeout nothing)))
  told-Reads (suc (suc (suc (suc zero)))) before h = asked "QUIT" refl (
      asked "HEALTH" refl
        (asked "CAPABILITIES" refl (asked "HELLO" refl (reconnect timeout nothing))))
  told-Reads (suc (suc (suc (suc (suc k))))) before h = absurd (omega arith)

  LastOf-Reads :
      (k n : ℕ) (before trail : List WireEvent)
      → suc k + n ≤ 6
      → LastOf (observe_script timeout) (suc k) n before trail
      → Reads before 1 trail
  LastOf-Reads k zero before trail h l = elim l [ ]
  LastOf-Reads k (suc n) before trail h (inl e) =
      subst (Reads before 1) (sym e) (told-Reads k before (omega arith))
  LastOf-Reads k (suc n) before trail h (inr l) =
      LastOf-Reads (suc k) n before trail (omega arith) l

  -- An observation makes one connection and sends queries only.
  pub sdrd_observe-Reads :
      (s : N × List WireEvent) → Reads s.1 1 (sdrd_observe (recorded wire) shapes timeout s).1.1
  sdrd_observe-Reads s = elim (Result-cases (sdrd_observe (recorded wire) shapes timeout s).0) [
    | inl (snapshot, h) ↦
        subst (Reads s.1 1) (sym (ground (arith, h, sdrd_observe-Within s)))
          (told-Reads 4 s.1 (omega arith))
    | inr (e, h) ↦
        LastOf-Reads 0 5 s.1 (sdrd_observe (recorded wire) shapes timeout s).1.1 (omega arith)
          (ground (arith, h, sdrd_observe-Within s))
  ]

-- A snapshot that is what the daemon answers over one connection: the server is SDRD in one of its
-- two modes, and takes no mutating commands in shadow; the radio counts as healthy exactly if the
-- daemon says so, without a flag, with both paths of the IIO visible and without a faulted session;
-- it can be tuned if the daemon controls it, and captured from if it gives raw samples, of some bytes.
pub record Reported {V N : Type 0} (wire : Wire V N) (shapes : ObserveShapes V) (timeout : ℕ)
    (n : N) (snapshot : SdrSnapshot) : Type 0 where
  pub joined : N
  pub after_hello : N
  pub after_capabilities : N
  pub after_health : N
  pub after_quit : N
  pub hello : HelloResponse
  pub capabilities : CapabilitiesResponse
  pub health : HealthResponse
  pub quit : QuitResponse
  pub connected : wire.connect timeout n ≡ (ok tt, joined)
  pub greeted : request wire shapes.hello "HELLO" "" joined ≡ (ok hello, after_hello)
  pub listed :
      request wire shapes.capabilities "CAPABILITIES" "" after_hello
      ≡ (ok capabilities, after_capabilities)
  pub examined :
      request wire shapes.health "HEALTH" "" after_capabilities ≡ (ok health, after_health)
  pub left : request wire shapes.quit "QUIT" "" after_health ≡ (ok quit, after_quit)
  pub is_sdrd : hello.server ≡ "p201-sdrd"
  pub speaks : hello.protocol ≡ "SDRD/1"
  pub moded :
      ((hello.mode ≡ "shadow") × (hello.mutating_commands ≡ false)) ⊎ (hello.mode ≡ "controlled")
  pub same_mode : capabilities.mode ≡ hello.mode
  pub closed : quit.closing ≡ true
  pub online : snapshot.online ≡ true
  pub healthy_iff :
      (snapshot.healthy ≡ true)
      ↔ (health.healthy ≡ true)
        × (health.health_flags ≡ 0)
        × (capabilities.iio_visible ≡ true)
        × (health.iio_phy_visible ≡ true)
        × (health.iio_rx_visible ≡ true)
        × (health.session_faulted ≡ false)
  pub same_flags : snapshot.health_flags ≡ health.health_flags
  pub visible_iff :
      (snapshot.iio_visible ≡ true)
      ↔ (capabilities.iio_visible ≡ true)
        × (health.iio_phy_visible ≡ true)
        × (health.iio_rx_visible ≡ true)
  pub tunable : snapshot.can_retune ≡ capabilities.radio_control
  pub capture_iff :
      (snapshot.can_capture_iq ≡ true)
      ↔ (capabilities.raw_iq_capture ≡ true) × (0 < capabilities.max_capture_bytes)

expected_mode :
    (hello : HelloResponse)
    → is_unexpected hello ≡ false
    → ((hello.mode ≡ "shadow") × (hello.mutating_commands ≡ false)) ⊎ (hello.mode ≡ "controlled")
expected_mode hello h = elim (Bool-cases (hello.mode =s "shadow")) [
  | inl shadow ↦ inl ((eq_iff hello.mode "shadow").0 shadow, ground (arith, shadow))
  | inr other ↦ inr ((eq_iff hello.mode "controlled").0 (ground (arith, other)))
]

module _ {V N : Type 0} (wire : Wire V N) (shapes : ObserveShapes V) (timeout : ℕ) where
  answers-Reported :
      (n : N) (snapshot : SdrSnapshot) (joined after_hello after_capabilities after_health : N)
      (after_quit : N) (hello : HelloResponse) (capabilities : CapabilitiesResponse)
      (health : HealthResponse) (quit : QuitResponse)
      → wire.connect timeout n ≡ (ok tt, joined)
      → request wire shapes.hello "HELLO" "" joined ≡ (ok hello, after_hello)
      → request wire shapes.capabilities "CAPABILITIES" "" after_hello
        ≡ (ok capabilities, after_capabilities)
      → request wire shapes.health "HEALTH" "" after_capabilities ≡ (ok health, after_health)
      → request wire shapes.quit "QUIT" "" after_health ≡ (ok quit, after_quit)
      → is_unexpected hello ≡ false
      → capabilities.mode ≡ hello.mode
      → quit.closing ≡ true
      → snapshot ≡ snapshot_of capabilities health
      → Reported wire shapes timeout n snapshot
  answers-Reported n snapshot joined after_hello after_capabilities after_health after_quit hello
        capabilities health quit p q r t u expected same closing shown =
      record {
        joined = joined;
        after_hello = after_hello;
        after_capabilities = after_capabilities;
        after_health = after_health;
        after_quit = after_quit;
        hello = hello;
        capabilities = capabilities;
        health = health;
        quit = quit;
        connected = p;
        greeted = q;
        listed = r;
        examined = t;
        left = u;
        is_sdrd = (eq_iff hello.server "p201-sdrd").0 (ground (arith, expected));
        speaks = (eq_iff hello.protocol "SDRD/1").0 (ground (arith, expected));
        moded = expected_mode hello expected;
        same_mode = same;
        closed = closing;
        online = ground (arith, shown);
        healthy_iff = (
          λ h. (
            ground (arith, shown, h),
            ground (arith, shown, h),
            ground (arith, shown, h),
            ground (arith, shown, h),
            ground (arith, shown, h),
            ground (arith, shown, h),
          ),
          λ h. ground (arith, shown, h),
        );
        same_flags = ground (arith, shown);
        visible_iff = (
          λ h. (ground (arith, shown, h), ground (arith, shown, h), ground (arith, shown, h)),
          λ h. ground (arith, shown, h),
        );
        tunable = ground (arith, shown);
        capture_iff = (
          λ h. (ground (arith, shown, h), ground (arith, shown, h)),
          λ h. ground (arith, shown, h),
        );
      }

  -- A snapshot that an observation gives is what the daemon answered to HELLO, CAPABILITIES, HEALTH
  -- and QUIT, one after the other over the connection: from SDRD in one of its two modes, without
  -- mutating commands in shadow, in the same mode throughout, and closing at the end. Its radio is
  -- online, healthy exactly if the health says so without a flag, a faulted session or a path of the
  -- IIO that is not visible, and has the abilities that the capabilities list.
  pub sdrd_observe-Reported :
      (n : N) (snapshot : SdrSnapshot)
      → (sdrd_observe wire shapes timeout n).0 ≡ ok snapshot
      → Reported wire shapes timeout n snapshot
  unfolding sdrd_observe
  sdrd_observe-Reported n snapshot h =
      let joined = wire.connect timeout n in
      let hello = request wire shapes.hello "HELLO" "" joined.1 in
      let capabilities = request wire shapes.capabilities "CAPABILITIES" "" hello.1 in
      let health = request wire shapes.health "HEALTH" "" capabilities.1 in
      let quit = request wire shapes.quit "QUIT" "" health.1 in
      elim (Result-cases joined.0) [
        | inr (e, p) ↦ absurd (ground (arith, p))
        | inl (_, p) ↦ elim (Result-cases hello.0) [
          | inr (e, q) ↦ absurd (ground (arith, p, q))
          | inl (a, q) ↦ elim (Result-cases capabilities.0) [
            | inr (e, r) ↦ absurd (ground (arith, p, q, r))
            | inl (b, r) ↦ elim (Result-cases health.0) [
              | inr (e, t) ↦ absurd (ground (arith, p, q, r, t))
              | inl (c, t) ↦ elim (Result-cases quit.0) [
                | inr (e, u) ↦ absurd (ground (arith, p, q, r, t, u))
                | inl (d, u) ↦
                    answers-Reported n snapshot joined.1 hello.1 capabilities.1 health.1 quit.1 a b
                      c d (ap (λ x. (x, joined.1)) p) (ap (λ x. (x, hello.1)) q)
                      (ap (λ x. (x, capabilities.1)) r) (ap (λ x. (x, health.1)) t)
                      (ap (λ x. (x, quit.1)) u) (ground (arith, p, q, r, t, u))
                      ((eq_iff b.mode a.mode).0 (ground (arith, p, q, r, t, u)))
                      (ground (arith, p, q, r, t, u)) (ground (arith, p, q, r, t, u))
              ]
            ]
          ]
        ]
      ]
