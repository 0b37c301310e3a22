-- ===== src/Base/Word.antt =====
-- Unsigned 64-bit words of Rust: checked and saturating operations on native numbers.
use Prim.Native.Nat.{ℕ, ◌+◌, ◌-◌, ◌*◌, ◌/◌}
use mathlib.Core.Option.{Option, none, some}
use sdr_pi.Base.Tests.{leb, ◌==◌, if◌then◌else◌}

abbrev pub u8_max : ℕ
u8_max = 255

abbrev pub u64_max : ℕ
u64_max = 18446744073709551615

-- `a.checked_add(b)` on `u64`
abbrev pub checked_add : ℕ → ℕ → Option ℕ
checked_add a b = if leb (a + b) u64_max then some (a + b) else none

abbrev pub checked_mul : ℕ → ℕ → Option ℕ
checked_mul a b = if leb (a * b) u64_max then some (a * b) else none

abbrev pub checked_div : ℕ → ℕ → Option ℕ
checked_div a b = if b == 0 then none else some (a / b)

abbrev pub saturating_add : ℕ → ℕ → ℕ
saturating_add a b = if leb (a + b) u64_max then a + b else u64_max

abbrev pub saturating_mul : ℕ → ℕ → ℕ
saturating_mul a b = if leb (a * b) u64_max then a * b else u64_max

-- `a.saturating_sub(b)` is truncated subtraction.
abbrev pub saturating_sub : ℕ → ℕ → ℕ
saturating_sub a b = a - b

-- `a.saturating_add(b)` on `u8`
abbrev pub saturating_add_u8 : ℕ → ℕ → ℕ
saturating_add_u8 a b = if leb (a + b) u8_max then a + b else u8_max

abbrev pub abs_diff : ℕ → ℕ → ℕ
abs_diff a b = if leb a b then b - a else a - b
