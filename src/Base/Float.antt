-- ===== src/Base/Float.antt =====
-- Rust's `f32` as its IEEE 754 bit pattern, a number below 2 ^ 32. Tests on it are computed from
-- the sign, exponent and magnitude fields; arithmetic on it is a parameter where it is used.
use Prim.Native.Nat.{ℕ, ◌%◌}
use mathlib.Core.Bool.{Bool, true, not, ◌&&◌}
use sdr_pi.Base.Tests.{leb, ltb, ◌==◌, if◌then◌else◌}

abbrev pub F32 : Type 0
F32 = ℕ

-- the bits below the sign
abbrev pub magnitude : F32 → ℕ
magnitude x = x % 2147483648

abbrev pub is_negative : F32 → Bool
is_negative x = leb 2147483648 x

-- the magnitude of infinity; larger ones are NaN
abbrev pub infinity : F32
infinity = 2139095040

unfoldable pub is_finite : F32 → Bool
is_finite x = ltb (magnitude x) infinity

abbrev pub is_nan : F32 → Bool
is_nan x = ltb infinity (magnitude x)

-- `a <= b`; false if either is NaN, and the two zeros are equal
unfoldable pub le_f32 : F32 → F32 → Bool
le_f32 a b =
    not (is_nan a)
    && not (is_nan b)
    && (if is_negative a
        then (if is_negative b then leb (magnitude b) (magnitude a) else true)
        else (if is_negative b
            then ((magnitude a == 0) && (magnitude b == 0))
            else leb (magnitude a) (magnitude b)))

abbrev pub zero_f32 : F32
zero_f32 = 0

-- 1.0
abbrev pub one_f32 : F32
one_f32 = 0x3f800000

-- 12.0
abbrev pub twelve_f32 : F32
twelve_f32 = 0x41400000

-- 60.0
abbrev pub sixty_f32 : F32
sixty_f32 = 0x42700000

-- `a > b` by `partial_cmp`
abbrev pub gt_f32 : F32 → F32 → Bool
gt_f32 a b = le_f32 b a && not (le_f32 a b)

-- `a.max(b)`: if one is NaN, the other
unfoldable pub max_f32 : F32 → F32 → F32
max_f32 a b = if is_nan a then b else if is_nan b then a else if le_f32 a b then b else a

-- Addition and subtraction of `f32`, which antt does not have: a parameter of what uses them.
pub record FloatOps : Type 0 where
  pub add : F32 → F32 → F32
  pub sub : F32 → F32 → F32
