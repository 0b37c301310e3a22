-- ===== src/Base/Text.antt =====
-- Rust's `str` as the native text: `len` counts bytes of UTF-8, and the predicates of `char` are
-- written out by code point.
use Prim.Native.Nat.{ℕ}
use Prim.Native.Char.{code}
use Prim.Native.String.{String, len}
use mathlib.Core.Bool.{Bool, true, ◌&&◌, ◌||◌}
use sdr_pi.Base.Tests.{leb, contains, ◌==◌}
pub use text.Mathlib.Text.{starts_with}
use text.Mathlib.Text.{◌==◌ as ◌=ₛ◌}

-- `a == b` on strings
infix 50 ◌=s◌
abbrev pub ◌=s◌ : String → String → Bool
a =s b = ◌=ₛ◌ a b

unfoldable pub byte_len : String → ℕ
byte_len s = len s

-- `char::is_control`: the general category Cc.
unfoldable pub is_control : ℕ → Bool
is_control c = leb c 0x1f || contains 0x7f 0x9f c

-- `char::is_whitespace`: the property White_Space.
unfoldable pub is_whitespace : ℕ → Bool
is_whitespace c =
    contains 0x09 0x0d c
    || (c == 0x20)
    || (c == 0x85)
    || (c == 0xa0)
    || (c == 0x1680)
    || contains 0x2000 0x200a c
    || contains 0x2028 0x2029 c
    || (c == 0x202f)
    || (c == 0x205f)
    || (c == 0x3000)

-- `s.chars().all(p)` on code points
unfoldable pub all_chars : (ℕ → Bool) → String → Bool
all_chars p String.[] = true
all_chars p (String.◌∷◌ c s) = p (code c) && all_chars p s

-- `s.trim().is_empty()`: nothing is left exactly when every character is white space.
unfoldable pub is_blank : String → Bool
unfolding all_chars is_whitespace
is_blank s = all_chars is_whitespace s

-- `s.contains(t)`
unfoldable pub contains_text : String → String → Bool
contains_text String.[] t = starts_with String.[] t
contains_text (String.◌∷◌ c s) t = starts_with (String.◌∷◌ c s) t || contains_text s t
