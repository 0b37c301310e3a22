-- ===== src/Base/Decimal.antt =====
-- Decimal printing, as `format!` prints an unsigned number, and facts on texts that are joined.
use Prim.Native.Nat.{ℕ, zero, suc, ◌+◌, ◌/◌, ◌%◌, ◌≤◌}
use Prim.Native.String.{String, ◌++◌}
use Prim.Native.String.append
use mathlib.Core.Path.{◌≡◌, refl, ap, ◌∙◌}
use mathlib.Core.Bool.{Bool, true}
use text.Mathlib.TextPositions.{len-append}
use native.Mathlib.Omega.{arith}
use sdr_pi.Base.Tests.{ltb, if◌then◌else◌}
use sdr_pi.Base.Text.{all_chars, byte_len}

infixr 65 ◌+++◌
abbrev pub ◌+++◌ : String → String → String
s +++ t = ◌++◌ s t

unfoldable pub digit : ℕ → String
digit zero = "0"
digit (suc zero) = "1"
digit (suc (suc zero)) = "2"
digit (suc (suc (suc zero))) = "3"
digit (suc (suc (suc (suc zero)))) = "4"
digit (suc (suc (suc (suc (suc zero))))) = "5"
digit (suc (suc (suc (suc (suc (suc zero)))))) = "6"
digit (suc (suc (suc (suc (suc (suc (suc zero))))))) = "7"
digit (suc (suc (suc (suc (suc (suc (suc (suc zero)))))))) = "8"
digit _ = "9"

-- what holds of every digit holds of the text of a number's last digit
digit_cases :
    (P : String → Type 0)
    → P "0" × P "1" × P "2" × P "3" × P "4" × P "5" × P "6" × P "7" × P "8" × P "9"
    → (d : ℕ) → P (digit d)
unfolding digit
digit_cases P h zero = h.0
digit_cases P h (suc zero) = h.1
digit_cases P h (suc (suc zero)) = h.2
digit_cases P h (suc (suc (suc zero))) = h.3
digit_cases P h (suc (suc (suc (suc zero)))) = h.4
digit_cases P h (suc (suc (suc (suc (suc zero))))) = h.5
digit_cases P h (suc (suc (suc (suc (suc (suc zero)))))) = h.6
digit_cases P h (suc (suc (suc (suc (suc (suc (suc zero))))))) = h.7
digit_cases P h (suc (suc (suc (suc (suc (suc (suc (suc zero)))))))) = h.8
digit_cases P h _ = h.9

-- the digits of a number below 10 ^ fuel
unfoldable pub decimal_digits : ℕ → ℕ → String
unfolding digit
decimal_digits zero n = ""
decimal_digits (suc fuel) n =
    let rest = decimal_digits fuel (n / 10) +++ digit (n % 10) in if ltb n 10 then digit n else rest

-- A `u64` is below 10 ^ 20.
unfoldable pub decimal : ℕ → String
unfolding decimal_digits byte_len
decimal n = decimal_digits 20 n

pub all_chars-append :
    (p : ℕ → Bool) (s t : String)
    → all_chars p s ≡ true
    → all_chars p t ≡ true
    → all_chars p (s +++ t) ≡ true
unfolding all_chars
all_chars-append p String.[] t h k = ap (all_chars p) (append.nil t) ∙ k
all_chars-append p (String.◌∷◌ c s) t h k =
    ap (all_chars p) (append.cons c s t) ∙ ground (arith, all_chars-append p s t)

pub byte_len-append : (s t : String) → byte_len (s +++ t) ≡ byte_len s + byte_len t
unfolding byte_len
byte_len-append s t = len-append s t

-- the characters of the texts below are decimal digits
abbrev pub AcceptsDigits : (ℕ → Bool) → Type 0
AcceptsDigits p = (c : ℕ) → 48 ≤ c → c ≤ 57 → p c ≡ true

all_chars-digit : (p : ℕ → Bool) (d : ℕ) → AcceptsDigits p → all_chars p (digit d) ≡ true
unfolding all_chars digit
all_chars-digit p d h =
    digit_cases (λ s. all_chars p s ≡ true)
      (
        ground (arith, h 48),
        ground (arith, h 49),
        ground (arith, h 50),
        ground (arith, h 51),
        ground (arith, h 52),
        ground (arith, h 53),
        ground (arith, h 54),
        ground (arith, h 55),
        ground (arith, h 56),
        ground (arith, h 57),
      )
      d

pub all_chars-decimal_digits :
    (p : ℕ → Bool) (fuel n : ℕ) → AcceptsDigits p → all_chars p (decimal_digits fuel n) ≡ true
unfolding decimal_digits all_chars
all_chars-decimal_digits p zero n h = refl
all_chars-decimal_digits p (suc fuel) n h = ground (
  arith,
  all_chars-digit p n h,
  all_chars-append p (decimal_digits fuel (n / 10)) (digit (n % 10))
      (all_chars-decimal_digits p fuel (n / 10) h) (all_chars-digit p (n % 10) h),
)

byte_len-digit : (d : ℕ) → byte_len (digit d) ≡ 1
unfolding byte_len digit
byte_len-digit d =
    digit_cases (λ s. byte_len s ≡ 1) (refl, refl, refl, refl, refl, refl, refl, refl, refl, refl) d

pub byte_len-decimal_digits : (fuel n : ℕ) → byte_len (decimal_digits fuel n) ≤ fuel
unfolding decimal_digits byte_len
byte_len-decimal_digits zero n = omega arith
byte_len-decimal_digits (suc fuel) n = ground (
  arith,
  byte_len-digit n,
  byte_len-digit (n % 10),
  byte_len-append (decimal_digits fuel (n / 10)) (digit (n % 10)),
  byte_len-decimal_digits fuel (n / 10),
)
