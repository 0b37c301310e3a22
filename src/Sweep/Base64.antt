-- ===== src/Sweep/Base64.antt =====
-- sweep.rs: `decode_base64` and `base64_value`, on the bytes of the text.
use sdr_pi.Base.{
  ℕ, ◌+◌, ◌-◌, ◌*◌, ◌/◌, ◌%◌, Bool, true, false, not, ◌&&◌, ◌||◌, List, [], ◌∷◌, ◌++◌, Result, ok,
  err, ◌>>=◌, ◌>>◌, ◌==◌, contains, if◌then◌else◌, length,
}
use sdr_pi.Sweep.Plan.{SweepError, sweep_error}

-- whether these are the bytes of the last block
abbrev pub is_empty : List ℕ → Bool
is_empty [] = true
is_empty (_ ∷ _) = false

-- The values are below 64, so that the fields that the source joins by `|` do not overlap.
abbrev pub pack : ℕ → ℕ → ℕ → ℕ → ℕ
pack a b c d = a * 262144 + b * 4096 + c * 64 + d

-- the bytes that are pushed
abbrev pub unpack : Bool → Bool → ℕ → List ℕ
unpack c_padding d_padding packed =
    packed / 65536 % 256
    ∷ ((if c_padding then [] else packed / 256 % 256 ∷ [])
        ++ (if d_padding then [] else packed % 256 ∷ []))

module _ {V : Type 0} where
  unfoldable pub base64_value : ℕ → Result (SweepError V) ℕ
  base64_value value =
      if contains b'A' b'Z' value
      then ok (value - b'A')
      else if contains b'a' b'z' value
      then ok (value - b'a' + 26)
      else if contains b'0' b'9' value
      then ok (value - b'0' + 52)
      else if value == b'+'
      then ok 62
      else if value == b'/'
      then ok 63
      else err (sweep_error "agx_iq_base64" "invalid IQ base64 character")

  -- `if padding { 0 } else { base64_value(byte)? }`
  abbrev pub padded_value : Bool → ℕ → Result (SweepError V) ℕ
  padded_value true value = ok 0
  padded_value false value = base64_value value

  -- the body of the loop, at the last block or not
  unfoldable pub decode_block : Bool → ℕ → ℕ → ℕ → ℕ → Result (SweepError V) (List ℕ)
  unfolding base64_value
  decode_block last w x y z = do
    a ← base64_value w
    b ← base64_value x
    let c_padding = y == b'='
    let d_padding = z == b'='
    (if (c_padding && not d_padding) || (not last && (c_padding || d_padding))
        then err (sweep_error "agx_iq_base64" "invalid IQ base64 padding")
        else ok tt)
    c ← padded_value c_padding y
    d ← padded_value d_padding z
    ok (unpack c_padding d_padding (pack a b c d))

  -- the loop over the blocks of four; what is left of fewer is not read
  unfoldable pub decode_blocks : List ℕ → Result (SweepError V) (List ℕ)
  unfolding decode_block
  decode_blocks (w ∷ x ∷ y ∷ z ∷ rest) = do
    bytes ← decode_block (is_empty rest) w x y z
    others ← decode_blocks rest
    ok (bytes ++ others)
  decode_blocks _ = ok []

  unfoldable pub decode_base64 : List ℕ → Result (SweepError V) (List ℕ)
  unfolding decode_blocks
  decode_base64 input =
      if is_empty input || not (length input % 4 == 0)
      then err (sweep_error "agx_iq_base64" "invalid IQ base64 length")
      else decode_blocks input
