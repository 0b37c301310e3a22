-- ===== src/Sweep/Encoded.antt =====
-- The standard encoding in base 64, and the proof that `decode_base64` inverts it.
use sdr_pi.Base.{
  ℕ, ◌+◌, ◌-◌, ◌*◌, ◌/◌, ◌%◌, ◌<◌, ◌≡◌, ◌≢◌, refl, ap, ◌∙◌, Bool, true, false, List, [], ◌∷◌, ok,
  ◌==◌, ltb, if◌then◌else◌, length, arith, All,
}
use sdr_pi.Sweep.Base64.{
  is_empty, base64_value, pack, unpack, decode_block, decode_blocks, decode_base64,
}

-- the character of a value below 64
unfoldable symbol : ℕ → ℕ
symbol n =
    if ltb n 26
    then n + b'A'
    else if ltb n 52
    then n - 26 + b'a'
    else if ltb n 62
    then n - 52 + b'0'
    else if n == 62
    then b'+'
    else b'/'

-- RFC 4648, with padding
unfoldable pub encode : List ℕ → List ℕ
unfolding symbol
encode [] = []
encode (x ∷ []) = symbol (x / 4) ∷ symbol (x % 4 * 16) ∷ b'=' ∷ b'=' ∷ []
encode (x ∷ y ∷ []) =
    symbol (x / 4) ∷ symbol (x % 4 * 16 + y / 16) ∷ symbol (y % 16 * 4) ∷ b'=' ∷ []
encode (x ∷ y ∷ z ∷ rest) =
    symbol (x / 4)
    ∷ symbol (x % 4 * 16 + y / 16)
    ∷ symbol (y % 16 * 4 + z / 64)
    ∷ symbol (z % 64)
    ∷ encode rest

abbrev pub IsByte : ℕ → Type 0
IsByte n = n < 256

symbol-unpadded : (n : ℕ) → (symbol n == b'=') ≡ false
unfolding symbol
symbol-unpadded n = ground arith

three_bytes :
    (x y z : ℕ)
    → x < 256
    → y < 256
    → z < 256
    → unpack false false (pack (x / 4) (x % 4 * 16 + y / 16) (y % 16 * 4 + z / 64) (z % 64))
      ≡ x ∷ y ∷ z ∷ []
three_bytes x y z hx hy hz =
    let packed : pack (x / 4) (x % 4 * 16 + y / 16) (y % 16 * 4 + z / 64) (z % 64)
        ≡ x * 65536 + y * 256 + z =
      omega arith in
    rw packed (ground arith)

two_bytes :
    (x y : ℕ)
    → x < 256
    → y < 256
    → unpack false true (pack (x / 4) (x % 4 * 16 + y / 16) (y % 16 * 4) 0) ≡ x ∷ y ∷ []
two_bytes x y hx hy =
    let packed : pack (x / 4) (x % 4 * 16 + y / 16) (y % 16 * 4) 0 ≡ x * 65536 + y * 256 =
      omega arith in
    rw packed (ground arith)

one_byte : (x : ℕ) → x < 256 → unpack true true (pack (x / 4) (x % 4 * 16) 0 0) ≡ x ∷ []
one_byte x hx = ground arith

encode-shape :
    (x : ℕ) (xs : List ℕ)
    → (is_empty (encode (x ∷ xs)) ≡ false) × (length (encode (x ∷ xs)) % 4 ≡ 0)
unfolding encode
encode-shape x [] = (refl, refl)
encode-shape x (y ∷ []) = (refl, refl)
encode-shape x (y ∷ z ∷ []) = (refl, refl)
encode-shape x (y ∷ z ∷ w ∷ rest) = (refl, omega (arith, (encode-shape w rest).1))

module _ {V : Type 0} where
  base64_value-symbol : (n : ℕ) → n < 64 → base64_value {V = V} (symbol n) ≡ ok n
  unfolding base64_value symbol
  base64_value-symbol n h = ground arith

  decode_block-full :
      (last : Bool) (a b c d : ℕ)
      → a < 64
      → b < 64
      → c < 64
      → d < 64
      → decode_block {V = V} last (symbol a) (symbol b) (symbol c) (symbol d)
        ≡ ok (unpack false false (pack a b c d))
  unfolding decode_block
  decode_block-full true a b c d ha hb hc hd =
      rw
        (
          symbol-unpadded c,
          symbol-unpadded d,
          base64_value-symbol a ha,
          base64_value-symbol b hb,
          base64_value-symbol c hc,
          base64_value-symbol d hd,
        )
        refl
  decode_block-full false a b c d ha hb hc hd =
      rw
        (
          symbol-unpadded c,
          symbol-unpadded d,
          base64_value-symbol a ha,
          base64_value-symbol b hb,
          base64_value-symbol c hc,
          base64_value-symbol d hd,
        )
        refl

  decode_block-two :
      (a b c : ℕ)
      → a < 64
      → b < 64
      → c < 64
      → decode_block {V = V} true (symbol a) (symbol b) (symbol c) b'='
        ≡ ok (unpack false true (pack a b c 0))
  unfolding decode_block
  decode_block-two a b c ha hb hc =
      rw
        (
          symbol-unpadded c,
          base64_value-symbol a ha,
          base64_value-symbol b hb,
          base64_value-symbol c hc,
        )
        refl

  decode_block-one :
      (a b : ℕ)
      → a < 64
      → b < 64
      → decode_block {V = V} true (symbol a) (symbol b) b'=' b'='
        ≡ ok (unpack true true (pack a b 0 0))
  unfolding decode_block
  decode_block-one a b ha hb = rw (base64_value-symbol a ha, base64_value-symbol b hb) refl

  decode_blocks-encode :
      (bytes : List ℕ) → All IsByte bytes → decode_blocks {V = V} (encode bytes) ≡ ok bytes
  unfolding decode_blocks encode
  decode_blocks-encode [] h = refl
  decode_blocks-encode (x ∷ []) h =
      let block = decode_block-one (x / 4) (x % 4 * 16) (omega (arith, h.0)) (omega (arith, h.0)) in
      rw (block, one_byte x h.0) refl
  decode_blocks-encode (x ∷ y ∷ []) h =
      let block =
        decode_block-two (x / 4) (x % 4 * 16 + y / 16) (y % 16 * 4) (omega (arith, h.0))
          (omega (arith, h.1.0)) (omega arith) in
      rw (block, two_bytes x y h.0 h.1.0) refl
  decode_blocks-encode (x ∷ y ∷ z ∷ rest) h =
      let block =
        decode_block-full (is_empty (encode rest)) (x / 4) (x % 4 * 16 + y / 16)
          (y % 16 * 4 + z / 64) (z % 64) (omega (arith, h.0)) (omega (arith, h.1.0))
          (omega (arith, h.1.1.0)) (omega arith) in
      let whole = block ∙ ap ok (three_bytes x y z h.0 h.1.0 h.1.1.0) in
      rw (whole, decode_blocks-encode rest h.1.1.1) refl

  -- Decoding the standard base 64 encoding of a nonempty sequence of bytes gives the bytes back.
  pub decode_base64-encode :
      (bytes : List ℕ)
      → bytes ≢ []
      → All IsByte bytes
      → decode_base64 {V = V} (encode bytes) ≡ ok bytes
  unfolding decode_base64
  decode_base64-encode [] n h = absurd (n refl)
  decode_base64-encode (x ∷ xs) n h =
      let shape = encode-shape x xs in rw (shape.0, shape.1, decode_blocks-encode (x ∷ xs) h) refl
