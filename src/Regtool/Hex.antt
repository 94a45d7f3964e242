-- ===== src/Regtool/Hex.antt =====
-- Hexadecimal digits, which are read back and have no blanks.
use lacert.Prelude.{
  All, Bytes, IsBytes, [], arith, false, length, refl, some, ℕ, ◌%◌, ◌*◌, ◌+◌, ◌/◌, ◌<◌, ◌∷◌, ◌≡◌,
}
use lacert.Regtool.{encode_hex, decode_hex, is_blank, hex_digit, hex_value}

hex_value-digit : (n : ℕ) → n < 16 → hex_value (hex_digit n) ≡ some n
hex_value-digit n h = ground arith

pub decode-encode_hex : (bs : Bytes) → IsBytes bs → decode_hex (encode_hex bs) ≡ some bs
unfolding decode_hex encode_hex
decode-encode_hex [] h = refl
decode-encode_hex (b ∷ bs) (byte, rest) =
    let whole : b / 16 * 16 + b % 16 ≡ b = omega arith in
    rw
      (
        decode_hex,
        hex_value-digit (b / 16) (omega arith),
        hex_value-digit (b % 16) (omega arith),
        decode-encode_hex bs rest,
        whole,
      )
      refl

-- The text of a field.
abbrev pub IsText : Bytes → Type 0
IsText v = (0 < length v) × All (λ c. is_blank c ≡ false) v

pub length-encode_hex : (bs : Bytes) → length (encode_hex bs) ≡ length bs + length bs
unfolding encode_hex
length-encode_hex [] = refl
length-encode_hex (b ∷ bs) = rw (length-encode_hex bs) (omega arith)

hex_digit-solid : (n : ℕ) → is_blank (hex_digit n) ≡ false
hex_digit-solid n = ground arith

pub encode_hex-solid : (bs : Bytes) → All (λ c. is_blank c ≡ false) (encode_hex bs)
unfolding encode_hex
encode_hex-solid [] = tt
encode_hex-solid (b ∷ bs) =
    (hex_digit-solid (b / 16), (hex_digit-solid (b % 16), encode_hex-solid bs))

pub encode_hex-IsText : (bs : Bytes) → 0 < length bs → IsText (encode_hex bs)
encode_hex-IsText bs h = (rw (length-encode_hex bs) (omega arith), encode_hex-solid bs)
