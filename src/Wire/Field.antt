-- ===== src/Wire/Field.antt =====
-- internal/wire/wire.go: fields behind a length of two bytes.
use lacert.Prelude.{
  Bytes, IsBytes, Result, [], ap, append-nil, arith, drop, drop-append, err, if◌then◌else◌, length,
  length-append, length-take, ltb, ok, put_uint16, put_uint16-uint16, refl, sym, take, take-append,
  take-append-drop, uint16, uint16-put_uint16, ℕ, ◌*◌, ◌++◌, ◌+◌, ◌<◌, ◌^◌, ◌∷◌, ◌≡◌, ◌≤◌,
}
use lacert.Wire.Frame.{WireError, unexpected_eof, field_too_large}

abbrev pub max_field_size : ℕ
max_field_size = 0xFFFF

unfoldable pub put_framed : Bytes → Bytes → Result WireError Bytes
put_framed buf field =
    if ltb max_field_size (length field)
    then err field_too_large
    else ok ((buf ++ put_uint16 (length field)) ++ field)

-- The field and what follows it.
unfoldable pub take_framed : Bytes → Result WireError (Bytes × Bytes)
take_framed buf =
    if ltb (length buf) 2
    then err unexpected_eof
    else let n = uint16 buf in
      if ltb (length buf) (2 + n)
      then err unexpected_eof
      else ok (take n (drop 2 buf), drop n (drop 2 buf))

-- A field fits exactly when its length fits two bytes; otherwise the encoder panics.
pub put_framed-fits :
    (buf field : Bytes)
    → length field ≤ max_field_size
    → put_framed buf field ≡ ok ((buf ++ put_uint16 (length field)) ++ field)
unfolding put_framed
put_framed-fits buf field h = ground arith

pub put_framed-too-large :
    (buf field : Bytes) → max_field_size < length field → put_framed buf field ≡ err field_too_large
unfolding put_framed
put_framed-too-large buf field h = ground arith

pub take_framed-put :
    (field rest : Bytes)
    → length field ≤ max_field_size
    → take_framed (put_uint16 (length field) ++ (field ++ rest)) ≡ ok (field, rest)
unfolding take_framed put_uint16
take_framed-put field rest h =
    let e = uint16-put_uint16 (length field) (field ++ rest) (omega arith) in
    rw e (
      rw (take-append _ field rest refl, drop-append _ field rest refl)
        (ground (arith, length-append field rest)))

-- What `take_framed` returns are two pieces of its input: no read goes out of range.
pub take_framed-eq-ok :
    (buf field rest : Bytes)
    → IsBytes buf
    → take_framed buf ≡ ok (field, rest)
    → (buf ≡ put_uint16 (length field) ++ (field ++ rest)) × (length field ≤ max_field_size)
unfolding take_framed put_uint16
take_framed-eq-ok [] field rest bytes h = cc
take_framed-eq-ok (a ∷ []) field rest bytes h = cc
take_framed-eq-ok (a ∷ b ∷ buf) field rest (ha, (hb, hs)) h =
    let n = a * 2 ^ 8 + b in
    let parts : (n ≤ length buf) × (take n buf ≡ field) × (drop n buf ≡ rest) = ground arith in
    let len : length field ≡ n = omega (arith, length-take n buf, ap length parts.1) in
    let whole : field ++ rest ≡ buf = rw (← parts.1, ← parts.2) (take-append-drop n buf) in
    (rw (len, whole) (ap (λ p. p ++ buf) (sym (put_uint16-uint16 a b ha hb))), omega arith)

pub take_framed-put_last :
    (field : Bytes)
    → length field ≤ max_field_size
    → take_framed (put_uint16 (length field) ++ field) ≡ ok (field, [])
take_framed-put_last field h = rw append-nil at (take_framed-put field [] h)
