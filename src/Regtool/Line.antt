-- ===== src/Regtool/Line.antt =====
-- A device's line, read back.
use lacert.Prelude.{
  All, Bool, Bool-cases, Bytes, IsBytes, Map, [], ap, append-nil, append_assoc, arith, codes,
  copy_whole, err, false, inl, inr, insert, length, length-take, list_eq, lookup, nat_eq, ok,
  pair_eq, refl, replicate, some, string_eq, suc, sym, take, true, zero, ℕ, ◌&&◌, ◌++◌, ◌<◌, ◌==◌,
  ◌∙◌, ◌∷◌, ◌≡◌,
}
use lacert.Crypto.Primitives.{Blake3}
use lacert.Regtool.{
  SerialOutput, encode_hex, compute_checksum, decode_hex, to_line, is_word, is_blank, looking,
  after_equals, in_value, advance, stored, collect, hex_field, text_field, parse, bad_hash_size,
}
use lacert.Regtool.Hex.{
  decode-encode_hex, IsText, length-encode_hex, encode_hex-solid, encode_hex-IsText,
}

test_line :
    parse (
      codes
        "  DeviceID=a-1 IdentityPub=0a IdentityPub=0Bff =x KEMPub= KEMPub=01 FirmwareHash=01 Checksum=z")
    ≡ err (bad_hash_size 1)
unfolding parse collect hex_field lacert.Prelude.lookup insert decode_hex
test_line = refl

collect-key :
    (u key rest : Bytes) (m : Map Bytes Bytes)
    → All (λ c. is_word c ≡ true) key
    → collect (looking u) m (key ++ rest) ≡ collect (looking (u ++ key)) m rest
unfolding collect advance stored
collect-key u [] rest m h = rw (append-nil u) refl
collect-key u (c ∷ key) rest m (word, h) =
    rw (collect, advance, word)
      (collect-key (u ++ (c ∷ [])) key rest m h
        ∙ ap (λ k. collect (looking k) m rest) (append_assoc u (c ∷ []) key))

collect-value :
    (key u value rest : Bytes) (m : Map Bytes Bytes)
    → All (λ c. is_blank c ≡ false) value
    → collect (in_value key u) m (value ++ (32 ∷ rest))
      ≡ collect (looking []) (insert key (u ++ value) m) rest
unfolding collect advance stored
collect-value key u [] rest m h = rw (append-nil u) refl
collect-value key u (c ∷ value) rest m (solid, h) =
    rw (collect, advance, stored, solid)
      (collect-value key (u ++ (c ∷ [])) value rest m h
        ∙ ap (λ v. collect (looking []) (insert key v m) rest) (append_assoc u (c ∷ []) value))

collect-last :
    (key u value : Bytes) (m : Map Bytes Bytes)
    → All (λ c. is_blank c ≡ false) value
    → collect (in_value key u) m value ≡ insert key (u ++ value) m
unfolding collect advance stored
collect-last key u [] m h = rw (append-nil u) refl
collect-last key u (c ∷ value) m (solid, h) =
    rw (collect, advance, stored, solid)
      (collect-last key (u ++ (c ∷ [])) value m h
        ∙ ap (λ v. insert key v m) (append_assoc u (c ∷ []) value))

-- A key that a match of the regular expression can have.
abbrev is_key : Bytes → Bool
is_key [] = false
is_key (c ∷ []) = is_word c
is_key (c ∷ d ∷ key) = is_word c && is_key (d ∷ key)

words_of_key : (key : Bytes) → is_key key ≡ true → All (λ c. is_word c ≡ true) key
words_of_key [] h = tt
words_of_key (c ∷ []) h = (h, tt)
words_of_key (c ∷ d ∷ key) h = elim (Bool-cases (is_word c)) [
  | inl word ↦ (word, words_of_key (d ∷ key) (sym (ap (λ b. b && is_key (d ∷ key)) word) ∙ h))
  | inr other ↦ absurd (cc (sym (ap (λ b. b && is_key (d ∷ key)) other) ∙ h))
]

key_is_some : (key : Bytes) → is_key key ≡ true → (key == []) ≡ false
key_is_some [] h = absurd (cc h)
key_is_some (c ∷ key) h = refl

-- Behind the `=`, at the start of a value.
collect-equals :
    (key rest : Bytes) (m : Map Bytes Bytes)
    → is_key key ≡ true
    → collect (looking []) m (key ++ (61 ∷ rest)) ≡ collect (after_equals key) m rest
unfolding collect advance stored
collect-equals key rest m h =
    collect-key [] key (61 ∷ rest) m (words_of_key key h)
    ∙ rw (collect, advance, stored, key_is_some key h) refl

collect-field :
    (key value rest : Bytes) (m : Map Bytes Bytes)
    → is_key key ≡ true
    → IsText value
    → collect (looking []) m (key ++ (61 ∷ (value ++ (32 ∷ rest))))
      ≡ collect (looking []) (insert key value m) rest
unfolding collect advance stored
collect-field key [] rest m h (some_text, _) = absurd (omega arith)
collect-field key (x ∷ xs) rest m h (_, (solid, more)) =
    collect-equals key ((x ∷ xs) ++ (32 ∷ rest)) m h
    ∙ rw (collect, advance, stored, solid) (collect-value key (x ∷ []) xs rest m more)

collect-last_field :
    (key value : Bytes) (m : Map Bytes Bytes)
    → is_key key ≡ true
    → IsText value
    → collect (looking []) m (key ++ (61 ∷ value)) ≡ insert key value m
unfolding collect advance stored
collect-last_field key [] m h (some_text, _) = absurd (omega arith)
collect-last_field key (x ∷ xs) m h (_, (solid, more)) =
    collect-equals key (x ∷ xs) m h
    ∙ rw (collect, advance, stored, solid) (collect-last key (x ∷ []) xs m more)

-- The five fields of a line.
fields_of : SerialOutput → Map Bytes Bytes
fields_of s =
    (codes "DeviceID", s.device_id)
    ∷ (codes "IdentityPub", encode_hex s.identity_pub)
    ∷ (codes "KEMPub", encode_hex s.kem_pub)
    ∷ (codes "FirmwareHash", encode_hex s.firmware_hash)
    ∷ (codes "Checksum", s.checksum)
    ∷ []

-- What a line can carry: the texts are not empty and have no blanks, the numbers are bytes.
pub record IsPrintable (s : SerialOutput) : Type 0 where
  pub id_text : IsText s.device_id
  pub identity_bytes : IsBytes s.identity_pub
  pub some_identity : 0 < length s.identity_pub
  pub kem_bytes : IsBytes s.kem_pub
  pub some_kem : 0 < length s.kem_pub
  pub hash_bytes : IsBytes s.firmware_hash
  pub hash_size : length s.firmware_hash ≡ 32
  pub checksum_text : IsText s.checksum

collect-to_line :
    (s : SerialOutput) → IsPrintable s → collect (looking []) [] (to_line s) ≡ fields_of s
unfolding to_line insert fields_of
collect-to_line s p =
    let part4 : Bytes = codes "Checksum" ++ (61 ∷ s.checksum) in
    let part3 : Bytes =
      codes "FirmwareHash" ++ (61 ∷ (encode_hex s.firmware_hash ++ (32 ∷ part4))) in
    let part2 : Bytes = codes "KEMPub" ++ (61 ∷ (encode_hex s.kem_pub ++ (32 ∷ part3))) in
    let part1 : Bytes = codes "IdentityPub" ++ (61 ∷ (encode_hex s.identity_pub ++ (32 ∷ part2))) in
    let parts : to_line s ≡ codes "DeviceID" ++ (61 ∷ (s.device_id ++ (32 ∷ part1))) =
      simp append_assoc in
    ap (λ line. collect (looking []) [] line) parts
    ∙ collect-field (codes "DeviceID") s.device_id part1 [] refl p.id_text
    ∙ collect-field (codes "IdentityPub") _ part2 _ refl
        (encode_hex-IsText s.identity_pub p.some_identity)
    ∙ collect-field (codes "KEMPub") _ part3 _ refl (encode_hex-IsText s.kem_pub p.some_kem)
    ∙ collect-field (codes "FirmwareHash") _ part4 _ refl
        (encode_hex-IsText s.firmware_hash (rw p.hash_size (omega arith)))
    ∙ collect-last_field (codes "Checksum") s.checksum _ refl p.checksum_text

text_is_some : (v : Bytes) → IsText v → (v == []) ≡ false
text_is_some [] (some_text, _) = absurd (omega arith)
text_is_some (x ∷ xs) h = refl

text_field-found :
    (fields : Map Bytes Bytes) (key v : Bytes)
    → lookup key fields ≡ some v
    → IsText v
    → text_field fields key ≡ ok v
text_field-found fields key v found text = rw (text_field, found, text_is_some v text) refl

hex_field-found :
    (fields : Map Bytes Bytes) (key bs : Bytes)
    → lookup key fields ≡ some (encode_hex bs)
    → IsBytes bs
    → 0 < length bs
    → hex_field fields key ≡ ok bs
unfolding hex_field
hex_field-found fields key bs found bytes some_bytes =
    rw
      (
        text_field-found fields key (encode_hex bs) found (encode_hex-IsText bs some_bytes),
        decode-encode_hex bs bytes,
      )
      refl

-- What a device prints is read back as it was, if its texts have no blanks.
pub parse-to_line : (s : SerialOutput) → IsPrintable s → parse (to_line s) ≡ ok s
unfolding parse fields_of lookup
parse-to_line s p =
    rw
      (
        collect-to_line s p,
        text_field-found (fields_of s) (codes "DeviceID") s.device_id refl p.id_text,
        hex_field-found (fields_of s) (codes "IdentityPub") s.identity_pub refl p.identity_bytes
            p.some_identity,
        hex_field-found (fields_of s) (codes "KEMPub") s.kem_pub refl p.kem_bytes p.some_kem,
        hex_field-found (fields_of s) (codes "FirmwareHash") s.firmware_hash refl p.hash_bytes
            (rw p.hash_size (omega arith)),
        p.hash_size,
        text_field-found (fields_of s) (codes "Checksum") s.checksum refl p.checksum_text,
        copy_whole (replicate 32 0) s.firmware_hash (sym p.hash_size),
      )
      refl

take-solid :
    (n : ℕ) (xs : Bytes)
    → All (λ c. is_blank c ≡ false) xs
    → All (λ c. is_blank c ≡ false) (take n xs)
take-solid zero xs h = tt
take-solid (suc n) [] h = tt
take-solid (suc n) (x ∷ xs) (solid, h) = (solid, take-solid n xs h)

-- A checksum is a text.
pub compute_checksum-IsText :
    (hash : Blake3) (id identity kem firmware : Bytes)
    → IsText (compute_checksum hash id identity kem firmware)
unfolding compute_checksum
compute_checksum-IsText hash id identity kem firmware =
    let sum = hash.sum (id ++ identity ++ kem ++ firmware) in
    (
      rw (length-take 8 (encode_hex sum), length-encode_hex sum, hash.length-sum _) (omega arith),
      take-solid 8 (encode_hex sum) (encode_hex-solid sum),
    )
