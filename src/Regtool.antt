-- ===== src/Regtool.antt =====
-- internal/regtool/regtool.go: the line that a device prints on its serial port, and its checksum,
-- eight hexadecimal digits of a BLAKE3 sum.
pub mod Hex
pub mod Line
use lacert.Prelude.{
  Bool, Bytes, Map, Option, Result, [], codes, copy, err, fail_if, if◌then◌else◌, insert, leb,
  length, list_eq, lookup, ltb, nat_eq, none, not, ok, pair_eq, replicate, require, some, string_eq,
  take, ℕ, ◌%◌, ◌&&◌, ◌*◌, ◌++◌, ◌+◌, ◌-◌, ◌/◌, ◌==◌, ◌>>=◌, ◌>>◌, ◌||◌, ◌∷◌,
}
use lacert.Crypto.Primitives.{Blake3}

pub record SerialOutput : Type 0 where
  pub device_id : Bytes
  pub identity_pub : Bytes
  pub kem_pub : Bytes
  pub firmware_hash : Bytes
  pub checksum : Bytes

abbrev hex_digit : ℕ → ℕ
hex_digit n = if ltb n 10 then 48 + n else 87 + n

-- `hex.EncodeToString`
unfoldable pub encode_hex : Bytes → Bytes
encode_hex [] = []
encode_hex (b ∷ bs) = hex_digit (b / 16) ∷ hex_digit (b % 16) ∷ encode_hex bs

unfoldable pub compute_checksum : Blake3 → Bytes → Bytes → Bytes → Bytes → Bytes
compute_checksum hash device_id identity_pub kem_pub firmware_hash =
    take 8 (encode_hex (hash.sum (device_id ++ identity_pub ++ kem_pub ++ firmware_hash)))

unfoldable pub build_serial_output : Blake3 → Bytes → Bytes → Bytes → Bytes → SerialOutput
build_serial_output hash device_id identity_pub kem_pub firmware_hash = record {
  device_id = device_id;
  identity_pub = identity_pub;
  kem_pub = kem_pub;
  firmware_hash = firmware_hash;
  checksum = compute_checksum hash device_id identity_pub kem_pub firmware_hash;
}

unfoldable pub verify_checksum : Blake3 → SerialOutput → Bool
verify_checksum hash out =
    compute_checksum hash out.device_id out.identity_pub out.kem_pub out.firmware_hash
    == out.checksum

-- `fromHexChar` of encoding/hex
abbrev hex_value : ℕ → Option ℕ
hex_value c =
    if leb 48 c && leb c 57
    then some (c - 48)
    else if leb 97 c && leb c 102
    then some (c - 87)
    else if leb 65 c && leb c 70
    then some (c - 55)
    else none

-- `hex.DecodeString`
unfoldable pub decode_hex : Bytes → Option Bytes
decode_hex [] = some []
decode_hex (a ∷ []) = none
decode_hex (a ∷ b ∷ rest) = elim (hex_value a) [
  | none ↦ none
  | some high ↦ elim (hex_value b) [
    | none ↦ none
    | some low ↦ elim (decode_hex rest) [ none ↦ none | some bs ↦ some ((high * 16 + low) ∷ bs) ]
  ]
]

-- `SerialOutput.String`
unfoldable pub to_line : SerialOutput → Bytes
to_line s =
    codes "DeviceID="
    ++ s.device_id
    ++ codes " IdentityPub="
    ++ encode_hex s.identity_pub
    ++ codes " KEMPub="
    ++ encode_hex s.kem_pub
    ++ codes " FirmwareHash="
    ++ encode_hex s.firmware_hash
    ++ codes " Checksum="
    ++ s.checksum

-- `\w`
abbrev pub is_word : ℕ → Bool
is_word c = (leb 48 c && leb c 57) || (leb 65 c && leb c 90) || (leb 97 c && leb c 122) || c == 95

-- `\s`
abbrev pub is_blank : ℕ → Bool
is_blank c = c == 9 || c == 10 || c == 12 || c == 13 || c == 32

-- How far a match of `(\w+)=(\S+)` has got: in the run of word characters that may be its key, behind
-- the `=`, or in its value. The runs are as long as they can be, so a search never goes back.
pub data Scan : Type 0 where
  looking : Bytes → Scan
  after_equals : Bytes → Scan
  in_value : Bytes → Bytes → Scan

unfoldable pub advance : ℕ → Scan → Scan
advance c (looking key) =
    if is_word c
    then looking (key ++ (c ∷ []))
    else if c == 61 && not (key == [])
    then after_equals key
    else looking []
advance c (after_equals key) = if is_blank c then looking [] else in_value key (c ∷ [])
advance c (in_value key value) = if is_blank c then looking [] else in_value key (value ++ (c ∷ []))

unfoldable pub stored : ℕ → Scan → Map Bytes Bytes → Map Bytes Bytes
stored c (looking _) fields = fields
stored c (after_equals _) fields = fields
stored c (in_value key value) fields = if is_blank c then insert key value fields else fields

-- The map of all matches, in their order.
unfoldable pub collect : Scan → Map Bytes Bytes → Bytes → Map Bytes Bytes
unfolding advance stored
collect (looking _) fields [] = fields
collect (after_equals _) fields [] = fields
collect (in_value key value) fields [] = insert key value fields
collect s fields (c ∷ cs) = collect (advance c s) (stored c s fields) cs

pub data SerialError : Type 0 where
  missing_field : Bytes → SerialError
  bad_hex : Bytes → SerialError
  bad_hash_size : ℕ → SerialError

-- The fields that are no hexadecimal numbers.
abbrev pub text_field : Map Bytes Bytes → Bytes → Result SerialError Bytes
text_field fields key = elim (lookup key fields) [
  | none ↦ err (missing_field key)
  | some v ↦ if v == [] then err (missing_field key) else ok v
]

unfoldable pub hex_field : Map Bytes Bytes → Bytes → Result SerialError Bytes
hex_field fields key = text_field fields key >>= (λ v. require (bad_hex key) (decode_hex v))

-- `Parse`
unfoldable pub parse : Bytes → Result SerialError SerialOutput
unfolding collect hex_field
parse line =
    let fields = collect (looking []) [] line in
    text_field fields (codes "DeviceID") >>= (λ device_id.
      hex_field fields (codes "IdentityPub") >>= (λ identity_pub.
        hex_field fields (codes "KEMPub") >>= (λ kem_pub.
          hex_field fields (codes "FirmwareHash") >>= (λ hash.
            fail_if (not (length hash == 32)) (bad_hash_size (length hash))
            >> text_field fields (codes "Checksum")
            >>= (λ checksum. ok (record {
              device_id = device_id;
              identity_pub = identity_pub;
              kem_pub = kem_pub;
              firmware_hash = copy (replicate 32 0) hash;
              checksum = checksum;
            }))))))
