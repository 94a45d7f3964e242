-- ===== src/Prelude/Encoding.antt =====
-- Byte strings, and the big-endian integers of Go's encoding/binary.
use Prim.Native.Nat.{ℕ, ◌+◌, ◌*◌, ◌/◌, ◌%◌, ◌^◌, ◌<◌}
use Prim.Native.Char.{code}
use Prim.Native.String.{String}
use mathlib.Core.Path.{◌≡◌, refl}
use mathlib.Core.List.{List, [], ◌∷◌, ◌++◌}
use native.Mathlib.Omega.{arith}
use lacert.Prelude.Lists.{All, length, take, drop}

-- A Go `[]byte`, and a Go `string`, which is one too.
abbrev pub Bytes : Type 0
Bytes = List ℕ

abbrev pub IsBytes : Bytes → Type 0
IsBytes = All (λ b. b < 256)

-- The bytes of an ASCII literal.
abbrev pub codes : String → Bytes
codes String.[] = []
codes (String.◌∷◌ c s) = code c ∷ codes s

abbrev pub u16_mod : ℕ
u16_mod = 65536

abbrev pub u32_mod : ℕ
u32_mod = 4294967296

abbrev pub u64_mod : ℕ
u64_mod = 18446744073709551616

unfoldable pub put_uint16 : ℕ → Bytes
put_uint16 n = n / 2 ^ 8 % 256 ∷ n % 256 ∷ []

unfoldable pub put_uint32 : ℕ → Bytes
put_uint32 n = n / 2 ^ 24 % 256 ∷ n / 2 ^ 16 % 256 ∷ n / 2 ^ 8 % 256 ∷ n % 256 ∷ []

unfoldable pub put_uint64 : ℕ → Bytes
unfolding put_uint32
put_uint64 n = put_uint32 (n / 2 ^ 32) ++ put_uint32 n

-- Reading panics on fewer bytes; each call stands behind a test of the length, so the value
-- given to a short string is never used.
abbrev pub uint16 : Bytes → ℕ
uint16 (a ∷ b ∷ _) = a * 2 ^ 8 + b
uint16 _ = 0

abbrev pub uint32 : Bytes → ℕ
uint32 (a ∷ b ∷ c ∷ d ∷ _) = a * 2 ^ 24 + b * 2 ^ 16 + c * 2 ^ 8 + d
uint32 _ = 0

abbrev pub uint64 : Bytes → ℕ
uint64 bs = uint32 (take 4 bs) * 2 ^ 32 + uint32 (drop 4 bs)

pub uint16-put_uint16 : (n : ℕ) (rest : Bytes) → n < u16_mod → uint16 (put_uint16 n ++ rest) ≡ n
unfolding put_uint16
uint16-put_uint16 n rest h = omega arith

pub uint32-put_uint32 : (n : ℕ) (rest : Bytes) → n < u32_mod → uint32 (put_uint32 n ++ rest) ≡ n
unfolding put_uint32
uint32-put_uint32 n rest h = omega arith

pub uint32-put_uint32_mod : (n : ℕ) → uint32 (put_uint32 n) ≡ n % u32_mod
unfolding put_uint32
uint32-put_uint32_mod n = omega arith

pub uint64-put_uint64 : (n : ℕ) (rest : Bytes) → n < u64_mod → uint64 (put_uint64 n ++ rest) ≡ n
unfolding put_uint64
uint64-put_uint64 n rest h =
    omega (arith, uint32-put_uint32 (n / 2 ^ 32) [] (omega arith), uint32-put_uint32_mod n)

pub put_uint16-uint16 : (a b : ℕ) → a < 256 → b < 256 → put_uint16 (a * 2 ^ 8 + b) ≡ a ∷ b ∷ []
unfolding put_uint16
put_uint16-uint16 a b h k = ground arith

pub length-put_uint16 : (n : ℕ) → length (put_uint16 n) ≡ 2
unfolding put_uint16
length-put_uint16 n = refl

pub length-put_uint32 : (n : ℕ) → length (put_uint32 n) ≡ 4
unfolding put_uint32
length-put_uint32 n = refl

pub length-put_uint64 : (n : ℕ) → length (put_uint64 n) ≡ 8
unfolding put_uint64
length-put_uint64 n = refl
