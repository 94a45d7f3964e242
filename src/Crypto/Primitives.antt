-- ===== src/Crypto/Primitives.antt =====
-- The cryptographic libraries that the code calls, as parameters: BLAKE3 (zeebo/blake3), SHA-256,
-- ML-KEM-1024 and SLH-DSA (cloudflare/circl), ChaCha20-Poly1305 (x/crypto), ECDSA and Ed25519.
-- The laws are the sizes that their documentation fixes. What else a theorem needs of them
-- (decapsulation undoes encapsulation, opening undoes sealing) is a hypothesis of that theorem.
use lacert.Prelude.{ℕ, ◌≡◌, Bool, Option, Bytes, length}

-- `blake3.New()`, writes, `Sum(nil)`: the sum of what was written, one write after the other.
pub record Blake3 : Type 0 where
  pub sum : Bytes → Bytes
  pub length-sum : (m : Bytes) → length (sum m) ≡ 32

abbrev pub kem_public_key_size : ℕ
kem_public_key_size = 1568

abbrev pub kem_ciphertext_size : ℕ
kem_ciphertext_size = 1568

-- `mlkem1024`. The randomness that encapsulation draws is its argument.
pub record Kem (PK SK : Type 0) : Type 0 where
  pub pack : PK → Bytes
  pub unpack : Bytes → Option PK
  pub ciphertext : PK → Bytes → Bytes
  pub shared_key : PK → Bytes → Bytes
  pub decapsulate_to : SK → Bytes → Bytes
  pub length-pack : (pk : PK) → length (pack pk) ≡ kem_public_key_size
  pub length-ciphertext :
      (pk : PK) (seed : Bytes) → length (ciphertext pk seed) ≡ kem_ciphertext_size
  pub length-shared_key : (pk : PK) (seed : Bytes) → length (shared_key pk seed) ≡ 32
  pub length-decapsulate_to : (sk : SK) (ct : Bytes) → length (decapsulate_to sk ct) ≡ 32

-- ML-KEM's correctness for a key pair (decryption failures, of probability 2^-174, apart).
abbrev pub IsKeyPair : {PK SK : Type 0} → Kem PK SK → PK → SK → Type 0
IsKeyPair kem pk sk =
    (seed : Bytes) → kem.decapsulate_to sk (kem.ciphertext pk seed) ≡ kem.shared_key pk seed

-- `chacha20poly1305`: key, nonce, text.
pub record Aead : Type 0 where
  pub seal : Bytes → Bytes → Bytes → Bytes
  pub open_sealed : Bytes → Bytes → Bytes → Option Bytes

-- The signature libraries. A parser says whether the bytes are a public key; verification takes
-- the key's bytes, the message (for ECDSA its SHA-256 digest) and the signature.
pub record Signatures : Type 0 where
  pub sha256 : Bytes → Bytes
  pub p256_point : Bytes → Bool
  pub ecdsa_verify : Bytes → Bytes → Bytes → Bool
  pub slhdsa_key : Bytes → Bool
  pub slhdsa_verify : Bytes → Bytes → Bytes → Bool
  pub ed25519_verify : Bytes → Bytes → Bytes → Bool
  pub length-sha256 : (m : Bytes) → length (sha256 m) ≡ 32

pub record Primitives (PK SK : Type 0) : Type 0 where
  pub hash : Blake3
  pub kem : Kem PK SK
  pub aead : Aead
  pub sig : Signatures
