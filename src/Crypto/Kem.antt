-- ===== src/Crypto/Kem.antt =====
-- internal/crypto/identity.go: ML-KEM-1024 keys and secrets. The randomness that `Encapsulate`
-- draws is its argument `seed`.
use lacert.Prelude.{
  Bytes, Result, err, if◌then◌else◌, length, list_eq, nat_eq, not, ok, pair_eq, require, string_eq,
  ◌==◌,
}
use lacert.Crypto.Primitives.{Kem, kem_public_key_size, kem_ciphertext_size}
use lacert.Crypto.Session.{CryptoError, bad_public_key, bad_ciphertext_size}

pub record KemKeyPair (PK SK : Type 0) : Type 0 where
  pub public_key : PK
  pub private_key : SK

module _ {PK SK : Type 0} (kem : Kem PK SK) where
  unfoldable pub unpack_kem_public_key : Bytes → Result CryptoError PK
  unpack_kem_public_key b =
      if not (length b == kem_public_key_size)
      then err bad_public_key
      else require bad_public_key (kem.unpack b)

  unfoldable pub encapsulate : PK → Bytes → Bytes × Bytes
  encapsulate pub_key seed = (kem.ciphertext pub_key seed, kem.shared_key pub_key seed)

  unfoldable pub decapsulate : SK → Bytes → Result CryptoError Bytes
  decapsulate priv ciphertext =
      if not (length ciphertext == kem_ciphertext_size)
      then err bad_ciphertext_size
      else ok (kem.decapsulate_to priv ciphertext)

  -- `KEMKeyPair.PublicKeyBytes`
  unfoldable pub kem_public_key_bytes : KemKeyPair PK SK → Bytes
  kem_public_key_bytes kp = kem.pack kp.public_key
