-- ===== src/Crypto/Signature.antt =====
-- internal/crypto/identity.go: the device's signature key, of one of three schemes. A key pair is
-- its scheme, its public bytes and the library's signing call for its private part, which draws its
-- own randomness.
use lacert.Prelude.{
  Bool, Bytes, Option, Result, err, if◌then◌else◌, length, list_eq, nat_eq, none, ok, pair_eq, refl,
  require, some, string_eq, true, ℕ, ◌==◌, ◌≡◌,
}
use lacert.Crypto.Primitives.{Signatures}
use lacert.Crypto.Session.{CryptoError, bad_public_key, bad_signature, unknown_algorithm}

-- `type SigAlgorithm int`: its three constants, and every other number.
pub data SigAlgorithm : Type 0 where
  ecdsa_p256 slhdsa ed25519 unknown : SigAlgorithm

pub record IdentityKeyPair : Type 0 where
  pub algorithm : SigAlgorithm
  pub public_key : Bytes
  pub sign_raw : Bytes → Option Bytes

abbrev pub ed25519_key_size : ℕ
ed25519_key_size = 32

module _ (sig : Signatures) where
  -- The form of a key, by its scheme.
  unfoldable pub check_key : SigAlgorithm → Bytes → Result CryptoError (Unit {0})
  check_key ecdsa_p256 b = if sig.p256_point b then ok tt else err bad_public_key
  check_key slhdsa b = if sig.slhdsa_key b then ok tt else err bad_public_key
  check_key ed25519 b = if length b == ed25519_key_size then ok tt else err bad_public_key
  check_key unknown b = err unknown_algorithm

  unfoldable pub validate_identity_public_key : SigAlgorithm → Bytes → Result CryptoError (Unit {0})
  unfolding check_key
  validate_identity_public_key alg b = if length b == 0 then err bad_public_key else check_key alg b

  -- `IdentityKeyPair.PublicKeyBytes`
  unfoldable pub public_key_bytes : IdentityKeyPair → Result CryptoError Bytes
  public_key_bytes kp = elim kp.algorithm [
    | ecdsa_p256 ↦ if sig.p256_point kp.public_key then ok kp.public_key else err bad_public_key
    | slhdsa ↦ ok kp.public_key
    | ed25519 ↦ ok kp.public_key
    | unknown ↦ err unknown_algorithm
  ]

  unfoldable pub sign : IdentityKeyPair → Bytes → Result CryptoError Bytes
  sign kp message = elim kp.algorithm [
    | ecdsa_p256 ↦ require bad_signature (kp.sign_raw (sig.sha256 message))
    | slhdsa ↦ require bad_signature (kp.sign_raw message)
    | ed25519 ↦ require bad_signature (kp.sign_raw message)
    | unknown ↦ err unknown_algorithm
  ]

  unfoldable pub verify_signature : SigAlgorithm → Bytes → Bytes → Bytes → Result CryptoError Bool
  verify_signature ecdsa_p256 key message signature =
      if sig.p256_point key
      then ok (sig.ecdsa_verify key (sig.sha256 message) signature)
      else err bad_public_key
  verify_signature slhdsa key message signature =
      if sig.slhdsa_key key
      then ok (sig.slhdsa_verify key message signature)
      else err bad_public_key
  verify_signature ed25519 key message signature =
      if length key == ed25519_key_size
      then ok (sig.ed25519_verify key message signature)
      else err bad_public_key
  verify_signature unknown key message signature = err unknown_algorithm

  -- A scheme's correctness for one key pair: its public key is well-formed, and what the private
  -- part signs is verified.
  unfoldable pub IsKeyOf : SigAlgorithm → Bytes → (Bytes → Option Bytes) → Type 0
  IsKeyOf ecdsa_p256 key raw =
      (sig.p256_point key ≡ true)
      × ((m s : Bytes) → raw m ≡ some s → sig.ecdsa_verify key m s ≡ true)
  IsKeyOf slhdsa key raw =
      (sig.slhdsa_key key ≡ true)
      × ((m s : Bytes) → raw m ≡ some s → sig.slhdsa_verify key m s ≡ true)
  IsKeyOf ed25519 key raw =
      (length key ≡ ed25519_key_size)
      × ((m s : Bytes) → raw m ≡ some s → sig.ed25519_verify key m s ≡ true)
  IsKeyOf unknown key raw = ⊥

  require_ok :
      {A : Type 0} (e : CryptoError) (o : Option A) (a : A) → require e o ≡ ok a → o ≡ some a
  require_ok e none a h = cc
  require_ok e (some b) a h = cc

  pub verify_signature-sign :
      (alg : SigAlgorithm) (key : Bytes) (raw : Bytes → Option Bytes) (message s : Bytes)
      → IsKeyOf alg key raw
      → sign (record { algorithm = alg; public_key = key; sign_raw = raw }) message ≡ ok s
      → verify_signature alg key message s ≡ ok true
  unfolding sign verify_signature IsKeyOf
  verify_signature-sign ecdsa_p256 key raw message s (form, correct) h =
      rw (form, correct (sig.sha256 message) s (require_ok _ _ s h)) refl
  verify_signature-sign slhdsa key raw message s (form, correct) h =
      rw (form, correct message s (require_ok _ _ s h)) refl
  verify_signature-sign ed25519 key raw message s (form, correct) h =
      rw (form, correct message s (require_ok _ _ s h)) refl
  verify_signature-sign unknown key raw message s never h = absurd never
