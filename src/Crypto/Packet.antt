-- ===== src/Crypto/Packet.antt =====
-- internal/crypto/aead.go: sealed data packets. The 8 random bytes of the nonce are an argument.
use lacert.Prelude.{
  Bytes, Result, [], append-nil, arith, drop-append, err, if◌then◌else◌, length, length-append,
  length-put_uint32, le→ltb, list_eq, ltb, nat_beq_iff, nat_eq, not, ok, pair_eq, put_uint32, refl,
  require, some, string_eq, true, u32_mod, uint32, uint32-put_uint32, ℕ, ◌++◌, ◌<◌, ◌==◌, ◌≡◌, ◌≤◌,
}
use lacert.Crypto.Primitives.{Aead}
use lacert.Crypto.Session.{
  CryptoError, payload_too_large, bad_nonce_size, authentication_failed, seq_from_nonce,
}

abbrev pub max_payload_size : ℕ
max_payload_size = 380

module _ (aead : Aead) where
  unfoldable pub encrypt_packet : Bytes → ℕ → Bytes → Bytes → Result CryptoError (Bytes × Bytes)
  encrypt_packet key seq_num random plaintext =
      let nonce = random ++ put_uint32 seq_num in
      if ltb max_payload_size (length plaintext)
      then err payload_too_large
      else ok (nonce, aead.seal key nonce plaintext)

  unfoldable pub decrypt_packet : Bytes → Bytes → Bytes → Result CryptoError Bytes
  decrypt_packet key nonce ciphertext =
      if not (length nonce == 12)
      then err bad_nonce_size
      else require authentication_failed (aead.open_sealed key nonce ciphertext)

  -- A packet is opened to its text under the key it was sealed with, and the receiver reads its
  -- sequence number off the nonce: if the text is within the limit, the number within 32 bits, and
  -- opening undoes sealing.
  pub decrypt-encrypt_packet :
      (key random plaintext : Bytes) (seq_num : ℕ)
      → ((k n p : Bytes) → aead.open_sealed k n (aead.seal k n p) ≡ some p)
      → length random ≡ 8
      → seq_num < u32_mod
      → length plaintext ≤ max_payload_size
      → (nonce ciphertext : Bytes) × (encrypt_packet key seq_num random plaintext
          ≡ ok (nonce, ciphertext))
        × (decrypt_packet key nonce ciphertext ≡ ok plaintext)
        × (seq_from_nonce nonce ≡ some seq_num)
  unfolding encrypt_packet decrypt_packet seq_from_nonce
  decrypt-encrypt_packet key random plaintext seq_num opens hr hs hp =
      let nonce = random ++ put_uint32 seq_num in
      let size : length nonce ≡ 12 =
        omega (arith, length-append random (put_uint32 seq_num), length-put_uint32 seq_num) in
      let sized : (length nonce == 12) ≡ true = (nat_beq_iff _ _).1 size in
      let read : uint32 (put_uint32 seq_num) ≡ seq_num =
        rw append-nil at (uint32-put_uint32 seq_num [] hs) in
      (
        nonce,
        aead.seal key nonce plaintext,
        rw (le→ltb max_payload_size (length plaintext) hp) refl,
        rw (sized, opens key nonce plaintext) refl,
        rw (sized, drop-append 8 random (put_uint32 seq_num) hr, read) refl,
      )
