-- ===== src/Crypto/Handshake.antt =====
-- internal/crypto/handshake.go: the three messages. The randomness of the KEM and of the nonces are
-- arguments. `writeFramed` panics for a field above 65535 bytes; that is an error here.
use lacert.Prelude.{
  Bytes, Option, Result, Result-cases, [], arith, codes, err, if◌then◌else◌, inl, inr, length,
  list_eq, ltb, nat_beq_iff, nat_eq, ok, pair_eq, put_uint16, refl, string_eq, true, ◌++◌, ◌==◌,
  ◌>>=◌, ◌≡◌,
}
use lacert.Crypto.Primitives.{Blake3, Kem, Signatures, IsKeyPair, kem_ciphertext_size}
use lacert.Crypto.Messages.{HandshakeMsg1, HandshakeMsg2, HandshakeMsg3}
use lacert.Crypto.Kem.{encapsulate, decapsulate}
use lacert.Crypto.Session.{CryptoError, field_too_large, bad_signature, derive_k0}
use lacert.Crypto.Signature.{
  SigAlgorithm, IdentityKeyPair, sign, verify_signature, IsKeyOf, verify_signature-sign,
}

unfoldable pub write_framed : Bytes → Bytes → Result CryptoError Bytes
write_framed buf field =
    if ltb 65535 (length field)
    then err field_too_large
    else ok (buf ++ put_uint16 (length field) ++ field)

unfoldable pub msg1_bytes : HandshakeMsg1 → Result CryptoError Bytes
unfolding write_framed
msg1_bytes m = do buf ← write_framed [] m.device_id; write_framed (buf ++ m.nonce) m.identity_pub

unfoldable pub msg2_bytes : HandshakeMsg2 → Result CryptoError Bytes
unfolding write_framed
msg2_bytes m = do buf ← write_framed [] m.kem_ciphertext; ok (buf ++ m.gateway_nonce)

unfoldable pub new_handshake_msg1 : Bytes → Bytes → Bytes → HandshakeMsg1
new_handshake_msg1 random device_id identity_pub = record {
  device_id = device_id;
  nonce = random;
  identity_pub = identity_pub;
}

abbrev confirm_label : Bytes
confirm_label = codes "confirm"

module _ (hash : Blake3) where
  unfoldable pub transcript_of : HandshakeMsg1 → HandshakeMsg2 → Result CryptoError Bytes
  transcript_of msg1 msg2 = do b1 ← msg1_bytes msg1; b2 ← msg2_bytes msg2; ok (hash.sum (b1 ++ b2))

  unfoldable pub confirmation_value : Bytes → Bytes → Bytes
  confirmation_value transcript k0 = hash.sum (transcript ++ confirm_label ++ k0)

  module _ (sig : Signatures) where
    unfoldable pub finalize_handshake :
        Bytes
        → SigAlgorithm
        → HandshakeMsg1
        → HandshakeMsg2
        → HandshakeMsg3
        → Bytes
        → Result CryptoError Bytes
    finalize_handshake identity_pub alg msg1 msg2 msg3 shared_secret = do
      transcript ← transcript_of msg1 msg2
      valid ←
          verify_signature sig alg identity_pub
            (confirmation_value transcript (derive_k0 hash shared_secret transcript)) msg3.signature
      if valid then ok (derive_k0 hash shared_secret transcript) else err bad_signature

    module _ {PK SK : Type 0} (kem : Kem PK SK) where
      unfoldable pub build_msg2 : PK → Bytes → Bytes → HandshakeMsg2 × Bytes
      unfolding encapsulate
      build_msg2 device_pub seed gateway_nonce =
          let (ct, ss) = encapsulate kem device_pub seed in
          (record { kem_ciphertext = ct; gateway_nonce = gateway_nonce }, ss)

      unfoldable pub build_msg3 :
          SK
          → IdentityKeyPair
          → HandshakeMsg1
          → HandshakeMsg2
          → Result CryptoError (HandshakeMsg3 × Bytes)
      build_msg3 device_priv identity msg1 msg2 = do
        shared_secret ← decapsulate kem device_priv msg2.kem_ciphertext
        transcript ← transcript_of msg1 msg2
        signature ←
            sign sig identity
              (confirmation_value transcript (derive_k0 hash shared_secret transcript))
        ok (record { signature = signature }, derive_k0 hash shared_secret transcript)

      -- The device and the gateway end an undisturbed handshake with one session key, whenever the
      -- device gets as far as its third message: if the KEM keys are a pair and the registered
      -- signature key is that of the device.
      pub handshake_agrees :
          (device_pub : PK) (device_priv : SK) (seed gateway_nonce : Bytes) (alg : SigAlgorithm)
          (key : Bytes) (raw : Bytes → Option Bytes) (msg1 : HandshakeMsg1) (msg3 : HandshakeMsg3)
          (k0 : Bytes)
          → IsKeyPair kem device_pub device_priv
          → IsKeyOf sig alg key raw
          → build_msg3 device_priv
              (record { algorithm = alg; public_key = key; sign_raw = raw })
              msg1
              (build_msg2 device_pub seed gateway_nonce).0
            ≡ ok (msg3, k0)
          → finalize_handshake key alg msg1
              (build_msg2 device_pub seed gateway_nonce).0
              msg3
              (build_msg2 device_pub seed gateway_nonce).1
            ≡ ok k0
      unfolding build_msg3 build_msg2 finalize_handshake decapsulate
      handshake_agrees device_pub device_priv seed gateway_nonce alg key raw msg1 msg3 k0 pair owned
            h =
          let msg2 = (build_msg2 device_pub seed gateway_nonce).0 in
          let identity : IdentityKeyPair = record {
            algorithm = alg;
            public_key = key;
            sign_raw = raw;
          } in
          let ss = kem.shared_key device_pub seed in
          let sized : (length (kem.ciphertext device_pub seed) == kem_ciphertext_size) ≡ true =
            (nat_beq_iff _ _).1 (kem.length-ciphertext device_pub seed) in
          elim (Result-cases (transcript_of msg1 msg2)) [
            | inl (e, failed) ↦ absurd (ground (arith, sized))
            | inr (transcript, made) ↦
                let confirmed = confirmation_value transcript (derive_k0 hash ss transcript) in
                elim (Result-cases (sign sig identity confirmed)) [
                  | inl (e, failed) ↦ absurd (ground (arith, sized, pair seed))
                  | inr (s, signed) ↦
                      let got : (msg3 ≡ record { signature = s })
                          × (k0 ≡ derive_k0 hash ss transcript) =
                        ground (arith, sized, pair seed) in
                      rw (made, got.0, got.1)
                        (rw (verify_signature-sign sig alg key raw confirmed s owned signed) refl)
                ]
          ]

    -- The gateway accepts a third message only with a valid signature of the registered key over the
    -- confirmation of both messages and of the key that it then uses.
    pub finalize_handshake_authentic :
        (key : Bytes) (alg : SigAlgorithm) (msg1 : HandshakeMsg1) (msg2 : HandshakeMsg2)
        (msg3 : HandshakeMsg3) (shared_secret k0 : Bytes)
        → finalize_handshake key alg msg1 msg2 msg3 shared_secret ≡ ok k0
        → (transcript : Bytes) × (transcript_of msg1 msg2 ≡ ok transcript)
          × (k0 ≡ derive_k0 hash shared_secret transcript)
          × (verify_signature sig alg key (confirmation_value transcript k0) msg3.signature
              ≡ ok true)
    unfolding finalize_handshake
    finalize_handshake_authentic key alg msg1 msg2 msg3 shared_secret k0 h =
        elim (Result-cases (transcript_of msg1 msg2)) [
          | inl (e, failed) ↦ absurd (ground arith)
          | inr (transcript, made) ↦
              let k = derive_k0 hash shared_secret transcript in
              let facts : (k0 ≡ k)
                  × (verify_signature sig alg key (confirmation_value transcript k) msg3.signature
                      ≡ ok true) =
                ground arith in
              (transcript, made, facts.0, rw facts.0 facts.1)
        ]
