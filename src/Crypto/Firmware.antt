-- ===== src/Crypto/Firmware.antt =====
-- internal/crypto/firmware.go: the check of the device's firmware by challenge and response.
use lacert.Prelude.{
  Bool, Bytes, Option, Result, Result-cases, arith, inl, inr, list_eq, nat_eq, ok, pair_eq, refl,
  string_eq, true, ◌&&◌, ◌++◌, ◌==◌, ◌>>=◌, ◌≡◌,
}
use lacert.Crypto.Primitives.{Signatures}
use lacert.Crypto.Messages.{FirmwareResponse}
use lacert.Crypto.Session.{CryptoError}
use lacert.Crypto.Signature.{
  SigAlgorithm, IdentityKeyPair, sign, verify_signature, IsKeyOf, verify_signature-sign,
}

pub record FirmwareCheckResult : Type 0 where
  pub signature_valid : Bool
  pub hash_matches : Bool

abbrev pub check_ok : FirmwareCheckResult → Bool
check_ok r = r.signature_valid && r.hash_matches

module _ (sig : Signatures) where
  unfoldable pub respond_to_firmware_challenge :
      IdentityKeyPair → Bytes → Bytes → Result CryptoError FirmwareResponse
  respond_to_firmware_challenge identity challenge firmware_image = do
    signature ← sign sig identity (challenge ++ sig.sha256 firmware_image)
    ok (record { firmware_hash = sig.sha256 firmware_image; signature = signature })

  unfoldable pub verify_firmware_response :
      Bytes
      → SigAlgorithm
      → Bytes
      → FirmwareResponse
      → Bytes
      → Result CryptoError FirmwareCheckResult
  verify_firmware_response identity_pub alg challenge resp reference_hash = do
    valid ← verify_signature sig alg identity_pub (challenge ++ resp.firmware_hash) resp.signature
    ok (record { signature_valid = valid; hash_matches = resp.firmware_hash == reference_hash })

  -- The answer of the device to a challenge passes the check of the signature, and passes the whole
  -- check exactly if the hash of its image is the reference.
  pub verify_firmware_response-respond :
      (alg : SigAlgorithm) (key : Bytes) (raw : Bytes → Option Bytes)
      (challenge image reference_hash : Bytes) (resp : FirmwareResponse)
      → IsKeyOf sig alg key raw
      → respond_to_firmware_challenge
          (record { algorithm = alg; public_key = key; sign_raw = raw })
          challenge
          image
        ≡ ok resp
      → verify_firmware_response key alg challenge resp reference_hash
        ≡ ok (record { signature_valid = true; hash_matches = sig.sha256 image == reference_hash })
  unfolding respond_to_firmware_challenge verify_firmware_response
  verify_firmware_response-respond alg key raw challenge image reference_hash resp owned h =
      let identity : IdentityKeyPair = record {
        algorithm = alg;
        public_key = key;
        sign_raw = raw;
      } in
      let message = challenge ++ sig.sha256 image in
      elim (Result-cases (sign sig identity message)) [
        | inl (e, failed) ↦ absurd (ground arith)
        | inr (s, signed) ↦
            let made : resp ≡ record { firmware_hash = sig.sha256 image; signature = s } =
              ground arith in
            rw made (rw (verify_signature-sign sig alg key raw message s owned signed) refl)
      ]
