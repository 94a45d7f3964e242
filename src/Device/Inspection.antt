-- ===== src/Device/Inspection.antt =====
-- The gateway inspects a device's firmware.
use lacert.Prelude.{
  Bool-cases, Bytes, Option-cases, String, ap, arith, delete, false, if◌then◌else◌, inl, inr,
  le→ltb, list_eq, lookup, lookup-insert_self, nat_eq, ok, pair_eq, some, str_append, string_eq,
  sym, true, ℕ, ◌+◌, ◌==◌, ◌∙◌, ◌≡◌, ◌≤◌,
}
use lacert.Crypto.Primitives.{Primitives}
use lacert.Crypto.Messages.{FirmwareResponse}
use lacert.Crypto.Firmware.{
  FirmwareCheckResult, check_ok, verify_firmware_response, verify_firmware_response-respond,
}
use lacert.Store.Types.{DeviceRecord, active, firmware_hash_array}
use lacert.Store.Calls.{DeviceStore}
use lacert.Gateway.Metrics.{inc_firmware_failed}
use lacert.Gateway.State.{Gateway, GatewaySettings, PendingFirmwareCheck, count}
use lacert.Gateway.Revocation.{IsCutOff, revoke-run}
use lacert.Gateway.Traffic.{
  issue_firmware_challenge, verify_firmware_check, check_response, conclude_firmware_check,
}
use lacert.Gateway.Verdicts.{conclude-passed, view-active, verify_firmware_check_judges}
use lacert.Device.{Device, firmware_hash, respond_firmware_challenge}
use lacert.Device.Standing.{IsEnrolled}

module _ {PK SK S : Type 0} (lib : Primitives PK SK) (db : DeviceStore S)
    (c : GatewaySettings) where
  conclude-answer :
      (now : ℕ) (id : Bytes) (result : FirmwareCheckResult) (g : Gateway S) (rec : DeviceRecord)
      → db.view id g.store ≡ some rec
      → (conclude_firmware_check lib db c now id result g).0 ≡ ok result
  conclude-answer now id result g rec found = elim (Bool-cases (check_ok result)) [
    | inl passed ↦ ap (λ r. r.0) (conclude-passed lib db c now id result g passed)
    | inr failed ↦
        let reason : String =
          if result.signature_valid
          then "хеш прошивки не совпадает с эталонным"
          else "подпись не верифицирована" in
        let revoked =
          revoke-run db now id reason
            (str_append "проверка целостности прошивки провалена: " reason)
            (count inc_firmware_failed g) rec found in
        unfold conclude_firmware_check in ground (arith, ap (λ r. r.0) revoked)
  ]

  -- A challenge that was given out waits for its answer.
  issue-waits :
      (now : ℕ) (random id challenge : Bytes) (g : Gateway S) (rec : DeviceRecord)
      → db.get id g.store ≡ active rec
      → (issue_firmware_challenge lib db c now random id g).0 ≡ ok challenge
      → let g1 = (issue_firmware_challenge lib db c now random id g).1 in
        (lookup id g1.pending_firmware ≡ some (record { challenge = challenge; issued_at = now }))
        × (g1.store ≡ g.store)
        × (g1.sessions ≡ g.sessions)
  unfolding issue_firmware_challenge
  issue-waits now random id challenge g rec found h =
      elim (Option-cases (lookup id g.pending_firmware)) [
        | inl free ↦ ground (
          arith,
          found,
          free,
          lookup-insert_self id (record { challenge = random; issued_at = now }) g.pending_firmware,
        )
        | inr (old, busy) ↦ ground (
          arith,
          found,
          busy,
          lookup-insert_self id (record { challenge = random; issued_at = now }) g.pending_firmware,
        )
      ]

  -- An answer in time to the challenge that waits is judged.
  verify-run :
      (now : ℕ) (id : Bytes) (resp : FirmwareResponse) (g : Gateway S) (p : PendingFirmwareCheck)
      (rec : DeviceRecord) (reference : Bytes) (result : FirmwareCheckResult)
      → lookup id g.pending_firmware ≡ some p
      → now ≤ p.issued_at + c.firmware_response_validity
      → db.get id g.store ≡ active rec
      → firmware_hash_array rec ≡ ok reference
      → verify_firmware_response lib.sig rec.identity_pub rec.sig_algorithm p.challenge resp
          reference
        ≡ ok result
      → (verify_firmware_check lib db c now id resp g).0 ≡ ok result
  unfolding verify_firmware_check check_response
  verify-run now id resp g p rec reference result asked early found expected verified =
      let g1 = record g { pending_firmware = delete id g.pending_firmware } in
      let answer =
        conclude-answer now id result g1 rec
          (view-active lib db c _ rec (sym (db.get-view id g.store) ∙ found)) in
      rw (verify_firmware_check, asked, check_response, le→ltb _ _ early, found, expected, verified)
        answer

  -- The gateway gives a challenge to an enrolled device, and the device's answer comes in time. Then the
  -- check ends with a verdict, and the verdict is right: the signature is valid, and the hash matches
  -- exactly if the device's image hashes to the registered reference. A device with that image keeps
  -- its standing and all sessions stay; one with another is revoked and has no session any more.
  pub inspection_decides :
      (t0 t1 : ℕ) (random challenge reference : Bytes) (d : Device PK SK) (g : Gateway S)
      (resp : FirmwareResponse) (e : IsEnrolled lib db d g)
      → firmware_hash_array e.rec ≡ ok reference
      → (issue_firmware_challenge lib db c t0 random d.id g).0 ≡ ok challenge
      → respond_firmware_challenge lib challenge d ≡ ok resp
      → t1 ≤ t0 + c.firmware_response_validity
      → let g1 = (issue_firmware_challenge lib db c t0 random d.id g).1 in
        let r = verify_firmware_check lib db c t1 d.id resp g1 in
        let intact = firmware_hash lib d == reference in
        (r.0 ≡ ok (record { signature_valid = true; hash_matches = intact }))
        × (intact ≡ true → (r.1.sessions ≡ g.sessions) × (db.get d.id r.1.store ≡ active e.rec))
        × (intact ≡ false → IsCutOff db d.id r.1)
  unfolding respond_firmware_challenge firmware_hash
  inspection_decides t0 t1 random challenge reference d g resp e expected issued answered early =
      let g1 = (issue_firmware_challenge lib db c t0 random d.id g).1 in
      let (waits, stored, kept) = issue-waits t0 random d.id challenge g e.rec e.found issued in
      let result : FirmwareCheckResult = record {
        signature_valid = true;
        hash_matches = lib.sig.sha256 d.firmware_image == reference;
      } in
      let found : db.get d.id g1.store ≡ active e.rec = rw stored e.found in
      let verified : verify_firmware_response lib.sig e.rec.identity_pub e.rec.sig_algorithm
            challenge resp reference
          ≡ ok result =
        rw (e.signing, e.scheme)
          (verify_firmware_response-respond lib.sig d.identity.algorithm d.identity.public_key
            d.identity.sign_raw challenge d.firmware_image reference resp e.owned answered) in
      let verdict =
        verify-run t1 d.id resp g1 (record { challenge = challenge; issued_at = t0 }) e.rec
          reference result waits early found expected verified in
      let judged = verify_firmware_check_judges lib db c t1 d.id resp g1 result verdict in
      let same : active judged.rec ≡ active e.rec = sym judged.registered ∙ found in
      (
        verdict,
        λ intact. let passed = judged.passed intact in (passed.0 ∙ kept, passed.1 ∙ same),
        λ tampered. judged.failed tampered,
      )
