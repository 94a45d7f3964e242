-- ===== src/Gateway/Verdicts.antt =====
-- What a firmware check leads to.
use lacert.Prelude.{
  Bool-cases, Bytes, Option, Option-cases, Result-cases, ap, arith, beq_refl, delete, false,
  if◌then◌else◌, inl, inr, list_eq, lookup, lookup-delete, ltb, ltb→le, nat_eq, none, ok, pair_eq,
  refl, some, str_append, string_eq, sym, true, ℕ, ◌+◌, ◌∙◌, ◌≡◌, ◌≤◌,
}
use lacert.Crypto.Primitives.{Primitives}
use lacert.Crypto.Messages.{FirmwareResponse}
use lacert.Crypto.Firmware.{FirmwareCheckResult, check_ok, verify_firmware_response}
use lacert.Store.Types.{DeviceRecord, active, firmware_hash_array}
use lacert.Store.Calls.{DeviceStore, fetched}
use lacert.Gateway.State.{Gateway, GatewaySettings, PendingFirmwareCheck, count, log_event}
use lacert.Gateway.Metrics.{inc_firmware_failed, inc_firmware_passed}
use lacert.Gateway.Handshakes.{active_record, active_record-ok}
use lacert.Gateway.Lifecycle.{revoke_and_close_session}
use lacert.Gateway.Revocation.{IsCutOff, revoke_and_close-IsCutOff, get-log_event}
use lacert.Gateway.Traffic.{verify_firmware_check, check_response, conclude_firmware_check}

module _ {PK SK S : Type 0} (lib : Primitives PK SK) (db : DeviceStore S)
    (c : GatewaySettings) where
  pending-conclude :
      (now : ℕ) (id : Bytes) (result : FirmwareCheckResult) (g : Gateway S)
      → (conclude_firmware_check lib db c now id result g).1.pending_firmware ≡ g.pending_firmware
  unfolding conclude_firmware_check revoke_and_close_session
  pending-conclude now id result g = ground arith

  pending-check_response :
      (now : ℕ) (id : Bytes) (resp : FirmwareResponse) (p : PendingFirmwareCheck) (g : Gateway S)
      → (check_response lib db c now id resp p g).1.pending_firmware ≡ g.pending_firmware
  unfolding check_response
  pending-check_response now id resp p g = elim (Result-cases (active_record (db.get id g.store))) [
    | inl (e, failed) ↦ ground arith
    | inr (rec, found) ↦ elim (Result-cases (firmware_hash_array rec)) [
      | inl (e, failed) ↦ ground arith
      | inr (h, read) ↦
          elim (Result-cases (
            verify_firmware_response lib.sig rec.identity_pub rec.sig_algorithm p.challenge resp
              h)) [
                | inl (e, failed) ↦ ground arith
                | inr (result, verified) ↦ ground (arith, pending-conclude now id result g)
              ]
    ]
  ]

  -- A challenge is good for one answer: after any answer it is gone, whatever came of the check.
  pub challenge_is_used_up :
      (now : ℕ) (id : Bytes) (resp : FirmwareResponse) (g : Gateway S)
      → lookup id (verify_firmware_check lib db c now id resp g).1.pending_firmware ≡ none
  unfolding verify_firmware_check
  challenge_is_used_up now id resp g = elim (Option-cases (lookup id g.pending_firmware)) [
    | inl e ↦ ground arith
    | inr (p, e) ↦
        let g1 = record g { pending_firmware = delete id g.pending_firmware } in
        ground (
          arith,
          pending-check_response now id resp p g1,
          lookup-delete id id g.pending_firmware,
          beq_refl id,
        )
  ]

  pub view-active :
      (o : Option DeviceRecord) (rec : DeviceRecord) → fetched o ≡ active rec → o ≡ some rec
  view-active none rec h = cc
  view-active (some r) rec h = ground arith

  -- What a completed check rests on, and what follows from its verdict.
  pub record IsJudged (now : ℕ) (id : Bytes) (resp : FirmwareResponse)
      (result : FirmwareCheckResult) (g g' : Gateway S) : Type 0 where
    pub pending : PendingFirmwareCheck
    pub rec : DeviceRecord
    pub reference : Bytes
    pub asked : lookup id g.pending_firmware ≡ some pending
    pub in_time : now ≤ pending.issued_at + c.firmware_response_validity
    pub registered : db.get id g.store ≡ active rec
    pub expected : firmware_hash_array rec ≡ ok reference
    pub verified :
        verify_firmware_response lib.sig rec.identity_pub rec.sig_algorithm pending.challenge resp
          reference
        ≡ ok result
    pub passed :
        check_ok result ≡ true → (g'.sessions ≡ g.sessions) × (db.get id g'.store ≡ active rec)
    pub failed : check_ok result ≡ false → IsCutOff db id g'

  pub conclude-passed :
      (now : ℕ) (id : Bytes) (result : FirmwareCheckResult) (g : Gateway S)
      → check_ok result ≡ true
      → conclude_firmware_check lib db c now id result g ≡ (
        ok result,
        log_event db now id "firmware_check" "проверка целостности прошивки пройдена"
            (count inc_firmware_passed g),
      )
  unfolding conclude_firmware_check
  conclude-passed now id result g passed = ground arith

  conclude-failed :
      (now : ℕ) (id : Bytes) (result : FirmwareCheckResult) (g : Gateway S) (rec : DeviceRecord)
      → check_ok result ≡ false
      → db.view id g.store ≡ some rec
      → IsCutOff db id (conclude_firmware_check lib db c now id result g).1
  unfolding conclude_firmware_check
  conclude-failed now id result g rec failed found =
      let reason =
        if result.signature_valid
        then "хеш прошивки не совпадает с эталонным"
        else "подпись не верифицирована" in
      let detail = str_append "проверка целостности прошивки провалена: " reason in
      let g1 = count inc_firmware_failed g in
      let cut = revoke_and_close-IsCutOff db now id reason detail g1 rec found in
      let run : (conclude_firmware_check lib db c now id result g).1
          ≡ (revoke_and_close_session db now id reason detail g1).1 =
        ground arith in
      rw run cut

  conclude-ok :
      (now : ℕ) (id : Bytes) (r result : FirmwareCheckResult) (g : Gateway S)
      → (conclude_firmware_check lib db c now id r g).0 ≡ ok result
      → r ≡ result
  unfolding conclude_firmware_check
  conclude-ok now id r result g h = ground arith

  check_response-ok :
      (now : ℕ) (id : Bytes) (resp : FirmwareResponse) (p : PendingFirmwareCheck) (g : Gateway S)
      (result : FirmwareCheckResult)
      → (check_response lib db c now id resp p g).0 ≡ ok result
      → (rec : DeviceRecord) × (reference : Bytes) × (now
          ≤ p.issued_at + c.firmware_response_validity)
        × (db.get id g.store ≡ active rec)
        × (firmware_hash_array rec ≡ ok reference)
        × (verify_firmware_response lib.sig rec.identity_pub rec.sig_algorithm p.challenge resp
              reference
            ≡ ok result)
        × (check_response lib db c now id resp p g
            ≡ conclude_firmware_check lib db c now id result g)
  unfolding check_response
  check_response-ok now id resp p g result h =
      elim (Bool-cases (ltb (p.issued_at + c.firmware_response_validity) now)) [
        | inl late ↦ absurd (ground arith)
        | inr early ↦ elim (Result-cases (active_record (db.get id g.store))) [
          | inl (e, failed) ↦ absurd (ground arith)
          | inr (rec, found) ↦ elim (Result-cases (firmware_hash_array rec)) [
            | inl (e, failed) ↦ absurd (ground arith)
            | inr (reference, read) ↦
                elim (Result-cases (
                  verify_firmware_response lib.sig rec.identity_pub rec.sig_algorithm p.challenge
                    resp reference)) [
                      | inl (e, failed) ↦ absurd (ground arith)
                      | inr (r, verified) ↦
                          let run : check_response lib db c now id resp p g
                              ≡ conclude_firmware_check lib db c now id r g =
                            rw (check_response, early, found, read, verified) refl in
                          let same : r ≡ result = conclude-ok now id r result g (rw run at h) in
                          (
                            rec,
                            reference,
                            ltb→le _ _ early,
                            active_record-ok _ rec found,
                            read,
                            rw same at verified,
                            run ∙ ap (λ x. conclude_firmware_check lib db c now id x g) same,
                          )
                    ]
          ]
        ]
      ]

  -- A verdict on a device's firmware rests on a challenge that was given out not too long ago, on the
  -- record of a device that is not revoked, and on the check of the answer against its key and its
  -- reference hash. A device that passes keeps its session and its standing; one that fails is revoked
  -- in the store and has no session any more.
  pub verify_firmware_check_judges :
      (now : ℕ) (id : Bytes) (resp : FirmwareResponse) (g : Gateway S)
      (result : FirmwareCheckResult)
      → (verify_firmware_check lib db c now id resp g).0 ≡ ok result
      → IsJudged now id resp result g (verify_firmware_check lib db c now id resp g).1
  verify_firmware_check_judges now id resp g result h =
      elim (Option-cases (lookup id g.pending_firmware)) [
        | inl e ↦ absurd (unfold verify_firmware_check in ground arith)
        | inr (p, asked) ↦
            let g1 = record g { pending_firmware = delete id g.pending_firmware } in
            let run : verify_firmware_check lib db c now id resp g
                ≡ check_response lib db c now id resp p g1 =
              unfold verify_firmware_check in ground arith in
            let (rec, reference, in_time, found, expected, verified, step) =
              check_response-ok now id resp p g1 result (rw run at h) in
            record {
              pending = p;
              rec = rec;
              reference = reference;
              asked = asked;
              in_time = in_time;
              registered = found;
              expected = expected;
              verified = verified;
              passed = λ passed.
                  rw (run, step, conclude-passed now id result g1 passed)
                    (
                      refl,
                      get-log_event db now id id "firmware_check"
                            "проверка целостности прошивки пройдена" g1
                          ∙ found,
                    );
              failed = λ failed.
                  rw (run, step)
                    (conclude-failed now id result g1 rec failed
                      (view-active _ rec (sym (db.get-view id g.store) ∙ found)));
            }
      ]
