-- ===== src/Gateway/Traffic.antt =====
-- internal/gateway/gateway.go: data packets and firmware checks. `telemetry.ParseKV` is the argument
-- `parse`; the ages that the texts of two events name are left out of them.
use lacert.Prelude.{
  Bytes, Map, Result, delete, err, if◌then◌else◌, insert, list_eq, lookup, ltb, nat_eq, none, ok,
  pair_eq, some, str_append, string_eq, ℕ, ◌+◌,
}
use lacert.Crypto.Primitives.{Primitives}
use lacert.Crypto.Messages.{FirmwareResponse}
use lacert.Crypto.Session.{session_closed, check_data_nonce, record_packet}
use lacert.Crypto.Packet.{decrypt_packet}
use lacert.Crypto.Firmware.{FirmwareCheckResult, check_ok, verify_firmware_response}
use lacert.Store.Types.{TelemetryReading, firmware_hash_array}
use lacert.Store.Calls.{DeviceStore, telemetry_call}
use lacert.Gateway.Metrics.{
  inc_data_replay_blocked, inc_telemetry_dropped, inc_firmware_rejected, inc_firmware_failed,
  inc_firmware_passed,
}
use lacert.Gateway.State.{
  Gateway, GatewaySettings, GatewayError, store_failed, crypto_failed, no_active_session,
  challenge_pending, no_pending_challenge, challenge_expired, Handler, Instance,
  PendingFirmwareCheck, session, put_session, count, log_event,
}
use lacert.Gateway.Lifecycle.{revoke_and_close_session}
use lacert.Gateway.Handshakes.{active_record}

module _ {S : Type 0} (db : DeviceStore S) (parse : Bytes → Map Bytes Bytes) where
  -- A loss is counted, and does not stop the packet.
  unfoldable pub store_reading : ℕ → Bytes → Bytes → Gateway S → Gateway S
  store_reading now device_id plaintext g =
      let reading : TelemetryReading = record {
        id = 0;
        device_id = device_id;
        raw_payload = plaintext;
        parsed = parse plaintext;
        received_at = now;
      } in
      let (answer, store) = db.call (telemetry_call now reading) g.store in
      let g1 = record g { store = store } in
      elim answer [ err _ ↦ count inc_telemetry_dropped g1 | ok _ ↦ g1 ]

module _ {PK SK S : Type 0} (lib : Primitives PK SK) (db : DeviceStore S)
    (parse : Bytes → Map Bytes Bytes) where
  -- From the check for a replay on, with the packet opened.
  unfoldable pub accept_data : ℕ → Bytes → Bytes → Bytes → Instance → Handler S Bytes
  unfolding store_reading
  accept_data now device_id nonce plaintext i g =
      let (verdict, s) = check_data_nonce nonce i.state in
      elim verdict [
        | err e ↦ (
          err (crypto_failed e),
          log_event db now device_id "data_rejected" "пакет данных отклонён: повтор (replay)"
              (count inc_data_replay_blocked (put_session i.ref s g)),
        )
        | ok _ ↦ (
          ok plaintext,
          store_reading db parse now device_id plaintext (put_session i.ref (record_packet s) g),
        )
      ]

  unfoldable pub handle_data : ℕ → Bytes → Bytes → Bytes → Handler S Bytes
  unfolding session accept_data
  handle_data now device_id nonce ciphertext g = elim (session device_id g) [
    | none ↦ (err no_active_session, g)
    | some i ↦
        if i.state.closed
        then (err (crypto_failed session_closed), g)
        else elim (decrypt_packet lib.aead i.state.key nonce ciphertext) [
          | err e ↦ (err (crypto_failed e), g)
          | ok plaintext ↦ accept_data now device_id nonce plaintext i g
        ]
  ]

module _ {PK SK S : Type 0} (lib : Primitives PK SK) (db : DeviceStore S)
    (c : GatewaySettings) where
  -- The challenge is 64 bytes of randomness. The lock is released while it is drawn; one goroutine
  -- only calls this.
  unfoldable pub issue_firmware_challenge : ℕ → Bytes → Bytes → Handler S Bytes
  issue_firmware_challenge now random device_id g =
      let issued : Result GatewayError Bytes × Gateway S = (
        ok random,
        record g {
          pending_firmware =
              insert device_id (record { challenge = random; issued_at = now }) g.pending_firmware;
        },
      ) in
      elim (active_record (db.get device_id g.store)) [
        | err e ↦ (err e, g)
        | ok _ ↦ elim (lookup device_id g.pending_firmware) [
          | none ↦ issued
          | some existing ↦
              if ltb now (existing.issued_at + c.firmware_challenge_timeout)
              then (err challenge_pending, g)
              else issued
        ]
      ]

  -- The verdict, and what follows from it. The code returns the verdict also beside the error of a
  -- revocation that failed; here an error has no result beside it.
  unfoldable pub conclude_firmware_check :
      ℕ → Bytes → FirmwareCheckResult → Handler S FirmwareCheckResult
  unfolding revoke_and_close_session
  conclude_firmware_check now device_id result g =
      let reason =
        if result.signature_valid
        then "хеш прошивки не совпадает с эталонным"
        else "подпись не верифицирована" in
      let (answer, g1) =
        revoke_and_close_session db now device_id reason
          (str_append "проверка целостности прошивки провалена: " reason)
          (count inc_firmware_failed g) in
      let failed : Result GatewayError FirmwareCheckResult × Gateway S = elim answer [
        | err e ↦ (err e, g1)
        | ok _ ↦ (ok result, g1)
      ] in
      if check_ok result
      then (
        ok result,
        log_event db now device_id "firmware_check" "проверка целостности прошивки пройдена"
            (count inc_firmware_passed g),
      )
      else failed

  -- With the challenge taken out of the map.
  unfoldable pub check_response :
      ℕ → Bytes → FirmwareResponse → PendingFirmwareCheck → Handler S FirmwareCheckResult
  unfolding conclude_firmware_check
  check_response now device_id resp pending g =
      if ltb (pending.issued_at + c.firmware_response_validity) now
      then (
        err challenge_expired,
        log_event db now device_id "firmware_check_rejected"
            "ответ на проверку прошивки отклонён: challenge устарел"
            (count inc_firmware_rejected g),
      )
      else elim (active_record (db.get device_id g.store)) [
        | err e ↦ (err e, g)
        | ok rec ↦ elim (firmware_hash_array rec) [
          | err e ↦ (err (store_failed e), g)
          | ok reference ↦
              elim (verify_firmware_response lib.sig rec.identity_pub rec.sig_algorithm
                pending.challenge resp reference) [
                  | err e ↦ (err (crypto_failed e), g)
                  | ok result ↦ conclude_firmware_check now device_id result g
                ]
        ]
      ]

  unfoldable pub verify_firmware_check :
      ℕ → Bytes → FirmwareResponse → Handler S FirmwareCheckResult
  unfolding check_response
  verify_firmware_check now device_id resp g = elim (lookup device_id g.pending_firmware) [
    | none ↦ (err no_pending_challenge, g)
    | some pending ↦
        check_response now device_id resp pending
          (record g { pending_firmware = delete device_id g.pending_firmware })
  ]
