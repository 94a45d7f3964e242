-- ===== src/Gateway/Registration.antt =====
-- internal/gateway/gateway.go: offline registration.
use lacert.Prelude.{
  Bool, Bytes, Result, [], err, false, if◌then◌else◌, leb, length, list_eq, nat_eq, not, ok,
  pair_eq, string_eq, true, ℕ, ◌&&◌, ◌==◌, ◌||◌, ◌∷◌,
}
use lacert.Crypto.Primitives.{Primitives}
use lacert.Regtool.{SerialOutput, verify_checksum}
use lacert.Crypto.Kem.{unpack_kem_public_key}
use lacert.Crypto.Signature.{SigAlgorithm, validate_identity_public_key}
use lacert.Store.Types.{DeviceRecord, active, revoked, missing, device_not_found}
use lacert.Store.Calls.{DeviceStore, register_call, reregister_call}
use lacert.Gateway.State.{
  Gateway, GatewayError, store_failed, crypto_failed, invalid_device_id, checksum_mismatch,
  device_is_revoked, Handler, log_event,
}
use lacert.Gateway.Lifecycle.{close_session}

-- One character of `[A-Za-z0-9._-]`.
abbrev pub id_char : ℕ → Bool
id_char c =
    (leb 65 c && leb c 90)
    || (leb 97 c && leb c 122)
    || (leb 48 c && leb c 57)
    || c == 46
    || c == 95
    || c == 45

unfoldable pub all_id_chars : Bytes → Bool
all_id_chars [] = true
all_id_chars (c ∷ cs) = id_char c && all_id_chars cs

-- `^[A-Za-z0-9._-]{1,128}$`
unfoldable pub valid_device_id : Bytes → Bool
unfolding all_id_chars
valid_device_id id = leb 1 (length id) && leb (length id) 128 && all_id_chars id

module _ {PK SK S : Type 0} (lib : Primitives PK SK) (db : DeviceStore S) where
  -- The checks before the registry is touched. `RegisterDevice` has one more for an empty key, which
  -- `ValidateIdentityPublicKey` makes first thing too.
  unfoldable pub check_serial : SerialOutput → SigAlgorithm → Result GatewayError (Unit {0})
  check_serial serial alg =
      if not (valid_device_id serial.device_id)
      then err invalid_device_id
      else if not (verify_checksum lib.hash serial)
      then err checksum_mismatch
      else elim (unpack_kem_public_key lib.kem serial.kem_pub) [
        | err e ↦ err (crypto_failed e)
        | ok _ ↦ elim (validate_identity_public_key lib.sig alg serial.identity_pub) [
          | err e ↦ err (crypto_failed e)
          | ok _ ↦ ok tt
        ]
      ]

  abbrev pub record_of : SerialOutput → SigAlgorithm → DeviceRecord
  record_of serial alg = record {
    device_id = serial.device_id;
    sig_algorithm = alg;
    identity_pub = serial.identity_pub;
    kem_pub = serial.kem_pub;
    firmware_hash = serial.firmware_hash;
    revoked = false;
    revoked_reason = "";
    created_at = 0;
  }

  unfoldable pub register_device : ℕ → SerialOutput → SigAlgorithm → Handler S (Unit {0})
  register_device now serial alg g =
      let (answer, store) = db.call (register_call now (record_of serial alg)) g.store in
      let g1 = record g { store = store } in
      let registered : Result GatewayError (Unit {0}) × Gateway S = elim answer [
        | err e ↦ (err (store_failed e), g1)
        | ok _ ↦ (
          ok tt,
          log_event db now serial.device_id "registered"
              "офлайн-регистрация завершена, контрольная сумма проверена" g1,
        )
      ] in
      elim (check_serial serial alg) [ err e ↦ (err e, g) | ok _ ↦ registered ]

  unfoldable pub reregister_device : ℕ → SerialOutput → SigAlgorithm → Handler S (Unit {0})
  unfolding close_session
  reregister_device now serial alg g =
      let (answer, store) = db.call (reregister_call (record_of serial alg)) g.store in
      let g1 = record g { store = store } in
      let updated : Result GatewayError (Unit {0}) × Gateway S = elim answer [
        | err e ↦ (err (store_failed e), g1)
        | ok _ ↦ (
          ok tt,
          log_event db now serial.device_id "reregistered"
              "ключи заменены при повторной офлайн-регистрации, контрольная сумма проверена"
              (close_session serial.device_id g1).1,
        )
      ] in
      let looked_up : Result GatewayError (Unit {0}) × Gateway S =
        elim (db.get serial.device_id g.store) [
          | missing ↦ (err (store_failed device_not_found), g)
          | revoked _ ↦ (err device_is_revoked, g)
          | active _ ↦ updated
        ] in
      elim (check_serial serial alg) [ err e ↦ (err e, g) | ok _ ↦ looked_up ]
