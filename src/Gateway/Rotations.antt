-- ===== src/Gateway/Rotations.antt =====
-- internal/gateway/gateway.go: the rotation of a device's session key, and its log.
use lacert.Prelude.{
  Bool, Bytes, Option, Result, String, [], err, false, if◌then◌else◌, none, not, ok, some, true, ℕ,
  ◌&&◌,
}
use lacert.Crypto.Primitives.{Primitives}
use lacert.Crypto.Messages.{RotationMsgV2, RotationAck}
use lacert.Crypto.Session.{Session, CryptoError, needs_rotation, blank_key}
use lacert.Crypto.Rotation.{
  initiate_rotation_atomic, respond_to_rotation_atomic, apply_rotation_ack, abort_if_stale,
}
use lacert.Store.Types.{RotationLogEntry}
use lacert.Store.Calls.{DeviceStore, rotation_call}
use lacert.Gateway.Metrics.{inc_rotation_failed, inc_rotation_succeeded, inc_rotation_timeout}
use lacert.Gateway.State.{
  Gateway, GatewaySettings, GatewayError, crypto_failed, no_active_session, Handler, session,
  put_session, count, log_event,
}
use lacert.Regtool.{encode_hex}
use lacert.Gateway.Handshakes.{registered_kem_key}

-- `oldKey, _ := s.CurrentKey()`
abbrev pub key_or_zero : Session → Bytes
key_or_zero s = if s.closed then blank_key else s.key

module _ {S : Type 0} (db : DeviceStore S) where
  -- `logRotationAttempt`; the failure's text is there if the attempt failed. The keys are logged in
  -- the test mode only.
  unfoldable pub log_rotation_attempt :
      ℕ → Bytes → String → Session → Bytes → Option String → Gateway S → Gateway S
  log_rotation_attempt now device_id initiator s old_key failure g =
      let with_keys = g.log_session_keys && not s.closed in
      let entry : RotationLogEntry = elim failure [
        | some text ↦ record {
          id = 0;
          device_id = device_id;
          initiator = initiator;
          success = false;
          error_text = text;
          old_key = [];
          new_key = [];
          rotation_count = 0;
          created_at = 0;
        }
        | none ↦ record {
          id = 0;
          device_id = device_id;
          initiator = initiator;
          success = true;
          error_text = "";
          old_key = if with_keys then encode_hex old_key else [];
          new_key = if with_keys then encode_hex s.key else [];
          rotation_count = s.rotation_count;
          created_at = 0;
        }
      ] in
      let counted : Gateway S = elim failure [
        | some _ ↦ count inc_rotation_failed g
        | none ↦ count inc_rotation_succeeded g
      ] in
      record counted { store = (db.call (rotation_call now entry) counted.store).1 }

abbrev pub failure_of : {A : Type 0} → GatewaySettings → Result CryptoError A → Option String
failure_of c (err e) = some (c.error_text e)
failure_of c (ok _) = none

module _ {PK SK S : Type 0} (lib : Primitives PK SK) (db : DeviceStore S)
    (c : GatewaySettings) where
  unfoldable pub initiate_atomic_rotation_to_device : ℕ → Bytes → Bytes → Handler S RotationMsgV2
  unfolding session registered_kem_key
  initiate_atomic_rotation_to_device now seed device_id g = elim (session device_id g) [
    | none ↦ (err no_active_session, g)
    | some i ↦ elim (registered_kem_key lib db c device_id g) [
      | err e ↦ (err e, g)
      | ok device_pub ↦
          let (answer, s) = initiate_rotation_atomic lib.hash lib.kem now seed device_pub i.state in
          elim answer [
            | err e ↦ (err (crypto_failed e), put_session i.ref s g)
            | ok msg ↦ (ok msg, put_session i.ref s g)
          ]
    ]
  ]

  unfoldable pub apply_rotation_ack_from_device : ℕ → Bytes → RotationAck → Handler S (Unit {0})
  unfolding session log_rotation_attempt
  apply_rotation_ack_from_device now device_id ack g = elim (session device_id g) [
    | none ↦ (err no_active_session, g)
    | some i ↦
        let (answer, s) = apply_rotation_ack now ack i.state in
        let g1 =
          log_rotation_attempt db now device_id "gateway" s (key_or_zero i.state)
            (failure_of c answer) (put_session i.ref s g) in
        elim answer [
          | err e ↦ (err (crypto_failed e), g1)
          | ok _ ↦ (
            ok tt,
            log_event db now device_id "rotation"
                "атомарная ротация (инициатор: шлюз) подтверждена устройством" g1,
          )
        ]
  ]

  -- The gateway's own KEM key is `priv`.
  unfoldable pub handle_atomic_rotation_from_device :
      SK → ℕ → Bytes → RotationMsgV2 → Handler S RotationAck
  unfolding session log_rotation_attempt
  handle_atomic_rotation_from_device priv now device_id msg g = elim (session device_id g) [
    | none ↦ (err no_active_session, g)
    | some i ↦
        let (answer, s) = respond_to_rotation_atomic lib.hash lib.kem now priv msg i.state in
        let g1 =
          log_rotation_attempt db now device_id "device" s (key_or_zero i.state)
            (failure_of c answer) (put_session i.ref s g) in
        elim answer [
          | err e ↦ (err (crypto_failed e), g1)
          | ok ack ↦ (
            ok ack,
            log_event db now device_id "rotation"
                "атомарная ротация (инициатор: устройство) применена" g1,
          )
        ]
  ]

  -- The text of the timeout, which names its length, is the argument `text`.
  unfoldable pub abort_stale_rotation_if_needed :
      String → ℕ → Bytes → ℕ → Gateway S → Bool × Gateway S
  unfolding session log_rotation_attempt
  abort_stale_rotation_if_needed text now device_id timeout g = elim (session device_id g) [
    | none ↦ (false, g)
    | some i ↦
        let (stale, s) = abort_if_stale c.session now timeout i.state in
        let logged =
          log_rotation_attempt db now device_id "gateway" s (key_or_zero s) (some text)
            (put_session i.ref s g) in
        if stale then (true, count inc_rotation_timeout logged) else (false, put_session i.ref s g)
  ]

  unfoldable pub session_needs_rotation : ℕ → Bytes → Gateway S → Result GatewayError Bool
  unfolding session
  session_needs_rotation now device_id g = elim (session device_id g) [
    | none ↦ err no_active_session
    | some i ↦ ok (needs_rotation c.session now i.state)
  ]
