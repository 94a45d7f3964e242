-- ===== src/Device.antt =====
-- internal/device/device.go: the device's end of the protocol. A method takes the device, the
-- clock's reading `now` and the randomness it draws, and returns its result and the device after it.
-- `session` is the object behind the device's pointer, which nothing else holds.
pub mod Channel
pub mod Packets
pub mod Standing
pub mod Greeting
pub mod Enrolment
pub mod Advance
pub mod Steps
pub mod Inspection
use lacert.Prelude.{
  Bool, Bytes, Option, Result, err, false, none, ok, some, true, u32_mod, ℕ, ◌%◌, ◌++◌, ◌>>=◌, ◌>>◌,
}
use lacert.Crypto.Primitives.{Primitives}
use lacert.Crypto.Messages.{
  HandshakeMsg1, HandshakeMsg2, HandshakeMsg3, RotationMsgV2, RotationAck, FirmwareResponse,
}
use lacert.Crypto.Kem.{KemKeyPair, kem_public_key_bytes}
use lacert.Crypto.Session.{
  Session, CryptoError, Settings, Stats, new_session, current_key, needs_rotation, record_packet,
  close, stats,
}
use lacert.Crypto.Signature.{IdentityKeyPair, public_key_bytes}
use lacert.Crypto.Handshake.{new_handshake_msg1, build_msg3}
use lacert.Crypto.Packet.{encrypt_packet, decrypt_packet}
use lacert.Crypto.Rotation.{
  initiate_rotation_atomic, respond_to_rotation_atomic, apply_rotation_ack,
}
use lacert.Crypto.Firmware.{respond_to_firmware_challenge}
use lacert.Regtool.{SerialOutput, build_serial_output}

pub record Device (PK SK : Type 0) : Type 0 where
  pub id : Bytes
  pub identity : IdentityKeyPair
  pub kem : KemKeyPair PK SK
  pub firmware_image : Bytes
  pub session : Option Session
  pub gateway_kem : Option PK

pub data DeviceError : Type 0 where
  no_session no_gateway_key : DeviceError
  crypto : CryptoError → DeviceError

abbrev pub lift : {A : Type 0} → Result CryptoError A → Result DeviceError A
lift (err e) = err (crypto e)
lift (ok a) = ok a

-- The keys are generated outside.
unfoldable pub new_device :
    {PK SK : Type 0} → Bytes → IdentityKeyPair → KemKeyPair PK SK → Bytes → Device PK SK
new_device id identity kem firmware_image = record {
  id = id;
  identity = identity;
  kem = kem;
  firmware_image = firmware_image;
  session = none;
  gateway_kem = none;
}

abbrev pub no_stats : Stats
no_stats = record { packet_count = 0; rotation_count = 0; last_rotated_at = 0 }

module _ {PK SK : Type 0} where
  unfoldable pub set_gateway_kem_public_key : PK → Device PK SK → Device PK SK
  set_gateway_kem_public_key pk d = record d { gateway_kem = some pk }

  unfoldable pub control_key : Device PK SK → Result DeviceError Bytes
  control_key d = elim d.session [ none ↦ err no_session | some s ↦ lift (current_key s) ]

  -- A session that was closed is still there.
  unfoldable pub has_session : Device PK SK → Bool
  has_session d = elim d.session [ none ↦ false | some _ ↦ true ]

  unfoldable pub device_needs_rotation : Settings → ℕ → Device PK SK → Bool
  device_needs_rotation c now d = elim d.session [ none ↦ false | some s ↦ needs_rotation c now s ]

  unfoldable pub session_stats : Device PK SK → Stats
  session_stats d = elim d.session [ none ↦ no_stats | some s ↦ stats s ]

  unfoldable pub device_iteration : Device PK SK → ℕ
  device_iteration d = elim d.session [ none ↦ 0 | some s ↦ s.iteration ]

  unfoldable pub close_device_session : Device PK SK → Device PK SK
  close_device_session d = elim d.session [
    | none ↦ d
    | some s ↦ record d { session = some (close s) }
  ]

  unfoldable pub tamper_firmware : Bytes → Device PK SK → Device PK SK
  tamper_firmware malicious_payload d = record d {
    firmware_image = d.firmware_image ++ malicious_payload;
  }

  -- A call of a session's method, and the device with the session after it.
  abbrev pub on_session :
      {A : Type 0}
      → (Session → Result CryptoError A × Session)
      → Device PK SK
      → Result DeviceError A × Device PK SK
  on_session f d = elim d.session [
    | none ↦ (err no_session, d)
    | some s ↦ (lift (f s).0, record d { session = some (f s).1 })
  ]

  unfoldable pub apply_rotation_ack_from_gateway :
      ℕ → RotationAck → Device PK SK → Result DeviceError (Unit {0}) × Device PK SK
  apply_rotation_ack_from_gateway now ack d = on_session (apply_rotation_ack now ack) d

module _ {PK SK : Type 0} (lib : Primitives PK SK) where
  unfoldable pub firmware_hash : Device PK SK → Bytes
  firmware_hash d = lib.sig.sha256 d.firmware_image

  unfoldable pub serial_registration_output : Device PK SK → Result CryptoError SerialOutput
  unfolding firmware_hash
  serial_registration_output d = do
    identity_pub ← public_key_bytes lib.sig d.identity
    ok (
        build_serial_output lib.hash d.id identity_pub (kem_public_key_bytes lib.kem d.kem)
          (firmware_hash d))

  unfoldable pub start_handshake : Bytes → Device PK SK → Result CryptoError HandshakeMsg1
  start_handshake random d = do
    identity_pub ← public_key_bytes lib.sig d.identity
    ok (new_handshake_msg1 random d.id identity_pub)

  -- The session is replaced only once it is made.
  unfoldable pub complete_handshake :
      ℕ
      → HandshakeMsg1
      → HandshakeMsg2
      → Device PK SK
      → Result CryptoError HandshakeMsg3 × Device PK SK
  complete_handshake now msg1 msg2 d =
      elim (build_msg3 lib.hash lib.sig lib.kem d.kem.private_key d.identity msg1 msg2) [
        | err e ↦ (err e, d)
        | ok (msg3, k0) ↦ elim (new_session k0 now) [
          | err e ↦ (err e, d)
          | ok s ↦ (ok msg3, record d { session = some s })
        ]
      ]

  -- The sequence number is `uint32(stats.PacketCount)`.
  unfoldable pub send_data :
      Bytes → Bytes → Device PK SK → Result DeviceError (Bytes × Bytes) × Device PK SK
  send_data random plaintext d = elim d.session [
    | none ↦ (err no_session, d)
    | some s ↦ elim (current_key s) [
      | err e ↦ (err (crypto e), d)
      | ok key ↦
          elim (encrypt_packet lib.aead key ((stats s).packet_count % u32_mod) random plaintext) [
            | err e ↦ (err (crypto e), d)
            | ok sealed ↦ (ok sealed, record d { session = some (record_packet s) })
          ]
    ]
  ]

  unfoldable pub receive_data :
      Bytes → Bytes → Device PK SK → Result DeviceError Bytes × Device PK SK
  receive_data nonce ciphertext d = elim d.session [
    | none ↦ (err no_session, d)
    | some s ↦ elim (current_key s) [
      | err e ↦ (err (crypto e), d)
      | ok key ↦ elim (decrypt_packet lib.aead key nonce ciphertext) [
        | err e ↦ (err (crypto e), d)
        | ok plaintext ↦ (ok plaintext, record d { session = some (record_packet s) })
      ]
    ]
  ]

  unfoldable pub initiate_atomic_rotation :
      ℕ → Bytes → Device PK SK → Result DeviceError RotationMsgV2 × Device PK SK
  initiate_atomic_rotation now seed d = elim d.session [
    | none ↦ (err no_session, d)
    | some s ↦ elim d.gateway_kem [
      | none ↦ (err no_gateway_key, d)
      | some peer ↦ on_session (initiate_rotation_atomic lib.hash lib.kem now seed peer) d
    ]
  ]

  unfoldable pub handle_atomic_rotation_from_gateway :
      ℕ → RotationMsgV2 → Device PK SK → Result DeviceError RotationAck × Device PK SK
  handle_atomic_rotation_from_gateway now msg d =
      on_session (respond_to_rotation_atomic lib.hash lib.kem now d.kem.private_key msg) d

  unfoldable pub respond_firmware_challenge :
      Bytes → Device PK SK → Result CryptoError FirmwareResponse
  respond_firmware_challenge challenge d =
      respond_to_firmware_challenge lib.sig d.identity challenge d.firmware_image
