-- ===== src/Transport/Client.antt =====
-- internal/transport/tcpclient/client.go: the device's end of a connection, which is the socket `conn`.
-- A turn of `Listen`'s loop is one step. Texts that are only logged are left out.
use lacert.Prelude.{
  Bool, Bytes, Result, err, false, if◌then◌else◌, list_eq, nat_eq, not, ok, pair_eq, string_eq,
  true, ℕ, ◌==◌,
}
use lacert.Crypto.Primitives.{Primitives}
use lacert.Crypto.Messages.{HandshakeMsg1}
use lacert.Crypto.Session.{Settings}
use lacert.Wire.Frame.{WireError}
use lacert.Wire.MessageType
use lacert.Wire.Messages.{
  encode_msg1, decode_msg2, encode_msg3, encode_rotation_v2, decode_rotation_v2,
  encode_rotation_ack, decode_rotation_ack, encode_data, decode_firmware_challenge,
  encode_firmware_response,
}
use lacert.Device.{
  Device, DeviceError, crypto, start_handshake, complete_handshake, control_key, send_data,
  device_needs_rotation, initiate_atomic_rotation, handle_atomic_rotation_from_gateway,
  apply_rotation_ack_from_gateway, respond_firmware_challenge, close_device_session,
}
use lacert.Transport.Network.{Network, write_frame_with_deadline}

pub record Client (PK SK N : Type 0) : Type 0 where
  pub dev : Device PK SK
  pub network : N

pub data ClientError : Type 0 where
  by_device : DeviceError → ClientError
  by_wire : WireError → ClientError
  write_failed unexpected_type : ClientError
  gateway_error : (reason : Bytes) → ClientError

-- What a call returns, with the client after it.
abbrev pub Outcome : (PK SK N A : Type 0) → Type 0
Outcome PK SK N A = Result ClientError A × Client PK SK N

module _ {PK SK N : Type 0} (lib : Primitives PK SK) (net : Network N) (conn : ℕ) where
  -- `wire.WriteFrame(c.conn, ...)` of what an encoder gives; its panic is an error.
  abbrev pub put_frame : ℕ → Result WireError Bytes → Client PK SK N → Outcome PK SK N (Unit {0})
  put_frame msg_type (err e) c = (err (by_wire e), c)
  put_frame msg_type (ok payload) c =
      let (n, sent) = write_frame_with_deadline net conn msg_type payload c.network in
      (if sent then ok tt else err write_failed, record c { network = n })

  -- `handshake`, up to its read; it gives the first message.
  unfoldable pub begin_handshake : Bytes → Client PK SK N → Outcome PK SK N HandshakeMsg1
  begin_handshake random c = elim (start_handshake lib random c.dev) [
    | err e ↦ (err (by_device (crypto e)), c)
    | ok msg1 ↦
        let (answer, c1) = put_frame MessageType.handshake_msg1 (encode_msg1 msg1) c in
        elim answer [ err e ↦ (err e, c1) | ok _ ↦ (ok msg1, c1) ]
  ]

  -- `handshake`, from the frame that it read on.
  unfoldable pub finish_client_handshake :
      ℕ → HandshakeMsg1 → ℕ → Bytes → Client PK SK N → Outcome PK SK N (Unit {0})
  finish_client_handshake now msg1 msg_type payload c =
      if msg_type == MessageType.error
      then (err (gateway_error payload), c)
      else if not (msg_type == MessageType.handshake_msg2)
      then (err unexpected_type, c)
      else elim (decode_msg2 payload) [
        | err e ↦ (err (by_wire e), c)
        | ok msg2 ↦
            let (answer, d) = complete_handshake lib now msg1 msg2 c.dev in
            let c1 = record c { dev = d } in
            elim answer [
              | err e ↦ (err (by_device (crypto e)), c1)
              | ok msg3 ↦ put_frame MessageType.handshake_msg3 (encode_msg3 msg3) c1
            ]
      ]

  unfoldable pub client_send_data : Bytes → Bytes → Client PK SK N → Outcome PK SK N (Unit {0})
  client_send_data random plaintext c =
      let (sealed, d) = send_data lib random plaintext c.dev in
      let c1 = record c { dev = d } in
      elim sealed [
        | err e ↦ (err (by_device e), c1)
        | ok (nonce, ciphertext) ↦ put_frame MessageType.packet (encode_data nonce ciphertext) c1
      ]

  unfoldable pub force_atomic_rotation : ℕ → Bytes → Client PK SK N → Outcome PK SK N (Unit {0})
  force_atomic_rotation now seed c =
      let (begun, d) = initiate_atomic_rotation lib now seed c.dev in
      let c1 = record c { dev = d } in
      elim begun [
        | err e ↦ (err (by_device e), c1)
        | ok msg ↦ elim (control_key d) [
          | err e ↦ (err (by_device e), c1)
          | ok key ↦ put_frame MessageType.rotation_v2 (encode_rotation_v2 lib.hash msg key) c1
        ]
      ]

  -- The flag says that a rotation was begun and sent.
  unfoldable pub rotate_if_needed_atomic :
      Settings → ℕ → Bytes → Client PK SK N → Outcome PK SK N Bool
  unfolding force_atomic_rotation
  rotate_if_needed_atomic settings now seed c =
      let (answer, c1) = force_atomic_rotation now seed c in
      let tried : Outcome PK SK N Bool = elim answer [
        | err e ↦ (err e, c1)
        | ok _ ↦ (ok true, c1)
      ] in
      if device_needs_rotation settings now c.dev then tried else (ok false, c)

  -- The frames that `Listen` answers; what goes wrong is only logged.
  unfoldable pub listen_rotation_v2 : ℕ → Bytes → Client PK SK N → Client PK SK N
  listen_rotation_v2 now payload c = elim (control_key c.dev) [
    | err _ ↦ c
    | ok key ↦ elim (decode_rotation_v2 lib.hash payload key) [
      | err _ ↦ c
      | ok msg ↦
          let (answer, d) = handle_atomic_rotation_from_gateway lib now msg c.dev in
          let c1 = record c { dev = d } in
          elim answer [
            | err _ ↦ c1
            | ok ack ↦
                (put_frame MessageType.rotation_ack (ok (encode_rotation_ack lib.hash ack key))
                  c1).1
          ]
    ]
  ]

  unfoldable pub listen_rotation_ack : ℕ → Bytes → Client PK SK N → Client PK SK N
  listen_rotation_ack now payload c = elim (control_key c.dev) [
    | err _ ↦ c
    | ok key ↦ elim (decode_rotation_ack lib.hash payload key) [
      | err _ ↦ c
      | ok ack ↦ record c { dev = (apply_rotation_ack_from_gateway now ack c.dev).1 }
    ]
  ]

  unfoldable pub listen_firmware_challenge : Bytes → Client PK SK N → Client PK SK N
  listen_firmware_challenge payload c = elim (decode_firmware_challenge payload) [
    | err _ ↦ c
    | ok challenge ↦ elim (respond_firmware_challenge lib challenge c.dev) [
      | err _ ↦ c
      | ok resp ↦ (put_frame MessageType.firmware_response (encode_firmware_response resp) c).1
    ]
  ]

  -- A turn of `Listen`'s loop. An error is what `Listen` returns; it goes on otherwise.
  unfoldable pub listen_frame :
      ℕ → Result WireError (ℕ × Bytes) → Client PK SK N → Outcome PK SK N (Unit {0})
  unfolding listen_rotation_v2 listen_rotation_ack listen_firmware_challenge
  listen_frame now (err e) c = (err (by_wire e), c)
  listen_frame now (ok (msg_type, payload)) c =
      if msg_type == MessageType.rotation_v2
      then (ok tt, listen_rotation_v2 now payload c)
      else if msg_type == MessageType.rotation_ack
      then (ok tt, listen_rotation_ack now payload c)
      else if msg_type == MessageType.firmware_challenge
      then (ok tt, listen_firmware_challenge payload c)
      else if msg_type == MessageType.error
      then (err (gateway_error payload), c)
      else (ok tt, c)

  unfoldable pub close_client : Client PK SK N → Client PK SK N
  close_client c = record c {
    dev = close_device_session c.dev;
    network = net.close_conn conn c.network;
  }
