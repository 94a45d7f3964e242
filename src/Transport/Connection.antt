-- ===== src/Transport/Connection.antt =====
-- internal/transport/tcpserver/server.go: `handleConn` and `serveSession`, cut at the reads. A frame
-- that a connection's goroutine reads takes it to its next read or to its end; that is one step, and
-- nothing else happens in it. The text of an error is the argument `text`.
use lacert.Prelude.{
  Bool, Bytes, Map, Option, Result, codes, err, if◌then◌else◌, insert, list_eq, lookup, nat_eq,
  none, not, ok, pair_eq, some, string_eq, ℕ, ◌==◌, ◌∷◌,
}
use lacert.Crypto.Primitives.{Primitives}
use lacert.Crypto.Messages.{HandshakeMsg2}
use lacert.Crypto.Firmware.{check_ok}
use lacert.Wire.Frame.{WireError}
use lacert.Wire.MessageType
use lacert.Wire.Messages.{
  decode_msg1, encode_msg2, decode_msg3, decode_rotation_v2, encode_rotation_ack,
  decode_rotation_ack, decode_data, decode_firmware_response,
}
use lacert.Store.Calls.{DeviceStore}
use lacert.Gateway.State.{Gateway, GatewaySettings, GatewayError, control_key}
use lacert.Gateway.Lifecycle.{current_session}
use lacert.Gateway.Handshakes.{handle_msg1, handle_msg3}
use lacert.Gateway.Rotations.{handle_atomic_rotation_from_device, apply_rotation_ack_from_device}
use lacert.Gateway.Traffic.{handle_data, verify_firmware_check}
use lacert.Transport.Network.{Network, write_frame_with_deadline, write_error}
use lacert.Transport.Server.{
  Phase, awaiting_msg1, awaiting_msg3, serving, ConnEntry, Traffic, Server, register_conn,
  finish_conn, end_service,
}

-- Where a goroutine goes from here.
pub data Next : Type 0 where
  ends continues : Next
  awaits_msg3 : (device_id : Bytes) (pending_id : ℕ) → Next
  serves : (device_id : Bytes) (own_session : Option ℕ) → Next

-- What the server is set up with: the libraries, the store, the parser of telemetry, the gateway's own
-- KEM key and settings, the network and the texts of errors.
pub record Setup (PK SK S N : Type 0) : Type 0 where
  pub lib : Primitives PK SK
  pub db : DeviceStore S
  pub parse : Bytes → Map Bytes Bytes
  pub own_key : SK
  pub settings : GatewaySettings
  pub net : Network N
  pub text : GatewayError → Bytes
  pub limit : ℕ

module _ {PK SK S N : Type 0} (u : Setup PK SK S N) where
  abbrev pub with_gateway : Gateway S → Traffic S N → Traffic S N
  with_gateway g t = record t { gateway = g }

  abbrev pub send : ℕ → ℕ → Bytes → Traffic S N → Bool × Traffic S N
  send conn msg_type payload t =
      let (n, sent) = write_frame_with_deadline u.net conn msg_type payload t.network in
      (sent, record t { network = n })

  abbrev pub send_error : ℕ → Bytes → Traffic S N → Traffic S N
  send_error conn text t = record t { network = write_error u.net conn text t.network }

  -- The answer to Msg1 goes out. A panic of the encoder would end the connection.
  unfoldable pub answer_msg1 :
      ℕ → Bytes → Result GatewayError (HandshakeMsg2 × ℕ) → Traffic S N → Next × Traffic S N
  answer_msg1 conn device_id (err e) t = (ends, send_error conn (u.text e) t)
  answer_msg1 conn device_id (ok (msg2, pending_id)) t = elim (encode_msg2 msg2) [
    | err _ ↦ (ends, t)
    | ok payload ↦
        let (sent, t1) = send conn MessageType.handshake_msg2 payload t in
        if sent then (awaits_msg3 device_id pending_id, t1) else (ends, t1)
  ]

  -- The first frame.
  unfoldable pub receive_msg1 : ℕ → Bytes → Bytes → ℕ → ℕ → Bytes → Traffic S N → Next × Traffic S N
  unfolding answer_msg1
  receive_msg1 now seed gateway_nonce conn msg_type payload t =
      if not (msg_type == MessageType.handshake_msg1)
      then (ends, t)
      else elim (decode_msg1 payload) [
        | err _ ↦ (ends, t)
        | ok msg1 ↦
            let (answer, g) =
              handle_msg1 u.lib u.db u.settings now seed gateway_nonce msg1 t.gateway in
            answer_msg1 conn msg1.device_id answer (with_gateway g t)
      ]

  -- The frame after Msg2.
  unfoldable pub receive_msg3 : ℕ → Bytes → ℕ → ℕ → ℕ → Bytes → Traffic S N → Next × Traffic S N
  receive_msg3 now device_id pending_id conn msg_type payload t =
      if not (msg_type == MessageType.handshake_msg3)
      then (ends, t)
      else elim (decode_msg3 payload) [
        | err _ ↦ (ends, t)
        | ok msg3 ↦
            let (answer, g) =
              handle_msg3 u.lib u.db u.settings now device_id pending_id msg3 t.gateway in
            let t1 = with_gateway g t in
            let entry : ConnEntry = record { remote = u.net.remote_addr conn; last_seen = now } in
            elim answer [
              | err e ↦ (ends, send_error conn (u.text e) t1)
              | ok _ ↦ (
                serves device_id (current_session device_id g),
                record t1 { entries = insert conn entry t1.entries },
              )
            ]
      ]

  -- `TypeData`
  unfoldable pub receive_data : ℕ → Bytes → Bytes → Traffic S N → Next × Traffic S N
  receive_data now device_id payload t = elim (decode_data payload) [
    | err _ ↦ (continues, t)
    | ok (nonce, ciphertext) ↦
        let (answer, g) = handle_data u.lib u.db u.parse now device_id nonce ciphertext t.gateway in
        let t1 = with_gateway g t in
        elim answer [
          | err _ ↦ (continues, t1)
          | ok plaintext ↦
              (continues, record t1 { delivered = (device_id, plaintext) ∷ t1.delivered })
        ]
  ]

  -- `TypeRotationV2`; the key is taken before the rotation, for both tags.
  unfoldable pub receive_rotation_v2 : ℕ → Bytes → ℕ → Bytes → Traffic S N → Next × Traffic S N
  receive_rotation_v2 now device_id conn payload t = elim (control_key device_id t.gateway) [
    | err _ ↦ (continues, t)
    | ok key ↦ elim (decode_rotation_v2 u.lib.hash payload key) [
      | err _ ↦ (continues, t)
      | ok msg ↦
          let (answer, g) =
            handle_atomic_rotation_from_device u.lib u.db u.settings u.own_key now device_id msg
              t.gateway in
          let t1 = with_gateway g t in
          elim answer [
            | err _ ↦ (continues, t1)
            | ok ack ↦ (
              continues,
              (send conn MessageType.rotation_ack (encode_rotation_ack u.lib.hash ack key) t1).1,
            )
          ]
    ]
  ]

  -- `TypeRotationAck`
  unfoldable pub receive_rotation_ack : ℕ → Bytes → Bytes → Traffic S N → Next × Traffic S N
  receive_rotation_ack now device_id payload t = elim (control_key device_id t.gateway) [
    | err _ ↦ (continues, t)
    | ok key ↦ elim (decode_rotation_ack u.lib.hash payload key) [
      | err _ ↦ (continues, t)
      | ok ack ↦
          let (_, g) =
            apply_rotation_ack_from_device u.lib u.db u.settings now device_id ack t.gateway in
          (continues, with_gateway g t)
    ]
  ]

  -- `TypeFirmwareResponse`; a device that fails is told so, and its connection ends.
  unfoldable pub receive_firmware_response :
      ℕ → Bytes → ℕ → Bytes → Traffic S N → Next × Traffic S N
  receive_firmware_response now device_id conn payload t = elim (decode_firmware_response payload) [
    | err _ ↦ (continues, t)
    | ok resp ↦
        let (answer, g) =
          verify_firmware_check u.lib u.db u.settings now device_id resp t.gateway in
        let t1 = with_gateway g t in
        elim answer [
          | err _ ↦ (continues, t1)
          | ok result ↦
              if not (check_ok result)
              then (ends, send_error conn (codes "firmware check failed: device revoked") t1)
              else (continues, t1)
        ]
  ]

  abbrev pub touch : ℕ → ℕ → Traffic S N → Traffic S N
  touch now conn t = elim (lookup conn t.entries) [
    | none ↦ t
    | some e ↦ record t { entries = insert conn (record e { last_seen = now }) t.entries }
  ]

  -- The turn of `serveSession`'s loop for a frame. The old rotation, type 4, falls under the rest.
  unfoldable pub serve_frame : ℕ → Bytes → ℕ → ℕ → Bytes → Traffic S N → Next × Traffic S N
  unfolding receive_data receive_rotation_v2 receive_rotation_ack receive_firmware_response
  serve_frame now device_id conn msg_type payload t =
      let t1 = touch now conn t in
      if msg_type == MessageType.packet
      then receive_data now device_id payload t1
      else if msg_type == MessageType.rotation_v2
      then receive_rotation_v2 now device_id conn payload t1
      else if msg_type == MessageType.rotation_ack
      then receive_rotation_ack now device_id payload t1
      else if msg_type == MessageType.firmware_response
      then receive_firmware_response now device_id conn payload t1
      else (continues, t1)

  -- A frame, by where the goroutine stands.
  unfoldable pub handle_frame :
      ℕ → Bytes → Bytes → ℕ → ℕ → Bytes → Phase → Traffic S N → Next × Traffic S N
  unfolding receive_msg1 receive_msg3 serve_frame
  handle_frame now seed gateway_nonce conn msg_type payload awaiting_msg1 t =
      receive_msg1 now seed gateway_nonce conn msg_type payload t
  handle_frame now seed gateway_nonce conn msg_type payload (awaiting_msg3 device_id pending_id) t =
      receive_msg3 now device_id pending_id conn msg_type payload t
  handle_frame now seed gateway_nonce conn msg_type payload (serving device_id own_session) t =
      serve_frame now device_id conn msg_type payload t

  -- What the end of a read, or of a connection, does to the table.
  unfoldable pub settle : ℕ → Phase → Next → Server S N → Server S N
  unfolding register_conn finish_conn end_service
  settle conn phase continues s = s
  settle conn phase (awaits_msg3 device_id pending_id) s = record s {
    accepted = insert conn (awaiting_msg3 device_id pending_id) s.accepted;
  }
  settle conn phase (serves device_id own_session) s =
      register_conn u.net device_id conn
        (record s { accepted = insert conn (serving device_id own_session) s.accepted })
  settle conn (serving device_id own_session) ends s =
      finish_conn u.net conn (end_service u.net device_id own_session conn s)
  settle conn awaiting_msg1 ends s = finish_conn u.net conn s
  settle conn (awaiting_msg3 device_id pending_id) ends s = finish_conn u.net conn s

  -- A connection's read returns: a frame, or an error, which a closed socket and a timeout are too.
  unfoldable pub receive :
      ℕ → Bytes → Bytes → ℕ → Result WireError (ℕ × Bytes) → Server S N → Server S N
  unfolding handle_frame settle
  receive now seed gateway_nonce conn incoming s = elim (lookup conn s.accepted) [
    | none ↦ s
    | some phase ↦ elim incoming [
      | err _ ↦ settle conn phase ends s
      | ok (msg_type, payload) ↦
          let (next, t) =
            handle_frame now seed gateway_nonce conn msg_type payload phase s.traffic in
          settle conn phase next (record s { traffic = t })
    ]
  ]
