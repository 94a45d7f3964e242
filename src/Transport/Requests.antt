-- ===== src/Transport/Requests.antt =====
-- internal/transport/tcpserver/server.go: what the scheduler and the administrator have the server
-- send on a device's connection.
use lacert.Prelude.{
  Bytes, Result, err, if◌then◌else◌, list_eq, lookup, nat_eq, none, ok, pair_eq, some, string_eq, ℕ,
}
use lacert.Wire.MessageType
use lacert.Wire.Messages.{encode_rotation_v2, encode_firmware_challenge}
use lacert.Gateway.State.{GatewayError, control_key}
use lacert.Gateway.Rotations.{initiate_atomic_rotation_to_device}
use lacert.Gateway.Traffic.{issue_firmware_challenge}
use lacert.Transport.Server.{Traffic, Server}
use lacert.Transport.Connection.{Setup, with_gateway, send}

pub data RequestError : Type 0 where
  no_connection not_sent : RequestError
  refused : GatewayError → RequestError

module _ {PK SK S N : Type 0} (u : Setup PK SK S N) where
  -- A panic of the encoder, for a field that is too large, counts as a frame that is not sent.
  abbrev pub send_encoded :
      {E : Type 0}
      → ℕ
      → ℕ
      → Result E Bytes
      → Traffic S N
      → Result RequestError (Unit {0}) × Traffic S N
  send_encoded conn msg_type (err _) t = (err not_sent, t)
  send_encoded conn msg_type (ok payload) t =
      let (sent, t1) = send u conn msg_type payload t in (if sent then ok tt else err not_sent, t1)

  -- From the session's next step on, which stays begun if the frame is not sent.
  unfoldable pub rotation_on_conn :
      ℕ → Bytes → Bytes → ℕ → Traffic S N → Result RequestError (Unit {0}) × Traffic S N
  rotation_on_conn now seed device_id conn t =
      let (answer, g) =
        initiate_atomic_rotation_to_device u.lib u.db u.settings now seed device_id t.gateway in
      let t1 = with_gateway u g t in
      elim answer [
        | err e ↦ (err (refused e), t1)
        | ok msg ↦ elim (control_key device_id g) [
          | err e ↦ (err (refused e), t1)
          | ok key ↦
              send_encoded conn MessageType.rotation_v2 (encode_rotation_v2 u.lib.hash msg key) t1
        ]
      ]

  -- `Server.InitiateAtomicRotation`
  unfoldable pub server_initiate_rotation :
      ℕ → Bytes → Bytes → Server S N → Result RequestError (Unit {0}) × Server S N
  unfolding rotation_on_conn
  server_initiate_rotation now seed device_id s = elim (lookup device_id s.conns) [
    | none ↦ (err no_connection, s)
    | some conn ↦
        let (answer, t) = rotation_on_conn now seed device_id conn s.traffic in
        (answer, record s { traffic = t })
  ]

  unfoldable pub challenge_on_conn :
      ℕ → Bytes → Bytes → ℕ → Traffic S N → Result RequestError (Unit {0}) × Traffic S N
  challenge_on_conn now random device_id conn t =
      let (answer, g) =
        issue_firmware_challenge u.lib u.db u.settings now random device_id t.gateway in
      let t1 = with_gateway u g t in
      elim answer [
        | err e ↦ (err (refused e), t1)
        | ok challenge ↦
            send_encoded conn MessageType.firmware_challenge (encode_firmware_challenge challenge)
              t1
      ]

  -- `Server.IssueFirmwareChallenge`
  unfoldable pub server_issue_challenge :
      ℕ → Bytes → Bytes → Server S N → Result RequestError (Unit {0}) × Server S N
  unfolding challenge_on_conn
  server_issue_challenge now random device_id s = elim (lookup device_id s.conns) [
    | none ↦ (err no_connection, s)
    | some conn ↦
        let (answer, t) = challenge_on_conn now random device_id conn s.traffic in
        (answer, record s { traffic = t })
  ]
