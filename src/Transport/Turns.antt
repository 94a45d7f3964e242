-- ===== src/Transport/Turns.antt =====
-- A rotation that the server begins, over the bytes that it and the device's client send.
use lacert.Prelude.{
  >>=-eq-ok, Bytes, Option, ap, arith, list_eq, lookup, nat_eq, ok, pair_eq, refl, some, string_eq,
  u64_mod, ℕ, ◌<◌, ◌≡◌,
}
use lacert.Crypto.Primitives.{IsKeyPair}
use lacert.Crypto.Messages.{RotationMsgV2, RotationAck}
use lacert.Crypto.Session.{current_key}
use lacert.Crypto.Rotation.{next_iteration}
use lacert.Wire.MessageType
use lacert.Wire.Messages.{
  encode_rotation_v2, decode_rotation_v2, encode_rotation_ack, decode_rotation_ack,
}
use lacert.Wire.RoundTrip.{decode-encode_rotation_v2, decode-encode_rotation_ack}
use lacert.Gateway.State.{Gateway, control_key}
use lacert.Gateway.Handshakes.{registered_kem_key}
use lacert.Gateway.Rotations.{initiate_atomic_rotation_to_device, apply_rotation_ack_from_device}
use lacert.Device.{Device, control_key as device_key, handle_atomic_rotation_from_gateway}
use lacert.Device.Channel.{IsInStep}
use lacert.Device.Advance.{IsAdvanced}
use lacert.Device.Steps.{gateway_rotation_runs, step_message, step_ack}
use lacert.Transport.Network.{write_frame_with_deadline}
use lacert.Transport.Server.{Server, serving}
use lacert.Transport.Connection.{
  Setup, touch, continues, with_gateway, serve_frame, receive_rotation_ack, handle_frame, settle,
  receive,
}
use lacert.Transport.Requests.{server_initiate_rotation, rotation_on_conn}
use lacert.Transport.Guards.{touched}
use lacert.Transport.Client.{Client, listen_frame, listen_rotation_v2, put_frame}

module _ {PK SK S N : Type 0} (u : Setup PK SK S N) where
  begin-run :
      (now : ℕ) (seed id payload key : Bytes) (conn : ℕ) (msg : RotationMsgV2) (s : Server S N)
      → lookup id s.conns ≡ some conn
      → let begun =
          initiate_atomic_rotation_to_device u.lib u.db u.settings now seed id s.traffic.gateway in
        begun.0 ≡ ok msg
        → control_key id begun.1 ≡ ok key
        → encode_rotation_v2 u.lib.hash msg key ≡ ok payload
        → (server_initiate_rotation u now seed id s).1 ≡ record s {
          traffic = record s.traffic {
            gateway = begun.1;
            network =
                (write_frame_with_deadline u.net conn MessageType.rotation_v2 payload
                  s.traffic.network).0;
          };
        }
  unfolding server_initiate_rotation rotation_on_conn
  begin-run now seed id payload key conn msg s entry begun keyed written =
      rw (server_initiate_rotation, entry, rotation_on_conn, begun, keyed, written) refl

  hear-run :
      (now : ℕ) (payload key : Bytes) (own_conn : ℕ) (msg : RotationMsgV2) (ack : RotationAck)
      (c : Client PK SK N)
      → device_key c.dev ≡ ok key
      → decode_rotation_v2 u.lib.hash payload key ≡ ok msg
      → (handle_atomic_rotation_from_gateway u.lib now msg c.dev).0 ≡ ok ack
      → let d = (handle_atomic_rotation_from_gateway u.lib now msg c.dev).1 in
        listen_frame u.lib u.net own_conn now (ok (MessageType.rotation_v2, payload)) c ≡ (
          ok tt,
          (put_frame u.lib u.net own_conn MessageType.rotation_ack
              (ok (encode_rotation_ack u.lib.hash ack key))
              (record c { dev = d })).1,
        )
  unfolding listen_frame listen_rotation_v2
  hear-run now payload key own_conn msg ack c keyed read answered =
      rw (listen_frame, listen_rotation_v2, keyed, read, answered) refl

  ack-run :
      (now : ℕ) (seed gateway_nonce : Bytes) (conn : ℕ) (id payload key : Bytes) (own : Option ℕ)
      (ack : RotationAck) (s : Server S N)
      → lookup conn s.accepted ≡ some (serving id own)
      → control_key id s.traffic.gateway ≡ ok key
      → decode_rotation_ack u.lib.hash payload key ≡ ok ack
      → (receive u now seed gateway_nonce conn
          (ok (MessageType.rotation_ack, payload))
          s).traffic.gateway
        ≡ (apply_rotation_ack_from_device u.lib u.db u.settings now id ack s.traffic.gateway).1
  unfolding receive handle_frame serve_frame receive_rotation_ack
  ack-run now seed gateway_nonce conn id payload key own ack s here keyed read =
      let t = touch u now conn s.traffic in
      let (same, _) = touched u now conn s.traffic in
      let keyed' : control_key id t.gateway ≡ ok key = rw same keyed in
      let taken : receive_rotation_ack u now id payload t ≡ (
        continues,
        with_gateway u (apply_rotation_ack_from_device u.lib u.db u.settings now id ack t.gateway).1
            t,
      ) =
        rw (receive_rotation_ack, keyed', read) refl in
      let run : receive u now seed gateway_nonce conn (ok (MessageType.rotation_ack, payload)) s
          ≡ record s { traffic = (receive_rotation_ack u now id payload t).1 } =
        rw (receive, here, ap (λ r. r.0) taken) (unfold settle in refl) in
      rw (run, taken)
        (ap (λ g. (apply_rotation_ack_from_device u.lib u.db u.settings now id ack g).1) same)

  held-key : (d : Device PK SK) (g : Gateway S) (h : IsInStep d g) → device_key d ≡ ok h.near.key
  unfolding device_key current_key
  held-key d g h = ground (arith, h.held, h.ready.opened.1)

  -- A rotation that the server begins with a client in step, whose device's key pair is the registered
  -- one, goes through on the bytes alone: the server writes a frame on the device's connection, the
  -- client that reads it writes its acknowledgement, and when the server reads that, both ends are in
  -- step on the next key. Each frame's tag is made and checked with the key before the step.
  pub rotation_crosses_the_wire :
      (t0 t1 t2 : ℕ) (seed fresh gateway_nonce : Bytes) (own_conn conn : ℕ) (own : Option ℕ)
      (c : Client PK SK N) (s : Server S N) (h : IsInStep c.dev s.traffic.gateway)
      → lookup c.dev.id s.conns ≡ some conn
      → lookup conn s.accepted ≡ some (serving c.dev.id own)
      → registered_kem_key u.lib u.db u.settings c.dev.id s.traffic.gateway
        ≡ ok c.dev.kem.public_key
      → IsKeyPair u.lib.kem c.dev.kem.public_key c.dev.kem.private_key
      → let s1 = (server_initiate_rotation u t0 seed c.dev.id s).1 in
        (payload answer : Bytes) × (s1.traffic.network
          ≡ (write_frame_with_deadline u.net conn MessageType.rotation_v2 payload
              s.traffic.network).0)
        × (let heard =
              listen_frame u.lib u.net own_conn t1 (ok (MessageType.rotation_v2, payload)) c in
            (heard ≡ (
              ok tt,
              (put_frame u.lib u.net own_conn MessageType.rotation_ack
                  (ok answer)
                  (record c { dev = heard.1.dev })).1,
            ))
            × (let s2 =
                  receive u t2 fresh gateway_nonce conn
                    (ok (MessageType.rotation_ack, answer))
                    s1 in
                IsAdvanced u.lib
                  (u.lib.kem.shared_key c.dev.kem.public_key seed)
                  h
                  heard.1.dev
                  s2.traffic.gateway))
  rotation_crosses_the_wire t0 t1 t2 seed fresh gateway_nonce own_conn conn own c s h entry here
        known pair =
      let i = h.far.state.iteration in
      let pk = c.dev.kem.public_key in
      let msg = step_message u.lib u.db u.settings pk seed i in
      let ack = step_ack u.lib u.db u.settings i in
      let (begun, answered, keyed, ended) =
        gateway_rotation_runs u.lib u.db u.settings t0 t1 t2 seed c.dev s.traffic.gateway h known
          pair in
      let next_fits : next_iteration i < u64_mod = unfold next_iteration in omega arith in
      let (payload, written, read) =
        >>=-eq-ok (encode_rotation_v2 u.lib.hash msg h.near.key)
          (λ p. decode_rotation_v2 u.lib.hash p h.near.key)
          (decode-encode_rotation_v2 u.lib.hash h.near.key msg next_fits
            (omega (arith, u.lib.kem.length-ciphertext pk seed))) in
      let first =
        begin-run t0 seed c.dev.id payload h.near.key conn msg s entry begun keyed written in
      let heard =
        hear-run t1 payload h.near.key own_conn msg ack c (held-key c.dev s.traffic.gateway h) read
          answered in
      let read_ack = decode-encode_rotation_ack u.lib.hash h.near.key ack next_fits in
      let begun_gateway =
        (initiate_atomic_rotation_to_device u.lib u.db u.settings t0 seed c.dev.id
          s.traffic.gateway).1 in
      let s1 : Server S N = record s {
        traffic = record s.traffic {
          gateway = begun_gateway;
          network =
              (write_frame_with_deadline u.net conn MessageType.rotation_v2 payload
                s.traffic.network).0;
        };
      } in
      let committed =
        ack-run t2 fresh gateway_nonce conn c.dev.id (encode_rotation_ack u.lib.hash ack h.near.key)
          h.near.key own ack s1 here keyed read_ack in
      (
        payload,
        encode_rotation_ack u.lib.hash ack h.near.key,
        rw first refl,
        rw heard (refl, rw (first, committed) ended.1),
      )
