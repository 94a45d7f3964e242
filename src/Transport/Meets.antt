-- ===== src/Transport/Meets.antt =====
-- A device's client and the server, over the bytes that they send each other.
use lacert.Prelude.{
  >>=-eq-ok, Bytes, Option, ap, arith, length, list_eq, lookup, nat_eq, ok, pair_eq, refl, some,
  string_eq, u32_mod, ℕ, ◌+◌, ◌<◌, ◌∙◌, ◌∷◌, ◌≡◌, ◌≤◌,
}
use lacert.Crypto.Packet.{max_payload_size}
use lacert.Wire.MessageType
use lacert.Wire.Messages.{encode_data, decode_data}
use lacert.Wire.RoundTrip.{decode-encode_data}
use lacert.Gateway.Traffic.{handle_data}
use lacert.Device.{Device}
use lacert.Device.Channel.{IsInStep}
use lacert.Device.Packets.{packet_passes}
use lacert.Transport.Server.{Server, serving}
use lacert.Transport.Connection.{
  Setup, touch, continues, serve_frame, receive_data, handle_frame, settle, receive,
}
use lacert.Transport.Guards.{touched}
use lacert.Transport.Client.{Client, client_send_data, put_frame}

module _ {PK SK S N : Type 0} (u : Setup PK SK S N) where
  -- The server's turn for a data packet that the gateway accepts.
  data-run :
      (now : ℕ) (seed gateway_nonce : Bytes) (conn : ℕ) (id payload nonce ciphertext text : Bytes)
      (own : Option ℕ) (s : Server S N)
      → lookup conn s.accepted ≡ some (serving id own)
      → decode_data payload ≡ ok (nonce, ciphertext)
      → (handle_data u.lib u.db u.parse now id nonce ciphertext s.traffic.gateway).0 ≡ ok text
      → let s' = receive u now seed gateway_nonce conn (ok (MessageType.packet, payload)) s in
        (s'.traffic.gateway
          ≡ (handle_data u.lib u.db u.parse now id nonce ciphertext s.traffic.gateway).1)
        × (s'.traffic.delivered ≡ (id, text) ∷ s.traffic.delivered)
        × (s'.accepted ≡ s.accepted)
        × (s'.conns ≡ s.conns)
  unfolding receive handle_frame serve_frame receive_data
  data-run now seed gateway_nonce conn id payload nonce ciphertext text own s here read got =
      let t = touch u now conn s.traffic in
      let (same, kept) = touched u now conn s.traffic in
      let got' : (handle_data u.lib u.db u.parse now id nonce ciphertext t.gateway).0 ≡ ok text =
        rw same got in
      let taken : receive_data u now id payload t ≡ (
        continues,
        record t {
          gateway = (handle_data u.lib u.db u.parse now id nonce ciphertext t.gateway).1;
          delivered = (id, text) ∷ t.delivered;
        },
      ) =
        rw (receive_data, read, got') refl in
      let run : receive u now seed gateway_nonce conn (ok (MessageType.packet, payload)) s
          ≡ record s { traffic = (receive_data u now id payload t).1 } =
        rw (receive, here, ap (λ r. r.0) taken) (unfold settle in refl) in
      rw (run, taken)
        (
          ap (λ g. (handle_data u.lib u.db u.parse now id nonce ciphertext g).1) same,
          ap (λ l. (id, text) ∷ l) kept,
          refl,
          refl,
        )

  -- A text that a client sends to a server in step with its device reaches the system behind the
  -- gateway: the client writes one frame; when the server reads it on the device's connection, the
  -- text is passed on as this device's, and both ends are in step again. Opening undoes sealing, which
  -- adds 16 bytes.
  pub text_crosses_the_wire :
      (now : ℕ) (random plaintext seed gateway_nonce : Bytes) (own_conn conn : ℕ) (own : Option ℕ)
      (c : Client PK SK N) (s : Server S N) (h : IsInStep c.dev s.traffic.gateway)
      → lookup conn s.accepted ≡ some (serving c.dev.id own)
      → ((k n p : Bytes) → u.lib.aead.open_sealed k n (u.lib.aead.seal k n p) ≡ some p)
      → ((k n p : Bytes) → length (u.lib.aead.seal k n p) ≡ length p + 16)
      → length random ≡ 8
      → length plaintext ≤ max_payload_size
      → h.near.packet_count < u32_mod
      → (payload : Bytes) × (d' : Device PK SK) × (client_send_data u.lib u.net own_conn random
            plaintext c
          ≡ put_frame u.lib u.net own_conn MessageType.packet (ok payload) (record c { dev = d' }))
        × (let s' = receive u now seed gateway_nonce conn (ok (MessageType.packet, payload)) s in
            (s'.traffic.delivered ≡ (c.dev.id, plaintext) ∷ s.traffic.delivered)
            × (s'.accepted ≡ s.accepted)
            × IsInStep d' s'.traffic.gateway)
  unfolding client_send_data
  text_crosses_the_wire now random plaintext seed gateway_nonce own_conn conn own c s h here opens
        grows hr hp room =
      let (d', nonce, ct, sent, got, h', counted, size, sealed) =
        packet_passes u.lib u.db u.parse now random plaintext c.dev s.traffic.gateway h opens hr hp
          room in
      let small : length ct ≡ length plaintext + 16 =
        ap length sealed ∙ grows h.near.key nonce plaintext in
      let (payload, written, read) =
        >>=-eq-ok (encode_data nonce ct) decode_data
          (decode-encode_data nonce ct (omega (arith, size)) (omega (arith, small, hp))) in
      let (after, passed, same, _) =
        data-run now seed gateway_nonce conn c.dev.id payload nonce ct plaintext own s here read
          got in
      (
        payload,
        d',
        rw (client_send_data, ap (λ r. r.0) sent, ap (λ r. r.1) sent, written) refl,
        (passed, same, rw after h'),
      )
