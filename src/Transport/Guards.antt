-- ===== src/Transport/Guards.antt =====
-- What a frame can and cannot bring about.
use lacert.Prelude.{
  Bool-cases, Bytes, Option, Option-cases, Result, Result-cases, ap, arith, false, inl, inr, length,
  list_eq, lookup, nat_beq_iff, nat_eq, ok, pair_eq, refl, some, string_eq, take, uint64, ℕ, ◌++◌,
  ◌==◌, ◌∙◌, ◌∷◌, ◌≡◌, ◌≢◌, ◌≤◌, ◌⊎◌,
}
use lacert.Wire.Frame.{WireError}
use lacert.Wire.MessageType
use lacert.Wire.Messages.{decode_data}
use lacert.Wire.Authentic.{decode_rotation_v2_forged}
use lacert.Crypto.ControlTag.{control_tag_size, compute_control_tag}
use lacert.Gateway.State.{control_key}
use lacert.Gateway.Traffic.{handle_data}
use lacert.Transport.Server.{
  Phase, awaiting_msg1, awaiting_msg3, serving, Traffic, Server, finish_conn, end_service,
  unregister_conn, register_conn,
}
use lacert.Transport.Connection.{
  touch, Next, ends, continues, Setup, answer_msg1, receive_msg1, receive_msg3, receive_data,
  receive_rotation_v2, receive_rotation_ack, receive_firmware_response, serve_frame, handle_frame,
  settle, receive,
}

module _ {PK SK S N : Type 0} (u : Setup PK SK S N) where
  -- The texts given to `OnData` after a step: the old ones, or one more that the gateway accepted.
  pub data Delivers (now conn : ℕ) (incoming : Result WireError (ℕ × Bytes)) (s s' : Server S N)
      : Type 0 where
    nothing_new : s'.traffic.delivered ≡ s.traffic.delivered → Delivers now conn incoming s s'
    accepted_text :
        (device_id : Bytes) (own : Option ℕ) (payload nonce ciphertext text : Bytes)
        → lookup conn s.accepted ≡ some (serving device_id own)
        → incoming ≡ ok (MessageType.packet, payload)
        → decode_data payload ≡ ok (nonce, ciphertext)
        → (handle_data u.lib u.db u.parse now device_id nonce ciphertext s.traffic.gateway).0
          ≡ ok text
        → s'.traffic.delivered ≡ (device_id, text) ∷ s.traffic.delivered
        → Delivers now conn incoming s s'

  delivered-settle :
      (conn : ℕ) (phase : Phase) (next : Next) (s : Server S N)
      → (settle u conn phase next s).traffic.delivered ≡ s.traffic.delivered
  unfolding settle register_conn finish_conn end_service unregister_conn
  delivered-settle conn phase next s = ground arith

  delivered-early :
      (now : ℕ) (seed gateway_nonce : Bytes) (conn msg_type : ℕ) (payload : Bytes) (t : Traffic S N)
      → (receive_msg1 u now seed gateway_nonce conn msg_type payload t).1.delivered ≡ t.delivered
  unfolding receive_msg1 answer_msg1
  delivered-early now seed gateway_nonce conn msg_type payload t = ground arith

  delivered-msg3 :
      (now : ℕ) (id : Bytes) (pending_id conn msg_type : ℕ) (payload : Bytes) (t : Traffic S N)
      → (receive_msg3 u now id pending_id conn msg_type payload t).1.delivered ≡ t.delivered
  unfolding receive_msg3
  delivered-msg3 now id pending_id conn msg_type payload t = ground arith

  delivered-others :
      (now : ℕ) (id : Bytes) (conn msg_type : ℕ) (payload : Bytes) (t : Traffic S N)
      → (msg_type == MessageType.packet) ≡ false
      → (serve_frame u now id conn msg_type payload t).1.delivered ≡ t.delivered
  unfolding serve_frame receive_rotation_v2 receive_rotation_ack receive_firmware_response
  delivered-others now id conn msg_type payload t other = ground arith

  pub touched :
      (now conn : ℕ) (t : Traffic S N)
      → ((touch u now conn t).gateway ≡ t.gateway) × ((touch u now conn t).delivered ≡ t.delivered)
  touched now conn t = elim (Option-cases (lookup conn t.entries)) [
    | inl e ↦ rw (touch, e) (refl, refl)
    | inr (entry, e) ↦ rw (touch, e) (refl, refl)
  ]

  delivered-data :
      (now : ℕ) (id payload : Bytes) (t : Traffic S N)
      → ((receive_data u now id payload t).1.delivered ≡ t.delivered)
        ⊎ ((nonce ciphertext text : Bytes) × (decode_data payload ≡ ok (nonce, ciphertext))
            × ((handle_data u.lib u.db u.parse now id nonce ciphertext t.gateway).0 ≡ ok text)
            × ((receive_data u now id payload t).1.delivered ≡ (id, text) ∷ t.delivered))
  unfolding receive_data
  delivered-data now id payload t = elim (Result-cases (decode_data payload)) [
    | inl (e, failed) ↦ inl (rw (receive_data, failed) refl)
    | inr ((nonce, ciphertext), read) ↦
        elim (Result-cases (handle_data u.lib u.db u.parse now id nonce ciphertext t.gateway).0) [
          | inl (e, failed) ↦ inl (rw (receive_data, read, failed) refl)
          | inr (text, taken) ↦
              inr (nonce, ciphertext, text, read, taken, rw (receive_data, read, taken) refl)
        ]
  ]

  delivered-serving :
      (now : ℕ) (id : Bytes) (own : Option ℕ) (conn msg_type : ℕ) (payload : Bytes)
      (s s' : Server S N)
      → lookup conn s.accepted ≡ some (serving id own)
      → s'.traffic.delivered ≡ (serve_frame u now id conn msg_type payload s.traffic).1.delivered
      → Delivers now conn (ok (msg_type, payload)) s s'
  unfolding serve_frame
  delivered-serving now id own conn msg_type payload s s' here after =
      let t = touch u now conn s.traffic in
      let (same_gateway, same) = touched now conn s.traffic in
      elim (Bool-cases (msg_type == MessageType.packet)) [
        | inr other ↦
            nothing_new (after ∙ delivered-others now id conn msg_type payload s.traffic other)
        | inl is_data ↦
            let kind : msg_type ≡ MessageType.packet = (nat_beq_iff _ _).0 is_data in
            let run : (serve_frame u now id conn msg_type payload s.traffic).1
                ≡ (receive_data u now id payload t).1 =
              rw (serve_frame, is_data) refl in
            let through = after ∙ ap (λ x. x.delivered) run in
            elim (delivered-data now id payload t) [
              | inl old ↦ nothing_new (through ∙ old ∙ same)
              | inr (nonce, ciphertext, text, read, taken, more) ↦
                  accepted_text id own payload nonce ciphertext text here (rw kind refl) read
                    (rw same_gateway at taken) (through ∙ more ∙ ap (λ l. (id, text) ∷ l) same)
            ]
      ]

  delivered-frame :
      (now : ℕ) (seed gateway_nonce : Bytes) (conn msg_type : ℕ) (payload : Bytes) (phase : Phase)
      (s : Server S N)
      → lookup conn s.accepted ≡ some phase
      → let r = handle_frame u now seed gateway_nonce conn msg_type payload phase s.traffic in
        Delivers now conn
          (ok (msg_type, payload))
          s
          (settle u conn phase r.0 (record s { traffic = r.1 }))
  unfolding handle_frame
  delivered-frame now seed gateway_nonce conn msg_type payload awaiting_msg1 s here =
      let r = receive_msg1 u now seed gateway_nonce conn msg_type payload s.traffic in
      nothing_new (
        delivered-settle conn awaiting_msg1 r.0 (record s { traffic = r.1 })
        ∙ delivered-early now seed gateway_nonce conn msg_type payload s.traffic)
  delivered-frame now seed gateway_nonce conn msg_type payload (awaiting_msg3 id pid) s here =
      let r = receive_msg3 u now id pid conn msg_type payload s.traffic in
      nothing_new (
        delivered-settle conn (awaiting_msg3 id pid) r.0 (record s { traffic = r.1 })
        ∙ delivered-msg3 now id pid conn msg_type payload s.traffic)
  delivered-frame now seed gateway_nonce conn msg_type payload (serving id own) s here =
      let r = serve_frame u now id conn msg_type payload s.traffic in
      delivered-serving now id own conn msg_type payload s
        (settle u conn (serving id own) r.0 (record s { traffic = r.1 })) here
        (delivered-settle conn (serving id own) r.0 (record s { traffic = r.1 }))

  -- A text that reaches the system behind the gateway came in a data packet, on a connection whose
  -- handshake is over, and the gateway accepted it for this handshake's device; in every other case
  -- nothing is passed on.
  pub only_accepted_packets_are_delivered :
      (now : ℕ) (seed gateway_nonce : Bytes) (conn : ℕ) (incoming : Result WireError (ℕ × Bytes))
      (s : Server S N)
      → Delivers now conn incoming s (receive u now seed gateway_nonce conn incoming s)
  unfolding receive
  only_accepted_packets_are_delivered now seed gateway_nonce conn incoming s =
      elim (Option-cases (lookup conn s.accepted)) [
        | inl gone ↦ rw (receive, gone) (nothing_new refl)
        | inr (phase, here) ↦ elim (Result-cases incoming) [
          | inl (e, failed) ↦
              rw (receive, here, failed) (nothing_new (delivered-settle conn phase ends s))
          | inr ((msg_type, payload), came) ↦
              rw (receive, here, came)
                (delivered-frame now seed gateway_nonce conn msg_type payload phase s here)
        ]
      ]

  serving-run :
      (now : ℕ) (seed gateway_nonce : Bytes) (conn msg_type : ℕ) (payload id : Bytes)
      (own : Option ℕ) (s : Server S N)
      → lookup conn s.accepted ≡ some (serving id own)
      → serve_frame u now id conn msg_type payload s.traffic
        ≡ (continues, touch u now conn s.traffic)
      → receive u now seed gateway_nonce conn (ok (msg_type, payload)) s
        ≡ record s { traffic = touch u now conn s.traffic }
  unfolding receive handle_frame
  serving-run now seed gateway_nonce conn msg_type payload id own s here on =
      rw (receive, here, on) (unfold settle in refl)

  -- Neither a rotation message whose tag is not the one of its body under the session's key, nor any
  -- frame of the old rotation without a tag, does anything on a connection that serves a device: the
  -- gateway, the network and the table stay as they were, but for the time the device was last seen.
  pub unauthenticated_rotation_is_ignored :
      (now : ℕ) (seed gateway_nonce : Bytes) (conn : ℕ) (id body tag payload key : Bytes)
      (own : Option ℕ) (s : Server S N)
      → lookup conn s.accepted ≡ some (serving id own)
      → control_key id s.traffic.gateway ≡ ok key
      → length tag ≡ control_tag_size
      → 8 ≤ length body
      → tag ≢ compute_control_tag u.lib.hash key MessageType.rotation_v2 (uint64 (take 8 body)) body
      → let seen = record s { traffic = touch u now conn s.traffic } in
        (receive u now seed gateway_nonce conn (ok (MessageType.rotation_v2, body ++ tag)) s ≡ seen)
        × (receive u now seed gateway_nonce conn (ok (MessageType.rotation, payload)) s ≡ seen)
  unfolding serve_frame receive_rotation_v2
  unauthenticated_rotation_is_ignored now seed gateway_nonce conn id body tag payload key own s here
        keyed ht hb forged =
      let (same_gateway, _) = touched now conn s.traffic in
      let keyed' : control_key id (touch u now conn s.traffic).gateway ≡ ok key =
        rw same_gateway keyed in
      let refused = decode_rotation_v2_forged u.lib.hash key body tag ht hb forged in
      (
        serving-run now seed gateway_nonce conn MessageType.rotation_v2 (body ++ tag) id own s here
            (rw (serve_frame, receive_rotation_v2, keyed', refused) refl),
        serving-run now seed gateway_nonce conn MessageType.rotation payload id own s here refl,
      )
