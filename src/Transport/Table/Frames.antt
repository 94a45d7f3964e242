-- ===== src/Transport/Table/Frames.antt =====
-- A frame, or the end of a connection, keeps the table consistent.
use lacert.Prelude.{
  Bytes, Option, Option-cases, Result, Result-cases, ap, arith, inl, inr, insert, list_eq, lookup,
  lookup-insert_self, nat_eq, pair_eq, some, string_eq, ℕ, ◌∙◌, ◌≡◌, ◌≢◌, ◌⊎◌,
}
use lacert.Wire.Frame.{WireError}
use lacert.Transport.Server.{
  Phase, awaiting_msg1, awaiting_msg3, serving, Traffic, Server, end_service,
}
use lacert.Transport.Connection.{
  touch, Next, ends, continues, awaits_msg3, serves, Setup, handle_frame, serve_frame, receive_data,
  receive_rotation_v2, receive_rotation_ack, receive_firmware_response, settle, receive,
}
use lacert.Transport.Table.{
  HasTable, advance-HasTable, finish_conn-HasTable, register_conn-HasTable, end_service-HasTable,
  end_service-run,
}

module _ {PK SK S N : Type 0} (u : Setup PK SK S N) where
  -- A connection that serves a device goes on to serve it, or ends.
  abbrev pub IsSteady : Next → Type 0
  IsSteady next = (next ≡ ends) ⊎ (next ≡ continues)

  receive_data-IsSteady :
      (now : ℕ) (id payload : Bytes) (t : Traffic S N)
      → IsSteady (receive_data u now id payload t).0
  unfolding receive_data
  receive_data-IsSteady now id payload t = ground arith

  receive_rotation_v2-IsSteady :
      (now : ℕ) (id : Bytes) (conn : ℕ) (payload : Bytes) (t : Traffic S N)
      → IsSteady (receive_rotation_v2 u now id conn payload t).0
  unfolding receive_rotation_v2
  receive_rotation_v2-IsSteady now id conn payload t = ground arith

  receive_rotation_ack-IsSteady :
      (now : ℕ) (id payload : Bytes) (t : Traffic S N)
      → IsSteady (receive_rotation_ack u now id payload t).0
  unfolding receive_rotation_ack
  receive_rotation_ack-IsSteady now id payload t = ground arith

  receive_firmware_response-IsSteady :
      (now : ℕ) (id : Bytes) (conn : ℕ) (payload : Bytes) (t : Traffic S N)
      → IsSteady (receive_firmware_response u now id conn payload t).0
  unfolding receive_firmware_response
  receive_firmware_response-IsSteady now id conn payload t = ground arith

  pub serve_frame-IsSteady :
      (now : ℕ) (id : Bytes) (conn msg_type : ℕ) (payload : Bytes) (t : Traffic S N)
      → IsSteady (serve_frame u now id conn msg_type payload t).0
  unfolding serve_frame
  serve_frame-IsSteady now id conn msg_type payload t =
      let t1 = touch u now conn t in
      ground (
        arith,
        receive_data-IsSteady now id payload t1,
        receive_rotation_v2-IsSteady now id conn payload t1,
        receive_rotation_ack-IsSteady now id payload t1,
        receive_firmware_response-IsSteady now id conn payload t1,
      )

  -- The end of a goroutine.
  ends-HasTable :
      (conn : ℕ) (phase : Phase) (s : Server S N)
      → lookup conn s.accepted ≡ some phase
      → HasTable u.limit s
      → HasTable u.limit (settle u conn phase ends s)
  unfolding settle
  ends-HasTable conn (serving id own) s here h =
      let (table, free) = end_service-HasTable u.net u.limit id own conn s here h in
      let (_, same, _, _) = end_service-run u.net u.limit id own conn s in
      finish_conn-HasTable u.net u.limit conn (serving id own) (end_service u.net id own conn s)
        (ap (λ m. lookup conn m) same ∙ here) free table
  ends-HasTable conn awaiting_msg1 s here h =
      finish_conn-HasTable u.net u.limit conn awaiting_msg1 s here
        (λ id e. let (own, served) = h.registered id conn e in cc (here, served)) h
  ends-HasTable conn (awaiting_msg3 id pending_id) s here h =
      finish_conn-HasTable u.net u.limit conn (awaiting_msg3 id pending_id) s here
        (λ j e. let (own, served) = h.registered j conn e in cc (here, served)) h

  -- A goroutine that does not serve a device yet may go anywhere.
  early-HasTable :
      (conn : ℕ) (phase : Phase) (next : Next) (s : Server S N)
      → lookup conn s.accepted ≡ some phase
      → ((id : Bytes) (own : Option ℕ) → phase ≢ serving id own)
      → HasTable u.limit s
      → HasTable u.limit (settle u conn phase next s)
  unfolding settle
  early-HasTable conn phase ends s here other h = ends-HasTable conn phase s here h
  early-HasTable conn phase continues s here other h = h
  early-HasTable conn phase (awaits_msg3 id pending_id) s here other h =
      advance-HasTable u.net u.limit conn phase (awaiting_msg3 id pending_id) s here other h
  early-HasTable conn phase (serves id own) s here other h =
      register_conn-HasTable u.net u.limit id own conn
        (record s { accepted = insert conn (serving id own) s.accepted })
        (lookup-insert_self conn (serving id own) s.accepted)
        (advance-HasTable u.net u.limit conn phase (serving id own) s here other h)

  frame-HasTable :
      (now : ℕ) (seed gateway_nonce : Bytes) (conn msg_type : ℕ) (payload : Bytes) (phase : Phase)
      (s : Server S N)
      → lookup conn s.accepted ≡ some phase
      → HasTable u.limit s
      → let r = handle_frame u now seed gateway_nonce conn msg_type payload phase s.traffic in
        HasTable u.limit (settle u conn phase r.0 (record s { traffic = r.1 }))
  unfolding handle_frame
  frame-HasTable now seed gateway_nonce conn msg_type payload (serving id own) s here h =
      let r = serve_frame u now id conn msg_type payload s.traffic in
      let t = record s { traffic = r.1 } in
      elim (serve_frame-IsSteady now id conn msg_type payload s.traffic) [
        | inl over ↦ rw over (ends-HasTable conn (serving id own) t here h)
        | inr on ↦ rw on (unfold settle in h)
      ]
  frame-HasTable now seed gateway_nonce conn msg_type payload awaiting_msg1 s here h =
      let r = handle_frame u now seed gateway_nonce conn msg_type payload awaiting_msg1 s.traffic in
      early-HasTable conn awaiting_msg1 r.0 (record s { traffic = r.1 }) here (λ id own e. cc e) h
  frame-HasTable now seed gateway_nonce conn msg_type payload (awaiting_msg3 id pid) s here h =
      let r =
        handle_frame u now seed gateway_nonce conn msg_type payload (awaiting_msg3 id pid)
          s.traffic in
      early-HasTable conn (awaiting_msg3 id pid) r.0 (record s { traffic = r.1 }) here
        (λ id own e. cc e) h

  pub receive-HasTable :
      (now : ℕ) (seed gateway_nonce : Bytes) (conn : ℕ) (incoming : Result WireError (ℕ × Bytes))
      (s : Server S N)
      → HasTable u.limit s
      → HasTable u.limit (receive u now seed gateway_nonce conn incoming s)
  unfolding receive
  receive-HasTable now seed gateway_nonce conn incoming s h =
      elim (Option-cases (lookup conn s.accepted)) [
        | inl gone ↦ rw (receive, gone) h
        | inr (phase, here) ↦ elim (Result-cases incoming) [
          | inl (e, failed) ↦ rw (receive, here, failed) (ends-HasTable conn phase s here h)
          | inr ((msg_type, payload), came) ↦
              rw (receive, here, came)
                (frame-HasTable now seed gateway_nonce conn msg_type payload phase s here h)
        ]
      ]
