-- ===== src/Transport/Endings.antt =====
-- How a connection ends.
use lacert.Prelude.{
  Bool-cases, Bytes, Option, Option-cases, ap, arith, beq_refl, delete, err, false, inl, inr,
  list_eq, lookup, lookup-delete, nat_beq_iff, nat_eq, none, ok, pair_eq, refl, some, string_eq, ℕ,
  ◌==◌, ◌∙◌, ◌≡◌,
}
use lacert.Crypto.Messages.{FirmwareResponse}
use lacert.Crypto.Firmware.{FirmwareCheckResult, check_ok}
use lacert.Wire.Frame.{WireError}
use lacert.Wire.MessageType
use lacert.Wire.Messages.{decode_firmware_response}
use lacert.Gateway.State.{Gateway}
use lacert.Gateway.Lifecycle.{close_session_instance, close_session_of}
use lacert.Gateway.Connections.{close-run}
use lacert.Gateway.Traffic.{verify_firmware_check}
use lacert.Gateway.Revocation.{IsCutOff}
use lacert.Gateway.Verdicts.{verify_firmware_check_judges}
use lacert.Transport.Server.{serving, Server, finish_conn, end_service, unregister_conn}
use lacert.Transport.Connection.{
  touch, ends, Setup, receive_firmware_response, serve_frame, handle_frame, settle, receive,
}
use lacert.Transport.Guards.{touched}

module _ {PK SK S N : Type 0} (u : Setup PK SK S N) where
  close-absent :
      (id : Bytes) (own : Option ℕ) (g : Gateway S)
      → lookup id g.sessions ≡ none
      → close_session_instance id own g ≡ (false, g)
  unfolding close_session_instance close_session_of
  close-absent id none g gone = refl
  close-absent id (some ref) g gone = ground (arith, gone)

  -- A connection of a device that has connected again ends, for whatever reason its read fails. The
  -- newer connection is not disturbed: it is still the device's entry and serves on, the gateway is
  -- as it was, and with it the newer session; only the old connection is gone.
  pub stale_connection_spares_newer :
      (now : ℕ) (seed gateway_nonce id : Bytes) (conn newer mine ref : ℕ) (e : WireError)
      (s : Server S N)
      → lookup conn s.accepted ≡ some (serving id (some mine))
      → lookup id s.conns ≡ some newer
      → (newer == conn) ≡ false
      → lookup id s.traffic.gateway.sessions ≡ some ref
      → (ref == mine) ≡ false
      → let s' = receive u now seed gateway_nonce conn (err e) s in
        (lookup id s'.conns ≡ some newer)
        × (lookup newer s'.accepted ≡ lookup newer s.accepted)
        × (s'.traffic.gateway ≡ s.traffic.gateway)
        × (lookup conn s'.accepted ≡ none)
  unfolding receive settle end_service unregister_conn finish_conn
  stale_connection_spares_newer now seed gateway_nonce id conn newer mine ref e s here again other
        linked apart =
      let closed : close_session_instance id (some mine) s.traffic.gateway
          ≡ (false, s.traffic.gateway) =
        close-run id mine ref s.traffic.gateway linked ∙ rw apart refl in
      let run : receive u now seed gateway_nonce conn (err e) s ≡ finish_conn u.net conn s =
        rw (receive, here, settle, end_service, unregister_conn, again, other, closed) refl in
      rw run (
        again,
        ground (
          arith,
          lookup-delete conn newer s.accepted,
          other,
          nat_beq_iff newer conn,
          nat_beq_iff conn newer,
        ),
        refl,
        lookup-delete conn conn s.accepted ∙ rw (beq_refl conn) refl,
      )

  revoked-run :
      (now : ℕ) (seed gateway_nonce : Bytes) (conn : ℕ) (id payload : Bytes) (own : Option ℕ)
      (resp : FirmwareResponse) (result : FirmwareCheckResult) (s : Server S N)
      → lookup conn s.accepted ≡ some (serving id own)
      → decode_firmware_response payload ≡ ok resp
      → (verify_firmware_check u.lib u.db u.settings now id resp s.traffic.gateway).0 ≡ ok result
      → check_ok result ≡ false
      → let g = (verify_firmware_check u.lib u.db u.settings now id resp s.traffic.gateway).1 in
        let t = (serve_frame u now id conn MessageType.firmware_response payload s.traffic).1 in
        (t.gateway ≡ g)
        × (receive u now seed gateway_nonce conn (ok (MessageType.firmware_response, payload)) s
            ≡ settle u conn (serving id own) ends (record s { traffic = t }))
  unfolding serve_frame receive handle_frame receive_firmware_response
  revoked-run now seed gateway_nonce conn id payload own resp result s here read judged failed =
      let (same_gateway, _) = touched u now conn s.traffic in
      let t0 = touch u now conn s.traffic in
      let judged' : (verify_firmware_check u.lib u.db u.settings now id resp t0.gateway).0
          ≡ ok result =
        rw same_gateway judged in
      let over : (receive_firmware_response u now id conn payload t0).0 ≡ ends =
        rw (receive_firmware_response, read, judged', failed) refl in
      let next : (serve_frame u now id conn MessageType.firmware_response payload s.traffic).0
          ≡ ends =
        over in
      (
        rw (receive_firmware_response, read, judged', failed) (rw same_gateway refl),
        rw (receive, here, next) refl,
      )

  ended :
      (id : Bytes) (own : Option ℕ) (conn : ℕ) (s : Server S N)
      → let s' = settle u conn (serving id own) ends s in
        (s'.traffic.gateway ≡ (close_session_instance id own s.traffic.gateway).1)
        × (lookup conn s'.accepted ≡ none)
  unfolding settle end_service unregister_conn finish_conn
  ended id own conn s =
      let gone : lookup conn (delete conn s.accepted) ≡ none =
        lookup-delete conn conn s.accepted ∙ rw (beq_refl conn) refl in
      elim (Option-cases (lookup id s.conns)) [
        | inl e ↦ rw (settle, end_service, unregister_conn, finish_conn, e) (refl, gone)
        | inr (current, e) ↦ elim (Bool-cases (current == conn)) [
          | inl same ↦ rw (settle, end_service, unregister_conn, finish_conn, e, same) (refl, gone)
          | inr apart ↦
              rw (settle, end_service, unregister_conn, finish_conn, e, apart) (refl, gone)
        ]
      ]

  -- An answer to a firmware challenge that the gateway judges and finds wanting ends the connection that
  -- it came on, and the device is revoked in the store and has no session.
  pub failed_inspection_disconnects :
      (now : ℕ) (seed gateway_nonce : Bytes) (conn : ℕ) (id payload : Bytes) (own : Option ℕ)
      (resp : FirmwareResponse) (result : FirmwareCheckResult) (s : Server S N)
      → lookup conn s.accepted ≡ some (serving id own)
      → decode_firmware_response payload ≡ ok resp
      → (verify_firmware_check u.lib u.db u.settings now id resp s.traffic.gateway).0 ≡ ok result
      → check_ok result ≡ false
      → let s' =
          receive u now seed gateway_nonce conn (ok (MessageType.firmware_response, payload)) s in
        (lookup conn s'.accepted ≡ none) × IsCutOff u.db id s'.traffic.gateway
  failed_inspection_disconnects now seed gateway_nonce conn id payload own resp result s here read
        judged failed =
      let g = (verify_firmware_check u.lib u.db u.settings now id resp s.traffic.gateway).1 in
      let t = (serve_frame u now id conn MessageType.firmware_response payload s.traffic).1 in
      let (same, run) =
        revoked-run now seed gateway_nonce conn id payload own resp result s here read judged
          failed in
      let cut =
        (verify_firmware_check_judges u.lib u.db u.settings now id resp s.traffic.gateway result
            judged).failed
          failed in
      let (closed, gone) = ended id own conn (record s { traffic = t }) in
      let after : (settle u conn (serving id own) ends (record s { traffic = t })).traffic.gateway
          ≡ g =
        closed
        ∙ ap (λ x. (close_session_instance id own x).1) same
        ∙ ap (λ r. r.1) (close-absent id own g cut.no_session) in
      rw run (gone, rw after cut)
