-- ===== src/Device/Greeting.antt =====
-- A device and the gateway shake hands.
use lacert.Prelude.{
  Bytes, Result, Result-cases, [], ap, arith, copy_whole, delete, inl, inr, length, list_eq, lookup,
  lookup-insert_self, nat_beq_iff, nat_eq, ok, pair_eq, refl, some, string_eq, sym, ℕ, ◌+◌, ◌∙◌,
  ◌≡◌, ◌≤◌,
}
use lacert.Crypto.Primitives.{Primitives}
use lacert.Crypto.Messages.{HandshakeMsg1, HandshakeMsg2, HandshakeMsg3}
use lacert.Crypto.Session.{Session, new_session, blank_key}
use lacert.Crypto.Rotation.Lifetime.{new_session-IsWindow}
use lacert.Crypto.Rotation.Outcomes.{IsReady}
use lacert.Crypto.Signature.{public_key_bytes}
use lacert.Crypto.Handshake.{
  build_msg2, build_msg3, finalize_handshake, handshake_agrees, new_handshake_msg1,
}
use lacert.Crypto.ReplayGuard.{check_and_remember}
use lacert.Store.Types.{DeviceRecord, active}
use lacert.Store.Calls.{DeviceStore}
use lacert.Gateway.Metrics.{inc, inc_handshake_completed}
use lacert.Gateway.State.{
  Gateway, GatewaySettings, GatewayError, PendingHandshake, session, count, log_event,
}
use lacert.Gateway.Handshakes.{
  handle_msg1, handle_msg3, remember_attempt, registered_kem_key, finish_handshake, start_session,
}
use lacert.Gateway.Entry.{session-start}
use lacert.Device.{Device, start_handshake, complete_handshake}
use lacert.Device.Channel.{IsInStep}
use lacert.Device.Standing.{IsEnrolled, registered-enrolled}

new_sessions-IsReady :
    (k0 : Bytes) (t0 t1 : ℕ) (s t : Session)
    → new_session k0 t0 ≡ ok s
    → new_session k0 t1 ≡ ok t
    → IsReady t s
unfolding new_session
new_sessions-IsReady k0 t0 t1 s t made made' =
    ground (arith, nat_beq_iff (length k0) 32, copy_whole blank_key k0)

new_session-forgets :
    (k0 : Bytes) (now : ℕ) (s : Session)
    → new_session k0 now ≡ ok s
    → (s.seen_order ≡ []) × (s.packet_count ≡ 0) × (s.iteration ≡ 0)
unfolding new_session
new_session-forgets k0 now s made = ground arith

new_session-again :
    (k0 : Bytes) (t0 t1 : ℕ) (s : Session)
    → new_session k0 t0 ≡ ok s
    → new_session k0 t1 ≡ ok (record s { last_rotated_at = t1 })
unfolding new_session
new_session-again k0 t0 t1 s made = ground arith

module _ {PK SK : Type 0} (lib : Primitives PK SK) where
  -- What the device's third message rests on.
  complete_handshake-ok :
      (now : ℕ) (msg1 : HandshakeMsg1) (msg2 : HandshakeMsg2) (d : Device PK SK)
      (msg3 : HandshakeMsg3)
      → (complete_handshake lib now msg1 msg2 d).0 ≡ ok msg3
      → (k0 : Bytes) × (s : Session) × (build_msg3 lib.hash lib.sig lib.kem d.kem.private_key
            d.identity msg1 msg2
          ≡ ok (msg3, k0))
        × (new_session k0 now ≡ ok s)
        × ((complete_handshake lib now msg1 msg2 d).1 ≡ record d { session = some s })
  unfolding complete_handshake
  complete_handshake-ok now msg1 msg2 d msg3 h =
      elim (Result-cases
        (build_msg3 lib.hash lib.sig lib.kem d.kem.private_key d.identity msg1 msg2)) [
          | inl (e, failed) ↦ absurd (ground arith)
          | inr ((m, k0), built) ↦ elim (Result-cases (new_session k0 now)) [
            | inl (e, failed) ↦ absurd (ground arith)
            | inr (s, made) ↦
                let run : complete_handshake lib now msg1 msg2 d
                    ≡ (ok m, record d { session = some s }) =
                  rw (complete_handshake, built, made) refl in
                let same : m ≡ msg3 = ground (arith, run) in
                (k0, s, rw same at built, made, ap (λ r. r.1) run)
          ]
        ]

module _ {PK SK S : Type 0} (lib : Primitives PK SK) (db : DeviceStore S)
    (c : GatewaySettings) where
  abbrev answer_with :
      ℕ
      → HandshakeMsg1
      → HandshakeMsg2 × Bytes
      → Gateway S
      → Result GatewayError (HandshakeMsg2 × ℕ) × Gateway S
  answer_with now msg1 built g =
      let kept = remember_attempt lib db c now msg1 built g in (ok (built.0, kept.0), kept.1)

  -- The gateway's answer to a first message, and the attempt that it keeps.
  handle_msg1-answered :
      (now : ℕ) (seed gateway_nonce : Bytes) (msg1 : HandshakeMsg1) (g : Gateway S) (pk : PK)
      (answer : HandshakeMsg2 × ℕ)
      → registered_kem_key lib db c msg1.device_id g ≡ ok pk
      → (handle_msg1 lib db c now seed gateway_nonce msg1 g).0 ≡ ok answer
      → let built = build_msg2 lib.hash lib.sig lib.kem pk seed gateway_nonce in
        let g' = (handle_msg1 lib db c now seed gateway_nonce msg1 g).1 in
        (answer.0 ≡ built.0)
        × (g'.store ≡ g.store)
        × (lookup msg1.device_id g'.pending_handshake
            ≡ some (record {
              id = answer.1;
              msg1 = msg1;
              msg2 = built.0;
              shared_secret = built.1;
              issued_at = now;
            }))
  unfolding handle_msg1 remember_attempt registered_kem_key build_msg2
  handle_msg1-answered now seed gateway_nonce msg1 g pk answer known h =
      elim (Result-cases (check_and_remember now msg1.device_id msg1.nonce g.replay_guard).0) [
        | inl (e, failed) ↦ absurd (ground arith)
        | inr (u, passed) ↦
            let guard = (check_and_remember now msg1.device_id msg1.nonce g.replay_guard).1 in
            let g1 = record g { replay_guard = guard } in
            let known' : registered_kem_key lib db c msg1.device_id g1 ≡ ok pk =
              unfold registered_kem_key in known in
            let run : handle_msg1 lib db c now seed gateway_nonce msg1 g
                ≡ answer_with now msg1 (build_msg2 lib.hash lib.sig lib.kem pk seed gateway_nonce)
                    g1 =
              rw (handle_msg1, passed, known') refl in
            let same : answer ≡ (
              (build_msg2 lib.hash lib.sig lib.kem pk seed gateway_nonce).0,
              inc g.next_pending_id,
            ) =
              ground (arith, run) in
            rw (run, same) (refl, refl, lookup-insert_self msg1.device_id _ _)
      ]

  handle_msg3-run :
      (now : ℕ) (id : Bytes) (attempt : ℕ) (msg3 : HandshakeMsg3) (p : PendingHandshake)
      (g : Gateway S)
      → lookup id g.pending_handshake ≡ some p
      → p.id ≡ attempt
      → now ≤ p.issued_at + c.pending_handshake_timeout
      → handle_msg3 lib db c now id attempt msg3 g
        ≡ finish_handshake lib db c now id msg3 p
            (record g { pending_handshake = delete id g.pending_handshake })
  unfolding handle_msg3
  handle_msg3-run now id attempt msg3 p g waits own early = ground (arith, waits, own)

  finish-run :
      (now : ℕ) (id : Bytes) (msg3 : HandshakeMsg3) (p : PendingHandshake) (g : Gateway S)
      (rec : DeviceRecord) (k0 : Bytes) (s : Session)
      → db.get id g.store ≡ active rec
      → finalize_handshake lib.hash lib.sig rec.identity_pub rec.sig_algorithm p.msg1 p.msg2 msg3
          p.shared_secret
        ≡ ok k0
      → new_session k0 now ≡ ok s
      → let r = finish_handshake lib db c now id msg3 p g in
        (r.0 ≡ ok tt) × (session id r.1 ≡ some (record { ref = g.next_ref; state = s }))
  unfolding finish_handshake
  finish-run now id msg3 p g rec k0 s found confirmed made =
      let run : finish_handshake lib db c now id msg3 p g ≡ (
        ok tt,
        log_event db now id "handshake" "начальное постквантовое рукопожатие завершено успешно"
            (count inc_handshake_completed (start_session id s g)),
      ) =
        rw (finish_handshake, found, confirmed, made) refl in
      rw run (refl, unfold session in session-start lib db c id s g)

  started :
      (d : Device PK SK) (random : Bytes) (msg1 : HandshakeMsg1)
      → start_handshake lib random d ≡ ok msg1
      → msg1.device_id ≡ d.id
  unfolding start_handshake new_handshake_msg1
  started d random msg1 h = elim (Result-cases (public_key_bytes lib.sig d.identity)) [
    | inl (e, failed) ↦ absurd (ground arith)
    | inr (key, read) ↦ ground (arith, read)
  ]

  -- A handshake between an enrolled device and the gateway succeeds: if the gateway answers the first
  -- message, the device gets as far as its third, and that comes in time, then the gateway accepts
  -- it, and both ends are in step, on fresh sessions at step 0.
  pub handshake_succeeds :
      (t0 t1 t2 : ℕ) (random seed gateway_nonce : Bytes) (d : Device PK SK) (g : Gateway S)
      (msg1 : HandshakeMsg1) (msg2 : HandshakeMsg2) (attempt : ℕ) (msg3 : HandshakeMsg3)
      → IsEnrolled lib db d g
      → start_handshake lib random d ≡ ok msg1
      → (handle_msg1 lib db c t0 seed gateway_nonce msg1 g).0 ≡ ok (msg2, attempt)
      → (complete_handshake lib t1 msg1 msg2 d).0 ≡ ok msg3
      → t2 ≤ t0 + c.pending_handshake_timeout
      → let g1 = (handle_msg1 lib db c t0 seed gateway_nonce msg1 g).1 in
        let d1 = (complete_handshake lib t1 msg1 msg2 d).1 in
        let r = handle_msg3 lib db c t2 d.id attempt msg3 g1 in
        (r.0 ≡ ok tt) × (h : IsInStep d1 r.1) × (h.near.packet_count ≡ 0) × (h.near.iteration ≡ 0)
  handshake_succeeds t0 t1 t2 random seed gateway_nonce d g msg1 msg2 attempt msg3 e begun answered
        completed early =
      let g1 = (handle_msg1 lib db c t0 seed gateway_nonce msg1 g).1 in
      let built = build_msg2 lib.hash lib.sig lib.kem d.kem.public_key seed gateway_nonce in
      let named : msg1.device_id ≡ d.id = started d random msg1 begun in
      let known : registered_kem_key lib db c msg1.device_id g ≡ ok d.kem.public_key =
        rw named (registered-enrolled lib db c d g e) in
      let (same, stored, waits) =
        handle_msg1-answered t0 seed gateway_nonce msg1 g d.kem.public_key (msg2, attempt) known
          answered in
      let (k0, s, written, made, after) = complete_handshake-ok lib t1 msg1 msg2 d msg3 completed in
      let agreed : finalize_handshake lib.hash lib.sig e.rec.identity_pub e.rec.sig_algorithm msg1
            built.0 msg3 built.1
          ≡ ok k0 =
        rw (e.signing, e.scheme)
          (handshake_agrees lib.hash lib.sig lib.kem d.kem.public_key d.kem.private_key seed
            gateway_nonce d.identity.algorithm d.identity.public_key d.identity.sign_raw msg1 msg3
            k0 e.pair e.owned (rw same at written)) in
      let p : PendingHandshake = record {
        id = attempt;
        msg1 = msg1;
        msg2 = built.0;
        shared_secret = built.1;
        issued_at = t0;
      } in
      let t = record s { last_rotated_at = t2 } in
      let made' = new_session-again k0 t1 t2 s made in
      let g2 = record g1 { pending_handshake = delete d.id g1.pending_handshake } in
      let ended =
        handle_msg3-run t2 d.id attempt msg3 p g1
          (ap (λ x. lookup x g1.pending_handshake) (sym named) ∙ waits) refl early in
      let (accepted, linked) =
        finish-run t2 d.id msg3 p g2 e.rec k0 t (rw stored e.found) agreed made' in
      let (forgotten, unsent, start) = new_session-forgets k0 t1 s made in
      rw (ended, after)
        (
          accepted,
          record {
            near = s;
            far = record { ref = g1.next_ref; state = t };
            held = refl;
            linked = linked;
            ready = new_sessions-IsReady k0 t1 t2 s t made made';
            window = new_session-IsWindow k0 t2 t made';
            numbered = rw forgotten tt;
          },
          unsent,
          start,
        )
