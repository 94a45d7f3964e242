-- ===== src/Gateway/Replays.antt =====
-- A packet or a first message that comes again.
use lacert.Prelude.{
  Bool-cases, Bytes, List, Map, Option-cases, Result-cases, [], ap, arith, err, false, inl, inr,
  length, list_eq, nat_eq, ok, pair_eq, refl, some, string_eq, suc, ℕ, ◌+◌, ◌/◌, ◌<◌, ◌∙◌, ◌∷◌, ◌≡◌,
  ◌≤◌,
}
use lacert.Crypto.Primitives.{Primitives}
use lacert.Crypto.Messages.{HandshakeMsg1, HandshakeMsg2}
use lacert.Crypto.Session.{
  Session, max_seen_nonces, data_replay, replay_detected, record_packet, check_data_nonce,
}
use lacert.Crypto.Session.Window.{IsWindow, checked, check_data_nonce-verdict}
use lacert.Crypto.Session.Recency.{Checked-taken, IsRecent-member}
use lacert.Crypto.Packet.{decrypt_packet}
use lacert.Crypto.ReplayGuard.{check_and_remember}
use lacert.Crypto.ReplayGuard.Memory.{Between, check_calls, replay_is_caught}
use lacert.Store.Calls.{DeviceStore}
use lacert.Gateway.State.{
  Gateway, GatewaySettings, crypto_failed, Instance, session, put_session, session-put_session,
}
use lacert.Gateway.Handshakes.{handle_msg1}
use lacert.Gateway.Arrivals.{Arrival, guard_calls, arrive_all, guard-handle_msg1, guard-arrive_all}
use lacert.Gateway.Traffic.{handle_data, accept_data, store_reading}
use lacert.Crypto.Session.Keeping.{
  Keeps, later-Keeps, check-Keeps, record_packet-Keeps, taken-Keeps,
}

key-record_packet : (s : Session) → (record_packet s).key ≡ s.key
unfolding record_packet
key-record_packet s = refl

closed-record_packet : (s : Session) → (record_packet s).closed ≡ s.closed
unfolding record_packet
closed-record_packet s = refl

module _ {PK SK S : Type 0} (lib : Primitives PK SK) (db : DeviceStore S)
    (parse : Bytes → Map Bytes Bytes) where
  pub sessions-store_reading :
      (now : ℕ) (id plaintext : Bytes) (g : Gateway S)
      → session id (store_reading db parse now id plaintext g) ≡ session id g
  unfolding store_reading session
  sessions-store_reading now id plaintext g = ground arith

  pub data_accepted :
      (now : ℕ) (id nonce ciphertext p : Bytes) (g : Gateway S) (i : Instance)
      → session id g ≡ some i
      → i.state.closed ≡ false
      → decrypt_packet lib.aead i.state.key nonce ciphertext ≡ ok p
      → handle_data lib db parse now id nonce ciphertext g
        ≡ accept_data lib db parse now id nonce p i g
  unfolding handle_data
  data_accepted now id nonce ciphertext p g i e opened sealed = ground arith

  -- What an accepted packet says of the session before and after.
  handle_data-ok :
      (now : ℕ) (id nonce ciphertext plaintext : Bytes) (g : Gateway S)
      → (handle_data lib db parse now id nonce ciphertext g).0 ≡ ok plaintext
      → (i : Instance) × (session id g ≡ some i)
        × (i.state.closed ≡ false)
        × (decrypt_packet lib.aead i.state.key nonce ciphertext ≡ ok plaintext)
        × ((check_data_nonce nonce i.state).0 ≡ ok tt)
        × (session id (handle_data lib db parse now id nonce ciphertext g).1
            ≡ some
                (record { ref = i.ref; state = record_packet (check_data_nonce nonce i.state).1 }))
  unfolding handle_data accept_data
  handle_data-ok now id nonce ciphertext plaintext g h = elim (Option-cases (session id g)) [
    | inl e ↦ absurd (ground arith)
    | inr (i, e) ↦ elim (Bool-cases i.state.closed) [
      | inl shut ↦ absurd (ground arith)
      | inr opened ↦ elim (Result-cases (decrypt_packet lib.aead i.state.key nonce ciphertext)) [
        | inl (x, failed) ↦ absurd (ground arith)
        | inr (p, sealed) ↦ elim (Result-cases (check_data_nonce nonce i.state).0) [
          | inl (x, failed) ↦ absurd (ground arith)
          | inr (u, passed) ↦
              let t = record_packet (check_data_nonce nonce i.state).1 in
              let run : handle_data lib db parse now id nonce ciphertext g
                  ≡ (ok p, store_reading db parse now id p (put_session i.ref t g)) =
                data_accepted now id nonce ciphertext p g i e opened sealed
                ∙ rw (accept_data, passed) refl in
              let same : p ≡ plaintext = ground (arith, run) in
              (
                i,
                e,
                opened,
                rw same at sealed,
                passed,
                rw run (
                    sessions-store_reading now id p (put_session i.ref t g)
                    ∙ session-put_session id g i t e),
              )
        ]
      ]
    ]
  ]

  -- Packets of one device, each at its time, one after the other.
  unfoldable pub receive_packets : Bytes → List (ℕ × Bytes × Bytes) → Gateway S → Gateway S
  receive_packets id [] g = g
  receive_packets id ((now, nonce, ciphertext) ∷ more) g =
      receive_packets id more (handle_data lib db parse now id nonce ciphertext g).1

  -- One packet, whatever it is, is one more after the nonce.
  handle_data-Keeps :
      (now k : ℕ) (nonce key id n ciphertext : Bytes) (g : Gateway S) (i : Instance)
      → session id g ≡ some i
      → k + 1 < max_seen_nonces
      → Keeps k nonce key i.state
      → (j : Instance) × (session id (handle_data lib db parse now id n ciphertext g).1 ≡ some j)
        × Keeps (suc k) nonce key j.state
  unfolding handle_data accept_data
  handle_data-Keeps now k nonce key id n ciphertext g i here room h =
      let s1 = (check_data_nonce n i.state).1 in
      let h1 = check-Keeps k nonce key n i.state room h in
      elim (Result-cases (decrypt_packet lib.aead i.state.key n ciphertext)) [
        | inl (x, failed) ↦
            rw (handle_data, here, h.opened, failed) (i, here, later-Keeps k nonce key i.state h)
        | inr (p, sealed) ↦
            rw (data_accepted now id n ciphertext p g i here h.opened sealed)
              (elim (Result-cases (check_data_nonce n i.state).0) [
                | inl (x, refused_as) ↦
                    rw (accept_data, refused_as)
                      (record { ref = i.ref; state = s1 }, session-put_session id g i s1 here, h1)
                | inr (u, passed) ↦
                    rw (accept_data, passed)
                      (
                        record { ref = i.ref; state = record_packet s1 },
                        sessions-store_reading now id p (put_session i.ref (record_packet s1) g)
                            ∙ session-put_session id g i (record_packet s1) here,
                        record_packet-Keeps (suc k) nonce key s1 h1,
                      )
              ])
      ]

  receive_packets-Keeps :
      (packets : List (ℕ × Bytes × Bytes)) (k : ℕ) (nonce key id : Bytes) (g : Gateway S)
      (i : Instance)
      → session id g ≡ some i
      → k + length packets < max_seen_nonces
      → Keeps k nonce key i.state
      → (j : Instance) × (session id (receive_packets id packets g) ≡ some j)
        × Keeps (k + length packets) nonce key j.state
  unfolding receive_packets
  receive_packets-Keeps [] k nonce key id g i here room h =
      let same : k + 0 ≡ k = omega arith in (i, here, rw same h)
  receive_packets-Keeps ((now, n, ciphertext) ∷ more) k nonce key id g i here room h =
      let (j, there, h1) =
        handle_data-Keeps now k nonce key id n ciphertext g i here (omega arith) h in
      let (last, at_end, h2) =
        receive_packets-Keeps more (suc k) nonce key id
          (handle_data lib db parse now id n ciphertext g).1 j there (omega arith) h1 in
      let same : k + suc (length more) ≡ suc k + length more = omega arith in
      (last, at_end, rw same h2)

  -- A packet that was accepted is refused as a replay when it comes again after at most 4095 further
  -- packets of its device, whatever these are and whether they are accepted, and nothing else; also
  -- if its nonce comes with another ciphertext, as long as that opens under the session's key.
  pub handle_data_replayed :
      (t0 t1 : ℕ) (id nonce ciphertext again plaintext other : Bytes) (g : Gateway S) (i : Instance)
      (packets : List (ℕ × Bytes × Bytes))
      → session id g ≡ some i
      → IsWindow i.state
      → (handle_data lib db parse t0 id nonce ciphertext g).0 ≡ ok plaintext
      → length packets < max_seen_nonces
      → decrypt_packet lib.aead i.state.key nonce again ≡ ok other
      → (handle_data lib db parse t1 id nonce again
          (receive_packets id packets (handle_data lib db parse t0 id nonce ciphertext g).1)).0
        ≡ err (crypto_failed data_replay)
  unfolding accept_data
  handle_data_replayed t0 t1 id nonce ciphertext again plaintext other g i packets here w taken few
        opens =
      let (j, there, opened, sealed, passed, after) =
        handle_data-ok t0 id nonce ciphertext plaintext g taken in
      let same : j ≡ i = ground (arith, here, there) in
      let g1 = (handle_data lib db parse t0 id nonce ciphertext g).1 in
      let s1 = (check_data_nonce nonce i.state).1 in
      let i1 : Instance = record { ref = i.ref; state = record_packet s1 } in
      let there1 : session id g1 ≡ some i1 = rw same at after in
      let (sized, open_then, recent) = Checked-taken (checked nonce i.state) (rw same at passed) in
      let h0 = taken-Keeps nonce i.state w (rw same at passed) in
      let (last, at_end, h) =
        receive_packets-Keeps packets 0 nonce i.state.key id g1 i1 there1 (omega arith) h0 in
      let refused_now : (check_data_nonce nonce last.state).0 ≡ err data_replay =
        check_data_nonce-verdict last.state h.window h.opened nonce
        ∙ rw (sized, IsRecent-member (0 + length packets) nonce last.state h.recent) refl in
      let opens_now : decrypt_packet lib.aead last.state.key nonce again ≡ ok other =
        rw h.keyed opens in
      ap (λ r. r.0)
        (data_accepted t1 id nonce again other (receive_packets id packets g1) last at_end h.opened
          opens_now)
      ∙ rw (accept_data, refused_now) refl

module _ {PK SK S : Type 0} (lib : Primitives PK SK) (db : DeviceStore S)
    (parse : Bytes → Map Bytes Bytes) (c : GatewaySettings) where
  handle_msg1-passed :
      (now : ℕ) (seed gateway_nonce : Bytes) (m : HandshakeMsg1) (g : Gateway S)
      (answer : HandshakeMsg2 × ℕ)
      → (handle_msg1 lib db c now seed gateway_nonce m g).0 ≡ ok answer
      → (check_and_remember now m.device_id m.nonce g.replay_guard).0 ≡ ok tt
  unfolding handle_msg1
  handle_msg1-passed now seed gateway_nonce m g answer h =
      elim (Result-cases (check_and_remember now m.device_id m.nonce g.replay_guard).0) [
        | inl (e, failed) ↦ absurd (ground arith)
        | inr (u, passed) ↦ passed
      ]

  -- A first message that was answered is refused when it comes again within half the lifetime of its
  -- nonce, whatever first messages, third messages and packets, of whichever devices, came in between
  -- (the first messages at times from its own up to that end). No attempt is begun then: the attempts
  -- under way are as they were.
  pub handle_msg1_replayed :
      (t0 t1 : ℕ) (seed gateway_nonce seed' gateway_nonce' : Bytes) (m : HandshakeMsg1)
      (g : Gateway S) (answer : HandshakeMsg2 × ℕ) (more : List Arrival)
      → (handle_msg1 lib db c t0 seed gateway_nonce m g).0 ≡ ok answer
      → Between t0 (t0 + g.replay_guard.ttl / 2) (guard_calls more)
      → t0 ≤ t1
      → t1 < t0 + g.replay_guard.ttl / 2
      → let g1 =
          arrive_all lib db parse c more (handle_msg1 lib db c t0 seed gateway_nonce m g).1 in
        let r = handle_msg1 lib db c t1 seed' gateway_nonce' m g1 in
        (r.0 ≡ err (crypto_failed replay_detected)) × (r.1.pending_handshake ≡ g1.pending_handshake)
  unfolding handle_msg1
  handle_msg1_replayed t0 t1 seed gateway_nonce seed' gateway_nonce' m g answer more h between late
        soon =
      let g0 = (handle_msg1 lib db c t0 seed gateway_nonce m g).1 in
      let g1 = arrive_all lib db parse c more g0 in
      let guard_there : g1.replay_guard
          ≡ check_calls (guard_calls more)
              (check_and_remember t0 m.device_id m.nonce g.replay_guard).1 =
        guard-arrive_all lib db parse c more g0
        ∙ ap (λ r. check_calls (guard_calls more) r)
            (guard-handle_msg1 lib db parse c t0 seed gateway_nonce m g) in
      let caught : (check_and_remember t1 m.device_id m.nonce g1.replay_guard).0
          ≡ err replay_detected =
        rw guard_there (
          replay_is_caught g.replay_guard t0 t1 m.device_id m.nonce (guard_calls more)
            (handle_msg1-passed t0 seed gateway_nonce m g answer h) between late soon) in
      (rw (handle_msg1, caught) refl, rw (handle_msg1, caught) refl)
