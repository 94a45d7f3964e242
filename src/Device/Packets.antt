-- ===== src/Device/Packets.antt =====
-- The packets that a device sends to the gateway.
use lacert.Prelude.{
  All, Bytes, List, Map, Option, [], append-nil, arith, drop-append, err, false, length,
  length-append, length-put_uint32, le→ltb, list_eq, nat_beq_iff, nat_eq, none, ok, pair_eq,
  put_uint32, refl, some, string_eq, true, u32_mod, uint32-put_uint32, ℕ, ◌%◌, ◌++◌, ◌+◌, ◌<◌, ◌==◌,
  ◌∙◌, ◌∷◌, ◌≡◌, ◌≤◌,
}
use lacert.Crypto.Primitives.{Primitives}
use lacert.Crypto.Session.{Session, current_key, record_packet, check_data_nonce, evict, stats}
use lacert.Crypto.Session.Window.{check_data_nonce-IsWindow, record_packet-IsWindow}
use lacert.Crypto.Packet.{max_payload_size, encrypt_packet, decrypt_packet}
use lacert.Store.Calls.{DeviceStore}
use lacert.Gateway.State.{Gateway, Instance, session, put_session, session-put_session}
use lacert.Gateway.Traffic.{handle_data, accept_data, store_reading}
use lacert.Gateway.Replays.{data_accepted, sessions-store_reading}
use lacert.Device.{Device, send_data}
use lacert.Device.Channel.{
  seq_of, Numbered, IsInStep, Numbered-append, not_member-Numbered, Numbered-evict,
  check_data_nonce-new, Remembered-ready,
}

module _ {PK SK S : Type 0} (lib : Primitives PK SK) (db : DeviceStore S)
    (parse : Bytes → Map Bytes Bytes) where
  -- The device sends one text, and the gateway receives the packet at `now`.
  unfoldable pub exchange :
      ℕ → Bytes → Bytes → Device PK SK → Gateway S → Option (Bytes × Device PK SK × Gateway S)
  exchange now random plaintext d g =
      let (sent, d') = send_data lib random plaintext d in
      elim sent [
        | err _ ↦ none
        | ok (nonce, ciphertext) ↦
            let (received, g') = handle_data lib db parse now d.id nonce ciphertext g in
            elim received [ err _ ↦ none | ok text ↦ some (text, d', g') ]
      ]

  send-run :
      (random plaintext : Bytes) (d : Device PK SK) (s : Session)
      → d.session ≡ some s
      → s.closed ≡ false
      → length plaintext ≤ max_payload_size
      → s.packet_count < u32_mod
      → let nonce = random ++ put_uint32 s.packet_count in
        send_data lib random plaintext d ≡ (
          ok (nonce, lib.aead.seal s.key nonce plaintext),
          record d { session = some (record_packet s) },
        )
  unfolding send_data stats encrypt_packet
  send-run random plaintext d s held opened short room =
      let fits : s.packet_count % u32_mod ≡ s.packet_count = omega arith in
      let own : current_key s ≡ ok s.key = unfold current_key in ground arith in
      rw (send_data, held, own, fits, le→ltb max_payload_size (length plaintext) short) refl

  nonce_laws :
      (random : Bytes) (n : ℕ)
      → length random ≡ 8
      → n < u32_mod
      → (length (random ++ put_uint32 n) ≡ 12) × (seq_of (random ++ put_uint32 n) ≡ n)
  nonce_laws random n hr hn = (
    omega (arith, length-append random (put_uint32 n), length-put_uint32 n),
    rw (drop-append 8 random (put_uint32 n) hr) (rw append-nil at (uint32-put_uint32 n [] hn)),
  )

  receive-run :
      (now : ℕ) (id nonce ciphertext plaintext : Bytes) (g : Gateway S) (i : Instance)
      → session id g ≡ some i
      → i.state.closed ≡ false
      → decrypt_packet lib.aead i.state.key nonce ciphertext ≡ ok plaintext
      → (check_data_nonce nonce i.state).0 ≡ ok tt
      → let r = handle_data lib db parse now id nonce ciphertext g in
        let t = record_packet (check_data_nonce nonce i.state).1 in
        (r.0 ≡ ok plaintext) × (session id r.1 ≡ some (record { ref = i.ref; state = t }))
  unfolding accept_data
  receive-run now id nonce ciphertext plaintext g i linked opened sealed passed =
      let t = record_packet (check_data_nonce nonce i.state).1 in
      let run : handle_data lib db parse now id nonce ciphertext g
          ≡ (ok plaintext, store_reading db parse now id plaintext (put_session i.ref t g)) =
        data_accepted lib db parse now id nonce ciphertext plaintext g i linked opened sealed
        ∙ rw (accept_data, passed) refl in
      rw run (
        refl,
        sessions-store_reading lib db parse now id plaintext (put_session i.ref t g)
            ∙ session-put_session id g i t linked,
      )

  exchange-run :
      (now : ℕ) (random plaintext : Bytes) (d d' : Device PK SK) (g : Gateway S)
      (nonce ciphertext : Bytes)
      → send_data lib random plaintext d ≡ (ok (nonce, ciphertext), d')
      → (handle_data lib db parse now d.id nonce ciphertext g).0 ≡ ok plaintext
      → exchange now random plaintext d g
        ≡ some (plaintext, d', (handle_data lib db parse now d.id nonce ciphertext g).1)
  unfolding exchange
  exchange-run now random plaintext d d' g nonce ciphertext sent got = ground (arith, sent, got)

  -- One packet goes through, and leaves both ends in step with one packet more.
  pub packet_passes :
      (now : ℕ) (random plaintext : Bytes) (d : Device PK SK) (g : Gateway S) (h : IsInStep d g)
      → ((k n p : Bytes) → lib.aead.open_sealed k n (lib.aead.seal k n p) ≡ some p)
      → length random ≡ 8
      → length plaintext ≤ max_payload_size
      → h.near.packet_count < u32_mod
      → (d' : Device PK SK) × (nonce ciphertext : Bytes) × (send_data lib random plaintext d
          ≡ (ok (nonce, ciphertext), d'))
        × ((handle_data lib db parse now d.id nonce ciphertext g).0 ≡ ok plaintext)
        × (h' : IsInStep d' (handle_data lib db parse now d.id nonce ciphertext g).1)
        × (h'.near.packet_count ≡ h.near.packet_count + 1)
        × (length nonce ≡ 12)
        × (ciphertext ≡ lib.aead.seal h.near.key nonce plaintext)
  unfolding decrypt_packet record_packet
  packet_passes now random plaintext d g h opens hr hp room =
      let s = h.near in
      let i = h.far in
      let nonce = random ++ put_uint32 s.packet_count in
      let ct = lib.aead.seal s.key nonce plaintext in
      let (size, number) = nonce_laws random s.packet_count hr room in
      let sized : (length nonce == 12) ≡ true = (nat_beq_iff _ _).1 size in
      let sent = send-run random plaintext d s h.held h.ready.opened.1 hp room in
      let low : Numbered (seq_of nonce) i.state.seen_order = rw number h.numbered in
      let (passed, taken) =
        check_data_nonce-new nonce i.state h.window h.ready.opened.0 size
          (not_member-Numbered nonce i.state.seen_order low) in
      let t = (check_data_nonce nonce i.state).1 in
      let opened : decrypt_packet lib.aead i.state.key nonce ct ≡ ok plaintext =
        rw (decrypt_packet, sized, ← h.ready.level.1, opens s.key nonce plaintext) refl in
      let (got, after) =
        receive-run now d.id nonce ct plaintext g i h.linked h.ready.opened.0 opened passed in
      (
        record d { session = some (record_packet s) },
        nonce,
        ct,
        sent,
        got,
        record {
          near = record_packet s;
          far = record { ref = i.ref; state = record_packet t };
          held = refl;
          linked = after;
          ready = Remembered-ready nonce i.state t s taken h.ready;
          window = record_packet-IsWindow t (check_data_nonce-IsWindow nonce i.state h.window);
          numbered = rw taken.took (
              Numbered-append s.packet_count nonce (evict i.state).seen_order
                (Numbered-evict s.packet_count i.state h.numbered) number);
        },
        refl,
        size,
        refl,
      )

  packet_arrives :
      (now : ℕ) (random plaintext : Bytes) (d : Device PK SK) (g : Gateway S) (h : IsInStep d g)
      → ((k n p : Bytes) → lib.aead.open_sealed k n (lib.aead.seal k n p) ≡ some p)
      → length random ≡ 8
      → length plaintext ≤ max_payload_size
      → h.near.packet_count < u32_mod
      → (d' : Device PK SK) × (g' : Gateway S) × (h' : IsInStep d' g') × (exchange now random
            plaintext d g
          ≡ some (plaintext, d', g'))
        × (h'.near.packet_count ≡ h.near.packet_count + 1)
  packet_arrives now random plaintext d g h opens hr hp room =
      let (d', nonce, ct, sent, got, h', counted, _, _) =
        packet_passes now random plaintext d g h opens hr hp room in
      (
        d',
        (handle_data lib db parse now d.id nonce ct g).1,
        h',
        exchange-run now random plaintext d d' g nonce ct sent got,
        counted,
      )

  -- The packets of a list of times, random parts and texts, one after the other.
  unfoldable pub exchange_all :
      List (ℕ × Bytes × Bytes)
      → Device PK SK
      → Gateway S
      → Option (List Bytes × Device PK SK × Gateway S)
  unfolding exchange
  exchange_all [] d g = some ([], d, g)
  exchange_all ((now, random, plaintext) ∷ more) d g = elim (exchange now random plaintext d g) [
    | none ↦ none
    | some (text, d', g') ↦ elim (exchange_all more d' g') [
      | none ↦ none
      | some (texts, d'', g'') ↦ some (text ∷ texts, d'', g'')
    ]
  ]

  abbrev pub WellFormed : ℕ × Bytes × Bytes → Type 0
  WellFormed packet = (length packet.1 ≡ 8) × (length packet.2 ≤ max_payload_size)

  abbrev pub texts_of : List (ℕ × Bytes × Bytes) → List Bytes
  texts_of [] = []
  texts_of (p ∷ ps) = p.2 ∷ texts_of ps

  -- Between a device and a gateway in step, every packet arrives: the gateway gets the device's texts,
  -- all of them and in their order, none is refused as a replay, and both ends are in step after
  -- them. The texts are within the size limit, opening undoes sealing, and the packets under one key
  -- stay within 32 bits.
  pub every_packet_arrives :
      (packets : List (ℕ × Bytes × Bytes)) (d : Device PK SK) (g : Gateway S) (h : IsInStep d g)
      → ((k n p : Bytes) → lib.aead.open_sealed k n (lib.aead.seal k n p) ≡ some p)
      → All WellFormed packets
      → h.near.packet_count + length packets ≤ u32_mod
      → (d' : Device PK SK) × (g' : Gateway S) × IsInStep d' g'
        × (exchange_all packets d g ≡ some (texts_of packets, d', g'))
  unfolding exchange_all
  every_packet_arrives [] d g h opens fits room = (d, g, h, refl)
  every_packet_arrives ((now, random, plaintext) ∷ more) d g h opens ((hr, hp), rest) room =
      let (d1, g1, h1, sent, counted) =
        packet_arrives now random plaintext d g h opens hr hp (omega arith) in
      let (d2, g2, h2, others) =
        every_packet_arrives more d1 g1 h1 opens rest (omega (arith, counted)) in
      (d2, g2, h2, rw (exchange_all, sent, others) refl)
