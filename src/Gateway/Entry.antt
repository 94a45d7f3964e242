-- ===== src/Gateway/Entry.antt =====
-- Who gets a session: the end of a handshake.
use lacert.Prelude.{
  Bytes, Option-cases, Result-cases, arith, beq_refl, delete, err, false, inl, inr, list_eq, lookup,
  lookup-delete, lookup-insert, nat_eq, none, ok, pair_eq, refl, some, string_eq, true, ℕ, ◌+◌,
  ◌==◌, ◌∙◌, ◌≡◌, ◌≤◌, ◌⊎◌,
}
use lacert.Crypto.Primitives.{Primitives}
use lacert.Crypto.Messages.{HandshakeMsg3}
use lacert.Crypto.Session.{Session, new_session, derive_k0}
use lacert.Crypto.Signature.{verify_signature}
use lacert.Crypto.Handshake.{
  finalize_handshake, transcript_of, confirmation_value, finalize_handshake_authentic,
}
use lacert.Store.Types.{DeviceRecord, active}
use lacert.Store.Calls.{DeviceStore}
use lacert.Gateway.Metrics.{inc_handshake_rejected, inc_handshake_completed}
use lacert.Gateway.State.{
  Gateway, GatewaySettings, handshake_superseded, PendingHandshake, count, log_event, session,
  session-linked,
}
use lacert.Gateway.Lifecycle.{close_session_instance}
use lacert.Gateway.Connections.{close-run}
use lacert.Gateway.Handshakes.{
  active_record-ok, active_record, handle_msg3, finish_handshake, start_session,
}

module _ {PK SK S : Type 0} (lib : Primitives PK SK) (db : DeviceStore S)
    (c : GatewaySettings) where
  -- What a successful third message rests on, and the session it makes.
  pub record IsAdmitted (now : ℕ) (id : Bytes) (attempt : ℕ) (msg3 : HandshakeMsg3)
      (g g' : Gateway S) : Type 0 where
    pub pending : PendingHandshake
    pub rec : DeviceRecord
    pub transcript : Bytes
    pub s : Session
    pub waited : lookup id g.pending_handshake ≡ some pending
    pub own : (attempt ≡ 0) ⊎ (pending.id ≡ attempt)
    pub in_time : now ≤ pending.issued_at + c.pending_handshake_timeout
    pub registered : db.get id g.store ≡ active rec
    pub of_both : transcript_of lib.hash pending.msg1 pending.msg2 ≡ ok transcript
    pub signed :
        verify_signature lib.sig rec.sig_algorithm rec.identity_pub
          (confirmation_value lib.hash transcript
            (derive_k0 lib.hash pending.shared_secret transcript))
          msg3.signature
        ≡ ok true
    pub made : new_session (derive_k0 lib.hash pending.shared_secret transcript) now ≡ ok s
    pub linked : session id g' ≡ some (record { ref = g.next_ref; state = s })
    pub used_up : lookup id g'.pending_handshake ≡ none

  pub session-start :
      (id : Bytes) (s : Session) (g : Gateway S)
      → session id (start_session id s g) ≡ some (record { ref = g.next_ref; state = s })
  unfolding session
  session-start id s g =
      rw
        (
          session,
          lookup-insert id id g.next_ref g.sessions,
          beq_refl id,
          lookup-insert g.next_ref g.next_ref s g.heap,
          beq_refl g.next_ref,
        )
        refl

  pub finish-ok :
      (now : ℕ) (id : Bytes) (msg3 : HandshakeMsg3) (p : PendingHandshake) (g : Gateway S)
      → (finish_handshake lib db c now id msg3 p g).0 ≡ ok tt
      → (rec : DeviceRecord) × (k0 : Bytes) × (s : Session) × (db.get id g.store ≡ active rec)
        × (finalize_handshake lib.hash lib.sig rec.identity_pub rec.sig_algorithm p.msg1 p.msg2 msg3
              p.shared_secret
            ≡ ok k0)
        × (new_session k0 now ≡ ok s)
        × (session id (finish_handshake lib db c now id msg3 p g).1
            ≡ session id (start_session id s g))
        × ((finish_handshake lib db c now id msg3 p g).1.pending_handshake ≡ g.pending_handshake)
  unfolding finish_handshake session
  finish-ok now id msg3 p g h = elim (Result-cases (active_record (db.get id g.store))) [
    | inl (e, failed) ↦ absurd (ground arith)
    | inr (rec, found) ↦
        elim (Result-cases (
          finalize_handshake lib.hash lib.sig rec.identity_pub rec.sig_algorithm p.msg1 p.msg2 msg3
            p.shared_secret)) [
              | inl (e, failed) ↦ absurd (ground arith)
              | inr (k0, confirmed) ↦ elim (Result-cases (new_session k0 now)) [
                | inl (e, failed) ↦ absurd (ground arith)
                | inr (s, made) ↦
                    let run : finish_handshake lib db c now id msg3 p g ≡ (
                      ok tt,
                      log_event db now id "handshake"
                          "начальное постквантовое рукопожатие завершено успешно"
                          (count inc_handshake_completed (start_session id s g)),
                    ) =
                      rw (finish_handshake, found, confirmed, made) refl in
                    (
                      rec,
                      k0,
                      s,
                      active_record-ok _ rec found,
                      confirmed,
                      made,
                      rw run refl,
                      rw run refl,
                    )
              ]
            ]
  ]

  -- A third message that is accepted answers the attempt that waits for the device, in time; the
  -- device is registered and not revoked; the signature is that of its registered key over both
  -- messages and the key K0; and the device's session is a new one on K0, with the attempt used up.
  pub handle_msg3_admits :
      (now : ℕ) (id : Bytes) (attempt : ℕ) (msg3 : HandshakeMsg3) (g : Gateway S)
      → (handle_msg3 lib db c now id attempt msg3 g).0 ≡ ok tt
      → IsAdmitted now id attempt msg3 g (handle_msg3 lib db c now id attempt msg3 g).1
  unfolding handle_msg3
  handle_msg3_admits now id attempt msg3 g h = elim (Option-cases (lookup id g.pending_handshake)) [
    | inl e ↦ absurd (ground arith)
    | inr (pending, e) ↦
        let g1 = record g { pending_handshake = delete id g.pending_handshake } in
        let tests : ((attempt ≡ 0) ⊎ (pending.id ≡ attempt))
            × (now ≤ pending.issued_at + c.pending_handshake_timeout)
            × ((finish_handshake lib db c now id msg3 pending g1).0 ≡ ok tt)
            × (handle_msg3 lib db c now id attempt msg3 g
                ≡ finish_handshake lib db c now id msg3 pending g1) =
          ground arith in
        let (rec, k0, s, found, confirmed, made, linked, rest) =
          finish-ok now id msg3 pending g1 tests.2 in
        let (transcript, of_both, key, signed) =
          finalize_handshake_authentic lib.hash lib.sig rec.identity_pub rec.sig_algorithm
            pending.msg1 pending.msg2 msg3 pending.shared_secret k0 confirmed in
        record {
          pending = pending;
          rec = rec;
          transcript = transcript;
          s = s;
          waited = e;
          own = tests.0;
          in_time = tests.1;
          registered = found;
          of_both = of_both;
          signed = rw key at signed;
          made = rw key at made;
          linked = rw tests.3 (linked ∙ session-start id s g1);
          used_up =
              rw (tests.3, rest) (lookup-delete id id g.pending_handshake ∙ rw (beq_refl id) refl);
        }
  ]

  -- A third message of an attempt that a newer one of the same device has replaced is refused, and
  -- changes nothing but the count of refusals: the newer attempt goes on.
  pub superseded_attempt_spares_newer :
      (now : ℕ) (id : Bytes) (attempt : ℕ) (msg3 : HandshakeMsg3) (g : Gateway S)
      (newer : PendingHandshake)
      → lookup id g.pending_handshake ≡ some newer
      → (attempt == 0) ≡ false
      → (newer.id == attempt) ≡ false
      → handle_msg3 lib db c now id attempt msg3 g
        ≡ (err handshake_superseded, count inc_handshake_rejected g)
  unfolding handle_msg3
  superseded_attempt_spares_newer now id attempt msg3 g newer waits given other =
      rw (handle_msg3, waits, given, other) refl

  finish-heap :
      (now : ℕ) (id : Bytes) (msg3 : HandshakeMsg3) (p : PendingHandshake) (ref : ℕ) (g : Gateway S)
      → (g.next_ref == ref) ≡ false
      → lookup ref (finish_handshake lib db c now id msg3 p g).1.heap ≡ lookup ref g.heap
  unfolding finish_handshake
  finish-heap now id msg3 p ref g fresh = elim (Result-cases (active_record (db.get id g.store))) [
    | inl (e, failed) ↦ rw (finish_handshake, failed) refl
    | inr (rec, found) ↦
        elim (Result-cases (
          finalize_handshake lib.hash lib.sig rec.identity_pub rec.sig_algorithm p.msg1 p.msg2 msg3
            p.shared_secret)) [
              | inl (e, failed) ↦ rw (finish_handshake, found, failed) refl
              | inr (k0, confirmed) ↦ elim (Result-cases (new_session k0 now)) [
                | inl (e, failed) ↦ rw (finish_handshake, found, confirmed, failed) refl
                | inr (s, made) ↦
                    rw
                      (
                        finish_handshake,
                        found,
                        confirmed,
                        made,
                        lookup-insert g.next_ref ref s g.heap,
                        fresh,
                      )
                      refl
              ]
            ]
  ]

  handle_msg3-heap :
      (now : ℕ) (id : Bytes) (attempt : ℕ) (msg3 : HandshakeMsg3) (ref : ℕ) (g : Gateway S)
      → (g.next_ref == ref) ≡ false
      → lookup ref (handle_msg3 lib db c now id attempt msg3 g).1.heap ≡ lookup ref g.heap
  unfolding handle_msg3
  handle_msg3-heap now id attempt msg3 ref g fresh =
      elim (Option-cases (lookup id g.pending_handshake)) [
        | inl e ↦ rw (handle_msg3, e) refl
        | inr (p, e) ↦
            let g1 = record g { pending_handshake = delete id g.pending_handshake } in
            let rest = finish-heap now id msg3 p ref g1 fresh in ground (arith, rest)
      ]

  -- When a connected device completes another handshake, the map refers to the new session object for
  -- it, which is not the older one; the older session object stays as it was, key and all; and the
  -- end of the older connection does not close the older session either.
  pub replaced_session_keeps_its_key :
      (now : ℕ) (id : Bytes) (attempt : ℕ) (msg3 : HandshakeMsg3) (g : Gateway S) (ref : ℕ)
      (s : Session)
      → lookup id g.sessions ≡ some ref
      → lookup ref g.heap ≡ some s
      → (g.next_ref == ref) ≡ false
      → (handle_msg3 lib db c now id attempt msg3 g).0 ≡ ok tt
      → let g' = (handle_msg3 lib db c now id attempt msg3 g).1 in
        (lookup id g'.sessions ≡ some g.next_ref)
        × (lookup ref g'.heap ≡ some s)
        × (close_session_instance id (some ref) g' ≡ (false, g'))
  replaced_session_keeps_its_key now id attempt msg3 g ref s linked live fresh h =
      let admitted = handle_msg3_admits now id attempt msg3 g h in
      let (newest, _) =
        session-linked id (handle_msg3 lib db c now id attempt msg3 g).1 _ admitted.linked in
      (
        newest,
        handle_msg3-heap now id attempt msg3 ref g fresh ∙ live,
        close-run id ref g.next_ref (handle_msg3 lib db c now id attempt msg3 g).1 newest
            ∙ rw fresh refl,
      )
