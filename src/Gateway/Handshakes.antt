-- ===== src/Gateway/Handshakes.antt =====
-- internal/gateway/gateway.go: the handshake, from the first message to the session. The secrets
-- that are overwritten when a pending handshake goes are dropped with it.
use lacert.Prelude.{
  Bytes, Result, arith, delete, delete_if, err, if◌then◌else◌, insert, list_eq, lookup, ltb, nat_eq,
  none, not, ok, pair_eq, some, string_eq, ℕ, ◌&&◌, ◌+◌, ◌==◌, ◌>>=◌, ◌≡◌,
}
use lacert.Crypto.Primitives.{Primitives}
use lacert.Crypto.Messages.{HandshakeMsg1, HandshakeMsg2, HandshakeMsg3}
use lacert.Crypto.Kem.{unpack_kem_public_key}
use lacert.Crypto.Session.{Session, new_session}
use lacert.Crypto.Handshake.{build_msg2, finalize_handshake}
use lacert.Crypto.ReplayGuard.{check_and_remember}
use lacert.Store.Types.{
  DeviceRecord, Fetched, active, revoked, missing, device_not_found, device_revoked,
}
use lacert.Store.Calls.{DeviceStore}
use lacert.Gateway.Metrics.{
  inc, inc_replay_blocked, inc_handshake_rejected, inc_handshake_completed,
}
use lacert.Gateway.State.{
  Gateway, GatewaySettings, GatewayError, store_failed, crypto_failed, no_pending_handshake,
  handshake_superseded, handshake_expired, Handler, PendingHandshake, count, log_event,
}

module _ {S : Type 0} where
  unfoldable pub prune_pending_handshakes : GatewaySettings → ℕ → Gateway S → Gateway S
  prune_pending_handshakes c now g = record g {
    pending_handshake =
        delete_if (λ p. ltb (p.issued_at + c.pending_handshake_timeout) now) g.pending_handshake;
  }

  -- `g.sessions[deviceID] = session`, a new object.
  abbrev pub start_session : Bytes → Session → Gateway S → Gateway S
  start_session device_id s g = record g {
    sessions = insert device_id g.next_ref g.sessions;
    heap = insert g.next_ref s g.heap;
    next_ref = g.next_ref + 1;
  }

-- `rec, err := g.Store.Get(deviceID); if err != nil { return err }`
abbrev pub active_record : Fetched → Result GatewayError DeviceRecord
active_record missing = err (store_failed device_not_found)
active_record (revoked _) = err (store_failed device_revoked)
active_record (active rec) = ok rec

pub active_record-ok :
    (f : Fetched) (rec : DeviceRecord) → active_record f ≡ ok rec → f ≡ active rec
active_record-ok missing rec h = cc
active_record-ok (revoked r) rec h = cc
active_record-ok (active r) rec h = ground arith

module _ {PK SK S : Type 0} (lib : Primitives PK SK) (db : DeviceStore S)
    (c : GatewaySettings) where
  -- The device's KEM key, from the registry.
  unfoldable pub registered_kem_key : Bytes → Gateway S → Result GatewayError PK
  registered_kem_key device_id g = do
    rec ← active_record (db.get device_id g.store)
    elim (unpack_kem_public_key lib.kem rec.kem_pub) [
      | err e ↦ err (crypto_failed e)
      | ok pk ↦ ok pk
    ]

  -- The new attempt takes the place of the device's older one.
  unfoldable pub remember_attempt :
      ℕ → HandshakeMsg1 → HandshakeMsg2 × Bytes → Gateway S → ℕ × Gateway S
  unfolding prune_pending_handshakes inc
  remember_attempt now msg1 (msg2, shared_secret) g =
      let g1 = prune_pending_handshakes c now g in
      let id = inc g1.next_pending_id in
      let attempt : PendingHandshake = record {
        id = id;
        msg1 = msg1;
        msg2 = msg2;
        shared_secret = shared_secret;
        issued_at = now;
      } in
      (
        id,
        record g1 {
          next_pending_id = id;
          pending_handshake = insert msg1.device_id attempt g1.pending_handshake;
        },
      )

  -- `HandleMsg1Tracked`; the randomness of the KEM and the gateway's nonce are arguments.
  unfoldable pub handle_msg1 : ℕ → Bytes → Bytes → HandshakeMsg1 → Handler S (HandshakeMsg2 × ℕ)
  unfolding remember_attempt build_msg2
  handle_msg1 now seed gateway_nonce msg1 g =
      let (verdict, guard) = check_and_remember now msg1.device_id msg1.nonce g.replay_guard in
      let g1 = record g { replay_guard = guard } in
      let g2 = count inc_handshake_rejected (count inc_replay_blocked g1) in
      let answered : Result GatewayError (HandshakeMsg2 × ℕ) × Gateway S =
        elim (registered_kem_key msg1.device_id g1) [
          | err e ↦ (err e, g1)
          | ok device_pub ↦
              let (msg2, shared_secret) =
                build_msg2 lib.hash lib.sig lib.kem device_pub seed gateway_nonce in
              let (id, g3) = remember_attempt now msg1 (msg2, shared_secret) g1 in
              (ok (msg2, id), g3)
        ] in
      elim verdict [
        | err e ↦ (
          err (crypto_failed e),
          log_event db now msg1.device_id "handshake_rejected"
              "отклонено Msg1: обнаружен повтор nonce (replay)" g2,
        )
        | ok _ ↦ answered
      ]

  -- From the lookup of the device on, with the attempt taken out of the map.
  unfoldable pub finish_handshake :
      ℕ → Bytes → HandshakeMsg3 → PendingHandshake → Handler S (Unit {0})
  finish_handshake now device_id msg3 pending g = elim (active_record (db.get device_id g.store)) [
    | err e ↦ (err e, g)
    | ok rec ↦
        elim (finalize_handshake lib.hash lib.sig rec.identity_pub rec.sig_algorithm pending.msg1
          pending.msg2 msg3 pending.shared_secret) [
            | err e ↦ (err (crypto_failed e), count inc_handshake_rejected g)
            | ok k0 ↦ elim (new_session k0 now) [
              | err e ↦ (err (crypto_failed e), g)
              | ok s ↦ (
                ok tt,
                log_event db now device_id "handshake"
                    "начальное постквантовое рукопожатие завершено успешно"
                    (count inc_handshake_completed (start_session device_id s g)),
              )
            ]
          ]
  ]

  -- `handleMsg3`; an id of 0 belongs to any attempt.
  unfoldable pub handle_msg3 : ℕ → Bytes → ℕ → HandshakeMsg3 → Handler S (Unit {0})
  unfolding finish_handshake
  handle_msg3 now device_id id msg3 g = elim (lookup device_id g.pending_handshake) [
    | none ↦ (err no_pending_handshake, g)
    | some pending ↦
        let g1 = record g { pending_handshake = delete device_id g.pending_handshake } in
        if not (id == 0) && not (pending.id == id)
        then (err handshake_superseded, count inc_handshake_rejected g)
        else if ltb (pending.issued_at + c.pending_handshake_timeout) now
        then (err handshake_expired, count inc_handshake_rejected g1)
        else finish_handshake now device_id msg3 pending g1
  ]
