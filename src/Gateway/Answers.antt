-- ===== src/Gateway/Answers.antt =====
-- What the gateway's answer to a device's rotation says of the session.
use lacert.Prelude.{
  Bytes, Option, Result, Result-cases, String, arith, err, inl, inr, length, ok, refl, some, ℕ, ◌∙◌,
  ◌≡◌,
}
use lacert.Crypto.Primitives.{Primitives}
use lacert.Crypto.Messages.{RotationMsgV2, RotationAck}
use lacert.Crypto.Session.{Session}
use lacert.Crypto.Rotation.{next_iteration, respond_to_rotation_atomic}
use lacert.Crypto.Rotation.Errors.{IsRotated, respond-eq-ok, respond-err}
use lacert.Store.Calls.{DeviceStore}
use lacert.Gateway.State.{
  Gateway, GatewaySettings, GatewayError, crypto_failed, Instance, session, put_session,
  session-put_session,
}
use lacert.Gateway.Rotations.{
  handle_atomic_rotation_from_device, log_rotation_attempt, key_or_zero, failure_of,
}

module _ {PK SK S : Type 0} (lib : Primitives PK SK) (db : DeviceStore S)
    (c : GatewaySettings) where
  pub session-log_rotation_attempt :
      (now : ℕ) (id j : Bytes) (initiator : String) (s : Session) (old_key : Bytes)
      (failure : Option String) (g : Gateway S)
      → session j (log_rotation_attempt db now id initiator s old_key failure g) ≡ session j g
  unfolding session log_rotation_attempt
  session-log_rotation_attempt now id j initiator s old_key failure g = ground arith

  pub session-after_message :
      (priv : SK) (now : ℕ) (id : Bytes) (msg : RotationMsgV2) (g : Gateway S) (i : Instance)
      → session id g ≡ some i
      → session id (handle_atomic_rotation_from_device lib db c priv now id msg g).1
        ≡ some (record {
          ref = i.ref;
          state = (respond_to_rotation_atomic lib.hash lib.kem now priv msg i.state).1;
        })
  unfolding handle_atomic_rotation_from_device
  session-after_message priv now id msg g i here =
      let s = (respond_to_rotation_atomic lib.hash lib.kem now priv msg i.state).1 in
      let answer = (respond_to_rotation_atomic lib.hash lib.kem now priv msg i.state).0 in
      let g1 = put_session i.ref s g in
      let kept = session-put_session id g i s here in
      elim (Result-cases (respond_to_rotation_atomic lib.hash lib.kem now priv msg i.state).0) [
        | inl (e, failed) ↦
            rw (handle_atomic_rotation_from_device, here, failed)
              (session-log_rotation_attempt now id id "device" s (key_or_zero i.state)
                  (failure_of c answer) g1
                ∙ kept)
        | inr (a, answered) ↦
            rw (handle_atomic_rotation_from_device, here, answered)
              (session-log_rotation_attempt now id id "device" s (key_or_zero i.state)
                  (failure_of c answer) g1
                ∙ kept)
      ]

  -- The session after a refusal, and after an acknowledgement.
  pub AgreesWith :
      SK → RotationMsgV2 → Bytes → Instance → Gateway S → Result GatewayError RotationAck → Type 0
  AgreesWith priv msg id i g' (err e) = session id g' ≡ some i
  AgreesWith priv msg id i g' (ok a) =
      (t : Session) × (session id g' ≡ some (record { ref = i.ref; state = t }))
      × (msg.iteration ≡ next_iteration i.state.iteration)
      × (a.iteration ≡ msg.iteration)
      × IsRotated lib.hash i.state (lib.kem.decapsulate_to priv msg.kem_ciphertext) msg.iteration t

  -- If the gateway acknowledges a device's rotation message, the message has the number of the next
  -- step, and the device's session is on that step's key; if it refuses the message, the session is
  -- as it was.
  pub acknowledgement_means_rotated :
      (priv : SK) (now : ℕ) (id : Bytes) (msg : RotationMsgV2) (g : Gateway S) (i : Instance)
      → session id g ≡ some i
      → length i.state.key ≡ 32
      → length i.state.pending_key ≡ 32
      → let r = handle_atomic_rotation_from_device lib db c priv now id msg g in
        AgreesWith priv msg id i r.1 r.0
  unfolding handle_atomic_rotation_from_device AgreesWith
  acknowledgement_means_rotated priv now id msg g i here hk hp =
      let answer = (respond_to_rotation_atomic lib.hash lib.kem now priv msg i.state).0 in
      let s = (respond_to_rotation_atomic lib.hash lib.kem now priv msg i.state).1 in
      let after = session-after_message priv now id msg g i here in
      elim (Result-cases answer) [
        | inl (e, failed) ↦
            let same : s ≡ i.state = respond-err lib.hash lib.kem now priv msg i.state failed in
            let refused : (handle_atomic_rotation_from_device lib db c priv now id msg g).0
                ≡ err (crypto_failed e) =
              rw (handle_atomic_rotation_from_device, here, failed) refl in
            rw refused (rw same at after)
        | inr (a, answered) ↦
            let (number, told, rotated) =
              respond-eq-ok lib.hash lib.kem now priv msg i.state a hk hp answered in
            let acknowledged : (handle_atomic_rotation_from_device lib db c priv now id msg g).0
                ≡ ok a =
              rw (handle_atomic_rotation_from_device, here, answered) refl in
            rw acknowledged (s, after, number, told, rotated)
      ]
