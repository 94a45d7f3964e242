-- ===== src/Crypto/Rotation/Agreement/Steps.antt =====
-- Each event keeps the two ends in agreement.
use lacert.Prelude.{
  Bytes, Result-cases, arith, inl, inr, true, u64_mod, ℕ, ◌+◌, ◌<◌, ◌∙◌, ◌≡◌, ◌≤◌, ◌⊎◌,
}
use lacert.Crypto.Primitives.{Blake3, Kem, IsKeyPair}
use lacert.Crypto.Messages.{RotationMsgV2, RotationAck}
use lacert.Crypto.Session.{Session}
use lacert.Crypto.Rotation.Sound.{respond-IsSound, initiate-IsSound, apply_rotation_ack-IsSound}
use lacert.Crypto.Rotation.Errors.{
  IsRotated, respond-eq-ok, respond-err, initiate-err, apply_rotation_ack-err, IsCommitted,
  initiate-eq-ok, apply_rotation_ack-eq-ok,
}
use lacert.Crypto.Rotation.{
  next_iteration, apply_rotation_ack, initiate_rotation_atomic, respond_to_rotation_atomic,
}
use lacert.Crypto.Rotation.Agreement.{
  In, All-In, All-map, Link, initiate, deliver, acknowledge, IsCurrent, Agree,
}

module _ {PK SK : Type 0} (hash : Blake3) (kem : Kem PK SK) (pub_key : PK) (priv : SK) where
  module _ (l : Link) (v : Agree hash kem pub_key priv l) where
    -- The device can only move to the step that is pending.
    pub device_answers :
        (msg : RotationMsgV2) (a : RotationAck) (t : Session)
        → In msg l.messages
        → msg.iteration ≡ next_iteration l.device.iteration
        → IsRotated hash l.device (kem.decapsulate_to priv msg.kem_ciphertext) msg.iteration t
        → (t.iteration ≡ l.gateway.iteration + 1)
          × (l.gateway.pending_active ≡ true)
          × (t.key ≡ l.gateway.pending_key)
          × (l.device.iteration ≤ t.iteration)
    unfolding next_iteration
    device_answers msg a t i number rotated =
        let place =
          All-In
            (λ m. (m.iteration ≤ l.gateway.iteration) ⊎ IsCurrent hash kem pub_key priv l.gateway m)
            msg l.messages v.known i in
        ground (arith, place, v.level, v.room, v.pending_room, rotated.on_step, rotated.on_key)

    pub deliver-Agree :
        (now : ℕ) (msg : RotationMsgV2)
        → In msg l.messages
        → Agree hash kem pub_key priv (deliver hash kem pub_key priv now msg l)
    unfolding deliver
    deliver-Agree now msg i =
        elim (Result-cases (respond_to_rotation_atomic hash kem now priv msg l.device).0) [
          | inl (e, refused) ↦ rw (respond-err hash kem now priv msg l.device refused, refused) v
          | inr (a, answered) ↦
              let t = (respond_to_rotation_atomic hash kem now priv msg l.device).1 in
              let (number, same, rotated) =
                respond-eq-ok hash kem now priv msg l.device a v.device_sound.key_size
                  v.device_sound.pending_size answered in
              let (step, pending, key, later) = device_answers msg a t i number rotated in
              record {
                gateway_sound = v.gateway_sound;
                device_sound = respond-IsSound hash kem now priv msg l.device v.device_sound;
                gateway_open = v.gateway_open;
                device_open = rotated.opened;
                device_idle = rotated.idle;
                room = v.room;
                pending_room = v.pending_room;
                known = v.known;
                told = rw answered (
                  omega (arith, same, rotated.on_step),
                  All-map _ _ l.acks (λ b h. omega (arith, later)) v.told,
                );
                level = inr (step, pending, key);
              }
        ]

    -- The gateway can only follow a device that has taken the step.
    gateway_follows :
        (a : RotationAck) (t : Session)
        → In a l.acks
        → a.iteration ≡ l.gateway.pending_iteration
        → IsCommitted l.gateway t
        → (t.iteration ≡ l.gateway.iteration + 1)
          × ((l.device.iteration ≡ t.iteration) × (l.device.key ≡ t.key))
    unfolding next_iteration
    gateway_follows a t i number committed =
        let place = All-In (λ b. b.iteration ≤ l.device.iteration) a l.acks v.told i in
        ground (
          arith,
          place,
          v.level,
          v.gateway_sound.pending_next committed.was_pending,
          v.pending_room committed.was_pending,
          committed.on_step,
          committed.on_key,
        )

    pub acknowledge-Agree :
        (now : ℕ) (a : RotationAck)
        → In a l.acks
        → Agree hash kem pub_key priv (acknowledge hash kem pub_key priv now a l)
    unfolding acknowledge
    acknowledge-Agree now a i = elim (Result-cases (apply_rotation_ack now a l.gateway).0) [
      | inl (e, refused) ↦ rw (apply_rotation_ack-err now a l.gateway refused) v
      | inr (_, taken) ↦
          let t = (apply_rotation_ack now a l.gateway).1 in
          let (number, committed) =
            apply_rotation_ack-eq-ok now a l.gateway v.gateway_sound.key_size
              v.gateway_sound.pending_size taken in
          let (step, level) = gateway_follows a t i number committed in
          record {
            gateway_sound = apply_rotation_ack-IsSound now a l.gateway v.gateway_sound;
            device_sound = v.device_sound;
            gateway_open = committed.opened;
            device_open = v.device_open;
            device_idle = v.device_idle;
            room = omega (arith, v.pending_room committed.was_pending);
            pending_room = λ p. cc (p, committed.idle);
            known =
                All-map _ _ l.messages
                  (λ m h. inl (elim h [ inl old ↦ omega (arith) | inr now ↦ omega (arith, now.1) ]))
                  v.known;
            told = v.told;
            level = inl level;
          }
    ]

    pub initiate-Agree :
        (now : ℕ) (seed : Bytes)
        → IsKeyPair kem pub_key priv
        → l.gateway.iteration + 2 < u64_mod
        → Agree hash kem pub_key priv (initiate hash kem pub_key priv now seed l)
    unfolding initiate
    initiate-Agree now seed pair room =
        elim (Result-cases (initiate_rotation_atomic hash kem now seed pub_key l.gateway).0) [
          | inl (e, refused) ↦
              rw (initiate-err hash kem now seed pub_key l.gateway refused, refused) v
          | inr (m, started) ↦
              let t = (initiate_rotation_atomic hash kem now seed pub_key l.gateway).1 in
              let (number, ciphertext, start) =
                initiate-eq-ok hash kem now seed pub_key l.gateway m v.gateway_sound.pending_size
                  started in
              let step : m.iteration ≡ l.gateway.iteration + 1 =
                unfold next_iteration in omega arith in
              record {
                gateway_sound =
                    initiate-IsSound hash kem now seed pub_key l.gateway v.gateway_sound;
                device_sound = v.device_sound;
                gateway_open = start.same_closed ∙ v.gateway_open;
                device_open = v.device_open;
                device_idle = v.device_idle;
                room = omega (arith, start.same_step);
                pending_room = λ p. omega (arith, start.same_step);
                known = rw started (
                  inr (
                    start.pending,
                    omega (arith, start.same_step),
                    cc (start.next_key, start.same_key, ciphertext, pair seed, number),
                  ),
                  All-map _ _ l.messages
                      (λ n h. elim h [
                        | inl old ↦ inl (omega (arith, start.same_step))
                        | inr now ↦ absurd (cc (now.0, start.was_idle))
                      ])
                      v.known,
                );
                told = v.told;
                level = ground (arith, v.level, start.same_step, start.same_key, start.was_idle);
              }
        ]
