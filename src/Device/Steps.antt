-- ===== src/Device/Steps.antt =====
-- A device and the gateway rotate their key, on the initiative of either.
use lacert.Prelude.{
  Bytes, Result, ap, arith, copy, false, length, ok, refl, some, true, ℕ, ◌∙◌, ◌≡◌,
}
use lacert.Crypto.Primitives.{Primitives, IsKeyPair}
use lacert.Crypto.Messages.{RotationMsgV2, RotationAck}
use lacert.Crypto.Session.{Session, CryptoError, current_key}
use lacert.Crypto.Rotation.{
  next_iteration, derive_next_key, initiate_rotation_atomic, respond_to_rotation_atomic,
  apply_rotation_ack,
}
use lacert.Crypto.Rotation.Errors.{length-derive_next_key}
use lacert.Crypto.Rotation.Outcomes.{stepped, stepped-IsReady, initiate-run, respond-run, ack-run}
use lacert.Store.Calls.{DeviceStore}
use lacert.Gateway.State.{
  Gateway, GatewaySettings, Instance, session, put_session, session-put_session, control_key,
}
use lacert.Gateway.Handshakes.{registered_kem_key}
use lacert.Gateway.Rotations.{
  initiate_atomic_rotation_to_device, apply_rotation_ack_from_device,
  handle_atomic_rotation_from_device, key_or_zero, failure_of,
}
use lacert.Gateway.Answers.{session-log_rotation_attempt, session-after_message}
use lacert.Device.{
  Device, on_session, initiate_atomic_rotation, handle_atomic_rotation_from_gateway,
  apply_rotation_ack_from_gateway,
}
use lacert.Device.Channel.{IsInStep}
use lacert.Device.Advance.{IsReady-sym, stepped-IsWindow, IsAdvanced}

module _ {PK SK S : Type 0} (lib : Primitives PK SK) (db : DeviceStore S)
    (c : GatewaySettings) where
  initiate-gateway :
      (now : ℕ) (seed id : Bytes) (g : Gateway S) (i : Instance) (pk : PK) (msg : RotationMsgV2)
      (t : Session)
      → session id g ≡ some i
      → registered_kem_key lib db c id g ≡ ok pk
      → initiate_rotation_atomic lib.hash lib.kem now seed pk i.state ≡ (ok msg, t)
      → initiate_atomic_rotation_to_device lib db c now seed id g ≡ (ok msg, put_session i.ref t g)
  unfolding initiate_atomic_rotation_to_device
  initiate-gateway now seed id g i pk msg t linked known begun =
      let sent = ap (λ r. r.0) begun in
      let left = ap (λ r. r.1) begun in
      rw (initiate_atomic_rotation_to_device, linked, known, sent, left) refl

  ack-gateway :
      (now : ℕ) (id : Bytes) (ack : RotationAck) (g : Gateway S) (i : Instance) (t : Session)
      → session id g ≡ some i
      → apply_rotation_ack now ack i.state ≡ (ok tt, t)
      → let r = apply_rotation_ack_from_device lib db c now id ack g in
        (r.0 ≡ ok tt) × (session id r.1 ≡ some (record { ref = i.ref; state = t }))
  unfolding apply_rotation_ack_from_device
  ack-gateway now id ack g i t linked ended =
      let done = ap (λ r. r.0) ended in
      let left = ap (λ r. r.1) ended in
      rw (apply_rotation_ack_from_device, linked, done, left)
        (
          refl,
          unfold session in
              session-log_rotation_attempt lib db c now id id "gateway" t (key_or_zero i.state)
                (failure_of c (apply_rotation_ack now ack i.state).0) (put_session i.ref t g)
              ∙ session-put_session id g i t linked,
        )

  respond-gateway :
      (now : ℕ) (priv : SK) (id : Bytes) (msg : RotationMsgV2) (g : Gateway S) (i : Instance)
      (ack : RotationAck) (t : Session)
      → session id g ≡ some i
      → respond_to_rotation_atomic lib.hash lib.kem now priv msg i.state ≡ (ok ack, t)
      → let r = handle_atomic_rotation_from_device lib db c priv now id msg g in
        (r.0 ≡ ok ack) × (session id r.1 ≡ some (record { ref = i.ref; state = t }))
  unfolding handle_atomic_rotation_from_device
  respond-gateway now priv id msg g i ack t linked answered = (
    rw (handle_atomic_rotation_from_device, linked, answered) refl,
    rw answered at (session-after_message lib db c priv now id msg g i linked),
  )

  call-device :
      {A : Type 0} (f : Session → Result CryptoError A × Session) (d : Device PK SK) (s t : Session)
      (a : A)
      → d.session ≡ some s
      → f s ≡ (ok a, t)
      → on_session f d ≡ (ok a, record d { session = some t })
  call-device f d s t a held called = rw (held, called) refl

  pub keyed :
      (id : Bytes) (g : Gateway S) (i : Instance)
      → session id g ≡ some i
      → i.state.closed ≡ false
      → control_key id g ≡ ok i.state.key
  unfolding control_key current_key
  keyed id g i linked opened = ground (arith, linked, opened)

  -- The message of the step after `i`.
  abbrev pub step_message : PK → Bytes → ℕ → RotationMsgV2
  step_message pk seed i = record {
    iteration = next_iteration i;
    kem_ciphertext = lib.kem.ciphertext pk seed;
  }

  abbrev pub step_ack : ℕ → RotationAck
  step_ack i = record { iteration = next_iteration i }

  pub gateway_rotation_runs :
      (t0 t1 t2 : ℕ) (seed : Bytes) (d : Device PK SK) (g : Gateway S) (h : IsInStep d g)
      → registered_kem_key lib db c d.id g ≡ ok d.kem.public_key
      → IsKeyPair lib.kem d.kem.public_key d.kem.private_key
      → let begun = initiate_atomic_rotation_to_device lib db c t0 seed d.id g in
        let msg = step_message d.kem.public_key seed h.far.state.iteration in
        let ack = step_ack h.far.state.iteration in
        (begun.0 ≡ ok msg)
        × ((handle_atomic_rotation_from_gateway lib t1 msg d).0 ≡ ok ack)
        × (control_key d.id begun.1 ≡ ok h.near.key)
        × (let ended = apply_rotation_ack_from_device lib db c t2 d.id ack begun.1 in
            (ended.0 ≡ ok tt)
            × IsAdvanced lib
                (lib.kem.shared_key d.kem.public_key seed)
                h
                (handle_atomic_rotation_from_gateway lib t1 msg d).1
                ended.1)
  unfolding handle_atomic_rotation_from_gateway
  gateway_rotation_runs t0 t1 t2 seed d g h known pair =
      let s = h.far.state in
      let i = next_iteration s.iteration in
      let pk = d.kem.public_key in
      let k = derive_next_key lib.hash s.key (lib.kem.shared_key pk seed) i in
      let sized : length k ≡ 32 = length-derive_next_key lib.hash s.key _ i in
      let begun = initiate-gateway t0 seed d.id g h.far pk _ _ h.linked known (
        initiate-run lib.hash lib.kem pk d.kem.private_key t0 seed s h.ready.opened.0
          h.ready.idle.0) in
      let answer =
        respond-run lib.hash lib.kem pk d.kem.private_key t1 seed s h.near pair h.ready in
      let msg : RotationMsgV2 = record {
        iteration = i;
        kem_ciphertext = lib.kem.ciphertext pk seed;
      } in
      let answered : handle_atomic_rotation_from_gateway lib t1 msg d ≡ (
        ok (record { iteration = i }),
        record d { session = some (stepped t1 t1 k i h.near) },
      ) =
        call-device (respond_to_rotation_atomic lib.hash lib.kem t1 d.kem.private_key msg) d h.near
          _ _ h.held answer in
      let waiting : Session = record s {
        pending_key = copy s.pending_key k;
        pending_active = true;
        pending_iteration = i;
        pending_started_at = t0;
      } in
      let (ended, linked) =
        ack-gateway t2 d.id (record { iteration = i }) (put_session h.far.ref waiting g)
          (record { ref = h.far.ref; state = waiting }) (stepped t0 t2 k i s)
          (session-put_session d.id g h.far waiting h.linked)
          (ack-run t0 t2 k i s sized h.ready.gateway_sizes.0 h.ready.gateway_sizes.1
            h.ready.opened.0) in
      (
        ap (λ r. r.0) begun,
        ap (λ r. r.0) answered,
        rw begun (
            keyed d.id (put_session h.far.ref waiting g) _
              (session-put_session d.id g h.far waiting h.linked) h.ready.opened.0
            ∙ rw h.ready.level.1 refl),
        rw (begun, answered)
            (
              ended,
              record {
                again = record {
                  near = stepped t1 t1 k i h.near;
                  far = record { ref = h.far.ref; state = stepped t0 t2 k i s };
                  held = refl;
                  linked = linked;
                  ready = stepped-IsReady t0 t2 t1 t1 k i s h.near sized h.ready;
                  window = stepped-IsWindow t0 t2 k i s;
                  numbered = tt;
                };
                number = rw h.ready.level.0 refl;
                derived = rw (h.ready.level.0, h.ready.level.1) refl;
                restarted = refl;
              },
            ),
      )

  initiate-device :
      (now : ℕ) (seed : Bytes) (d : Device PK SK) (s : Session) (pk : PK)
      → d.session ≡ some s
      → d.gateway_kem ≡ some pk
      → initiate_atomic_rotation lib now seed d
        ≡ on_session (initiate_rotation_atomic lib.hash lib.kem now seed pk) d
  unfolding initiate_atomic_rotation
  initiate-device now seed d s pk held configured = ground (arith, held, configured)

  -- A rotation on the device's initiative, three calls at three times, none of them lost: the device's
  -- message, the gateway's answer and the device's commit. From two ends in step, with the gateway's
  -- working key pair, whose public key the device is configured with, all three succeed, and both ends
  -- are in step again on the next key.
  pub device_rotation_completes :
      (t0 t1 t2 : ℕ) (seed : Bytes) (gateway_pub : PK) (gateway_priv : SK) (d : Device PK SK)
      (g : Gateway S) (h : IsInStep d g)
      → d.gateway_kem ≡ some gateway_pub
      → IsKeyPair lib.kem gateway_pub gateway_priv
      → let begun = initiate_atomic_rotation lib t0 seed d in
        (msg : RotationMsgV2) × (ack : RotationAck) × (begun.0 ≡ ok msg)
        × (let answered = handle_atomic_rotation_from_device lib db c gateway_priv t1 d.id msg g in
            let ended = apply_rotation_ack_from_gateway t2 ack begun.1 in
            (answered.0 ≡ ok ack)
            × (ended.0 ≡ ok tt)
            × IsAdvanced lib (lib.kem.shared_key gateway_pub seed) h ended.1 answered.1)
  device_rotation_completes t0 t1 t2 seed gateway_pub gateway_priv d g h configured pair =
      let s = h.near in
      let i = next_iteration s.iteration in
      let k = derive_next_key lib.hash s.key (lib.kem.shared_key gateway_pub seed) i in
      let sized : length k ≡ 32 = length-derive_next_key lib.hash s.key _ i in
      let ready = IsReady-sym h.ready in
      let msg : RotationMsgV2 = record {
        iteration = i;
        kem_ciphertext = lib.kem.ciphertext gateway_pub seed;
      } in
      let waiting : Session = record s {
        pending_key = copy s.pending_key k;
        pending_active = true;
        pending_iteration = i;
        pending_started_at = t0;
      } in
      let d1 : Device PK SK = record d { session = some waiting } in
      let begun : initiate_atomic_rotation lib t0 seed d ≡ (ok msg, d1) =
        initiate-device t0 seed d s gateway_pub h.held configured
        ∙ call-device (initiate_rotation_atomic lib.hash lib.kem t0 seed gateway_pub) d s waiting
            msg h.held
            (initiate-run lib.hash lib.kem gateway_pub gateway_priv t0 seed s ready.opened.0
              ready.idle.0) in
      let (answered, linked) =
        respond-gateway t1 gateway_priv d.id msg g h.far (record { iteration = i })
          (stepped t1 t1 k i h.far.state) h.linked
          (respond-run lib.hash lib.kem gateway_pub gateway_priv t1 seed s h.far.state pair
            ready) in
      let ended : apply_rotation_ack_from_gateway t2 (record { iteration = i }) d1
          ≡ (ok tt, record d { session = some (stepped t0 t2 k i s) }) =
        unfold apply_rotation_ack_from_gateway in
        call-device (apply_rotation_ack t2 (record { iteration = i })) d1 waiting _ _ refl
          (ack-run t0 t2 k i s sized ready.gateway_sizes.0 ready.gateway_sizes.1 ready.opened.0) in
      (
        msg,
        record { iteration = i },
        ap (λ r. r.0) begun,
        rw (begun, ended)
            (
              answered,
              refl,
              record {
                again = record {
                  near = stepped t0 t2 k i s;
                  far = record { ref = h.far.ref; state = stepped t1 t1 k i h.far.state };
                  held = refl;
                  linked = linked;
                  ready = IsReady-sym (stepped-IsReady t0 t2 t1 t1 k i s h.far.state sized ready);
                  window = stepped-IsWindow t1 t1 k i h.far.state;
                  numbered = tt;
                };
                number = refl;
                derived = refl;
                restarted = refl;
              },
            ),
      )
