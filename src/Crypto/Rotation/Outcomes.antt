-- ===== src/Crypto/Rotation/Outcomes.antt =====
-- How a step ends: both sides on the new key if nothing is lost, and no way on but a new handshake
-- if the gateway rolls back a step that the device has taken.
use lacert.Prelude.{
  Bytes, Result, [], arith, copy, copy_whole, err, false, length, ok, refl, true, u64_mod, ℕ, ◌+◌,
  ◌<◌, ◌>>=◌, ◌>>◌, ◌∙◌, ◌≡◌,
}
use lacert.Crypto.Primitives.{Blake3, Kem, IsKeyPair}
use lacert.Crypto.Messages.{RotationMsgV2}
use lacert.Crypto.Kem.{decapsulate}
use lacert.Crypto.Session.{Session, CryptoError, rotation_replay, zeroize}
use lacert.Crypto.Rotation.Sound.{IsSound, length-zeroize}
use lacert.Crypto.Rotation.Errors.{length-derive_next_key, initiate-eq-ok}
use lacert.Crypto.Rotation.{
  next_iteration, derive_next_key, begin_rotate, commit_rotate, abort_rotate, respond_with,
  apply_rotation_ack, initiate_rotation_atomic, respond_to_rotation_atomic, and_then,
}

-- Two sessions that may take the next step together.
pub record IsReady (g d : Session) : Type 0 where
  pub gateway_sizes : (length g.key ≡ 32) × (length g.pending_key ≡ 32)
  pub device_sizes : (length d.key ≡ 32) × (length d.pending_key ≡ 32)
  pub opened : (g.closed ≡ false) × (d.closed ≡ false)
  pub idle : (g.pending_active ≡ false) × (d.pending_active ≡ false)
  pub level : (d.iteration ≡ g.iteration) × (d.key ≡ g.key)

-- The session on key `k` at step `i`, which was begun at `t0` and ended at `now`.
abbrev pub stepped : ℕ → ℕ → Bytes → ℕ → Session → Session
stepped t0 now k i s = record s {
  key = k;
  packet_count = 0;
  last_rotated_at = now;
  rotation_count = s.rotation_count + 1;
  iteration = i;
  pending_key = zeroize k;
  pending_active = false;
  pending_iteration = i;
  pending_started_at = t0;
  seen_nonces = [];
  seen_order = [];
}

pub stepped-IsReady :
    (t0 t1 u0 u1 : ℕ) (k : Bytes) (i : ℕ) (g d : Session)
    → length k ≡ 32
    → IsReady g d
    → IsReady (stepped t0 t1 k i g) (stepped u0 u1 k i d)
stepped-IsReady t0 t1 u0 u1 k i g d hk ready = ground (arith, length-zeroize k, ready.opened)

pub ack-run :
    (t0 now : ℕ) (k : Bytes) (i : ℕ) (g : Session)
    → length k ≡ 32
    → length g.key ≡ 32
    → length g.pending_key ≡ 32
    → g.closed ≡ false
    → apply_rotation_ack now
        (record { iteration = i })
        (record g {
          pending_key = copy g.pending_key k;
          pending_active = true;
          pending_iteration = i;
          pending_started_at = t0;
        })
      ≡ (ok tt, stepped t0 now k i g)
unfolding apply_rotation_ack commit_rotate
ack-run t0 now k i g hk hg hp opened =
    ground (arith, copy_whole g.pending_key k, copy_whole (zeroize g.key) k, length-zeroize g.key)

module _ {PK SK : Type 0} (hash : Blake3) (kem : Kem PK SK) (pub_key : PK) (priv : SK) where
  -- The three calls of a step, one after the other at three times; the result is the two sessions.
  unfoldable pub whole_step :
      ℕ → ℕ → ℕ → Bytes → Session → Session → Result CryptoError (Session × Session)
  whole_step t0 t1 t2 seed g d =
      let (m, g1) = initiate_rotation_atomic hash kem t0 seed pub_key g in
      do
        msg ← m
        ack ← (respond_to_rotation_atomic hash kem t1 priv msg d).0
        (apply_rotation_ack t2 ack g1).0
        ok ((apply_rotation_ack t2 ack g1).1, (respond_to_rotation_atomic hash kem t1 priv msg d).1)

  pub initiate-run :
      (now : ℕ) (seed : Bytes) (g : Session)
      → g.closed ≡ false
      → g.pending_active ≡ false
      → initiate_rotation_atomic hash kem now seed pub_key g ≡ (
        ok (record {
          iteration = next_iteration g.iteration;
          kem_ciphertext = kem.ciphertext pub_key seed;
        }),
        record g {
          pending_key = copy g.pending_key (
              derive_next_key hash g.key
                (kem.shared_key pub_key seed)
                (next_iteration g.iteration));
          pending_active = true;
          pending_iteration = next_iteration g.iteration;
          pending_started_at = now;
        },
      )
  unfolding initiate_rotation_atomic and_then begin_rotate
  initiate-run now seed g opened idle = ground (arith, kem.length-shared_key pub_key seed)

  pub respond-run :
      (now : ℕ) (seed : Bytes) (g d : Session)
      → IsKeyPair kem pub_key priv
      → IsReady g d
      → respond_to_rotation_atomic hash kem now priv
          (record {
            iteration = next_iteration g.iteration;
            kem_ciphertext = kem.ciphertext pub_key seed;
          })
          d
        ≡ (
          ok (record { iteration = next_iteration g.iteration }),
          stepped now now
              (derive_next_key hash g.key
                (kem.shared_key pub_key seed)
                (next_iteration g.iteration))
              (next_iteration g.iteration)
              d,
        )
  unfolding respond_to_rotation_atomic respond_with decapsulate and_then begin_rotate commit_rotate
  respond-run now seed g d pair ready =
      let i = next_iteration g.iteration in
      let k = derive_next_key hash g.key (kem.shared_key pub_key seed) i in
      let secret = pair seed in
      ground (
        arith,
        secret,
        ready.level,
        kem.length-ciphertext pub_key seed,
        kem.length-shared_key pub_key seed,
        length-derive_next_key hash g.key (kem.shared_key pub_key seed) i,
        copy_whole d.pending_key k,
        copy_whole (zeroize d.key) k,
        length-zeroize d.key,
      )

  -- If nothing is lost the step goes through, and leaves both sides open, idle, at the next
  -- number and on one key, which is derived from the old one and the fresh secret.
  pub whole_step_completes :
      (t0 t1 t2 : ℕ) (seed : Bytes) (g d : Session)
      → IsKeyPair kem pub_key priv
      → IsReady g d
      → (g' d' : Session) × (whole_step t0 t1 t2 seed g d ≡ ok (g', d'))
        × IsReady g' d'
        × (g'.iteration ≡ next_iteration g.iteration)
        × (g'.key
            ≡ derive_next_key hash g.key (kem.shared_key pub_key seed) (next_iteration g.iteration))
  unfolding whole_step
  whole_step_completes t0 t1 t2 seed g d pair ready =
      let i = next_iteration g.iteration in
      let k = derive_next_key hash g.key (kem.shared_key pub_key seed) i in
      (
        stepped t0 t2 k i g,
        stepped t1 t1 k i d,
        rw (initiate-run t0 seed g ready.opened.0 ready.idle.0) (
            rw (
              respond-run t1 seed g d pair ready,
              ack-run t0 t2 k i g (length-derive_next_key hash g.key _ i) ready.gateway_sizes.0
                  ready.gateway_sizes.1 ready.opened.0,
            )),
        stepped-IsReady t0 t2 t1 t1 k i g d (length-derive_next_key hash g.key _ i) ready,
        refl,
        refl,
      )

  -- If the gateway rolls back a step that the device has taken, every later step of this session
  -- is refused by the device as a replay: only a new handshake brings them together again.
  pub rolled_back_step_is_refused :
      (t0 t1 : ℕ) (seed : Bytes) (g d : Session) (m : RotationMsgV2)
      → IsSound g
      → d.iteration ≡ g.iteration + 1
      → d.iteration < u64_mod
      → (initiate_rotation_atomic hash kem t0 seed pub_key (abort_rotate g)).0 ≡ ok m
      → respond_to_rotation_atomic hash kem t1 priv m d ≡ (err rotation_replay, d)
  unfolding respond_to_rotation_atomic next_iteration
  rolled_back_step_is_refused t0 t1 seed g d m v ahead room started =
      let blank : length (abort_rotate g).pending_key ≡ 32 =
        unfold abort_rotate in (length-zeroize g.pending_key ∙ v.pending_size) in
      let number = (initiate-eq-ok hash kem t0 seed pub_key (abort_rotate g) m blank started).0 in
      let same : (abort_rotate g).iteration ≡ g.iteration = unfold abort_rotate in refl in
      ground (arith, number, same)
