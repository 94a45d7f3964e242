-- ===== src/Crypto/Rotation/Errors.antt =====
-- The rotation's error paths: what is refused, and that a refusal changes nothing.
use lacert.Prelude.{
  Bool-cases, Bytes, Result, [], arith, copy_whole, err, false, inl, inr, length, list_eq,
  nat_beq_iff, nat_eq, ok, pair_eq, refl, string_eq, true, ℕ, ◌+◌, ◌==◌, ◌↔◌, ◌≡◌,
}
use lacert.Crypto.Primitives.{Blake3, Kem}
use lacert.Crypto.Messages.{RotationMsgV2, RotationAck}
use lacert.Crypto.Kem.{decapsulate}
use lacert.Crypto.Session.{Session, CryptoError, zeroize}
use lacert.Crypto.Rotation.Sound.{length-zeroize}
use lacert.Crypto.Rotation.{
  next_iteration, derive_next_key, begin_rotate, commit_rotate, apply_rotation_ack,
  initiate_rotation_atomic, respond_to_rotation_atomic, respond_with, and_then,
}

-- `BeginRotate` succeeds exactly when the secret has its size, the session is open, no step is
-- pending and the number is the next one.
pub begin_rotate-eq-ok :
    (hash : Blake3) (now : ℕ) (mi : Bytes) (i : ℕ) (s : Session)
    → ((begin_rotate hash now mi i s).0 ≡ ok tt) ↔ (
        (length mi ≡ 32)
        × (s.closed ≡ false)
        × (s.pending_active ≡ false)
        × (i ≡ next_iteration s.iteration))
unfolding begin_rotate
begin_rotate-eq-ok hash now mi i s = (λ h. ground arith, λ h. ground arith)

begin_rotate-err :
    (hash : Blake3) (now : ℕ) (mi : Bytes) (i : ℕ) (s : Session) {e : CryptoError}
    → (begin_rotate hash now mi i s).0 ≡ err e
    → (begin_rotate hash now mi i s).1 ≡ s
unfolding begin_rotate
begin_rotate-err hash now mi i s h = ground arith

pub apply_rotation_ack-err :
    (now : ℕ) (a : RotationAck) (s : Session) {e : CryptoError}
    → (apply_rotation_ack now a s).0 ≡ err e
    → (apply_rotation_ack now a s).1 ≡ s
unfolding apply_rotation_ack commit_rotate
apply_rotation_ack-err now a s h = ground arith

-- After a successful begin the commit goes through: the answer is refused as a whole or not at all.
respond_with-err :
    (hash : Blake3) (now : ℕ) (msg : RotationMsgV2) (r : Result CryptoError Bytes) (s : Session)
    (e : CryptoError)
    → (respond_with hash now msg r s).0 ≡ err e
    → (respond_with hash now msg r s).1 ≡ s
unfolding respond_with and_then begin_rotate commit_rotate
respond_with-err hash now msg (err x) s e h = refl
respond_with-err hash now msg (ok mi) s e h = ground arith

pub initiate-err :
    {PK SK : Type 0} (hash : Blake3) (kem : Kem PK SK) (now : ℕ) (seed : Bytes) (peer : PK)
    (s : Session) {e : CryptoError}
    → (initiate_rotation_atomic hash kem now seed peer s).0 ≡ err e
    → (initiate_rotation_atomic hash kem now seed peer s).1 ≡ s
unfolding initiate_rotation_atomic and_then begin_rotate
initiate-err hash kem now seed peer s h = ground arith

pub respond-err :
    {PK SK : Type 0} (hash : Blake3) (kem : Kem PK SK) (now : ℕ) (priv : SK) (msg : RotationMsgV2)
    (s : Session) {e : CryptoError}
    → (respond_to_rotation_atomic hash kem now priv msg s).0 ≡ err e
    → (respond_to_rotation_atomic hash kem now priv msg s).1 ≡ s
unfolding respond_to_rotation_atomic
respond-err hash kem now priv msg s {e} h =
    ground (arith, respond_with-err hash now msg (decapsulate kem priv msg.kem_ciphertext) s e)

-- A call of the rotation protocol that returns an error has changed nothing in the session:
-- starting a step, answering one and applying an acknowledgement alike.
pub rotation_error_unchanged :
    {PK SK : Type 0} (hash : Blake3) (kem : Kem PK SK) (now : ℕ) (seed : Bytes) (peer : PK)
    (priv : SK) (msg : RotationMsgV2) (a : RotationAck) (s : Session) (e1 e2 e3 : CryptoError)
    → ((initiate_rotation_atomic hash kem now seed peer s).0 ≡ err e1
        → (initiate_rotation_atomic hash kem now seed peer s).1 ≡ s)
      × ((respond_to_rotation_atomic hash kem now priv msg s).0 ≡ err e2
          → (respond_to_rotation_atomic hash kem now priv msg s).1 ≡ s)
      × ((apply_rotation_ack now a s).0 ≡ err e3 → (apply_rotation_ack now a s).1 ≡ s)
rotation_error_unchanged hash kem now seed peer priv msg a s e1 e2 e3 = (
  λ h. initiate-err hash kem now seed peer s h,
  λ h. respond-err hash kem now priv msg s h,
  λ h. apply_rotation_ack-err now a s h,
)

pub length-derive_next_key :
    (hash : Blake3) (key mi : Bytes) (i : ℕ) → length (derive_next_key hash key mi i) ≡ 32
unfolding derive_next_key
length-derive_next_key hash key mi i = hash.length-sum _

-- The session after a step with secret `mi` was applied.
pub record IsRotated (hash : Blake3) (s : Session) (mi : Bytes) (i : ℕ) (t : Session) : Type 0 where
  pub on_step : t.iteration ≡ i
  pub on_key : t.key ≡ derive_next_key hash s.key mi i
  pub idle : t.pending_active ≡ false
  pub opened : t.closed ≡ false
  pub counted : t.rotation_count ≡ s.rotation_count + 1
  pub forgotten : t.seen_order ≡ []

respond_with-eq-ok :
    (hash : Blake3) (now : ℕ) (msg : RotationMsgV2) (mi : Bytes) (s : Session) (a : RotationAck)
    → length s.key ≡ 32
    → length s.pending_key ≡ 32
    → (respond_with hash now msg (ok mi) s).0 ≡ ok a
    → (a.iteration ≡ msg.iteration)
      × IsRotated hash s mi msg.iteration (respond_with hash now msg (ok mi) s).1
unfolding respond_with and_then begin_rotate commit_rotate
respond_with-eq-ok hash now msg mi s a hk hp h =
    let next = derive_next_key hash s.key mi msg.iteration in
    ground (
      arith,
      copy_whole s.pending_key next,
      copy_whole (zeroize s.key) next,
      length-derive_next_key hash s.key mi msg.iteration,
      length-zeroize s.key,
    )

respond_with-from-ok :
    (hash : Blake3) (now : ℕ) (msg : RotationMsgV2) (r : Result CryptoError Bytes) (s : Session)
    (a : RotationAck)
    → (respond_with hash now msg r s).0 ≡ ok a
    → (mi : Bytes) × (r ≡ ok mi)
unfolding respond_with
respond_with-from-ok hash now msg (err e) s a h = cc
respond_with-from-ok hash now msg (ok mi) s a h = (mi, refl)

decapsulate-eq-ok :
    {PK SK : Type 0} (kem : Kem PK SK) (priv : SK) (ct mi : Bytes)
    → decapsulate kem priv ct ≡ ok mi
    → decapsulate kem priv ct ≡ ok (kem.decapsulate_to priv ct)
unfolding decapsulate
decapsulate-eq-ok kem priv ct mi h = ground arith

-- A rotation message is answered only if it carries the next step's number; then the session is
-- on the new key at once.
pub respond-eq-ok :
    {PK SK : Type 0} (hash : Blake3) (kem : Kem PK SK) (now : ℕ) (priv : SK) (msg : RotationMsgV2)
    (s : Session) (a : RotationAck)
    → length s.key ≡ 32
    → length s.pending_key ≡ 32
    → (respond_to_rotation_atomic hash kem now priv msg s).0 ≡ ok a
    → (msg.iteration ≡ next_iteration s.iteration)
      × (a.iteration ≡ msg.iteration)
      × IsRotated hash s
          (kem.decapsulate_to priv msg.kem_ciphertext)
          msg.iteration
          (respond_to_rotation_atomic hash kem now priv msg s).1
unfolding respond_to_rotation_atomic
respond-eq-ok hash kem now priv msg s a hk hp h =
    let opened = decapsulate kem priv msg.kem_ciphertext in
    elim (Bool-cases (msg.iteration == next_iteration s.iteration)) [
      | inr e ↦ absurd (ground arith)
      | inl e ↦
          let answered : (respond_with hash now msg opened s).0 ≡ ok a = ground arith in
          let (mi, got) = respond_with-from-ok hash now msg opened s a answered in
          let secret = decapsulate-eq-ok kem priv msg.kem_ciphertext mi got in
          let (number, rotated) =
            respond_with-eq-ok hash now msg (kem.decapsulate_to priv msg.kem_ciphertext) s a hk hp
              (rw secret at answered) in
          rw (e, secret) ((nat_beq_iff _ _).0 e, number, rotated)
    ]

-- The session while a step is pending: the key in use is as before.
pub record IsStarted (hash : Blake3) (s : Session) (mi : Bytes) (t : Session) : Type 0 where
  pub was_idle : s.pending_active ≡ false
  pub pending : t.pending_active ≡ true
  pub next_key : t.pending_key ≡ derive_next_key hash s.key mi (next_iteration s.iteration)
  pub same_key : t.key ≡ s.key
  pub same_step : t.iteration ≡ s.iteration
  pub same_closed : t.closed ≡ s.closed

pub initiate-eq-ok :
    {PK SK : Type 0} (hash : Blake3) (kem : Kem PK SK) (now : ℕ) (seed : Bytes) (peer : PK)
    (s : Session) (m : RotationMsgV2)
    → length s.pending_key ≡ 32
    → (initiate_rotation_atomic hash kem now seed peer s).0 ≡ ok m
    → (m.iteration ≡ next_iteration s.iteration)
      × (m.kem_ciphertext ≡ kem.ciphertext peer seed)
      × IsStarted hash s
          (kem.shared_key peer seed)
          (initiate_rotation_atomic hash kem now seed peer s).1
unfolding initiate_rotation_atomic and_then begin_rotate
initiate-eq-ok hash kem now seed peer s m hp h =
    let mi = kem.shared_key peer seed in
    let next = derive_next_key hash s.key mi (next_iteration s.iteration) in
    ground (
      arith,
      copy_whole s.pending_key next,
      length-derive_next_key hash s.key mi (next_iteration s.iteration),
    )

-- The session after an acknowledgement was taken.
pub record IsCommitted (s : Session) (t : Session) : Type 0 where
  pub was_pending : s.pending_active ≡ true
  pub idle : t.pending_active ≡ false
  pub on_key : t.key ≡ s.pending_key
  pub on_step : t.iteration ≡ s.pending_iteration
  pub opened : t.closed ≡ false

pub apply_rotation_ack-eq-ok :
    (now : ℕ) (a : RotationAck) (s : Session)
    → length s.key ≡ 32
    → length s.pending_key ≡ 32
    → (apply_rotation_ack now a s).0 ≡ ok tt
    → (a.iteration ≡ s.pending_iteration) × IsCommitted s (apply_rotation_ack now a s).1
unfolding apply_rotation_ack commit_rotate
apply_rotation_ack-eq-ok now a s hk hp h =
    ground (arith, copy_whole (zeroize s.key) s.pending_key, length-zeroize s.key)
