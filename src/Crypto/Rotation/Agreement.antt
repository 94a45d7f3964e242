-- ===== src/Crypto/Rotation/Agreement.antt =====
-- The gateway rotates the key with the device over a network that may lose, repeat, delay and
-- reorder messages. (The device's own rotations are not in this picture, nor is a rollback.)
mod Steps
pub mod KeysAgree
use lacert.Prelude.{
  All, Bytes, List, Result, [], err, false, inl, inr, ok, true, u64_mod, ℕ, ◌+◌, ◌<◌, ◌∷◌, ◌≡◌, ◌≤◌,
  ◌⊎◌,
}
use lacert.Crypto.Primitives.{Blake3, Kem, IsKeyPair, kem_ciphertext_size}
use lacert.Crypto.Messages.{RotationMsgV2, RotationAck}
use lacert.Crypto.Session.{Session, CryptoError, zeroize, new_session}
use lacert.Crypto.Rotation.Sound.{
  IsSound, respond-IsSound, initiate-IsSound, apply_rotation_ack-IsSound, new_session-IsSound,
}
use lacert.Crypto.Rotation.Errors.{
  IsRotated, respond-eq-ok, respond-err, initiate-err, apply_rotation_ack-err,
  length-derive_next_key, IsStarted, IsCommitted, initiate-eq-ok, apply_rotation_ack-eq-ok,
}
use lacert.Crypto.Rotation.{
  next_iteration, derive_next_key, begin_rotate, commit_rotate, apply_rotation_ack,
  initiate_rotation_atomic, respond_to_rotation_atomic, and_then,
}

abbrev pub In : {A : Type 0} → A → List A → Type 0
In a [] = ⊥
In a (x ∷ xs) = (x ≡ a) ⊎ In a xs

pub All-In : {A : Type 0} (P : A → Type 0) (a : A) (xs : List A) → All P xs → In a xs → P a
All-In P a [] all i = absurd i
All-In P a (x ∷ xs) all (inl e) = rw e at all.0
All-In P a (x ∷ xs) all (inr i) = All-In P a xs all.1 i

pub All-map :
    {A : Type 0} (P Q : A → Type 0) (xs : List A) → ((a : A) → P a → Q a) → All P xs → All Q xs
All-map P Q [] f all = tt
All-map P Q (x ∷ xs) f (p, ps) = (f x p, All-map P Q xs f ps)

-- The two ends, and every message that was ever sent between them.
pub record Link : Type 0 where
  pub gateway : Session
  pub device : Session
  pub messages : List RotationMsgV2
  pub acks : List RotationAck

abbrev pub sent : {A : Type 0} → Result CryptoError A → List A → List A
sent (ok a) as_before = a ∷ as_before
sent (err _) as_before = as_before

module _ {PK SK : Type 0} (hash : Blake3) (kem : Kem PK SK) (pub_key : PK) (priv : SK) where
  -- The gateway starts a step while the numbers are far from the end of uint64.
  unfoldable pub initiate : ℕ → Bytes → Link → Link
  initiate now seed l =
      let (r, s) = initiate_rotation_atomic hash kem now seed pub_key l.gateway in
      record l { gateway = s; messages = sent r l.messages }

  -- The device is given some message that was sent, perhaps again.
  unfoldable pub deliver : ℕ → RotationMsgV2 → Link → Link
  deliver now msg l =
      let (r, s) = respond_to_rotation_atomic hash kem now priv msg l.device in
      record l { device = s; acks = sent r l.acks }

  -- The gateway is given some acknowledgement that was sent, perhaps again.
  unfoldable pub acknowledge : ℕ → RotationAck → Link → Link
  acknowledge now a l = record l { gateway = (apply_rotation_ack now a l.gateway).1 }

  pub data Event (l : Link) : Link → Type 0 where
    starts :
        (now : ℕ) (seed : Bytes) → l.gateway.iteration + 2 < u64_mod → Event l (initiate now seed l)
    receives : (now : ℕ) (msg : RotationMsgV2) → In msg l.messages → Event l (deliver now msg l)
    is_told : (now : ℕ) (a : RotationAck) → In a l.acks → Event l (acknowledge now a l)

  pub data Reach (l : Link) : Link → Type 0 where
    here : Reach l l
    next : {m n : Link} → Reach l m → Event m n → Reach l n

  -- The message of the step that is pending: its secret gives the pending key.
  abbrev pub IsCurrent : Session → RotationMsgV2 → Type 0
  IsCurrent g m =
      (g.pending_active ≡ true)
      × (m.iteration ≡ g.iteration + 1)
      × (g.pending_key
          ≡ derive_next_key hash g.key (kem.decapsulate_to priv m.kem_ciphertext) m.iteration)

  pub record Agree (l : Link) : Type 0 where
    pub gateway_sound : IsSound l.gateway
    pub device_sound : IsSound l.device
    pub gateway_open : l.gateway.closed ≡ false
    pub device_open : l.device.closed ≡ false
    pub device_idle : l.device.pending_active ≡ false
    pub room : l.gateway.iteration + 1 < u64_mod
    pub pending_room : l.gateway.pending_active ≡ true → l.gateway.iteration + 2 < u64_mod
    pub known : All (λ m. (m.iteration ≤ l.gateway.iteration) ⊎ IsCurrent l.gateway m) l.messages
    pub told : All (λ a. a.iteration ≤ l.device.iteration) l.acks
    pub level :
        ((l.device.iteration ≡ l.gateway.iteration) × (l.device.key ≡ l.gateway.key))
        ⊎ ((l.device.iteration ≡ l.gateway.iteration + 1)
            × (l.gateway.pending_active ≡ true)
            × (l.device.key ≡ l.gateway.pending_key))
