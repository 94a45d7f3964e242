-- ===== src/Crypto/Rotation/Sound.antt =====
-- What holds of a session between two calls, whatever methods are called in whatever order.
use lacert.Prelude.{
  Bytes, Result, [], ap, arith, copy_whole, err, false, keep, length, length-copy, list_eq, nat_eq,
  ok, pair_eq, refl, replicate, string_eq, suc, true, u64_mod, ℕ, ◌%◌, ◌∙◌, ◌∷◌, ◌≡◌,
}
use lacert.Crypto.Primitives.{Blake3, Kem}
use lacert.Crypto.Messages.{RotationMsgV2, RotationAck}
use lacert.Crypto.Kem.{decapsulate}
use lacert.Crypto.Session.{
  Session, CryptoError, Settings, blank_key, zeroize, new_session, record_packet, close, evict,
}
use lacert.Crypto.Session.Window.{Checked, refused, accepted}
use lacert.Crypto.Rotation.{
  next_iteration, derive_next_key, begin_rotate, commit_rotate, abort_rotate, abort_if_stale,
  apply_rotation_ack, initiate_rotation_atomic, respond_to_rotation_atomic, respond_with, and_then,
}

pub record IsSound (s : Session) : Type 0 where
  pub key_size : length s.key ≡ 32
  pub pending_size : length s.pending_key ≡ 32
  -- the number of the step is the count of the rotations, as a uint64
  pub counted : s.iteration ≡ s.rotation_count % u64_mod
  pub pending_next : s.pending_active ≡ true → s.pending_iteration ≡ next_iteration s.iteration
  -- no key outlives its use
  pub idle_blank : s.pending_active ≡ false → s.pending_key ≡ blank_key
  pub closed_blank : s.closed ≡ true → (s.key ≡ blank_key) × (s.pending_active ≡ false)

pub length-zeroize : (b : Bytes) → length (zeroize b) ≡ length b
unfolding zeroize
length-zeroize [] = refl
length-zeroize (x ∷ b) = ap suc (length-zeroize b)

zeroize-eq-replicate : (b : Bytes) → zeroize b ≡ replicate (length b) 0
unfolding zeroize
zeroize-eq-replicate [] = refl
zeroize-eq-replicate (x ∷ b) = ap (λ r. 0 ∷ r) (zeroize-eq-replicate b)

zeroize-blank : (b : Bytes) → length b ≡ 32 → zeroize b ≡ blank_key
zeroize-blank b h = zeroize-eq-replicate b ∙ ap (λ n. replicate n 0) h

pub new_session-IsSound :
    (k0 : Bytes) (now : ℕ) (s : Session) → new_session k0 now ≡ ok s → IsSound s
unfolding new_session
new_session-IsSound k0 now s h = ground (arith, copy_whole blank_key k0)

pub begin_rotate-IsSound :
    (hash : Blake3) (now : ℕ) (mi : Bytes) (i : ℕ) (s : Session)
    → IsSound s
    → IsSound (begin_rotate hash now mi i s).1
unfolding begin_rotate
begin_rotate-IsSound hash now mi i s v =
    ground (arith, length-copy s.pending_key (derive_next_key hash s.key mi i))

pub commit_rotate-IsSound : (now : ℕ) (s : Session) → IsSound s → IsSound (commit_rotate now s).1
unfolding commit_rotate next_iteration
commit_rotate-IsSound now s v = ground (
  arith,
  length-copy (zeroize s.key) s.pending_key,
  length-zeroize s.key,
  length-zeroize s.pending_key,
  zeroize-blank s.pending_key,
)

pub apply_rotation_ack-IsSound :
    (now : ℕ) (ack : RotationAck) (s : Session)
    → IsSound s
    → IsSound (apply_rotation_ack now ack s).1
unfolding apply_rotation_ack
apply_rotation_ack-IsSound now ack s v = ground (arith, commit_rotate-IsSound now s)

pub abort_rotate-IsSound : (s : Session) → IsSound s → IsSound (abort_rotate s)
unfolding abort_rotate
abort_rotate-IsSound s v = ground (arith, zeroize-blank s.pending_key, length-zeroize s.pending_key)

pub abort_if_stale-IsSound :
    (c : Settings) (now timeout : ℕ) (s : Session)
    → IsSound s
    → IsSound (abort_if_stale c now timeout s).1
unfolding abort_if_stale
abort_if_stale-IsSound c now timeout s v =
    ground (arith, zeroize-blank s.pending_key, length-zeroize s.pending_key)

pub close-IsSound : (s : Session) → IsSound s → IsSound (close s)
unfolding close
close-IsSound s v = ground (
  arith,
  zeroize-blank s.key,
  zeroize-blank s.pending_key,
  length-zeroize s.key,
  length-zeroize s.pending_key,
)

pub record_packet-IsSound : (s : Session) → IsSound s → IsSound (record_packet s)
unfolding record_packet
record_packet-IsSound s v = ground arith

pub Checked-IsSound :
    {nonce : Bytes} {s : Session} {r : Result CryptoError (Unit {0}) × Session}
    → IsSound s
    → Checked nonce s r
    → IsSound r.1
unfolding evict
Checked-IsSound v (refused e) = v
Checked-IsSound {s = s} v (accepted sized opened new) = ground arith

and_then-IsSound :
    {A B : Type 0} (r : Result CryptoError A × Session)
    (k : Session → Result CryptoError B × Session)
    → IsSound r.1
    → ((s : Session) → IsSound s → IsSound (k s).1)
    → IsSound (and_then r k).1
unfolding and_then
and_then-IsSound (err e, s) k v keep = v
and_then-IsSound (ok a, s) k v keep = keep s v

respond_with-IsSound :
    (hash : Blake3) (now : ℕ) (msg : RotationMsgV2) (r : Result CryptoError Bytes) (s : Session)
    → IsSound s
    → IsSound (respond_with hash now msg r s).1
unfolding respond_with
respond_with-IsSound hash now msg (err e) s v = v
respond_with-IsSound hash now msg (ok mi) s v =
    and_then-IsSound _ _ (begin_rotate-IsSound hash now mi msg.iteration s v)
      λ s1 v1. and_then-IsSound _ _ (commit_rotate-IsSound now s1 v1) (λ s2 v2. v2)

module _ {PK SK : Type 0} (hash : Blake3) (kem : Kem PK SK) (now : ℕ) where
  pub initiate-IsSound :
      (seed : Bytes) (peer : PK) (s : Session)
      → IsSound s
      → IsSound (initiate_rotation_atomic hash kem now seed peer s).1
  unfolding initiate_rotation_atomic
  initiate-IsSound seed peer s v =
      and_then-IsSound _ _ (begin_rotate-IsSound hash now _ _ s v) (λ s1 v1. v1)

  pub respond-IsSound :
      (priv : SK) (msg : RotationMsgV2) (s : Session)
      → IsSound s
      → IsSound (respond_to_rotation_atomic hash kem now priv msg s).1
  unfolding respond_to_rotation_atomic
  respond-IsSound priv msg s v =
      ground
        (arith, respond_with-IsSound hash now msg (decapsulate kem priv msg.kem_ciphertext) s v)
