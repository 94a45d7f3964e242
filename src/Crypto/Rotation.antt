-- ===== src/Crypto/Rotation.antt =====
-- internal/crypto/rotation_atomic.go: the rotation of the session key. A method that locks the
-- mutex is one step; the two protocol functions that lock it several times are modelled with no
-- other step in between.
pub mod Sound
pub mod Lifetime
pub mod Errors
pub mod Agreement
pub mod Outcomes
use lacert.Prelude.{
  Bool, Bytes, Result, codes, copy, err, false, if◌then◌else◌, leb, length, list_eq, ltb, nat_eq,
  not, ok, pair_eq, put_uint64, string_eq, true, u64_mod, ℕ, ◌%◌, ◌++◌, ◌+◌, ◌==◌,
}
use lacert.Crypto.Primitives.{Blake3, Kem}
use lacert.Crypto.Messages.{RotationMsgV2, RotationAck}
use lacert.Crypto.Kem.{encapsulate, decapsulate}
use lacert.Crypto.Session.{
  Session, CryptoError, Settings, session_closed, bad_secret_size, rotation_in_progress,
  iteration_out_of_order, nothing_to_commit, rotation_replay, rotation_out_of_order,
  no_pending_rotation, session_key_size, zeroize, reset_seen_nonces,
}

abbrev pub SessionOp : Type 0 → Type 0
SessionOp A = Session → Result CryptoError A × Session

-- uint64 addition of 1.
unfoldable pub next_iteration : ℕ → ℕ
next_iteration i = (i + 1) % u64_mod

abbrev rotate_separator : Bytes
rotate_separator = codes "rotate_v1"

unfoldable pub derive_next_key : Blake3 → Bytes → Bytes → ℕ → Bytes
derive_next_key hash current_key mi iteration =
    hash.sum (current_key ++ mi ++ put_uint64 iteration ++ rotate_separator)

unfoldable pub begin_rotate : Blake3 → ℕ → Bytes → ℕ → SessionOp (Unit {0})
begin_rotate hash now mi iteration s =
    if not (length mi == session_key_size)
    then (err bad_secret_size, s)
    else if s.closed
    then (err session_closed, s)
    else if s.pending_active
    then (err rotation_in_progress, s)
    else if not (iteration == next_iteration s.iteration)
    then (err iteration_out_of_order, s)
    else (
      ok tt,
      record s {
        pending_key = copy s.pending_key (derive_next_key hash s.key mi iteration);
        pending_active = true;
        pending_iteration = iteration;
        pending_started_at = now;
      },
    )

unfoldable pub commit_rotate : ℕ → SessionOp (Unit {0})
unfolding reset_seen_nonces
commit_rotate now s =
    if s.closed
    then (err session_closed, s)
    else if not s.pending_active
    then (err nothing_to_commit, s)
    else (
      ok tt,
      reset_seen_nonces (record s {
        key = copy (zeroize s.key) s.pending_key;
        pending_key = zeroize s.pending_key;
        pending_active = false;
        iteration = s.pending_iteration;
        packet_count = 0;
        last_rotated_at = now;
        rotation_count = s.rotation_count + 1;
      }),
    )

unfoldable pub abort_rotate : Session → Session
abort_rotate s = record s {
  pending_key = zeroize s.pending_key;
  pending_active = false;
  pending_iteration = 0;
  pending_started_at = 0;
}

-- `timeout` 0 stands for every duration that is not positive.
unfoldable pub abort_if_stale : Settings → ℕ → ℕ → Session → Bool × Session
abort_if_stale c now timeout s =
    let limit = if timeout == 0 then c.rotation_ack_timeout else timeout in
    if not s.pending_active
    then (false, s)
    else if ltb now (s.pending_started_at + limit)
    then (false, s)
    else (
      true,
      record s {
        pending_key = zeroize s.pending_key;
        pending_active = false;
        pending_iteration = 0;
        pending_started_at = 0;
      },
    )

unfoldable pub pending_rotation : Session → Bool
pending_rotation s = s.pending_active

unfoldable pub apply_rotation_ack : ℕ → RotationAck → SessionOp (Unit {0})
apply_rotation_ack now ack s =
    if not s.pending_active
    then (err no_pending_rotation, s)
    else if not (ack.iteration == s.pending_iteration)
    then (err rotation_out_of_order, s)
    else commit_rotate now s

-- `if err := first(); err != nil { return err }; return then`
unfoldable pub and_then :
    {A B : Type 0}
    → Result CryptoError A × Session
    → (Session → Result CryptoError B × Session)
    → Result CryptoError B × Session
and_then (err e, s) k = (err e, s)
and_then (ok _, s) k = k s

-- Begin and commit at once, with the secret if the ciphertext has its size.
respond_with : Blake3 → ℕ → RotationMsgV2 → Result CryptoError Bytes → SessionOp RotationAck
respond_with hash now msg (err e) s = (err e, s)
respond_with hash now msg (ok mi) s =
    and_then (begin_rotate hash now mi msg.iteration s) (λ s1.
      and_then (commit_rotate now s1) (λ s2. (ok (record { iteration = msg.iteration }), s2)))

module _ {PK SK : Type 0} (hash : Blake3) (kem : Kem PK SK) where
  unfoldable pub initiate_rotation_atomic : ℕ → Bytes → PK → SessionOp RotationMsgV2
  unfolding encapsulate
  initiate_rotation_atomic now seed peer s =
      let (ct, mi) = encapsulate kem peer seed in
      let next = next_iteration s.iteration in
      and_then (begin_rotate hash now mi next s)
        (λ s'. (ok (record { iteration = next; kem_ciphertext = ct }), s'))

  unfoldable pub respond_to_rotation_atomic : ℕ → SK → RotationMsgV2 → SessionOp RotationAck
  unfolding respond_with
  respond_to_rotation_atomic now priv msg s =
      if not (msg.iteration == next_iteration s.iteration)
      then (if leb msg.iteration s.iteration
          then (err rotation_replay, s)
          else (err rotation_out_of_order, s))
      else respond_with hash now msg (decapsulate kem priv msg.kem_ciphertext) s
