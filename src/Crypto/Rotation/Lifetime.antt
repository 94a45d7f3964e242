-- ===== src/Crypto/Rotation/Lifetime.antt =====
-- The life of a session: any calls of its methods, in any order, from its creation on.
use lacert.Prelude.{
  Bytes, List, [], arith, inl, inr, list_eq, nat_eq, ok, pair_eq, refl, string_eq, true, ℕ, ◌∷◌,
  ◌≡◌, ◌⊎◌,
}
use lacert.Crypto.Primitives.{Blake3}
use lacert.Crypto.Messages.{RotationAck}
use lacert.Crypto.Session.{
  Session, Settings, blank_key, new_session, record_packet, close, check_data_nonce,
}
use lacert.Crypto.Session.Window.{IsWindow, checked, check_data_nonce-IsWindow}
use lacert.Crypto.Rotation.{
  begin_rotate, commit_rotate, abort_rotate, abort_if_stale, apply_rotation_ack,
}
use lacert.Crypto.Rotation.Sound.{
  IsSound, new_session-IsSound, begin_rotate-IsSound, commit_rotate-IsSound, abort_rotate-IsSound,
  abort_if_stale-IsSound, apply_rotation_ack-IsSound, close-IsSound, record_packet-IsSound,
  Checked-IsSound,
}

-- One call, at one moment. The protocol functions are made of these.
pub data Call : Type 0 where
  begin : ℕ → Bytes → ℕ → Call
  commit : ℕ → Call
  ack : ℕ → RotationAck → Call
  abort : Call
  abort_stale : ℕ → ℕ → Call
  packet_sent : Call
  packet_seen : Bytes → Call
  close_session : Call

-- The window is as it was, or empty.
abbrev KeepsWindow : Session → Session → Type 0
KeepsWindow s t =
    ((t.seen_nonces ≡ s.seen_nonces) × (t.seen_order ≡ s.seen_order))
    ⊎ ((t.seen_nonces ≡ []) × (t.seen_order ≡ []))

IsWindow-empty : {t : Session} → t.seen_nonces ≡ [] → t.seen_order ≡ [] → IsWindow t
IsWindow-empty nonces order = record {
  same = λ id. rw (nonces, order) refl;
  distinct = rw order tt;
  distinct_set = rw nonces tt;
  bounded = rw order (omega arith);
}

KeepsWindow-IsWindow : {s t : Session} → KeepsWindow s t → IsWindow s → IsWindow t
KeepsWindow-IsWindow (inl (nonces, order)) w = record {
  same = λ id. rw (nonces, order) (w.same id);
  distinct = rw order w.distinct;
  distinct_set = rw nonces w.distinct_set;
  bounded = rw order w.bounded;
}
KeepsWindow-IsWindow (inr (nonces, order)) w = IsWindow-empty nonces order

pub new_session-IsWindow :
    (k0 : Bytes) (now : ℕ) (s : Session) → new_session k0 now ≡ ok s → IsWindow s
unfolding new_session
new_session-IsWindow k0 now s h =
    let empty : (s.seen_nonces ≡ []) × (s.seen_order ≡ []) = ground arith in
    IsWindow-empty empty.0 empty.1

module _ (hash : Blake3) (c : Settings) where
  unfoldable pub perform : Call → Session → Session
  perform (begin now mi i) s = (begin_rotate hash now mi i s).1
  perform (commit now) s = (commit_rotate now s).1
  perform (ack now a) s = (apply_rotation_ack now a s).1
  perform abort s = abort_rotate s
  perform (abort_stale now timeout) s = (abort_if_stale c now timeout s).1
  perform packet_sent s = record_packet s
  perform (packet_seen nonce) s = (check_data_nonce nonce s).1
  perform close_session s = close s

  unfoldable pub perform_all : List Call → Session → Session
  perform_all [] s = s
  perform_all (k ∷ ks) s = perform_all ks (perform k s)

  perform-IsSound : (k : Call) (s : Session) → IsSound s → IsSound (perform k s)
  unfolding perform
  perform-IsSound (begin now mi i) s v = begin_rotate-IsSound hash now mi i s v
  perform-IsSound (commit now) s v = commit_rotate-IsSound now s v
  perform-IsSound (ack now a) s v = apply_rotation_ack-IsSound now a s v
  perform-IsSound abort s v = abort_rotate-IsSound s v
  perform-IsSound (abort_stale now timeout) s v = abort_if_stale-IsSound c now timeout s v
  perform-IsSound packet_sent s v = record_packet-IsSound s v
  perform-IsSound (packet_seen nonce) s v = Checked-IsSound v (checked nonce s)
  perform-IsSound close_session s v = close-IsSound s v

  perform-IsWindow : (k : Call) (s : Session) → IsWindow s → IsWindow (perform k s)
  unfolding perform
  perform-IsWindow (packet_seen nonce) s w = check_data_nonce-IsWindow nonce s w
  perform-IsWindow (begin now mi i) s w =
      KeepsWindow-IsWindow {s = s} (unfold begin_rotate in ground arith) w
  perform-IsWindow (commit now) s w =
      KeepsWindow-IsWindow {s = s} (unfold commit_rotate in ground arith) w
  perform-IsWindow (ack now a) s w =
      KeepsWindow-IsWindow {s = s} (unfold apply_rotation_ack commit_rotate in ground arith) w
  perform-IsWindow abort s w =
      KeepsWindow-IsWindow {s = s} (unfold abort_rotate in inl (refl, refl)) w
  perform-IsWindow (abort_stale now timeout) s w =
      KeepsWindow-IsWindow {s = s} (unfold abort_if_stale in ground arith) w
  perform-IsWindow packet_sent s w =
      KeepsWindow-IsWindow {s = s} (unfold record_packet in inl (refl, refl)) w
  perform-IsWindow close_session s w =
      KeepsWindow-IsWindow {s = s} (unfold close in inr (refl, refl)) w

  perform-closed : (k : Call) (s : Session) → s.closed ≡ true → (perform k s).closed ≡ true
  unfolding perform begin_rotate commit_rotate apply_rotation_ack abort_rotate abort_if_stale
      record_packet check_data_nonce close
  perform-closed k s h = ground arith

  perform_all-IsSound : (ks : List Call) (s : Session) → IsSound s → IsSound (perform_all ks s)
  unfolding perform_all
  perform_all-IsSound [] s v = v
  perform_all-IsSound (k ∷ ks) s v = perform_all-IsSound ks (perform k s) (perform-IsSound k s v)

  perform_all-IsWindow : (ks : List Call) (s : Session) → IsWindow s → IsWindow (perform_all ks s)
  unfolding perform_all
  perform_all-IsWindow [] s w = w
  perform_all-IsWindow (k ∷ ks) s w = perform_all-IsWindow ks (perform k s) (perform-IsWindow k s w)

  perform_all-closed :
      (ks : List Call) (s : Session) → s.closed ≡ true → (perform_all ks s).closed ≡ true
  unfolding perform_all
  perform_all-closed [] s h = h
  perform_all-closed (k ∷ ks) s h = perform_all-closed ks (perform k s) (perform-closed k s h)

  -- Whatever is called on a new session, in whatever order: its keys keep their size, the number
  -- of the step counts the rotations, a pending step is the next one, a key that is not in use is
  -- wiped, and the nonce window is consistent and bounded.
  pub session_invariants :
      (ks : List Call) (k0 : Bytes) (now : ℕ) (s : Session)
      → new_session k0 now ≡ ok s
      → IsSound (perform_all ks s) × IsWindow (perform_all ks s)
  session_invariants ks k0 now s h = (
    perform_all-IsSound ks s (new_session-IsSound k0 now s h),
    perform_all-IsWindow ks s (new_session-IsWindow k0 now s h),
  )

  -- After `Close` nothing brings a session back: whatever is called, both keys stay wiped.
  pub perform_all_after_close :
      (ks : List Call) (s : Session)
      → IsSound s
      → ((perform_all ks (close s)).closed ≡ true)
        × ((perform_all ks (close s)).key ≡ blank_key)
        × ((perform_all ks (close s)).pending_key ≡ blank_key)
  perform_all_after_close ks s v =
      let v' = perform_all-IsSound ks (close s) (close-IsSound s v) in
      let shut = perform_all-closed ks (close s) (unfold close in refl) in
      let (wiped, idle) = v'.closed_blank shut in (shut, wiped, v'.idle_blank idle)
