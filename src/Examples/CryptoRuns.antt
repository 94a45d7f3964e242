-- ===== src/Examples/CryptoRuns.antt =====
-- The theorems on sessions, rotation and replays at concrete inputs.
use lacert.Prelude.{
  Bytes, Unique, [], arith, delete, err, list_eq, lookup, nat_eq, ok, pair_eq, refl, replicate,
  some, string_eq, true, ◌++◌, ◌+◌, ◌∷◌, ◌≡◌, ◌⊎◌,
}
use lacert.Examples.Toy.{toy_hash, toy_kem, key_a, open_session}
use lacert.Crypto.Messages.{RotationMsgV2}
use lacert.Crypto.Session.{
  rotation_in_progress, rotation_replay, rotation_out_of_order, Session, replay_detected,
  data_replay, default_settings, new_session, check_data_nonce, blank_key, close,
}
use lacert.Crypto.Session.Window.{IsWindow}
use lacert.Crypto.Session.Recency.{check_all, check_data_nonce_replayed}
use lacert.Crypto.ReplayGuard.{new_replay_guard, check_and_remember, ReplayGuard, size}
use lacert.Crypto.ReplayGuard.Memory.{check_calls, replay_is_caught}
use lacert.Crypto.ReplayGuard.Fresh.{fresh_is_taken, same_nonce_in_both_generations}
use lacert.Crypto.Rotation.{
  begin_rotate, and_then, next_iteration, initiate_rotation_atomic, respond_to_rotation_atomic,
  apply_rotation_ack,
}
use lacert.Crypto.Rotation.Sound.{IsSound, new_session-IsSound}
use lacert.Crypto.Rotation.Lifetime.{
  begin, commit, packet_seen, perform_all, session_invariants, perform_all_after_close,
  new_session-IsWindow,
}
use lacert.Crypto.Rotation.Errors.{rotation_error_unchanged}
use lacert.Crypto.Rotation.Agreement.{Link, here, next, starts, initiate}
use lacert.Crypto.Rotation.Agreement.KeysAgree.{keys_agree}
use lacert.Crypto.Rotation.Outcomes.{IsReady}

abbrev nonce_1 : Bytes
nonce_1 = replicate 11 0 ++ 1 ∷ []

opened : new_session key_a 5 ≡ ok open_session
unfolding new_session
opened = refl

open_session-IsWindow : IsWindow open_session
open_session-IsWindow = new_session-IsWindow key_a 5 open_session opened

open_session-IsSound : IsSound open_session
open_session-IsSound = new_session-IsSound key_a 5 open_session opened

session_invariants_example :
    IsSound (
      perform_all toy_hash default_settings
        (begin 6 key_a 1 ∷ commit 7 ∷ packet_seen nonce_1 ∷ [])
        open_session)
    × IsWindow (
        perform_all toy_hash default_settings
          (begin 6 key_a 1 ∷ commit 7 ∷ packet_seen nonce_1 ∷ [])
          open_session)
session_invariants_example =
    session_invariants toy_hash default_settings
      (begin 6 key_a 1 ∷ commit 7 ∷ packet_seen nonce_1 ∷ []) key_a 5 open_session opened

perform_all_after_close_example :
    let s = perform_all toy_hash default_settings (begin 6 key_a 1 ∷ []) (close open_session) in
    (s.closed ≡ true) × (s.key ≡ blank_key) × (s.pending_key ≡ blank_key)
perform_all_after_close_example =
    perform_all_after_close toy_hash default_settings (begin 6 key_a 1 ∷ []) open_session
      open_session-IsSound

abbrev stale_message : RotationMsgV2
stale_message = record { iteration = 0; kem_ciphertext = [] }

-- A session that waits for the acknowledgement of step 1 refuses all three.
abbrev waiting_session : Session
waiting_session = (initiate_rotation_atomic toy_hash toy_kem 6 key_a key_a open_session).1

rotation_error_unchanged_example :
    ((initiate_rotation_atomic toy_hash toy_kem 7 key_a key_a waiting_session).1 ≡ waiting_session)
    × ((respond_to_rotation_atomic toy_hash toy_kem 7 key_a stale_message waiting_session).1
        ≡ waiting_session)
    × ((apply_rotation_ack 7 (record { iteration = 2 }) waiting_session).1 ≡ waiting_session)
unfolding initiate_rotation_atomic respond_to_rotation_atomic apply_rotation_ack begin_rotate
    and_then next_iteration
rotation_error_unchanged_example =
    let (started, answered, applied) =
      rotation_error_unchanged toy_hash toy_kem 7 key_a key_a key_a stale_message
        (record { iteration = 2 }) waiting_session rotation_in_progress rotation_replay
        rotation_out_of_order in
    (started refl, answered refl, applied refl)

abbrev fresh_link : Link
fresh_link = record { gateway = open_session; device = open_session; messages = []; acks = [] }

-- A step was started, and its message is on the way.
abbrev started_link : Link
started_link = initiate toy_hash toy_kem key_a key_a 6 key_a fresh_link

keys_agree_example :
    ((started_link.device.iteration ≡ started_link.gateway.iteration)
      × (started_link.device.key ≡ started_link.gateway.key))
    ⊎ ((started_link.device.iteration ≡ started_link.gateway.iteration + 1)
        × (started_link.gateway.pending_active ≡ true)
        × (started_link.device.key ≡ started_link.gateway.pending_key))
keys_agree_example =
    keys_agree toy_hash toy_kem key_a key_a key_a 5 5 open_session open_session started_link
      (λ seed. refl) opened opened (next here (starts 6 key_a (omega arith)))

abbrev ready : IsReady open_session open_session
ready = record {
  gateway_sizes = (refl, refl);
  device_sizes = (refl, refl);
  opened = (refl, refl);
  idle = (refl, refl);
  level = (refl, refl);
}

abbrev next_message : RotationMsgV2
next_message = record { iteration = 1; kem_ciphertext = toy_kem.ciphertext key_a key_a }

first_seen : (check_data_nonce nonce_1 open_session).0 ≡ ok tt
unfolding check_data_nonce
first_seen = refl

check_data_nonce_replayed_example :
    (check_data_nonce nonce_1 (check_all (key_a ∷ []) (check_data_nonce nonce_1 open_session).1)).0
    ≡ err data_replay
check_data_nonce_replayed_example =
    check_data_nonce_replayed open_session nonce_1 (key_a ∷ []) open_session-IsWindow first_seen
      (omega arith)

abbrev guard : ReplayGuard
guard = new_replay_guard 100 0

first_taken : (check_and_remember 10 key_a key_a guard).0 ≡ ok tt
unfolding check_and_remember new_replay_guard lookup
first_taken = refl

guard_ttl : guard.ttl ≡ 100
unfolding new_replay_guard
guard_ttl = refl

replay_is_caught_example :
    (check_and_remember 40 key_a key_a
      (check_calls ((20, nonce_1, key_a) ∷ []) (check_and_remember 10 key_a key_a guard).1)).0
    ≡ err replay_detected
replay_is_caught_example =
    replay_is_caught guard 10 40 key_a key_a ((20, nonce_1, key_a) ∷ []) first_taken
      (rw guard_ttl ((omega arith, omega arith), tt)) (omega arith) (rw guard_ttl (omega arith))

fresh_is_taken_example :
    (check_and_remember 150 key_a key_a
      (check_calls ((10, key_a, key_a) ∷ []) (new_replay_guard 100 0))).0
    ≡ ok tt
fresh_is_taken_example =
    fresh_is_taken 100 0 150 key_a key_a ((10, key_a, key_a) ∷ [])
      (λ e. rw guard_ttl (omega arith), tt)

abbrev old_guard : ReplayGuard
old_guard = record { current = ((key_a, key_a), 10) ∷ []; previous = []; rotated = 0; ttl = 100 }

same_nonce_in_both_generations_example :
    let g = (check_and_remember 150 key_a key_a old_guard).1 in
    let without = record g {
      current = delete (key_a, key_a) g.current;
      previous = delete (key_a, key_a) g.previous;
    } in
    (lookup (key_a, key_a) g.current ≡ some 150)
    × (lookup (key_a, key_a) g.previous ≡ some 10)
    × (size g ≡ size without + 2)
same_nonce_in_both_generations_example =
    same_nonce_in_both_generations 150 10 key_a key_a old_guard (unfold Unique lookup in (refl, tt))
      (unfold lookup in refl) (unfold lookup in refl) (omega arith) (omega arith)
