-- ===== src/Examples/GatewayRuns.antt =====
-- The theorems on the gateway at concrete inputs.
use lacert.Prelude.{
  Bytes, List, [], arith, err, false, length, list_eq, lookup, nat_eq, none, ok, pair_eq, refl,
  replicate, some, string_eq, true, ℕ, ◌+◌, ◌/◌, ◌<◌, ◌∷◌, ◌≡◌,
}
use lacert.Examples.Toy.{toy_kem, key_a, open_session}
use lacert.Crypto.Messages.{RotationMsgV2, FirmwareResponse}
use lacert.Crypto.Kem.{unpack_kem_public_key}
use lacert.Crypto.Session.{
  Session, data_replay, replay_detected, close, new_session, derive_k0, check_data_nonce,
}
use lacert.Crypto.Rotation.Lifetime.{new_session-IsWindow}
use lacert.Crypto.Signature.{verify_signature}
use lacert.Crypto.Handshake.{
  finalize_handshake, transcript_of, msg1_bytes, msg2_bytes, confirmation_value,
}
use lacert.Crypto.Firmware.{FirmwareCheckResult, verify_firmware_response}
use lacert.Crypto.Packet.{decrypt_packet}
use lacert.Crypto.ReplayGuard.{new_replay_guard, check_and_remember}
use lacert.Store.Types.{firmware_hash_array}
use lacert.Store.MemStore.{get, revoke}
use lacert.Store.MemStore.Registry.{mem_store}
use lacert.Gateway.State.{crypto_failed, session}
use lacert.Gateway.Lifecycle.{close_session_instance, revoke_device, shutdown}
use lacert.Gateway.Handshakes.{handle_msg1, handle_msg3, finish_handshake, registered_kem_key}
use lacert.Gateway.Traffic.{
  handle_data, accept_data, verify_firmware_check, check_response, conclude_firmware_check,
}
use lacert.Gateway.Answers.{AgreesWith, acknowledgement_means_rotated}
use lacert.Gateway.Rotations.{handle_atomic_rotation_from_device}
use lacert.Gateway.Shutdown.{IsWiped, shutdown_wipes_all}
use lacert.Gateway.Revocation.{IsCutOff, revoke_device_cuts_off}
use lacert.Gateway.Entry.{IsAdmitted, handle_msg3_admits, replaced_session_keeps_its_key}
use lacert.Gateway.Arrivals.{Arrival, first_comes, third_comes, guard_calls, arrive_all}
use lacert.Crypto.ReplayGuard.Memory.{Between}
use lacert.Gateway.Replays.{receive_packets, handle_data_replayed, handle_msg1_replayed}
use lacert.Gateway.Verdicts.{IsJudged, verify_firmware_check_judges}
use lacert.Examples.Fixtures.{
  plain, settings, no_parse, lamp_id, word, nonce_1, lamp, msg1, msg3, busy,
}

linked : lookup lamp_id busy.sessions ≡ some 0
unfolding lookup
linked = refl

live : lookup 0 busy.heap ≡ some open_session
unfolding lookup
live = refl

known : mem_store.view lamp_id busy.store ≡ some lamp
unfolding lookup
known = refl

revoke_device_cuts_off_example :
    let r = revoke_device mem_store 20 lamp_id "lost" busy in
    (r.0 ≡ ok tt)
    × IsCutOff mem_store lamp_id r.1
    × (lookup 0 r.1.heap ≡ some (close open_session))
    × (lookup (2 ∷ []) r.1.sessions ≡ none)
unfolding lookup
revoke_device_cuts_off_example =
    revoke_device_cuts_off mem_store 20 lamp_id (2 ∷ []) 0 "lost" busy lamp known

confirmed : (handle_msg3 plain mem_store settings 20 lamp_id 2 msg3 busy).0 ≡ ok tt
unfolding handle_msg3 finish_handshake lookup get finalize_handshake transcript_of msg1_bytes
    msg2_bytes verify_signature confirmation_value new_session derive_k0
confirmed = refl

handle_msg3_admits_example :
    IsAdmitted plain mem_store settings 20 lamp_id 2 msg3 busy
      (handle_msg3 plain mem_store settings 20 lamp_id 2 msg3 busy).1
handle_msg3_admits_example =
    handle_msg3_admits plain mem_store settings 20 lamp_id 2 msg3 busy confirmed

replaced_session_keeps_its_key_example :
    let g' = (handle_msg3 plain mem_store settings 20 lamp_id 2 msg3 busy).1 in
    (lookup lamp_id g'.sessions ≡ some 1)
    × (lookup 0 g'.heap ≡ some open_session)
    × (close_session_instance lamp_id (some 0) g' ≡ (false, g'))
replaced_session_keeps_its_key_example =
    replaced_session_keeps_its_key plain mem_store settings 20 lamp_id 2 msg3 busy 0 open_session
      linked live refl confirmed

-- The signature is over another text.
abbrev bad_response : FirmwareResponse
bad_response = record { firmware_hash = key_a; signature = word }

abbrev bad_result : FirmwareCheckResult
bad_result = record { signature_valid = false; hash_matches = true }

judged :
    (verify_firmware_check plain mem_store settings 20 lamp_id bad_response busy).0 ≡ ok bad_result
unfolding verify_firmware_check check_response conclude_firmware_check lookup get
    firmware_hash_array verify_firmware_response verify_signature revoke
judged = refl

verify_firmware_check_judges_example :
    IsJudged plain mem_store settings 20 lamp_id bad_response bad_result busy
      (verify_firmware_check plain mem_store settings 20 lamp_id bad_response busy).1
verify_firmware_check_judges_example =
    verify_firmware_check_judges plain mem_store settings 20 lamp_id bad_response busy bad_result
      judged

connected : session lamp_id busy ≡ some (record { ref = 0; state = open_session })
unfolding session lookup
connected = refl

taken : (handle_data plain mem_store no_parse 20 lamp_id nonce_1 word busy).0 ≡ ok word
unfolding handle_data accept_data lookup decrypt_packet check_data_nonce
taken = refl

opens : decrypt_packet plain.aead key_a nonce_1 word ≡ ok word
unfolding decrypt_packet
opens = refl

opened : new_session key_a 5 ≡ ok open_session
unfolding new_session
opened = refl

abbrev between : List (ℕ × Bytes × Bytes)
between = (20, key_a, word) ∷ (21, replicate 12 2, []) ∷ []

handle_data_replayed_example :
    (handle_data plain mem_store no_parse 21 lamp_id nonce_1 word (
      receive_packets plain mem_store no_parse lamp_id between
        (handle_data plain mem_store no_parse 20 lamp_id nonce_1 word busy).1)).0
    ≡ err (crypto_failed data_replay)
handle_data_replayed_example =
    handle_data_replayed plain mem_store no_parse 20 21 lamp_id nonce_1 word word word word busy
      (record { ref = 0; state = open_session }) between connected
      (new_session-IsWindow key_a 5 open_session opened) taken (omega arith) opens

answered :
    (handle_msg1 plain mem_store settings 20 word key_a msg1 busy).0
    ≡ ok (record { kem_ciphertext = toy_kem.ciphertext key_a word; gateway_nonce = key_a }, 3)
unfolding handle_msg1 check_and_remember lookup new_replay_guard registered_kem_key get
    unpack_kem_public_key
answered = refl

-- The lamp's third message, and a first message of another device.
abbrev arrivals : List Arrival
arrivals =
    third_comes 21 lamp_id 3 msg3
    ∷ first_comes 22 word key_a (record msg1 { device_id = word })
    ∷ []

guard_times : Between 20 (20 + busy.replay_guard.ttl / 2) (guard_calls arrivals)
unfolding new_replay_guard
guard_times = ((omega arith, omega arith), tt)

guard_time : 30 < 20 + busy.replay_guard.ttl / 2
unfolding new_replay_guard
guard_time = omega arith

handle_msg1_replayed_example :
    let g1 =
      arrive_all plain mem_store no_parse settings arrivals
        (handle_msg1 plain mem_store settings 20 word key_a msg1 busy).1 in
    let r = handle_msg1 plain mem_store settings 30 key_a word msg1 g1 in
    (r.0 ≡ err (crypto_failed replay_detected)) × (r.1.pending_handshake ≡ g1.pending_handshake)
handle_msg1_replayed_example =
    handle_msg1_replayed plain mem_store no_parse settings 20 30 word key_a key_a word msg1 busy
      (record { kem_ciphertext = toy_kem.ciphertext key_a word; gateway_nonce = key_a }, 3) arrivals
      answered guard_times (omega arith) guard_time

shutdown_wipes_all_example :
    let r = shutdown busy in
    (r.0 ≡ length busy.sessions)
    × (r.1.sessions ≡ [])
    × (r.1.pending_handshake ≡ [])
    × ((t : Session) × (lookup 0 r.1.heap ≡ some t) × IsWiped open_session t)
shutdown_wipes_all_example = shutdown_wipes_all lamp_id 0 open_session busy linked live

abbrev rotation : RotationMsgV2
rotation = record { iteration = 1; kem_ciphertext = toy_kem.ciphertext key_a word }

acknowledgement_means_rotated_example :
    let r =
      handle_atomic_rotation_from_device plain mem_store settings key_a 20 lamp_id rotation busy in
    AgreesWith plain mem_store settings key_a rotation lamp_id
      (record { ref = 0; state = open_session })
      r.1
      r.0
acknowledgement_means_rotated_example =
    acknowledgement_means_rotated plain mem_store settings key_a 20 lamp_id rotation busy
      (record { ref = 0; state = open_session }) connected refl refl
