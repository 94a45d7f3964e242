-- ===== src/Examples/DeviceRuns.antt =====
-- The theorems on a device and the gateway at concrete inputs: one lamp that shakes hands, sends two
-- packets, rotates its key on either side's initiative and is inspected.
use lacert.Prelude.{
  Bytes, IsBytes, List, Option, [], arith, codes, false, list_beq_iff, list_eq, lookup, nat_eq,
  none, ok, pair_eq, refl, replicate, some, string_eq, suc, true, zero, ℕ, ◌++◌, ◌<◌, ◌==◌, ◌∷◌,
  ◌≡◌,
}
use lacert.Examples.Toy.{key_a, open_session}
use lacert.Crypto.Messages.{HandshakeMsg2, RotationMsgV2, RotationAck, FirmwareResponse}
use lacert.Crypto.Session.{derive_k0, new_session}
use lacert.Crypto.Signature.{ed25519, sign, IsKeyOf, public_key_bytes}
use lacert.Crypto.Kem.{unpack_kem_public_key, kem_public_key_bytes, decapsulate}
use lacert.Crypto.Handshake.{
  build_msg2, build_msg3, transcript_of, msg1_bytes, msg2_bytes, confirmation_value,
  new_handshake_msg1,
}
use lacert.Crypto.Firmware.{respond_to_firmware_challenge}
use lacert.Crypto.ReplayGuard.{check_and_remember, new_replay_guard}
use lacert.Store.Types.{active, firmware_hash_array}
use lacert.Store.MemStore.{MemStore, get}
use lacert.Store.MemStore.Registry.{mem_store}
use lacert.Gateway.State.{Gateway, session}
use lacert.Gateway.Handshakes.{handle_msg1, handle_msg3, registered_kem_key}
use lacert.Gateway.Rotations.{handle_atomic_rotation_from_device}
use lacert.Gateway.Revocation.{IsCutOff}
use lacert.Gateway.Traffic.{issue_firmware_challenge, verify_firmware_check}
use lacert.Device.{
  serial_registration_output, Device, start_handshake, complete_handshake, initiate_atomic_rotation,
  apply_rotation_ack_from_gateway, firmware_hash, respond_firmware_challenge,
}
use lacert.Device.Channel.{IsInStep}
use lacert.Device.Packets.{exchange_all, texts_of, every_packet_arrives}
use lacert.Device.Enrolment.{IsPrepared, printed_line_enrols}
use lacert.Regtool.{SerialOutput, parse, to_line}
use lacert.Gateway.Registration.{register_device, valid_device_id, all_id_chars}
use lacert.Crypto.Signature.{validate_identity_public_key, check_key}
use lacert.Store.MemStore.{new}
use lacert.Device.Standing.{IsEnrolled}
use lacert.Device.Greeting.{handshake_succeeds}
use lacert.Device.Advance.{IsAdvanced}
use lacert.Device.Steps.{device_rotation_completes}
use lacert.Device.Inspection.{inspection_decides}
use lacert.Examples.Fixtures.{plain, settings, no_parse, lamp_id, word, lamp, msg1, msg3, busy}

abbrev own_signature : Bytes → Option Bytes
own_signature m = some m

abbrev pub lamp_device : Device Bytes Bytes
lamp_device = record {
  id = lamp_id;
  identity = record { algorithm = ed25519; public_key = key_a; sign_raw = own_signature };
  kem = record { public_key = replicate 1568 0; private_key = key_a };
  firmware_image = word;
  session = some open_session;
  gateway_kem = some key_a;
}

enrolled : IsEnrolled plain mem_store lamp_device busy
unfolding lookup get IsKeyOf kem_public_key_bytes
enrolled = record {
  rec = lamp;
  found = refl;
  scheme = refl;
  signing = refl;
  sealing = refl;
  unpacks = refl;
  pair = λ seed. refl;
  owned = (refl, λ m s h. ground (arith, list_beq_iff m s));
}

unfoldable pub in_step : IsInStep lamp_device busy
unfolding session lookup
in_step = record {
  near = open_session;
  far = record { ref = 0; state = open_session };
  held = refl;
  linked = refl;
  ready = record {
    gateway_sizes = (refl, refl);
    device_sizes = (refl, refl);
    opened = (refl, refl);
    idle = (refl, refl);
    level = (refl, refl);
  };
  window = record { same = λ id. refl; distinct = tt; distinct_set = tt; bounded = omega arith };
  numbered = tt;
}

abbrev packets : List (ℕ × Bytes × Bytes)
packets = (20, replicate 8 1, word) ∷ (21, replicate 8 1, []) ∷ []

every_packet_arrives_example :
    (d' : Device Bytes Bytes) × (g' : Gateway MemStore) × IsInStep d' g'
    × (exchange_all plain mem_store no_parse packets lamp_device busy
        ≡ some (texts_of plain mem_store no_parse packets, d', g'))
unfolding in_step
every_packet_arrives_example =
    every_packet_arrives plain mem_store no_parse packets lamp_device busy in_step (λ k n p. refl)
      ((refl, omega arith), ((refl, omega arith), tt)) (omega arith)

abbrev answer_to_lamp : HandshakeMsg2
answer_to_lamp = (build_msg2 plain.hash plain.sig plain.kem (replicate 1568 0) word key_a).0

begun : start_handshake plain key_a lamp_device ≡ ok msg1
unfolding start_handshake public_key_bytes new_handshake_msg1
begun = refl

answered : (handle_msg1 plain mem_store settings 12 word key_a msg1 busy).0 ≡ ok (answer_to_lamp, 3)
unfolding handle_msg1 check_and_remember registered_kem_key lookup new_replay_guard get
    unpack_kem_public_key
answered = refl

completed : (complete_handshake plain 13 msg1 answer_to_lamp lamp_device).0 ≡ ok msg3
unfolding complete_handshake build_msg3 decapsulate build_msg2 transcript_of msg1_bytes msg2_bytes
    sign new_session derive_k0 confirmation_value
completed = refl

handshake_succeeds_example :
    let g1 = (handle_msg1 plain mem_store settings 12 word key_a msg1 busy).1 in
    let d1 = (complete_handshake plain 13 msg1 answer_to_lamp lamp_device).1 in
    let r = handle_msg3 plain mem_store settings 14 lamp_id 3 msg3 g1 in
    (r.0 ≡ ok tt) × (h : IsInStep d1 r.1) × (h.near.packet_count ≡ 0) × (h.near.iteration ≡ 0)
handshake_succeeds_example =
    handshake_succeeds plain mem_store settings 12 13 14 key_a word key_a lamp_device busy msg1
      answer_to_lamp 3 msg3 enrolled begun answered completed (omega arith)

pub known : registered_kem_key plain mem_store settings lamp_id busy ≡ ok (replicate 1568 0)
unfolding registered_kem_key unpack_kem_public_key get lookup
known = refl

device_rotation_completes_example :
    let begun = initiate_atomic_rotation plain 20 word lamp_device in
    (msg : RotationMsgV2) × (ack : RotationAck) × (begun.0 ≡ ok msg)
    × (let answered =
          handle_atomic_rotation_from_device plain mem_store settings key_a 21 lamp_id msg busy in
        let ended = apply_rotation_ack_from_gateway 22 ack begun.1 in
        (answered.0 ≡ ok ack)
        × (ended.0 ≡ ok tt)
        × IsAdvanced plain (plain.kem.shared_key key_a word) in_step ended.1 answered.1)
device_rotation_completes_example =
    device_rotation_completes plain mem_store settings 20 21 22 word key_a key_a lamp_device busy
      in_step refl (λ seed. refl)

expected : firmware_hash_array lamp ≡ ok key_a
unfolding firmware_hash_array
expected = refl

-- The lamp's older challenge has run out.
challenged :
    (issue_firmware_challenge plain mem_store settings 40000000000 word lamp_id busy).0 ≡ ok word
unfolding issue_firmware_challenge get lookup
challenged = refl

abbrev response : FirmwareResponse
response = record { firmware_hash = key_a; signature = word ++ key_a }

responded : respond_firmware_challenge plain word lamp_device ≡ ok response
unfolding respond_firmware_challenge respond_to_firmware_challenge sign
responded = refl

inspection_decides_example :
    let g1 = (issue_firmware_challenge plain mem_store settings 40000000000 word lamp_id busy).1 in
    let r = verify_firmware_check plain mem_store settings 40000000007 lamp_id response g1 in
    let intact = firmware_hash plain lamp_device == key_a in
    (r.0 ≡ ok (record { signature_valid = true; hash_matches = intact }))
    × (intact ≡ true
        → (r.1.sessions ≡ busy.sessions) × (mem_store.get lamp_id r.1.store ≡ active lamp))
    × (intact ≡ false → IsCutOff mem_store lamp_id r.1)
unfolding enrolled
inspection_decides_example =
    inspection_decides plain mem_store settings 40000000000 40000000007 word word key_a lamp_device
      busy response enrolled expected challenged responded (omega arith)

abbrev new_device : Device Bytes Bytes
new_device = record lamp_device { id = codes "lamp-1"; session = none }

abbrev empty_gateway : Gateway MemStore
empty_gateway = record busy { store = new; sessions = []; heap = [] }

IsBytes-replicate : (n b : ℕ) → b < 256 → IsBytes (replicate n b)
IsBytes-replicate zero b h = tt
IsBytes-replicate (suc n) b h = (h, IsBytes-replicate n b h)

prepared : IsPrepared plain mem_store new_device
unfolding valid_device_id all_id_chars validate_identity_public_key check_key IsKeyOf firmware_hash
prepared = record {
  id_valid = refl;
  signing_bytes = IsBytes-replicate 32 7 (omega arith);
  signing_valid = refl;
  sealing_bytes = IsBytes-replicate 1568 0 (omega arith);
  unpacks = refl;
  hash_bytes = IsBytes-replicate 32 7 (omega arith);
  pair = λ seed. refl;
  owned = (refl, λ m s h. ground (arith, list_beq_iff m s));
}

printed_line_enrols_example :
    (s : SerialOutput) × (serial_registration_output plain new_device ≡ ok s)
    × (parse (to_line s) ≡ ok s)
    × (let r = register_device plain mem_store 50 s ed25519 empty_gateway in
        (r.0 ≡ ok tt) × IsEnrolled plain mem_store new_device r.1)
unfolding lookup
printed_line_enrols_example =
    printed_line_enrols plain mem_store 50 new_device empty_gateway prepared refl
