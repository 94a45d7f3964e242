-- ===== src/Examples/ServerRuns.antt =====
-- The theorems on the server, the scheduler and a client at concrete inputs: a server with one lamp on
-- connection 7, and a network that takes every write.
use lacert.Prelude.{
  Bytes, List, [], arith, codes, drop, err, false, list_eq, lookup, nat_eq, none, ok, pair_eq, refl,
  replicate, some, string_eq, true, ℕ, ◌++◌, ◌∷◌, ◌≡◌,
}
use lacert.Examples.Toy.{key_a}
use lacert.Crypto.ControlTag.{compute_control_tag}
use lacert.Crypto.Firmware.{FirmwareCheckResult, verify_firmware_response}
use lacert.Crypto.Signature.{verify_signature}
use lacert.Wire.Field.{take_framed}
use lacert.Store.Types.{firmware_hash_array}
use lacert.Crypto.Messages.{FirmwareResponse}
use lacert.Crypto.Session.{current_key}
use lacert.Wire.Frame.{eof}
use lacert.Wire.MessageType
use lacert.Wire.Messages.{decode_firmware_response}
use lacert.Store.MemStore.{MemStore, get, revoke}
use lacert.Store.MemStore.Registry.{mem_store}
use lacert.Gateway.State.{GatewayError, control_key, session}
use lacert.Gateway.Revocation.{IsCutOff}
use lacert.Gateway.Traffic.{verify_firmware_check}
use lacert.Device.{Device}
use lacert.Device.Channel.{IsInStep}
use lacert.Device.Advance.{IsAdvanced}
use lacert.Transport.Network.{Network, write_frame_with_deadline}
use lacert.Transport.Server.{Server, serving, new_server}
use lacert.Transport.Connection.{Setup, receive, touch}
use lacert.Transport.Requests.{server_initiate_rotation}
use lacert.Transport.Table.{HasTable}
use lacert.Transport.Table.Runs.{
  Event, socket_comes, read_returns, shuts_down, server_run, table_is_consistent,
}
use lacert.Transport.Guards.{
  Delivers, only_accepted_packets_are_delivered, unauthenticated_rotation_is_ignored,
}
use lacert.Transport.Endings.{stale_connection_spares_newer, failed_inspection_disconnects}
use lacert.Transport.Client.{Client, client_send_data, listen_frame, put_frame}
use lacert.Transport.Meets.{text_crosses_the_wire}
use lacert.Transport.Turns.{rotation_crosses_the_wire}
use lacert.Examples.DeviceRuns.{lamp_device, in_step, known}
use lacert.Examples.Fixtures.{plain, settings, no_parse, lamp_id, word, busy}

abbrev pub Log : Type 0
Log = List (ℕ × Bytes)

abbrev pub log_network : Network Log
log_network = record {
  write = λ conn b n. ((conn, b) ∷ n, true);
  close_conn = λ conn n. n;
  remote_addr = λ conn. conn ∷ [];
}

abbrev pub error_text : GatewayError → Bytes
error_text e = codes "refused"

abbrev pub setup : Setup Bytes Bytes MemStore Log
setup = record {
  lib = plain;
  db = mem_store;
  parse = no_parse;
  own_key = key_a;
  settings = settings;
  net = log_network;
  text = error_text;
  limit = 2;
}

abbrev pub lamp_server : Server MemStore Log
lamp_server = record {
  conns = (lamp_id, 7) ∷ [];
  accepted = (7, serving lamp_id (some 0)) ∷ [];
  active = 1;
  next_conn = 8;
  closing = false;
  traffic = record {
    gateway = busy;
    network = [];
    entries = (7, record { remote = word; last_seen = 6 }) ∷ [];
    delivered = [];
  };
}

serves_lamp : lookup 7 lamp_server.accepted ≡ some (serving lamp_id (some 0))
unfolding lookup
serves_lamp = refl

entered : lookup lamp_id lamp_server.conns ≡ some 7
unfolding lookup
entered = refl

keyed : control_key lamp_id lamp_server.traffic.gateway ≡ ok key_a
unfolding control_key session lookup current_key
keyed = refl

abbrev events : List Event
events =
    socket_comes
    ∷ read_returns 12 word key_a 0 (ok (MessageType.packet, word))
    ∷ socket_comes
    ∷ shuts_down
    ∷ []

table_is_consistent_example : HasTable 2 (server_run setup events (new_server busy []))
table_is_consistent_example = table_is_consistent setup events busy []

only_accepted_packets_are_delivered_example :
    Delivers setup 12 7
      (ok (MessageType.packet, word))
      lamp_server
      (receive setup 12 word key_a 7 (ok (MessageType.packet, word)) lamp_server)
only_accepted_packets_are_delivered_example =
    only_accepted_packets_are_delivered setup 12 word key_a 7 (ok (MessageType.packet, word))
      lamp_server

unauthenticated_rotation_is_ignored_example :
    let seen = record lamp_server { traffic = touch setup 12 7 lamp_server.traffic } in
    (receive setup 12 word key_a 7
        (ok (MessageType.rotation_v2, replicate 10 0 ++ replicate 16 1))
        lamp_server
      ≡ seen)
    × (receive setup 12 word key_a 7 (ok (MessageType.rotation, word)) lamp_server ≡ seen)
unfolding compute_control_tag
unauthenticated_rotation_is_ignored_example =
    unauthenticated_rotation_is_ignored setup 12 word key_a 7 lamp_id (replicate 10 0)
      (replicate 16 1) word key_a (some 0) lamp_server serves_lamp keyed refl (omega arith)
      (λ e. cc e)

-- The lamp has connected again, on connection 9 and with session 0, before its connection 7 ends.
abbrev pub twice : Server MemStore Log
twice = record lamp_server {
  conns = (lamp_id, 9) ∷ [];
  accepted = (7, serving lamp_id (some 3)) ∷ (9, serving lamp_id (some 0)) ∷ [];
  active = 2;
  next_conn = 10;
}

stale_connection_spares_newer_example :
    let s' = receive setup 12 word key_a 7 (err eof) twice in
    (lookup lamp_id s'.conns ≡ some 9)
    × (lookup 9 s'.accepted ≡ lookup 9 twice.accepted)
    × (s'.traffic.gateway ≡ twice.traffic.gateway)
    × (lookup 7 s'.accepted ≡ none)
unfolding lookup
stale_connection_spares_newer_example =
    stale_connection_spares_newer setup 12 word key_a lamp_id 7 9 3 0 eof twice refl refl refl refl
      refl

abbrev bad_response : FirmwareResponse
bad_response = record { firmware_hash = replicate 32 0; signature = [] }

abbrev bad_payload : Bytes
bad_payload = replicate 32 0 ++ 0 ∷ 0 ∷ []

abbrev bad_result : FirmwareCheckResult
bad_result = record { signature_valid = false; hash_matches = false }

read_response : decode_firmware_response bad_payload ≡ ok bad_response
unfolding decode_firmware_response take_framed
read_response = refl

judged :
    (verify_firmware_check plain mem_store settings 12 lamp_id bad_response busy).0 ≡ ok bad_result
unfolding verify_firmware_check lookup get firmware_hash_array verify_firmware_response
    verify_signature revoke
judged = refl

failed_inspection_disconnects_example :
    let s' =
      receive setup 12 word key_a 7 (ok (MessageType.firmware_response, bad_payload)) lamp_server in
    (lookup 7 s'.accepted ≡ none) × IsCutOff mem_store lamp_id s'.traffic.gateway
failed_inspection_disconnects_example =
    failed_inspection_disconnects setup 12 word key_a 7 lamp_id bad_payload (some 0) bad_response
      bad_result lamp_server serves_lamp read_response judged refl

abbrev lamp_client : Client Bytes Bytes Log
lamp_client = record { dev = lamp_device; network = [] }

-- A setup whose sealing adds 16 bytes.
abbrev tagged : Setup Bytes Bytes MemStore Log
tagged = record setup {
  lib = record plain {
    aead = record {
      seal = λ k n p. replicate 16 0 ++ p;
      open_sealed = λ k n ct. some (drop 16 ct);
    };
  };
}

text_crosses_the_wire_example :
    (payload : Bytes) × (d' : Device Bytes Bytes) × (client_send_data tagged.lib log_network 3
        (replicate 8 1)
        word
        lamp_client
      ≡ put_frame tagged.lib log_network 3 MessageType.packet
          (ok payload)
          (record lamp_client { dev = d' }))
    × (let s' = receive tagged 12 word key_a 7 (ok (MessageType.packet, payload)) lamp_server in
        (s'.traffic.delivered ≡ (lamp_id, word) ∷ lamp_server.traffic.delivered)
        × (s'.accepted ≡ lamp_server.accepted)
        × IsInStep d' s'.traffic.gateway)
unfolding in_step
text_crosses_the_wire_example =
    text_crosses_the_wire tagged 12 (replicate 8 1) word word key_a 3 7 (some 0) lamp_client
      lamp_server in_step serves_lamp (λ k n p. refl) (λ k n p. omega arith) refl (omega arith)
      (omega arith)

rotation_crosses_the_wire_example :
    let s1 = (server_initiate_rotation setup 20 word lamp_id lamp_server).1 in
    (payload answer : Bytes) × (s1.traffic.network
      ≡ (write_frame_with_deadline log_network 7 MessageType.rotation_v2 payload []).0)
    × (let heard =
          listen_frame plain log_network 3 21 (ok (MessageType.rotation_v2, payload)) lamp_client in
        (heard ≡ (
          ok tt,
          (put_frame plain log_network 3 MessageType.rotation_ack
              (ok answer)
              (record lamp_client { dev = heard.1.dev })).1,
        ))
        × (let s2 = receive setup 22 key_a key_a 7 (ok (MessageType.rotation_ack, answer)) s1 in
            IsAdvanced plain
              (plain.kem.shared_key (replicate 1568 0) word)
              in_step
              heard.1.dev
              s2.traffic.gateway))
rotation_crosses_the_wire_example =
    rotation_crosses_the_wire setup 20 21 22 word key_a key_a 3 7 (some 0) lamp_client lamp_server
      in_step entered serves_lamp known (λ seed. refl)
