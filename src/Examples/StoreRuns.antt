-- ===== src/Examples/StoreRuns.antt =====
-- The theorems on the store at concrete inputs.
use lacert.Prelude.{
  Bytes, List, [], keep, list_eq, lookup, nat_eq, pair_eq, reverse, string_eq, take, true, ◌==◌,
  ◌||◌, ◌∷◌, ◌≡◌,
}
use lacert.Examples.Toy.{key_a}
use lacert.Crypto.Signature.{ed25519}
use lacert.Store.Types.{DeviceRecord, TelemetryFilter, TelemetryReading}
use lacert.Store.MemStore.{
  MemStore, new, default_query_limit, events_by_type, recent_events, rotation_history,
  query_telemetry, event_wanted, reading_wanted, is_empty, delete_device,
}
use lacert.Store.MemStore.Queries.{cap, queries_select_newest}
use lacert.Store.Calls.{StoreCall, register_call, reregister_call, event_call, device_steps}
use lacert.Store.MemStore.Registry.{perform_all, devices_evolve_separately}
use lacert.Store.MemStore.Journal.{IsBounded, journals_do_not_overflow}
use lacert.Store.MemStore.Deletion.{Question, trace, no_trace, deletion_is_complete}

abbrev lamp_id : Bytes
lamp_id = 1 ∷ []

abbrev lamp : DeviceRecord
lamp = record {
  device_id = lamp_id;
  sig_algorithm = ed25519;
  identity_pub = [];
  kem_pub = [];
  firmware_hash = key_a;
  revoked = true;
  revoked_reason = "lost";
  created_at = 3;
}

abbrev reading : TelemetryReading
reading = record { id = 1; device_id = lamp_id; raw_payload = []; parsed = []; received_at = 4 }

abbrev one_lamp : MemStore
one_lamp = record new { devices = (lamp_id, lamp) ∷ []; telemetry = reading ∷ [] }

abbrev calls : List StoreCall
calls = register_call 9 lamp ∷ event_call 9 lamp_id "handshake_ok" "" ∷ reregister_call lamp ∷ []

abbrev every_reading : TelemetryFilter
every_reading = record { device_id = []; since = 0; until = 0; limit = 0 }

devices_evolve_separately_example :
    lookup lamp_id (perform_all calls one_lamp).devices
    ≡ device_steps lamp_id calls (lookup lamp_id one_lamp.devices)
devices_evolve_separately_example = devices_evolve_separately lamp_id calls one_lamp

journals_do_not_overflow_example : IsBounded (perform_all calls new)
journals_do_not_overflow_example = journals_do_not_overflow calls

queries_select_newest_example :
    (events_by_type [] lamp_id 2 one_lamp
      ≡ cap 2 (keep (event_wanted [] lamp_id) (reverse one_lamp.events)))
    × (recent_events lamp_id 2 one_lamp
        ≡ cap 2 (keep (λ e. e.device_id == lamp_id) (reverse one_lamp.events)))
    × (rotation_history lamp_id 2 one_lamp
        ≡ cap 2
            (keep (λ r. is_empty lamp_id || r.device_id == lamp_id) (reverse one_lamp.rotations)))
    × (query_telemetry every_reading one_lamp
        ≡ reverse (
            take default_query_limit
              (keep (reading_wanted every_reading) (reverse one_lamp.telemetry))))
queries_select_newest_example = queries_select_newest one_lamp [] lamp_id 2 every_reading

abbrev question : Question
question = record { event_types = []; since = 1; until = 20; limit = 5 }

deletion_is_complete_example : trace lamp_id question (delete_device lamp_id one_lamp).1 ≡ no_trace
deletion_is_complete_example = deletion_is_complete lamp_id 1 [] question one_lamp
