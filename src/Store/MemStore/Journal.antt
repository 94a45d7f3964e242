-- ===== src/Store/MemStore/Journal.antt =====
-- How long the journals get, and what trimming keeps.
use lacert.Prelude.{
  Bool-cases, Bytes, List, String, [], arith, inl, inr, leb, leb→le, length, length-drop,
  length-keep, refl, take, take-append-drop, u64_mod, ℕ, ◌%◌, ◌++◌, ◌+◌, ◌-◌, ◌<◌, ◌∷◌, ◌≡◌, ◌≤◌,
}
use lacert.Store.Types.{or_now, DeviceRecord}
use lacert.Store.MemStore.{
  MemStore, is_other, trim_oldest, slack, max_events_in_memory, max_telemetry_in_memory,
  max_rotations_in_memory, new, register, reregister, revoke, delete_device, log_event,
  record_telemetry, log_rotation,
}
use lacert.Store.Calls.{
  StoreCall, register_call, reregister_call, revoke_call, delete_call, event_call, telemetry_call,
  rotation_call,
}
use lacert.Store.MemStore.Registry.{perform, perform_all}

module _ {A : Type 0} where
  -- Trimming drops from the old end only, and not below the limit; it leaves `limit + slack` at most.
  pub trim_oldest-keeps_newest :
      (items : List A) (limit : ℕ)
      → (dropped : ℕ) × (take dropped items ++ trim_oldest items limit ≡ items)
        × (length (trim_oldest items limit) ≤ limit + slack)
        × (0 < dropped → length (trim_oldest items limit) ≡ limit)
  unfolding trim_oldest
  trim_oldest-keeps_newest items limit = elim (Bool-cases (leb (length items) (limit + slack))) [
    | inl e ↦ rw e (0, refl, leb→le _ _ e, λ h. absurd (omega arith))
    | inr e ↦
        let long : limit + slack < length items = ground arith in
        let size = length-drop (length items - limit) items in
        rw e (
          length items - limit,
          take-append-drop _ items,
          omega (arith, size, long),
          λ h. omega (arith, size, long),
        )
  ]

  length-trim_oldest :
      (items : List A) (limit : ℕ) → length (trim_oldest items limit) ≤ limit + slack
  length-trim_oldest items limit = let (_, _, h, _) = trim_oldest-keeps_newest items limit in h

-- No journal is longer than its limit and the slack.
pub record IsBounded (s : MemStore) : Type 0 where
  pub events_bound : length s.events ≤ max_events_in_memory + slack
  pub telemetry_bound : length s.telemetry ≤ max_telemetry_in_memory + slack
  pub rotations_bound : length s.rotations ≤ max_rotations_in_memory + slack

abbrev HasSameJournals : MemStore → MemStore → Type 0
HasSameJournals s s' =
    (s'.events ≡ s.events) × (s'.telemetry ≡ s.telemetry) × (s'.rotations ≡ s.rotations)

same-IsBounded : (s s' : MemStore) → HasSameJournals s s' → IsBounded s → IsBounded s'
same-IsBounded s s' (e, t, r) b = record {
  events_bound = rw e b.events_bound;
  telemetry_bound = rw t b.telemetry_bound;
  rotations_bound = rw r b.rotations_bound;
}

register-HasSameJournals :
    (now : ℕ) (rec : DeviceRecord) (s : MemStore) → HasSameJournals s (register now rec s).1
unfolding register
register-HasSameJournals now rec s = (ground arith, ground arith, ground arith)

reregister-HasSameJournals :
    (rec : DeviceRecord) (s : MemStore) → HasSameJournals s (reregister rec s).1
unfolding reregister
reregister-HasSameJournals rec s = (ground arith, ground arith, ground arith)

revoke-HasSameJournals :
    (id : Bytes) (reason : String) (s : MemStore) → HasSameJournals s (revoke id reason s).1
unfolding revoke
revoke-HasSameJournals id reason s = (ground arith, ground arith, ground arith)

perform-IsBounded : (c : StoreCall) (s : MemStore) → IsBounded s → IsBounded (perform c s).1
unfolding log_event record_telemetry log_rotation delete_device
perform-IsBounded (register_call now rec) s b =
    same-IsBounded s _ (register-HasSameJournals now rec s) b
perform-IsBounded (reregister_call rec) s b =
    same-IsBounded s _ (reregister-HasSameJournals rec s) b
perform-IsBounded (revoke_call id reason) s b =
    same-IsBounded s _ (revoke-HasSameJournals id reason s) b
perform-IsBounded (delete_call id) s b = record {
  events_bound = omega (arith, b.events_bound, length-keep (λ e. is_other id e.device_id) s.events);
  telemetry_bound =
      omega (arith, b.telemetry_bound, length-keep (λ t. is_other id t.device_id) s.telemetry);
  rotations_bound =
      omega (arith, b.rotations_bound, length-keep (λ r. is_other id r.device_id) s.rotations);
}
perform-IsBounded (event_call now id event_type detail) s b = record {
  events_bound =
      length-trim_oldest
        (s.events
          ++ (record {
            id = (s.next_id + 1) % u64_mod;
            device_id = id;
            event_type = event_type;
            detail = detail;
            created_at = now;
          })
            ∷ [])
        max_events_in_memory;
  telemetry_bound = b.telemetry_bound;
  rotations_bound = b.rotations_bound;
}
perform-IsBounded (telemetry_call now reading) s b = record {
  events_bound = b.events_bound;
  telemetry_bound =
      length-trim_oldest
        (s.telemetry
          ++ (record reading {
            id = (s.next_tel_id + 1) % u64_mod;
            received_at = or_now now reading.received_at;
          })
            ∷ [])
        max_telemetry_in_memory;
  rotations_bound = b.rotations_bound;
}
perform-IsBounded (rotation_call now entry) s b = record {
  events_bound = b.events_bound;
  telemetry_bound = b.telemetry_bound;
  rotations_bound =
      length-trim_oldest
        (s.rotations
          ++ (record entry {
            id = (s.next_rot_id + 1) % u64_mod;
            created_at = or_now now entry.created_at;
          })
            ∷ [])
        max_rotations_in_memory;
}

perform_all-IsBounded :
    (cs : List StoreCall) (s : MemStore) → IsBounded s → IsBounded (perform_all cs s)
unfolding perform_all
perform_all-IsBounded [] s b = b
perform_all-IsBounded (c ∷ cs) s b =
    perform_all-IsBounded cs (perform c s).1 (perform-IsBounded c s b)

-- Whatever calls are made on a new store, its journals stay within their limits and the slack.
pub journals_do_not_overflow : (cs : List StoreCall) → IsBounded (perform_all cs new)
journals_do_not_overflow cs = perform_all-IsBounded cs new (record {
  events_bound = omega arith;
  telemetry_bound = omega arith;
  rotations_bound = omega arith;
})
