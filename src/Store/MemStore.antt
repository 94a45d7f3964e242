-- ===== src/Store/MemStore.antt =====
-- internal/store/memstore.go. A method is one step (the mutex is held throughout); the clock's
-- reading is the argument `now`. Records are copied on the way in and out, so no caller shares one
-- with the store. The counters of type uint wrap at 2^64.
pub mod Queries
pub mod Registry
pub mod Journal
pub mod Kept
pub mod Deletion
use lacert.Prelude.{
  Bool, Bytes, List, Map, Option, Result, String, [], delete, drop, err, false, if◌then◌else◌,
  insert, keep, leb, length, list_eq, lookup, ltb, map, member, nat_eq, none, not, ok, pair_eq,
  reverse, some, string_eq, true, u64_mod, ℕ, ◌%◌, ◌&&◌, ◌++◌, ◌+◌, ◌-◌, ◌==◌, ◌||◌, ◌∷◌,
}
use lacert.Store.Types.{
  or_now, DeviceRecord, StoreError, device_not_found, device_exists, SessionEvent, TelemetryReading,
  RotationLogEntry, TelemetryFilter, Fetched, active, revoked, missing,
}

pub record MemStore : Type 0 where
  pub devices : Map Bytes DeviceRecord
  pub events : List SessionEvent
  pub telemetry : List TelemetryReading
  pub rotations : List RotationLogEntry
  pub next_id : ℕ  -- uint
  pub next_tel_id : ℕ  -- uint
  pub next_rot_id : ℕ  -- uint

abbrev pub max_telemetry_in_memory : ℕ
max_telemetry_in_memory = 100_000

abbrev pub max_events_in_memory : ℕ
max_events_in_memory = 50_000

abbrev pub max_rotations_in_memory : ℕ
max_rotations_in_memory = 50_000

abbrev pub slack : ℕ
slack = 4096

-- The last `limit` items, once there are more than `limit + slack`.
unfoldable pub trim_oldest : {A : Type 0} → List A → ℕ → List A
trim_oldest items limit =
    if leb (length items) (limit + slack) then items else drop (length items - limit) items

abbrev pub new : MemStore
new = record {
  devices = [];
  events = [];
  telemetry = [];
  rotations = [];
  next_id = 0;
  next_tel_id = 0;
  next_rot_id = 0;
}

abbrev pub StoreOp : Type 0
StoreOp = MemStore → Result StoreError (Unit {0}) × MemStore

unfoldable pub reregister : DeviceRecord → StoreOp
reregister rec s = elim (lookup rec.device_id s.devices) [
  | none ↦ (err device_not_found, s)
  | some old ↦
      let cp = record rec {
        created_at = old.created_at;
        revoked = old.revoked;
        revoked_reason = old.revoked_reason;
      } in
      (ok tt, record s { devices = insert rec.device_id cp s.devices })
]

unfoldable pub register : ℕ → DeviceRecord → StoreOp
register now rec s = elim (lookup rec.device_id s.devices) [
  | some _ ↦ (err device_exists, s)
  | none ↦
      let cp = record rec { created_at = or_now now rec.created_at } in
      (ok tt, record s { devices = insert rec.device_id cp s.devices })
]

unfoldable pub get : Bytes → MemStore → Fetched
get device_id s = elim (lookup device_id s.devices) [
  | none ↦ missing
  | some rec ↦ if rec.revoked then revoked rec else active rec
]

unfoldable pub revoke : Bytes → String → StoreOp
revoke device_id reason s = elim (lookup device_id s.devices) [
  | none ↦ (err device_not_found, s)
  | some rec ↦ (
    ok tt,
    record s {
      devices = insert device_id (record rec { revoked = true; revoked_reason = reason }) s.devices;
    },
  )
]

abbrev pub is_other : Bytes → Bytes → Bool
is_other device_id other = not (other == device_id)

unfoldable pub delete_device : Bytes → StoreOp
delete_device device_id s = (
  ok tt,
  record s {
    devices = delete device_id s.devices;
    events = keep (λ e. is_other device_id e.device_id) s.events;
    telemetry = keep (λ t. is_other device_id t.device_id) s.telemetry;
    rotations = keep (λ r. is_other device_id r.device_id) s.rotations;
  },
)

-- In some order: Go's `range` over a map fixes none.
unfoldable pub list : MemStore → List DeviceRecord
list s = map (λ e. e.1) s.devices

unfoldable pub log_event : ℕ → Bytes → String → String → StoreOp
unfolding trim_oldest
log_event now device_id event_type detail s =
    let n = (s.next_id + 1) % u64_mod in
    let e : SessionEvent = record {
      id = n;
      device_id = device_id;
      event_type = event_type;
      detail = detail;
      created_at = now;
    } in
    (
      ok tt,
      record s { next_id = n; events = trim_oldest (s.events ++ e ∷ []) max_events_in_memory },
    )

-- The loops that walk a journal from its newest entry: `skip` is `continue`, and a limit above 0
-- ends the loop once that many entries are collected. The journal comes newest first.
unfoldable pub collect : {A : Type 0} → (A → Bool) → ℕ → List A → List A → List A
collect wanted limit [] out = out
collect wanted limit (e ∷ es) out =
    let out' = out ++ e ∷ [] in
    let go_on = collect wanted limit es out' in
    let skip = collect wanted limit es out in
    if wanted e then (if ltb 0 limit && leb limit (length out') then out' else go_on) else skip

abbrev pub is_empty : {A : Type 0} → List A → Bool
is_empty [] = true
is_empty (_ ∷ _) = false

abbrev pub event_wanted : List String → Bytes → SessionEvent → Bool
event_wanted event_types device_id e =
    (is_empty device_id || e.device_id == device_id)
    && (is_empty event_types || member e.event_type event_types)

unfoldable pub events_by_type : List String → Bytes → ℕ → MemStore → List SessionEvent
unfolding collect
events_by_type event_types device_id limit s =
    collect (event_wanted event_types device_id) limit (reverse s.events) []

unfoldable pub recent_events : Bytes → ℕ → MemStore → List SessionEvent
unfolding collect
recent_events device_id limit s =
    collect (λ e. e.device_id == device_id) limit (reverse s.events) []

unfoldable pub record_telemetry : ℕ → TelemetryReading → StoreOp
unfolding trim_oldest
record_telemetry now reading s =
    let n = (s.next_tel_id + 1) % u64_mod in
    let r = record reading { id = n; received_at = or_now now reading.received_at } in
    (
      ok tt,
      record s {
        next_tel_id = n;
        telemetry = trim_oldest (s.telemetry ++ r ∷ []) max_telemetry_in_memory;
      },
    )

abbrev pub reading_wanted : TelemetryFilter → TelemetryReading → Bool
reading_wanted f r =
    (is_empty f.device_id || r.device_id == f.device_id)
    && not (not (f.since == 0) && ltb r.received_at f.since)
    && not (not (f.until == 0) && ltb f.until r.received_at)

abbrev pub default_query_limit : ℕ
default_query_limit = 50000

-- Collected newest first, then turned round.
unfoldable pub query_telemetry : TelemetryFilter → MemStore → List TelemetryReading
unfolding collect
query_telemetry filter s =
    let limit = if filter.limit == 0 then default_query_limit else filter.limit in
    reverse (collect (reading_wanted filter) limit (reverse s.telemetry) [])

pub latest_from : List TelemetryReading → Map Bytes TelemetryReading → Map Bytes TelemetryReading
latest_from [] out = out
latest_from (t ∷ ts) out = latest_from ts (insert t.device_id t out)

unfoldable pub latest_telemetry_all : MemStore → Map Bytes TelemetryReading
unfolding latest_from
latest_telemetry_all s = latest_from s.telemetry []

-- The first reading of the device in a list.
unfoldable pub first_of_device : Bytes → List TelemetryReading → Option TelemetryReading
first_of_device device_id [] = none
first_of_device device_id (t ∷ ts) =
    let rest = first_of_device device_id ts in if t.device_id == device_id then some t else rest

unfoldable pub latest_telemetry : Bytes → MemStore → Option TelemetryReading
unfolding first_of_device
latest_telemetry device_id s = first_of_device device_id (reverse s.telemetry)

unfoldable pub log_rotation : ℕ → RotationLogEntry → StoreOp
unfolding trim_oldest
log_rotation now entry s =
    let n = (s.next_rot_id + 1) % u64_mod in
    let r = record entry { id = n; created_at = or_now now entry.created_at } in
    (
      ok tt,
      record s {
        next_rot_id = n;
        rotations = trim_oldest (s.rotations ++ r ∷ []) max_rotations_in_memory;
      },
    )

unfoldable pub rotation_history : Bytes → ℕ → MemStore → List RotationLogEntry
unfolding collect
rotation_history device_id limit s =
    collect (λ r. is_empty device_id || r.device_id == device_id) limit (reverse s.rotations) []
