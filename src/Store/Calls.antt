-- ===== src/Store/Calls.antt =====
-- internal/store/store.go: `DeviceStore`, the interface between the gateway and a store. Its
-- methods that write are one type of calls; its laws say what they do to one device's record, in a
-- store whose calls do not fail for reasons of its own, as those of a database can.
use lacert.Prelude.{
  Bytes, List, Option, Result, String, [], err, if◌then◌else◌, list_eq, nat_eq, none, ok, pair_eq,
  some, string_eq, true, ℕ, ◌==◌, ◌∷◌, ◌≡◌,
}
use lacert.Store.Types.{
  DeviceRecord, StoreError, device_not_found, device_exists, TelemetryReading, RotationLogEntry,
  Fetched, active, revoked, missing, or_now,
}

-- One call that may write, with the clock's reading where the method takes one.
pub data StoreCall : Type 0 where
  register_call : ℕ → DeviceRecord → StoreCall
  reregister_call : DeviceRecord → StoreCall
  revoke_call : Bytes → String → StoreCall
  delete_call : Bytes → StoreCall
  event_call : ℕ → Bytes → String → String → StoreCall
  telemetry_call : ℕ → TelemetryReading → StoreCall
  rotation_call : ℕ → RotationLogEntry → StoreCall

-- What one call does to one device, whatever the others are.
unfoldable pub device_step : Bytes → StoreCall → Option DeviceRecord → Option DeviceRecord
device_step id (register_call now rec) none =
    if rec.device_id == id
    then some (record rec { created_at = or_now now rec.created_at })
    else none
device_step id (register_call now rec) (some old) = some old
device_step id (reregister_call rec) none = none
device_step id (reregister_call rec) (some old) =
    if rec.device_id == id
    then some (record rec {
      created_at = old.created_at;
      revoked = old.revoked;
      revoked_reason = old.revoked_reason;
    })
    else some old
device_step id (revoke_call other reason) none = none
device_step id (revoke_call other reason) (some old) =
    if other == id then some (record old { revoked = true; revoked_reason = reason }) else some old
device_step id (delete_call other) o = if other == id then none else o
device_step id (event_call _ _ _ _) o = o
device_step id (telemetry_call _ _) o = o
device_step id (rotation_call _ _) o = o

unfoldable pub device_steps : Bytes → List StoreCall → Option DeviceRecord → Option DeviceRecord
device_steps id [] o = o
device_steps id (c ∷ cs) o = device_steps id cs (device_step id c o)

-- What `Get` returns for a record.
abbrev pub fetched : Option DeviceRecord → Fetched
fetched none = missing
fetched (some rec) = if rec.revoked then revoked rec else active rec

pub record DeviceStore (S : Type 0) : Type 0 where
  pub call : StoreCall → S → Result StoreError (Unit {0}) × S
  pub get : Bytes → S → Fetched
  -- the record of a device, revoked or not
  pub view : Bytes → S → Option DeviceRecord
  pub view-call :
      (id : Bytes) (c : StoreCall) (s : S) → view id (call c s).1 ≡ device_step id c (view id s)
  pub get-view : (id : Bytes) (s : S) → get id s ≡ fetched (view id s)
  pub revoke-answer :
      (id : Bytes) (reason : String) (s : S)
      → (call (revoke_call id reason) s).0
        ≡ elim (view id s) [ none ↦ err device_not_found | some _ ↦ ok tt ]
  pub register-answer :
      (now : ℕ) (rec : DeviceRecord) (s : S)
      → (call (register_call now rec) s).0
        ≡ elim (view rec.device_id s) [ none ↦ ok tt | some _ ↦ err device_exists ]
