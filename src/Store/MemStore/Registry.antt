-- ===== src/Store/MemStore/Registry.antt =====
-- The registry of devices under any sequence of the store's writing calls.
use lacert.Prelude.{
  Bool, Bool-cases, Bytes, List, Map, Option, Option-cases, String, [], arith, err, false,
  if◌then◌else◌, inl, inr, insert, list_beq_iff, list_eq, lookup, lookup-delete, lookup-insert,
  nat_eq, none, ok, pair_eq, refl, some, string_eq, true, ℕ, ◌==◌, ◌∷◌, ◌≡◌,
}
use lacert.Store.Types.{or_now, DeviceRecord, StoreError, device_not_found, device_exists, revoked}
use lacert.Store.Calls.{
  StoreCall, register_call, reregister_call, revoke_call, delete_call, event_call, telemetry_call,
  rotation_call, device_step, device_steps, DeviceStore, fetched,
}
use lacert.Store.MemStore.{
  MemStore, StoreOp, reregister, register, get, revoke, delete_device, log_event, record_telemetry,
  log_rotation,
}

abbrev pub perform : StoreCall → StoreOp
perform (register_call now rec) = register now rec
perform (reregister_call rec) = reregister rec
perform (revoke_call id reason) = revoke id reason
perform (delete_call id) = delete_device id
perform (event_call now id event_type detail) = log_event now id event_type detail
perform (telemetry_call now reading) = record_telemetry now reading
perform (rotation_call now entry) = log_rotation now entry

unfoldable pub perform_all : List StoreCall → MemStore → MemStore
perform_all [] s = s
perform_all (c ∷ cs) s = perform_all cs (perform c s).1

-- The call deletes the device.
abbrev pub deletes : Bytes → StoreCall → Bool
deletes id (delete_call other) = other == id
deletes id _ = false

lookup-same :
    (k id : Bytes) (m : Map Bytes DeviceRecord) → (k == id) ≡ true → lookup id m ≡ lookup k m
lookup-same k id m same = let e = (list_beq_iff k id).0 same in rw e refl

-- A record changed in place, if there is one.
abbrev change :
    Bytes → (DeviceRecord → DeviceRecord) → Map Bytes DeviceRecord → Map Bytes DeviceRecord
change k f m = elim (lookup k m) [ none ↦ m | some old ↦ insert k (f old) m ]

abbrev changed : Bool → (DeviceRecord → DeviceRecord) → Option DeviceRecord → Option DeviceRecord
changed same f none = none
changed same f (some old) = if same then some (f old) else some old

lookup-change :
    (k id : Bytes) (f : DeviceRecord → DeviceRecord) (m : Map Bytes DeviceRecord)
    → lookup id (change k f m) ≡ changed (k == id) f (lookup id m)
lookup-change k id f m = elim (Option-cases (lookup k m)) [
  | inl e ↦
      rw (change, e)
        (elim (Bool-cases (k == id)) [
          | inl same ↦ rw (lookup-same k id m same, e) refl
          | inr other ↦
              rw other (elim (Option-cases (lookup id m)) [
                | inl e' ↦ rw e' refl
                | inr (r, e') ↦ rw e' refl
              ])
        ])
  | inr (old, e) ↦
      rw (change, e, lookup-insert k id (f old) m)
        (elim (Bool-cases (k == id)) [
          | inl same ↦ rw (lookup-same k id m same, same, e) refl
          | inr other ↦
              rw other (elim (Option-cases (lookup id m)) [
                | inl e' ↦ rw e' refl
                | inr (r, e') ↦ rw e' refl
              ])
        ])
]

pub lookup-perform :
    (id : Bytes) (c : StoreCall) (s : MemStore)
    → lookup id (perform c s).1.devices ≡ device_step id c (lookup id s.devices)
unfolding device_step
lookup-perform id (register_call now rec) s =
    unfold register in
    ground (
      arith,
      lookup-insert rec.device_id id (record rec { created_at = or_now now rec.created_at })
          s.devices,
      list_beq_iff rec.device_id id,
    )
lookup-perform id (reregister_call rec) s =
    unfold reregister in
    ground (
      arith,
      lookup-change rec.device_id id
          (λ old. record rec {
            created_at = old.created_at;
            revoked = old.revoked;
            revoked_reason = old.revoked_reason;
          })
          s.devices,
    )
lookup-perform id (revoke_call other reason) s =
    unfold revoke in
    ground (
      arith,
      lookup-change other id (λ old. record old { revoked = true; revoked_reason = reason })
          s.devices,
    )
lookup-perform id (delete_call other) s = unfold delete_device in lookup-delete other id s.devices
lookup-perform id (event_call now other event_type detail) s = unfold log_event in refl
lookup-perform id (telemetry_call now reading) s = unfold record_telemetry in refl
lookup-perform id (rotation_call now entry) s = unfold log_rotation in refl

-- Whatever calls are made, the record of each device afterwards follows from its record before and
-- from what each call does to that one device: the registry is a family of separate devices.
pub devices_evolve_separately :
    (id : Bytes) (cs : List StoreCall) (s : MemStore)
    → lookup id (perform_all cs s).devices ≡ device_steps id cs (lookup id s.devices)
unfolding perform_all device_steps
devices_evolve_separately id [] s = refl
devices_evolve_separately id (c ∷ cs) s =
    rw (← lookup-perform id c s) (devices_evolve_separately id cs (perform c s).1)

-- Why the store refuses a call, if it does.
pub refusal : StoreCall → MemStore → Option StoreError
refusal (register_call now rec) s = elim (lookup rec.device_id s.devices) [
  | none ↦ none
  | some _ ↦ some device_exists
]
refusal (reregister_call rec) s = elim (lookup rec.device_id s.devices) [
  | none ↦ some device_not_found
  | some _ ↦ none
]
refusal (revoke_call id reason) s = elim (lookup id s.devices) [
  | none ↦ some device_not_found
  | some _ ↦ none
]
refusal _ s = none

abbrev pub Answers : Option StoreError → StoreCall → MemStore → Type 0
Answers none c s = (perform c s).0 ≡ ok tt
Answers (some e) c s = perform c s ≡ (err e, s)

-- A call is refused exactly for a registration of an id that is taken, or a re-registration or a
-- revocation of one that is not; and a refused call leaves the store as it was.
pub refused_call_changes_nothing : (c : StoreCall) (s : MemStore) → Answers (refusal c s) c s
unfolding refusal
refused_call_changes_nothing (register_call now rec) s =
    unfold register in
    elim (Option-cases (lookup rec.device_id s.devices)) [
      | inl e ↦ rw (e, Answers, perform, register, e) refl
      | inr (r, e) ↦ rw (e, Answers, perform, register, e) refl
    ]
refused_call_changes_nothing (reregister_call rec) s =
    unfold reregister in
    elim (Option-cases (lookup rec.device_id s.devices)) [
      | inl e ↦ rw (e, Answers, perform, reregister, e) refl
      | inr (r, e) ↦ rw (e, Answers, perform, reregister, e) refl
    ]
refused_call_changes_nothing (revoke_call id reason) s =
    unfold revoke in
    elim (Option-cases (lookup id s.devices)) [
      | inl e ↦ rw (e, Answers, perform, revoke, e) refl
      | inr (r, e) ↦ rw (e, Answers, perform, revoke, e) refl
    ]
refused_call_changes_nothing (delete_call id) s = unfold delete_device in refl
refused_call_changes_nothing (event_call now id event_type detail) s = unfold log_event in refl
refused_call_changes_nothing (telemetry_call now reading) s = unfold record_telemetry in refl
refused_call_changes_nothing (rotation_call now entry) s = unfold log_rotation in refl

abbrev IsRevokedSince : ℕ → Option DeviceRecord → Type 0
IsRevokedSince created o =
    (rec : DeviceRecord) × (o ≡ some rec) × (rec.revoked ≡ true) × (rec.created_at ≡ created)

abbrev deletes_none : Bytes → List StoreCall → Bool
deletes_none id [] = true
deletes_none id (c ∷ cs) = if deletes id c then false else deletes_none id cs

step-IsRevokedSince :
    (id : Bytes) (created : ℕ) (c : StoreCall) (rec : DeviceRecord)
    → rec.revoked ≡ true
    → rec.created_at ≡ created
    → deletes id c ≡ false
    → IsRevokedSince created (device_step id c (some rec))
unfolding device_step
step-IsRevokedSince id created (register_call now r) rec h t d = (rec, refl, h, t)
step-IsRevokedSince id created (reregister_call r) rec h t d =
    elim (Bool-cases (r.device_id == id)) [
      | inl e ↦ rw e (_, refl, h, t)
      | inr e ↦ rw e (rec, refl, h, t)
    ]
step-IsRevokedSince id created (revoke_call other reason) rec h t d =
    elim (Bool-cases (other == id)) [
      | inl e ↦ rw e (_, refl, refl, t)
      | inr e ↦ rw e (rec, refl, h, t)
    ]
step-IsRevokedSince id created (delete_call other) rec h t d = rw d (rec, refl, h, t)
step-IsRevokedSince id created (event_call _ _ _ _) rec h t d = (rec, refl, h, t)
step-IsRevokedSince id created (telemetry_call _ _) rec h t d = (rec, refl, h, t)
step-IsRevokedSince id created (rotation_call _ _) rec h t d = (rec, refl, h, t)

steps-IsRevokedSince :
    (id : Bytes) (created : ℕ) (cs : List StoreCall) (o : Option DeviceRecord)
    → IsRevokedSince created o
    → deletes_none id cs ≡ true
    → IsRevokedSince created (device_steps id cs o)
unfolding device_steps
steps-IsRevokedSince id created [] o h d = h
steps-IsRevokedSince id created (c ∷ cs) o (rec, e, h, t) d =
    let kept : deletes id c ≡ false = ground arith in
    rw e (
      steps-IsRevokedSince id created cs _ (step-IsRevokedSince id created c rec h t kept)
        (ground arith))

-- A revoked device stays revoked, and keeps its creation time, whatever calls follow, unless one of
-- them deletes it: registering it again does not bring it back.
pub revocation_is_final :
    (id : Bytes) (cs : List StoreCall) (s : MemStore) (rec : DeviceRecord)
    → lookup id s.devices ≡ some rec
    → rec.revoked ≡ true
    → deletes_none id cs ≡ true
    → (now : DeviceRecord) × (get id (perform_all cs s) ≡ revoked now)
      × (now.created_at ≡ rec.created_at)
unfolding get
revocation_is_final id cs s rec found is_revoked d =
    let (now, e, h, t) =
      steps-IsRevokedSince id rec.created_at cs (lookup id s.devices) (rec, found, is_revoked, refl)
        d in
    (now, rw (get, devices_evolve_separately id cs s, e, h) refl, t)

pub get-fetched : (id : Bytes) (s : MemStore) → get id s ≡ fetched (lookup id s.devices)
unfolding get
get-fetched id s = ground arith

pub revoke-answer :
    (id : Bytes) (reason : String) (s : MemStore)
    → (revoke id reason s).0
      ≡ elim (lookup id s.devices) [ none ↦ err device_not_found | some _ ↦ ok tt ]
unfolding revoke
revoke-answer id reason s = ground arith

pub register-answer :
    (now : ℕ) (rec : DeviceRecord) (s : MemStore)
    → (perform (register_call now rec) s).0
      ≡ elim (lookup rec.device_id s.devices) [ none ↦ ok tt | some _ ↦ err device_exists ]
unfolding perform register
register-answer now rec s = ground arith

-- The memory store as the gateway sees it.
abbrev pub mem_store : DeviceStore MemStore
mem_store = record {
  call = perform;
  get = get;
  view = λ id s. lookup id s.devices;
  view-call = lookup-perform;
  get-view = get-fetched;
  revoke-answer = revoke-answer;
  register-answer = register-answer;
}
