-- ===== src/Scheduler/Upkeep.antt =====
-- What the scheduler forgets.
use lacert.Prelude.{
  Bool, Bool-cases, Bytes, List, Map, Option, Unique, [], ap, arith, false, if◌then◌else◌, inl, inr,
  list_beq_iff, list_eq, lookup, lookup-delete, ltb, member, nat_eq, none, pair_eq, refl, some,
  string_eq, true, ℕ, ◌+◌, ◌∙◌, ◌∷◌, ◌≡◌,
}
use lacert.Transport.Server.{Server, active_device_ids, keys_of}
use lacert.Transport.Connection.{Setup}
use lacert.Scheduler.{
  Scheduler, SchedulerSettings, failure_retention, forget_failures, keep_active, forget_stale,
  forget_stale_failures, prune_firmware_check_state, visit_all, tick,
}
use lacert.Scheduler.Failures.{InOrder, visit-InOrder}

lookup-keep_active :
    (active : List Bytes) (id : Bytes) (m : Map Bytes ℕ)
    → lookup id (keep_active active m) ≡ (if member id active then lookup id m else none)
unfolding keep_active lookup
lookup-keep_active active id [] = ground arith
lookup-keep_active active id ((j, n) ∷ rest) =
    ground (arith, list_beq_iff j id, lookup-keep_active active id rest)

-- A count after the stale ones are forgotten, by the time of the last failure.
abbrev pub kept_count : ℕ → Option ℕ → Option ℕ → Option ℕ
kept_count now none count = count
kept_count now (some seen) count = if ltb (seen + failure_retention) now then none else count

failures-forget_stale :
    (now : ℕ) (id : Bytes) (seen : Map Bytes ℕ) (sch : Scheduler)
    → Unique seen
    → lookup id (forget_stale now seen sch).rotation_failures
      ≡ kept_count now (lookup id seen) (lookup id sch.rotation_failures)
unfolding forget_stale lookup Unique
failures-forget_stale now id [] sch h = refl
failures-forget_stale now id ((j, t) ∷ rest) sch (new, h) =
    elim (Bool-cases (ltb (t + failure_retention) now)) [
      | inl old ↦
          let rest_of = failures-forget_stale now id rest (forget_failures j sch) h in
          rw (forget_stale, old)
            (ground (
              arith,
              old,
              rest_of,
              new,
              lookup-delete j id sch.rotation_failures,
              list_beq_iff j id,
            ))
      | inr young ↦
          let rest_of = failures-forget_stale now id rest sch h in
          rw (forget_stale, young) (ground (arith, young, rest_of, new, list_beq_iff j id))
    ]

iteration-forget_stale :
    (now : ℕ) (seen : Map Bytes ℕ) (sch : Scheduler)
    → ((forget_stale now seen sch).last_iteration ≡ sch.last_iteration)
      × ((forget_stale now seen sch).last_firmware_check ≡ sch.last_firmware_check)
unfolding forget_stale
iteration-forget_stale now [] sch = (refl, refl)
iteration-forget_stale now ((j, t) ∷ rest) sch =
    elim (Bool-cases (ltb (t + failure_retention) now)) [
      | inl old ↦ rw (forget_stale, old) (iteration-forget_stale now rest (forget_failures j sch))
      | inr young ↦ rw (forget_stale, young) (iteration-forget_stale now rest sch)
    ]

pub checks-prune :
    (now : ℕ) (active : List Bytes) (sch : Scheduler) (id : Bytes)
    → lookup id (prune_firmware_check_state now active sch).last_firmware_check
      ≡ (if member id active then lookup id sch.last_firmware_check else none)
unfolding prune_firmware_check_state forget_stale_failures
checks-prune now active sch id =
    let sch1 = record sch { last_firmware_check = keep_active active sch.last_firmware_check } in
    ap (λ m. lookup id m) (iteration-forget_stale now sch.failure_seen sch1).1
    ∙ lookup-keep_active active id sch.last_firmware_check

steps-prune :
    (now : ℕ) (active : List Bytes) (sch : Scheduler) (id : Bytes)
    → lookup id (prune_firmware_check_state now active sch).last_iteration
      ≡ (if member id active then lookup id sch.last_iteration else none)
unfolding prune_firmware_check_state forget_stale_failures
steps-prune now active sch id =
    let sch1 = record sch { last_firmware_check = keep_active active sch.last_firmware_check } in
    ap (λ m. lookup id (keep_active active m)) (iteration-forget_stale now sch.failure_seen sch1).0
    ∙ lookup-keep_active active id sch.last_iteration

failures-prune :
    (now : ℕ) (active : List Bytes) (sch : Scheduler) (id : Bytes)
    → Unique sch.failure_seen
    → lookup id (prune_firmware_check_state now active sch).rotation_failures
      ≡ kept_count now (lookup id sch.failure_seen) (lookup id sch.rotation_failures)
unfolding prune_firmware_check_state forget_stale_failures
failures-prune now active sch id once =
    failures-forget_stale now id sch.failure_seen
      (record sch { last_firmware_check = keep_active active sch.last_firmware_check }) once

-- Whether the device has an entry in the table of connections.
abbrev pub is_connected : {S N : Type 0} → Bytes → Server S N → Bool
is_connected id s = elim (lookup id s.conns) [ none ↦ false | some _ ↦ true ]

member-keys_of :
    (id : Bytes) (m : Map Bytes ℕ)
    → member id (keys_of m) ≡ elim (lookup id m) [ none ↦ false | some _ ↦ true ]
unfolding lookup
member-keys_of id [] = refl
member-keys_of id ((j, n) ∷ rest) = ground (arith, list_beq_iff j id, member-keys_of id rest)

pub member-active :
    {S N : Type 0} (id : Bytes) (s : Server S N)
    → member id (active_device_ids s) ≡ is_connected id s
unfolding active_device_ids
member-active id s = member-keys_of id s.conns

module _ {PK SK S N : Type 0} (u : Setup PK SK S N) (c : SchedulerSettings) where
  -- A tick visits the devices that are connected at its start. Of what the scheduler has then, it
  -- forgets the firmware checks and the steps of exactly the devices that were not connected at the
  -- start. The count of failed rotations outlives the connection: it is forgotten exactly if the last
  -- failure is more than an hour old, connected or not. The server is as the visits left it. The
  -- counts and the table of connections are in order before the tick.
  pub upkeep_by_map :
      (now : ℕ) (seeds randoms : Bytes → Bytes) (sch : Scheduler) (s : Server S N) (id : Bytes)
      → InOrder u c (sch, s)
      → let visited = visit_all u c now seeds randoms (active_device_ids s) (sch, s) in
        let after = tick u c now seeds randoms (sch, s) in
        (lookup id after.0.last_firmware_check
          ≡ (if is_connected id s then lookup id visited.0.last_firmware_check else none))
        × (lookup id after.0.last_iteration
            ≡ (if is_connected id s then lookup id visited.0.last_iteration else none))
        × (lookup id after.0.rotation_failures
            ≡ kept_count now
                (lookup id visited.0.failure_seen)
                (lookup id visited.0.rotation_failures))
        × (after.1 ≡ visited.1)
  unfolding tick
  upkeep_by_map now seeds randoms sch s id h =
      let active = active_device_ids s in
      let visited = visit_all u c now seeds randoms active (sch, s) in
      let counts = (visit-InOrder u c now seeds randoms active (sch, s) h).0 in
      (
        rw (← member-active id s) (checks-prune now active visited.0 id),
        rw (← member-active id s) (steps-prune now active visited.0 id),
        failures-prune now active visited.0 id counts.once,
        refl,
      )
