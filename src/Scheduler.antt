-- ===== src/Scheduler.antt =====
-- internal/scheduler/scheduler.go: the background loop that rotates keys on time, gives up on devices
-- that do not acknowledge, and asks for firmware checks. A tick is taken at one time `now`; the
-- randomness that it draws for a device is a function of the device.
pub mod Counts
pub mod Failures
pub mod Patience
pub mod Upkeep
pub mod Challenges
use lacert.Prelude.{
  Bool, Bytes, List, Map, String, [], codes, delete, err, false, if◌then◌else◌, insert, list_eq,
  lookup, ltb, member, nat_eq, none, not, ok, pair_eq, some, string_eq, ℕ, ◌*◌, ◌+◌, ◌==◌, ◌∷◌,
}
use lacert.Crypto.Session.{second}
use lacert.Gateway.State.{has_pending_rotation, session_iteration, log_event}
use lacert.Gateway.Lifecycle.{revoke_device}
use lacert.Gateway.Rotations.{abort_stale_rotation_if_needed, session_needs_rotation}
use lacert.Transport.Server.{Server, disconnect, active_device_ids}
use lacert.Transport.Connection.{Setup, with_gateway}
use lacert.Transport.Requests.{server_initiate_rotation, server_issue_challenge}

pub record Scheduler : Type 0 where
  pub last_firmware_check : Map Bytes ℕ
  pub rotation_failures : Map Bytes ℕ
  pub failure_seen : Map Bytes ℕ
  pub last_iteration : Map Bytes ℕ

pub record SchedulerSettings : Type 0 where
  pub firmware_interval : ℕ
  pub max_rotation_failures : ℕ
  -- the text that the log of rotations gets for a timeout
  pub timeout_text : String

abbrev pub firmware_check_interval : ℕ
firmware_check_interval = 3600 * second

abbrev pub failure_retention : ℕ
failure_retention = 3600 * second

abbrev pub default_scheduler_settings : String → SchedulerSettings
default_scheduler_settings text = record {
  firmware_interval = firmware_check_interval;
  max_rotation_failures = 3;
  timeout_text = text;
}

unfoldable pub new_scheduler : Scheduler
new_scheduler = record {
  last_firmware_check = [];
  rotation_failures = [];
  failure_seen = [];
  last_iteration = [];
}

-- `m[k]` of a map of ints.
abbrev pub count_of : Bytes → Map Bytes ℕ → ℕ
count_of id m = elim (lookup id m) [ none ↦ 0 | some n ↦ n ]

abbrev pub forget_failures : Bytes → Scheduler → Scheduler
forget_failures id sch = record sch {
  rotation_failures = delete id sch.rotation_failures;
  failure_seen = delete id sch.failure_seen;
}

unfoldable pub note_rotation_success : Bytes → Scheduler → Scheduler
note_rotation_success id sch =
    if count_of id sch.rotation_failures == 0 then sch else forget_failures id sch

-- The step that the device's session is at is the argument `iter`.
unfoldable pub check_rotation_progress : Bytes → ℕ → Scheduler → Scheduler
unfolding note_rotation_success
check_rotation_progress id iter sch =
    let noted = note_rotation_success id sch in
    let sch1 : Scheduler = elim (lookup id sch.last_iteration) [
      | none ↦ sch
      | some prev ↦ if ltb prev iter then noted else sch
    ] in
    record sch1 { last_iteration = insert id iter sch1.last_iteration }

-- `for id := range m { if _, ok := activeSet[id]; !ok { delete(m, id) } }`
unfoldable pub keep_active : List Bytes → Map Bytes ℕ → Map Bytes ℕ
keep_active active [] = []
keep_active active ((id, n) ∷ rest) =
    let kept = keep_active active rest in if member id active then (id, n) ∷ kept else kept

-- `for id, seen := range s.failureSeen { ... }`; the scheduler changes while its old map is walked.
unfoldable pub forget_stale : ℕ → Map Bytes ℕ → Scheduler → Scheduler
forget_stale now [] sch = sch
forget_stale now ((id, seen) ∷ rest) sch =
    let sch1 = if ltb (seen + failure_retention) now then forget_failures id sch else sch in
    forget_stale now rest sch1

unfoldable pub forget_stale_failures : ℕ → Scheduler → Scheduler
unfolding forget_stale
forget_stale_failures now sch = forget_stale now sch.failure_seen sch

unfoldable pub prune_firmware_check_state : ℕ → List Bytes → Scheduler → Scheduler
unfolding keep_active forget_stale_failures
prune_firmware_check_state now active sch =
    let sch1 =
      forget_stale_failures now
        (record sch { last_firmware_check = keep_active active sch.last_firmware_check }) in
    record sch1 { last_iteration = keep_active active sch1.last_iteration }

module _ {PK SK S N : Type 0} (u : Setup PK SK S N) (c : SchedulerSettings) where
  abbrev pub log_timeout : ℕ → Bytes → String → Server S N → Server S N
  log_timeout now id detail s = record s {
    traffic =
        with_gateway u (log_event u.db now id "rotation_timeout" detail s.traffic.gateway)
          s.traffic;
  }

  -- The rotation was rolled back: another try after a new handshake, or the last resort.
  unfoldable pub rotation_failed : ℕ → Bytes → Scheduler × Server S N → Scheduler × Server S N
  rotation_failed now id (sch, s) =
      let fails = count_of id sch.rotation_failures + 1 in
      let sch1 = record sch {
        rotation_failures = insert id fails sch.rotation_failures;
        failure_seen = insert id now sch.failure_seen;
      } in
      let cut =
        (disconnect u.net id (codes "rotation not acknowledged: reconnect and handshake again")
          s).1 in
      let logged =
        log_timeout now id
          "подтверждение ротации не получено в срок, лимит переподключений исчерпан — устройство отзывается"
          s in
      let g =
        (revoke_device u.db now id
          "устройство не подтвердило ротацию ключа заданное число раз подряд, включая попытки после переподключения"
          logged.traffic.gateway).1 in
      let revoked = record logged { traffic = with_gateway u g logged.traffic } in
      if ltb fails c.max_rotation_failures
      then (
        sch1,
        log_timeout now id
            "подтверждение ротации не получено в срок, соединение разорвано для повторного рукопожатия"
            cut,
      )
      else (
        forget_failures id sch1,
        (disconnect u.net id (codes "device revoked: rotation not acknowledged") revoked).1,
      )

  -- `maybeRotate`. A rotation that could not be begun leaves a line in the log only.
  unfoldable pub maybe_rotate : ℕ → Bytes → Bytes → Scheduler × Server S N → Scheduler × Server S N
  unfolding check_rotation_progress rotation_failed
  maybe_rotate now seed id (sch, s) =
      let (stale, g) =
        abort_stale_rotation_if_needed u.lib u.db u.settings c.timeout_text now id
          u.settings.session.rotation_ack_timeout s.traffic.gateway in
      let s1 = record s { traffic = with_gateway u g s.traffic } in
      let sch1 = check_rotation_progress id (session_iteration id g) sch in
      let needs : Bool = elim (session_needs_rotation u.lib u.db u.settings now id g) [
        | err _ ↦ false
        | ok b ↦ b
      ] in
      if stale
      then rotation_failed now id (sch, s1)
      else if has_pending_rotation id g
      then (sch, s1)
      else if needs
      then (sch1, (server_initiate_rotation u now seed id s1).1)
      else (sch1, s1)

  unfoldable pub maybe_check_firmware :
      ℕ → Bytes → Bytes → Scheduler × Server S N → Scheduler × Server S N
  maybe_check_firmware now random id (sch, s) =
      let (answer, s1) = server_issue_challenge u now random id s in
      let asked : Scheduler × Server S N = elim answer [
        | err _ ↦ (sch, s1)
        | ok _ ↦ (record sch { last_firmware_check = insert id now sch.last_firmware_check }, s1)
      ] in
      elim (lookup id sch.last_firmware_check) [
        | none ↦ asked
        | some last ↦ if ltb now (last + c.firmware_interval) then (sch, s) else asked
      ]

  unfoldable pub visit_all :
      ℕ
      → (Bytes → Bytes)
      → (Bytes → Bytes)
      → List Bytes
      → Scheduler × Server S N
      → Scheduler × Server S N
  unfolding maybe_rotate maybe_check_firmware
  visit_all now seeds randoms [] w = w
  visit_all now seeds randoms (id ∷ ids) w =
      visit_all now seeds randoms ids
        (maybe_check_firmware now (randoms id) id (maybe_rotate now (seeds id) id w))

  unfoldable pub tick :
      ℕ → (Bytes → Bytes) → (Bytes → Bytes) → Scheduler × Server S N → Scheduler × Server S N
  unfolding visit_all
  tick now seeds randoms (sch, s) =
      let active = active_device_ids s in
      let (sch1, s1) = visit_all now seeds randoms active (sch, s) in
      (prune_firmware_check_state now active sch1, s1)
