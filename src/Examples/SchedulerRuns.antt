-- ===== src/Examples/SchedulerRuns.antt =====
-- The theorems on the scheduler at concrete inputs, with the server of ServerRuns.
use lacert.Prelude.{
  Bytes, List, Unique, [], arith, err, if◌then◌else◌, list_beq_iff, list_eq, lookup, nat_eq, none,
  ok, pair_eq, put_uint16, refl, some, string_eq, ℕ, ◌∷◌, ◌≡◌,
}
use lacert.Examples.Toy.{key_a}
use lacert.Wire.Field.{put_framed}
use lacert.Wire.Frame.{eof}
use lacert.Wire.Messages.{encode_firmware_challenge}
use lacert.Store.MemStore.{MemStore, get}
use lacert.Store.MemStore.Registry.{mem_store}
use lacert.Gateway.Traffic.{issue_firmware_challenge}
use lacert.Transport.Network.{write_frame_with_deadline}
use lacert.Transport.Server.{Server, new_server}
use lacert.Transport.Requests.{server_issue_challenge}
use lacert.Transport.Table.Runs.{socket_comes, read_returns}
use lacert.Scheduler.{
  Scheduler, SchedulerSettings, default_scheduler_settings, new_scheduler, rotation_failed,
  maybe_check_firmware,
}
use lacert.Scheduler.Failures.{Moment, happens, ticks, InOrder, world_run, counts_stay_below_limit}
use lacert.Scheduler.Patience.{Escalates, strikes, revoked_at_the_limit}
use lacert.Scheduler.Upkeep.{kept_count, is_connected, upkeep_by_map}
use lacert.Scheduler.Challenges.{
  redraw, redraw_all, rest_of_tick, Waits, one_challenge_per_interval,
}
use lacert.Scheduler.{tick, visit_all}
use lacert.Transport.Server.{accept, active_device_ids}
use lacert.Transport.Table.{new_server-HasTable}
use lacert.Transport.Table.Runs.{server_step}
use lacert.Examples.ServerRuns.{Log, setup, lamp_server}
use lacert.Examples.Fixtures.{lamp_id, word, lamp, busy}
use lacert.Examples.ServerRuns.{Log, setup, lamp_server}

abbrev schedule : SchedulerSettings
schedule = default_scheduler_settings "timeout"

abbrev moments : List Moment
moments =
    happens socket_comes
    ∷ ticks 100 (λ id. word) (λ id. word)
    ∷ happens (read_returns 120 word key_a 0 (err eof))
    ∷ []

counts_stay_below_limit_example :
    InOrder setup schedule (world_run setup schedule moments (new_scheduler, new_server busy []))
counts_stay_below_limit_example = counts_stay_below_limit setup schedule moments busy []

lamp_is_known : mem_store.view lamp_id lamp_server.traffic.gateway.store ≡ some lamp
unfolding lookup
lamp_is_known = refl

no_failures : (id : Bytes) → lookup id new_scheduler.rotation_failures ≡ none
unfolding new_scheduler lookup
no_failures id = refl

abbrev earlier : List (ℕ × Server MemStore Log)
earlier = (10, lamp_server) ∷ (20, lamp_server) ∷ []

revoked_at_the_limit_example : Escalates setup schedule lamp_id 2 lamp_server (
    rotation_failed setup schedule 30 lamp_id
      (strikes setup schedule lamp_id earlier new_scheduler, lamp_server))
unfolding new_scheduler lookup
revoked_at_the_limit_example =
    revoked_at_the_limit setup schedule 30 lamp_id earlier new_scheduler lamp_server lamp refl
      (omega arith) lamp_is_known

-- One failure, of a device that is not connected.
abbrev bruised : Scheduler
bruised = record {
  last_firmware_check = (lamp_id, 5) ∷ [];
  rotation_failures = (lamp_id, 2) ∷ [];
  failure_seen = (lamp_id, 9) ∷ [];
  last_iteration = [];
}

bruised-InOrder : InOrder setup schedule (bruised, new_server busy [])
unfolding lookup Unique
bruised-InOrder = (
  record {
    within = λ id n e. ground (arith, list_beq_iff lamp_id id);
    dated = λ id. ground (arith, list_beq_iff lamp_id id);
    once = (refl, tt);
  },
  new_server-HasTable 2 busy [],
)

upkeep_by_map_example :
    let s = new_server busy [] in
    let visited =
      visit_all setup schedule 12 (λ id. word) (λ id. word) (active_device_ids s) (bruised, s) in
    let after = tick setup schedule 12 (λ id. word) (λ id. word) (bruised, s) in
    (lookup lamp_id after.0.last_firmware_check
      ≡ (if is_connected lamp_id s then lookup lamp_id visited.0.last_firmware_check else none))
    × (lookup lamp_id after.0.last_iteration
        ≡ (if is_connected lamp_id s then lookup lamp_id visited.0.last_iteration else none))
    × (lookup lamp_id after.0.rotation_failures
        ≡ kept_count 12
            (lookup lamp_id visited.0.failure_seen)
            (lookup lamp_id visited.0.rotation_failures))
    × (after.1 ≡ visited.1)
upkeep_by_map_example =
    upkeep_by_map setup schedule 12 (λ id. word) (λ id. word) bruised (new_server busy []) lamp_id
      bruised-InOrder

asked : (server_issue_challenge setup 40000000000 word lamp_id lamp_server).0 ≡ ok tt
unfolding server_issue_challenge lookup issue_firmware_challenge get encode_firmware_challenge
    put_framed write_frame_with_deadline put_uint16
asked = refl

abbrev later : List Moment
later = happens socket_comes ∷ ticks 40000000009 (λ id. key_a) (λ id. key_a) ∷ []

-- The rest of the tick that asked the lamp, which it visited last.
abbrev asked_world : Scheduler × Server MemStore Log
asked_world =
    rest_of_tick setup schedule 40000000000 (λ id. word) (λ id. word) (lamp_id ∷ []) []
      (maybe_check_firmware setup schedule 40000000000 word lamp_id (new_scheduler, lamp_server))

lamp-Waits : Waits setup schedule lamp_id 40000000000 later asked_world
unfolding lookup server_step accept visit_all maybe_check_firmware new_scheduler
    server_issue_challenge issue_firmware_challenge get encode_firmware_challenge put_framed
    write_frame_with_deadline put_uint16
lamp-Waits = (omega arith, refl, tt)

one_challenge_per_interval_example :
    let after = world_run setup schedule later asked_world in
    (lookup lamp_id after.0.last_firmware_check ≡ some 40000000000)
    × (world_run setup schedule (redraw_all lamp_id key_a later) (
          rest_of_tick setup schedule 40000000000
            (λ id. word)
            (redraw lamp_id key_a (λ id. word))
            (lamp_id ∷ [])
            []
            (maybe_check_firmware setup schedule 40000000000 word lamp_id
              (new_scheduler, lamp_server)))
        ≡ after)
unfolding new_scheduler lookup
one_challenge_per_interval_example =
    one_challenge_per_interval setup schedule 40000000000 word key_a lamp_id new_scheduler
      lamp_server (λ id. word) (λ id. word) (lamp_id ∷ []) [] later refl asked (omega arith) refl
      lamp-Waits
