-- ===== src/Scheduler/Failures.antt =====
-- The scheduler's counts of failed rotations, over everything that happens.
use lacert.Prelude.{
  Bool-cases, Bytes, List, Option-cases, Result-cases, Unique, [], arith, inl, inr, list_eq, lookup,
  ltb, ltb→lt, nat_eq, pair_eq, string_eq, ℕ, ◌+◌, ◌∷◌,
}
use lacert.Gateway.State.{Gateway, session_iteration, has_pending_rotation}
use lacert.Gateway.Rotations.{abort_stale_rotation_if_needed, session_needs_rotation}
use lacert.Transport.Server.{Server, new_server, disconnect, active_device_ids}
use lacert.Transport.Connection.{Setup, with_gateway}
use lacert.Transport.Table.{HasTable, new_server-HasTable}
use lacert.Transport.Table.Runs.{
  Event, disconnects, rotates, challenges, server_step, server_step-HasTable,
}
use lacert.Transport.Requests.{server_initiate_rotation, server_issue_challenge}
use lacert.Scheduler.{
  Scheduler, SchedulerSettings, new_scheduler, count_of, rotation_failed, maybe_rotate,
  maybe_check_firmware, visit_all, tick,
}
use lacert.Scheduler.Counts.{Counts, fail-Counts, struck-Counts, progress-Counts, prune-Counts}

module _ {PK SK S N : Type 0} (u : Setup PK SK S N) (c : SchedulerSettings) where
  -- The counts and the table of connections are in order.
  abbrev pub InOrder : Scheduler × Server S N → Type 0
  InOrder w = Counts c.max_rotation_failures w.0 × HasTable u.limit w.1

  table-disconnect :
      (id reason : Bytes) (s : Server S N)
      → HasTable u.limit s
      → HasTable u.limit (disconnect u.net id reason s).1
  table-disconnect id reason s h =
      unfold server_step in server_step-HasTable u (disconnects id reason) s h

  table-rotate :
      (now : ℕ) (seed id : Bytes) (s : Server S N)
      → HasTable u.limit s
      → HasTable u.limit (server_initiate_rotation u now seed id s).1
  table-rotate now seed id s h =
      unfold server_step in server_step-HasTable u (rotates now seed id) s h

  table-challenge :
      (now : ℕ) (random id : Bytes) (s : Server S N)
      → HasTable u.limit s
      → HasTable u.limit (server_issue_challenge u now random id s).1
  table-challenge now random id s h =
      unfold server_step in server_step-HasTable u (challenges now random id) s h

  failed-InOrder :
      (now : ℕ) (id : Bytes) (w : Scheduler × Server S N)
      → InOrder w
      → InOrder (rotation_failed u c now id w)
  unfolding rotation_failed
  failed-InOrder now id (sch, s) (counts, table) =
      let n = count_of id sch.rotation_failures in
      elim (Bool-cases (ltb (n + 1) c.max_rotation_failures)) [
        | inl again ↦
            rw (rotation_failed, again)
              (
                fail-Counts c.max_rotation_failures now n id sch.rotation_failures sch.failure_seen
                    (ltb→lt _ _ again) counts,
                table-disconnect id _ s table,
              )
        | inr last ↦
            rw (rotation_failed, last)
              (
                struck-Counts c.max_rotation_failures now (n + 1) id sch.rotation_failures
                    sch.failure_seen counts,
                table-disconnect id _ _ table,
              )
      ]

  rotate-InOrder :
      (now : ℕ) (seed id : Bytes) (w : Scheduler × Server S N)
      → InOrder w
      → InOrder (maybe_rotate u c now seed id w)
  unfolding maybe_rotate
  rotate-InOrder now seed id (sch, s) (counts, table) =
      let (stale, g) =
        abort_stale_rotation_if_needed u.lib u.db u.settings c.timeout_text now id
          u.settings.session.rotation_ack_timeout s.traffic.gateway in
      let s1 = record s { traffic = with_gateway u g s.traffic } in
      let iter = session_iteration id g in
      let moved = progress-Counts c.max_rotation_failures id iter sch counts in
      elim (Bool-cases stale) [
        | inl late ↦ rw (maybe_rotate, late) (failed-InOrder now id (sch, s1) (counts, table))
        | inr calm ↦ elim (Bool-cases (has_pending_rotation id g)) [
          | inl waits ↦ rw (maybe_rotate, calm, waits) (counts, table)
          | inr idle ↦ elim (Result-cases (session_needs_rotation u.lib u.db u.settings now id g)) [
            | inl (e, failed) ↦ rw (maybe_rotate, calm, idle, failed) (moved, table)
            | inr (b, asked) ↦ elim (Bool-cases b) [
              | inl due ↦
                  rw (maybe_rotate, calm, idle, asked, due)
                    (moved, table-rotate now seed id s1 table)
              | inr early ↦ rw (maybe_rotate, calm, idle, asked, early) (moved, table)
            ]
          ]
        ]
      ]

  check-InOrder :
      (now : ℕ) (random id : Bytes) (w : Scheduler × Server S N)
      → InOrder w
      → InOrder (maybe_check_firmware u c now random id w)
  unfolding maybe_check_firmware
  check-InOrder now random id (sch, s) (counts, table) =
      let asked = table-challenge now random id s table in
      let answer = (server_issue_challenge u now random id s).0 in
      elim (Result-cases answer) [
        | inl (e, failed) ↦ elim (Option-cases (lookup id sch.last_firmware_check)) [
          | inl new ↦ rw (maybe_check_firmware, new, failed) (counts, asked)
          | inr (last, seen) ↦ elim (Bool-cases (ltb now (last + c.firmware_interval))) [
            | inl early ↦ rw (maybe_check_firmware, seen, early) (counts, table)
            | inr due ↦ rw (maybe_check_firmware, seen, due, failed) (counts, asked)
          ]
        ]
        | inr (done, sent) ↦ elim (Option-cases (lookup id sch.last_firmware_check)) [
          | inl new ↦ rw (maybe_check_firmware, new, sent) (counts, asked)
          | inr (last, seen) ↦ elim (Bool-cases (ltb now (last + c.firmware_interval))) [
            | inl early ↦ rw (maybe_check_firmware, seen, early) (counts, table)
            | inr due ↦ rw (maybe_check_firmware, seen, due, sent) (counts, asked)
          ]
        ]
      ]

  pub visit-InOrder :
      (now : ℕ) (seeds randoms : Bytes → Bytes) (ids : List Bytes) (w : Scheduler × Server S N)
      → InOrder w
      → InOrder (visit_all u c now seeds randoms ids w)
  unfolding visit_all
  visit-InOrder now seeds randoms [] w h = h
  visit-InOrder now seeds randoms (id ∷ ids) w h =
      visit-InOrder now seeds randoms ids _
        (check-InOrder now (randoms id) id _ (rotate-InOrder now (seeds id) id w h))

  tick-InOrder :
      (now : ℕ) (seeds randoms : Bytes → Bytes) (w : Scheduler × Server S N)
      → InOrder w
      → InOrder (tick u c now seeds randoms w)
  unfolding tick
  tick-InOrder now seeds randoms (sch, s) h =
      let visited = visit-InOrder now seeds randoms (active_device_ids s) (sch, s) h in
      (prune-Counts c.max_rotation_failures now (active_device_ids s) _ visited.0, visited.1)

-- The server's events, and the ticks of the scheduler between them.
pub data Moment : Type 0 where
  happens : Event → Moment
  ticks : (now : ℕ) (seeds randoms : Bytes → Bytes) → Moment

module _ {PK SK S N : Type 0} (u : Setup PK SK S N) (c : SchedulerSettings) where
  unfoldable pub world_run : List Moment → Scheduler × Server S N → Scheduler × Server S N
  world_run [] w = w
  world_run (happens e ∷ ms) w = world_run ms (w.0, server_step u e w.1)
  world_run (ticks now seeds randoms ∷ ms) w = world_run ms (tick u c now seeds randoms w)

  run-InOrder :
      (ms : List Moment) (w : Scheduler × Server S N) → InOrder u c w → InOrder u c (world_run ms w)
  unfolding world_run
  run-InOrder [] w h = h
  run-InOrder (happens e ∷ ms) w h =
      run-InOrder ms (w.0, server_step u e w.1) (h.0, server_step-HasTable u e w.1 h.1)
  run-InOrder (ticks now seeds randoms ∷ ms) w h =
      run-InOrder ms (tick u c now seeds randoms w) (tick-InOrder u c now seeds randoms w h)

  -- From the start of the gateway on, whatever happens on its connections and however ticks fall
  -- between: the scheduler's count of a device's failed rotations is never zero and never reaches the
  -- limit, a count is kept for exactly the devices with a time of their last failure, and the server's
  -- table of connections is consistent.
  pub counts_stay_below_limit :
      (ms : List Moment) (g : Gateway S) (n : N)
      → InOrder u c (world_run ms (new_scheduler, new_server g n))
  unfolding new_scheduler lookup Unique
  counts_stay_below_limit ms g n =
      run-InOrder ms (new_scheduler, new_server g n)
        (
          record {
            within = λ id m e. absurd (ground arith);
            dated = λ id. ground arith;
            once = tt;
          },
          new_server-HasTable u.limit g n,
        )
