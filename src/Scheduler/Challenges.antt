-- ===== src/Scheduler/Challenges.antt =====
-- How often the scheduler asks a device for a firmware check.
use lacert.Prelude.{
  Bool, Bool-cases, Bytes, List, Option-cases, Result-cases, [], ap, arith, false, if◌then◌else◌,
  inl, inr, list_beq_iff, list_eq, lookup, lookup-insert, lookup-insert_self, ltb, lt→ltb, member,
  nat_eq, none, not, ok, pair_eq, refl, some, string_eq, true, ℕ, ◌+◌, ◌<◌, ◌==◌, ◌∙◌, ◌∷◌, ◌≡◌,
}
use lacert.Gateway.State.{session_iteration, has_pending_rotation}
use lacert.Gateway.Rotations.{abort_stale_rotation_if_needed, session_needs_rotation}
use lacert.Transport.Server.{Server, active_device_ids}
use lacert.Transport.Connection.{Setup, with_gateway}
use lacert.Transport.Table.Runs.{server_step}
use lacert.Transport.Requests.{server_issue_challenge}
use lacert.Scheduler.{
  Scheduler, SchedulerSettings, count_of, note_rotation_success, check_rotation_progress,
  rotation_failed, maybe_rotate, maybe_check_firmware, prune_firmware_check_state, visit_all, tick,
}
use lacert.Scheduler.Failures.{Moment, happens, ticks, world_run}
use lacert.Scheduler.Upkeep.{checks-prune, is_connected, member-active}

checks-note :
    (id : Bytes) (sch : Scheduler)
    → (note_rotation_success id sch).last_firmware_check ≡ sch.last_firmware_check
unfolding note_rotation_success
checks-note id sch = elim (Bool-cases (count_of id sch.rotation_failures == 0)) [
  | inl e ↦ rw (note_rotation_success, e) refl
  | inr e ↦ rw (note_rotation_success, e) refl
]

checks-progress :
    (id : Bytes) (iter : ℕ) (sch : Scheduler)
    → (check_rotation_progress id iter sch).last_firmware_check ≡ sch.last_firmware_check
unfolding check_rotation_progress
checks-progress id iter sch = elim (Option-cases (lookup id sch.last_iteration)) [
  | inl new ↦ rw (check_rotation_progress, new) refl
  | inr (prev, known) ↦ elim (Bool-cases (ltb prev iter)) [
    | inl moved ↦ rw (check_rotation_progress, known, moved) (checks-note id sch)
    | inr same ↦ rw (check_rotation_progress, known, same) refl
  ]
]

-- The same randomness, but for one device.
abbrev pub redraw : Bytes → Bytes → (Bytes → Bytes) → Bytes → Bytes
redraw id again randoms j = if j == id then again else randoms j

abbrev pub redraw_all : Bytes → Bytes → List Moment → List Moment
redraw_all id again [] = []
redraw_all id again (happens e ∷ ms) = happens e ∷ redraw_all id again ms
redraw_all id again (ticks now seeds randoms ∷ ms) =
    ticks now seeds (redraw id again randoms) ∷ redraw_all id again ms

module _ {PK SK S N : Type 0} (u : Setup PK SK S N) (c : SchedulerSettings) where
  checks-failed :
      (now : ℕ) (id : Bytes) (w : Scheduler × Server S N)
      → (rotation_failed u c now id w).0.last_firmware_check ≡ w.0.last_firmware_check
  unfolding rotation_failed
  checks-failed now id (sch, s) = ground arith

  checks-rotate :
      (now : ℕ) (seed id : Bytes) (w : Scheduler × Server S N)
      → (maybe_rotate u c now seed id w).0.last_firmware_check ≡ w.0.last_firmware_check
  unfolding maybe_rotate
  checks-rotate now seed id (sch, s) =
      let (stale, g) =
        abort_stale_rotation_if_needed u.lib u.db u.settings c.timeout_text now id
          u.settings.session.rotation_ack_timeout s.traffic.gateway in
      let s1 = record s { traffic = with_gateway u g s.traffic } in
      let moved = checks-progress id (session_iteration id g) sch in
      elim (Bool-cases stale) [
        | inl late ↦ rw (maybe_rotate, late) (checks-failed now id (sch, s1))
        | inr calm ↦ elim (Bool-cases (has_pending_rotation id g)) [
          | inl waits ↦ rw (maybe_rotate, calm, waits) refl
          | inr idle ↦ elim (Result-cases (session_needs_rotation u.lib u.db u.settings now id g)) [
            | inl (e, failed) ↦ rw (maybe_rotate, calm, idle, failed) moved
            | inr (b, asked) ↦ elim (Bool-cases b) [
              | inl due ↦ rw (maybe_rotate, calm, idle, asked, due) moved
              | inr early ↦ rw (maybe_rotate, calm, idle, asked, early) moved
            ]
          ]
        ]
      ]

  check_early :
      (now t0 : ℕ) (random id : Bytes) (w : Scheduler × Server S N)
      → lookup id w.0.last_firmware_check ≡ some t0
      → now < t0 + c.firmware_interval
      → maybe_check_firmware u c now random id w ≡ w
  unfolding maybe_check_firmware
  check_early now t0 random id (sch, s) noted early =
      rw (maybe_check_firmware, noted, lt→ltb now (t0 + c.firmware_interval) early) refl

  checks-other :
      (now : ℕ) (random j id : Bytes) (w : Scheduler × Server S N)
      → (j == id) ≡ false
      → lookup id (maybe_check_firmware u c now random j w).0.last_firmware_check
        ≡ lookup id w.0.last_firmware_check
  unfolding maybe_check_firmware
  checks-other now random j id (sch, s) other =
      let kept = lookup-insert j id now sch.last_firmware_check ∙ rw other refl in
      elim (Result-cases (server_issue_challenge u now random j s).0) [
        | inl (e, failed) ↦ elim (Option-cases (lookup j sch.last_firmware_check)) [
          | inl new ↦ rw (maybe_check_firmware, new, failed) refl
          | inr (last, seen) ↦ elim (Bool-cases (ltb now (last + c.firmware_interval))) [
            | inl early ↦ rw (maybe_check_firmware, seen, early) refl
            | inr due ↦ rw (maybe_check_firmware, seen, due, failed) refl
          ]
        ]
        | inr (done, sent) ↦ elim (Option-cases (lookup j sch.last_firmware_check)) [
          | inl new ↦ rw (maybe_check_firmware, new, sent) kept
          | inr (last, seen) ↦ elim (Bool-cases (ltb now (last + c.firmware_interval))) [
            | inl early ↦ rw (maybe_check_firmware, seen, early) refl
            | inr due ↦ rw (maybe_check_firmware, seen, due, sent) kept
          ]
        ]
      ]

  -- The visits of a tick, while the device's check is noted and its interval runs.
  visit_quiet :
      (now t0 : ℕ) (seeds randoms : Bytes → Bytes) (id again : Bytes) (ids : List Bytes)
      (w : Scheduler × Server S N)
      → lookup id w.0.last_firmware_check ≡ some t0
      → now < t0 + c.firmware_interval
      → (lookup id (visit_all u c now seeds randoms ids w).0.last_firmware_check ≡ some t0)
        × (visit_all u c now seeds (redraw id again randoms) ids w
            ≡ visit_all u c now seeds randoms ids w)
  unfolding visit_all
  visit_quiet now t0 seeds randoms id again [] w noted early = (noted, refl)
  visit_quiet now t0 seeds randoms id again (j ∷ ids) w noted early =
      let w1 = maybe_rotate u c now (seeds j) j w in
      let noted1 : lookup id w1.0.last_firmware_check ≡ some t0 =
        ap (λ m. lookup id m) (checks-rotate now (seeds j) j w) ∙ noted in
      elim (Bool-cases (j == id)) [
        | inl same ↦
            let p = (list_beq_iff j id).0 same in
            let noted2 : lookup j w1.0.last_firmware_check ≡ some t0 =
              ap (λ k. lookup k w1.0.last_firmware_check) p ∙ noted1 in
            let quiet : (r : Bytes) → maybe_check_firmware u c now r j w1 ≡ w1 =
              λ r. check_early now t0 r j w1 noted2 early in
            rw (visit_all, quiet (randoms j), quiet (redraw id again randoms j))
              (visit_quiet now t0 seeds randoms id again ids w1 noted1 early)
        | inr other ↦
            let w2 = maybe_check_firmware u c now (randoms j) j w1 in
            rw (visit_all, other)
              (visit_quiet now t0 seeds randoms id again ids w2
                (checks-other now (randoms j) j id w1 other ∙ noted1) early)
      ]

  -- The device has not been asked, or its interval is over.
  abbrev pub is_due : ℕ → Bytes → Scheduler → Bool
  is_due now id sch = elim (lookup id sch.last_firmware_check) [
    | none ↦ true
    | some last ↦ not (ltb now (last + c.firmware_interval))
  ]

  check_noted :
      (now : ℕ) (random id : Bytes) (sch : Scheduler) (s : Server S N)
      → is_due now id sch ≡ true
      → (server_issue_challenge u now random id s).0 ≡ ok tt
      → lookup id (maybe_check_firmware u c now random id (sch, s)).0.last_firmware_check ≡ some now
  unfolding maybe_check_firmware
  check_noted now random id sch s due sent =
      elim (Option-cases (lookup id sch.last_firmware_check)) [
        | inl new ↦
            rw (maybe_check_firmware, new, sent) (lookup-insert_self id now sch.last_firmware_check)
        | inr (last, seen) ↦ elim (Bool-cases (ltb now (last + c.firmware_interval))) [
          | inl early ↦ absurd (ground arith)
          | inr over ↦
              rw (maybe_check_firmware, seen, over, sent)
                (lookup-insert_self id now sch.last_firmware_check)
        ]
      ]

  -- What is left of a tick when `rest` of the `active` devices are still to be visited.
  abbrev pub rest_of_tick :
      ℕ
      → (Bytes → Bytes)
      → (Bytes → Bytes)
      → List Bytes
      → List Bytes
      → Scheduler × Server S N
      → Scheduler × Server S N
  rest_of_tick now seeds randoms active rest w =
      let visited = visit_all u c now seeds randoms rest w in
      (prune_firmware_check_state now active visited.0, visited.1)

  rest_quiet :
      (now t0 : ℕ) (seeds randoms : Bytes → Bytes) (id again : Bytes) (active rest : List Bytes)
      (w : Scheduler × Server S N)
      → lookup id w.0.last_firmware_check ≡ some t0
      → now < t0 + c.firmware_interval
      → member id active ≡ true
      → (lookup id (rest_of_tick now seeds randoms active rest w).0.last_firmware_check ≡ some t0)
        × (rest_of_tick now seeds (redraw id again randoms) active rest w
            ≡ rest_of_tick now seeds randoms active rest w)
  rest_quiet now t0 seeds randoms id again active rest w noted early here =
      let (kept, same) = visit_quiet now t0 seeds randoms id again rest w noted early in
      (
        checks-prune now active (visit_all u c now seeds randoms rest w).0 id ∙ rw here kept,
        ap (λ v. (prune_firmware_check_state now active v.0, v.1)) same,
      )

  tick_quiet :
      (now t0 : ℕ) (seeds randoms : Bytes → Bytes) (id again : Bytes) (w : Scheduler × Server S N)
      → lookup id w.0.last_firmware_check ≡ some t0
      → now < t0 + c.firmware_interval
      → is_connected id w.1 ≡ true
      → (lookup id (tick u c now seeds randoms w).0.last_firmware_check ≡ some t0)
        × (tick u c now seeds (redraw id again randoms) w ≡ tick u c now seeds randoms w)
  unfolding tick
  tick_quiet now t0 seeds randoms id again (sch, s) noted early here =
      let active = active_device_ids s in
      rest_quiet now t0 seeds randoms id again active active (sch, s) noted early
        (member-active id s ∙ here)

  -- Every tick of a run comes before the interval that began at t0 is over, and finds the device
  -- connected.
  abbrev pub Waits : Bytes → ℕ → List Moment → Scheduler × Server S N → Type 0
  Waits id t0 [] w = Unit
  Waits id t0 (happens e ∷ ms) w = Waits id t0 ms (w.0, server_step u e w.1)
  Waits id t0 (ticks now seeds randoms ∷ ms) w =
      (now < t0 + c.firmware_interval)
      × (is_connected id w.1 ≡ true)
      × Waits id t0 ms (tick u c now seeds randoms w)

  run_quiet :
      (t0 : ℕ) (id again : Bytes) (ms : List Moment) (w : Scheduler × Server S N)
      → lookup id w.0.last_firmware_check ≡ some t0
      → Waits id t0 ms w
      → (lookup id (world_run u c ms w).0.last_firmware_check ≡ some t0)
        × (world_run u c (redraw_all id again ms) w ≡ world_run u c ms w)
  unfolding world_run
  run_quiet t0 id again [] w noted waits = (noted, refl)
  run_quiet t0 id again (happens e ∷ ms) w noted waits =
      run_quiet t0 id again ms (w.0, server_step u e w.1) noted waits
  run_quiet t0 id again (ticks now seeds randoms ∷ ms) w noted (early, here, waits) =
      let (kept, same) = tick_quiet now t0 seeds randoms id again w noted early here in
      let (at_end, unused) = run_quiet t0 id again ms (tick u c now seeds randoms w) kept waits in
      (at_end, ap (λ v. world_run u c (redraw_all id again ms) v) same ∙ unused)

  -- A tick at t0 asks a device for a check, which it visits for the first time or after its interval,
  -- and the challenge is sent. From then on, through the rest of that tick, whatever happens to the
  -- server, and all ticks that come before the interval is over and find the device connected, the
  -- scheduler keeps t0 as the time of the device's last check, and sends it no other challenge: the
  -- random bytes that those ticks draw for it could be any others, and nothing would be different. The
  -- interval is not zero, and the device is among the connected ones of the first tick.
  pub one_challenge_per_interval :
      (t0 : ℕ) (random again id : Bytes) (sch : Scheduler) (s : Server S N)
      (seeds randoms : Bytes → Bytes) (active rest : List Bytes) (ms : List Moment)
      → is_due t0 id sch ≡ true
      → (server_issue_challenge u t0 random id s).0 ≡ ok tt
      → 0 < c.firmware_interval
      → member id active ≡ true
      → Waits id t0 ms (
          rest_of_tick t0 seeds randoms active rest
            (maybe_check_firmware u c t0 random id (sch, s)))
      → let w = maybe_check_firmware u c t0 random id (sch, s) in
        let after = world_run u c ms (rest_of_tick t0 seeds randoms active rest w) in
        (lookup id after.0.last_firmware_check ≡ some t0)
        × (world_run u c
              (redraw_all id again ms)
              (rest_of_tick t0 seeds (redraw id again randoms) active rest w)
            ≡ after)
  one_challenge_per_interval t0 random again id sch s seeds randoms active rest ms due sent positive
        here waits =
      let w = maybe_check_firmware u c t0 random id (sch, s) in
      let noted : lookup id w.0.last_firmware_check ≡ some t0 =
        check_noted t0 random id sch s due sent in
      let w1 = rest_of_tick t0 seeds randoms active rest w in
      let (kept, same) =
        rest_quiet t0 t0 seeds randoms id again active rest w noted (omega arith) here in
      let (at_end, unused) = run_quiet t0 id again ms w1 kept waits in
      (at_end, ap (λ v. world_run u c (redraw_all id again ms) v) same ∙ unused)
