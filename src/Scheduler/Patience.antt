-- ===== src/Scheduler/Patience.antt =====
-- How often a device may fail to acknowledge a rotation.
use lacert.Prelude.{
  Bool-cases, Bytes, List, Map, Option-cases, String, [], ap, arith, beq_refl, codes, delete,
  if◌then◌else◌, inl, inr, insert, length, list_eq, lookup, lookup-delete, lookup-insert_self, ltb,
  lt→ltb, nat_eq, pair_eq, refl, some, str_append, string_eq, ℕ, ◌+◌, ◌<◌, ◌∙◌, ◌∷◌, ◌≡◌,
}
use lacert.Store.Types.{DeviceRecord}
use lacert.Store.Calls.{event_call, device_step}
use lacert.Gateway.State.{Gateway, log_event}
use lacert.Gateway.Lifecycle.{revoke_device}
use lacert.Gateway.Revocation.{IsCutOff, get-log_event, revoke_and_close-IsCutOff}
use lacert.Transport.Server.{Server, disconnect}
use lacert.Transport.Connection.{Setup}
use lacert.Scheduler.{Scheduler, SchedulerSettings, count_of, rotation_failed}

count-insert : (id : Bytes) (n : ℕ) (m : Map Bytes ℕ) → count_of id (insert id n m) ≡ n
count-insert id n m = ground (arith, lookup-insert_self id n m)

count-delete : (id : Bytes) (m : Map Bytes ℕ) → count_of id (delete id m) ≡ 0
count-delete id m = ground (arith, lookup-delete id id m, beq_refl id)

module _ {PK SK S N : Type 0} (u : Setup PK SK S N) (c : SchedulerSettings) where
  gateway-disconnect :
      (id reason : Bytes) (s : Server S N)
      → (disconnect u.net id reason s).1.traffic.gateway ≡ s.traffic.gateway
  unfolding disconnect
  gateway-disconnect id reason s = elim (Option-cases (lookup id s.conns)) [
    | inl e ↦ rw (disconnect, e) refl
    | inr (conn, e) ↦ rw (disconnect, e) refl
  ]

  -- What a rotation that was rolled back leads to, after `n` failures before it.
  abbrev pub Escalates : Bytes → ℕ → Server S N → Scheduler × Server S N → Type 0
  Escalates id n s (sch', s') =
      if ltb (n + 1) c.max_rotation_failures
      then ((count_of id sch'.rotation_failures ≡ n + 1)
          × (u.db.get id s'.traffic.gateway.store ≡ u.db.get id s.traffic.gateway.store)
          × (s'.traffic.gateway.sessions ≡ s.traffic.gateway.sessions))
      else ((count_of id sch'.rotation_failures ≡ 0) × IsCutOff u.db id s'.traffic.gateway)

  view-logged :
      (now : ℕ) (id : Bytes) (event_type detail : String) (g : Gateway S)
      → u.db.view id (log_event u.db now id event_type detail g).store ≡ u.db.view id g.store
  unfolding device_step
  view-logged now id event_type detail g =
      u.db.view-call id (event_call now id event_type detail) g.store

  revoked-cuts_off :
      (now : ℕ) (id : Bytes) (reason : String) (g : Gateway S) (rec : DeviceRecord)
      → u.db.view id g.store ≡ some rec
      → IsCutOff u.db id (revoke_device u.db now id reason g).1
  unfolding revoke_device
  revoked-cuts_off now id reason g rec known =
      revoke_and_close-IsCutOff u.db now id reason (str_append "отозвано: " reason) g rec known

  escalation :
      (now : ℕ) (id : Bytes) (sch : Scheduler) (s : Server S N) (rec : DeviceRecord)
      → u.db.view id s.traffic.gateway.store ≡ some rec
      → Escalates id (count_of id sch.rotation_failures) s (rotation_failed u c now id (sch, s))
  unfolding rotation_failed
  escalation now id sch s rec known =
      let n = count_of id sch.rotation_failures in
      let counted = count-insert id (n + 1) sch.rotation_failures in
      let seen = insert id (n + 1) sch.rotation_failures in
      elim (Bool-cases (ltb (n + 1) c.max_rotation_failures)) [
        | inl again ↦
            let reason = codes "rotation not acknowledged: reconnect and handshake again" in
            let same = gateway-disconnect id reason s in
            rw (rotation_failed, again)
              (
                counted,
                get-log_event u.db now id id "rotation_timeout" _
                      (disconnect u.net id reason s).1.traffic.gateway
                    ∙ ap (λ g. u.db.get id g.store) same,
                ap (λ g. g.sessions) same,
              )
        | inr last ↦
            let detail : String =
              "подтверждение ротации не получено в срок, лимит переподключений исчерпан — устройство отзывается" in
            let reason : String =
              "устройство не подтвердило ротацию ключа заданное число раз подряд, включая попытки после переподключения" in
            let g = log_event u.db now id "rotation_timeout" detail s.traffic.gateway in
            let cut =
              revoked-cuts_off now id reason g rec
                (view-logged now id "rotation_timeout" detail s.traffic.gateway ∙ known) in
            rw (rotation_failed, last)
              (
                count-delete id seen,
                rw (gateway-disconnect id (codes "device revoked: rotation not acknowledged") _)
                    cut,
              )
      ]

  count-struck :
      (now : ℕ) (id : Bytes) (sch : Scheduler) (s : Server S N)
      → count_of id sch.rotation_failures + 1 < c.max_rotation_failures
      → count_of id (rotation_failed u c now id (sch, s)).0.rotation_failures
        ≡ count_of id sch.rotation_failures + 1
  unfolding rotation_failed
  count-struck now id sch s room =
      let n = count_of id sch.rotation_failures in
      rw (rotation_failed, lt→ltb (n + 1) c.max_rotation_failures room)
        (count-insert id (n + 1) sch.rotation_failures)

  -- The scheduler's counts after failures of one device at these times, with any servers between.
  unfoldable pub strikes : Bytes → List (ℕ × Server S N) → Scheduler → Scheduler
  strikes id [] sch = sch
  strikes id ((now, s) ∷ more) sch = strikes id more (rotation_failed u c now id (sch, s)).0

  count-strikes :
      (id : Bytes) (more : List (ℕ × Server S N)) (sch : Scheduler)
      → count_of id sch.rotation_failures + length more < c.max_rotation_failures
      → count_of id (strikes id more sch).rotation_failures
        ≡ count_of id sch.rotation_failures + length more
  unfolding strikes
  count-strikes id [] sch room = omega arith
  count-strikes id ((now, s) ∷ more) sch room =
      let sch1 = (rotation_failed u c now id (sch, s)).0 in
      let once : count_of id sch1.rotation_failures ≡ count_of id sch.rotation_failures + 1 =
        count-struck now id sch s (omega arith) in
      count-strikes id more sch1 (omega (arith, once)) ∙ omega (arith, once)

  -- A device is revoked at the set number of failed rotations in a row, and not before: while the
  -- failures are fewer, each is counted and leaves the device's record and all sessions as they are;
  -- the last one leaves it revoked, without a session, and with no failures on its account.
  pub revoked_at_the_limit :
      (now : ℕ) (id : Bytes) (earlier : List (ℕ × Server S N)) (sch : Scheduler) (s : Server S N)
      (rec : DeviceRecord)
      → count_of id sch.rotation_failures ≡ 0
      → length earlier < c.max_rotation_failures
      → u.db.view id s.traffic.gateway.store ≡ some rec
      → Escalates id (length earlier) s (rotation_failed u c now id (strikes id earlier sch, s))
  revoked_at_the_limit now id earlier sch s rec clean room known =
      let counted : count_of id (strikes id earlier sch).rotation_failures ≡ length earlier =
        count-strikes id earlier sch (omega (arith, clean)) ∙ omega (arith, clean) in
      rw counted at (escalation now id (strikes id earlier sch) s rec known)
