-- ===== src/Gateway/Revocation.antt =====
-- What a revocation does to a device that is connected.
use lacert.Prelude.{
  Bool, Bool-cases, Bytes, Map, Option, Option-cases, String, ap, arith, beq_refl, false,
  if◌then◌else◌, inl, inr, list_beq_iff, list_eq, lookup, lookup-delete, lookup-insert, nat_beq_iff,
  nat_eq, none, ok, pair_eq, refl, some, str_append, string_eq, sym, true, ℕ, ◌==◌, ◌∙◌, ◌≡◌,
}
use lacert.Crypto.Session.{Session, close}
use lacert.Store.Types.{DeviceRecord, revoked}
use lacert.Store.Calls.{DeviceStore, revoke_call, event_call, device_step, fetched}
use lacert.Gateway.State.{Gateway, count, log_event}
use lacert.Gateway.Metrics.{inc_device_revoked}
use lacert.Gateway.Lifecycle.{revoke_and_close_session, revoke_device, end_session, close_one}

module _ {S : Type 0} (db : DeviceStore S) where
  -- The device is revoked in the store and has no session.
  pub record IsCutOff (device_id : Bytes) (g : Gateway S) : Type 0 where
    pub in_store : (rec : DeviceRecord) × (db.get device_id g.store ≡ revoked rec)
    pub no_session : lookup device_id g.sessions ≡ none

  pub get-log_event :
      (now : ℕ) (id j : Bytes) (event_type detail : String) (g : Gateway S)
      → db.get id (log_event db now j event_type detail g).store ≡ db.get id g.store
  unfolding device_step
  get-log_event now id j event_type detail g =
      db.get-view id (db.call (event_call now j event_type detail) g.store).1
      ∙ ap (λ o. fetched o) (db.view-call id (event_call now j event_type detail) g.store)
      ∙ sym (db.get-view id g.store)

  get-revoked :
      (id : Bytes) (reason : String) (s : S) (rec : DeviceRecord)
      → db.view id s ≡ some rec
      → db.get id (db.call (revoke_call id reason) s).1
        ≡ revoked (record rec { revoked = true; revoked_reason = reason })
  get-revoked id reason s rec found =
      rw
        (
          db.get-view id (db.call (revoke_call id reason) s).1,
          db.view-call id (revoke_call id reason) s,
          found,
        )
        (unfold device_step in rw (beq_refl id) refl)

  -- The gateway after the session went, before the event is logged.
  abbrev unlinked : Bytes → Gateway S → Gateway S
  unlinked id g = elim (lookup id g.sessions) [ none ↦ g | some ref ↦ end_session id ref g ]

  sessions-unlinked :
      (id j : Bytes) (g : Gateway S)
      → lookup j (unlinked id g).sessions ≡ (if id == j then none else lookup j g.sessions)
  sessions-unlinked id j g = elim (Option-cases (lookup id g.sessions)) [
    | inl e ↦
        rw (unlinked, e)
          (elim (Bool-cases (id == j)) [
            | inl same ↦
                let p = (list_beq_iff id j).0 same in
                let none_there : lookup j g.sessions ≡ none = rw p at e in rw same none_there
            | inr other ↦ rw other refl
          ])
    | inr (ref, e) ↦ rw (unlinked, e) (lookup-delete id j g.sessions)
  ]

  store-unlinked : (id : Bytes) (g : Gateway S) → (unlinked id g).store ≡ g.store
  store-unlinked id g = ground arith

  pub revoke-run :
      (now : ℕ) (id : Bytes) (reason detail : String) (g : Gateway S) (rec : DeviceRecord)
      → db.view id g.store ≡ some rec
      → revoke_and_close_session db now id reason detail g ≡ (
        ok tt,
        log_event db now id "revoked" detail (
            count inc_device_revoked
              (unlinked id (record g { store = (db.call (revoke_call id reason) g.store).1 }))),
      )
  unfolding revoke_and_close_session
  revoke-run now id reason detail g rec found =
      let answer : (db.call (revoke_call id reason) g.store).0 ≡ ok tt =
        rw (db.revoke-answer id reason g.store, found) refl in
      rw (revoke_and_close_session, answer) refl

  pub revoke_and_close-IsCutOff :
      (now : ℕ) (id : Bytes) (reason detail : String) (g : Gateway S) (rec : DeviceRecord)
      → db.view id g.store ≡ some rec
      → IsCutOff id (revoke_and_close_session db now id reason detail g).1
  revoke_and_close-IsCutOff now id reason detail g rec found =
      let g1 = record g { store = (db.call (revoke_call id reason) g.store).1 } in
      rw (revoke-run now id reason detail g rec found) (record {
        in_store = (
          record rec { revoked = true; revoked_reason = reason },
          get-log_event now id id "revoked" detail (count inc_device_revoked (unlinked id g1))
              ∙ ap (λ st. db.get id st) (store-unlinked id g1)
              ∙ get-revoked id reason g.store rec found,
        );
        no_session = sessions-unlinked id id g1 ∙ rw (beq_refl id) refl;
      })

  -- Whether the object is the device's session.
  abbrev pub is_session_of : Bytes → ℕ → Gateway S → Bool
  is_session_of id ref g = elim (lookup id g.sessions) [ none ↦ false | some own ↦ own == ref ]

  abbrev pub close_if : Bool → Option Session → Option Session
  close_if shut o = elim o [ none ↦ none | some s ↦ some (if shut then close s else s) ]

  lookup-close_one :
      (own ref : ℕ) (heap : Map ℕ Session)
      → lookup ref (close_one own heap) ≡ close_if (own == ref) (lookup ref heap)
  lookup-close_one own ref heap = elim (Option-cases (lookup own heap)) [
    | inl gone ↦
        rw (close_one, gone)
          (elim (Option-cases (lookup ref heap)) [
            | inl none_there ↦ rw none_there refl
            | inr (s, live) ↦ ground (arith, gone, live, nat_beq_iff own ref)
          ])
    | inr (s, live) ↦
        rw (close_one, live, lookup-insert own ref (close s) heap)
          (elim (Option-cases (lookup ref heap)) [
            | inl gone ↦ ground (arith, gone, live, nat_beq_iff own ref)
            | inr (t, there) ↦ ground (arith, live, there, nat_beq_iff own ref)
          ])
  ]

  heap-unlinked :
      (id : Bytes) (ref : ℕ) (g : Gateway S)
      → lookup ref (unlinked id g).heap ≡ close_if (is_session_of id ref g) (lookup ref g.heap)
  heap-unlinked id ref g = elim (Option-cases (lookup id g.sessions)) [
    | inl e ↦
        rw (unlinked, is_session_of, e)
          (elim (Option-cases (lookup ref g.heap)) [
            | inl gone ↦ rw gone refl
            | inr (s, live) ↦ rw live refl
          ])
    | inr (own, e) ↦ rw (unlinked, is_session_of, e) (lookup-close_one own ref g.heap)
  ]

  -- The administrator revokes a device that the store knows, connected or not. That succeeds: the
  -- device is revoked in the store and has no session; of the session objects, the one that was its
  -- session, if it had one, is closed and wiped, and every other is as it was; and every other
  -- device's entry in the session map is as it was.
  pub revoke_device_cuts_off :
      (now : ℕ) (id other : Bytes) (ref : ℕ) (reason : String) (g : Gateway S) (rec : DeviceRecord)
      → db.view id g.store ≡ some rec
      → let r = revoke_device db now id reason g in
        (r.0 ≡ ok tt)
        × IsCutOff id r.1
        × (lookup ref r.1.heap ≡ close_if (is_session_of id ref g) (lookup ref g.heap))
        × (lookup other r.1.sessions ≡ (if id == other then none else lookup other g.sessions))
  unfolding revoke_device
  revoke_device_cuts_off now id other ref reason g rec found =
      let detail = str_append "отозвано: " reason in
      let g1 = record g { store = (db.call (revoke_call id reason) g.store).1 } in
      let run = revoke-run now id reason detail g rec found in
      (
        rw run refl,
        revoke_and_close-IsCutOff now id reason detail g rec found,
        rw run (heap-unlinked id ref g1),
        rw run (sessions-unlinked id other g1),
      )
