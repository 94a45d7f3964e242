-- ===== src/Gateway/Lifecycle.antt =====
-- internal/gateway/gateway.go: sessions end, by disconnection, revocation or shutdown. The secrets
-- of pending handshakes, which are overwritten as they are dropped, go with their entries.
use lacert.Prelude.{
  Bool, Bytes, Map, Option, Result, String, [], delete, err, false, if◌then◌else◌, insert, list_eq,
  lookup, nat_eq, none, not, ok, pair_eq, some, str_append, string_eq, true, ℕ, ◌+◌, ◌==◌, ◌∷◌,
}
use lacert.Crypto.Session.{Session, close}
use lacert.Store.Types.{active, revoked, missing, device_not_found}
use lacert.Store.Calls.{DeviceStore, revoke_call, delete_call}
use lacert.Gateway.Metrics.{inc_device_revoked}
use lacert.Gateway.State.{Gateway, GatewayError, store_failed, Handler, count, log_event}

-- `for id, s := range g.sessions { s.Close(); delete(g.sessions, id); closed++ }`
abbrev pub close_one : ℕ → Map ℕ Session → Map ℕ Session
close_one ref heap = elim (lookup ref heap) [ none ↦ heap | some s ↦ insert ref (close s) heap ]

module _ {S : Type 0} where
  -- `s.Close(); delete(g.sessions, deviceID)`
  abbrev pub end_session : Bytes → ℕ → Gateway S → Gateway S
  end_session device_id ref g = record g {
    sessions = delete device_id g.sessions;
    heap = close_one ref g.heap;
  }

  -- `closeSession`; `want` is the pointer, if it is not nil.
  unfoldable pub close_session_of : Bytes → Option ℕ → Gateway S → Bool × Gateway S
  close_session_of device_id want g = elim (lookup device_id g.sessions) [
    | none ↦ (false, g)
    | some ref ↦ elim want [
      | none ↦ (true, end_session device_id ref g)
      | some wanted ↦
          if not (ref == wanted) then (false, g) else (true, end_session device_id ref g)
    ]
  ]

  unfoldable pub close_session : Bytes → Gateway S → Bool × Gateway S
  unfolding close_session_of
  close_session device_id g = close_session_of device_id none g

  unfoldable pub close_session_instance : Bytes → Option ℕ → Gateway S → Bool × Gateway S
  unfolding close_session_of
  close_session_instance device_id want g = elim want [
    | none ↦ (false, g)
    | some ref ↦ close_session_of device_id (some ref) g
  ]

  unfoldable pub current_session : Bytes → Gateway S → Option ℕ
  current_session device_id g = lookup device_id g.sessions

  -- `for id, s := range g.sessions { s.Close(); delete(g.sessions, id); closed++ }`
  unfoldable pub close_all : Map Bytes ℕ → ℕ × Gateway S → ℕ × Gateway S
  close_all [] (closed, g) = (closed, g)
  close_all ((id, ref) ∷ rest) (closed, g) = close_all rest (closed + 1, end_session id ref g)

  unfoldable pub shutdown : Gateway S → ℕ × Gateway S
  unfolding close_all
  shutdown g =
      let (closed, g1) = close_all g.sessions (0, g) in
      (closed, record g1 { pending_handshake = []; pending_firmware = [] })

module _ {S : Type 0} (db : DeviceStore S) where
  unfoldable pub revoke_and_close_session : ℕ → Bytes → String → String → Handler S (Unit {0})
  revoke_and_close_session now device_id reason event_detail g =
      let (answer, store) = db.call (revoke_call device_id reason) g.store in
      let g1 = record g { store = store } in
      let g2 : Gateway S = elim (lookup device_id g1.sessions) [
        | none ↦ g1
        | some ref ↦ end_session device_id ref g1
      ] in
      elim answer [
        | err e ↦ (err (store_failed e), g1)
        | ok _ ↦
            (ok tt, log_event db now device_id "revoked" event_detail (count inc_device_revoked g2))
      ]

  unfoldable pub revoke_device : ℕ → Bytes → String → Handler S (Unit {0})
  unfolding revoke_and_close_session
  revoke_device now device_id reason g =
      revoke_and_close_session now device_id reason (str_append "отозвано: " reason) g

  unfoldable pub delete_device : Bytes → Handler S (Unit {0})
  unfolding close_session
  delete_device device_id g =
      let g1 = (close_session device_id g).1 in
      let (answer, store) = db.call (delete_call device_id) g1.store in
      let deleted : Result GatewayError (Unit {0}) × Gateway S = elim answer [
        | err e ↦ (err (store_failed e), record g1 { store = store })
        | ok _ ↦ (ok tt, record g1 { store = store })
      ] in
      elim (db.get device_id g.store) [
        | missing ↦ (err (store_failed device_not_found), g)
        | active _ ↦ deleted
        | revoked _ ↦ deleted
      ]
