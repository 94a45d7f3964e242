-- ===== src/Gateway/Connections.antt =====
-- Which session the end of a connection closes.
use lacert.Prelude.{
  Bool-cases, Bytes, beq_refl, false, if◌then◌else◌, inl, inr, list_eq, lookup, lookup-delete,
  lookup-insert, nat_eq, none, not, pair_eq, refl, some, string_eq, true, ℕ, ◌==◌, ◌≡◌,
}
use lacert.Crypto.Session.{Session, close}
use lacert.Gateway.State.{Gateway}
use lacert.Gateway.Lifecycle.{close_one, end_session, close_session_of, close_session_instance}

module _ {S : Type 0} where
  pub close-run :
      (device_id : Bytes) (mine ref : ℕ) (g : Gateway S)
      → lookup device_id g.sessions ≡ some ref
      → close_session_instance device_id (some mine) g
        ≡ (if not (ref == mine) then (false, g) else (true, end_session device_id ref g))
  unfolding close_session_instance close_session_of
  close-run device_id mine ref g linked = rw (close_session_instance, close_session_of, linked) refl

  -- The end of a connection closes the session of its device if it is the one that the connection
  -- made: it is out of the map, wiped and closed. If the device has connected again meanwhile, it
  -- changes nothing. The sessions of other devices stay in the map either way.
  pub close_session_instance_own :
      (device_id other : Bytes) (mine ref : ℕ) (s : Session) (g : Gateway S)
      → lookup device_id g.sessions ≡ some ref
      → lookup ref g.heap ≡ some s
      → (device_id == other) ≡ false
      → let r = close_session_instance device_id (some mine) g in
        (lookup other r.1.sessions ≡ lookup other g.sessions)
        × (if ref == mine
            then (r.0 ≡ true)
              × (lookup device_id r.1.sessions ≡ none)
              × (lookup ref r.1.heap ≡ some (close s))
            else r ≡ (false, g))
  close_session_instance_own device_id other mine ref s g linked live apart =
      elim (Bool-cases (ref == mine)) [
        | inl e ↦
            rw (close-run device_id mine ref g linked, e)
              (
                rw (lookup-delete device_id other g.sessions, apart) refl,
                (
                  refl,
                  rw (lookup-delete device_id device_id g.sessions, beq_refl device_id) refl,
                  rw (close_one, live, lookup-insert ref ref (close s) g.heap, beq_refl ref) refl,
                ),
              )
        | inr e ↦ rw (close-run device_id mine ref g linked, e) (refl, refl)
      ]
