-- ===== src/Transport/Table/Runs.antt =====
-- The server over every sequence of events.
use lacert.Prelude.{
  Bytes, List, Option-cases, Result, [], inl, inr, list_eq, lookup, nat_eq, pair_eq, string_eq, ℕ,
  ◌∷◌,
}
use lacert.Wire.Frame.{WireError}
use lacert.Gateway.State.{Gateway}
use lacert.Transport.Server.{Server, new_server, accept, shutdown_server, disconnect}
use lacert.Transport.Connection.{Setup, receive}
use lacert.Transport.Requests.{server_initiate_rotation, server_issue_challenge}
use lacert.Transport.Table.{HasTable, new_server-HasTable, accept-HasTable}
use lacert.Transport.Table.Frames.{receive-HasTable}

-- What happens to a server, one event after the other.
pub data Event : Type 0 where
  socket_comes : Event
  read_returns :
      (now : ℕ) (seed gateway_nonce : Bytes) (conn : ℕ) (incoming : Result WireError (ℕ × Bytes))
      → Event
  disconnects : (device_id reason : Bytes) → Event
  rotates challenges : (now : ℕ) (random device_id : Bytes) → Event
  shuts_down : Event

module _ {PK SK S N : Type 0} (u : Setup PK SK S N) where
  unfoldable pub server_step : Event → Server S N → Server S N
  server_step socket_comes s = accept u.net u.limit s
  server_step (read_returns now seed gateway_nonce conn incoming) s =
      receive u now seed gateway_nonce conn incoming s
  server_step (disconnects device_id reason) s = (disconnect u.net device_id reason s).1
  server_step (rotates now seed device_id) s = (server_initiate_rotation u now seed device_id s).1
  server_step (challenges now random device_id) s =
      (server_issue_challenge u now random device_id s).1
  server_step shuts_down s = shutdown_server u.net s

  unfoldable pub server_run : List Event → Server S N → Server S N
  unfolding server_step
  server_run [] s = s
  server_run (e ∷ es) s = server_run es (server_step e s)

  pub server_step-HasTable :
      (e : Event) (s : Server S N) → HasTable u.limit s → HasTable u.limit (server_step e s)
  unfolding server_step disconnect server_initiate_rotation server_issue_challenge
  server_step-HasTable socket_comes s h = accept-HasTable u.net u.limit s h
  server_step-HasTable (read_returns now seed gateway_nonce conn incoming) s h =
      receive-HasTable u now seed gateway_nonce conn incoming s h
  server_step-HasTable (disconnects device_id reason) s h =
      elim (Option-cases (lookup device_id s.conns)) [
        | inl e ↦ rw (server_step, disconnect, e) h
        | inr (conn, e) ↦ rw (server_step, disconnect, e) h
      ]
  server_step-HasTable (rotates now seed device_id) s h =
      elim (Option-cases (lookup device_id s.conns)) [
        | inl e ↦ rw (server_step, server_initiate_rotation, e) h
        | inr (conn, e) ↦ rw (server_step, server_initiate_rotation, e) h
      ]
  server_step-HasTable (challenges now random device_id) s h =
      elim (Option-cases (lookup device_id s.conns)) [
        | inl e ↦ rw (server_step, server_issue_challenge, e) h
        | inr (conn, e) ↦ rw (server_step, server_issue_challenge, e) h
      ]
  server_step-HasTable shuts_down s h = unfold shutdown_server in h

  server_run-HasTable :
      (es : List Event) (s : Server S N) → HasTable u.limit s → HasTable u.limit (server_run es s)
  unfolding server_run
  server_run-HasTable [] s h = h
  server_run-HasTable (e ∷ es) s h =
      server_run-HasTable es (server_step e s) (server_step-HasTable e s h)

  -- From its start on, whatever comes over the network, is asked of the server and in whatever order:
  -- the count of active connections is exact and never above the limit, no connection is there twice,
  -- and a device's entry is always a connection whose handshake was for this device.
  pub table_is_consistent :
      (es : List Event) (g : Gateway S) (n : N) → HasTable u.limit (server_run es (new_server g n))
  table_is_consistent es g n =
      server_run-HasTable es (new_server g n) (new_server-HasTable u.limit g n)
