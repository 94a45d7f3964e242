-- ===== src/Transport/Server.antt =====
-- internal/transport/tcpserver/server.go: the server and its table of connections. A connection is a
-- number, which stands for the socket and for the `*connEntry` that it gets. Each accepted connection
-- has a goroutine that stands at a read; `Phase` says at which.
use lacert.Prelude.{
  Bool, Bytes, List, Map, Option, [], delete, false, if◌then◌else◌, insert, leb, list_eq, lookup,
  nat_eq, none, pair_eq, some, string_eq, true, ℕ, ◌+◌, ◌-◌, ◌==◌, ◌∷◌,
}
use lacert.Gateway.State.{Gateway}
use lacert.Gateway.Lifecycle.{close_session_instance}
use lacert.Transport.Network.{Network, write_error}

pub data Phase : Type 0 where
  awaiting_msg1 : Phase
  awaiting_msg3 : (device_id : Bytes) (pending_id : ℕ) → Phase
  serving : (device_id : Bytes) (own_session : Option ℕ) → Phase

pub record ConnEntry : Type 0 where
  pub remote : Bytes
  pub last_seen : ℕ

-- What the goroutines share beside the table: the gateway, the network, the entries that the pointers
-- of the table point to, and the calls of `OnData` that were made.
pub record Traffic (S N : Type 0) : Type 0 where
  pub gateway : Gateway S
  pub network : N
  pub entries : Map ℕ ConnEntry
  pub delivered : List (Bytes × Bytes)

pub record Server (S N : Type 0) : Type 0 where
  pub conns : Map Bytes ℕ
  pub accepted : Map ℕ Phase
  pub active : ℕ
  pub next_conn : ℕ
  pub closing : Bool
  pub traffic : Traffic S N

unfoldable pub new_server : {S N : Type 0} → Gateway S → N → Server S N
new_server g n = record {
  conns = [];
  accepted = [];
  active = 0;
  next_conn = 0;
  closing = false;
  traffic = record { gateway = g; network = n; entries = []; delivered = [] };
}

-- `for c := range s.accepted { c.Close() }`
unfoldable pub close_each : {N : Type 0} → Network N → Map ℕ Phase → N → N
close_each net [] n = n
close_each net ((conn, _) ∷ rest) n = close_each net rest (net.close_conn conn n)

module _ {S N : Type 0} (net : Network N) where
  abbrev pub close_socket : ℕ → Server S N → Server S N
  close_socket conn s = record s {
    traffic = record s.traffic { network = net.close_conn conn s.traffic.network };
  }

  -- One turn of `Serve`'s loop: a new socket comes in.
  unfoldable pub accept : ℕ → Server S N → Server S N
  accept limit s =
      let conn = s.next_conn in
      let s1 = record s { next_conn = s.next_conn + 1 } in
      if s.closing
      then close_socket conn s1
      else if leb limit s.active
      then close_socket conn s1
      else record s1 { active = s.active + 1; accepted = insert conn awaiting_msg1 s.accepted }

  -- The new connection replaces the device's old one, whose socket is closed.
  unfoldable pub register_conn : Bytes → ℕ → Server S N → Server S N
  register_conn device_id conn s =
      let s1 = record s { conns = insert device_id conn s.conns } in
      elim (lookup device_id s.conns) [ none ↦ s1 | some old ↦ close_socket old s1 ]

  -- Only the entry's own connection is taken out.
  unfoldable pub unregister_conn : Bytes → ℕ → Server S N → Server S N
  unregister_conn device_id conn s = elim (lookup device_id s.conns) [
    | none ↦ s
    | some current ↦ if current == conn then record s { conns = delete device_id s.conns } else s
  ]

  -- The deferred calls at the end of a connection's goroutine.
  unfoldable pub finish_conn : ℕ → Server S N → Server S N
  finish_conn conn s =
      let s1 = close_socket conn s in
      record s1 { active = s.active - 1; accepted = delete conn s.accepted }

  -- From the end of `serveSession` on: the session that this connection's handshake made is closed.
  unfoldable pub end_service : Bytes → Option ℕ → ℕ → Server S N → Server S N
  unfolding unregister_conn
  end_service device_id own_session conn s =
      let g = (close_session_instance device_id own_session s.traffic.gateway).1 in
      unregister_conn device_id conn (record s { traffic = record s.traffic { gateway = g } })

  -- `Shutdown`, up to the wait for the goroutines.
  unfoldable pub shutdown_server : Server S N → Server S N
  unfolding close_each
  shutdown_server s = record s {
    closing = true;
    traffic = record s.traffic { network = close_each net s.accepted s.traffic.network };
  }

  -- `Disconnect`: an error frame with the reason, and the socket is closed. The table changes when the
  -- goroutine sees that.
  unfoldable pub disconnect : Bytes → Bytes → Server S N → Bool × Server S N
  disconnect device_id reason s = elim (lookup device_id s.conns) [
    | none ↦ (false, s)
    | some conn ↦ (
      true,
      record s {
        traffic = record s.traffic {
          network = net.close_conn conn (write_error net conn reason s.traffic.network);
        };
      },
    )
  ]

abbrev pub keys_of : Map Bytes ℕ → List Bytes
keys_of [] = []
keys_of ((id, _) ∷ rest) = id ∷ keys_of rest

pub record Status : Type 0 where
  pub online : Bool
  pub remote_addr : Bytes
  pub last_seen : ℕ

module _ {S N : Type 0} where
  unfoldable pub active_conn : Bytes → Server S N → Option ℕ
  active_conn device_id s = lookup device_id s.conns

  unfoldable pub active_device_ids : Server S N → List Bytes
  active_device_ids s = keys_of s.conns

  unfoldable pub active_connections : Server S N → ℕ
  active_connections s = s.active

  -- `Server.Status`; its flag says that the device is connected.
  unfoldable pub status : Bytes → Server S N → Option Status
  status device_id s = elim (lookup device_id s.conns) [
    | none ↦ none
    | some conn ↦ elim (lookup conn s.traffic.entries) [
      | none ↦ none
      | some e ↦ some (record { online = true; remote_addr = e.remote; last_seen = e.last_seen })
    ]
  ]
