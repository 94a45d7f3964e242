-- ===== src/Transport/Network.antt =====
-- Sockets. internal/transport/tcpserver/server.go: `writeFrameWithDeadline`, on a socket that the code
-- can write to and close.
use lacert.Prelude.{Bool, Bytes, false, if◌then◌else◌, length, ltb, true, ℕ}
use lacert.Wire.Frame.{Writer, header, max_frame_size}
use lacert.Wire.MessageType

-- What `net.Conn`s do to the state `N` of the network: a socket is a number, and a call's flag says
-- that it gave no error. A write that takes longer than its deadline is one that fails.
pub record Network (N : Type 0) : Type 0 where
  pub write : ℕ → Bytes → N → N × Bool
  pub close_conn : ℕ → N → N
  pub remote_addr : ℕ → Bytes

module _ {N : Type 0} (net : Network N) where
  -- `wire.WriteFrame` to a socket, which is not buffered; the network's state is kept on failure too.
  unfoldable pub write_frame_with_deadline : ℕ → ℕ → Bytes → N → N × Bool
  write_frame_with_deadline conn msg_type payload n =
      let (n1, wrote) = net.write conn (header msg_type payload) n in
      if ltb max_frame_size (length payload)
      then (n, false)
      else if wrote
      then net.write conn payload n1
      else (n1, false)

  -- A frame that carries the text of an error, and whose own failure is ignored.
  abbrev pub write_error : ℕ → Bytes → N → N
  write_error conn text n = (write_frame_with_deadline conn MessageType.error text n).0

  abbrev pub conn_writer : ℕ → Writer N
  conn_writer conn = record {
    write = λ n b. net.write conn b n;
    buffered = false;
    flush = λ n. (n, true);
  }
