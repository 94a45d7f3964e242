-- ===== src/Lib.antt =====
-- Verification of LACERT, a gateway that keeps encrypted sessions with constrained devices over
-- TCP: a post-quantum handshake agrees on a session key, packets are sealed under it, and the key
-- is rotated by a two-message step while packets flow.
--
-- The parts and their files
--   Prelude          Boolean tests, lists, association lists, big-endian numbers and results, shared
--                    by all.
--   Crypto           internal/crypto. Primitives has the libraries (BLAKE3, ML-KEM-1024, the AEAD and
--                    the signature schemes) as records of functions with the sizes they document;
--                    what a theorem needs beyond sizes is a hypothesis of it. Messages has the
--                    protocol's structs. ControlTag is controltag.go, Session is session.go and
--                    replay_data.go, ReplayGuard is replay.go, Rotation is rotation_atomic.go, Kem and
--                    Signature are identity.go, Handshake is handshake.go, Firmware is firmware.go and
--                    Packet is aead.go. A session's method takes the session and the clock's reading
--                    and returns the result and the new session.
--   Wire             internal/wire/wire.go. Frame is `WriteFrame` and `ReadFrame`, Field the
--                    length-framed fields, Messages the encoders and decoders.
--   Store            internal/store: Types and Calls are store.go, with the interface `DeviceStore`
--                    and its laws, and MemStore is memstore.go, which fills it. The laws are of a store
--                    that does not fail for reasons of its own: the theorems over any store do not
--                    speak of one that loses its database.
--   Gateway          internal/gateway. Metrics is metrics.go. Of gateway.go, State has the gateway and
--                    its session objects, Lifecycle the ends of sessions, Registration the offline
--                    registration, Handshakes `HandleMsg1Tracked`
--                    and `handleMsg3`, Rotations the rotation handlers, Traffic `HandleData` and the
--                    firmware checks. A handler is a function from the gateway to its result and the
--                    gateway after it, over any store that has the interface. Connections, Revocation,
--                    Entry, Answers, Arrivals, Replays, Verdicts and Shutdown are about them.
--   Regtool          internal/regtool/regtool.go: the line that a device prints for its registration, and
--                    in Hex and Line, that it is read back.
--   Device           internal/device/device.go, whose methods are functions of the device. The children
--                    put a device and the gateway together, call by call: Channel and Packets for
--                    packets, Enrolment for the registration, Standing and Greeting for the handshake,
--                    Advance and Steps for rotations, Inspection for the firmware check.
--   Transport        internal/transport. Of tcpserver/server.go, Network has the sockets, Server the
--                    table of connections, Connection `handleConn` and `serveSession`, and Requests
--                    what is sent at the scheduler's wish. Client is tcpclient/client.go. Table shows
--                    what holds of the table over all sequences of events; Guards and Endings are
--                    about single frames; Meets and Turns have a client and the server exchange
--                    frames.
--   Scheduler        internal/scheduler/scheduler.go: the tick, and in Counts, Failures,
--                    Patience, Upkeep and Challenges its counts of failures, the revocation they lead
--                    to, what it forgets, and how often it asks for a firmware check.
--   Examples         the theorems at concrete inputs, with stand-ins for the libraries.
--
-- How the parts meet
--   A rotation message is made by Crypto.Rotation from a session, tagged by Crypto.ControlTag and
--   encoded by Wire.Messages, framed by Wire.Frame; the other side undoes these in turn. The gateway
--   calls the store through its interface, the replay guard for each first message, and a session's
--   methods for each packet and rotation. The server decodes the frames of its connections, calls the
--   gateway's handlers with what they hold and writes the answers; a client does so for its device. The
--   scheduler goes over the server's table and has the server begin rotations, send challenges and
--   disconnect, and the gateway revoke.
--
-- How the code is read
--   Bytes are numbers in a list; the arrays [32]byte and [12]byte are lists whose length is a
--   hypothesis or an invariant. uint64 and uint wrap at 2^64. Times are nanoseconds and a time of 0
--   is the zero `time.Time`. A method that holds its mutex throughout is one step, and theorems
--   quantify over sequences of steps. Errors are values of CryptoError, WireError, StoreError and
--   GatewayError.
--   `putFramed` panics for a field above 65535 bytes; that is the error `field_too_large` here. No
--   definition takes fuel: loops are structural recursion.
--   A handler of the gateway is one step: the moments in which some of them release the lock are not
--   interleaved with others. A secret that is overwritten as it is dropped is dropped.
--   A connection's goroutine is cut at its reads: `Phase` says at which read it stands, and a frame, or
--   the failure of a read, takes it to the next or to its end in one step. A socket is a number and the
--   network a parameter: a write succeeds or fails, and a deadline that passes is a failed write or
--   read. A tick of the scheduler is taken at one time, and the order of a Go map's keys is the order
--   of the association list.
--
-- What is not modelled
--   The HTTP, MQTT and web parts and the emulator, which are input and output; the parser of telemetry,
--   which is an argument; the PostgreSQL store, whose behaviour is the database's; the commands, which
--   read flags and wire the parts together; the opening of sockets, the waiting for goroutines and for
--   the ticker, and lines that are only logged; key generation and randomness, which are arguments
--   where they matter; timing.
pub mod Prelude
pub mod Crypto
pub mod Wire
pub mod Store
pub mod Gateway
pub mod Regtool
pub mod Device
pub mod Transport
pub mod Scheduler
pub mod Examples
