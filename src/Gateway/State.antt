-- ===== src/Gateway/State.antt =====
-- internal/gateway/gateway.go: the gateway's state and its sessions. A handler is one step, taken at
-- the time `now`, which stands for all its readings of the clock. A `*crypto.Session` is a number:
-- `heap` has the session objects by their numbers, those that are no longer in the map included.
use lacert.Prelude.{
  Bool, Bytes, Map, Option, Option-cases, Result, String, [], arith, beq_refl, err, false, inl, inr,
  insert, length, list_eq, lookup, lookup-insert, nat_eq, none, ok, pair_eq, refl, some, string_eq,
  ℕ, ◌*◌, ◌≡◌,
}
use lacert.Crypto.Messages.{HandshakeMsg1, HandshakeMsg2}
use lacert.Crypto.Session.{Session, CryptoError, Settings, default_settings, second, current_key}
use lacert.Crypto.Rotation.{pending_rotation}
use lacert.Crypto.ReplayGuard.{ReplayGuard, new_replay_guard, default_nonce_ttl}
use lacert.Store.Types.{StoreError}
use lacert.Store.Calls.{DeviceStore, event_call}
use lacert.Gateway.Metrics.{Metrics, no_metrics}

pub record PendingHandshake : Type 0 where
  pub id : ℕ  -- uint64
  pub msg1 : HandshakeMsg1
  pub msg2 : HandshakeMsg2
  pub shared_secret : Bytes
  pub issued_at : ℕ

pub record PendingFirmwareCheck : Type 0 where
  pub challenge : Bytes
  pub issued_at : ℕ

-- A pointer, and what it points to.
pub record Instance : Type 0 where
  pub ref : ℕ
  pub state : Session

pub record Gateway (S : Type 0) : Type 0 where
  pub store : S
  pub log_session_keys : Bool
  pub pending_handshake : Map Bytes PendingHandshake
  pub next_pending_id : ℕ  -- uint64
  pub pending_firmware : Map Bytes PendingFirmwareCheck
  pub sessions : Map Bytes ℕ
  pub heap : Map ℕ Session
  pub next_ref : ℕ
  pub replay_guard : ReplayGuard
  pub metrics : Metrics

pub data GatewayError : Type 0 where
  store_failed : StoreError → GatewayError
  crypto_failed : CryptoError → GatewayError
  no_active_session no_pending_handshake handshake_superseded handshake_expired : GatewayError
  invalid_device_id checksum_mismatch device_is_revoked : GatewayError
  challenge_pending no_pending_challenge challenge_expired : GatewayError

-- The package's variables, and what `Error()` gives for an error of a rotation.
pub record GatewaySettings : Type 0 where
  pub pending_handshake_timeout : ℕ
  pub firmware_challenge_timeout : ℕ
  pub firmware_response_validity : ℕ
  pub session : Settings
  pub error_text : CryptoError → String

abbrev pub default_gateway_settings : (CryptoError → String) → GatewaySettings
default_gateway_settings error_text = record {
  pending_handshake_timeout = 20 * second;
  firmware_challenge_timeout = 25 * second;
  firmware_response_validity = 15 * second;
  session = default_settings;
  error_text = error_text;
}

unfoldable pub new_with_store : {S : Type 0} → S → ℕ → Gateway S
new_with_store s now = record {
  store = s;
  log_session_keys = false;
  pending_handshake = [];
  next_pending_id = 0;
  pending_firmware = [];
  sessions = [];
  heap = [];
  next_ref = 0;
  replay_guard = new_replay_guard default_nonce_ttl now;
  metrics = no_metrics;
}

abbrev pub Handler : Type 0 → Type 0 → Type 0
Handler S A = Gateway S → Result GatewayError A × Gateway S

module _ {S : Type 0} where
  abbrev pub count : (Metrics → Metrics) → Gateway S → Gateway S
  count f g = record g { metrics = f g.metrics }

  -- `session`. Each number in the map has its object.
  unfoldable pub session : Bytes → Gateway S → Option Instance
  session device_id g = elim (lookup device_id g.sessions) [
    | none ↦ none
    | some ref ↦ elim (lookup ref g.heap) [
      | none ↦ none
      | some s ↦ some (record { ref = ref; state = s })
    ]
  ]

  -- A method changes the object behind the pointer.
  abbrev pub put_session : ℕ → Session → Gateway S → Gateway S
  put_session ref s g = record g { heap = insert ref s g.heap }

  unfoldable pub control_key : Bytes → Gateway S → Result GatewayError Bytes
  unfolding session current_key
  control_key device_id g = elim (session device_id g) [
    | none ↦ err no_active_session
    | some i ↦ elim (current_key i.state) [ err e ↦ err (crypto_failed e) | ok key ↦ ok key ]
  ]

  unfoldable pub has_pending_rotation : Bytes → Gateway S → Bool
  unfolding session pending_rotation
  has_pending_rotation device_id g = elim (session device_id g) [
    | none ↦ false
    | some i ↦ pending_rotation i.state
  ]

  unfoldable pub session_iteration : Bytes → Gateway S → ℕ
  unfolding session
  session_iteration device_id g = elim (session device_id g) [
    | none ↦ 0
    | some i ↦ i.state.iteration
  ]

  unfoldable pub active_session_count : Gateway S → ℕ
  active_session_count g = length g.sessions

module _ {S : Type 0} (db : DeviceStore S) where
  -- `_ = g.Store.LogEvent(...)`
  abbrev pub log_event : ℕ → Bytes → String → String → Gateway S → Gateway S
  log_event now device_id event_type detail g = record g {
    store = (db.call (event_call now device_id event_type detail) g.store).1;
  }

module _ {S : Type 0} where
  pub session-linked :
      (id : Bytes) (g : Gateway S) (i : Instance)
      → session id g ≡ some i
      → (lookup id g.sessions ≡ some i.ref) × (lookup i.ref g.heap ≡ some i.state)
  unfolding session
  session-linked id g i h = elim (Option-cases (lookup id g.sessions)) [
    | inl e ↦ absurd (ground arith)
    | inr (ref, e) ↦ elim (Option-cases (lookup ref g.heap)) [
      | inl f ↦ absurd (ground arith)
      | inr (s, f) ↦ let same : i ≡ record { ref = ref; state = s } = ground arith in rw same (e, f)
    ]
  ]

  pub session-put_session :
      (id : Bytes) (g : Gateway S) (i : Instance) (s : Session)
      → session id g ≡ some i
      → session id (put_session i.ref s g) ≡ some (record { ref = i.ref; state = s })
  unfolding session
  session-put_session id g i s h =
      let (linked, live) = session-linked id g i h in
      rw (session, linked, lookup-insert i.ref i.ref s g.heap, beq_refl i.ref) refl
