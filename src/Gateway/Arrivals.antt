-- ===== src/Gateway/Arrivals.antt =====
-- Messages that come to the gateway, and what they do to its replay guard.
use lacert.Prelude.{
  Bytes, List, Map, Option-cases, [], ap, arith, delete, inl, inr, list_eq, lookup, nat_eq, pair_eq,
  refl, string_eq, ℕ, ◌∙◌, ◌∷◌, ◌≡◌,
}
use lacert.Crypto.Primitives.{Primitives}
use lacert.Crypto.Messages.{HandshakeMsg1, HandshakeMsg3}
use lacert.Crypto.ReplayGuard.{check_and_remember}
use lacert.Crypto.ReplayGuard.Memory.{GuardCall, check_calls}
use lacert.Store.Calls.{DeviceStore}
use lacert.Gateway.State.{Gateway, GatewaySettings, PendingHandshake}
use lacert.Gateway.Handshakes.{handle_msg1, remember_attempt, handle_msg3, finish_handshake}
use lacert.Gateway.Traffic.{handle_data, accept_data, store_reading}

-- First messages, third messages and packets, at their times.
pub data Arrival : Type 0 where
  first_comes : (now : ℕ) (seed gateway_nonce : Bytes) (m : HandshakeMsg1) → Arrival
  third_comes : (now : ℕ) (id : Bytes) (attempt : ℕ) (m : HandshakeMsg3) → Arrival
  packet_comes : (now : ℕ) (id nonce ciphertext : Bytes) → Arrival

-- The calls of the replay guard that arrivals bring about.
abbrev pub guard_calls : List Arrival → List GuardCall
guard_calls [] = []
guard_calls (first_comes now _ _ m ∷ more) = (now, m.device_id, m.nonce) ∷ guard_calls more
guard_calls (third_comes _ _ _ _ ∷ more) = guard_calls more
guard_calls (packet_comes _ _ _ _ ∷ more) = guard_calls more

module _ {PK SK S : Type 0} (lib : Primitives PK SK) (db : DeviceStore S)
    (parse : Bytes → Map Bytes Bytes) (c : GatewaySettings) where
  unfoldable pub arrives : Arrival → Gateway S → Gateway S
  arrives (first_comes now seed gateway_nonce m) g =
      (handle_msg1 lib db c now seed gateway_nonce m g).1
  arrives (third_comes now id attempt m) g = (handle_msg3 lib db c now id attempt m g).1
  arrives (packet_comes now id nonce ciphertext) g =
      (handle_data lib db parse now id nonce ciphertext g).1

  unfoldable pub arrive_all : List Arrival → Gateway S → Gateway S
  arrive_all [] g = g
  arrive_all (a ∷ more) g = arrive_all more (arrives a g)

  pub guard-handle_msg1 :
      (now : ℕ) (seed gateway_nonce : Bytes) (m : HandshakeMsg1) (g : Gateway S)
      → (handle_msg1 lib db c now seed gateway_nonce m g).1.replay_guard
        ≡ (check_and_remember now m.device_id m.nonce g.replay_guard).1
  unfolding handle_msg1 remember_attempt
  guard-handle_msg1 now seed gateway_nonce m g = ground arith

  guard-finish :
      (now : ℕ) (id : Bytes) (m : HandshakeMsg3) (p : PendingHandshake) (g : Gateway S)
      → (finish_handshake lib db c now id m p g).1.replay_guard ≡ g.replay_guard
  unfolding finish_handshake
  guard-finish now id m p g = ground arith

  guard-handle_msg3 :
      (now : ℕ) (id : Bytes) (attempt : ℕ) (m : HandshakeMsg3) (g : Gateway S)
      → (handle_msg3 lib db c now id attempt m g).1.replay_guard ≡ g.replay_guard
  unfolding handle_msg3
  guard-handle_msg3 now id attempt m g = elim (Option-cases (lookup id g.pending_handshake)) [
    | inl e ↦ rw (handle_msg3, e) refl
    | inr (p, e) ↦
        let rest =
          guard-finish now id m p
            (record g { pending_handshake = delete id g.pending_handshake }) in
        ground (arith, rest)
  ]

  guard-handle_data :
      (now : ℕ) (id nonce ciphertext : Bytes) (g : Gateway S)
      → (handle_data lib db parse now id nonce ciphertext g).1.replay_guard ≡ g.replay_guard
  unfolding handle_data accept_data store_reading
  guard-handle_data now id nonce ciphertext g = ground arith

  pub guard-arrive_all :
      (more : List Arrival) (g : Gateway S)
      → (arrive_all more g).replay_guard ≡ check_calls (guard_calls more) g.replay_guard
  unfolding arrive_all arrives check_calls
  guard-arrive_all [] g = refl
  guard-arrive_all (first_comes now seed gateway_nonce m ∷ more) g =
      guard-arrive_all more (handle_msg1 lib db c now seed gateway_nonce m g).1
      ∙ ap (λ r. check_calls (guard_calls more) r) (guard-handle_msg1 now seed gateway_nonce m g)
  guard-arrive_all (third_comes now id attempt m ∷ more) g =
      guard-arrive_all more (handle_msg3 lib db c now id attempt m g).1
      ∙ ap (λ r. check_calls (guard_calls more) r) (guard-handle_msg3 now id attempt m g)
  guard-arrive_all (packet_comes now id nonce ciphertext ∷ more) g =
      guard-arrive_all more (handle_data lib db parse now id nonce ciphertext g).1
      ∙ ap (λ r. check_calls (guard_calls more) r) (guard-handle_data now id nonce ciphertext g)
