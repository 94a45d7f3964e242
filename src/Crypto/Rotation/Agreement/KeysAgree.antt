-- ===== src/Crypto/Rotation/Agreement/KeysAgree.antt =====
-- What the two ends know of one another's keys, after any events.
use lacert.Prelude.{Bytes, [], arith, false, inl, ok, true, ℕ, ◌+◌, ◌≡◌, ◌⊎◌}
use lacert.Crypto.Primitives.{Blake3, Kem, IsKeyPair}
use lacert.Crypto.Session.{Session, new_session}
use lacert.Crypto.Rotation.Sound.{new_session-IsSound}
use lacert.Crypto.Rotation.Agreement.{
  Link, Event, starts, receives, is_told, Reach, here, next, Agree,
}
use lacert.Crypto.Rotation.Agreement.Steps.{deliver-Agree, acknowledge-Agree, initiate-Agree}

module _ {PK SK : Type 0} (hash : Blake3) (kem : Kem PK SK) (pub_key : PK) (priv : SK) where
  Event-Agree :
      {l m : Link}
      → IsKeyPair kem pub_key priv
      → Event hash kem pub_key priv l m
      → Agree hash kem pub_key priv l
      → Agree hash kem pub_key priv m
  Event-Agree {l} pair (starts now seed room) v =
      initiate-Agree hash kem pub_key priv l v now seed pair room
  Event-Agree {l} pair (receives now msg i) v = deliver-Agree hash kem pub_key priv l v now msg i
  Event-Agree {l} pair (is_told now a i) v = acknowledge-Agree hash kem pub_key priv l v now a i

  pub Reach-Agree :
      {l m : Link}
      → IsKeyPair kem pub_key priv
      → Reach hash kem pub_key priv l m
      → Agree hash kem pub_key priv l
      → Agree hash kem pub_key priv m
  Reach-Agree pair here v = v
  Reach-Agree pair (next r e) v = Event-Agree pair e (Reach-Agree pair r v)

  -- Two sessions that a handshake has just made of one key.
  fresh_link-Agree :
      (k0 : Bytes) (t0 t1 : ℕ) (g d : Session)
      → new_session k0 t0 ≡ ok g
      → new_session k0 t1 ≡ ok d
      → Agree hash kem pub_key priv (record { gateway = g; device = d; messages = []; acks = [] })
  unfolding new_session
  fresh_link-Agree k0 t0 t1 g d hg hd =
      let same : (g.iteration ≡ 0)
          × (d.iteration ≡ 0)
          × (d.key ≡ g.key)
          × (g.closed ≡ false)
          × (d.closed ≡ false)
          × (d.pending_active ≡ false)
          × (g.pending_active ≡ false) =
        ground arith in
      record {
        gateway_sound = new_session-IsSound k0 t0 g hg;
        device_sound = new_session-IsSound k0 t1 d hd;
        gateway_open = same.3;
        device_open = same.4;
        device_idle = same.5;
        room = omega (arith, same.0);
        pending_room = λ p. cc (p, same.6);
        known = tt;
        told = tt;
        level = inl (omega (arith, same.0, same.1), same.2);
      }

  -- From a handshake on, whatever the network does with the gateway's rotation messages and the
  -- device's acknowledgements (they may be lost, repeated, delayed and reordered): the device is at
  -- the gateway's step with the gateway's key, or it is one step ahead while the gateway waits for
  -- the acknowledgement and holds that very key as the pending one. This is while the gateway rolls
  -- no step back, and begins none within two of the end of uint64.
  pub keys_agree :
      (k0 : Bytes) (t0 t1 : ℕ) (g d : Session) (l : Link)
      → IsKeyPair kem pub_key priv
      → new_session k0 t0 ≡ ok g
      → new_session k0 t1 ≡ ok d
      → Reach hash kem pub_key priv (record { gateway = g; device = d; messages = []; acks = [] }) l
      → ((l.device.iteration ≡ l.gateway.iteration) × (l.device.key ≡ l.gateway.key))
        ⊎ ((l.device.iteration ≡ l.gateway.iteration + 1)
            × (l.gateway.pending_active ≡ true)
            × (l.device.key ≡ l.gateway.pending_key))
  keys_agree k0 t0 t1 g d l pair hg hd r =
      (Reach-Agree pair r (fresh_link-Agree k0 t0 t1 g d hg hd)).level
