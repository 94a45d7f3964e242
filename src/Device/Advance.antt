-- ===== src/Device/Advance.antt =====
-- The calls that a rotation consists of, between two ends in step.
use lacert.Prelude.{Bytes, arith, refl, sym, ℕ, ◌≡◌}
use lacert.Crypto.Primitives.{Primitives}
use lacert.Crypto.Session.{Session}
use lacert.Crypto.Session.Window.{IsWindow}
use lacert.Crypto.Rotation.{next_iteration, derive_next_key}
use lacert.Crypto.Rotation.Outcomes.{IsReady, stepped}
use lacert.Gateway.State.{Gateway}
use lacert.Device.{Device}
use lacert.Device.Channel.{IsInStep}

pub IsReady-sym : {s t : Session} → IsReady s t → IsReady t s
IsReady-sym h = record {
  gateway_sizes = h.device_sizes;
  device_sizes = h.gateway_sizes;
  opened = (h.opened.1, h.opened.0);
  idle = (h.idle.1, h.idle.0);
  level = (sym h.level.0, sym h.level.1);
}

pub stepped-IsWindow :
    (t0 t1 : ℕ) (k : Bytes) (i : ℕ) (s : Session) → IsWindow (stepped t0 t1 k i s)
stepped-IsWindow t0 t1 k i s = record {
  same = λ id. refl;
  distinct = tt;
  distinct_set = tt;
  bounded = omega arith;
}

-- Both ends are in step again, at the next number and on the key derived from the old one and `mi`.
pub record IsAdvanced {PK SK S : Type 0} (lib : Primitives PK SK) (mi : Bytes) {d : Device PK SK}
    {g : Gateway S} (h : IsInStep d g) (d' : Device PK SK) (g' : Gateway S) : Type 0 where
  pub again : IsInStep d' g'
  pub number : again.near.iteration ≡ next_iteration h.near.iteration
  pub derived :
      again.near.key ≡ derive_next_key lib.hash h.near.key mi (next_iteration h.near.iteration)
  pub restarted : again.near.packet_count ≡ 0
