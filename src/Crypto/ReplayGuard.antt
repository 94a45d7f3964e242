-- ===== src/Crypto/ReplayGuard.antt =====
-- internal/crypto/replay.go: the guard of the handshake's nonces, two generations of entries.
-- Times and durations are nanoseconds; a `ttl` of 0 stands for every one that is not positive.
pub mod Memory
pub mod Fresh
use lacert.Prelude.{
  Bool, Bytes, Map, Result, [], err, false, if◌then◌else◌, insert, length, list_eq, lookup, ltb,
  nat_eq, none, ok, pair_eq, some, string_eq, ℕ, ◌*◌, ◌+◌, ◌/◌, ◌==◌,
}
use lacert.Crypto.Session.{CryptoError, replay_detected, second}

-- The device's id and the nonce.
abbrev pub NonceKey : Type 0
NonceKey = Bytes × Bytes

pub record ReplayGuard : Type 0 where
  pub current : Map NonceKey ℕ
  pub previous : Map NonceKey ℕ
  pub rotated : ℕ
  pub ttl : ℕ

abbrev pub default_nonce_ttl : ℕ
default_nonce_ttl = 300 * second

unfoldable pub new_replay_guard : ℕ → ℕ → ReplayGuard
new_replay_guard ttl now = record {
  current = [];
  previous = [];
  rotated = now;
  ttl = if ttl == 0 then default_nonce_ttl else ttl;
}

unfoldable pub rotate_if_due : ℕ → ReplayGuard → ReplayGuard
rotate_if_due now g =
    if ltb now (g.rotated + g.ttl / 2)
    then g
    else record g { previous = g.current; current = []; rotated = now }

-- `seenAt, ok := m[key]; ok && now.Sub(seenAt) < g.ttl`
unfoldable pub seen_within : ℕ → ℕ → NonceKey → Map NonceKey ℕ → Bool
seen_within ttl now key m = elim (lookup key m) [
  | none ↦ false
  | some seen_at ↦ ltb now (seen_at + ttl)
]

unfoldable pub check_and_remember :
    ℕ → Bytes → Bytes → ReplayGuard → Result CryptoError (Unit {0}) × ReplayGuard
unfolding seen_within rotate_if_due
check_and_remember now device_id nonce g0 =
    let g = rotate_if_due now g0 in
    let key : NonceKey = (device_id, nonce) in
    if seen_within g.ttl now key g.current
    then (err replay_detected, g)
    else if seen_within g.ttl now key g.previous
    then (err replay_detected, g)
    else (ok tt, record g { current = insert key now g.current })

unfoldable pub size : ReplayGuard → ℕ
size g = length g.current + length g.previous
