-- ===== src/Crypto/ReplayGuard/Fresh.antt =====
-- What the guard lets through, and what it counts.
use lacert.Prelude.{
  All, Bool-cases, Bytes, List, Map, Option-cases, Unique, Unique-insert, [], ap, arith, delete,
  false, inl, inr, insert, length-delete, le→ltb, list_eq, lookup, lookup-insert,
  lookup-insert_self, ltb, nat_eq, none, ok, pair_beq_iff, pair_eq, some, string_eq, ℕ, ◌+◌, ◌/◌,
  ◌∷◌, ◌≡◌, ◌≤◌,
}
use lacert.Crypto.ReplayGuard.{
  NonceKey, ReplayGuard, new_replay_guard, rotate_if_due, seen_within, check_and_remember, size,
}
use lacert.Crypto.ReplayGuard.Memory.{
  GuardCall, check_calls, stored, check_unfolded, check_and_remember-either, ttl-rotate_if_due,
  ttl-check_calls,
}

-- Each entry of the nonce is at least `ttl` old at `now`.
abbrev IsStale : NonceKey → ℕ → ℕ → ReplayGuard → Type 0
IsStale key ttl now g =
    ((s : ℕ) → lookup key g.current ≡ some s → s + ttl ≤ now)
    × ((s : ℕ) → lookup key g.previous ≡ some s → s + ttl ≤ now)

IsStale-rotate_if_due :
    (key : NonceKey) (ttl now t : ℕ) (g : ReplayGuard)
    → IsStale key ttl now g
    → IsStale key ttl now (rotate_if_due t g)
unfolding rotate_if_due
IsStale-rotate_if_due key ttl now t g h = elim (Bool-cases (ltb t (g.rotated + g.ttl / 2))) [
  | inl e ↦ rw e h
  | inr e ↦ rw e (λ s f. unfold lookup in cc, h.0)
]

IsStale-stored :
    (key : NonceKey) (ttl now t : ℕ) (id nonce : Bytes) (g : ReplayGuard)
    → ((id, nonce) ≡ key → t + ttl ≤ now)
    → IsStale key ttl now g
    → IsStale key ttl now (stored t id nonce g)
IsStale-stored key ttl now t id nonce g old h =
    let k : NonceKey = (id, nonce) in
    (λ s f. ground (arith, lookup-insert k key t g.current, pair_beq_iff k key, old, h.0 s), h.1)

-- No call for the nonce was made within `ttl` before `now`.
abbrev pub Quiet : NonceKey → ℕ → ℕ → List GuardCall → Type 0
Quiet key ttl now = All (λ call. (call.1, call.2) ≡ key → call.0 + ttl ≤ now)

IsStale-check_calls :
    (key : NonceKey) (ttl now : ℕ) (calls : List GuardCall) (g : ReplayGuard)
    → Quiet key ttl now calls
    → IsStale key ttl now g
    → IsStale key ttl now (check_calls calls g)
unfolding check_calls
IsStale-check_calls key ttl now [] g quiet h = h
IsStale-check_calls key ttl now ((t, id, nonce) ∷ calls) g (q, quiet) h =
    let moved = IsStale-rotate_if_due key ttl now t g h in
    IsStale-check_calls key ttl now calls (check_and_remember t id nonce g).1 quiet (
      check_and_remember-either (λ r. IsStale key ttl now r.1) t id nonce g moved
        (IsStale-stored key ttl now t id nonce (rotate_if_due t g) q moved))

seen_within-stale :
    (ttl now : ℕ) (key : NonceKey) (m : Map NonceKey ℕ)
    → ((s : ℕ) → lookup key m ≡ some s → s + ttl ≤ now)
    → seen_within ttl now key m ≡ false
unfolding seen_within
seen_within-stale ttl now key m h = elim (Option-cases (lookup key m)) [
  | inl e ↦ ground arith
  | inr (s, e) ↦ ground (arith, h s e)
]

stale_is_taken :
    (now : ℕ) (id nonce : Bytes) (g : ReplayGuard)
    → IsStale (id, nonce) g.ttl now g
    → check_and_remember now id nonce g ≡ (ok tt, stored now id nonce (rotate_if_due now g))
stale_is_taken now id nonce g h =
    let key : NonceKey = (id, nonce) in
    let g1 = rotate_if_due now g in
    let h1 : IsStale key g1.ttl now g1 =
      rw (ttl-rotate_if_due now g) (IsStale-rotate_if_due key g.ttl now now g h) in
    rw (check_unfolded now id nonce g) (
      rw (seen_within-stale g1.ttl now key g1.current h1.0)
        (rw (seen_within-stale g1.ttl now key g1.previous h1.1)))

-- From a new guard on, a first message passes if the same device has not sent the same nonce
-- within the lifetime before it, whatever else was sent: no honest handshake is refused.
pub fresh_is_taken :
    (ttl start now : ℕ) (id nonce : Bytes) (calls : List GuardCall)
    → Quiet (id, nonce) (new_replay_guard ttl start).ttl now calls
    → (check_and_remember now id nonce (check_calls calls (new_replay_guard ttl start))).0 ≡ ok tt
fresh_is_taken ttl start now id nonce calls quiet =
    let g0 = new_replay_guard ttl start in
    let empty : IsStale (id, nonce) g0.ttl now g0 =
      unfold new_replay_guard lookup in (λ s f. cc, λ s f. cc) in
    let stale = IsStale-check_calls (id, nonce) g0.ttl now calls g0 quiet empty in
    ap (λ r. r.0)
      (stale_is_taken now id nonce (check_calls calls g0) (rw (ttl-check_calls calls g0) stale))

-- A nonce that comes again after an idle lifetime stands in both generations afterwards, and `Size`
-- counts it twice: without its entries the guard's size is less by two. The current generation, a Go
-- map, has no key twice.
pub same_nonce_in_both_generations :
    (now seen : ℕ) (id nonce : Bytes) (g : ReplayGuard)
    → Unique g.current
    → lookup (id, nonce) g.current ≡ some seen
    → lookup (id, nonce) g.previous ≡ none
    → seen + g.ttl ≤ now
    → g.rotated + g.ttl / 2 ≤ now
    → let g' = (check_and_remember now id nonce g).1 in
      let without = record g' {
        current = delete (id, nonce) g'.current;
        previous = delete (id, nonce) g'.previous;
      } in
      (lookup (id, nonce) g'.current ≡ some now)
      × (lookup (id, nonce) g'.previous ≡ some seen)
      × (size g' ≡ size without + 2)
unfolding size
same_nonce_in_both_generations now seen id nonce g once found absent old due =
    let key : NonceKey = (id, nonce) in
    let stale : IsStale key g.ttl now g = (λ s f. ground arith, λ s f. cc) in
    let turned : rotate_if_due now g
        ≡ record g { previous = g.current; current = []; rotated = now } =
      unfold rotate_if_due in rw (le→ltb now (g.rotated + g.ttl / 2) due) in
    let fresh : Map NonceKey ℕ = insert key now [] in
    let fresh_found : lookup key fresh ≡ some now = lookup-insert_self key now [] in
    let fresh_once : Unique fresh = Unique-insert key now [] (unfold Unique in tt) in
    rw (stale_is_taken now id nonce g stale) (
      rw turned (
        fresh_found,
        found,
        omega (
          arith,
          length-delete key now fresh fresh_once fresh_found,
          length-delete key seen g.current once found,
        ),
      ))
