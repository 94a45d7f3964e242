-- ===== src/Crypto/ReplayGuard/Memory.antt =====
-- How long a nonce is remembered, and that nothing else is refused.
use lacert.Prelude.{
  All, Bool-cases, Bytes, List, Map, Result, [], arith, beq_refl, err, if◌then◌else◌, inl, inr,
  insert, list_eq, lookup, lookup-insert, ltb, ltb→le, nat_eq, ok, pair_beq, pair_eq, refl, some,
  string_eq, true, ℕ, ◌+◌, ◌/◌, ◌<◌, ◌∙◌, ◌∷◌, ◌≡◌, ◌≤◌, ◌⊎◌,
}
use lacert.Crypto.Session.{CryptoError, replay_detected}
use lacert.Crypto.ReplayGuard.{
  NonceKey, ReplayGuard, rotate_if_due, seen_within, check_and_remember,
}

-- A call of the guard: when, and for which device and nonce.
abbrev pub GuardCall : Type 0
GuardCall = ℕ × Bytes × Bytes

unfoldable pub check_calls : List GuardCall → ReplayGuard → ReplayGuard
check_calls [] g = g
check_calls ((now, id, nonce) ∷ calls) g = check_calls calls (check_and_remember now id nonce g).1

-- The nonce was taken at `t` or later, and the generation that holds it is not about to go.
abbrev Held : NonceKey → ℕ → ReplayGuard → Type 0
Held key t g =
    ((s : ℕ) × (lookup key g.current ≡ some s) × (t ≤ s))
    ⊎ ((s : ℕ) × (lookup key g.previous ≡ some s) × (t ≤ s) × (t ≤ g.rotated))

Held-rotate_if_due :
    (key : NonceKey) (t now : ℕ) (g : ReplayGuard)
    → t ≤ now
    → now < t + g.ttl / 2
    → Held key t g
    → Held key t (rotate_if_due now g)
unfolding rotate_if_due
Held-rotate_if_due key t now g late soon h = elim (Bool-cases (ltb now (g.rotated + g.ttl / 2))) [
  | inl e ↦ rw e h
  | inr e ↦ rw e (elim h [
    | inl (s, found, after) ↦ inr (s, found, after, late)
    | inr (s, found, after, fresh) ↦ absurd (omega (arith, ltb→le now (g.rotated + g.ttl / 2) e))
  ])
]

pub check_unfolded :
    (now : ℕ) (id nonce : Bytes) (g : ReplayGuard)
    → check_and_remember now id nonce g ≡ (
        let g1 = rotate_if_due now g in
        let key : NonceKey = (id, nonce) in
        if seen_within g1.ttl now key g1.current
        then (err replay_detected, g1)
        else if seen_within g1.ttl now key g1.previous
        then (err replay_detected, g1)
        else (ok tt, record g1 { current = insert key now g1.current }))
unfolding check_and_remember
check_unfolded now id nonce g = refl

abbrev pub stored : ℕ → Bytes → Bytes → ReplayGuard → ReplayGuard
stored now id nonce g = record g { current = insert (id, nonce) now g.current }

abbrev pub Verdict : Type 0
Verdict = Result CryptoError (Unit {0}) × ReplayGuard

-- What holds of each outcome holds after the call.
pub check_and_remember-either :
    (P : Verdict → Type 0) (now : ℕ) (id nonce : Bytes) (g : ReplayGuard)
    → P (err replay_detected, rotate_if_due now g)
    → P (ok tt, stored now id nonce (rotate_if_due now g))
    → P (check_and_remember now id nonce g)
check_and_remember-either P now id nonce g kept more =
    let g1 = rotate_if_due now g in
    let key : NonceKey = (id, nonce) in
    rw (check_unfolded now id nonce g) (elim (Bool-cases (seen_within g1.ttl now key g1.current)) [
      | inl e ↦ rw e kept
      | inr e ↦ rw e (elim (Bool-cases (seen_within g1.ttl now key g1.previous)) [
        | inl f ↦ rw f kept
        | inr f ↦ rw f more
      ])
    ])

pub ttl-rotate_if_due : (now : ℕ) (g : ReplayGuard) → (rotate_if_due now g).ttl ≡ g.ttl
unfolding rotate_if_due
ttl-rotate_if_due now g = ground arith

pub ttl-check_and_remember :
    (now : ℕ) (id nonce : Bytes) (g : ReplayGuard)
    → (check_and_remember now id nonce g).1.ttl ≡ g.ttl
ttl-check_and_remember now id nonce g =
    let same = ttl-rotate_if_due now g in
    check_and_remember-either (λ r. r.1.ttl ≡ g.ttl) now id nonce g same same

pub ttl-check_calls : (calls : List GuardCall) (g : ReplayGuard) → (check_calls calls g).ttl ≡ g.ttl
unfolding check_calls
ttl-check_calls [] g = refl
ttl-check_calls ((now, id, nonce) ∷ calls) g =
    ttl-check_calls calls (check_and_remember now id nonce g).1
    ∙ ttl-check_and_remember now id nonce g

Held-stored :
    (key : NonceKey) (t now : ℕ) (id nonce : Bytes) (g : ReplayGuard)
    → t ≤ now
    → Held key t g
    → Held key t (stored now id nonce g)
Held-stored key t now id nonce g late (inr h) = inr h
Held-stored key t now id nonce g late (inl (s, found, after)) =
    let k : NonceKey = (id, nonce) in
    elim (Bool-cases (pair_beq k key)) [
      | inl e ↦ inl (now, rw (lookup-insert k key now g.current, e), late)
      | inr e ↦ inl (s, rw (lookup-insert k key now g.current, e) found, after)
    ]

abbrev pub Between : ℕ → ℕ → List GuardCall → Type 0
Between t end = All (λ call. (t ≤ call.0) × (call.0 < end))

Held-check_calls :
    (key : NonceKey) (t ttl : ℕ) (calls : List GuardCall) (g : ReplayGuard)
    → g.ttl ≡ ttl
    → Between t (t + ttl / 2) calls
    → Held key t g
    → Held key t (check_calls calls g)
unfolding check_calls
Held-check_calls key t ttl [] g same times h = h
Held-check_calls key t ttl ((now, id, nonce) ∷ calls) g same (time, times) h =
    let moved = Held-rotate_if_due key t now g time.0 (rw same time.1) h in
    Held-check_calls key t ttl calls (check_and_remember now id nonce g).1
      (ttl-check_and_remember now id nonce g ∙ same) times
      (check_and_remember-either (λ r. Held key t r.1) now id nonce g moved
        (Held-stored key t now id nonce (rotate_if_due now g) time.0 moved))

seen_within-some :
    (ttl now s : ℕ) (key : NonceKey) (m : Map NonceKey ℕ)
    → lookup key m ≡ some s
    → now < s + ttl
    → seen_within ttl now key m ≡ true
unfolding seen_within
seen_within-some ttl now s key m found young = ground arith

Held-caught :
    (t now : ℕ) (id nonce : Bytes) (g : ReplayGuard)
    → t ≤ now
    → now < t + g.ttl / 2
    → Held (id, nonce) t g
    → (check_and_remember now id nonce g).0 ≡ err replay_detected
Held-caught t now id nonce g late soon h =
    let g1 = rotate_if_due now g in
    let same = ttl-rotate_if_due now g in
    let key : NonceKey = (id, nonce) in
    rw (check_unfolded now id nonce g) (elim (Held-rotate_if_due key t now g late soon h) [
      | inl (s, found, after) ↦
          rw (seen_within-some g1.ttl now s key g1.current found (omega (arith, same)))
      | inr (s, found, after, fresh) ↦
          let seen = seen_within-some g1.ttl now s key g1.previous found (omega (arith, same)) in
          elim (Bool-cases (seen_within g1.ttl now key g1.current)) [
            | inl e ↦ rw e
            | inr e ↦ rw (e, seen)
          ]
    ])

Held-taken :
    (t : ℕ) (id nonce : Bytes) (g : ReplayGuard)
    → (check_and_remember t id nonce g).0 ≡ ok tt
    → Held (id, nonce) t (check_and_remember t id nonce g).1
Held-taken t id nonce g =
    let key : NonceKey = (id, nonce) in
    check_and_remember-either (λ r. r.0 ≡ ok tt → Held key t r.1) t id nonce g (λ e. cc)
      (λ _. inl (t, simp (lookup-insert, beq_refl key), omega arith))

-- A first message that was taken at time t is refused when it is played back before t + ttl/2,
-- whatever other messages came in between.
pub replay_is_caught :
    (g : ReplayGuard) (t now : ℕ) (id nonce : Bytes) (calls : List GuardCall)
    → (check_and_remember t id nonce g).0 ≡ ok tt
    → Between t (t + g.ttl / 2) calls
    → t ≤ now
    → now < t + g.ttl / 2
    → (check_and_remember now id nonce (check_calls calls (check_and_remember t id nonce g).1)).0
      ≡ err replay_detected
replay_is_caught g t now id nonce calls taken times late soon =
    let g1 = (check_and_remember t id nonce g).1 in
    let same1 = ttl-check_and_remember t id nonce g in
    let held =
      Held-check_calls (id, nonce) t g.ttl calls g1 same1 times (Held-taken t id nonce g taken) in
    Held-caught t now id nonce (check_calls calls g1) late
      (rw (ttl-check_calls calls g1, same1) soon) held
