-- ===== src/Crypto/Session/Window.antt =====
-- The window of packet nonces: what is rejected, and for how long.
use lacert.Prelude.{
  Bool-cases, Bytes, List, Result, [], arith, copy, copy_whole, drop, err, false, if◌then◌else◌,
  inl, inr, leb, length, length-append, length-drop, list_beq, list_beq_iff, list_eq, member,
  member-append, member-without, nat_beq_iff, nat_eq, ok, pair_eq, refl, replicate, string_eq, suc,
  sym, take, without, zero, ℕ, ◌++◌, ◌+◌, ◌-◌, ◌<◌, ◌==◌, ◌∙◌, ◌∷◌, ◌≡◌, ◌≤◌,
}
use lacert.Crypto.Session.{
  record_packet, Session, CryptoError, session_closed, data_replay, bad_nonce_size, max_seen_nonces,
  forget_all, evict, check_data_nonce, seen_nonce_count, remember_nonce,
}

-- No value occurs twice.
abbrev pub Distinct : List Bytes → Type 0
Distinct [] = Unit
Distinct (x ∷ xs) = (member x xs ≡ false) × Distinct xs

-- The set and the list of arrivals hold the same nonces, and there are at most `max_seen_nonces`.
pub record IsWindow (s : Session) : Type 0 where
  pub same : (id : Bytes) → member id s.seen_nonces ≡ member id s.seen_order
  pub distinct : Distinct s.seen_order
  pub distinct_set : Distinct s.seen_nonces
  pub bounded : length s.seen_order ≤ max_seen_nonces

member-forget_all :
    (id : Bytes) (olds seen : List Bytes)
    → member id (forget_all olds seen) ≡ (if member id olds then false else member id seen)
unfolding forget_all
member-forget_all id [] seen = refl
member-forget_all id (old ∷ olds) seen =
    ground (arith, member-forget_all id olds (without old seen), member-without old id seen)

-- In a list with no repetition the front and the rest share nothing.
Distinct-drop : (n : ℕ) (xs : List Bytes) → Distinct xs → Distinct (drop n xs)
Distinct-drop zero xs d = d
Distinct-drop (suc n) [] d = tt
Distinct-drop (suc n) (x ∷ xs) d = Distinct-drop n xs d.1

not_member-drop :
    (id : Bytes) (n : ℕ) (xs : List Bytes) → member id xs ≡ false → member id (drop n xs) ≡ false
not_member-drop id zero xs h = h
not_member-drop id (suc n) [] h = refl
not_member-drop id (suc n) (x ∷ xs) h = not_member-drop id n xs (ground arith)

member-drop :
    (id : Bytes) (n : ℕ) (xs : List Bytes)
    → Distinct xs
    → member id (drop n xs) ≡ (if member id (take n xs) then false else member id xs)
member-drop id zero xs d = refl
member-drop id (suc n) [] d = refl
member-drop id (suc n) (x ∷ xs) d =
    ground (arith, member-drop id n xs d.1, list_beq_iff x id, not_member-drop x n xs)

Distinct-snoc :
    (id : Bytes) (xs : List Bytes) → Distinct xs → member id xs ≡ false → Distinct (xs ++ id ∷ [])
Distinct-snoc id [] d h = (refl, tt)
Distinct-snoc id (x ∷ xs) d h = (
  ground (arith, d.0, member-append x xs (id ∷ []), list_beq_iff x id, list_beq_iff id x),
  Distinct-snoc id xs d.1 (ground arith),
)

not_member-without :
    (id a : Bytes) (xs : List Bytes) → member id xs ≡ false → member id (without a xs) ≡ false
not_member-without id a xs h = ground (arith, member-without a id xs)

Distinct-without : (a : Bytes) (xs : List Bytes) → Distinct xs → Distinct (without a xs)
Distinct-without a [] d = tt
Distinct-without a (x ∷ xs) d = elim (Bool-cases (list_beq x a)) [
  | inl e ↦ rw e (Distinct-without a xs d.1)
  | inr e ↦ rw e (not_member-without x a xs d.0, Distinct-without a xs d.1)
]

Distinct-forget_all : (olds seen : List Bytes) → Distinct seen → Distinct (forget_all olds seen)
unfolding forget_all
Distinct-forget_all [] seen d = d
Distinct-forget_all (old ∷ olds) seen d =
    Distinct-forget_all olds (without old seen) (Distinct-without old seen d)

evict-IsWindow : (s : Session) → IsWindow s → IsWindow (evict s)
unfolding evict
evict-IsWindow s w = elim (Bool-cases (leb max_seen_nonces (length s.seen_order))) [
  | inl full ↦
      let excess = length s.seen_order - max_seen_nonces + 1 in
      rw full (record {
        same = λ id. ground (
          arith,
          w.same id,
          member-forget_all id (take excess s.seen_order) s.seen_nonces,
          member-drop id excess s.seen_order w.distinct,
        );
        distinct = Distinct-drop excess s.seen_order w.distinct;
        distinct_set = Distinct-forget_all (take excess s.seen_order) s.seen_nonces w.distinct_set;
        bounded = omega (arith, length-drop excess s.seen_order, w.bounded);
      })
  | inr room ↦ rw room w
]

-- Eviction leaves room for one more.
length-evict : (s : Session) → IsWindow s → length (evict s).seen_order < max_seen_nonces
unfolding evict
length-evict s w =
    ground (arith, length-drop (length s.seen_order - max_seen_nonces + 1) s.seen_order, w.bounded)

-- What is not in the window is not there after an eviction.
pub not_member-evict :
    (id : Bytes) (s : Session)
    → member id s.seen_order ≡ false
    → member id (evict s).seen_order ≡ false
unfolding evict
not_member-evict id s h =
    ground (arith, not_member-drop id (length s.seen_order - max_seen_nonces + 1) s.seen_order)

remember_nonce-IsWindow :
    (id : Bytes) (s : Session)
    → IsWindow s
    → member id s.seen_order ≡ false
    → length s.seen_order < max_seen_nonces
    → IsWindow (remember_nonce id s)
remember_nonce-IsWindow id s w new room = record {
  same = λ a.
      ground (
        arith,
        w.same a,
        member-append a s.seen_order (id ∷ []),
        member-without id a s.seen_nonces,
      );
  distinct = Distinct-snoc id s.seen_order w.distinct new;
  distinct_set = (
    ground (arith, member-without id id s.seen_nonces, list_beq_iff id id),
    Distinct-without id s.seen_nonces w.distinct_set,
  );
  bounded = omega (arith, length-append s.seen_order (id ∷ []));
}

abbrev pub id_of : Bytes → Bytes
id_of nonce = copy (replicate 12 0) nonce

-- A packet is refused and nothing changes, or it is new and is remembered.
pub data Checked (nonce : Bytes) (s : Session)
    : Result CryptoError (Unit {0}) × Session → Type 0 where
  refused : (e : CryptoError) → Checked nonce s (err e, s)
  accepted :
      length nonce ≡ 12
      → s.closed ≡ false
      → member (id_of nonce) s.seen_nonces ≡ false
      → Checked nonce s (ok tt, remember_nonce (id_of nonce) (evict s))

pub checked : (nonce : Bytes) (s : Session) → Checked nonce s (check_data_nonce nonce s)
unfolding check_data_nonce
checked nonce s = elim (Bool-cases (length nonce == 12)) [
  | inr e ↦ rw e (refused bad_nonce_size)
  | inl sized ↦ rw sized (elim (Bool-cases s.closed) [
    | inl e ↦ rw e (refused session_closed)
    | inr opened ↦ rw opened (elim (Bool-cases (member (id_of nonce) s.seen_nonces)) [
      | inl e ↦ rw e (refused data_replay)
      | inr new ↦ rw new (accepted ((nat_beq_iff _ _).0 sized) refl new)
    ])
  ])
]

pub Checked-IsWindow :
    {nonce : Bytes} {s : Session} {r : Result CryptoError (Unit {0}) × Session}
    → IsWindow s
    → Checked nonce s r
    → IsWindow r.1
Checked-IsWindow w (refused e) = w
Checked-IsWindow {nonce} {s} w (accepted sized opened new) =
    remember_nonce-IsWindow (id_of nonce) (evict s) (evict-IsWindow s w)
      (not_member-evict (id_of nonce) s (sym (w.same (id_of nonce)) ∙ new)) (length-evict s w)

-- The set and the order of arrivals stay in step, with no repetition and within the bound.
pub check_data_nonce-IsWindow :
    (nonce : Bytes) (s : Session) → IsWindow s → IsWindow (check_data_nonce nonce s).1
check_data_nonce-IsWindow nonce s w = Checked-IsWindow w (checked nonce s)

length-without :
    (a : Bytes) (xs : List Bytes)
    → Distinct xs
    → length xs ≡ (if member a xs then suc (length (without a xs)) else length (without a xs))
length-without a [] d = refl
length-without a (x ∷ xs) d = ground (arith, length-without a xs d.1, list_beq_iff x a)

-- Two lists with no repetition and the same members are of one length.
same_length :
    (xs ys : List Bytes)
    → Distinct xs
    → Distinct ys
    → ((id : Bytes) → member id xs ≡ member id ys)
    → length xs ≡ length ys
same_length [] [] dx dy same = refl
same_length [] (y ∷ ys) dx dy same = ground (arith, same y, list_beq_iff y y)
same_length (x ∷ xs) ys dx dy same =
    let rest =
      same_length xs (without x ys) dx.1 (Distinct-without x ys dy)
        λ id. ground (arith, same id, member-without x id ys, dx.0, list_beq_iff x id) in
    ground (arith, rest, same x, length-without x ys dy, list_beq_iff x x)

module _ (s : Session) (w : IsWindow s) (opened : s.closed ≡ false) where
  -- The verdict on a packet of an open session depends on the window and on nothing else.
  pub check_data_nonce-verdict :
      (nonce : Bytes)
      → (check_data_nonce nonce s).0 ≡ (
          if length nonce == 12
          then (if member nonce s.seen_order then err data_replay else ok tt)
          else err bad_nonce_size)
  unfolding check_data_nonce
  check_data_nonce-verdict nonce = elim (Bool-cases (length nonce == 12)) [
    | inr e ↦ rw e
    | inl sized ↦
        rw (sized, opened, copy_whole (replicate 12 0) nonce (sym ((nat_beq_iff _ _).0 sized)))
          (ground (arith, w.same nonce))
  ]

  pub seen_nonce_count-window : seen_nonce_count s ≡ length s.seen_order
  unfolding seen_nonce_count
  seen_nonce_count-window = same_length s.seen_nonces s.seen_order w.distinct_set w.distinct w.same

pub record_packet-IsWindow : (s : Session) → IsWindow s → IsWindow (record_packet s)
unfolding record_packet
record_packet-IsWindow s w = record {
  same = w.same;
  distinct = w.distinct;
  distinct_set = w.distinct_set;
  bounded = w.bounded;
}
