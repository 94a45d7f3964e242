-- ===== src/Gateway/Shutdown.antt =====
-- What is left of the sessions after a shutdown.
use lacert.Prelude.{
  All, Bool-cases, Bytes, List, Map, Option-cases, [], ap, arith, beq_refl, delete, false, inl, inr,
  length, list_beq_iff, list_eq, lookup, lookup-insert, member, nat_beq_iff, nat_eq, pair_eq, refl,
  some, string_eq, true, ℕ, ◌+◌, ◌==◌, ◌∙◌, ◌∷◌, ◌≡◌,
}
use lacert.Crypto.Session.{Session, zeroize, close}
use lacert.Gateway.State.{Gateway}
use lacert.Gateway.Lifecycle.{close_one, end_session, close_all, shutdown}

zeroize-zeroize : (b : Bytes) → zeroize (zeroize b) ≡ zeroize b
unfolding zeroize
zeroize-zeroize [] = refl
zeroize-zeroize (b ∷ bs) = ap (λ zs. 0 ∷ zs) (zeroize-zeroize bs)

-- `t` is what was `s`, closed, with its keys overwritten.
pub record IsWiped (s t : Session) : Type 0 where
  pub shut : t.closed ≡ true
  pub key_wiped : t.key ≡ zeroize s.key
  pub pending_wiped : t.pending_key ≡ zeroize s.pending_key

close-IsWiped : (s : Session) → IsWiped s (close s)
unfolding close
close-IsWiped s = record { shut = refl; key_wiped = refl; pending_wiped = refl }

close-again : (s t : Session) → IsWiped s t → IsWiped s (close t)
unfolding close
close-again s t w = record {
  shut = refl;
  key_wiped = ap (λ b. zeroize b) w.key_wiped ∙ zeroize-zeroize s.key;
  pending_wiped = ap (λ b. zeroize b) w.pending_wiped ∙ zeroize-zeroize s.pending_key;
}

abbrev WipedAt : Session → ℕ → Map ℕ Session → Type 0
WipedAt s ref heap = (t : Session) × (lookup ref heap ≡ some t) × IsWiped s t

-- A wiped object stays wiped while others are closed.
close_one-WipedAt :
    (s : Session) (ref r : ℕ) (heap : Map ℕ Session)
    → WipedAt s ref heap
    → WipedAt s ref (close_one r heap)
close_one-WipedAt s ref r heap (t, found, w) = elim (Option-cases (lookup r heap)) [
  | inl e ↦ rw (close_one, e) (t, found, w)
  | inr (u, e) ↦ elim (Bool-cases (r == ref)) [
    | inl same ↦
        let p = (nat_beq_iff r ref).0 same in
        let u_is_t : u ≡ t = ground arith in
        rw (close_one, e)
          (
            close u,
            rw (lookup-insert r ref (close u) heap, same) refl,
            rw u_is_t (close-again s t w),
          )
    | inr other ↦ rw (close_one, e) (t, rw (lookup-insert r ref (close u) heap, other) found, w)
  ]
]

-- The objects, after all that a map names are closed.
close_heap : Map Bytes ℕ → Map ℕ Session → Map ℕ Session
close_heap [] heap = heap
close_heap ((id, ref) ∷ rest) heap = close_heap rest (close_one ref heap)

close_heap-WipedAt :
    (refs : Map Bytes ℕ) (s : Session) (ref : ℕ) (heap : Map ℕ Session)
    → WipedAt s ref heap
    → WipedAt s ref (close_heap refs heap)
unfolding close_heap
close_heap-WipedAt [] s ref heap w = w
close_heap-WipedAt ((id, r) ∷ refs) s ref heap w =
    close_heap-WipedAt refs s ref (close_one r heap) (close_one-WipedAt s ref r heap w)

close_one-live :
    (s : Session) (ref : ℕ) (heap : Map ℕ Session)
    → lookup ref heap ≡ some s
    → WipedAt s ref (close_one ref heap)
close_one-live s ref heap live =
    rw (close_one, live)
      (close s, rw (lookup-insert ref ref (close s) heap, beq_refl ref) refl, close-IsWiped s)

lookup-close_one :
    (ref r : ℕ) (heap : Map ℕ Session)
    → (r == ref) ≡ false
    → lookup ref (close_one r heap) ≡ lookup ref heap
lookup-close_one ref r heap other = elim (Option-cases (lookup r heap)) [
  | inl e ↦ rw (close_one, e) refl
  | inr (u, e) ↦ rw (close_one, e, lookup-insert r ref (close u) heap, other) refl
]

close_heap-live :
    (refs : Map Bytes ℕ) (id : Bytes) (ref : ℕ) (s : Session) (heap : Map ℕ Session)
    → lookup id refs ≡ some ref
    → lookup ref heap ≡ some s
    → WipedAt s ref (close_heap refs heap)
unfolding close_heap lookup
close_heap-live [] id ref s heap linked live = cc
close_heap-live ((j, r) ∷ refs) id ref s heap linked live = elim (Bool-cases (r == ref)) [
  | inl same ↦
      let p = (nat_beq_iff r ref).0 same in
      close_heap-WipedAt refs s ref (close_one r heap) (rw p (close_one-live s ref heap live))
  | inr other ↦
      let later : lookup id refs ≡ some ref = ground (arith, nat_beq_iff r ref) in
      close_heap-live refs id ref s (close_one r heap) later
        (lookup-close_one ref r heap other ∙ live)
]

-- A map without the keys of another.
delete_all : Map Bytes ℕ → Map Bytes ℕ → Map Bytes ℕ
delete_all [] m = m
delete_all ((id, ref) ∷ rest) m = delete_all rest (delete id m)

abbrev keys : Map Bytes ℕ → List Bytes
keys [] = []
keys ((id, _) ∷ rest) = id ∷ keys rest

Covered : Map Bytes ℕ → Map Bytes ℕ → Type 0
Covered refs m = All (λ e. member e.0 (keys refs) ≡ true) m

Covered-cons :
    (id : Bytes) (ref : ℕ) (refs m : Map Bytes ℕ) → Covered refs m → Covered ((id, ref) ∷ refs) m
unfolding Covered
Covered-cons id ref refs [] h = tt
Covered-cons id ref refs ((j, r) ∷ m) (here, h) =
    (ground (arith, here), Covered-cons id ref refs m h)

Covered-self : (m : Map Bytes ℕ) → Covered m m
unfolding Covered
Covered-self [] = tt
Covered-self ((id, ref) ∷ m) =
    (ground (arith, list_beq_iff id id), Covered-cons id ref m m (Covered-self m))

Covered-delete :
    (id : Bytes) (ref : ℕ) (refs m : Map Bytes ℕ)
    → Covered ((id, ref) ∷ refs) m
    → Covered refs (delete id m)
unfolding Covered delete
Covered-delete id ref refs [] h = tt
Covered-delete id ref refs ((j, r) ∷ m) (here, h) = elim (Bool-cases (j == id)) [
  | inl same ↦ rw (delete, same) (Covered-delete id ref refs m h)
  | inr other ↦
      rw (delete, other)
        (ground (arith, here, list_beq_iff id j, list_beq_iff j id), Covered-delete id ref refs m h)
]

delete_all-Covered : (refs m : Map Bytes ℕ) → Covered refs m → delete_all refs m ≡ []
unfolding delete_all Covered
delete_all-Covered [] [] h = refl
delete_all-Covered [] ((j, r) ∷ m) (here, h) = absurd (cc here)
delete_all-Covered ((id, ref) ∷ refs) m h =
    delete_all-Covered refs (delete id m) (Covered-delete id ref refs m h)

module _ {S : Type 0} where
  close_all-run :
      (refs : Map Bytes ℕ) (n : ℕ) (g : Gateway S)
      → ((close_all refs (n, g)).0 ≡ n + length refs)
        × ((close_all refs (n, g)).1.sessions ≡ delete_all refs g.sessions)
        × ((close_all refs (n, g)).1.heap ≡ close_heap refs g.heap)
  unfolding close_all delete_all close_heap
  close_all-run [] n g = (omega arith, refl, refl)
  close_all-run ((id, ref) ∷ refs) n g =
      let (count, sessions, heap) = close_all-run refs (n + 1) (end_session id ref g) in
      (omega (arith, count), sessions, heap)

  -- After a shutdown no device has a session or an attempt under way, the count of closed sessions is
  -- the number of entries that the map had, and the object of each session that the map had is closed
  -- with both its keys overwritten.
  pub shutdown_wipes_all :
      (id : Bytes) (ref : ℕ) (s : Session) (g : Gateway S)
      → lookup id g.sessions ≡ some ref
      → lookup ref g.heap ≡ some s
      → let r = shutdown g in
        (r.0 ≡ length g.sessions)
        × (r.1.sessions ≡ [])
        × (r.1.pending_handshake ≡ [])
        × ((t : Session) × (lookup ref r.1.heap ≡ some t) × IsWiped s t)
  unfolding shutdown
  shutdown_wipes_all id ref s g linked live =
      let (count, sessions, heap) = close_all-run g.sessions 0 g in
      (
        omega (arith, count),
        sessions ∙ delete_all-Covered g.sessions g.sessions (Covered-self g.sessions),
        refl,
        rw heap (close_heap-live g.sessions id ref s g.heap linked live),
      )
