-- ===== src/Store/MemStore/Kept.antt =====
-- What is found in a journal from which a device's entries were taken.
use lacert.Prelude.{
  Bool, Bool-cases, Bytes, List, [], append-nil, arith, false, if◌then◌else◌, inl, inr, keep,
  list_beq_iff, list_eq, nat_eq, none, pair_eq, refl, reverse, reverse-append, string_eq, true,
  ◌++◌, ◌==◌, ◌∷◌, ◌≡◌,
}
use lacert.Store.Types.{TelemetryReading}
use lacert.Store.MemStore.{is_other, first_of_device}
use lacert.Store.MemStore.Queries.{first_of_device-snoc}

module _ {A : Type 0} where
  keep-append : (p : A → Bool) (xs ys : List A) → keep p (xs ++ ys) ≡ keep p xs ++ keep p ys
  keep-append p [] ys = refl
  keep-append p (x ∷ xs) ys = ground (arith, keep-append p xs ys)

  pub keep-keep_none :
      (p q : A → Bool) (xs : List A)
      → ((x : A) → q x ≡ true → p x ≡ false)
      → keep p (reverse (keep q xs)) ≡ []
  keep-keep_none p q [] h = refl
  keep-keep_none p q (x ∷ xs) h = elim (Bool-cases (q x)) [
    | inl e ↦
        rw
          (
            e,
            reverse-append (x ∷ []) (keep q xs),
            keep-append p (reverse (keep q xs)) (x ∷ []),
            keep-keep_none p q xs h,
            h x e,
          )
          refl
    | inr e ↦ rw e (keep-keep_none p q xs h)
  ]

  pub keep-keep_same :
      (p q : A → Bool) (xs : List A)
      → ((x : A) → q x ≡ false → p x ≡ false)
      → keep p (reverse (keep q xs)) ≡ keep p (reverse xs)
  keep-keep_same p q [] h = refl
  keep-keep_same p q (x ∷ xs) h = elim (Bool-cases (q x)) [
    | inl e ↦
        rw
          (
            e,
            reverse-append (x ∷ []) (keep q xs),
            reverse-append (x ∷ []) xs,
            keep-append p (reverse (keep q xs)) (x ∷ []),
            keep-append p (reverse xs) (x ∷ []),
            keep-keep_same p q xs h,
          )
          refl
    | inr e ↦
        rw
          (
            e,
            reverse-append (x ∷ []) xs,
            keep-append p (reverse xs) (x ∷ []),
            keep-keep_same p q xs h,
            h x e,
            append-nil (keep p (reverse xs)),
          )
          refl
  ]

pub first_of_device-kept :
    (gone id : Bytes) (ts : List TelemetryReading)
    → first_of_device id (reverse (keep (λ t. is_other gone t.device_id) ts))
      ≡ (if gone == id then none else first_of_device id (reverse ts))
first_of_device-kept gone id [] = unfold first_of_device in ground arith
first_of_device-kept gone id (t ∷ ts) = elim (Bool-cases (t.device_id == gone)) [
  | inl e ↦
      rw (e, reverse-append (t ∷ []) ts, first_of_device-snoc id (reverse ts) t)
        (ground (
          arith,
          first_of_device-kept gone id ts,
          list_beq_iff t.device_id gone,
          list_beq_iff t.device_id id,
          list_beq_iff gone id,
        ))
  | inr e ↦
      rw
        (
          e,
          reverse-append (t ∷ []) (keep (λ r. is_other gone r.device_id) ts),
          reverse-append (t ∷ []) ts,
          first_of_device-snoc id (reverse ts) t,
          first_of_device-snoc id (reverse (keep (λ r. is_other gone r.device_id) ts)) t,
        )
        (ground (
          arith,
          first_of_device-kept gone id ts,
          list_beq_iff t.device_id gone,
          list_beq_iff t.device_id id,
          list_beq_iff gone id,
        ))
]
