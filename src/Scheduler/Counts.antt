-- ===== src/Scheduler/Counts.antt =====
-- The scheduler's counts of failed rotations, and each change of them.
use lacert.Prelude.{
  Bool-cases, Bytes, List, Map, Option-cases, Unique, Unique-delete, Unique-insert, [], arith,
  delete, if◌then◌else◌, inl, inr, insert, list_eq, lookup, lookup-delete, lookup-insert, ltb,
  nat_eq, none, pair_eq, some, string_eq, ℕ, ◌+◌, ◌<◌, ◌==◌, ◌↔◌, ◌∷◌, ◌≡◌,
}
use lacert.Scheduler.{
  Scheduler, failure_retention, count_of, forget_failures, note_rotation_success,
  check_rotation_progress, forget_stale, forget_stale_failures, prune_firmware_check_state,
}

-- Each count is positive and below the limit, and there is one for exactly the devices that have a
-- time of their last failure, which they have once.
pub record IsCounting (limit : ℕ) (failures seen : Map Bytes ℕ) : Type 0 where
  pub within : (id : Bytes) (n : ℕ) → lookup id failures ≡ some n → (0 < n) × (n < limit)
  pub dated : (id : Bytes) → (lookup id failures ≡ none) ↔ (lookup id seen ≡ none)
  pub once : Unique seen

abbrev pub Counts : ℕ → Scheduler → Type 0
Counts limit sch = IsCounting limit sch.rotation_failures sch.failure_seen

forget-Counts :
    (limit : ℕ) (id : Bytes) (sch : Scheduler)
    → Counts limit sch
    → Counts limit (forget_failures id sch)
forget-Counts limit id sch h = record {
  within = λ j n e. h.within j n (ground (arith, e, lookup-delete id j sch.rotation_failures));
  dated = λ j. ground (
    arith,
    h.dated j,
    lookup-delete id j sch.rotation_failures,
    lookup-delete id j sch.failure_seen,
  );
  once = Unique-delete id sch.failure_seen h.once;
}

pub fail-Counts :
    (limit now n : ℕ) (id : Bytes) (failures seen : Map Bytes ℕ)
    → n + 1 < limit
    → IsCounting limit failures seen
    → IsCounting limit (insert id (n + 1) failures) (insert id now seen)
fail-Counts limit now n id failures seen room h = record {
  within = λ j m e. elim (Bool-cases (id == j)) [
    | inl same ↦ ground (arith, e, same, lookup-insert id j (n + 1) failures)
    | inr other ↦ h.within j m (ground (arith, e, other, lookup-insert id j (n + 1) failures))
  ];
  dated = λ j.
      ground (arith, h.dated j, lookup-insert id j (n + 1) failures, lookup-insert id j now seen);
  once = Unique-insert id now seen h.once;
}

-- A failure that is forgotten at once.
pub struck-Counts :
    (limit now n : ℕ) (id : Bytes) (failures seen : Map Bytes ℕ)
    → IsCounting limit failures seen
    → IsCounting limit (delete id (insert id n failures)) (delete id (insert id now seen))
struck-Counts limit now n id failures seen h = record {
  within = λ j m e.
      h.within j m (
        ground
          (arith, e, lookup-delete id j (insert id n failures), lookup-insert id j n failures));
  dated = λ j. ground (
    arith,
    h.dated j,
    lookup-delete id j (insert id n failures),
    lookup-insert id j n failures,
    lookup-delete id j (insert id now seen),
    lookup-insert id j now seen,
  );
  once = Unique-delete id (insert id now seen) (Unique-insert id now seen h.once);
}

note-Counts :
    (limit : ℕ) (id : Bytes) (sch : Scheduler)
    → Counts limit sch
    → Counts limit (note_rotation_success id sch)
unfolding note_rotation_success
note-Counts limit id sch h = elim (Bool-cases (count_of id sch.rotation_failures == 0)) [
  | inl clean ↦ rw (note_rotation_success, clean) h
  | inr failed ↦ rw (note_rotation_success, failed) (forget-Counts limit id sch h)
]

pub progress-Counts :
    (limit : ℕ) (id : Bytes) (iter : ℕ) (sch : Scheduler)
    → Counts limit sch
    → Counts limit (check_rotation_progress id iter sch)
unfolding check_rotation_progress
progress-Counts limit id iter sch h = elim (Option-cases (lookup id sch.last_iteration)) [
  | inl e ↦ rw (check_rotation_progress, e) h
  | inr (prev, e) ↦ elim (Bool-cases (ltb prev iter)) [
    | inl on ↦ rw (check_rotation_progress, e, on) (note-Counts limit id sch h)
    | inr still ↦ rw (check_rotation_progress, e, still) h
  ]
]

stale-Counts :
    (limit now : ℕ) (seen : Map Bytes ℕ) (sch : Scheduler)
    → Counts limit sch
    → Counts limit (forget_stale now seen sch)
unfolding forget_stale
stale-Counts limit now [] sch h = h
stale-Counts limit now ((id, t) ∷ rest) sch h =
    stale-Counts limit now rest
      (if ltb (t + failure_retention) now then forget_failures id sch else sch)
      (elim (Bool-cases (ltb (t + failure_retention) now)) [
        | inl old ↦ rw old (forget-Counts limit id sch h)
        | inr young ↦ rw young h
      ])

pub prune-Counts :
    (limit now : ℕ) (active : List Bytes) (sch : Scheduler)
    → Counts limit sch
    → Counts limit (prune_firmware_check_state now active sch)
unfolding prune_firmware_check_state forget_stale_failures
prune-Counts limit now active sch h = stale-Counts limit now sch.failure_seen _ h
