-- ===== src/Coordinator/Scrub/Moved.antt =====
-- Repairs move versions between the counts of `CrossCheckOutcome` and lose none.

use distributed_jbod.Common.{
  ℕ, ◌+◌, ◌≡◌, refl, ◌∙◌, ap, Option, none, some, List, [], ◌∷◌, ok, ◌>>=◌, ltb, arith, Bool-cases,
  inl, inr,
}
use distributed_jbod.Record.{Bytes}
use distributed_jbod.Coordinator.Groups.{ShardCount}
use distributed_jbod.Coordinator.Scrub.Counts.{one_if, bump-count_at}
use distributed_jbod.Coordinator.Scrub.{
  bump, Bucket, bucket_eq, Tally, no_tally, without_key, bucket_of, tally_version, repaired_bucket,
  note_repaired, TallyStep, checked, repaired, tally_steps,
}
use distributed_jbod.Coordinator.Scrub.Buckets.{
  total, total-bump, bucket_eq_refl, bucket_eq_iff, IsLowered, lower-IsLowered, IsBacked,
  without_key-damaged_at, bucket_of-damaged_at,
}

pub tally_version-total :
    (key : Bytes) (c : ShardCount) (t : Tally)
    → total (tally_version key c t).availability ≡ total t.availability + 1
unfolding tally_version
tally_version-total key c t = total-bump (c.total, c.available, c.k) t.availability

pub tally_version-IsBacked :
    (key : Bytes) (c : ShardCount) (t : Tally) → IsBacked t → IsBacked (tally_version key c t)
unfolding tally_version
tally_version-IsBacked key c t backed b =
    let bucket : Bucket = (c.total, c.available, c.k) in
    let more = bump-count_at bucket_eq bucket_eq_iff bucket b t.availability in
    let fewer = without_key-damaged_at key b t.damaged in
    let covered = backed b in
    elim (Bool-cases (ltb c.available c.total)) [
      | inl out ↦ rw out (omega arith)
      | inr complete ↦ rw complete (omega arith)
    ]

-- A repair keeps the number of versions.
abbrev IsKept : Tally → Tally → Type 0
IsKept t next = (total next.availability ≡ total t.availability) × IsBacked next

-- The tally after a repair that lowers the bucket.
abbrev moved : Bytes → Bucket → Tally → List (Bucket × ℕ) → Tally
moved key b t counts = record {
  availability = bump bucket_eq (b.0, b.0, b.2) counts;
  damaged = without_key key t.damaged;
}

moved-IsKept :
    (key : Bytes) (b : Bucket) (t : Tally) (next : List (Bucket × ℕ))
    → bucket_of key t.damaged ≡ some b
    → IsBacked t
    → IsLowered b t.availability next
    → IsKept t (moved key b t next)
moved-IsKept key b t next e backed (fewer, counts) = (
  (let more = total-bump (b.0, b.0, b.2) next in omega arith),
  λ c.
      let covered = backed c in
      let gone = bucket_of-damaged_at key b c t.damaged e in
      let lowered_by = counts c in
      let more = bump-count_at bucket_eq bucket_eq_iff (b.0, b.0, b.2) c next in omega arith,
)

repaired_bucket-IsKept :
    (key : Bytes) (found : Option Bucket) (t : Tally)
    → bucket_of key t.damaged ≡ found
    → IsBacked t
    → (next : Tally) × (repaired_bucket key found t ≡ ok next) × IsKept t next
unfolding repaired_bucket
repaired_bucket-IsKept key none t e backed = (t, refl, (refl, backed))
repaired_bucket-IsKept key (some b) t e backed =
    let covered = backed b in
    let gone = bucket_of-damaged_at key b b t.damaged e in
    let itself : one_if (bucket_eq b b) ≡ 1 = ap one_if (bucket_eq_refl b) in
    let (next, lowers, lowered_to) = lower-IsLowered b t.availability (omega arith) in
    (
      moved key b t next,
      ap (λ answer. answer >>= λ counts. ok (moved key b t counts)) lowers,
      moved-IsKept key b t next e backed lowered_to,
    )

note_repaired-IsKept :
    (key : Bytes) (t : Tally)
    → IsBacked t
    → (next : Tally) × (note_repaired key t ≡ ok next) × IsKept t next
unfolding note_repaired
note_repaired-IsKept key t = repaired_bucket-IsKept key (bucket_of key t.damaged) t refl

-- How many versions the steps check.
abbrev pub versions_of_steps : List TallyStep → ℕ
versions_of_steps [] = 0
versions_of_steps (checked key c ∷ steps) = 1 + versions_of_steps steps
versions_of_steps (repaired key ∷ steps) = versions_of_steps steps

pub tally_steps-total :
    (steps : List TallyStep) (t : Tally)
    → IsBacked t
    → (last : Tally) × (tally_steps steps t ≡ ok last)
      × (total last.availability ≡ total t.availability + versions_of_steps steps)
unfolding tally_steps
tally_steps-total [] t backed = (t, refl, omega arith)
tally_steps-total (checked key c ∷ steps) t backed =
    let one = tally_version-total key c t in
    let (last, runs, counted) =
      tally_steps-total steps (tally_version key c t) (tally_version-IsBacked key c t backed) in
    (last, runs, omega arith)
tally_steps-total (repaired key ∷ steps) t backed =
    let (next, repairs, (same, kept)) = note_repaired-IsKept key t backed in
    let (last, runs, counted) = tally_steps-total steps next kept in
    (last, ap (λ answer. answer >>= tally_steps steps) repairs ∙ runs, omega arith)

-- Whatever versions are checked and whatever keys are repaired, in any order, from the empty outcome: no
-- count is lowered below 0, and the counts by available shards add up to the number of versions checked.
pub tally_steps_lem :
    (steps : List TallyStep)
    → (last : Tally) × (tally_steps steps no_tally ≡ ok last)
      × (total last.availability ≡ versions_of_steps steps)
tally_steps_lem steps =
    let (last, runs, counted) = tally_steps-total steps no_tally (λ b. omega arith) in
    (last, runs, omega arith)
