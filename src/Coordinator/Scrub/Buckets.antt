-- ===== src/Coordinator/Scrub/Buckets.antt =====
-- The counts by available shards: one is lowered, and one covers the damaged keys of its bucket.
use mathlib.Core.Path.{subst}
use mathlib.Core.Option.{some-injective}
use distributed_jbod.Common.{
  ℕ, zero, suc, ◌+◌, ◌≤◌, ◌≡◌, ◌↔◌, refl, sym, ◌∙◌, ap, Bool, true, some, List, [], ◌∷◌, ok, ◌==◌,
  ==_iff, ==_refl, &&_split, ◌&&◌, arith, Bool-cases, inl, inr, bytes_eq, if◌then◌else◌,
}
use distributed_jbod.Record.{Bytes}
use distributed_jbod.Coordinator.Scrub.Counts.{one_if, same_at}
use distributed_jbod.Coordinator.Scrub.{
  bump, count_at, Bucket, bucket_eq, Tally, without_key, bucket_of, lowered, lower,
}

-- All versions that are counted.
abbrev pub total : List (Bucket × ℕ) → ℕ
total [] = 0
total ((b, n) ∷ counts) = n + total counts

-- How many damaged keys have the bucket.
abbrev pub damaged_at : Bucket → List (Bytes × Bucket) → ℕ
damaged_at b [] = 0
damaged_at b ((key, c) ∷ damaged) = one_if (bucket_eq c b) + damaged_at b damaged

pub total-bump : (b : Bucket) (m : List (Bucket × ℕ)) → total (bump bucket_eq b m) ≡ total m + 1
unfolding bump
total-bump b [] = refl
total-bump b ((c, n) ∷ m) = elim (Bool-cases (bucket_eq c b)) [
  | inl same ↦ rw same (omega arith)
  | inr other ↦ let rest = total-bump b m in rw other (omega arith)
]

bucket_eq→eq : (b c : Bucket) → bucket_eq b c ≡ true → b ≡ c
bucket_eq→eq b c e =
    let (at_total, more) = &&_split (b.0 == c.0) (b.1 == c.1 && b.2 == c.2) e in
    let (at_available, at_k) = &&_split (b.1 == c.1) (b.2 == c.2) more in
    λ i.
      ((==_iff b.0 c.0).0 at_total i, (==_iff b.1 c.1).0 at_available i, (==_iff b.2 c.2).0 at_k i)

pub bucket_eq_refl : (b : Bucket) → bucket_eq b b ≡ true
bucket_eq_refl b = rw (==_refl b.0, ==_refl b.1, ==_refl b.2) refl

pub bucket_eq_iff : (b c : Bucket) → (bucket_eq b c ≡ true) ↔ (b ≡ c)
bucket_eq_iff b c = (bucket_eq→eq b c, λ e. ap (λ x. bucket_eq b x) (sym e) ∙ bucket_eq_refl b)

-- A bucket is lowered by one: the total by one, and no other count.
abbrev pub IsLowered : Bucket → List (Bucket × ℕ) → List (Bucket × ℕ) → Type 0
IsLowered b m next =
    (total next + 1 ≡ total m)
    × ((c : Bucket) → count_at bucket_eq c m ≤ count_at bucket_eq c next + one_if (bucket_eq b c))

removed_counts :
    (b c d : Bucket) (m : List (Bucket × ℕ))
    → bucket_eq d b ≡ true
    → count_at bucket_eq c ((d, 1) ∷ m) ≤ count_at bucket_eq c m + one_if (bucket_eq b c)
unfolding count_at
removed_counts b c d m own = elim (Bool-cases (bucket_eq d c)) [
  | inl same ↦ rw (same_at bucket_eq bucket_eq_iff b c d own, same) (omega arith)
  | inr other ↦ rw (same_at bucket_eq bucket_eq_iff b c d own, other) (omega arith)
]

lowered_counts :
    (b c d : Bucket) (n : ℕ) (m : List (Bucket × ℕ))
    → bucket_eq d b ≡ true
    → count_at bucket_eq c ((d, suc n) ∷ m)
      ≤ count_at bucket_eq c ((d, n) ∷ m) + one_if (bucket_eq b c)
unfolding count_at
lowered_counts b c d n m own = elim (Bool-cases (bucket_eq d c)) [
  | inl same ↦ rw (same_at bucket_eq bucket_eq_iff b c d own, same) (omega arith)
  | inr other ↦ rw (same_at bucket_eq bucket_eq_iff b c d own, other) (omega arith)
]

lowered-IsLowered :
    (b d : Bucket) (n : ℕ) (m : List (Bucket × ℕ))
    → bucket_eq d b ≡ true
    → 1 ≤ n
    → (next : List (Bucket × ℕ)) × (lowered d n m ≡ ok next) × IsLowered b ((d, n) ∷ m) next
lowered-IsLowered b d zero m own positive = absurd (omega arith)
lowered-IsLowered b d (suc zero) m own positive =
    (m, refl, (omega arith, λ c. removed_counts b c d m own))
lowered-IsLowered b d (suc (suc n)) m own positive =
    ((d, suc n) ∷ m, refl, (omega arith, λ c. lowered_counts b c d (suc n) m own))

kept_counts :
    (b c d : Bucket) (n : ℕ) (m next : List (Bucket × ℕ))
    → count_at bucket_eq c m ≤ count_at bucket_eq c next + one_if (bucket_eq b c)
    → count_at bucket_eq c ((d, n) ∷ m)
      ≤ count_at bucket_eq c ((d, n) ∷ next) + one_if (bucket_eq b c)
unfolding count_at
kept_counts b c d n m next le = elim (Bool-cases (bucket_eq d c)) [
  | inl same ↦ rw same (omega arith)
  | inr other ↦ rw other le
]

pub lower-IsLowered :
    (b : Bucket) (m : List (Bucket × ℕ))
    → 1 ≤ count_at bucket_eq b m
    → (next : List (Bucket × ℕ)) × (lower b m ≡ ok next) × IsLowered b m next
unfolding lower count_at
lower-IsLowered b [] positive = absurd (omega arith)
lower-IsLowered b ((d, n) ∷ m) positive = elim (Bool-cases (bucket_eq d b)) [
  | inl own ↦ rw own (
      lowered-IsLowered b d n m own
        (subst (λ (test : Bool). 1 ≤ (if test then n else count_at bucket_eq b m)) own positive))
  | inr other ↦
      let (next, lowers, (fewer, counts)) = lower-IsLowered b m (
        subst (λ (test : Bool). 1 ≤ (if test then n else count_at bucket_eq b m)) other positive) in
      (
        (d, n) ∷ next,
        rw (other, lowers) refl,
        (omega arith, λ c. kept_counts b c d n m next (counts c)),
      )
]

-- Every count covers the damaged keys of its bucket.
abbrev pub IsBacked : Tally → Type 0
IsBacked t = (b : Bucket) → damaged_at b t.damaged ≤ count_at bucket_eq b t.availability

pub without_key-damaged_at :
    (key : Bytes) (b : Bucket) (damaged : List (Bytes × Bucket))
    → damaged_at b (without_key key damaged) ≤ damaged_at b damaged
unfolding without_key
without_key-damaged_at key b [] = omega arith
without_key-damaged_at key b ((other, c) ∷ damaged) =
    let rest = without_key-damaged_at key b damaged in
    elim (Bool-cases (bytes_eq other key)) [
      | inl same ↦ rw same (omega arith)
      | inr apart ↦ rw apart (omega arith)
    ]

-- A damaged key that is removed is counted no more.
pub bucket_of-damaged_at :
    (key : Bytes) (b c : Bucket) (damaged : List (Bytes × Bucket))
    → bucket_of key damaged ≡ some b
    → damaged_at c (without_key key damaged) + one_if (bucket_eq b c) ≤ damaged_at c damaged
unfolding without_key bucket_of
bucket_of-damaged_at key b c [] e = absurd (cc)
bucket_of-damaged_at key b c ((other, d) ∷ damaged) e = elim (Bool-cases (bytes_eq other key)) [
  | inl same ↦
      let at_b : d ≡ b = some-injective _ _ (
        subst (λ (test : Bool). (if test then some d else bucket_of key damaged) ≡ some b) same
          e) in
      let rest = without_key-damaged_at key c damaged in rw (same, sym at_b) (omega arith)
  | inr apart ↦
      let rest = bucket_of-damaged_at key b c damaged (
        subst (λ (test : Bool). (if test then some d else bucket_of key damaged) ≡ some b) apart
          e) in
      rw apart (omega arith)
]
