-- ===== src/Node/Placement/Best.antt =====
-- `place` chooses the best of the eligible devices, and fails only if they are too few.
use distributed_jbod.Common.{
  ℕ, zero, suc, ◌≡◌, ◌≤◌, ◌<◌, ◌⊎◌, sym, Bool, true, false, List, [], ◌∷◌, take, All, All-weaken,
  arith, Bool-cases, inl, inr,
}
use distributed_jbod.Common.Find.{filter}
use distributed_jbod.Node.Placement.{DeviceStatus, comes_before, insert, sort}
use mathlib.Core.List.{Perm}
use mathlib.Core.List.Perm

-- More free space, or as much and no higher id.
abbrev pub Comes : DeviceStatus → DeviceStatus → Type 0
Comes a b = (b.free_bytes < a.free_bytes) ⊎ ((a.free_bytes ≡ b.free_bytes) × (a.device ≤ b.device))

comes_before-Comes : (a b : DeviceStatus) → comes_before a b ≡ true → Comes a b
comes_before-Comes a b h = ground arith

Comes-total : (a b : DeviceStatus) → comes_before a b ≡ false → Comes b a
Comes-total a b h = ground arith

Comes-trans : (a b c : DeviceStatus) → Comes a b → Comes b c → Comes a c
Comes-trans a b c p q = ground arith

-- Each comes before all that follow.
abbrev pub IsSorted : List DeviceStatus → Type 0
IsSorted [] = Unit {0}
IsSorted (x ∷ xs) = All (Comes x) xs × IsSorted xs

-- No two entries are of one device.
abbrev pub IsDistinct : List DeviceStatus → Type 0
IsDistinct [] = Unit {0}
IsDistinct (x ∷ xs) = All (λ (y : DeviceStatus). ¬ (y.device ≡ x.device)) xs × IsDistinct xs

insert-All :
    (P : DeviceStatus → Type 0) (d : DeviceStatus) (xs : List DeviceStatus)
    → P d
    → All P xs
    → All P (insert d xs)
unfolding insert
insert-All P d [] p h = (p, tt)
insert-All P d (x ∷ xs) p (q, h) = elim (Bool-cases (comes_before d x)) [
  | inl before ↦ rw before (p, (q, h))
  | inr after ↦ rw after (q, insert-All P d xs p h)
]

sort-All : (P : DeviceStatus → Type 0) (xs : List DeviceStatus) → All P xs → All P (sort xs)
unfolding sort
sort-All P [] h = tt
sort-All P (x ∷ xs) (p, h) = insert-All P x (sort xs) p (sort-All P xs h)

insert-IsSorted : (d : DeviceStatus) (xs : List DeviceStatus) → IsSorted xs → IsSorted (insert d xs)
unfolding insert
insert-IsSorted d [] s = (tt, tt)
insert-IsSorted d (x ∷ xs) (h, s) = elim (Bool-cases (comes_before d x)) [
  | inl before ↦ rw before (
    (
      comes_before-Comes d x before,
      All-weaken (Comes x) (Comes d) xs (λ y c. Comes-trans d x y (comes_before-Comes d x before) c)
          h,
    ),
    (h, s),
  )
  | inr after ↦
      rw after (insert-All (Comes x) d xs (Comes-total d x after) h, insert-IsSorted d xs s)
]

pub sort-IsSorted : (xs : List DeviceStatus) → IsSorted (sort xs)
unfolding sort
sort-IsSorted [] = tt
sort-IsSorted (x ∷ xs) = insert-IsSorted x (sort xs) (sort-IsSorted xs)

insert-Perm : (d : DeviceStatus) (xs : List DeviceStatus) → Perm (d ∷ xs) (insert d xs)
unfolding insert
insert-Perm d [] = Perm.refl (d ∷ [])
insert-Perm d (x ∷ xs) = elim (Bool-cases (comes_before d x)) [
  | inl before ↦ rw before (Perm.refl (d ∷ x ∷ xs))
  | inr after ↦ rw after (Perm.trans (Perm.swap x d xs) (Perm.cons x (insert-Perm d xs)))
]

pub sort-Perm : (xs : List DeviceStatus) → Perm xs (sort xs)
unfolding sort
sort-Perm [] = Perm.refl []
sort-Perm (x ∷ xs) = Perm.trans (Perm.cons x (sort-Perm xs)) (insert-Perm x (sort xs))

insert-IsDistinct :
    (d : DeviceStatus) (xs : List DeviceStatus) → IsDistinct (d ∷ xs) → IsDistinct (insert d xs)
unfolding insert
insert-IsDistinct d [] h = h
insert-IsDistinct d (x ∷ xs) ((n, ns), (h, s)) = elim (Bool-cases (comes_before d x)) [
  | inl before ↦ rw before ((n, ns), (h, s))
  | inr after ↦ rw after (
    insert-All (λ (y : DeviceStatus). ¬ (y.device ≡ x.device)) d xs (λ e. n (sym e)) h,
    insert-IsDistinct d xs (ns, s),
  )
]

pub sort-IsDistinct : (xs : List DeviceStatus) → IsDistinct xs → IsDistinct (sort xs)
unfolding sort
sort-IsDistinct [] h = tt
sort-IsDistinct (x ∷ xs) (n, h) =
    insert-IsDistinct x (sort xs)
      (sort-All (λ (y : DeviceStatus). ¬ (y.device ≡ x.device)) xs n, sort-IsDistinct xs h)

filter-All :
    (P : DeviceStatus → Type 0) (test : DeviceStatus → Bool) (xs : List DeviceStatus)
    → All P xs
    → All P (filter test xs)
filter-All P test [] h = tt
filter-All P test (x ∷ xs) (p, h) = elim (Bool-cases (test x)) [
  | inl kept ↦ rw kept (p, filter-All P test xs h)
  | inr gone ↦ rw gone (filter-All P test xs h)
]

pub filter-IsDistinct :
    (test : DeviceStatus → Bool) (xs : List DeviceStatus)
    → IsDistinct xs
    → IsDistinct (filter test xs)
filter-IsDistinct test [] h = tt
filter-IsDistinct test (x ∷ xs) (n, h) = elim (Bool-cases (test x)) [
  | inl kept ↦ rw kept (
    filter-All (λ (y : DeviceStatus). ¬ (y.device ≡ x.device)) test xs n,
    filter-IsDistinct test xs h,
  )
  | inr gone ↦ rw gone (filter-IsDistinct test xs h)
]

take-All :
    (P : DeviceStatus → Type 0) (n : ℕ) (xs : List DeviceStatus) → All P xs → All P (take n xs)
take-All P zero xs h = tt
take-All P (suc n) [] h = tt
take-All P (suc n) (x ∷ xs) (p, h) = (p, take-All P n xs h)

pub take-IsDistinct : (n : ℕ) (xs : List DeviceStatus) → IsDistinct xs → IsDistinct (take n xs)
take-IsDistinct zero xs h = tt
take-IsDistinct (suc n) [] h = tt
take-IsDistinct (suc n) (x ∷ xs) (p, h) = (take-All _ n xs p, take-IsDistinct n xs h)
