-- ===== src/Common/Members.antt =====
-- Membership: what holds of every element, and what a filter and a map keep.
use Prim.Native.Nat.{ℕ, zero, suc, ◌+◌, ◌≤◌}
use distributed_jbod.Common.Tests.{Bool-cases}
use distributed_jbod.Common.Lists.{All, get_elem?, length}
use distributed_jbod.Common.Find.{filter}
use distributed_jbod.Common.Seen.{IsIn, concat_map}
use mathlib.Core.Bool.{Bool, true, false, not}
use mathlib.Core.List.{List, [], ◌∷◌, ◌++◌, map}
use mathlib.Core.Logic.{◌⊎◌, inl, inr}
use mathlib.Core.Option.{some, some-injective}
use mathlib.Core.Path.{◌≡◌, refl, ap}
use native.Mathlib.Omega.{arith}

module _ {A : Type 0} where
  pub All-IsIn : (P : A → Type 0) (x : A) (xs : List A) → All P xs → IsIn x xs → P x
  All-IsIn P x [] a i = absurd i
  All-IsIn P x (y ∷ xs) (p, a) (inl e) = rw e at p
  All-IsIn P x (y ∷ xs) (p, a) (inr i) = All-IsIn P x xs a i

  pub All-of_IsIn : (P : A → Type 0) (xs : List A) → ((x : A) → IsIn x xs → P x) → All P xs
  All-of_IsIn P [] h = tt
  All-of_IsIn P (x ∷ xs) h = (h x (inl refl), All-of_IsIn P xs (λ y i. h y (inr i)))

  pub IsIn-filter :
      (test : A → Bool) (x : A) (xs : List A)
      → IsIn x (filter test xs)
      → IsIn x xs × (test x ≡ true)
  IsIn-filter test x [] i = absurd i
  IsIn-filter test x (y ∷ xs) i = elim (Bool-cases (test y)) [
    | inl holds ↦ kept holds (IsIn-filter test x xs) (rw holds at i)
    | inr fails ↦
        let (at_tail, passed) = IsIn-filter test x xs (rw fails at i) in (inr at_tail, passed)
  ]
    where
      kept :
          test y ≡ true
          → (IsIn x (filter test xs) → IsIn x xs × (test x ≡ true))
          → ((y ≡ x) ⊎ IsIn x (filter test xs))
          → IsIn x (y ∷ xs) × (test x ≡ true)
      kept holds ih (inl e) = (inl e, rw e at holds)
      kept holds ih (inr j) = let (at_tail, passed) = ih j in (inr at_tail, passed)

  pub IsIn-tail : (x y : A) (xs : List A) → ¬ (y ≡ x) → IsIn x (y ∷ xs) → IsIn x xs
  IsIn-tail x y xs n (inl e) = absurd (n e)
  IsIn-tail x y xs n (inr i) = i

  pub filter-IsIn :
      (test : A → Bool) (x : A) (xs : List A) → IsIn x xs → test x ≡ true → IsIn x (filter test xs)
  filter-IsIn test x [] i h = absurd i
  filter-IsIn test x (y ∷ xs) (inl e) h = rw (e, h) (inl refl)
  filter-IsIn test x (y ∷ xs) (inr i) h = elim (Bool-cases (test y)) [
    | inl holds ↦ rw holds (inr (filter-IsIn test x xs i h))
    | inr fails ↦ rw fails (filter-IsIn test x xs i h)
  ]

  pub IsIn-get_elem? : (x : A) (xs : List A) (i : ℕ) → get_elem? xs i ≡ some x → IsIn x xs
  IsIn-get_elem? x [] i e = absurd (cc)
  IsIn-get_elem? x (y ∷ xs) zero e = inl (some-injective y x e)
  IsIn-get_elem? x (y ∷ xs) (suc i) e = inr (IsIn-get_elem? x xs i e)

  pub first_of_IsIn : (x : A) (xs : List A) → IsIn x xs → (y : A) × (get_elem? xs 0 ≡ some y)
  first_of_IsIn x [] i = absurd i
  first_of_IsIn x (y ∷ xs) i = (y, refl)

  -- A filter that keeps as many as there are keeps all.
  pub length-filter : (test : A → Bool) (xs : List A) → length (filter test xs) ≤ length xs
  length-filter test [] = omega arith
  length-filter test (x ∷ xs) = ground (arith, length-filter test xs)

  pub filter-All :
      (test : A → Bool) (xs : List A) → All (λ x. test x ≡ true) xs → filter test xs ≡ xs
  filter-All test [] a = refl
  filter-All test (x ∷ xs) (h, a) = rw (h, filter-All test xs a)

  pub filter_none :
      (test : A → Bool) (xs : List A) → All (λ x. test x ≡ false) xs → filter test xs ≡ []
  filter_none test [] a = refl
  filter_none test (x ∷ xs) (h, a) = rw (h, filter_none test xs a)

  pub All-of_length-filter :
      (test : A → Bool) (xs : List A)
      → length xs ≤ length (filter test xs)
      → All (λ x. test x ≡ true) xs
  All-of_length-filter test [] h = tt
  All-of_length-filter test (x ∷ xs) h = elim (Bool-cases (test x)) [
    | inl holds ↦
        let rest : length (x ∷ xs) ≤ length (x ∷ filter test xs) = rw holds at h in
        (holds, All-of_length-filter test xs (omega arith))
    | inr fails ↦
        let rest : length (x ∷ xs) ≤ length (filter test xs) = rw fails at h in
        absurd (omega (arith, length-filter test xs))
  ]

module _ {A B : Type 0} (f : A → B) where
  pub IsIn-map : (x : A) (xs : List A) → IsIn x xs → IsIn (f x) (map f xs)
  IsIn-map x [] i = absurd i
  IsIn-map x (y ∷ xs) (inl e) = inl (ap f e)
  IsIn-map x (y ∷ xs) (inr i) = inr (IsIn-map x xs i)

  pub map-IsIn : (b : B) (xs : List A) → IsIn b (map f xs) → (x : A) × IsIn x xs × (f x ≡ b)
  map-IsIn b [] i = absurd i
  map-IsIn b (y ∷ xs) (inl e) = (y, inl refl, e)
  map-IsIn b (y ∷ xs) (inr i) = let (x, j, e) = map-IsIn b xs i in (x, inr j, e)

pub length-filter-not :
    {A : Type 0} (test : A → Bool) (xs : List A)
    → length (filter (λ x. not (test x)) xs) + length (filter test xs) ≡ length xs
length-filter-not test [] = omega arith
length-filter-not test (x ∷ xs) = ground (arith, length-filter-not test xs)

pub IsIn-append : {A : Type 0} (x : A) (xs ys : List A) → IsIn x (xs ++ ys) → IsIn x xs ⊎ IsIn x ys
IsIn-append x [] ys i = inr i
IsIn-append x (z ∷ xs) ys (inl e) = inl (inl e)
IsIn-append x (z ∷ xs) ys (inr i) = elim (IsIn-append x xs ys i) [
  | inl front ↦ inl (inr front)
  | inr back ↦ inr back
]

pub concat_map-IsIn :
    {A B : Type 0} (f : A → List B) (b : B) (xs : List A)
    → IsIn b (concat_map f xs)
    → (x : A) × IsIn x xs × IsIn b (f x)
concat_map-IsIn f b [] i = absurd i
concat_map-IsIn f b (x ∷ xs) i = elim (IsIn-append b (f x) (concat_map f xs) i) [
  | inl here ↦ (x, inl refl, here)
  | inr there ↦ let (y, j, h) = concat_map-IsIn f b xs there in (y, inr j, h)
]
