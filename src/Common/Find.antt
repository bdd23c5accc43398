-- ===== src/Common/Find.antt =====
-- Searches of lists.
use distributed_jbod.Common.Tests.{Bool-cases, if◌then◌else◌}
use distributed_jbod.Common.Lists.{get_elem?}
use distributed_jbod.Common.Seen.{
  concat_map, IsIn, IsUnique, IsIn-append_left, IsIn-append_right, IsUnique-apart,
  IsUnique-append_right,
}
use Prim.Native.Nat.{ℕ, zero, suc}
use mathlib.Core.Option.{Option, none, some, some-injective}
use mathlib.Core.Bool.{Bool, true, ◌&&◌}
use mathlib.Core.List.{List, [], ◌∷◌}
use mathlib.Core.Logic.{inl, inr, ◌↔◌}
use mathlib.Core.Path.{◌≡◌, refl, ap}

-- `xs.iter().find(test)`.
abbrev pub find {ℓ} : {X : Type ℓ} → (X → Bool) → List X → Option X
find test [] = none
find test (x ∷ xs) = if test x then some x else find test xs

-- `xs.iter().filter(test)`.
abbrev pub filter {ℓ} : {X : Type ℓ} → (X → Bool) → List X → List X
filter test [] = []
filter test (x ∷ xs) = if test x then x ∷ filter test xs else filter test xs

pub find-filter {ℓ} :
    {X : Type ℓ} (test kept : X → Bool) (xs : List X)
    → find test (filter kept xs) ≡ find (λ x. kept x && test x) xs
find-filter test kept [] = refl
find-filter test kept (x ∷ xs) = elim (Bool-cases (kept x)) [
  | inl holds ↦ rw holds (ap (λ o. if test x then some x else o) (find-filter test kept xs))
  | inr fails ↦ rw fails (find-filter test kept xs)
]

-- A search by a key that no two items share finds the item that has it.
module _ {ℓ} {X : Type ℓ} {A : Type 0} (keys : X → List A) (test : A → X → Bool)
    (test_iff : (a : A) (x : X) → (test a x ≡ true) ↔ IsIn a (keys x)) where
  IsIn-concat_map :
      (a : A) (x : X) (xs : List X) (i : ℕ)
      → get_elem? xs i ≡ some x
      → IsIn a (keys x)
      → IsIn a (concat_map keys xs)
  IsIn-concat_map a x [] i e h = absurd (cc)
  IsIn-concat_map a x (y ∷ xs) zero e h =
      IsIn-append_left a (keys y) (concat_map keys xs) (rw (some-injective y x e) h)
  IsIn-concat_map a x (y ∷ xs) (suc i) e h =
      IsIn-append_right a (keys y) (concat_map keys xs) (IsIn-concat_map a x xs i e h)

  pub find_unique :
      (a : A) (x : X) (xs : List X) (i : ℕ)
      → IsUnique (concat_map keys xs)
      → get_elem? xs i ≡ some x
      → IsIn a (keys x)
      → find (test a) xs ≡ some x
  find_unique a x [] i u e h = absurd (cc)
  find_unique a x (y ∷ xs) zero u e h =
      let same = some-injective y x e in rw ((test_iff a y).1 (rw same h), same)
  find_unique a x (y ∷ xs) (suc i) u e h = elim (Bool-cases (test a y)) [
    | inl holds ↦ absurd (
        IsUnique-apart a (keys y) (concat_map keys xs) u ((test_iff a y).0 holds)
          (IsIn-concat_map a x xs i e h))
    | inr fails ↦
        rw fails (find_unique a x xs i (IsUnique-append_right (keys y) (concat_map keys xs) u) e h)
  ]
