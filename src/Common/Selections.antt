-- ===== src/Common/Selections.antt =====
-- What a filter selects, said without its test.
use distributed_jbod.Common.Tests.{Bool-cases}
use distributed_jbod.Common.Find.{filter}
use mathlib.Core.Bool.{Bool, true, false}
use mathlib.Core.List.{List, [], ◌∷◌}
use mathlib.Core.Logic.{◌↔◌, inl, inr}
use mathlib.Core.Path.{◌≡◌, refl, sym, ap, ◌∙◌}

-- The second list holds the items of the first that have the property, all of them and in their order.
pub data IsSelection {A : Type 0} (P : A → Type 0) : List A → List A → Type 0 where
  done : IsSelection P [] []
  with : (x : A) {xs ys : List A} → P x → IsSelection P xs ys → IsSelection P (x ∷ xs) (x ∷ ys)
  without : (x : A) {xs ys : List A} → ¬ P x → IsSelection P xs ys → IsSelection P (x ∷ xs) ys

module _ {A : Type 0} (P : A → Type 0) (test : A → Bool)
    (test_iff : (x : A) → (test x ≡ true) ↔ P x) where
  fails : (x : A) → test x ≡ false → ¬ P x
  fails x other p = let wrong : true ≡ false = sym ((test_iff x).1 p) ∙ other in absurd (cc)

  pub filter-IsSelection : (xs : List A) → IsSelection P xs (filter test xs)
  filter-IsSelection [] = done
  filter-IsSelection (x ∷ xs) = elim (Bool-cases (test x)) [
    | inl holds ↦ rw holds (with x ((test_iff x).0 holds) (filter-IsSelection xs))
    | inr other ↦ rw other (without x (fails x other) (filter-IsSelection xs))
  ]

  pub IsSelection-filter : {xs ys : List A} → IsSelection P xs ys → filter test xs ≡ ys
  IsSelection-filter done = refl
  IsSelection-filter (with x p s) = rw ((test_iff x).1 p) (ap (◌∷◌ x) (IsSelection-filter s))
  IsSelection-filter (without x n s) = elim (Bool-cases (test x)) [
    | inl holds ↦ absurd (n ((test_iff x).0 holds))
    | inr other ↦ rw other (IsSelection-filter s)
  ]
