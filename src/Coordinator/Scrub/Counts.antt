-- ===== src/Coordinator/Scrub/Counts.antt =====
-- What `bump` does to the counts.
use distributed_jbod.Common.{
  ℕ, ◌+◌, ◌≡◌, ◌↔◌, refl, sym, ◌∙◌, ap, Bool, true, false, List, [], ◌∷◌, arith, Bool-cases, inl,
  inr,
}
use distributed_jbod.Coordinator.Scrub.{bump, count_at}

abbrev pub one_if : Bool → ℕ
one_if true = 1
one_if false = 0

module _ {K : Type 0} (same : K → K → Bool)
    (same_iff : (a b : K) → (same a b ≡ true) ↔ (a ≡ b)) where
  -- Equal keys compare alike, and a key that differs from one of them differs from both.
  pub same_at : (b c d : K) → same d b ≡ true → same b c ≡ same d c
  same_at b c d e = ap (λ x. same x c) (sym ((same_iff d b).0 e))

  same_apart : (b c d : K) → same d b ≡ false → same d c ≡ true → same b c ≡ false
  same_apart b c d other alike = elim (Bool-cases (same b c)) [
    | inl both ↦ absurd (
        let wrong : same d b ≡ true = ap (λ x. same d x) ((same_iff b c).0 both) ∙ alike in
        let clash : true ≡ false = sym wrong ∙ other in cc)
    | inr apart ↦ apart
  ]

  -- A bump is seen at its key only.
  pub bump-count_at :
      (b c : K) (m : List (K × ℕ))
      → count_at same c m + one_if (same b c) ≡ count_at same c (bump same b m)
  unfolding bump count_at
  bump-count_at b c [] = elim (Bool-cases (same b c)) [
    | inl alike ↦ rw alike refl
    | inr other ↦ rw other refl
  ]
  bump-count_at b c ((d, n) ∷ m) = elim (Bool-cases (same d b)) [
    | inl own ↦
        let at_b = same_at b c d own in
        elim (Bool-cases (same d c)) [
          | inl alike ↦ rw (at_b, own, alike) refl
          | inr other ↦ rw (at_b, own, other) (omega arith)
        ]
    | inr not_own ↦
        let rest = bump-count_at b c m in
        elim (Bool-cases (same d c)) [
          | inl alike ↦ rw (not_own, same_apart b c d not_own alike, alike) (omega arith)
          | inr other ↦ rw (not_own, other) rest
        ]
  ]
