-- ===== src/Common/Seen.antt =====
-- A `for` loop that may return early, and lists that grow by what was not seen before.
use distributed_jbod.Common.Tests.{Bool-cases}
use distributed_jbod.Common.Lists.{All, All-append, All-split, All-weaken}
use distributed_jbod.Common.Results.{Outcome, ok, ◌>>=◌, ◌>>◌, fail_if, fail_if-eq-ok, >>=-eq-ok}
use mathlib.Core.Bool.{Bool, true, false, ◌||◌}
use mathlib.Core.List.{List, [], ◌∷◌, ◌++◌, map, append-nil, append_assoc}
use mathlib.Core.Logic.{◌⊎◌, inl, inr, ◌↔◌}
use mathlib.Core.Path.{◌≡◌, refl, sym, ap, ◌∙◌}

-- `for x in xs { state = step(state, x)?; }`.
unfoldable pub for_each {ℓ κ μ} :
    {E : Type ℓ} {S : Type κ} {X : Type μ} → (S → X → Outcome E S) → S → List X → Outcome E S
for_each step state [] = ok state
for_each step state (x ∷ xs) = do next ← step state x; for_each step next xs

abbrev pub concat_map {ℓ κ} : {X : Type ℓ} {A : Type κ} → (X → List A) → List X → List A
concat_map f [] = []
concat_map f (x ∷ xs) = f x ++ concat_map f xs

abbrev pub IsIn : {A : Type 0} → A → List A → Type 0
IsIn x [] = ⊥
IsIn x (y ∷ ys) = (y ≡ x) ⊎ IsIn x ys

pub concat_map-single {ℓ κ} :
    {X : Type ℓ} {A : Type κ} (f : X → A) (xs : List X) → concat_map (λ x. f x ∷ []) xs ≡ map f xs
concat_map-single f [] = refl
concat_map-single f (x ∷ xs) = ap (◌∷◌ (f x)) (concat_map-single f xs)

module _ {ℓ} {A : Type ℓ} where
  abbrev pub NotIn : A → List A → Type ℓ
  NotIn x xs = All (λ y. ¬ (y ≡ x)) xs

  -- The elements are different from each other.
  abbrev pub IsUnique : List A → Type ℓ
  IsUnique [] = Unit {ℓ}
  IsUnique (x ∷ xs) = NotIn x xs × IsUnique xs

  -- The elements are different from those seen and from each other.
  abbrev pub IsFresh : List A → List A → Type ℓ
  IsFresh seen [] = Unit {ℓ}
  IsFresh seen (x ∷ xs) = NotIn x seen × IsFresh (seen ++ x ∷ []) xs

  pub IsFresh-IsUnique :
      (seen xs : List A) → IsFresh seen xs → IsUnique xs × All (λ x. NotIn x seen) xs
  IsFresh-IsUnique seen [] f = (tt, tt)
  IsFresh-IsUnique seen (x ∷ xs) (new, f) =
      let (unique, fresh) = IsFresh-IsUnique (seen ++ x ∷ []) xs f in
      (
        (
          All-weaken _ (λ y. ¬ (y ≡ x)) xs
              (λ y n e. (All-split (λ z. ¬ (z ≡ y)) seen (x ∷ []) n).1.0 (sym e)) fresh,
          unique,
        ),
        (
          new,
          All-weaken _ (λ y. NotIn y seen) xs
              (λ y n. (All-split (λ z. ¬ (z ≡ y)) seen (x ∷ []) n).0) fresh,
        ),
      )

  pub IsUnique-IsFresh :
      (seen xs : List A) → IsUnique xs → All (λ x. NotIn x seen) xs → IsFresh seen xs
  IsUnique-IsFresh seen [] u n = tt
  IsUnique-IsFresh seen (x ∷ xs) (apart, u) (new, n) =
      (new, IsUnique-IsFresh (seen ++ x ∷ []) xs u (both xs apart n))
    where
      both :
          (ys : List A)
          → NotIn x ys
          → All (λ y. NotIn y seen) ys
          → All (λ y. NotIn y (seen ++ x ∷ [])) ys
      both [] a m = tt
      both (y ∷ ys) (a, apart) (m, ms) =
          (All-append (λ z. ¬ (z ≡ y)) seen (x ∷ []) m (λ e. a (sym e), tt), both ys apart ms)

  -- Nothing was seen at first.
  pub NotIn-nil : (xs : List A) → All (λ x. NotIn x []) xs
  NotIn-nil [] = tt
  NotIn-nil (x ∷ xs) = (tt, NotIn-nil xs)

  IsFresh-append :
      (seen xs ys : List A) → IsFresh seen xs → IsFresh (seen ++ xs) ys → IsFresh seen (xs ++ ys)
  IsFresh-append seen [] ys f g = rw (append-nil seen) at g
  IsFresh-append seen (x ∷ xs) ys (n, f) g =
      (n, IsFresh-append (seen ++ x ∷ []) xs ys f (rw (append_assoc seen (x ∷ []) xs) g))

  IsFresh-split :
      (seen xs ys : List A) → IsFresh seen (xs ++ ys) → IsFresh seen xs × IsFresh (seen ++ xs) ys
  IsFresh-split seen [] ys f = (tt, rw (append-nil seen) f)
  IsFresh-split seen (x ∷ xs) ys (n, f) =
      let (g, h) = IsFresh-split (seen ++ x ∷ []) xs ys f in
      ((n, g), rw (append_assoc seen (x ∷ []) xs) at h)

  -- A step that adds the new elements of each item, if `P` holds of it.
  module _ {κ μ ν} {E : Type κ} {X : Type μ} (P : X → Type ν) (news : X → List A)
      (step : List A → X → Outcome E (List A)) where
    -- What it takes for a step to succeed, and what it then returns.
    pub record IsStep : Type (ℓ ⊔ κ ⊔ μ ⊔ ν) where
      pub sound :
          (seen next : List A) (x : X)
          → step seen x ≡ ok next
          → P x × IsFresh seen (news x) × (next ≡ seen ++ news x)
      pub complete :
          (seen : List A) (x : X) → P x → IsFresh seen (news x) → step seen x ≡ ok (seen ++ news x)

    pub for_each_sound :
        IsStep
        → (seen next : List A) (xs : List X) → for_each step seen xs ≡ ok next
        → All P xs × IsFresh seen (concat_map news xs) × (next ≡ seen ++ concat_map news xs)
    unfolding for_each
    for_each_sound s seen next [] e =
        (tt, tt, (let same : next ≡ seen = cc in same) ∙ sym (append-nil seen))
    for_each_sound s seen next (x ∷ xs) e =
        let (mid, first, rest) = >>=-eq-ok (step seen x) (λ n. for_each step n xs) e in
        let (p, fresh, same) = s.sound seen mid x first in
        let (all, more, last) = for_each_sound s mid next xs rest in
        (
          (p, all),
          IsFresh-append seen (news x) (concat_map news xs) fresh (rw same at more),
          (last ∙ ap (λ m. m ++ concat_map news xs) same)
              ∙ append_assoc seen (news x) (concat_map news xs),
        )

    pub for_each_complete :
        IsStep
        → (seen : List A) (xs : List X) → All P xs
        → IsFresh seen (concat_map news xs)
        → for_each step seen xs ≡ ok (seen ++ concat_map news xs)
    unfolding for_each
    for_each_complete s seen [] a f = ap ok (sym (append-nil seen))
    for_each_complete s seen (x ∷ xs) (p, a) f =
        let (g, h) = IsFresh-split seen (news x) (concat_map news xs) f in
        rw (s.complete seen x p g) (
          for_each_complete s (seen ++ news x) xs a h
          ∙ ap ok (append_assoc seen (news x) (concat_map news xs)))

  -- `xs.contains(&x)`, and a push that fails with `e` on what was seen.
  module _ (eq : A → A → Bool) where
    abbrev pub member : List A → A → Bool
    member [] x = false
    member (y ∷ ys) x = eq y x || member ys x

    abbrev pub push_new {κ} : {E : Type κ} → E → List A → A → Outcome E (List A)
    push_new e seen x = fail_if (member seen x) e >> ok (seen ++ x ∷ [])

    module _ (eq_iff : (a b : A) → (eq a b ≡ true) ↔ (a ≡ b)) where
      pub member-NotIn : (x : A) (xs : List A) → member xs x ≡ false → NotIn x xs
      member-NotIn x [] e = tt
      member-NotIn x (y ∷ ys) e = elim (Bool-cases (eq y x)) [
        | inl same ↦ absurd (let wrong : true ≡ false = rw same at e in cc)
        | inr other ↦ (
          λ p. (let wrong : true ≡ false = sym ((eq_iff y x).1 p) ∙ other in cc),
          member-NotIn x ys (rw other at e),
        )
      ]

      pub NotIn-member : (x : A) (xs : List A) → NotIn x xs → member xs x ≡ false
      NotIn-member x [] n = refl
      NotIn-member x (y ∷ ys) (n, ns) = elim (Bool-cases (eq y x)) [
        | inl same ↦ absurd (n ((eq_iff y x).0 same))
        | inr other ↦ rw other (NotIn-member x ys ns)
      ]

      pub push_new-ok {κ} :
          {E : Type κ} (e : E) (seen next : List A) (x : A)
          → push_new e seen x ≡ ok next
          → NotIn x seen × (next ≡ seen ++ x ∷ [])
      push_new-ok e seen next x h =
          let (new, same) = fail_if-eq-ok (member seen x) e (ok (seen ++ x ∷ [])) h in
          (member-NotIn x seen new, cc)

      pub push_new_lem {κ} :
          {E : Type κ} (e : E) (seen : List A) (x : A)
          → NotIn x seen
          → push_new e seen x ≡ ok (seen ++ x ∷ [])
      push_new_lem e seen x n = rw (NotIn-member x seen n)

module _ {A : Type 0} (eq : A → A → Bool) (eq_iff : (a b : A) → (eq a b ≡ true) ↔ (a ≡ b)) where
  pub member-IsIn : (x : A) (xs : List A) → member eq xs x ≡ true → IsIn x xs
  member-IsIn x [] e = absurd (cc)
  member-IsIn x (y ∷ ys) e = elim (Bool-cases (eq y x)) [
    | inl same ↦ inl ((eq_iff y x).0 same)
    | inr other ↦ inr (member-IsIn x ys (rw other at e))
  ]

  pub IsIn-member : (x : A) (xs : List A) → IsIn x xs → member eq xs x ≡ true
  IsIn-member x [] i = absurd i
  IsIn-member x (y ∷ ys) (inl same) = rw ((eq_iff y x).1 same)
  IsIn-member x (y ∷ ys) (inr rest) = elim (Bool-cases (eq y x)) [
    | inl same ↦ rw same
    | inr other ↦ rw other (IsIn-member x ys rest)
  ]

pub IsIn-append_right : {A : Type 0} (x : A) (xs ys : List A) → IsIn x ys → IsIn x (xs ++ ys)
IsIn-append_right x [] ys i = i
IsIn-append_right x (z ∷ xs) ys i = inr (IsIn-append_right x xs ys i)

pub IsIn-append_left : {A : Type 0} (x : A) (xs ys : List A) → IsIn x xs → IsIn x (xs ++ ys)
IsIn-append_left x [] ys i = absurd i
IsIn-append_left x (z ∷ xs) ys (inl e) = inl e
IsIn-append_left x (z ∷ xs) ys (inr i) = inr (IsIn-append_left x xs ys i)

pub NotIn-IsIn : {A : Type 0} (x : A) (xs : List A) → NotIn x xs → ¬ IsIn x xs
NotIn-IsIn x [] n i = i
NotIn-IsIn x (y ∷ xs) (n, ns) (inl e) = n e
NotIn-IsIn x (y ∷ xs) (n, ns) (inr i) = NotIn-IsIn x xs ns i

pub IsUnique-apart :
    {A : Type 0} (x : A) (xs ys : List A) → IsUnique (xs ++ ys) → IsIn x xs → ¬ IsIn x ys
IsUnique-apart x [] ys u i j = i
IsUnique-apart x (z ∷ xs) ys (n, u) (inl e) j =
    NotIn-IsIn z (xs ++ ys) n (rw e (IsIn-append_right x xs ys j))
IsUnique-apart x (z ∷ xs) ys (n, u) (inr i) j = IsUnique-apart x xs ys u i j

pub IsUnique-append_right : {A : Type 0} (xs ys : List A) → IsUnique (xs ++ ys) → IsUnique ys
IsUnique-append_right [] ys u = u
IsUnique-append_right (x ∷ xs) ys (n, u) = IsUnique-append_right xs ys u
