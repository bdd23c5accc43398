-- ===== src/Device/Tree/Laws.antt =====
-- What a tree holds after an entry is put or taken away.
use distributed_jbod.Common.{
  ◌≡◌, refl, sym, ◌∙◌, ap, true, false, Option, none, some, [], ◌∷◌, ◌++◌, if◌then◌else◌, bytes_eq,
  bytes_eq_iff, bytes_eq_refl, Bool-cases, &&_split, inl, inr,
}
use distributed_jbod.Naming.{Text}
use distributed_jbod.Device.{FilePath, Entry}
use distributed_jbod.Device.Tree.{
  Entries, paths_eq, entry_at, put, take_away, child_of, children_of,
}

pub paths_eq_refl : (p : FilePath) → paths_eq p p ≡ true
unfolding paths_eq
paths_eq_refl [] = refl
paths_eq_refl (a ∷ p) = rw (bytes_eq_refl a, paths_eq_refl p)

pub paths_eq→eq : (p q : FilePath) → paths_eq p q ≡ true → p ≡ q
unfolding paths_eq
paths_eq→eq [] [] h = refl
paths_eq→eq [] (b ∷ q) h = absurd (cc)
paths_eq→eq (a ∷ p) [] h = absurd (cc)
paths_eq→eq (a ∷ p) (b ∷ q) h =
    let (same, rest) = &&_split (bytes_eq a b) (paths_eq p q) h in
    let first = (bytes_eq_iff a b).0 same in let later = paths_eq→eq p q rest in cc

-- Two tests of equal paths agree.
pub paths_eq_same : (o p q : FilePath) → paths_eq o p ≡ true → paths_eq o q ≡ paths_eq p q
paths_eq_same o p q h = ap (λ r. paths_eq r q) (paths_eq→eq o p h)

pub paths_ne : (p q : FilePath) → ¬ (p ≡ q) → paths_eq p q ≡ false
paths_ne p q n = elim (Bool-cases (paths_eq p q)) [
  | inl same ↦ absurd (n (paths_eq→eq p q same))
  | inr other ↦ other
]

pub entry_at-put :
    (p : FilePath) (entry : Entry) (q : FilePath) (entries : Entries)
    → entry_at q (put p entry entries) ≡ (if paths_eq p q then some entry else entry_at q entries)
unfolding entry_at put
entry_at-put p entry q [] = refl
entry_at-put p entry q ((o, old) ∷ entries) = elim (Bool-cases (paths_eq o p)) [
  | inl here ↦
      let agree = paths_eq_same o p q here in
      elim (Bool-cases (paths_eq p q)) [
        | inl found ↦ rw (here, agree, found)
        | inr other ↦ rw (here, agree, other)
      ]
  | inr there ↦ elim (Bool-cases (paths_eq o q)) [
    | inr away ↦ rw (there, away) (entry_at-put p entry q entries)
    | inl at_o ↦
        let apart : paths_eq p q ≡ false = paths_ne p q (λ e.
          (let same = paths_eq→eq o q at_o ∙ sym e in
            let wrong : true ≡ false =
              sym (paths_eq_refl p) ∙ ap (λ r. paths_eq r p) (sym same) ∙ there in
            cc)) in
        rw (there, at_o, apart)
  ]
]

pub entry_at-take_away :
    (p q : FilePath) (entries : Entries)
    → entry_at q (take_away p entries) ≡ (if paths_eq p q then none else entry_at q entries)
unfolding entry_at take_away
entry_at-take_away p q [] = elim (Bool-cases (paths_eq p q)) [
  | inl here ↦ rw here
  | inr there ↦ rw there
]
entry_at-take_away p q ((o, old) ∷ entries) = elim (Bool-cases (paths_eq o p)) [
  | inl here ↦
      let agree = paths_eq_same o p q here in
      elim (Bool-cases (paths_eq p q)) [
        | inl found ↦ rw here (rw found at (entry_at-take_away p q entries) ∙ rw found)
        | inr other ↦ rw (here, agree, other) (rw other at (entry_at-take_away p q entries))
      ]
  | inr there ↦ elim (Bool-cases (paths_eq o q)) [
    | inr away ↦ rw (there, away) (entry_at-take_away p q entries)
    | inl at_o ↦
        let apart : paths_eq p q ≡ false = paths_ne p q (λ e.
          (let same = paths_eq→eq o q at_o ∙ sym e in
            let wrong : true ≡ false =
              sym (paths_eq_refl p) ∙ ap (λ r. paths_eq r p) (sym same) ∙ there in
            cc)) in
        rw (there, at_o, apart)
  ]
]

child_of-append : (p : FilePath) (name : Text) → child_of p (p ++ name ∷ []) ≡ some name
unfolding child_of
child_of-append [] name = refl
child_of-append (a ∷ p) name = rw (bytes_eq_refl a) (child_of-append p name)

-- A directory in which something stands is not empty.
pub children_of-nil :
    (p : FilePath) (name : Text) (entries : Entries)
    → children_of p entries ≡ []
    → entry_at (p ++ name ∷ []) entries ≡ none
unfolding children_of entry_at
children_of-nil p name [] e = refl
children_of-nil p name ((o, entry) ∷ entries) e = elim (Bool-cases (paths_eq o (p ++ name ∷ []))) [
  | inl here ↦ absurd (
      let child : child_of p o ≡ some name =
        ap (child_of p) (paths_eq→eq o (p ++ name ∷ []) here) ∙ child_of-append p name in
      let wrong : name ∷ children_of p entries ≡ [] = rw (children_of, child) at e in cc)
  | inr there ↦ rw there (children_of-nil p name entries (none_after (child_of p o) e))
]
  where
    none_after :
        (child : Option Text)
        → (elim child [ none ↦ children_of p entries | some first ↦ first ∷ children_of p entries ])
          ≡ []
        → children_of p entries ≡ []
    none_after none h = h
    none_after (some first) h = absurd (cc)
