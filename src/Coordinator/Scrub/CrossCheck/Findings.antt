-- ===== src/Coordinator/Scrub/CrossCheck/Findings.antt =====
-- What the outcome of a merge says of the findings that were sent.
use mathlib.Core.Path.{subst}
use mathlib.Core.List.{append-nil}
use distributed_jbod.Common.{
  ℕ, ◌+◌, ◌≡◌, ◌⊎◌, ◌↔◌, inl, inr, refl, sym, ◌∙◌, ap, Bool, true, List, [], ◌∷◌, ◌++◌, map, length,
  length-append, arith, Bool-cases, bytes_eq, bytes_eq_iff,
}
use distributed_jbod.Common.Seen.{IsIn, IsIn-append_left, IsIn-append_right}
use distributed_jbod.Common.Members.{IsIn-append, IsIn-map, map-IsIn}
use distributed_jbod.Record.{Bytes}
use distributed_jbod.Coordinator.Copies.{bytes_ltb}
use distributed_jbod.Coordinator.Groups.{ClusterFinding}
use distributed_jbod.Coordinator.Scrub.CrossCheck.{
  ScrubEvent, cluster_finding, cross_check_progress, cross_check_stopped, cross_check_exposure,
  Check, insert_sorted, finding_key, send_findings,
}

module _ {A : Type 0} (same before : A → A → Bool)
    (same_iff : (a b : A) → (same a b ≡ true) ↔ (a ≡ b)) where
  -- A set has the new member and the ones it had, and no others.
  pub IsIn-insert_sorted :
      (x a : A) (bs : List A) → IsIn x (insert_sorted same before a bs) → (a ≡ x) ⊎ IsIn x bs
  unfolding insert_sorted
  IsIn-insert_sorted x a [] (inl e) = inl e
  IsIn-insert_sorted x a [] (inr wrong) = absurd wrong
  IsIn-insert_sorted x a (b ∷ bs) i = elim (Bool-cases (same a b)) [
    | inl alike ↦ inr (rw alike at i)
    | inr other ↦ elim (Bool-cases (before a b)) [
      | inl less ↦ (rw (other, less) at i)
      | inr more ↦ elim (rw (other, more) at i) [
        | inl here ↦ inr (inl here)
        | inr there ↦ elim (IsIn-insert_sorted x a bs there) [
          | inl new ↦ inl new
          | inr old ↦ inr (inr old)
        ]
      ]
    ]
  ]

  pub insert_sorted-new : (a : A) (bs : List A) → IsIn a (insert_sorted same before a bs)
  unfolding insert_sorted
  insert_sorted-new a [] = inl refl
  insert_sorted-new a (b ∷ bs) = elim (Bool-cases (same a b)) [
    | inl alike ↦ rw alike (inl (sym ((same_iff a b).0 alike)))
    | inr other ↦ elim (Bool-cases (before a b)) [
      | inl less ↦ rw (other, less) (inl refl)
      | inr more ↦ rw (other, more) (inr (insert_sorted-new a bs))
    ]
  ]

  pub insert_sorted-keeps :
      (x a : A) (bs : List A) → IsIn x bs → IsIn x (insert_sorted same before a bs)
  unfolding insert_sorted
  insert_sorted-keeps x a [] i = absurd i
  insert_sorted-keeps x a (b ∷ bs) i = elim (Bool-cases (same a b)) [
    | inl alike ↦ rw alike i
    | inr other ↦ elim (Bool-cases (before a b)) [
      | inl less ↦ rw (other, less) (inr i)
      | inr more ↦
          rw (other, more)
            (elim i [ inl here ↦ inl here | inr there ↦ inr (insert_sorted-keeps x a bs there) ])
    ]
  ]

-- The findings that the events tell.
abbrev pub found_in : List ScrubEvent → List ClusterFinding
found_in [] = []
found_in (cluster_finding finding ∷ events) = finding ∷ found_in events
found_in (cross_check_progress checked hash ∷ events) = found_in events
found_in (cross_check_stopped unreachable checked ∷ events) = found_in events
found_in (cross_check_exposure event ∷ events) = found_in events

pub found_in-append :
    (events more : List ScrubEvent) → found_in (events ++ more) ≡ found_in events ++ found_in more
found_in-append [] more = refl
found_in-append (cluster_finding finding ∷ events) more =
    ap (λ f. finding ∷ f) (found_in-append events more)
found_in-append (cross_check_progress checked hash ∷ events) more = found_in-append events more
found_in-append (cross_check_stopped unreachable checked ∷ events) more =
    found_in-append events more
found_in-append (cross_check_exposure event ∷ events) more = found_in-append events more

-- Findings that have the key.
abbrev pub HasKey : Bytes → List ClusterFinding → Type 0
HasKey key found = IsIn key (map finding_key found)

HasKey-of :
    (key : Bytes) (f : ClusterFinding) (found : List ClusterFinding)
    → IsIn f found
    → finding_key f ≡ key
    → HasKey key found
HasKey-of key f found i e =
    subst (λ (k : Bytes). IsIn k (map finding_key found)) e (IsIn-map finding_key f found i)

HasKey-append :
    (key : Bytes) (f : ClusterFinding) (found : List ClusterFinding)
    → (HasKey key found ⊎ (finding_key f ≡ key))
    → HasKey key (found ++ f ∷ [])
HasKey-append key f found (inl there) =
    let (g, i, e) = map-IsIn finding_key key found there in
    HasKey-of key g (found ++ f ∷ []) (IsIn-append_left g found (f ∷ []) i) e
HasKey-append key f found (inr e) =
    HasKey-of key f (found ++ f ∷ []) (IsIn-append_right f found (f ∷ []) (inl refl)) e

HasKey-split :
    (key : Bytes) (f : ClusterFinding) (found : List ClusterFinding)
    → HasKey key (found ++ f ∷ [])
    → HasKey key found ⊎ (finding_key f ≡ key)
HasKey-split key f found there =
    let (g, i, e) = map-IsIn finding_key key (found ++ f ∷ []) there in
    elim (IsIn-append g found (f ∷ []) i) [
      | inl before ↦ inl (HasKey-of key g found before e)
      | inr last ↦ elim last [ inl same ↦ inr (ap finding_key same ∙ e) | inr wrong ↦ absurd wrong ]
    ]

module _ (key : Bytes) where
  -- The count is that of the findings, and the key is damaged if and only if one of them has it.
  pub record IsFound (n : ℕ) (damaged : List Bytes) (found : List ClusterFinding) : Type 0 where
    pub counted : n ≡ length found
    pub told : IsIn key damaged → HasKey key found
    pub kept : HasKey key found → IsIn key damaged

  IsFound-next :
      (n : ℕ) (damaged : List Bytes) (found : List ClusterFinding) (f : ClusterFinding)
      → IsFound n damaged found
      → IsFound (n + 1) (insert_sorted bytes_eq bytes_ltb (finding_key f) damaged) (found ++ f ∷ [])
  IsFound-next n damaged found f h =
      let counted = h.counted in
      let count = length-append found (f ∷ []) in
      record {
        counted = omega arith;
        told = λ i.
            HasKey-append key f found
              (elim (IsIn-insert_sorted bytes_eq bytes_ltb bytes_eq_iff key (finding_key f) damaged
                i) [ inl new ↦ inr new | inr old ↦ inl (h.told old) ]);
        kept = λ i. elim (HasKey-split key f found i) [
          | inl old ↦
              insert_sorted-keeps bytes_eq bytes_ltb bytes_eq_iff key (finding_key f) damaged
                (h.kept old)
          | inr new ↦
              subst
                (λ (k : Bytes). IsIn k (insert_sorted bytes_eq bytes_ltb (finding_key f) damaged))
                new (insert_sorted-new bytes_eq bytes_ltb bytes_eq_iff (finding_key f) damaged)
        ];
      }

  abbrev pub IsFoundBy : Check → Type 0
  IsFoundBy m = IsFound m.outcome.findings m.outcome.damaged_keys (found_in m.events)

  -- Events that tell no finding change nothing.
  pub IsFound-quiet :
      (n : ℕ) (damaged : List Bytes) (events more : List ScrubEvent)
      → found_in more ≡ []
      → IsFound n damaged (found_in events)
      → IsFound n damaged (found_in (events ++ more))
  IsFound-quiet n damaged events more quiet h =
      subst (λ (f : List ClusterFinding). IsFound n damaged f)
        (sym (
          found_in-append events more
          ∙ ap (λ (f : List ClusterFinding). found_in events ++ f) quiet
          ∙ append-nil (found_in events)))
        h

  pub send_findings-IsFoundBy :
      (findings : List ClusterFinding) (m : Check)
      → IsFoundBy m
      → IsFoundBy (send_findings findings m)
  unfolding send_findings
  send_findings-IsFoundBy [] m h = h
  send_findings-IsFoundBy (f ∷ findings) m h = send_findings-IsFoundBy findings _ (
      subst
        (λ (found : List ClusterFinding).
          IsFound (m.outcome.findings + 1)
            (insert_sorted bytes_eq bytes_ltb (finding_key f) m.outcome.damaged_keys) found)
        (sym (found_in-append m.events (cluster_finding f ∷ [])))
        (IsFound-next m.outcome.findings m.outcome.damaged_keys (found_in m.events) f h))
