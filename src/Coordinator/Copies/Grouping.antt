-- ===== src/Coordinator/Copies/Grouping.antt =====
-- The map from versions to their copies that `trusted_versions` builds.
use distributed_jbod.Common.{
  ℕ, ◌≡◌, refl, sym, ◌∙◌, ap, true, false, List, [], ◌∷◌, ◌++◌, All, All-weaken, arith, Bool-cases,
  bytes_eq, bytes_eq_refl, bytes_eq→eq, bytes_eq_iff, if◌then◌else◌, inl, inr,
}
use distributed_jbod.Common.Seen.{IsIn}
use distributed_jbod.Common.Find.{filter}
use distributed_jbod.Common.Members.{All-IsIn}
use distributed_jbod.ShardFile.{VersionId}
use distributed_jbod.Coordinator.{LocatedRecord}
use distributed_jbod.Coordinator.Copies.{bytes_ltb, push_copy, group_copies}
use mathlib.Core.List.{append-nil, append_assoc}

abbrev pub Entries : Type 0
Entries = List (VersionId × List LocatedRecord)

pub bytes_ltb_irrefl : (a : List ℕ) → bytes_ltb a a ≡ false
unfolding bytes_ltb
bytes_ltb_irrefl [] = refl
bytes_ltb_irrefl (x ∷ a) = ground (arith, bytes_ltb_irrefl a)

pub bytes_ltb_trans :
    (a b c : List ℕ) → bytes_ltb a b ≡ true → bytes_ltb b c ≡ true → bytes_ltb a c ≡ true
unfolding bytes_ltb
bytes_ltb_trans a [] c h k = absurd (cc)
bytes_ltb_trans a (y ∷ b) [] h k = absurd (cc)
bytes_ltb_trans [] (y ∷ b) (z ∷ c) h k = refl
bytes_ltb_trans (x ∷ a) (y ∷ b) (z ∷ c) h k = ground (arith, bytes_ltb_trans a b c)

pub bytes_ltb_total :
    (a b : List ℕ) → bytes_ltb a b ≡ false → bytes_eq b a ≡ false → bytes_ltb b a ≡ true
unfolding bytes_ltb bytes_eq
bytes_ltb_total [] [] h k = absurd (cc)
bytes_ltb_total [] (y ∷ b) h k = absurd (cc)
bytes_ltb_total (x ∷ a) [] h k = refl
bytes_ltb_total (x ∷ a) (y ∷ b) h k = ground (arith, bytes_ltb_total a b)

-- The copies of one version.
abbrev pub of_version : VersionId → List LocatedRecord → List LocatedRecord
of_version v located = filter (λ (c : LocatedRecord). bytes_eq c.found.version v) located

abbrev pub copies_in : VersionId → Entries → List LocatedRecord
copies_in v [] = []
copies_in v ((w, copies) ∷ entries) = if bytes_eq w v then copies else copies_in v entries

abbrev AreAbove : VersionId → Entries → Type 0
AreAbove v entries = All (λ (e : VersionId × List LocatedRecord). bytes_ltb v e.0 ≡ true) entries

abbrev pub IsAscending : Entries → Type 0
IsAscending [] = Unit {0}
IsAscending ((v, copies) ∷ entries) = AreAbove v entries × IsAscending entries

apart_of_ltb : (v w : VersionId) → bytes_ltb v w ≡ true → bytes_eq w v ≡ false
apart_of_ltb v w less = elim (Bool-cases (bytes_eq w v)) [
  | inr other ↦ other
  | inl same ↦ absurd (
      let equal = bytes_eq→eq w v same in
      let wrong : true ≡ false = sym less ∙ ap (bytes_ltb v) equal ∙ bytes_ltb_irrefl v in cc)
]

apart_of_gt : (v w : VersionId) → bytes_ltb v w ≡ true → bytes_eq v w ≡ false
apart_of_gt v w less = elim (Bool-cases (bytes_eq v w)) [
  | inr other ↦ other
  | inl same ↦ absurd (
      let equal = bytes_eq→eq v w same in
      let wrong : true ≡ false = sym less ∙ ap (bytes_ltb v) (sym equal) ∙ bytes_ltb_irrefl v in cc)
]

copies_in-below :
    (v : VersionId) (entries : Entries) → AreAbove v entries → copies_in v entries ≡ []
copies_in-below v [] a = refl
copies_in-below v ((w, copies) ∷ entries) (less, a) =
    rw (apart_of_ltb v w less) (copies_in-below v entries a)

push_copy-AreAbove :
    (v : VersionId) (entries : Entries) (item : LocatedRecord)
    → bytes_ltb v item.found.version ≡ true
    → AreAbove v entries
    → AreAbove v (push_copy entries item)
unfolding push_copy
push_copy-AreAbove v [] item less a = (less, tt)
push_copy-AreAbove v ((w, copies) ∷ entries) item less (first, a) =
    elim (Bool-cases (bytes_eq w item.found.version)) [
      | inl same ↦ rw same (first, a)
      | inr other ↦ elim (Bool-cases (bytes_ltb item.found.version w)) [
        | inl before ↦ rw (other, before) (less, (first, a))
        | inr after ↦ rw (other, after) (first, push_copy-AreAbove v entries item less a)
      ]
    ]

AreAbove-trans :
    (v w : VersionId) (entries : Entries)
    → bytes_ltb v w ≡ true
    → AreAbove w entries
    → AreAbove v entries
AreAbove-trans v w entries less a = All-weaken _ _ entries (λ e h. bytes_ltb_trans v w e.0 less h) a

push_copy-IsAscending :
    (entries : Entries) (item : LocatedRecord)
    → IsAscending entries
    → IsAscending (push_copy entries item)
unfolding push_copy
push_copy-IsAscending [] item a = (tt, tt)
push_copy-IsAscending ((w, copies) ∷ entries) item (above, a) =
    elim (Bool-cases (bytes_eq w item.found.version)) [
      | inl same ↦ rw same (above, a)
      | inr other ↦ elim (Bool-cases (bytes_ltb item.found.version w)) [
        | inl before ↦
            rw (other, before)
              ((before, AreAbove-trans item.found.version w entries before above), (above, a))
        | inr after ↦
            rw (other, after)
              (
                push_copy-AreAbove w entries item (bytes_ltb_total item.found.version w after other)
                    above,
                push_copy-IsAscending entries item a,
              )
      ]
    ]

-- A copy is added to those of its version, and to no others.
copies_in-push_copy :
    (v : VersionId) (entries : Entries) (item : LocatedRecord)
    → IsAscending entries
    → copies_in v (push_copy entries item) ≡ (
        if bytes_eq item.found.version v
        then copies_in v entries ++ item ∷ []
        else copies_in v entries)
unfolding push_copy
copies_in-push_copy v [] item a = refl
copies_in-push_copy v ((w, copies) ∷ entries) item (above, a) =
    elim (Bool-cases (bytes_eq w item.found.version)) [
      | inl same ↦
          let equal = bytes_eq→eq w item.found.version same in
          rw (same, ← equal)
            (elim (Bool-cases (bytes_eq w v)) [ inl here ↦ rw here | inr there ↦ rw there ])
      | inr other ↦ elim (Bool-cases (bytes_ltb item.found.version w)) [
        | inl before ↦
            rw (other, before)
              (elim (Bool-cases (bytes_eq item.found.version v)) [
                | inr there ↦ rw there
                | inl here ↦
                    let equal = bytes_eq→eq item.found.version v here in
                    rw (
                      here,
                      apart_of_ltb v w (rw equal at before),
                      copies_in-below v entries
                          (AreAbove-trans v w entries (rw equal at before) above),
                    )
              ])
        | inr after ↦
            rw (other, after)
              (elim (Bool-cases (bytes_eq w v)) [
                | inr there ↦ rw there (copies_in-push_copy v entries item a)
                | inl here ↦
                    let equal = bytes_eq→eq w v here in
                    let apart : bytes_eq item.found.version v ≡ false =
                      elim (Bool-cases (bytes_eq item.found.version v)) [
                        | inr there ↦ there
                        | inl same ↦ absurd (
                            let joined = equal ∙ sym (bytes_eq→eq item.found.version v same) in
                            let wrong : true ≡ false =
                              sym ((bytes_eq_iff w item.found.version).1 joined) ∙ other in
                            cc)
                      ] in
                    rw (here, apart)
              ])
      ]
    ]

group_copies-IsAscending :
    (entries : Entries) (located : List LocatedRecord)
    → IsAscending entries
    → IsAscending (group_copies entries located)
unfolding group_copies
group_copies-IsAscending entries [] a = a
group_copies-IsAscending entries (c ∷ located) a =
    group_copies-IsAscending (push_copy entries c) located (push_copy-IsAscending entries c a)

pub copies_in-group_copies :
    (v : VersionId) (entries : Entries) (located : List LocatedRecord)
    → IsAscending entries
    → copies_in v (group_copies entries located) ≡ copies_in v entries ++ of_version v located
unfolding group_copies
copies_in-group_copies v entries [] a = sym (append-nil (copies_in v entries))
copies_in-group_copies v entries (c ∷ located) a =
    copies_in-group_copies v (push_copy entries c) located (push_copy-IsAscending entries c a)
    ∙ elim (Bool-cases (bytes_eq c.found.version v)) [
      | inl here ↦
          let step : copies_in v (push_copy entries c) ≡ copies_in v entries ++ c ∷ [] =
            rw here at (copies_in-push_copy v entries c a) in
          rw (step, here) (append_assoc (copies_in v entries) (c ∷ []) (of_version v located))
      | inr there ↦
          let step : copies_in v (push_copy entries c) ≡ copies_in v entries =
            rw there at (copies_in-push_copy v entries c a) in
          rw (step, there)
    ]

copies_in-IsIn :
    (v : VersionId) (copies : List LocatedRecord) (entries : Entries)
    → IsAscending entries
    → IsIn (v, copies) entries
    → copies_in v entries ≡ copies
copies_in-IsIn v copies [] a i = absurd i
copies_in-IsIn v copies ((w, others) ∷ entries) (above, a) (inl e) =
    let key : w ≡ v = ap (λ (x : VersionId × List LocatedRecord). x.0) e in
    let value : others ≡ copies = ap (λ (x : VersionId × List LocatedRecord). x.1) e in
    rw (key, bytes_eq_refl v) value
copies_in-IsIn v copies ((w, others) ∷ entries) (above, a) (inr i) =
    rw (apart_of_gt w v (All-IsIn _ (v, copies) entries above i))
      (copies_in-IsIn v copies entries a i)

-- Every entry of the map has the copies of its version, in their order; the versions ascend.
pub group_copies_lem :
    (located : List LocatedRecord)
    → IsAscending (group_copies [] located)
      × ((v : VersionId) (copies : List LocatedRecord)
          → IsIn (v, copies) (group_copies [] located)
          → copies ≡ of_version v located)
group_copies_lem located =
    let ascends = group_copies-IsAscending [] located tt in
    (
      ascends,
      λ v copies i.
          sym (copies_in-IsIn v copies (group_copies [] located) ascends i)
          ∙ copies_in-group_copies v [] located tt,
    )
