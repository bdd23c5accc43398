-- ===== src/Coordinator/Copies/Absent.antt =====
-- When `versions_of_excluding` lets a version pass from which copies are missing.
use distributed_jbod.Common.{
  ℕ, ◌≡◌, ◌↔◌, ◌⊎◌, inl, inr, refl, sym, ◌∙◌, ap, Bool, true, false, not, List, [], ◌∷◌, ok, length,
  ltb, ltb→le, le→ltb, ◌==◌, ==_iff, All, fail_if-eq-ok, arith, Bool-cases, not-true,
}
use distributed_jbod.Common.Seen.{IsIn, member, member-IsIn, IsIn-member}
use distributed_jbod.Common.Find.{filter}
use distributed_jbod.Common.Members.{
  All-IsIn, All-of_IsIn, IsIn-filter, filter-IsIn, IsIn-map, map-IsIn, All-of_length-filter,
  filter-All,
}
use distributed_jbod.Cluster.{DeviceId}
use distributed_jbod.Record.{Bytes, ShardLocation, MetadataRecord}
use distributed_jbod.Record.Shards.{devices_of}
use distributed_jbod.Coordinator.{LocatedRecord, any}
use distributed_jbod.Coordinator.Copies.{
  MissingRecordCopy, is_current, missing_copy, missing_copies, accept_version,
}
use distributed_jbod.Coordinator.Copies.Trust.{IsTrusted, IsCopyOf, trusted_of, now_of_copy}

pub any-IsIn :
    {A : Type 0} (test : A → Bool) (xs : List A)
    → any test xs ≡ true
    → (x : A) × IsIn x xs × (test x ≡ true)
any-IsIn test [] e = absurd (cc)
any-IsIn test (x ∷ xs) e = elim (Bool-cases (test x)) [
  | inl holds ↦ (x, inl refl, holds)
  | inr fails ↦ let (y, i, h) = any-IsIn test xs (rw fails at e) in (y, inr i, h)
]

pub IsIn-any :
    {A : Type 0} (test : A → Bool) (x : A) (xs : List A)
    → IsIn x xs
    → test x ≡ true
    → any test xs ≡ true
IsIn-any test x [] i h = absurd i
IsIn-any test x (y ∷ xs) (inl e) h = rw (e, h)
IsIn-any test x (y ∷ xs) (inr i) h = elim (Bool-cases (test y)) [
  | inl holds ↦ rw holds
  | inr fails ↦ rw fails (IsIn-any test x xs i h)
]

-- A copy of `r` itself from the device.
abbrev pub HasCopy : List LocatedRecord → MetadataRecord → DeviceId → Type 0
HasCopy copies r d = (c : LocatedRecord) × IsIn c copies × (c.found ≡ r) × (c.device ≡ d)

-- Every device that the record lists sent its copy or is excused.
abbrev pub IsComplete : List DeviceId → List LocatedRecord → MetadataRecord → Type 0
IsComplete excused copies r = All (λ d. HasCopy copies r d ⊎ IsIn d excused) (devices_of r.shards)

pub member_eq_iff : (a b : ℕ) → ((a == b) ≡ true) ↔ (a ≡ b)
member_eq_iff a b = ==_iff a b

module _ (key : Bytes) (excused : List DeviceId) (copies : List LocatedRecord) (r : MetadataRecord)
    (trusted : IsTrusted key copies r) where
  abbrev is_excused : MissingRecordCopy → Bool
  is_excused m = member ◌==◌ excused m.device

  absent_of_gap :
      (d : DeviceId) (s : ShardLocation)
      → IsIn s r.shards
      → s.device ≡ d
      → All (λ m. is_excused m ≡ true) (trusted_of copies r).absent
      → HasCopy copies r d ⊎ IsIn d excused
  unfolding missing_copies missing_copy
  absent_of_gap d s i e all =
      elim (Bool-cases (
        any (λ (c : LocatedRecord). c.device == s.device)
          (filter (is_current r.revision) copies))) [
            | inl there ↦
                let (c, c_current, same) =
                  any-IsIn _ (filter (is_current r.revision) copies) there in
                let (c_in, now) = IsIn-filter (is_current r.revision) c copies c_current in
                let (found, listed) =
                  now_of_copy r c (All-IsIn (IsCopyOf r) c copies trusted.agreed c_in) now in
                inl (c, c_in, found, (==_iff c.device s.device).0 same ∙ e)
            | inr gap ↦
                let shard =
                  filter-IsIn
                    (λ (t : ShardLocation). not (
                      any (λ (c : LocatedRecord). c.device == t.device)
                        (filter (is_current r.revision) copies)))
                    s r.shards i (rw gap) in
                let listed = IsIn-map (missing_copy copies) s _ shard in
                let excuse = All-IsIn _ (missing_copy copies s) _ all listed in
                inr (rw e at (member-IsIn ◌==◌ member_eq_iff s.device excused excuse))
          ]

  excused_gap :
      (s : ShardLocation)
      → not (
          any (λ (c : LocatedRecord). c.device == s.device) (filter (is_current r.revision) copies))
        ≡ true
      → (HasCopy copies r s.device ⊎ IsIn s.device excused)
      → member ◌==◌ excused s.device ≡ true
  excused_gap s gap (inr excuse) = IsIn-member ◌==◌ member_eq_iff s.device excused excuse
  excused_gap s gap (inl (c, c_in, found, device)) =
      let now : is_current r.revision c ≡ true =
        (==_iff c.found.revision r.revision).1 (ap (λ (x : MetadataRecord). x.revision) found) in
      let there : any (λ (d : LocatedRecord). d.device == s.device)
            (filter (is_current r.revision) copies)
          ≡ true =
        IsIn-any (λ (d : LocatedRecord). d.device == s.device) c _
          (filter-IsIn (is_current r.revision) c copies c_in now)
          ((==_iff c.device s.device).1 device) in
      absurd (let wrong : true ≡ false = sym there ∙ not-true _ gap in cc)

  pub accept_version_sound :
      (v : MetadataRecord)
      → accept_version key excused (trusted_of copies r) ≡ ok v
      → (v ≡ r) × IsComplete excused copies r
  unfolding accept_version
  accept_version_sound v e =
      let (enough, same) =
        fail_if-eq-ok
          (ltb (length (filter is_excused (trusted_of copies r).absent))
            (length (trusted_of copies r).absent))
          _ (ok r) e in
      let all = All-of_length-filter is_excused (trusted_of copies r).absent (ltb→le _ _ enough) in
      (
        cc,
        All-of_IsIn _ (devices_of r.shards) (λ d i.
            (let (s, s_in, device) = map-IsIn (λ (x : ShardLocation). x.device) d r.shards i in
              absent_of_gap d s s_in device all)),
      )

  pub accept_version_complete :
      IsComplete excused copies r → accept_version key excused (trusted_of copies r) ≡ ok r
  unfolding accept_version missing_copies missing_copy
  accept_version_complete complete =
      let all : All (λ m. is_excused m ≡ true) (trusted_of copies r).absent =
        All-of_IsIn _ (trusted_of copies r).absent (λ m i.
          (let (s, s_in, same) = map-IsIn (missing_copy copies) m _ i in
            let (listed, gap) =
              IsIn-filter
                (λ (t : ShardLocation). not (
                  any (λ (c : LocatedRecord). c.device == t.device)
                    (filter (is_current r.revision) copies)))
                s r.shards s_in in
            let known =
              All-IsIn _ s.device (devices_of r.shards) complete
                (IsIn-map (λ (x : ShardLocation). x.device) s r.shards listed) in
            rw (sym same) (excused_gap s gap known))) in
      rw (
        filter-All is_excused (trusted_of copies r).absent all,
        le→ltb (length (trusted_of copies r).absent) (length (trusted_of copies r).absent)
            (omega arith),
      )
