-- ===== src/Coordinator/Copies/Trust.antt =====
-- When `trusted_versions` and `versions_of_excluding` accept the copies of one version.
use distributed_jbod.Common.{
  ℕ, ◌≤◌, ◌<◌, ◌≡◌, ◌↔◌, ◌⊎◌, inl, inr, refl, sym, ◌∙◌, ap, true, false, not, none, some, List, [],
  ◌∷◌, map, ok, expect, fail_if-eq-ok, fail_if-ok, expect-ok, >>=-eq-ok, get_elem?, ltb, ◌==◌,
  ==_iff, All, All-weaken, ltb→le, if◌then◌else◌, arith, Bool-cases, Option-cases, bytes_eq_iff,
  not-false,
}
use distributed_jbod.Common.Seen.{IsIn}
use distributed_jbod.Common.Find.{filter}
use distributed_jbod.Common.Members.{
  All-IsIn, All-of_IsIn, IsIn-filter, filter-IsIn, IsIn-get_elem?, first_of_IsIn, IsIn-map,
  map-IsIn, IsIn-tail,
}
use distributed_jbod.ShardFile.{VersionId}
use distributed_jbod.Cluster.{DeviceId}
use distributed_jbod.Record.{Bytes, ShardLocation, MetadataRecord, index_on, shard_on}
use distributed_jbod.Record.Equality.{record_eq, record_eq_iff}
use distributed_jbod.Record.Shards.{devices_of}
use distributed_jbod.Coordinator.{LocatedRecord, Answer, max_of, is_none}
use distributed_jbod.Coordinator.Copies.{
  TrustedVersion, check_named, check_current, check_all, is_current, missing_copies,
  vouching_copies, trust_version,
}
use mathlib.Core.Option.{some-injective}

-- An older copy, or the record itself on a device that it lists.
abbrev pub IsCopyOf : MetadataRecord → LocatedRecord → Type 0
IsCopyOf r c =
    (c.found.revision < r.revision) ⊎ ((c.found ≡ r) × IsIn c.device (devices_of r.shards))

-- The copies name the key, are copies of `r`, and one of them is `r`.
pub record IsTrusted (key : Bytes) (copies : List LocatedRecord) (r : MetadataRecord) : Type 0 where
  pub named : All (λ (c : LocatedRecord). c.found.key ≡ key) copies
  pub agreed : All (IsCopyOf r) copies
  pub held : (c : LocatedRecord) × IsIn c copies × (c.found ≡ r)

pub index_on-listed :
    (shards : List ShardLocation) (d : DeviceId)
    → (is_none (index_on shards d) ≡ false) ↔ IsIn d (devices_of shards)
unfolding index_on
index_on-listed [] d = (λ e. absurd (cc), λ i. absurd i)
index_on-listed (s ∷ shards) d = elim (Bool-cases (s.device == d)) [
  | inl same ↦ rw same (λ e. inl ((==_iff s.device d).0 same), λ i. refl)
  | inr other ↦
      let apart : ¬ (s.device ≡ d) =
        λ e. (let wrong : true ≡ false = sym ((==_iff s.device d).1 e) ∙ other in cc) in
      rw other (
        λ e. inr ((index_on-listed shards d).0 e),
        λ i. (index_on-listed shards d).1 (IsIn-tail d s.device (devices_of shards) apart i),
      )
]

-- The largest of some numbers.
pub max_of_lem : (xs : List ℕ) (m : ℕ) → max_of xs ≡ some m → IsIn m xs × All (λ x. x ≤ m) xs
unfolding max_of
max_of_lem [] m e = absurd (cc)
max_of_lem (x ∷ xs) m e = elim (Option-cases (max_of xs)) [
  | inl empty ↦
      let same : x ≡ m = some-injective x m (rw empty at e) in
      (inl same, (omega arith, none_lem xs empty))
  | inr (y, found) ↦
      let (at_y, bound) = max_of_lem xs y found in
      let larger : (if ltb x y then y else x) ≡ m = some-injective _ m (rw found at e) in
      elim (Bool-cases (ltb x y)) [
        | inl less ↦
            let same : y ≡ m = rw less at larger in
            (
              inr (rw same at at_y),
              (ground (arith, same), All-weaken _ _ xs (λ z h. omega (arith, same)) bound),
            )
        | inr more ↦
            let same : x ≡ m = rw more at larger in
            (
              inl same,
              (
                omega arith,
                All-weaken _ (λ z. z ≤ m) xs (λ z (h : z ≤ y). omega (arith, ltb→le x y more))
                    bound,
              ),
            )
      ]
]
  where
    none_lem : (ys : List ℕ) → max_of ys ≡ none → All (λ z. z ≤ m) ys
    none_lem [] h = tt
    none_lem (y ∷ ys) h = ground (arith)

pub max_of-some : (x : ℕ) (xs : List ℕ) → IsIn x xs → (m : ℕ) × (max_of xs ≡ some m)
unfolding max_of
max_of-some x [] i = absurd i
max_of-some x (y ∷ xs) i = elim (Option-cases (max_of xs)) [
  | inl empty ↦ (y, rw empty)
  | inr (z, found) ↦ (if ltb y z then z else y, rw found)
]

-- A loop of checks passes when every check does.
pub check_all_iff :
    (check : LocatedRecord → Answer (Unit {0})) (copies : List LocatedRecord)
    → (check_all check copies ≡ ok tt) ↔ All (λ c. check c ≡ ok tt) copies
unfolding check_all
check_all_iff check [] = (λ e. tt, λ a. refl)
check_all_iff check (c ∷ copies) = (
  λ e.
      let (done, first, rest) = >>=-eq-ok (check c) (λ _. check_all check copies) e in
      (first, (check_all_iff check copies).0 rest),
  λ a. rw (a.0) ((check_all_iff check copies).1 a.1),
)

pub check_named_iff :
    (key : Bytes) (version : VersionId) (c : LocatedRecord)
    → (check_named key version c ≡ ok tt) ↔ (c.found.key ≡ key)
unfolding check_named
check_named_iff key version c =
    ground (arith, (bytes_eq_iff c.found.key key).0, (bytes_eq_iff c.found.key key).1)

pub check_current_iff :
    (key : Bytes) (version : VersionId) (r : MetadataRecord) (revision : ℕ) (c : LocatedRecord)
    → (check_current key version r revision c ≡ ok tt)
      ↔ ((c.found ≡ r) × IsIn c.device (devices_of r.shards))
unfolding check_current
check_current_iff key version r revision c = (
  λ e.
      let (same, listed) = fail_if-eq-ok (not (record_eq c.found r)) _ _ e in
      let there = fail_if-ok (is_none (shard_on r c.device)) _ listed in
      ((record_eq_iff c.found r).0 (not-false _ same), (index_on-listed r.shards c.device).0 there),
  λ a. rw ((record_eq_iff c.found r).1 a.0, (index_on-listed r.shards c.device).1 a.1),
)

abbrev revisions : List LocatedRecord → List ℕ
revisions copies = map (λ (c : LocatedRecord). c.found.revision) copies

-- What is known of a copy once the largest revision is known and the checks have passed.
IsCopyOf-checked :
    (key : Bytes) (version : VersionId) (copies : List LocatedRecord) (r : MetadataRecord)
    → All (λ (m : ℕ). m ≤ r.revision) (revisions copies)
    → All
        (λ c. check_current key version r r.revision c ≡ ok tt)
        (filter (is_current r.revision) copies)
    → (c : LocatedRecord) → IsIn c copies
    → IsCopyOf r c
IsCopyOf-checked key version copies r bound passed c i =
    elim (Bool-cases (is_current r.revision c)) [
      | inl now ↦ inr (
          (check_current_iff key version r r.revision c).0 (
            All-IsIn _ c (filter (is_current r.revision) copies) passed
              (filter-IsIn (is_current r.revision) c copies i now)))
      | inr older ↦ inl (
          let most : c.found.revision ≤ r.revision =
            All-IsIn _ c.found.revision (revisions copies) bound
              (IsIn-map (λ (d : LocatedRecord). d.found.revision) c copies i) in
          ground arith)
    ]

pub trust_version_sound :
    (key : Bytes) (version : VersionId) (copies : List LocatedRecord) (t : TrustedVersion)
    → trust_version key version copies ≡ ok t
    → IsTrusted key copies t.trusted
unfolding trust_version
trust_version_sound key version copies t e =
    let (done, named, e1) = >>=-eq-ok (check_all (check_named key version) copies) _ e in
    let (m, largest, e2) = >>=-eq-ok (expect (max_of (revisions copies))) _ e1 in
    let (chosen, at_0, e3) = >>=-eq-ok (expect (get_elem? (filter (is_current m) copies) 0)) _ e2 in
    let (passed, checked, e4) =
      >>=-eq-ok
        (check_all (check_current key version chosen.found m) (filter (is_current m) copies)) _
        e3 in
    let first : t.trusted ≡ chosen.found = cc in
    let (there, now) =
      IsIn-filter (is_current m) chosen copies
        (IsIn-get_elem? chosen (filter (is_current m) copies) 0 (expect-ok _ chosen at_0)) in
    let same : chosen.found.revision ≡ m = (==_iff chosen.found.revision m).0 now in
    let (at_m, bound) = max_of_lem (revisions copies) m (expect-ok _ m largest) in
    rw first (record {
      named =
          All-weaken _ _ copies (λ c. (check_named_iff key version c).0)
            ((check_all_iff (check_named key version) copies).0 named);
      agreed = All-of_IsIn (IsCopyOf chosen.found) copies (
          IsCopyOf-checked key version copies chosen.found (rw (sym same) at bound)
            (rw (sym same) at ((check_all_iff _ (filter (is_current m) copies)).0 checked)));
      held = (chosen, there, refl);
    })

abbrev recent : MetadataRecord → List LocatedRecord → List LocatedRecord
recent r copies = filter (is_current r.revision) copies

-- What the loop makes of copies that agree on `r`.
abbrev pub trusted_of : List LocatedRecord → MetadataRecord → TrustedVersion
trusted_of copies r = record {
  trusted = r;
  absent = missing_copies copies (filter (is_current r.revision) copies) r.shards;
  vouching = vouching_copies r r.revision copies;
}

le_of_copy : (r : MetadataRecord) (c : LocatedRecord) → IsCopyOf r c → c.found.revision ≤ r.revision
le_of_copy r c (inl older) = omega arith
le_of_copy r c (inr (same, listed)) =
    let revision = ap (λ (x : MetadataRecord). x.revision) same in omega arith

pub now_of_copy :
    (r : MetadataRecord) (c : LocatedRecord)
    → IsCopyOf r c
    → is_current r.revision c ≡ true
    → (c.found ≡ r) × IsIn c.device (devices_of r.shards)
now_of_copy r c (inl older) now = ground arith
now_of_copy r c (inr same) now = same

largest_revision :
    (key : Bytes) (copies : List LocatedRecord) (r : MetadataRecord)
    → IsTrusted key copies r
    → max_of (revisions copies) ≡ some r.revision
largest_revision key copies r a =
    let (c, there, same) = a.held in
    let at_r : IsIn r.revision (revisions copies) =
      rw same at (IsIn-map (λ (d : LocatedRecord). d.found.revision) c copies there) in
    let (m, found) = max_of-some r.revision (revisions copies) at_r in
    let (at_m, bound) = max_of_lem (revisions copies) m found in
    let (d, d_there, d_revision) =
      map-IsIn (λ (x : LocatedRecord). x.found.revision) m copies at_m in
    let low : r.revision ≤ m = All-IsIn _ r.revision (revisions copies) bound at_r in
    let high = le_of_copy r d (All-IsIn (IsCopyOf r) d copies a.agreed d_there) in
    let equal : m ≡ r.revision = omega arith in found ∙ ap some equal

-- The copies of a version are accepted, and taken for the record `r`, exactly when they are trusted.
pub trust_version_complete :
    (key : Bytes) (version : VersionId) (copies : List LocatedRecord) (r : MetadataRecord)
    → IsTrusted key copies r
    → trust_version key version copies ≡ ok (trusted_of copies r)
unfolding trust_version
trust_version_complete key version copies r a =
    let (c, there, same) = a.held in
    let named =
      (check_all_iff (check_named key version) copies).1
        (All-weaken _ _ copies (λ d. (check_named_iff key version d).1) a.named) in
    let now : is_current r.revision c ≡ true =
      (==_iff c.found.revision r.revision).1 (ap (λ (x : MetadataRecord). x.revision) same) in
    let (chosen, at_0) =
      first_of_IsIn c (recent r copies) (filter-IsIn (is_current r.revision) c copies there now) in
    let current = λ (d : LocatedRecord) (i : IsIn d (recent r copies)).
      (let (d_there, d_now) = IsIn-filter (is_current r.revision) d copies i in
        now_of_copy r d (All-IsIn (IsCopyOf r) d copies a.agreed d_there) d_now) in
    let first = (current chosen (IsIn-get_elem? chosen (recent r copies) 0 at_0)).0 in
    let checked = (check_all_iff (check_current key version r r.revision) (recent r copies)).1 (
      All-of_IsIn _ (recent r copies)
        (λ d i. (check_current_iff key version r r.revision d).1 (current d i))) in
    rw (named, largest_revision key copies r a, at_0, first, checked)

pub trust_version_iff :
    (key : Bytes) (version : VersionId) (copies : List LocatedRecord) (r : MetadataRecord)
    → ((t : TrustedVersion) × (trust_version key version copies ≡ ok t) × (t.trusted ≡ r))
      ↔ IsTrusted key copies r
trust_version_iff key version copies r = (
  λ (t, e, same). rw same at (trust_version_sound key version copies t e),
  λ a. (trusted_of copies r, trust_version_complete key version copies r a, refl),
)
