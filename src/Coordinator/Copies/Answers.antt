-- ===== src/Coordinator/Copies/Answers.antt =====
-- What `versions_of_excluding` returns: a trusted record for each version found, the newest first.
use mathlib.Core.Path.{subst}
use distributed_jbod.Common.{
  ◌≡◌, inl, inr, refl, sym, ◌∙◌, ap, true, List, [], ◌∷◌, ◌++◌, map, ok, >>=-eq-ok, Bool-cases, All,
  All-append, bytes_eq, bytes_eq_refl, bytes_eq→eq,
}
use distributed_jbod.Common.Seen.{IsIn, IsIn-append_left, IsIn-append_right}
use distributed_jbod.Common.Members.{All-of_IsIn, IsIn-filter, filter-IsIn}
use distributed_jbod.ShardFile.{VersionId}
use distributed_jbod.Cluster.{DeviceId}
use distributed_jbod.Record.{Bytes, MetadataRecord}
use distributed_jbod.Coordinator.{LocatedRecord}
use distributed_jbod.Coordinator.Copies.{
  TrustedVersion, bytes_ltb, group_copies, trust_version, trust_entries, trusted_versions,
  accept_version, accept_versions, versions_of_excluding,
}
use distributed_jbod.Coordinator.Copies.Trust.{
  IsTrusted, trusted_of, trust_version_complete, trust_version_sound,
}
use distributed_jbod.Coordinator.Copies.Absent.{IsComplete, accept_version_sound}
use distributed_jbod.Coordinator.Copies.Grouping.{
  Entries, IsAscending, of_version, copies_in, copies_in-group_copies, group_copies_lem,
}

abbrev pub IsDescending : List VersionId → Type 0
IsDescending [] = Unit {0}
IsDescending (v ∷ vs) = All (λ w. bytes_ltb w v ≡ true) vs × IsDescending vs

-- What an answer must be: a record for each version that the copies name, trusted and complete, the
-- newest first.
pub record IsAnswer (key : Bytes) (unread : List DeviceId) (located : List LocatedRecord)
    (versions : List MetadataRecord) : Type 0 where
  pub trusted :
      All
        (λ (r : MetadataRecord).
          IsTrusted key (of_version r.version located) r
          × IsComplete unread (of_version r.version located) r)
        versions
  pub covered :
      All
        (λ (c : LocatedRecord).
          IsIn c.found.version (map (λ (r : MetadataRecord). r.version) versions))
        located
  pub newest_first : IsDescending (map (λ (r : MetadataRecord). r.version) versions)

-- The versions of the entries, the newest first.
abbrev versions_down : Entries → List VersionId
versions_down [] = []
versions_down ((v, copies) ∷ entries) = versions_down entries ++ v ∷ []

map-append_one :
    (vs : List MetadataRecord) (r : MetadataRecord)
    → map (λ (x : MetadataRecord). x.version) (vs ++ r ∷ [])
      ≡ map (λ (x : MetadataRecord). x.version) vs ++ r.version ∷ []
map-append_one [] r = refl
map-append_one (x ∷ vs) r = ap (◌∷◌ x.version) (map-append_one vs r)

accept_versions-append :
    (key : Bytes) (unread : List DeviceId) (ts : List TrustedVersion) (t : TrustedVersion)
    (vs : List MetadataRecord)
    → accept_versions key unread (ts ++ t ∷ []) ≡ ok vs
    → (rest : List MetadataRecord) × (r : MetadataRecord) × (accept_versions key unread ts
        ≡ ok rest)
      × (accept_version key unread t ≡ ok r)
      × (vs ≡ rest ++ r ∷ [])
unfolding accept_versions
accept_versions-append key unread [] t vs e =
    let (r, accepted, last) = >>=-eq-ok (accept_version key unread t) _ e in
    ([], r, refl, accepted, cc)
accept_versions-append key unread (s ∷ ts) t vs e =
    let (first, accepted, more) = >>=-eq-ok (accept_version key unread s) _ e in
    let (others, later, last) = >>=-eq-ok (accept_versions key unread (ts ++ t ∷ [])) _ more in
    let (rest, r, before, at_end, same) = accept_versions-append key unread ts t others later in
    let joined : vs ≡ first ∷ others = cc in
    (first ∷ rest, r, rw (accepted, before), at_end, joined ∙ ap (◌∷◌ first) same)

pub version_of_trusted :
    (key : Bytes) (located : List LocatedRecord) (v : VersionId) (r : MetadataRecord)
    → IsTrusted key (of_version v located) r
    → r.version ≡ v
version_of_trusted key located v r a =
    let (c, there, found) = a.held in
    let (c_in, same) =
      IsIn-filter (λ (x : LocatedRecord). bytes_eq x.found.version v) c located there in
    sym (ap (λ (x : MetadataRecord). x.version) found) ∙ bytes_eq→eq c.found.version v same

module _ (key : Bytes) (unread : List DeviceId) (located : List LocatedRecord) where
  abbrev pub IsGood : MetadataRecord → Type 0
  IsGood r =
      IsTrusted key (of_version r.version located) r
      × IsComplete unread (of_version r.version located) r

  -- One version that is trusted and accepted.
  IsGood-version :
      (v : VersionId) (t : TrustedVersion) (r : MetadataRecord)
      → trust_version key v (of_version v located) ≡ ok t
      → accept_version key unread t ≡ ok r
      → IsGood r × (r.version ≡ v)
  IsGood-version v t r trust accept =
      let a = trust_version_sound key v (of_version v located) t trust in
      let again = trust_version_complete key v (of_version v located) t.trusted a in
      let same : t ≡ trusted_of (of_version v located) t.trusted = cc in
      let (equal, complete) =
        accept_version_sound key unread (of_version v located) t.trusted a r (rw same at accept) in
      let version = version_of_trusted key located v t.trusted a in
      let v_of_r : r.version ≡ v = ap (λ (x : MetadataRecord). x.version) equal ∙ version in
      let at_r =
        subst
          (λ x. IsTrusted key (of_version v located) x × IsComplete unread (of_version v located) x)
          (sym equal) (a, complete) in
      (
        subst
            (λ w.
              IsTrusted key (of_version w located) r × IsComplete unread (of_version w located) r)
            (sym v_of_r) at_r,
        v_of_r,
      )

  answers_of_entries :
      (entries : Entries) (ts : List TrustedVersion) (vs : List MetadataRecord)
      → ((v : VersionId) (copies : List LocatedRecord)
          → IsIn (v, copies) entries
          → copies ≡ of_version v located)
      → trust_entries key entries ≡ ok ts
      → accept_versions key unread ts ≡ ok vs
      → All IsGood vs × (map (λ (r : MetadataRecord). r.version) vs ≡ versions_down entries)
  unfolding trust_entries accept_versions
  answers_of_entries [] ts vs of trust accept =
      let none_trusted : ts ≡ [] = cc in
      let none_accepted : vs ≡ [] =
        (let e : accept_versions key unread [] ≡ ok vs = rw none_trusted at accept in cc) in
      rw none_accepted (tt, refl)
  answers_of_entries ((v, copies) ∷ entries) ts vs of trust accept =
      let (newer, later, now) = >>=-eq-ok (trust_entries key entries) _ trust in
      let (this, first, last) = >>=-eq-ok (trust_version key v copies) _ now in
      let joined : ts ≡ newer ++ this ∷ [] = cc in
      let (rest, r, before, at_end, same) =
        accept_versions-append key unread newer this vs (rw joined at accept) in
      let (good, down) =
        answers_of_entries entries newer rest (λ w cs i. of w cs (inr i)) later before in
      let (good_r, version) =
        IsGood-version v this r (rw (of v copies (inl refl)) at first) at_end in
      rw same (
        All-append IsGood rest (r ∷ []) good (good_r, tt),
        map-append_one rest r
            ∙ ap (λ l. l ++ r.version ∷ []) down
            ∙ ap (λ w. versions_down entries ++ w ∷ []) version,
      )

IsDescending-snoc :
    (vs : List VersionId) (v : VersionId)
    → IsDescending vs
    → All (λ w. bytes_ltb v w ≡ true) vs
    → IsDescending (vs ++ v ∷ [])
IsDescending-snoc [] v d a = (tt, tt)
IsDescending-snoc (w ∷ vs) v (below, d) (less, a) = (
  All-append (λ u. bytes_ltb u w ≡ true) vs (v ∷ []) below (less, tt),
  IsDescending-snoc vs v d a,
)

above_down :
    (v : VersionId) (entries : Entries)
    → All (λ (e : VersionId × List LocatedRecord). bytes_ltb v e.0 ≡ true) entries
    → All (λ w. bytes_ltb v w ≡ true) (versions_down entries)
above_down v [] a = tt
above_down v ((w, copies) ∷ entries) (less, a) =
    All-append (λ u. bytes_ltb v u ≡ true) (versions_down entries) (w ∷ []) (above_down v entries a)
      (less, tt)

versions_down-IsDescending :
    (entries : Entries) → IsAscending entries → IsDescending (versions_down entries)
versions_down-IsDescending [] a = tt
versions_down-IsDescending ((v, copies) ∷ entries) (above, a) =
    IsDescending-snoc (versions_down entries) v (versions_down-IsDescending entries a)
      (above_down v entries above)

copies_in-down :
    (v : VersionId) (c : LocatedRecord) (entries : Entries)
    → IsIn c (copies_in v entries)
    → IsIn v (versions_down entries)
copies_in-down v c [] i = absurd i
copies_in-down v c ((w, copies) ∷ entries) i = elim (Bool-cases (bytes_eq w v)) [
  | inl same ↦ IsIn-append_right v (versions_down entries) (w ∷ []) (inl (bytes_eq→eq w v same))
  | inr other ↦
      IsIn-append_left v (versions_down entries) (w ∷ [])
        (copies_in-down v c entries (rw other at i))
]

-- Every answer is one.
pub versions_of_excluding-IsAnswer :
    (key : Bytes) (unread : List DeviceId) (located : List LocatedRecord)
    (versions : List MetadataRecord)
    → versions_of_excluding key located unread ≡ ok versions
    → IsAnswer key unread located versions
unfolding versions_of_excluding trusted_versions
versions_of_excluding-IsAnswer key unread located versions e =
    let (ts, trust, accept) = >>=-eq-ok (trusted_versions key located) _ e in
    let (ascends, copies_of) = group_copies_lem located in
    let (good, down) =
      answers_of_entries key unread located (group_copies [] located) ts versions copies_of trust
        accept in
    record {
      trusted = good;
      covered = All-of_IsIn _ located (λ c i.
          (let there =
              filter-IsIn (λ (x : LocatedRecord). bytes_eq x.found.version c.found.version) c
                located i (bytes_eq_refl c.found.version) in
            let filed = copies_in-group_copies c.found.version [] located tt in
            rw down (copies_in-down c.found.version c (group_copies [] located) (rw filed there))));
      newest_first = rw down (versions_down-IsDescending (group_copies [] located) ascends);
    }
