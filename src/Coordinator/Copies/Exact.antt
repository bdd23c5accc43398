-- ===== src/Coordinator/Copies/Exact.antt =====
-- `versions_of_excluding` answers whenever there is an answer, and looks at no copy's place among the others.
use distributed_jbod.Common.{
  ◌≡◌, ◌↔◌, ◌⊎◌, inl, inr, refl, ◌∙◌, ap, List, [], ◌∷◌, ◌++◌, map, ok, >>=-eq-ok, Bool-cases,
  bytes_eq,
}
use distributed_jbod.Common.Seen.{IsIn}
use distributed_jbod.Common.Members.{All-IsIn, map-IsIn}
use distributed_jbod.ShardFile.{VersionId}
use distributed_jbod.Cluster.{DeviceId}
use distributed_jbod.Record.{Bytes, MetadataRecord}
use distributed_jbod.Coordinator.{LocatedRecord}
use distributed_jbod.Coordinator.Copies.{
  TrustedVersion, bytes_ltb, push_copy, group_copies, trust_entries, trusted_versions,
  accept_version, accept_versions, versions_of_excluding,
}
use distributed_jbod.Coordinator.Copies.Trust.{IsTrusted, trusted_of, trust_version_complete}
use distributed_jbod.Coordinator.Copies.Absent.{IsComplete, accept_version_complete}
use distributed_jbod.Coordinator.Copies.Grouping.{Entries, of_version, group_copies_lem}
use distributed_jbod.Coordinator.Copies.Answers.{IsAnswer, IsGood, versions_of_excluding-IsAnswer}
use distributed_jbod.Coordinator.Copies.Unique.{answer_unique}

abbrev keys : Entries → List VersionId
keys entries = map (λ (e : VersionId × List LocatedRecord). e.0) entries

keys-push_copy :
    (v : VersionId) (entries : Entries) (item : LocatedRecord)
    → IsIn v (keys (push_copy entries item))
    → IsIn v (keys entries) ⊎ (item.found.version ≡ v)
unfolding push_copy
keys-push_copy v [] item (inl e) = inr e
keys-push_copy v [] item (inr i) = absurd i
keys-push_copy v ((w, copies) ∷ entries) item i =
    elim (Bool-cases (bytes_eq w item.found.version)) [
      | inl same ↦ inl (rw same at i)
      | inr other ↦ elim (Bool-cases (bytes_ltb item.found.version w)) [
        | inl before ↦ first (rw (other, before) at i)
        | inr after ↦ later (rw (other, after) at i) (keys-push_copy v entries item)
      ]
    ]
  where
    first :
        IsIn v (keys ((item.found.version, item ∷ []) ∷ (w, copies) ∷ entries))
        → IsIn v (keys ((w, copies) ∷ entries)) ⊎ (item.found.version ≡ v)
    first (inl e) = inr e
    first (inr j) = inl j

    later :
        IsIn v (keys ((w, copies) ∷ push_copy entries item))
        → (IsIn v (keys (push_copy entries item))
            → IsIn v (keys entries) ⊎ (item.found.version ≡ v))
        → IsIn v (keys ((w, copies) ∷ entries)) ⊎ (item.found.version ≡ v)
    later (inl e) old = inl (inl e)
    later (inr j) old = elim (old j) [ inl k ↦ inl (inr k) | inr e ↦ inr e ]

-- Every version of the map is that of a copy.
keys-group_copies :
    (v : VersionId) (entries : Entries) (located : List LocatedRecord)
    → IsIn v (keys (group_copies entries located))
    → IsIn v (keys entries) ⊎ ((c : LocatedRecord) × IsIn c located × (c.found.version ≡ v))
unfolding group_copies
keys-group_copies v entries [] i = inl i
keys-group_copies v entries (c ∷ located) i =
    elim (keys-group_copies v (push_copy entries c) located i) [
      | inr (d, d_in, version) ↦ inr (d, inr d_in, version)
      | inl j ↦ elim (keys-push_copy v entries c j) [
        | inl old ↦ inl old
        | inr version ↦ inr (c, inl refl, version)
      ]
    ]

accept_versions-snoc :
    (key : Bytes) (unread : List DeviceId) (ts : List TrustedVersion) (t : TrustedVersion)
    (rest : List MetadataRecord) (r : MetadataRecord)
    → accept_versions key unread ts ≡ ok rest
    → accept_version key unread t ≡ ok r
    → accept_versions key unread (ts ++ t ∷ []) ≡ ok (rest ++ r ∷ [])
unfolding accept_versions
accept_versions-snoc key unread [] t rest r before at_end =
    let nothing : rest ≡ [] = cc in rw (at_end, nothing)
accept_versions-snoc key unread (s ∷ ts) t rest r before at_end =
    let (first, accepted, more) = >>=-eq-ok (accept_version key unread s) _ before in
    let (others, later, last) = >>=-eq-ok (accept_versions key unread ts) _ more in
    let joined : rest ≡ first ∷ others = cc in
    rw (accepted, accept_versions-snoc key unread ts t others r later at_end, joined)

module _ (key : Bytes) (unread : List DeviceId) (located : List LocatedRecord) where
  -- The version has a trusted and complete record.
  abbrev HasGood : VersionId → Type 0
  HasGood v =
      (r : MetadataRecord) × IsTrusted key (of_version v located) r
      × IsComplete unread (of_version v located) r

  -- A map whose versions all have a good record is answered.
  entries_answered :
      (entries : Entries)
      → ((v : VersionId) (copies : List LocatedRecord)
          → IsIn (v, copies) entries
          → copies ≡ of_version v located)
      → ((v : VersionId) → IsIn v (keys entries) → HasGood v)
      → (ts : List TrustedVersion) × (vs : List MetadataRecord) × (trust_entries key entries
          ≡ ok ts)
        × (accept_versions key unread ts ≡ ok vs)
  unfolding trust_entries accept_versions
  entries_answered [] of good = ([], [], refl, refl)
  entries_answered ((v, copies) ∷ entries) of good =
      let (ts, vs, trust, accept) =
        entries_answered entries (λ w cs i. of w cs (inr i)) (λ w i. good w (inr i)) in
      let (r, trusted, complete) = good v (inl refl) in
      let at_v = trust_version_complete key v (of_version v located) r trusted in
      let accepted = accept_version_complete key unread (of_version v located) r trusted complete in
      (
        ts ++ trusted_of (of_version v located) r ∷ [],
        vs ++ r ∷ [],
        rw (trust, of v copies (inl refl), at_v),
        accept_versions-snoc key unread ts (trusted_of (of_version v located) r) vs r accept
            accepted,
      )

  good_of_answer :
      (versions : List MetadataRecord)
      → IsAnswer key unread located versions
      → (c : LocatedRecord) → IsIn c located
      → HasGood c.found.version
  good_of_answer versions a c i =
      let (r, r_in, version) =
        map-IsIn (λ (x : MetadataRecord). x.version) c.found.version versions
          (All-IsIn _ c located a.covered i) in
      let good : IsTrusted key (of_version c.found.version located) r
          × IsComplete unread (of_version c.found.version located) r =
        rw version at (All-IsIn (IsGood key unread located) r versions a.trusted r_in) in
      (r, good.0, good.1)

  answered :
      (versions : List MetadataRecord)
      → IsAnswer key unread located versions
      → (vs : List MetadataRecord) × (versions_of_excluding key located unread ≡ ok vs)
  unfolding versions_of_excluding trusted_versions
  answered versions a =
      let (ascends, copies_of) = group_copies_lem located in
      let (ts, vs, trust, accept) = entries_answered (group_copies [] located) copies_of (λ v i.
        elim (keys-group_copies v [] located i) [
          | inl impossible ↦ absurd impossible
          | inr (c, c_in, version) ↦ rw version at (good_of_answer versions a c c_in)
        ]) in
      (vs, rw (trust, accept))

  -- `versions_of_excluding` answers exactly with what it must: the answer has one record for each
  -- version that a copy found names and no others, the newest version first, and each record is trusted
  -- and complete: all copies of its version name the key, those of the highest revision are this record
  -- and come from devices that it lists, and every listed device sent one or is among those that could
  -- not be read. It answers whenever there is such a list, and with that list.
  pub versions_of_excluding_lem :
      (versions : List MetadataRecord)
      → (versions_of_excluding key located unread ≡ ok versions)
        ↔ IsAnswer key unread located versions
  versions_of_excluding_lem versions = (
    versions_of_excluding-IsAnswer key unread located versions,
    λ a.
        let (vs, e) = answered versions a in
        let same =
          answer_unique key unread located vs versions
            (versions_of_excluding-IsAnswer key unread located vs e) a in
        e ∙ ap ok same,
  )
