-- ===== src/Coordinator/Groups/Classify.antt =====
-- What a classification of a version promises.
use mathlib.Core.Path.{subst}
use distributed_jbod.Common.{
  ℕ, ◌+◌, ◌%◌, ◌^◌, ◌≤◌, ◌≡◌, ◌≢◌, ◌⊎◌, inl, inr, refl, sym, ◌∙◌, true, false, not, List, [], ◌∷◌,
  ◌++◌, ok, err, panic, length, length-map, ltb, ltb→le, ◌==◌, All, arith, Bool-cases, not-true,
  ||_split,
}
use distributed_jbod.Common.Seen.{IsIn, member, IsIn-member}
use distributed_jbod.Common.Find.{filter}
use distributed_jbod.Common.Members.{
  All-IsIn, All-of_IsIn, IsIn-filter, IsIn-map, length-filter-not,
}
use distributed_jbod.Cluster.{DeviceId}
use distributed_jbod.Record.{Bytes, ShardLocation, MetadataRecord}
use distributed_jbod.Record.Shards.{devices_of}
use distributed_jbod.Coordinator.{LocatedRecord, Answer, latest_of}
use distributed_jbod.Coordinator.Copies.{versions_of_excluding}
use distributed_jbod.Coordinator.Copies.Trust.{IsTrusted, IsCopyOf}
use distributed_jbod.Coordinator.Copies.Absent.{IsComplete, HasCopy, member_eq_iff}
use distributed_jbod.Coordinator.Copies.OneVersion.{AreOf, versions_of_excluding_iff}
use distributed_jbod.Coordinator.Groups.{
  ObjectState, unreadable, inconsistent, Presence, present_on, is_false, object_state, lost_devices,
  is_out, shards_out, classify_versions, classify_group,
}

-- One of the copies, with the largest revision.
abbrev IsLatest : LocatedRecord → LocatedRecord → List LocatedRecord → Type 0
IsLatest m best copies =
    IsIn m (best ∷ copies)
    × (best.found.revision ≤ m.found.revision)
    × All (λ (c : LocatedRecord). c.found.revision ≤ m.found.revision) copies

IsLatest-skip :
    (m best c : LocatedRecord) (copies : List LocatedRecord)
    → c.found.revision ≤ best.found.revision
    → IsLatest m best copies
    → IsLatest m best (c ∷ copies)
IsLatest-skip m best c copies le (inl e, low, all) = (inl e, low, (omega arith, all))
IsLatest-skip m best c copies le (inr i, low, all) = (inr (inr i), low, (omega arith, all))

-- `max_by_key` finds such a copy.
latest_of-IsLatest :
    (best : LocatedRecord) (copies : List LocatedRecord)
    → IsLatest (latest_of best copies) best copies
unfolding latest_of
latest_of-IsLatest best [] = (inl refl, omega arith, tt)
latest_of-IsLatest best (c ∷ copies) =
    elim (Bool-cases (ltb c.found.revision best.found.revision)) [
      | inl older ↦
          let step : latest_of best (c ∷ copies) ≡ latest_of best copies = rw (latest_of, older) in
          subst (λ m. IsLatest m best (c ∷ copies)) (sym step)
            (IsLatest-skip (latest_of best copies) best c copies (ground arith)
              (latest_of-IsLatest best copies))
      | inr newer ↦
          let step : latest_of best (c ∷ copies) ≡ latest_of c copies = rw (latest_of, newer) in
          let (there, low, all) = latest_of-IsLatest c copies in
          subst (λ m. IsLatest m best (c ∷ copies)) (sym step)
            (inr there, ground (arith, low, newer), (low, all))
    ]

-- The latest copy of trusted copies is the record that they are trusted for.
pub latest_trusted :
    (key : Bytes) (c : LocatedRecord) (copies : List LocatedRecord) (r : MetadataRecord)
    → IsTrusted key (c ∷ copies) r
    → (latest_of c copies).found ≡ r
latest_trusted key c copies r a =
    let (there, low, all) = latest_of-IsLatest c copies in
    let (d, d_in, same) = a.held in
    let most : r.revision ≤ (latest_of c copies).found.revision =
      subst (λ (x : MetadataRecord). x.revision ≤ (latest_of c copies).found.revision) same
        (All-IsIn (λ (x : LocatedRecord). x.found.revision ≤ (latest_of c copies).found.revision) d
          (c ∷ copies) (low, all) d_in) in
    settle (latest_of c copies) most
      (All-IsIn (IsCopyOf r) (latest_of c copies) (c ∷ copies) a.agreed there)
  where
    settle : (d : LocatedRecord) → r.revision ≤ d.found.revision → IsCopyOf r d → d.found ≡ r
    settle d most (inl older) = absurd (omega arith)
    settle d most (inr same) = same.0

-- The devices that need not have sent a copy.
abbrev pub excused : MetadataRecord → List DeviceId → List DeviceId → List DeviceId
excused r unread known = unread ++ lost_devices r unread known

-- Trusted copies are judged by the shards that are out.
pub classify_group_lem :
    (c : LocatedRecord) (copies : List LocatedRecord) (present : Presence)
    (unread known : List DeviceId) (r : MetadataRecord)
    → AreOf c.found.version copies
    → IsTrusted r.key (c ∷ copies) r
    → IsComplete (excused r unread known) (c ∷ copies) r
    → classify_group (c ∷ copies) present unread known
      ≡ ok (
        object_state r (shards_out r (excused r unread known) present),
        r,
        length (shards_out r (excused r unread known) present) % 2 ^ 8,
      )
unfolding classify_group classify_versions
classify_group_lem c copies present unread known r a trusted complete =
    let same = latest_trusted r.key c copies r trusted in
    rw (
      same,
      (versions_of_excluding_iff r.key (excused r unread known) c copies r a).1 (trusted, complete),
    )

classify_versions-ok :
    (current : MetadataRecord) (not_expected : List DeviceId) (present : Presence)
    (answer : Answer (List MetadataRecord)) (state : ObjectState) (r : MetadataRecord) (n : ℕ)
    → classify_versions current not_expected present answer ≡ ok (state, r, n)
    → state ≢ inconsistent
    → (answer ≡ ok (r ∷ [])) × (state ≡ object_state r (shards_out r not_expected present))
unfolding classify_versions
classify_versions-ok current not_expected present (ok []) state r n e h = absurd (h (cc))
classify_versions-ok current not_expected present (ok (s ∷ [])) state r n e h =
    let same : s ≡ r = cc in (cc, rw (← same) (cc))
classify_versions-ok current not_expected present (ok (s ∷ t ∷ rest)) state r n e h =
    absurd (h (cc))
classify_versions-ok current not_expected present (err failure) state r n e h = absurd (h (cc))
classify_versions-ok current not_expected present panic state r n e h = absurd (cc)

-- What is known of a version that is not called inconsistent.
pub record IsJudged (group : List LocatedRecord) (present : Presence) (unread known : List DeviceId)
    (state : ObjectState) (r : MetadataRecord) : Type 0 where
  pub trusted : IsTrusted r.key group r
  pub complete : IsComplete (excused r unread known) group r
  pub judged : state ≡ object_state r (shards_out r (excused r unread known) present)

pub classify_group-IsJudged :
    (c : LocatedRecord) (copies : List LocatedRecord) (present : Presence)
    (unread known : List DeviceId) (state : ObjectState) (r : MetadataRecord) (n : ℕ)
    → AreOf c.found.version copies
    → classify_group (c ∷ copies) present unread known ≡ ok (state, r, n)
    → state ≢ inconsistent
    → IsJudged (c ∷ copies) present unread known state r
unfolding classify_group
classify_group-IsJudged c copies present unread known state r n a e h =
    let current = (latest_of c copies).found in
    let (answered, judged) =
      classify_versions-ok current (excused current unread known) present
        (versions_of_excluding current.key (c ∷ copies) (excused current unread known)) state r n e
        h in
    let (trusted, complete) =
      (versions_of_excluding_iff current.key (excused current unread known) c copies r a).0
        answered in
    let same : current ≡ r = latest_trusted current.key c copies r trusted in
    record {
      trusted = subst (λ (x : MetadataRecord). IsTrusted x.key (c ∷ copies) r) same trusted;
      complete =
          subst (λ (x : MetadataRecord). IsComplete (excused x unread known) (c ∷ copies) r) same
            complete;
      judged =
          subst
            (λ (x : MetadataRecord).
              state ≡ object_state r (shards_out r (excused x unread known) present))
            same judged;
    }

-- The shards that are not out, by the devices that are excused.
abbrev pub shards_in :
    MetadataRecord → List DeviceId → List DeviceId → Presence → List ShardLocation
shards_in r unread known present =
    filter (λ (s : ShardLocation). not (is_out (excused r unread known) present s)) r.shards

-- The device sent this very record and does not lack the shard's file.
abbrev pub IsAtHand : List LocatedRecord → Presence → MetadataRecord → ShardLocation → Type 0
IsAtHand group present r s =
    HasCopy group r s.device × (is_false (present_on present s.device) ≡ false)

IsAtHand-of_in :
    (group : List LocatedRecord) (present : Presence) (unread known : List DeviceId)
    (r : MetadataRecord) (s : ShardLocation)
    → IsComplete (excused r unread known) group r
    → IsIn s (shards_in r unread known present)
    → IsAtHand group present r s
unfolding is_out
IsAtHand-of_in group present unread known r s complete i =
    let (listed, kept) =
      IsIn-filter (λ (t : ShardLocation). not (is_out (excused r unread known) present t)) s
        r.shards i in
    let (expected, there) = ||_split _ _ (not-true _ kept) in
    (
      sent expected (
          All-IsIn _ s.device (devices_of r.shards) complete
            (IsIn-map (λ (x : ShardLocation). x.device) s r.shards listed)),
      there,
    )
  where
    sent :
        member ◌==◌ (excused r unread known) s.device ≡ false
        → (HasCopy group r s.device ⊎ IsIn s.device (excused r unread known))
        → HasCopy group r s.device
    sent expected (inl copy) = copy
    sent expected (inr excuse) = absurd (
        let wrong : true ≡ false =
          sym (IsIn-member ◌==◌ member_eq_iff s.device (excused r unread known) excuse)
          ∙ expected in
        cc)

object_state-readable :
    (r : MetadataRecord) (out : List ℕ) → object_state r out ≢ unreadable → length out ≤ r.m
unfolding object_state
object_state-readable r [] h = omega arith
object_state-readable r (index ∷ out) h = elim (Bool-cases (ltb r.m (length (index ∷ out)))) [
  | inl many ↦ absurd (h (rw (object_state, many)))
  | inr few ↦ ltb→le r.m (length (index ∷ out)) few
]

-- A version that is called neither inconsistent nor unreadable can be read: where the copies are of one
-- version and the record lists k + m shards, at least k of the shards that it lists are on devices that
-- sent this very record and are not known to lack the shard's file.
pub classify_group_readable :
    (c : LocatedRecord) (copies : List LocatedRecord) (present : Presence)
    (unread known : List DeviceId) (state : ObjectState) (r : MetadataRecord) (n : ℕ)
    → AreOf c.found.version copies
    → classify_group (c ∷ copies) present unread known ≡ ok (state, r, n)
    → state ≢ inconsistent
    → state ≢ unreadable
    → length r.shards ≡ r.k + r.m
    → (r.k ≤ length (shards_in r unread known present))
      × All
          (λ s. IsIn s r.shards × IsAtHand (c ∷ copies) present r s)
          (shards_in r unread known present)
unfolding shards_out
classify_group_readable c copies present unread known state r n a e consistent readable size =
    let j = classify_group-IsJudged c copies present unread known state r n a e consistent in
    let few =
      object_state-readable r (shards_out r (excused r unread known) present)
        (λ wrong. readable (j.judged ∙ wrong)) in
    let counted = length-filter-not (is_out (excused r unread known) present) r.shards in
    let mapped =
      length-map (λ (s : ShardLocation). s.index)
        (filter (is_out (excused r unread known) present) r.shards) in
    (
      omega arith,
      All-of_IsIn _ (shards_in r unread known present) (λ s i. (
        (IsIn-filter (λ (t : ShardLocation). not (is_out (excused r unread known) present t)) s
            r.shards i).0,
        IsAtHand-of_in (c ∷ copies) present unread known r s j.complete i,
      )),
    )
