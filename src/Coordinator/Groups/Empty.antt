-- ===== src/Coordinator/Groups/Empty.antt =====
-- Empty objects: no device has a shard's file for them, so every device answers that the file is absent.
use mathlib.Core.Path.{subst}
use distributed_jbod.Common.{
  ℕ, ◌+◌, ◌-◌, ◌%◌, ◌^◌, ◌<◌, ◌≡◌, inl, inr, refl, ◌∙◌, ap, ap₂, true, false, not, ◌&&◌, ◌||◌, some,
  List, [], ◌∷◌, map, ok, length, length-map, ltb, lt→ltb, le→ltb, ◌==◌, ==_iff, All, All-weaken,
  arith, Bool-cases, ◌⊎◌,
}
use distributed_jbod.Common.Seen.{IsIn, member, concat_map}
use distributed_jbod.Common.Find.{filter}
use distributed_jbod.Common.Members.{
  All-IsIn, All-of_IsIn, filter-All, filter_none, concat_map-IsIn,
}
use distributed_jbod.Cluster.{DeviceId}
use distributed_jbod.Record.{ShardLocation, MetadataRecord}
use distributed_jbod.Record.Shards.{devices_of}
use distributed_jbod.Coordinator.{LocatedRecord, any}
use distributed_jbod.Coordinator.Copies.{versions_of_excluding, is_stale, stale_copies}
use distributed_jbod.Coordinator.Copies.Trust.{IsTrusted}
use distributed_jbod.Coordinator.Copies.Absent.{IsComplete, HasCopy, IsIn-any}
use distributed_jbod.Coordinator.Copies.OneVersion.{AreOf, versions_of_excluding_iff}
use distributed_jbod.Coordinator.Groups.{
  unreadable, Presence, present_on, is_false, is_damaged, object_state, is_out, shards_out,
  classify_group, count_shards, lost_of_group, shard_findings, stale_findings, check_versions,
  check_group,
}
use distributed_jbod.Coordinator.Groups.Classify.{excused, classify_group_lem, latest_trusted}

-- Every listed device answered that it has no file.
abbrev pub HaveNone : Presence → MetadataRecord → Type 0
HaveNone present r = All (λ (s : ShardLocation). present_on present s.device ≡ some false) r.shards

All-out :
    (present : Presence) (not_expected : List DeviceId) (shards : List ShardLocation)
    → All (λ (s : ShardLocation). present_on present s.device ≡ some false) shards
    → All (λ s. is_out not_expected present s ≡ true) shards
unfolding is_out
All-out present not_expected shards h =
    All-weaken _ _ shards
      (λ s (e : present_on present s.device ≡ some false).
        elim (Bool-cases (member ◌==◌ not_expected s.device)) [
          | inl there ↦ rw there
          | inr other ↦ rw (other, e)
        ])
      h

object_state-unreadable :
    (r : MetadataRecord) (out : List ℕ) → r.m < length out → object_state r out ≡ unreadable
unfolding object_state
object_state-unreadable r [] h = absurd (omega arith)
object_state-unreadable r (index ∷ out) h = rw (object_state, lt→ltb r.m (length (index ∷ out)) h)

IsComplete-more :
    (more : List DeviceId) (copies : List LocatedRecord) (r : MetadataRecord)
    → IsComplete [] copies r
    → IsComplete more copies r
IsComplete-more more copies r h = All-weaken _ _ (devices_of r.shards) weaken h
  where
    weaken : (d : DeviceId) → (HasCopy copies r d ⊎ IsIn d []) → HasCopy copies r d ⊎ IsIn d more
    weaken d (inl copy) = inl copy
    weaken d (inr i) = absurd i

-- The inventory calls an object unreadable, with all of its k + m shards out, whenever every listed device
-- sent its copy of the record and answers that it has no shard file. This holds for an object of size 0
-- too, whose shards have no files to begin with.
pub classify_group_no_files :
    (c : LocatedRecord) (copies : List LocatedRecord) (present : Presence) (known : List DeviceId)
    (r : MetadataRecord)
    → AreOf c.found.version copies
    → IsTrusted r.key (c ∷ copies) r
    → IsComplete [] (c ∷ copies) r
    → HaveNone present r
    → length r.shards ≡ r.k + r.m
    → 0 < r.k
    → classify_group (c ∷ copies) present [] known ≡ ok (unreadable, r, (r.k + r.m) % 2 ^ 8)
unfolding shards_out
classify_group_no_files c copies present known r a trusted complete lacking size positive =
    let same = latest_trusted r.key c copies r trusted in
    let all =
      filter-All (is_out (excused r [] known) present) r.shards
        (All-out present (excused r [] known) r.shards lacking) in
    let count : length (shards_out r (excused r [] known) present) ≡ r.k + r.m =
      length-map (λ (s : ShardLocation). s.index)
        (filter (is_out (excused r [] known) present) r.shards)
      ∙ ap length all
      ∙ size in
    let state =
      object_state-unreadable r (shards_out r (excused r [] known) present) (omega arith) in
    classify_group_lem c copies present [] known r a trusted
      (IsComplete-more (excused r [] known) (c ∷ copies) r complete)
    ∙ rw (state, count)

-- The same for the scrub across the nodes.
module _ (c : LocatedRecord) (copies : List LocatedRecord) (present : Presence)
    (known : List DeviceId) (r : MetadataRecord) (a : AreOf c.found.version copies)
    (trusted : IsTrusted r.key (c ∷ copies) r)
    (all_current : All (λ (d : LocatedRecord). d.found ≡ r) (c ∷ copies))
    (complete : IsComplete [] (c ∷ copies) r) (lacking : HaveNone present r)
    (size : length r.shards ≡ r.k + r.m) (few : r.k + r.m < 256) (empty : r.size ≡ 0) where
  none_lost : lost_of_group (c ∷ copies) [] known ≡ []
  unfolding lost_of_group
  none_lost =
      filter_none
        (λ d.
          not (member ◌==◌ known d)
          && not (member ◌==◌ [] d)
          && not (any (λ (x : LocatedRecord). x.device == d) (c ∷ copies)))
        (concat_map (λ (x : LocatedRecord). devices_of x.found.shards) (c ∷ copies))
        (All-of_IsIn _ (concat_map (λ (x : LocatedRecord). devices_of x.found.shards) (c ∷ copies))
          found_there)
    where
      sent :
          (d : DeviceId)
          → (HasCopy (c ∷ copies) r d ⊎ IsIn d [])
          → any (λ (x : LocatedRecord). x.device == d) (c ∷ copies) ≡ true
      sent d (inr i) = absurd i
      sent d (inl (x, x_in, found, device)) =
          IsIn-any (λ (y : LocatedRecord). y.device == d) x (c ∷ copies) x_in
            ((==_iff x.device d).1 device)

      found_there :
          (d : DeviceId)
          → IsIn d (concat_map (λ (x : LocatedRecord). devices_of x.found.shards) (c ∷ copies))
          → (not (member ◌==◌ known d)
              && not (member ◌==◌ [] d)
              && not (any (λ (x : LocatedRecord). x.device == d) (c ∷ copies)))
            ≡ false
      found_there d i =
          let (x, x_in, listed) =
            concat_map-IsIn (λ (y : LocatedRecord). devices_of y.found.shards) d (c ∷ copies) i in
          let same =
            All-IsIn (λ (y : LocatedRecord). y.found ≡ r) x (c ∷ copies) all_current x_in in
          let there : IsIn d (devices_of r.shards) =
            subst (λ (y : MetadataRecord). IsIn d (devices_of y.shards)) same listed in
          let anywhere = sent d (All-IsIn _ d (devices_of r.shards) complete there) in ground arith

  none_stale : stale_copies r (c ∷ copies) ≡ []
  unfolding stale_copies is_stale
  none_stale = ap (map (λ (x : LocatedRecord). (x.device, x.found.revision))) (
      filter_none (is_stale r) (c ∷ copies) (
        All-weaken _ _ (c ∷ copies)
          (λ x (e : x.found ≡ r).
            (let revision : x.found.revision ≡ r.revision =
                ap (λ (y : MetadataRecord). y.revision) e in
              ground arith))
          all_current))

  no_findings :
      (shards : List ShardLocation) → concat_map (shard_findings r.key r [] present) shards ≡ []
  unfolding shard_findings
  no_findings [] = refl
  no_findings (s ∷ shards) =
      let zero_size : ltb 0 r.size ≡ false = le→ltb 0 r.size (omega arith) in
      rw (zero_size, no_findings shards)

  none_available :
      count_shards r [] [] present [] ≡ record { total = r.k + r.m; available = 0; k = r.k }
  unfolding count_shards
  none_available =
      let test = λ (s : ShardLocation).
        (member ◌==◌ [] s.device
          || member ◌==◌ [] s.device
          || is_false (present_on present s.device)
          || is_damaged [] r.version s.index) in
      let all = filter-All test r.shards (
        All-weaken _ _ r.shards (λ s (e : present_on present s.device ≡ some false). (rw e))
          lacking) in
      let count : length (filter test r.shards) ≡ r.k + r.m = ap length all ∙ size in
      let small : (r.k + r.m) % 2 ^ 8 ≡ r.k + r.m = omega arith in
      let nothing : r.k + r.m - (r.k + r.m) ≡ 0 = omega arith in rw (count, small, nothing)

  -- The scrub across the nodes finds nothing wrong with an empty object of whose record every listed device
  -- sent its copy, all of them current, and yet counts none of its k + m shards as available, since no
  -- device has a file for it.
  pub check_group_no_files :
      check_group (c ∷ copies) present [] known []
      ≡ ok ([], some (record { total = r.k + r.m; available = 0; k = r.k }))
  unfolding check_group check_versions stale_findings
  check_group_no_files =
      let key : c.found.key ≡ r.key = ap (λ (x : MetadataRecord). x.key) all_current.0 in
      let answered = (versions_of_excluding_iff r.key [] c copies r a).1 (trusted, complete) in
      ap₂
        (λ k (lost : List DeviceId).
          check_versions k (c ∷ copies) lost [] present []
            (versions_of_excluding k (c ∷ copies) lost))
        key none_lost
      ∙ rw (answered, none_stale, no_findings r.shards, none_available)
