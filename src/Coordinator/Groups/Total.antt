-- ===== src/Coordinator/Groups/Total.antt =====
-- The copies of one version can always be classified and checked.

use distributed_jbod.Common.{Option, ℕ, ◌≡◌, refl, List, [], ◌∷◌, ◌++◌, ok, err, panic}
use distributed_jbod.ShardFile.{VersionId}
use distributed_jbod.Cluster.{DeviceId}
use distributed_jbod.Record.{Bytes, MetadataRecord}
use distributed_jbod.Coordinator.{close, LocatedRecord, Answer, latest_of, error}
use distributed_jbod.Coordinator.Copies.{versions_of_excluding}
use distributed_jbod.Coordinator.Copies.OneVersion.{AreOf}
use distributed_jbod.Coordinator.Groups.{
  ClusterFinding, ShardCount, check_versions, check_group, lost_of_group, ObjectState, Presence,
  classify_versions, classify_group,
}
use distributed_jbod.Coordinator.Groups.Classify.{excused}
use distributed_jbod.Coordinator.Copies.Calm.{IsCalm, IsCalm-versions}

classify_versions-total :
    (current : MetadataRecord) (not_expected : List DeviceId) (present : Presence)
    (answer : Answer (List MetadataRecord))
    → IsCalm answer
    → (judged : ObjectState × MetadataRecord × ℕ) × (classify_versions current not_expected present
          answer
        ≡ ok judged)
unfolding classify_versions
classify_versions-total current not_expected present (ok []) calm = (_, refl)
classify_versions-total current not_expected present (ok (r ∷ [])) calm = (_, refl)
classify_versions-total current not_expected present (ok (r ∷ s ∷ rest)) calm = (_, refl)
classify_versions-total current not_expected present (err failure) calm = (_, refl)
classify_versions-total current not_expected present panic calm = absurd calm

-- The copies of one version are always judged.
pub classify_group-total :
    (c : LocatedRecord) (copies : List LocatedRecord) (present : Presence)
    (unread known : List DeviceId)
    → AreOf c.found.version copies
    → (judged : ObjectState × MetadataRecord × ℕ) × (classify_group
          (c ∷ copies)
          present
          unread
          known
        ≡ ok judged)
unfolding classify_group
classify_group-total c copies present unread known a =
    let current = (latest_of c copies).found in
    classify_versions-total current (excused current unread known) present
      (versions_of_excluding current.key (c ∷ copies) (excused current unread known))
      (IsCalm-versions current.key (excused current unread known) c copies a)

check_versions-total :
    (key : Bytes) (group : List LocatedRecord) (lost unread : List DeviceId) (present : Presence)
    (damaged : List (VersionId × ℕ)) (answer : Answer (List MetadataRecord))
    → IsCalm answer
    → (checked : List ClusterFinding × Option ShardCount) × (check_versions key group lost unread
          present damaged answer
        ≡ ok checked)
unfolding check_versions
check_versions-total key group lost unread present damaged (ok []) calm = (_, refl)
check_versions-total key group lost unread present damaged (ok (r ∷ rest)) calm = (_, refl)
check_versions-total key group lost unread present damaged (err (error detail)) calm = (_, refl)
check_versions-total key group lost unread present damaged (err close) calm = (_, refl)
check_versions-total key group lost unread present damaged panic calm = absurd calm

-- The copies of one version are always checked.
pub check_group-total :
    (c : LocatedRecord) (copies : List LocatedRecord) (present : Presence)
    (unread known : List DeviceId) (damaged : List (VersionId × ℕ))
    → AreOf c.found.version copies
    → (checked : List ClusterFinding × Option ShardCount) × (check_group
          (c ∷ copies)
          present
          unread
          known
          damaged
        ≡ ok checked)
unfolding check_group
check_group-total c copies present unread known damaged a =
    let key = c.found.key in
    let lost = lost_of_group (c ∷ copies) unread known in
    check_versions-total key (c ∷ copies) lost unread present damaged
      (versions_of_excluding key (c ∷ copies) (unread ++ lost))
      (IsCalm-versions key (unread ++ lost) c copies a)
