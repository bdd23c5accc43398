-- ===== src/Coordinator/Groups.antt =====
-- `classify_group` and `check_group` of coordinator.rs: what an inventory and a scrub across the nodes
-- conclude of one version from its record copies, from whether each device has the shard's file, and from
-- the devices that are unread or known.
pub mod Classify
pub mod Empty
pub mod Check
pub mod Total
use distributed_jbod.Common.{
  ℕ, ◌+◌, ◌-◌, ◌%◌, ◌^◌, Bool, true, false, not, ◌&&◌, ◌||◌, Option, none, some, List, [], ◌∷◌,
  ◌++◌, map, ok, err, panic, ◌>>=◌, expect, length, get_elem?, ltb, ◌==◌, if◌then◌else◌, is_empty,
  bytes_eq,
}
use distributed_jbod.Common.Seen.{member, concat_map}
use distributed_jbod.Common.Find.{filter}
use distributed_jbod.ShardFile.{VersionId}
use distributed_jbod.Cluster.{DeviceId}
use distributed_jbod.Record.{Bytes, ShardLocation, MetadataRecord}
use distributed_jbod.Coordinator.{
  LocatedRecord, Message, Failure, error, close, Answer, any, latest_of,
}
use distributed_jbod.Coordinator.Copies.{versions_of_excluding, stale_copies}

pub data ObjectState : Type 0 where
  whole : ObjectState
  degraded_parity : ObjectState
  degraded_data : ObjectState
  unreadable : ObjectState
  inconsistent : ObjectState

-- `BTreeMap<DeviceId, bool>`: the entry of a device, the last one written.
abbrev pub Presence : Type 0
Presence = List (DeviceId × Bool)

abbrev pub present_on : Presence → DeviceId → Option Bool
present_on [] d = none
present_on ((e, here) ∷ present) d = if e == d then some here else present_on present d

-- `present.get(&device) == Some(&false)`.
abbrev pub is_false : Option Bool → Bool
is_false none = false
is_false (some here) = not here

unfoldable pub object_state : MetadataRecord → List ℕ → ObjectState
object_state r out =
    if is_empty out
    then whole
    else if ltb r.m (length out)
    then unreadable
    else if any (λ index. ltb index r.k) out
    then degraded_data
    else degraded_parity

-- `max_by_key` of the copies by revision.
abbrev pub latest : List LocatedRecord → Option LocatedRecord
latest [] = none
latest (c ∷ copies) = some (latest_of c copies)

-- The listed devices that have neither a stream nor are unread.
unfoldable pub lost_devices : MetadataRecord → List DeviceId → List DeviceId → List DeviceId
lost_devices r unread known =
    filter (λ d. not (member ◌==◌ known d) && not (member ◌==◌ unread d))
      (map (λ (s : ShardLocation). s.device) r.shards)

unfoldable pub is_out : List DeviceId → Presence → ShardLocation → Bool
is_out not_expected present shard =
    member ◌==◌ not_expected shard.device || is_false (present_on present shard.device)

-- The indices of the shards that are out.
unfoldable pub shards_out : MetadataRecord → List DeviceId → Presence → List ℕ
shards_out r not_expected present =
    map (λ (s : ShardLocation). s.index) (filter (is_out not_expected present) r.shards)

-- The `match` on the answer: anything but one record is inconsistent.
unfoldable pub classify_versions :
    MetadataRecord
    → List DeviceId
    → Presence
    → Answer (List MetadataRecord)
    → Answer (ObjectState × MetadataRecord × ℕ)
classify_versions current not_expected present (ok (r ∷ [])) =
    let out = shards_out r not_expected present in ok (object_state r out, r, length out % 2 ^ 8)
classify_versions current not_expected present (ok []) = ok (inconsistent, current, 0)
classify_versions current not_expected present (ok (r ∷ s ∷ rest)) = ok (inconsistent, current, 0)
classify_versions current not_expected present (err failure) = ok (inconsistent, current, 0)
classify_versions current not_expected present panic = panic

unfoldable pub classify_group :
    List LocatedRecord
    → Presence
    → List DeviceId
    → List DeviceId
    → Answer (ObjectState × MetadataRecord × ℕ)
classify_group group present unread known = do
  current ← expect (latest group)
  let key = current.found.key
  let not_expected = unread ++ lost_devices current.found unread known
  classify_versions current.found not_expected present
      (versions_of_excluding key group not_expected)

pub data ClusterFinding : Type 0 where
  copies_inconsistent : Bytes → Option VersionId → Message → ClusterFinding
  shard_missing : Bytes → VersionId → DeviceId → (shard_index : ℕ) → ClusterFinding
  shard_lost : Bytes → VersionId → DeviceId → (shard_index : ℕ) → ClusterFinding
  stale_found :
      Bytes → VersionId → DeviceId → (revision : ℕ) → (current_revision : ℕ) → ClusterFinding

pub record ShardCount : Type 0 where
  pub total : ℕ
  pub available : ℕ
  pub k : ℕ

-- The listed devices of any copy that sent none, have no stream and are not unread.
unfoldable pub lost_of_group : List LocatedRecord → List DeviceId → List DeviceId → List DeviceId
lost_of_group group unread known =
    filter
      (λ d.
        not (member ◌==◌ known d)
        && not (member ◌==◌ unread d)
        && not (any (λ (c : LocatedRecord). c.device == d) group))
      (concat_map (λ (c : LocatedRecord). map (λ (s : ShardLocation). s.device) c.found.shards)
        group)

-- `damaged_shards.contains(&(version, index))`.
abbrev pub is_damaged : List (VersionId × ℕ) → VersionId → ℕ → Bool
is_damaged damaged version index =
    any (λ (d : VersionId × ℕ). bytes_eq d.0 version && d.1 == index) damaged

-- The sums of `u8` wrap around in a release build; a valid record has at most 255 shards.
unfoldable pub count_shards :
    MetadataRecord → List DeviceId → List DeviceId → Presence → List (VersionId × ℕ) → ShardCount
count_shards r lost unread present damaged =
    let unavailable = length (
      filter
        (λ (s : ShardLocation).
          member ◌==◌ lost s.device
          || member ◌==◌ unread s.device
          || is_false (present_on present s.device)
          || is_damaged damaged r.version s.index)
        r.shards) in
    let total = (r.k + r.m) % 2 ^ 8 in
    record { total = total; available = total - unavailable % 2 ^ 8; k = r.k }

unfoldable pub stale_findings : Bytes → List LocatedRecord → MetadataRecord → List ClusterFinding
stale_findings key group r =
    map (λ (d : DeviceId × ℕ). stale_found key r.version d.0 d.1 r.revision) (stale_copies r group)

-- The body of the loop over the record's shards.
unfoldable pub shard_findings :
    Bytes → MetadataRecord → List DeviceId → Presence → ShardLocation → List ClusterFinding
shard_findings key r lost present shard =
    if member ◌==◌ lost shard.device
    then shard_lost key r.version shard.device shard.index ∷ []
    else if ltb 0 r.size && is_false (present_on present shard.device)
    then shard_missing key r.version shard.device shard.index ∷ []
    else []

-- The `match` on the answer; a group is one version, so the loops over the versions have one round.
unfoldable pub check_versions :
    Bytes
    → List LocatedRecord
    → List DeviceId
    → List DeviceId
    → Presence
    → List (VersionId × ℕ)
    → Answer (List MetadataRecord)
    → Answer (List ClusterFinding × Option ShardCount)
check_versions key group lost unread present damaged (ok []) = ok ([], none)
check_versions key group lost unread present damaged (ok (r ∷ rest)) = ok (
  concat_map (stale_findings key group) (r ∷ rest)
      ++ concat_map (λ s. concat_map (shard_findings key s lost present) s.shards) (r ∷ rest),
  some (count_shards r lost unread present damaged),
)
check_versions key group lost unread present damaged (err (error detail)) =
    ok (copies_inconsistent key detail.version detail.message ∷ [], none)
check_versions key group lost unread present damaged (err close) = ok ([], none)
check_versions key group lost unread present damaged panic = panic

unfoldable pub check_group :
    List LocatedRecord
    → Presence
    → List DeviceId
    → List DeviceId
    → List (VersionId × ℕ)
    → Answer (List ClusterFinding × Option ShardCount)
check_group [] present unread known damaged = ok ([], none)
check_group (first ∷ rest) present unread known damaged =
    let group = first ∷ rest in
    let key = first.found.key in
    let lost = lost_of_group group unread known in
    check_versions key group lost unread present damaged
      (versions_of_excluding key group (unread ++ lost))
