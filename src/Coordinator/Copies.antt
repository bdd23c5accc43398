-- ===== src/Coordinator/Copies.antt =====
-- `trusted_versions`, `versions_of_excluding`, `stale_copies` and `shard_to_drain` of coordinator.rs:
-- the copies of each version are checked against each other and against the record they hold.
pub mod Trust
pub mod Absent
pub mod Grouping
pub mod Answers
pub mod OneVersion
pub mod Calm
pub mod Unique
pub mod Exact
pub mod Orders
use distributed_jbod.Common.{
  ℕ, ◌+◌, ◌-◌, Bool, true, false, not, ◌&&◌, ◌||◌, Option, none, some, List, [], ◌∷◌, ◌++◌, map,
  Outcome, ok, err, panic, ◌>>=◌, ◌>>◌, fail_if, expect, ok_or, length, sub_u64, get_elem?, ltb,
  ◌==◌, if◌then◌else◌, bytes_eq,
}
use distributed_jbod.Common.Seen.{for_each, member}
use distributed_jbod.Common.Find.{find, filter}
use distributed_jbod.Erasure.{ShardIndex}
use distributed_jbod.ShardFile.{VersionId}
use distributed_jbod.Cluster.{DeviceId}
use distributed_jbod.Record.{Bytes, ShardLocation, MetadataRecord, same_body, shard_on}
use distributed_jbod.Record.Equality.{record_eq}
use distributed_jbod.Coordinator.{
  LocatedRecord, key_mismatch, records_inconsistent, names_other_key, copies_disagree,
  device_not_listed, copies_found, stale_copy, error, Answer, any, max_of, is_none,
}

-- Why a listed device's copy is missing; the third kind of the source is set by a read only.
pub data RecordCopyFault : Type 0 where
  missing : RecordCopyFault
  stale : (revision : ℕ) → RecordCopyFault

pub record MissingRecordCopy : Type 0 where
  pub device : DeviceId
  pub fault : RecordCopyFault

-- `trusted` is the field `record` of the source.
pub record TrustedVersion : Type 0 where
  pub trusted : MetadataRecord
  pub absent : List MissingRecordCopy
  pub vouching : ℕ

-- The derived order of version ids, from the first byte on.
unfoldable pub bytes_ltb : List ℕ → List ℕ → Bool
bytes_ltb xs [] = false
bytes_ltb [] (y ∷ ys) = true
bytes_ltb (x ∷ xs) (y ∷ ys) = if ltb x y then true else x == y && bytes_ltb xs ys

-- `by_version.entry(version).or_default().push(item)`, on the entries in their order.
unfoldable pub push_copy :
    List (VersionId × List LocatedRecord) → LocatedRecord → List (VersionId × List LocatedRecord)
push_copy [] item = (item.found.version, item ∷ []) ∷ []
push_copy ((version, copies) ∷ entries) item =
    if bytes_eq version item.found.version
    then (version, copies ++ item ∷ []) ∷ entries
    else if bytes_ltb item.found.version version
    then (item.found.version, item ∷ []) ∷ (version, copies) ∷ entries
    else (version, copies) ∷ push_copy entries item

-- The loop that fills the map.
unfoldable pub group_copies :
    List (VersionId × List LocatedRecord)
    → List LocatedRecord
    → List (VersionId × List LocatedRecord)
group_copies entries [] = entries
group_copies entries (item ∷ located) = group_copies (push_copy entries item) located

module _ (key : Bytes) (version : VersionId) where
  -- One copy must name the key that was asked for.
  unfoldable pub check_named : LocatedRecord → Answer (Unit {0})
  check_named copy = fail_if (not (bytes_eq copy.found.key key)) (
      error (record {
        code = key_mismatch;
        message = names_other_key copy.found.key;
        node = none;
        device = some copy.device;
        key = some key;
        version = some version;
      }))

  -- A copy of the current revision must be the first one, and come from a device that it lists.
  unfoldable pub check_current : MetadataRecord → ℕ → LocatedRecord → Answer (Unit {0})
  check_current first current_revision copy = do
    fail_if (not (record_eq copy.found first)) (
        error (record {
          code = records_inconsistent;
          message = copies_disagree current_revision;
          node = none;
          device = some copy.device;
          key = some key;
          version = some version;
        }))
    fail_if (is_none (shard_on first copy.device)) (
        error (record {
          code = records_inconsistent;
          message = device_not_listed;
          node = none;
          device = some copy.device;
          key = some key;
          version = some version;
        }))

-- `for copy in copies { check(copy)?; }`.
unfoldable pub check_all :
    (LocatedRecord → Answer (Unit {0})) → List LocatedRecord → Answer (Unit {0})
check_all check [] = ok tt
check_all check (copy ∷ copies) = do check copy; check_all check copies

abbrev pub is_current : ℕ → LocatedRecord → Bool
is_current current_revision copy = copy.found.revision == current_revision

abbrev pub fault_of : Option ℕ → RecordCopyFault
fault_of none = missing
fault_of (some revision) = stale revision

unfoldable pub missing_copy : List LocatedRecord → ShardLocation → MissingRecordCopy
missing_copy copies shard = record {
  device = shard.device;
  fault = fault_of (
      max_of (
        map (λ (c : LocatedRecord). c.found.revision)
          (filter (λ c. c.device == shard.device) copies)));
}

-- The listed devices from which no current copy came.
unfoldable pub missing_copies :
    List LocatedRecord → List LocatedRecord → List ShardLocation → List MissingRecordCopy
missing_copies copies current shards =
    map (missing_copy copies)
      (filter (λ shard. not (any (λ (c : LocatedRecord). c.device == shard.device) current)) shards)

unfoldable pub vouching_copies : MetadataRecord → ℕ → List LocatedRecord → ℕ
vouching_copies first current_revision copies = length (
    filter (λ (c : LocatedRecord). c.found.revision == current_revision || same_body first c.found)
      copies)

-- The body of the loop over the versions.
unfoldable pub trust_version : Bytes → VersionId → List LocatedRecord → Answer TrustedVersion
trust_version key version copies = do
  check_all (check_named key version) copies
  current_revision ← expect (max_of (map (λ (c : LocatedRecord). c.found.revision) copies))
  let current = filter (is_current current_revision) copies
  chosen ← expect (get_elem? current 0)
  let first = chosen.found
  check_all (check_current key version first current_revision) current
  ok (record {
    trusted = first;
    absent = missing_copies copies current first.shards;
    vouching = vouching_copies first current_revision copies;
  })

-- The loop from the newest version on: the entries stand the oldest first.
unfoldable pub trust_entries :
    Bytes → List (VersionId × List LocatedRecord) → Answer (List TrustedVersion)
trust_entries key [] = ok []
trust_entries key ((version, copies) ∷ entries) = do
  newer ← trust_entries key entries
  this ← trust_version key version copies
  ok (newer ++ this ∷ [])

unfoldable pub trusted_versions : Bytes → List LocatedRecord → Answer (List TrustedVersion)
trusted_versions key located = trust_entries key (group_copies [] located)

-- The body of the loop of `versions_of_excluding`: a copy may be missing from a device in `unread` only.
-- The counts of the message wrap, as `usize` does in a release build.
unfoldable pub accept_version : Bytes → List DeviceId → TrustedVersion → Answer MetadataRecord
accept_version key unread t = do
  let unread_copies =
      length (filter (λ (m : MissingRecordCopy). member ◌==◌ unread m.device) t.absent)
  let listed = t.trusted.k + t.trusted.m
  fail_if (ltb unread_copies (length t.absent)) (
      error (record {
        code = records_inconsistent;
        message =
            copies_found (sub_u64 listed (length t.absent)) (sub_u64 listed unread_copies)
              t.trusted.revision;
        node = none;
        device = none;
        key = some key;
        version = some t.trusted.version;
      }))
  ok t.trusted

unfoldable pub accept_versions :
    Bytes → List DeviceId → List TrustedVersion → Answer (List MetadataRecord)
accept_versions key unread [] = ok []
accept_versions key unread (t ∷ ts) = do
  this ← accept_version key unread t
  rest ← accept_versions key unread ts
  ok (this ∷ rest)

unfoldable pub versions_of_excluding :
    Bytes → List LocatedRecord → List DeviceId → Answer (List MetadataRecord)
versions_of_excluding key located unread = do
  trusted ← trusted_versions key located
  accept_versions key unread trusted

unfoldable pub versions_of : Bytes → List LocatedRecord → Answer (List MetadataRecord)
versions_of key located = versions_of_excluding key located []

-- Copies of an older revision on devices that the current record does not list.
unfoldable pub is_stale : MetadataRecord → LocatedRecord → Bool
is_stale current c =
    bytes_eq c.found.version current.version
    && ltb c.found.revision current.revision
    && is_none (shard_on current c.device)

unfoldable pub stale_copies : MetadataRecord → List LocatedRecord → List (DeviceId × ℕ)
stale_copies current located =
    map (λ (c : LocatedRecord). (c.device, c.found.revision)) (filter (is_stale current) located)

-- The shard that the current record of the copy's version places on the device.
unfoldable pub shard_to_drain : DeviceId → MetadataRecord → List MetadataRecord → Answer ShardIndex
shard_to_drain device copy versions = do
  let stale_failure = error (record {
    code = records_inconsistent;
    message = stale_copy;
    node = none;
    device = some device;
    key = some copy.key;
    version = some copy.version;
  })
  current ←
      ok_or (find (λ (v : MetadataRecord). bytes_eq v.version copy.version) versions) stale_failure
  ok_or (shard_on current device) stale_failure
