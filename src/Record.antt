-- ===== src/Record.antt =====
-- crates/djbod-core/src/record.rs: the metadata record, its sanity checks and its lookups. The hash of a
-- key is SHA-256 of the crate `sha2`: a parameter. The JSON form is serde's: a parameter where it is used.
pub mod Shards
pub mod Valid
pub mod Lookup
pub mod Equality
mod Runs
use distributed_jbod.Common.{
  ℕ, zero, suc, ◌+◌, ◌*◌, ◌%◌, ◌^◌, Bool, true, false, not, ◌&&◌, ◌||◌, Option, none, some, List,
  [], ◌∷◌, ◌++◌, Outcome, ok, err, panic, ◌>>=◌, ◌>>◌, fail_if, map_err, expect, length, get_elem?,
  set, replicate, leb, ltb, ◌==◌, ◌!=◌, if◌then◌else◌, bytes_eq, is_multiple_of,
}
use distributed_jbod.Common.Seen.{for_each, member}
use distributed_jbod.Erasure.{Scheme, SchemeError, ShardIndex, new_scheme, total_shards, contains}
use distributed_jbod.Stripe.{BlockChecksum}
use distributed_jbod.ShardFile.{KeyHash, VersionId}
use distributed_jbod.Cluster.{DeviceId}

-- A `String`, by its bytes.
abbrev pub Bytes : Type 0
Bytes = List ℕ

abbrev pub record_format_version : ℕ
record_format_version = 1

-- "distributed-jbod".
abbrev pub system_name : Bytes
system_name =
    b'd' ∷ b'i' ∷ b's' ∷ b't' ∷ b'r' ∷ b'i' ∷ b'b' ∷ b'u' ∷ b't' ∷ b'e' ∷ b'd' ∷ b'-' ∷ b'j' ∷ b'b'
    ∷ b'o' ∷ b'd' ∷ []

abbrev pub max_content_type_bytes : ℕ
max_content_type_bytes = 1024

pub record ShardLocation : Type 0 where
  pub index : ℕ
  pub device : DeviceId

-- `created` is a moment that nothing here computes with; `user_metadata` is a map as its entries.
pub record MetadataRecord : Type 0 where
  pub format_version : ℕ
  pub system : Bytes
  pub bucket : Bytes
  pub key : Bytes
  pub key_hash : KeyHash
  pub version : VersionId
  pub created : ℕ
  pub size : ℕ
  pub object_checksum : BlockChecksum
  pub k : ℕ
  pub m : ℕ
  pub block_size : ℕ
  pub shards : List ShardLocation
  pub revision : ℕ
  pub content_type : Option Bytes
  pub user_metadata : List (Bytes × Bytes)

pub data RecordError : Type 0 where
  content_type_too_long : ℕ → RecordError
  wrong_system : Bytes → RecordError
  unsupported_format_version : ℕ → RecordError
  key_hash_mismatch : (stored computed : KeyHash) → RecordError
  invalid_scheme : SchemeError → RecordError
  bad_block_size : ℕ → RecordError
  wrong_shard_count : (expected actual : ℕ) → RecordError
  missing_shard_index : ℕ → RecordError
  duplicate_shard_index : ℕ → RecordError
  duplicate_device : DeviceId → RecordError

abbrev pub Checked : Type 0 → Type 0
Checked A = Outcome RecordError A

-- `same_body`.
unfoldable pub same_body : MetadataRecord → MetadataRecord → Bool
same_body r other =
    bytes_eq r.version other.version
    && bytes_eq r.key other.key
    && bytes_eq r.key_hash other.key_hash
    && r.size == other.size
    && r.object_checksum == other.object_checksum
    && r.k == other.k
    && r.m == other.m
    && r.block_size == other.block_size

abbrev pub too_long : Option Bytes → Bool
too_long none = false
too_long (some content_type) = ltb max_content_type_bytes (length content_type)

abbrev pub length_of : Option Bytes → ℕ
length_of none = 0
length_of (some content_type) = length content_type

-- `seen_index` and `seen_devices`.
pub record Seen : Type 0 where
  pub indices : List Bool
  pub devices : List DeviceId

-- One round of the loop over the shards.
unfoldable pub note_shard : Scheme → Seen → ShardLocation → Checked Seen
note_shard scheme seen shard = do
  fail_if (not (contains scheme shard.index)) (missing_shard_index shard.index)
  was_seen ← expect (get_elem? seen.indices shard.index)
  fail_if was_seen (duplicate_shard_index shard.index)
  fail_if (member ◌==◌ seen.devices shard.device) (duplicate_device shard.device)
  ok (record {
    indices = set seen.indices shard.index true;
    devices = seen.devices ++ shard.device ∷ [];
  })

-- The last loop: `index` counts, and is named as a `u8`.
unfoldable pub check_all_seen : ℕ → List Bool → Checked (Unit {0})
check_all_seen index [] = ok tt
check_all_seen index (seen ∷ rest) = do
  fail_if (not seen) (missing_shard_index (index % 2 ^ 8))
  check_all_seen (index + 1) rest

-- The checks on the shards.
unfoldable pub check_shards : Scheme → List ShardLocation → Checked (Unit {0})
check_shards scheme shards = do
  fail_if (length shards != total_shards scheme)
      (wrong_shard_count (total_shards scheme) (length shards))
  seen ←
      for_each (note_shard scheme)
        (record { indices = replicate (total_shards scheme) false; devices = [] }) shards
  check_all_seen 0 seen.indices

module _ (hash_key : Bytes → KeyHash) where
  unfoldable pub validate : MetadataRecord → Checked (Unit {0})
  validate r = do
    fail_if (not (bytes_eq r.system system_name)) (wrong_system r.system)
    fail_if (too_long r.content_type) (content_type_too_long (length_of r.content_type))
    fail_if (r.format_version != record_format_version)
        (unsupported_format_version r.format_version)
    let computed = hash_key r.key
    fail_if (not (bytes_eq computed r.key_hash)) (key_hash_mismatch r.key_hash computed)
    scheme ← map_err invalid_scheme (new_scheme r.k r.m)
    fail_if (r.block_size == 0 || not (is_multiple_of r.block_size 4096))
        (bad_block_size r.block_size)
    check_shards scheme r.shards

-- The device that holds shard `index`, if the record lists it.
unfoldable pub device_in : List ShardLocation → ShardIndex → Option DeviceId
device_in [] index = none
device_in (shard ∷ shards) index =
    if shard.index == index then some shard.device else device_in shards index

abbrev pub device_for : MetadataRecord → ShardIndex → Option DeviceId
device_for r index = device_in r.shards index

unfoldable pub index_on : List ShardLocation → DeviceId → Option ShardIndex
index_on [] device = none
index_on (shard ∷ shards) device =
    if shard.device == device then some shard.index else index_on shards device

abbrev pub shard_on : MetadataRecord → DeviceId → Option ShardIndex
shard_on r device = index_on r.shards device
