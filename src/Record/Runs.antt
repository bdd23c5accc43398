-- ===== src/Record/Runs.antt =====
-- Concrete runs of the record's checks, and its theorems at concrete inputs.
use distributed_jbod.Common.{
  ◌≡◌, refl, none, some, List, [], ◌∷◌, ok, err, ◌↔◌, bytes_eq, replicate,
}
use distributed_jbod.Common.Seen.{for_each}
use distributed_jbod.Erasure.{new_scheme}
use distributed_jbod.ShardFile.{KeyHash}
use distributed_jbod.Record.{
  Bytes, system_name, ShardLocation, MetadataRecord, duplicate_device, note_shard, check_all_seen,
  check_shards, validate, device_for, shard_on,
}
use distributed_jbod.Record.Valid.{IsValid, record-validate_lem}
use distributed_jbod.Record.Lookup.{device_for-shard_on}

-- A hash for the runs: the key, framed.
abbrev frame : Bytes → KeyHash
frame key = 0 ∷ key

abbrev record_with : List ShardLocation → MetadataRecord
record_with shards = record {
  format_version = 1;
  system = system_name;
  bucket = b'd' ∷ [];
  key = b'k' ∷ [];
  key_hash = 0 ∷ b'k' ∷ [];
  version = replicate 16 1;
  created = 0;
  size = 10;
  object_checksum = 5;
  k = 2;
  m = 1;
  block_size = 65536;
  shards = shards;
  revision = 0;
  content_type = none;
  user_metadata = [];
}

abbrev kept : MetadataRecord
kept = record_with (
    record { index = 2; device = 30 }
    ∷ record { index = 0; device = 10 }
    ∷ record { index = 1; device = 20 }
    ∷ [])

-- Two shards on one device.
abbrev doubled : MetadataRecord
doubled = record_with (
    record { index = 2; device = 30 }
    ∷ record { index = 0; device = 30 }
    ∷ record { index = 1; device = 20 }
    ∷ [])

validates : validate frame kept ≡ ok tt
unfolding validate check_shards for_each note_shard check_all_seen new_scheme bytes_eq
validates = refl

refuses : validate frame doubled ≡ err (duplicate_device 30)
unfolding validate check_shards for_each note_shard check_all_seen new_scheme bytes_eq
refuses = refl

kept-IsValid : IsValid frame kept
kept-IsValid = (record-validate_lem frame kept).0 validates

record-validate_lem_example : (validate frame kept ≡ ok tt) ↔ IsValid frame kept
record-validate_lem_example = record-validate_lem frame kept

device_for-shard_on_example : (device_for kept 1 ≡ some 20) ↔ (shard_on kept 20 ≡ some 1)
device_for-shard_on_example = device_for-shard_on frame kept kept-IsValid 1 20
