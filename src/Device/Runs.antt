-- ===== src/Device/Runs.antt =====
-- A concrete disk, and the theorems about a device's records at it.
use distributed_jbod.Common.{
  ℕ, ◌≡◌, refl, none, some, List, [], ◌∷◌, ◌++◌, ok, err, replicate, arith, bytes_eq, Option,
}
use distributed_jbod.Common.Seen.{for_each}
use distributed_jbod.Erasure.{new_scheme}
use distributed_jbod.ShardFile.{KeyHash, VersionId}
use distributed_jbod.Naming.{Text, directory_components}
use distributed_jbod.Naming.RoundTrip.{AreBytes}
use distributed_jbod.Naming.FileNames.{objects_dir, object_directory}
use distributed_jbod.Record.{
  Bytes, MetadataRecord, Checked, system_name, note_shard, check_all_seen, check_shards, validate,
}
use distributed_jbod.Device.{IoKind, io, other, dir, Disk}
use distributed_jbod.Device.Tree.{entry_at, paths_eq}
use distributed_jbod.Device.Store.{bucket_path, key_directory, write_record}
use distributed_jbod.Device.Store.Abstract.{Records, Abstracts}
use distributed_jbod.Device.Store.Refine.{
  Call, write, read, delete, run, replay, run_refines, write_record_interrupted,
}

abbrev hash : KeyHash
hash = replicate 32 7

abbrev version : VersionId
version = replicate 16 1

abbrev sample : MetadataRecord
sample = record {
  format_version = 1;
  system = system_name;
  bucket = [];
  key = b'k' ∷ [];
  key_hash = hash;
  version = version;
  created = 0;
  size = 10;
  object_checksum = 9;
  k = 1;
  m = 1;
  block_size = 4096;
  shards = record { index = 0; device = 5 } ∷ record { index = 1; device = 6 } ∷ [];
  revision = 2;
  content_type = none;
  user_metadata = [];
}

abbrev newer : MetadataRecord
newer = record sample { revision = 3 }

-- The key's hash, and a JSON form that is read back for these records: the revision.
abbrev hash_key : Bytes → KeyHash
hash_key key = hash

abbrev to_json : MetadataRecord → List ℕ
to_json r = r.revision ∷ []

abbrev from_json : List ℕ → Checked MetadataRecord
from_json [] = ok sample
from_json (revision ∷ rest) = ok (record sample { revision = revision })

abbrev accept_all : List ℕ → Option IoKind
accept_all bytes = none

abbrev full_disk : List ℕ → Option IoKind
full_disk bytes = some other

-- What `initialise` leaves, without the identity file.
abbrev fresh : Disk
fresh = record {
  entries = ([], dir) ∷ (objects_dir ∷ [], dir) ∷ (bucket_path, dir) ∷ [];
  counter = 0;
}

abbrev empty_map : Records
empty_map h v = none

fresh-Abstracts : Abstracts from_json to_json empty_map fresh
unfolding entry_at paths_eq object_directory directory_components bytes_eq
fresh-Abstracts = record {
  bucket = refl;
  first_level = λ h. tt;
  second_level = λ h. tt;
  key_level = λ h. tt;
  plain = λ h name. tt;
  stored = λ h v ah av. refl;
  fits = λ h v ah av. tt;
  kept = λ h v ah av. tt;
}

hash_bytes : AreBytes 32 hash
hash_bytes = record { size = refl; all_bytes = omega arith }

version_bytes : AreBytes 16 version
version_bytes = record { size = refl; all_bytes = omega arith }

abbrev calls : List Call
calls =
    read hash version
    ∷ write sample
    ∷ write newer
    ∷ write sample
    ∷ read hash version
    ∷ delete hash version
    ∷ read hash version
    ∷ []

run_refines_example :
    ((run accept_all 1 hash_key to_json from_json calls fresh).0
      ≡ (replay accept_all 1 hash_key to_json from_json calls empty_map).0)
    × Abstracts from_json to_json
        (replay accept_all 1 hash_key to_json from_json calls empty_map).1
        (run accept_all 1 hash_key to_json from_json calls fresh).1
run_refines_example =
    run_refines accept_all 1 hash_key to_json from_json calls empty_map fresh fresh-Abstracts (
      (hash_bytes, version_bytes),
      (
        (record { hash = hash_bytes; version = version_bytes; read_back = refl }, refl),
        (
          (record { hash = hash_bytes; version = version_bytes; read_back = refl }, refl),
          (
            (record { hash = hash_bytes; version = version_bytes; read_back = refl }, refl),
            (
              (hash_bytes, version_bytes),
              ((hash_bytes, version_bytes), ((hash_bytes, version_bytes), tt)),
            ),
          ),
        ),
      ),
    )

valid : validate hash_key sample ≡ ok tt
unfolding validate check_shards note_shard check_all_seen for_each new_scheme bytes_eq
valid = refl

write_record_interrupted_example :
    (name : Text) × ((write_record full_disk 1 hash_key to_json from_json sample fresh).0
      ≡ err (io (key_directory hash ++ name ∷ []) other))
    × Abstracts from_json to_json empty_map
        (write_record full_disk 1 hash_key to_json from_json sample fresh).1
write_record_interrupted_example =
    write_record_interrupted full_disk 1 hash_key to_json from_json empty_map fresh sample
      fresh-Abstracts (record { hash = hash_bytes; version = version_bytes; read_back = refl })
      other valid refl refl
