-- ===== src/Device/Store/Abstract.antt =====
-- What a device promises of its records: a map from key hashes and versions to records.
use distributed_jbod.Common.{
  ℕ, ◌≡◌, Bool, not, ◌&&◌, Option, none, some, List, [], ◌∷◌, ◌++◌, Outcome, ok, err, panic, ltb,
  if◌then◌else◌, bytes_eq,
}
use distributed_jbod.ShardFile.{KeyHash, VersionId}
use distributed_jbod.Naming.{Text, directory_components}
use distributed_jbod.Naming.RoundTrip.{AreBytes}
use distributed_jbod.Naming.FileNames.{record_file_name}
use distributed_jbod.Record.{Bytes, MetadataRecord, Checked, same_body, validate}
use distributed_jbod.Record.Equality.{record_eq}
use distributed_jbod.Device.{
  FilePath, DeviceError, io, not_found, record_error, record_exists, Entry, dir, file, Disk,
}
use distributed_jbod.Device.Tree.{entry_at}
use distributed_jbod.Device.Store.{bucket_path, key_directory}

abbrev pub Records : Type 0
Records = KeyHash → VersionId → Option MetadataRecord

abbrev pub record_path : KeyHash → VersionId → FilePath
record_path hash version = key_directory hash ++ record_file_name version ∷ []

-- The two levels of partitions above the directory of a key.
abbrev pub first_path : KeyHash → FilePath
first_path hash = bucket_path ++ (directory_components hash).0 ∷ []

abbrev pub second_path : KeyHash → FilePath
second_path hash = bucket_path ++ (directory_components hash).0 ∷ (directory_components hash).1 ∷ []

-- The map with another value at one place.
unfoldable pub update : Records → KeyHash → VersionId → Option MetadataRecord → Records
update f hash version value h v = if bytes_eq hash h && bytes_eq version v then value else f h v

-- Whether a record may take the place of another.
abbrev pub supersedes : MetadataRecord → MetadataRecord → Bool
supersedes r old = same_body old r && ltb old.revision r.revision

module _ (hash_key : Bytes → KeyHash) where
  abbrev pub settle :
      Records → MetadataRecord → Option MetadataRecord → Outcome DeviceError (Unit {0}) × Records
  settle f r none = (ok tt, update f r.key_hash r.version (some r))
  settle f r (some old) =
      if record_eq old r
      then (ok tt, f)
      else if not (supersedes r old)
      then (err (record_exists r.key_hash r.version), f)
      else (ok tt, update f r.key_hash r.version (some r))

  abbrev pub settle_valid :
      Records → MetadataRecord → Checked (Unit {0}) → Outcome DeviceError (Unit {0}) × Records
  settle_valid f r (ok u) = settle f r (f r.key_hash r.version)
  settle_valid f r (err e) = (err (record_error (key_directory r.key_hash) e), f)
  settle_valid f r panic = (panic, f)

  -- Storing a record.
  unfoldable pub store : Records → MetadataRecord → Outcome DeviceError (Unit {0}) × Records
  store f r = settle_valid f r (validate hash_key r)

-- Reading one.
abbrev pub found_or :
    KeyHash → VersionId → Option MetadataRecord → Outcome DeviceError MetadataRecord
found_or hash version none = err (io (record_path hash version) not_found)
found_or hash version (some r) = ok r

abbrev pub entry_of : (MetadataRecord → List ℕ) → Option MetadataRecord → Option Entry
entry_of to_json none = none
entry_of to_json (some r) = some (file (to_json r))

abbrev pub HasNoFile : Option Entry → Type 0
HasNoFile none = Unit {0}
HasNoFile (some dir) = Unit {0}
HasNoFile (some (file content)) = ⊥

abbrev pub HasNoDirectory : Option Entry → Type 0
HasNoDirectory none = Unit {0}
HasNoDirectory (some dir) = ⊥
HasNoDirectory (some (file content)) = Unit {0}

abbrev pub IsKept : Option MetadataRecord → Option Entry → Type 0
IsKept none entry = Unit {0}
IsKept (some r) entry = entry ≡ some dir

module _ (from_json : List ℕ → Checked MetadataRecord) (to_json : MetadataRecord → List ℕ) where
  -- A record that stands where it says.
  abbrev pub Fits : KeyHash → VersionId → Option MetadataRecord → Type 0
  Fits hash version none = Unit {0}
  Fits hash version (some r) =
      (r.key_hash ≡ hash) × (r.version ≡ version) × (from_json (to_json r) ≡ ok r)

  -- The disk holds the records of the map, in JSON, at their places, and the directories above them.
  pub record Abstracts (f : Records) (disk : Disk) : Type 0 where
    pub bucket : entry_at bucket_path disk.entries ≡ some dir
    pub first_level : (hash : KeyHash) → HasNoFile (entry_at (first_path hash) disk.entries)
    pub second_level : (hash : KeyHash) → HasNoFile (entry_at (second_path hash) disk.entries)
    pub key_level : (hash : KeyHash) → HasNoFile (entry_at (key_directory hash) disk.entries)
    pub plain :
        (hash : KeyHash) (name : Text)
        → HasNoDirectory (entry_at (key_directory hash ++ name ∷ []) disk.entries)
    pub stored :
        (hash : KeyHash) (version : VersionId)
        → AreBytes 32 hash
        → AreBytes 16 version
        → entry_at (record_path hash version) disk.entries ≡ entry_of to_json (f hash version)
    pub fits :
        (hash : KeyHash) (version : VersionId)
        → AreBytes 32 hash
        → AreBytes 16 version
        → Fits hash version (f hash version)
    pub kept :
        (hash : KeyHash) (version : VersionId)
        → AreBytes 32 hash
        → AreBytes 16 version
        → IsKept (f hash version) (entry_at (key_directory hash) disk.entries)
