-- ===== src/Device/Store.antt =====
-- The operations of a device on its records: `create_key_directory`, `write_record`, `read_record`,
-- `read_records` and `delete_version` of device.rs, with `write_file_atomically`.
pub mod Abstract
pub mod Paths
pub mod Steps
pub mod Directories
pub mod Updates
pub mod Keys
pub mod Writes
pub mod Deletes
pub mod Refine
use distributed_jbod.Common.{
  ℕ, ◌+◌, ◌*◌, ◌%◌, ◌^◌, Bool, true, false, not, ◌&&◌, Option, none, some, List, [], ◌∷◌, ◌++◌, map,
  Outcome, ok, err, panic, map_err, ltb, ◌==◌, if◌then◌else◌, bytes_eq,
}
use distributed_jbod.Common.Digits.{digits}
use distributed_jbod.ShardFile.{KeyHash, VersionId}
use distributed_jbod.Coordinator.Copies.{bytes_ltb}
use distributed_jbod.Naming.{Text, to_text}
use distributed_jbod.Naming.FileNames.{
  objects_dir, default_bucket, shard_suffix, ends_with, starts_with, object_directory,
  record_file_name, parse_record_file_name,
}
use distributed_jbod.Naming.{directory_components}
use distributed_jbod.Record.{
  Bytes, MetadataRecord, RecordError, Checked, key_hash_mismatch, same_body, validate,
}
use distributed_jbod.Record.Equality.{record_eq}
use distributed_jbod.Device.{
  FilePath, IoKind, not_found, already_exists, not_empty, other, DeviceError, io, unavailable,
  record_error, record_exists, Entry, dir, file, Disk, Io, done, fail, ◌>>=◌, ◌>>◌,
}
use distributed_jbod.Device.Tree.{
  entry_at, put, take_away, change, create_dir, remove_file, remove_dir, read_file, read_dir,
  exists,
}

-- A result that does not depend on the disk.
abbrev pub lift : {A : Type 0} → Outcome DeviceError A → Io A
lift result disk = (result, disk)

abbrev pub bucket_path : FilePath
bucket_path = objects_dir ∷ default_bucket ∷ []

abbrev pub key_directory : KeyHash → FilePath
key_directory hash = object_directory default_bucket hash

-- `fs::create_dir` with the answers that `create_key_directory` makes of its errors.
abbrev pub make_answer :
    FilePath → Outcome DeviceError (Unit {0}) × Disk → Outcome DeviceError (Unit {0}) × Disk
make_answer p (ok u, disk) = (ok tt, disk)
make_answer p (err (io q already_exists), disk) = (ok tt, disk)
make_answer p (err (io q not_found), disk) = (err unavailable, disk)
make_answer p (err (io q not_empty), disk) = (err (io p not_empty), disk)
make_answer p (err (io q other), disk) = (err (io p other), disk)
make_answer p (err e, disk) = (err e, disk)
make_answer p (panic, disk) = (panic, disk)

unfoldable pub make_component : FilePath → Text → Io (Unit {0})
make_component parent name disk = make_answer (parent ++ name ∷ []) (create_dir parent name disk)

-- The loop over the three components.
unfoldable pub create_key_directory : KeyHash → Io (Unit {0})
create_key_directory hash =
    let (first, second, full) = directory_components hash in
    make_component bucket_path first
    >> (make_component (bucket_path ++ first ∷ []) second
        >> make_component (bucket_path ++ first ∷ second ∷ []) full)

-- A missing bucket is the device being unavailable.
unfoldable pub bucket_directory : Io (Unit {0})
bucket_directory disk = elim (entry_at bucket_path disk.entries) [
  | some entry ↦ done tt disk
  | none ↦ fail unavailable disk
]

-- `Display` of a `u64`, without leading zeros.
abbrev pub drop_zeros : List ℕ → List ℕ
drop_zeros [] = []
drop_zeros (d ∷ []) = d ∷ []
drop_zeros (d ∷ e ∷ ds) = if d == 0 then drop_zeros (e ∷ ds) else d ∷ e ∷ ds

unfoldable pub show_u64 : ℕ → Text
show_u64 n = map (λ d. d + b'0') (drop_zeros (digits 10 20 n))

-- ".tmp".
abbrev pub temporary_suffix : Text
temporary_suffix = b'.' ∷ b't' ∷ b'm' ∷ b'p' ∷ []

unfoldable pub remove_if_present : FilePath → Io (Unit {0})
remove_if_present p disk = elim (entry_at p disk.entries) [
  | none ↦ done tt disk
  | some entry ↦ remove_file p disk
]

-- `fs::remove_dir` of the key directory, which may not be empty.
abbrev pub removal_answer :
    Outcome DeviceError (Unit {0}) × Disk → Outcome DeviceError (Unit {0}) × Disk
removal_answer (err (io q not_empty), disk) = (ok tt, disk)
removal_answer result = result

-- The loop of `delete_version` over the names in the directory.
unfoldable pub remove_shards : FilePath → VersionId → List Text → Io (Unit {0})
remove_shards parent version [] disk = done tt disk
remove_shards parent version (name ∷ names) disk =
    if starts_with (to_text version ++ b'.' ∷ []) name && ends_with shard_suffix name
    then (remove_if_present (parent ++ name ∷ []) >> remove_shards parent version names) disk
    else remove_shards parent version names disk

-- The record first, then the shards, then the directory if it is empty.
unfoldable pub delete_present : KeyHash → VersionId → Io (Unit {0})
delete_present hash version = do
  remove_if_present (key_directory hash ++ record_file_name version ∷ [])
  names ← read_dir (key_directory hash)
  remove_shards (key_directory hash) version names
  λ disk. removal_answer (remove_dir (key_directory hash) disk)

unfoldable pub delete_version : KeyHash → VersionId → Io (Unit {0})
delete_version hash version = do
  there ← exists (key_directory hash)
  if there then delete_present hash version else done tt

module _ (write_all : List ℕ → Option IoKind) (pid : ℕ) where
  -- `temporary_path`: the counter goes up at every call.
  unfoldable pub temporary_name : Text → Io Text
  temporary_name name disk = (
    ok (name ++ (b'.' ∷ (show_u64 pid ++ (b'-' ∷ (show_u64 disk.counter ++ temporary_suffix))))),
    record disk { counter = (disk.counter + 1) % 2 ^ 64 },
  )

  -- `File::create`.
  unfoldable pub create_file : FilePath → Text → Io (Unit {0})
  create_file parent name disk = elim (entry_at (parent ++ name ∷ []) disk.entries) [
    | some dir ↦ fail (io (parent ++ name ∷ []) other) disk
    | some (file content) ↦ change (put (parent ++ name ∷ []) (file [])) disk
    | none ↦ elim (entry_at parent disk.entries) [
      | some dir ↦ change (put (parent ++ name ∷ []) (file [])) disk
      | some (file content) ↦ fail (io (parent ++ name ∷ []) other) disk
      | none ↦ fail (io (parent ++ name ∷ []) not_found) disk
    ]
  ]

  -- `write_all` and `sync_all`; after an error the file is removed.
  unfoldable pub fill_file : FilePath → List ℕ → Io (Unit {0})
  fill_file p bytes disk = elim (write_all bytes) [
    | none ↦ change (put p (file bytes)) disk
    | some kind ↦ (err (io p kind), record disk { entries = take_away p disk.entries })
  ]

  -- `fs::rename` of a file with these bytes over what is no directory; after an error the temporary file
  -- is removed.
  unfoldable pub rename_file : FilePath → FilePath → List ℕ → Io (Unit {0})
  rename_file from to bytes disk = elim (entry_at to disk.entries) [
    | some dir ↦ (err (io to other), record disk { entries = take_away from disk.entries })
    | some (file content) ↦ change (λ entries. put to (file bytes) (take_away from entries)) disk
    | none ↦ change (λ entries. put to (file bytes) (take_away from entries)) disk
  ]

  unfoldable pub write_file_atomically : FilePath → Text → List ℕ → Io (Unit {0})
  write_file_atomically parent name bytes = do
    temp ← temporary_name name
    create_file parent temp
    fill_file (parent ++ temp ∷ []) bytes
    rename_file (parent ++ temp ∷ []) (parent ++ name ∷ []) bytes

module _ (from_json : List ℕ → Checked MetadataRecord) where
  abbrev pub parse_record :
      FilePath → KeyHash → Checked MetadataRecord → Outcome DeviceError MetadataRecord
  parse_record p hash (ok r) =
      if not (bytes_eq r.key_hash hash)
      then err (record_error p (key_hash_mismatch r.key_hash hash))
      else ok r
  parse_record p hash (err e) = err (record_error p e)
  parse_record p hash panic = panic

  unfoldable pub read_record : KeyHash → VersionId → Io MetadataRecord
  read_record hash version = do
    content ← read_file (key_directory hash ++ record_file_name version ∷ [])
    lift (
        parse_record (key_directory hash ++ record_file_name version ∷ []) hash (from_json content))

  -- The versions that the names in a directory give, in the order of a sort.
  unfoldable pub insert_version : VersionId → List VersionId → List VersionId
  insert_version v [] = v ∷ []
  insert_version v (w ∷ versions) =
      if bytes_ltb w v then w ∷ insert_version v versions else v ∷ w ∷ versions

  unfoldable pub versions_named : List Text → List VersionId
  versions_named [] = []
  versions_named (name ∷ names) = elim (parse_record_file_name name) [
    | none ↦ versions_named names
    | some version ↦ insert_version version (versions_named names)
  ]

  unfoldable pub read_all : KeyHash → List VersionId → Io (List MetadataRecord)
  read_all hash [] disk = done [] disk
  read_all hash (version ∷ versions) disk =
      (read_record hash version >>= λ r. read_all hash versions >>= λ rest. done (r ∷ rest)) disk

  unfoldable pub read_records : KeyHash → Io (List MetadataRecord)
  read_records hash disk = elim (entry_at (key_directory hash) disk.entries) [
    | none ↦ (bucket_directory >> done []) disk
    | some entry ↦
        (read_dir (key_directory hash) >>= λ names. read_all hash (versions_named names)) disk
  ]

module _ (write_all : List ℕ → Option IoKind) (pid : ℕ) (hash_key : Bytes → KeyHash)
    (to_json : MetadataRecord → List ℕ) (from_json : List ℕ → Checked MetadataRecord) where
  -- What is written over an existing record: nothing if it is the same, and only a higher revision of the
  -- same body.
  unfoldable pub replace_record : MetadataRecord → MetadataRecord → Io (Unit {0})
  replace_record r existing =
      if record_eq existing r
      then done tt
      else if not (same_body existing r && ltb existing.revision r.revision)
      then fail (record_exists r.key_hash r.version)
      else write_file_atomically write_all pid (key_directory r.key_hash)
          (record_file_name r.version) (to_json r)

  unfoldable pub write_record : MetadataRecord → Io (Unit {0})
  write_record r = do
    lift (map_err (record_error (key_directory r.key_hash)) (validate hash_key r))
    create_key_directory r.key_hash
    there ← exists (key_directory r.key_hash ++ record_file_name r.version ∷ [])
    if there
        then (read_record from_json r.key_hash r.version >>= replace_record r)
        else write_file_atomically write_all pid (key_directory r.key_hash)
            (record_file_name r.version) (to_json r)
