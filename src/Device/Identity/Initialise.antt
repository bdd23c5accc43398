-- ===== src/Device/Identity/Initialise.antt =====
-- `Device::initialise` and `Device::wipe_and_initialise` of device.rs: an empty directory becomes a device.
-- The new device's id, the time of its creation and the JSON form of an identity are parameters.
pub mod Notice
pub mod Blank
pub mod Fresh
pub mod Opens
pub mod Cleared
pub mod Wiped
use distributed_jbod.Common.{
  ℕ, Bool, true, false, not, Option, none, some, List, [], ◌∷◌, ◌++◌, Outcome, ok, err, panic,
  if◌then◌else◌, bytes_eq,
}
use distributed_jbod.Common.Find.{filter}
use distributed_jbod.Coordinator.Copies.{bytes_ltb}
use distributed_jbod.Naming.{Text}
use distributed_jbod.Cluster.{DeviceId}
use distributed_jbod.Record.{system_name}
use distributed_jbod.Device.{
  FilePath, IoKind, not_found, DeviceError, io, not_a_directory, directory_not_empty, Entry, dir,
  file, Disk, Io, done, fail, ◌>>=◌, ◌>>◌,
}
use distributed_jbod.Device.Tree.{entry_at, create_dir, read_dir}
use distributed_jbod.Device.Checks.{DeviceIdentity, device_identity_file, device_format_version}
use distributed_jbod.Device.Store.{lift, bucket_path, write_file_atomically}
use distributed_jbod.Device.Identity.{is_dir, erase}
use distributed_jbod.Device.Identity.Initialise.Notice.{notice}

abbrev pub lost_and_found : Text
lost_and_found = b'l' ∷ b'o' ∷ b's' ∷ b't' ∷ b'+' ∷ b'f' ∷ b'o' ∷ b'u' ∷ b'n' ∷ b'd' ∷ []

-- `found.sort()`, by the bytes of the names.
unfoldable pub insert_name : Text → List Text → List Text
insert_name name [] = name ∷ []
insert_name name (first ∷ names) =
    if bytes_ltb first name then first ∷ insert_name name names else name ∷ first ∷ names

unfoldable pub sorted_names : List Text → List Text
sorted_names [] = []
sorted_names (name ∷ names) = insert_name name (sorted_names names)

abbrev pub is_stray : Text → Bool
is_stray name = not (bytes_eq name lost_and_found)

-- The directory must hold nothing but `lost+found`.
unfoldable pub refuse_found : List Text → Outcome DeviceError (Unit {0})
refuse_found [] = ok tt
refuse_found (name ∷ names) = err (directory_not_empty [] (sorted_names (name ∷ names)))

-- `fs::create_dir_all` of the names, one below the other.
unfoldable pub create_dir_all : FilePath → List Text → Io (Unit {0})
create_dir_all parent [] disk = done tt disk
create_dir_all parent (name ∷ names) disk =
    if is_dir (entry_at (parent ++ name ∷ []) disk.entries)
    then create_dir_all (parent ++ name ∷ []) names disk
    else (create_dir parent name >> create_dir_all (parent ++ name ∷ []) names) disk

-- `map_err(|e| io_error(path, e))`.
abbrev pub at_path :
    FilePath → Outcome DeviceError (Unit {0}) × Disk → Outcome DeviceError (Unit {0}) × Disk
at_path p (err (io q kind), disk) = (err (io p kind), disk)
at_path p result = result

-- The identity of a new device.
abbrev pub identity_of : DeviceId → (created cluster : ℕ) → DeviceIdentity
identity_of id created cluster = record {
  system = system_name;
  notice = notice;
  format_version = device_format_version;
  device_id = id;
  cluster_id = cluster;
  created = created;
}

module _ (write_all : List ℕ → Option IoKind) (pid : ℕ) (to_json : DeviceIdentity → List ℕ) where
  -- From the creation of the directories on.
  unfoldable pub make_device : DeviceIdentity → Io DeviceIdentity
  make_device identity = do
    λ disk. at_path bucket_path (create_dir_all [] bucket_path disk)
    write_file_atomically write_all pid [] device_identity_file (to_json identity)
    done identity

  -- `Device::initialise`, with the new id and the time.
  unfoldable pub initialise : DeviceId → (created cluster : ℕ) → Io DeviceIdentity
  initialise id created cluster disk = elim (entry_at [] disk.entries) [
    | none ↦ fail (io [] not_found) disk
    | some (file content) ↦ fail (not_a_directory []) disk
    | some dir ↦
        (read_dir [] >>= λ names.
        lift (refuse_found (filter is_stray names)) >> make_device (identity_of id created cluster))
          disk
  ]

  -- `Device::wipe_and_initialise`.
  unfoldable pub wipe_and_initialise :
      (List ℕ → Option DeviceIdentity) → DeviceId → (created cluster : ℕ) → Io DeviceIdentity
  wipe_and_initialise from_json id created cluster =
      erase from_json >> initialise id created cluster
