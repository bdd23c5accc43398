-- ===== src/Device/Identity.antt =====
-- The identity file of device.rs: `Device::open`, `Device::check_present` and `Device::erase`. The reader of
-- its JSON is a parameter, a UUID is a number, and the directory of the device itself is the empty path.
pub mod Open
pub mod Erased
pub mod Initialise
pub mod Samples
mod Runs
use distributed_jbod.Common.{
  ℕ, ◌≡◌, ◌≢◌, ◌↔◌, refl, sym, ◌∙◌, ap, Bool, true, false, not, ◌&&◌, Option, none, some, List, [],
  ◌∷◌, ◌++◌, Outcome, ok, err, panic, fail_if, ◌==◌, ==_iff, Bool-cases, inl, inr, if◌then◌else◌,
  bytes_eq, bytes_eq_iff,
}
use distributed_jbod.Common.Find.{filter}
use distributed_jbod.Naming.{Text}
use distributed_jbod.Naming.FileNames.{objects_dir}
use distributed_jbod.Cluster.{DeviceId}
use distributed_jbod.Record.{system_name}
use distributed_jbod.Device.{
  FilePath, not_found, io, unavailable, IdentityFault, not_json, other_system, unsupported_format,
  DeviceError, not_a_directory, not_initialised, foreign_directory, bad_identity, wrong_cluster,
  Entry, dir, file, Disk, Io, done, fail, ◌>>=◌, ◌>>◌,
}
use distributed_jbod.Device.Tree.{
  Entries, paths_eq, entry_at, take_away, change, remove_file, read_file,
}
use distributed_jbod.Device.Checks.{DeviceIdentity, identity_path, judge_identity}
use distributed_jbod.Device.Store.{lift}

-- `root.join(OBJECTS_DIR).is_dir()`.
abbrev pub is_dir : Option Entry → Bool
is_dir (some dir) = true
is_dir (some (file content)) = false
is_dir none = false

-- Without an identity file: a directory of something else, or none that was ever a device.
abbrev pub no_identity : Disk → DeviceError
no_identity disk =
    if is_dir (entry_at (objects_dir ∷ []) disk.entries)
    then foreign_directory []
    else not_initialised []

abbrev pub identity_answer :
    Outcome DeviceError (List ℕ) × Disk → Outcome DeviceError (List ℕ) × Disk
identity_answer (err (io p not_found), disk) = (err (no_identity disk), disk)
identity_answer result = result

-- `fs::remove_dir_all(&objects)`: the directory and everything below it.
unfoldable pub is_below : Text → FilePath → Bool
is_below name [] = false
is_below name (first ∷ path) = bytes_eq first name

unfoldable pub remove_objects : Io (Unit {0})
remove_objects disk =
    if is_dir (entry_at (objects_dir ∷ []) disk.entries)
    then change (filter (λ (e : FilePath × Entry). not (is_below objects_dir e.0))) disk
    else done tt disk

module _ (from_json : List ℕ → Option DeviceIdentity) where
  -- `Device::open`.
  unfoldable pub open_device : Option ℕ → Io DeviceIdentity
  open_device expected disk = elim (entry_at [] disk.entries) [
    | none ↦ fail (io [] not_found) disk
    | some (file content) ↦ fail (not_a_directory []) disk
    | some dir ↦
        ((λ d. identity_answer (read_file identity_path d)) >>= λ content.
        lift (judge_identity expected (from_json content)))
          disk
  ]

  -- `Device::erase`.
  unfoldable pub erase : Io (Unit {0})
  erase = open_device none >>= λ i. remove_objects >> remove_file identity_path

-- `Device::check_present`.
unfoldable pub check_present : Io (Unit {0})
check_present disk = elim (entry_at identity_path disk.entries) [
  | none ↦ fail unavailable disk
  | some entry ↦ done tt disk
]
