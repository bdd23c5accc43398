-- ===== src/Device.antt =====
-- crates/djbod-core/src/device.rs: a storage device, which is a directory tree, the operations on its
-- records, and its identity file. The tree is that of `Device/Tree`; the JSON forms are parameters, and the
-- errors of operations that are not modelled are left out.
pub mod Tree
pub mod Store
pub mod Checks
pub mod Identity
mod Runs
use distributed_jbod.Common.{
  ℕ, ◌+◌, Bool, true, false, Option, none, some, List, [], ◌∷◌, Outcome, ok, err, panic,
}
use distributed_jbod.Naming.{Text}
use distributed_jbod.Cluster.{DeviceId}
use distributed_jbod.Record.{RecordError}
use distributed_jbod.ShardFile.{KeyHash, VersionId}

-- A path below the device's root, by its components.
abbrev pub FilePath : Type 0
FilePath = List Text

-- The kinds of `std::io::Error` that the code tells apart.
pub data IoKind : Type 0 where
  not_found : IoKind
  already_exists : IoKind
  not_empty : IoKind
  other : IoKind

-- The reasons of `BadIdentity`; the first stands for the message of the JSON reader.
pub data IdentityFault : Type 0 where
  not_json : IdentityFault
  other_system : Text → IdentityFault
  unsupported_format : ℕ → IdentityFault

pub data DeviceError : Type 0 where
  io : FilePath → IoKind → DeviceError
  unavailable : DeviceError
  record_error : FilePath → RecordError → DeviceError
  record_exists : KeyHash → VersionId → DeviceError
  not_a_directory : FilePath → DeviceError
  directory_not_empty : FilePath → (found : List Text) → DeviceError
  not_initialised : FilePath → DeviceError
  foreign_directory : FilePath → DeviceError
  bad_identity : FilePath → IdentityFault → DeviceError
  wrong_cluster : FilePath → (device : DeviceId) → (expected actual : ℕ) → DeviceError

pub data Entry : Type 0 where
  dir : Entry
  file : (content : List ℕ) → Entry

-- The tree below the root, and the process's counter of temporary names.
pub record Disk : Type 0 where
  pub entries : List (FilePath × Entry)
  pub counter : ℕ

-- An operation returns its result and the disk that it leaves, after an error too.
abbrev pub Io : Type 0 → Type 0
Io A = Disk → Outcome DeviceError A × Disk

abbrev pub done : {A : Type 0} → A → Io A
done a disk = (ok a, disk)

abbrev pub fail : {A : Type 0} → DeviceError → Io A
fail e disk = (err e, disk)

-- The rest of a chain, after a step.
abbrev pub continue_with :
    {A B : Type 0} → (A → Io B) → Outcome DeviceError A × Disk → Outcome DeviceError B × Disk
continue_with rest (ok a, disk) = rest a disk
continue_with rest (err e, disk) = (err e, disk)
continue_with rest (panic, disk) = (panic, disk)

infixl 5 ◌>>=◌ ◌>>◌
abbrev pub ◌>>=◌ : {A B : Type 0} → Io A → (A → Io B) → Io B
(step >>= rest) disk = continue_with rest (step disk)

abbrev pub ◌>>◌ : {B : Type 0} → Io (Unit {0}) → Io B → Io B
step >> rest = step >>= λ _. rest
