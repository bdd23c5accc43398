-- ===== src/Device/Identity/Samples.antt =====
-- Devices for the runs.
use distributed_jbod.Common.{
  ℕ, refl, sym, ◌==◌, bytes_ne_iff, Option, none, some, List, [], ◌∷◌, bytes_eq, if◌then◌else◌,
}
use distributed_jbod.Record.{system_name}
use distributed_jbod.Naming.FileNames.{objects_dir, default_bucket}
use distributed_jbod.Device.{IoKind, dir, file, Disk}
use distributed_jbod.Device.Tree.{paths_eq, entry_at}
use distributed_jbod.Device.Checks.{DeviceIdentity, identity_path}
use distributed_jbod.Device.Identity.Initialise.{lost_and_found, identity_of}
use distributed_jbod.Device.Identity.Initialise.Blank.{IsBlank}

abbrev pub sample_identity : DeviceIdentity
sample_identity = record {
  system = system_name;
  notice = [];
  format_version = 1;
  device_id = 5;
  cluster_id = 3;
  created = 0;
}

abbrev pub parse : List ℕ → Option DeviceIdentity
parse [] = none
parse (first ∷ rest) = some sample_identity

abbrev pub device_disk : Disk
device_disk = record {
  entries =
      ([], dir)
      ∷ (identity_path, file (1 ∷ []))
      ∷ (objects_dir ∷ [], dir)
      ∷ (objects_dir ∷ default_bucket ∷ [], dir)
      ∷ [];
  counter = 0;
}

-- An empty directory of a file system that was just made.
abbrev pub new_root : Disk
new_root = record { entries = ([], dir) ∷ (lost_and_found ∷ [], dir) ∷ []; counter = 8 }

pub new_root-IsBlank : IsBlank new_root.entries
unfolding entry_at paths_eq bytes_eq
new_root-IsBlank = record {
  root = refl;
  bare = λ name apart. rw ((bytes_ne_iff lost_and_found name).1 (λ e. apart (sym e))) refl;
  no_bucket = refl;
}

abbrev pub newer_identity : DeviceIdentity
newer_identity = identity_of 9 1 4

abbrev pub parse_newer : List ℕ → Option DeviceIdentity
parse_newer [] = none
parse_newer (first ∷ rest) = if first == 1 then some sample_identity else some newer_identity

abbrev pub accepted : List ℕ → Option IoKind
accepted bytes = none

abbrev pub to_json : DeviceIdentity → List ℕ
to_json i = i.cluster_id ∷ []
