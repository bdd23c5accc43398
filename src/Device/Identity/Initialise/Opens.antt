-- ===== src/Device/Identity/Initialise/Opens.antt =====
-- `Device::initialise` of a blank directory makes a device that `Device::open` accepts.
use distributed_jbod.Common.{
  ℕ, ◌+◌, ◌%◌, ◌^◌, ◌≡◌, refl, ◌∙◌, ap, Option, none, some, List, [], ok, inr,
}
use distributed_jbod.Cluster.{DeviceId}
use distributed_jbod.Device.{FilePath, IoKind, dir, Disk, Io, done, continue_with, ◌>>◌}
use distributed_jbod.Common.Find.{filter}
use distributed_jbod.Device.Tree.{entry_at, children_of, read_dir}
use distributed_jbod.Device.Tree.Laws.{paths_eq_refl}
use distributed_jbod.Device.Checks.{DeviceIdentity, device_identity_file, identity_path}
use distributed_jbod.Device.Store.{lift, bucket_path, write_file_atomically}
use distributed_jbod.Device.Identity.{open_device}
use distributed_jbod.Device.Identity.Open.{open_device_iff}
use distributed_jbod.Device.Identity.Initialise.{
  is_stray, at_path, refuse_found, identity_of, make_device, initialise,
}
use distributed_jbod.Device.Identity.Initialise.Blank.{IsBlank, IsBlank-strays}
use distributed_jbod.Device.Identity.Initialise.Fresh.{
  fresh_entry, written, root_of_bucket, root_of_objects, root_of_identity, entry_at-written,
  created, wrote,
}

-- With the directory there, the names in it decide.
pub initialise_reads :
    (write_all : List ℕ → Option IoKind) (pid : ℕ) (to_json : DeviceIdentity → List ℕ)
    (id : DeviceId) (created_at cluster : ℕ) (disk : Disk)
    → entry_at [] disk.entries ≡ some dir
    → initialise write_all pid to_json id created_at cluster disk
      ≡ continue_with
          (λ (u : Unit {0}). make_device write_all pid to_json (identity_of id created_at cluster))
          (refuse_found (filter is_stray (children_of [] disk.entries)), disk)
unfolding initialise read_dir
initialise_reads write_all pid to_json id created_at cluster disk root =
    rw (initialise, root)
      (ap
        (continue_with (λ names.
          lift (refuse_found (filter is_stray names))
          >> make_device write_all pid to_json (identity_of id created_at cluster)))
        listed)
  where
    listed : read_dir [] disk ≡ (ok (children_of [] disk.entries), disk)
    listed = rw (read_dir, root) refl

module _ (write_all : List ℕ → Option IoKind) (pid : ℕ) (to_json : DeviceIdentity → List ℕ)
    (id : DeviceId) (created_at cluster : ℕ) (disk : Disk) (blank : IsBlank disk.entries)
    (accepts : write_all (to_json (identity_of id created_at cluster)) ≡ none) where
  abbrev new_identity : DeviceIdentity
  new_identity = identity_of id created_at cluster

  abbrev new_disk : Disk
  new_disk = record {
    entries = written pid disk (to_json new_identity);
    counter = (disk.counter + 1) % 2 ^ 64;
  }

  make_device_runs :
      make_device write_all pid to_json new_identity disk ≡ (ok new_identity, new_disk)
  unfolding make_device
  make_device_runs =
      ap (λ r. continue_with (λ u. rest_of_device) (at_path bucket_path r)) (created pid disk blank)
      ∙ ap (continue_with (λ u. done new_identity))
          (wrote pid disk blank write_all (to_json new_identity) accepts)
    where
      rest_of_device : Io DeviceIdentity
      rest_of_device =
          write_file_atomically write_all pid [] device_identity_file (to_json new_identity)
          >> done new_identity

  passed : refuse_found (filter is_stray (children_of [] disk.entries)) ≡ ok tt
  unfolding refuse_found
  passed = ap refuse_found (IsBlank-strays disk.entries blank)

  initialise_runs :
      initialise write_all pid to_json id created_at cluster disk ≡ (ok new_identity, new_disk)
  initialise_runs =
      initialise_reads write_all pid to_json id created_at cluster disk blank.root
      ∙ ap (λ r. continue_with (λ u. make_device write_all pid to_json new_identity) (r, disk))
          passed
      ∙ make_device_runs

  -- A blank directory becomes a device: `initialise` returns the new identity, `open` then accepts it as a
  -- device of the cluster with that very identity, and the directory holds the identity file, the
  -- directories for objects, and what it held before, at every path, no temporary file included. The disk
  -- accepts the file, and its JSON is read back.
  pub initialise_lem :
      (from_json : List ℕ → Option DeviceIdentity)
      → from_json (to_json new_identity) ≡ some new_identity
      → (after : Disk) × (initialise write_all pid to_json id created_at cluster disk
          ≡ (ok new_identity, after))
        × (open_device from_json (some cluster) after ≡ (ok new_identity, after))
        × ((p : FilePath)
            → entry_at p after.entries ≡ fresh_entry disk.entries (to_json new_identity) p)
  initialise_lem from_json back =
      let at = entry_at-written pid disk blank (to_json new_identity) in
      (
        new_disk,
        initialise_runs,
        (open_device_iff from_json (some cluster) new_disk new_identity).1 (record {
          content = to_json new_identity;
          root =
              at []
              ∙ rw (root_of_identity pid disk, root_of_bucket pid disk, root_of_objects pid disk)
                  blank.root;
          stored = at identity_path ∙ rw (paths_eq_refl identity_path);
          parsed = back;
          accepted = record { named = refl; format = refl; member = inr refl };
        }),
        at,
      )
