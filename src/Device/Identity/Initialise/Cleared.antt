-- ===== src/Device/Identity/Initialise/Cleared.antt =====
-- What `Device::erase` has left of a device, as `Device::initialise` finds it.
use distributed_jbod.Common.{
  ℕ, ◌≡◌, ◌≢◌, ◌⊎◌, refl, sym, ◌∙◌, ap, Bool, true, false, ◌&&◌, Option, none, some, List, [], ◌∷◌,
  Outcome, ok, Bool-cases, Option-cases, inl, inr, if◌then◌else◌, bytes_eq, bytes_eq_refl,
}
use distributed_jbod.Naming.{Text}
use distributed_jbod.Naming.FileNames.{objects_dir}
use distributed_jbod.Device.{FilePath, DeviceError, Entry, dir, file, Disk}
use distributed_jbod.Device.Tree.{paths_eq, entry_at}
use distributed_jbod.Device.Tree.Laws.{paths_eq_refl}
use distributed_jbod.Device.Checks.{DeviceIdentity, device_identity_file, identity_path}
use distributed_jbod.Device.Store.{bucket_path}
use distributed_jbod.Device.Identity.{is_dir, is_below, open_device, erase}
use distributed_jbod.Device.Identity.Erased.{erased, erase_lem}
use distributed_jbod.Device.Identity.Open.{open_device-IsDeviceOf}
use distributed_jbod.Device.Identity.Initialise.{lost_and_found}
use distributed_jbod.Device.Identity.Initialise.Blank.{IsBlank}
use distributed_jbod.Device.Identity.Initialise.Fresh.{fresh_entry}

outside_root : is_below objects_dir [] ≡ false
unfolding is_below
outside_root = refl

below_itself : is_below objects_dir (objects_dir ∷ []) ≡ true
unfolding is_below
below_itself = bytes_eq_refl objects_dir

bucket_below : is_below objects_dir bucket_path ≡ true
unfolding is_below
bucket_below = bytes_eq_refl objects_dir

root_of_identity : paths_eq identity_path [] ≡ false
unfolding paths_eq
root_of_identity = refl

bucket_of_identity : paths_eq identity_path bucket_path ≡ false
unfolding paths_eq bytes_eq
bucket_of_identity = refl

objects_of_identity : paths_eq identity_path (objects_dir ∷ []) ≡ false
unfolding paths_eq bytes_eq
objects_of_identity = refl

none_twice : (a b : Bool) → Path (Option Entry) (if a then none else if b then none else none) none
none_twice true b = refl
none_twice false true = refl
none_twice false false = refl

module _ (from_json : List ℕ → Option DeviceIdentity) (disk : Disk) (i : DeviceIdentity)
    (opens : open_device from_json none disk ≡ (ok i, disk)) where
  abbrev pub kept : Bool → FilePath → Option Entry
  kept has_objects p =
      if paths_eq identity_path p
      then none
      else if has_objects && is_below objects_dir p
      then none
      else entry_at p disk.entries

  there : entry_at [] disk.entries ≡ some dir
  there =
      (open_device-IsDeviceOf from_json none disk i
        (ap (λ (r : Outcome DeviceError DeviceIdentity × Disk). r.0) opens)).root

  pub wiped :
      (p : FilePath)
      → entry_at p (erased from_json disk).entries
        ≡ kept (is_dir (entry_at (objects_dir ∷ []) disk.entries)) p
  wiped p = (erase_lem from_json disk i none p opens).2

  pub erases : erase from_json disk ≡ (ok tt, erased from_json disk)
  erases = (erase_lem from_json disk i none [] opens).0

  pub root_kept : entry_at [] (erased from_json disk).entries ≡ some dir
  root_kept = wiped [] ∙ stays (is_dir (entry_at (objects_dir ∷ []) disk.entries))
    where
      stays : (has_objects : Bool) → kept has_objects [] ≡ some dir
      stays true = rw (root_of_identity, outside_root) there
      stays false = rw root_of_identity there

  module _ (objects : entry_at (objects_dir ∷ []) disk.entries ≡ some dir) where
    cleared : (p : FilePath) → entry_at p (erased from_json disk).entries ≡ kept true p
    cleared p = wiped p ∙ ap (λ e. kept (is_dir e) p) objects

    -- Of the names in the root, the erased device has kept `lost+found` at most.
    name_gone :
        (name : Text)
        → name ≢ lost_and_found
        → (entry_at (name ∷ []) disk.entries ≢ none
            → (name ≡ lost_and_found) ⊎ (name ≡ device_identity_file) ⊎ (name ≡ objects_dir))
        → kept true (name ∷ []) ≡ none
    name_gone name apart known = elim (Option-cases (entry_at (name ∷ []) disk.entries)) [
      | inl absent ↦
          rw absent
            (none_twice (paths_eq identity_path (name ∷ [])) (is_below objects_dir (name ∷ [])))
      | inr (entry, found) ↦
          elim (known
            (λ e. (let wrong : Path (Option Entry) (some entry) none = sym found ∙ e in cc))) [
              | inl same ↦ absurd (apart same)
              | inr (inl same) ↦ rw (same, paths_eq_refl identity_path)
              | inr (inr same) ↦ rw (same, objects_of_identity, below_itself)
            ]
    ]

    pub erased-IsBlank :
        ((name : Text)
          → entry_at (name ∷ []) disk.entries ≢ none
          → (name ≡ lost_and_found) ⊎ (name ≡ device_identity_file) ⊎ (name ≡ objects_dir))
        → IsBlank (erased from_json disk).entries
    erased-IsBlank known = record {
      root = root_kept;
      bare = λ name apart. cleared (name ∷ []) ∙ name_gone name apart (known name);
      no_bucket = cleared bucket_path ∙ rw (bucket_of_identity, bucket_below);
    }

    -- A wiped device that is initialised again holds nothing of what it held in the directory of objects.
    pub fresh_of_wiped :
        (bytes : List ℕ) (p : FilePath)
        → fresh_entry (erased from_json disk).entries bytes p ≡ (
            if paths_eq identity_path p
            then some (file bytes)
            else if paths_eq bucket_path p
            then some dir
            else if paths_eq (objects_dir ∷ []) p
            then some dir
            else if is_below objects_dir p
            then none
            else entry_at p disk.entries)
    fresh_of_wiped bytes p = elim (Bool-cases (paths_eq identity_path p)) [
      | inl here ↦ rw here
      | inr away ↦ rw (away, cleared p) (rw away)
    ]
