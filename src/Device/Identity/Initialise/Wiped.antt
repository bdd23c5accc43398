-- ===== src/Device/Identity/Initialise/Wiped.antt =====
-- `Device::wipe_and_initialise` of a device, with and without other entries in its directory.
use distributed_jbod.Common.{
  ℕ, ◌≡◌, ◌≢◌, ◌⊎◌, refl, sym, ◌∙◌, ap, Bool, true, false, Option, none, some, List, [], ◌∷◌,
  Outcome, ok, err, if◌then◌else◌, bytes_ne_iff,
}
use distributed_jbod.Common.Seen.{IsIn}
use distributed_jbod.Common.Find.{filter}
use distributed_jbod.Common.Members.{filter-IsIn}
use distributed_jbod.Cluster.{DeviceId}
use distributed_jbod.Naming.{Text}
use distributed_jbod.Naming.FileNames.{objects_dir}
use distributed_jbod.Device.{
  FilePath, IoKind, DeviceError, directory_not_empty, not_initialised, Entry, dir, file, Disk,
  continue_with,
}
use distributed_jbod.Device.Tree.{paths_eq, entry_at, children_of}
use distributed_jbod.Device.Checks.{DeviceIdentity, device_identity_file, identity_path}
use distributed_jbod.Device.Store.{bucket_path}
use distributed_jbod.Device.Identity.{is_dir, is_below, open_device}
use distributed_jbod.Device.Identity.Erased.{erased, erase_lem}
use distributed_jbod.Device.Identity.Initialise.{
  lost_and_found, is_stray, sorted_names, refuse_found, identity_of, make_device, initialise,
  wipe_and_initialise,
}
use distributed_jbod.Device.Identity.Initialise.Blank.{entry-children_of}
use distributed_jbod.Device.Identity.Initialise.Opens.{initialise_lem, initialise_reads}
use distributed_jbod.Device.Identity.Initialise.Cleared.{
  wiped, erases, root_kept, erased-IsBlank, fresh_of_wiped, kept,
}

module _ (write_all : List ℕ → Option IoKind) (pid : ℕ) (to_json : DeviceIdentity → List ℕ)
    (from_json : List ℕ → Option DeviceIdentity) (id : DeviceId) (created_at cluster : ℕ)
    (disk : Disk) (i : DeviceIdentity)
    (opens : open_device from_json none disk ≡ (ok i, disk)) where
  abbrev wipe : Outcome DeviceError DeviceIdentity × Disk
  wipe = wipe_and_initialise write_all pid to_json from_json id created_at cluster disk

  wipe_runs : wipe ≡ initialise write_all pid to_json id created_at cluster (erased from_json disk)
  unfolding wipe_and_initialise
  wipe_runs =
      ap (continue_with (λ u. initialise write_all pid to_json id created_at cluster))
        (erases from_json disk i opens)

  -- A device in whose directory nothing but `lost+found` stands beside what is its own is wiped and is a
  -- device again: it gets the new identity, with which `open` accepts it as a device of the new cluster,
  -- and of what stood in the directory of objects nothing is left, while anything outside it is as it was.
  -- The disk accepts the identity file, and its JSON is read back.
  pub wipe_and_initialise_lem :
      entry_at (objects_dir ∷ []) disk.entries ≡ some dir
      → ((name : Text)
          → entry_at (name ∷ []) disk.entries ≢ none
          → (name ≡ lost_and_found) ⊎ (name ≡ device_identity_file) ⊎ (name ≡ objects_dir))
      → write_all (to_json (identity_of id created_at cluster)) ≡ none
      → from_json (to_json (identity_of id created_at cluster))
        ≡ some (identity_of id created_at cluster)
      → (after : Disk) × (wipe ≡ (ok (identity_of id created_at cluster), after))
        × (open_device from_json (some cluster) after
            ≡ (ok (identity_of id created_at cluster), after))
        × ((p : FilePath)
            → entry_at p after.entries ≡ (
                if paths_eq identity_path p
                then some (file (to_json (identity_of id created_at cluster)))
                else if paths_eq bucket_path p
                then some dir
                else if paths_eq (objects_dir ∷ []) p
                then some dir
                else if is_below objects_dir p
                then none
                else entry_at p disk.entries))
  wipe_and_initialise_lem objects known accepts back =
      let (after, runs, opened, holds) =
        initialise_lem write_all pid to_json id created_at cluster (erased from_json disk)
          (erased-IsBlank from_json disk i opens objects known) accepts from_json back in
      (
        after,
        wipe_runs ∙ runs,
        opened,
        λ p.
            holds p
            ∙ fresh_of_wiped from_json disk i opens objects
                (to_json (identity_of id created_at cluster)) p,
      )

  abbrev strays : List Text
  strays = filter is_stray (children_of [] (erased from_json disk).entries)

  in_strays :
      (name : Text) (entry : Entry)
      → entry_at (name ∷ []) disk.entries ≡ some entry
      → name ≢ lost_and_found
      → name ≢ device_identity_file
      → name ≢ objects_dir
      → IsIn name strays
  unfolding is_below paths_eq
  in_strays name entry found not_lost not_identity not_objects =
      let here : entry_at (name ∷ []) (erased from_json disk).entries ≡ some entry =
        wiped from_json disk i opens (name ∷ [])
        ∙ stays (is_dir (entry_at (objects_dir ∷ []) disk.entries)) in
      filter-IsIn is_stray name (children_of [] (erased from_json disk).entries)
        (entry-children_of name entry (erased from_json disk).entries here)
        (rw ((bytes_ne_iff name lost_and_found).1 not_lost))
    where
      stays :
          (has_objects : Bool) → kept from_json disk i opens has_objects (name ∷ []) ≡ some entry
      stays true =
          rw
            (
              (bytes_ne_iff device_identity_file name).1 (λ e. not_identity (sym e)),
              (bytes_ne_iff name objects_dir).1 not_objects,
            )
            found
      stays false =
          rw ((bytes_ne_iff device_identity_file name).1 (λ e. not_identity (sym e))) found

  refused :
      (names : List Text) (name : Text)
      → IsIn name names
      → refuse_found names ≡ err (directory_not_empty [] (sorted_names names))
  unfolding refuse_found
  refused [] name i = absurd i
  refused (first ∷ names) name i = refl

  -- With anything else in its directory a device is lost: if a name stands there that is not `lost+found`,
  -- the identity file or the directory of objects, then `wipe_and_initialise` erases the device and then
  -- fails with `NotEmpty`, naming what it found, this name among it. What it leaves is no device:
  -- opening it fails with `NotInitialised`, whatever cluster is expected.
  pub wipe_and_initialise_stray :
      (name : Text) (entry : Entry) (expected : Option ℕ)
      → entry_at (name ∷ []) disk.entries ≡ some entry
      → name ≢ lost_and_found
      → name ≢ device_identity_file
      → name ≢ objects_dir
      → (found : List Text) × IsIn name found
        × (wipe ≡ (err (directory_not_empty [] (sorted_names found)), erased from_json disk))
        × (open_device from_json expected (erased from_json disk)
            ≡ (err (not_initialised []), erased from_json disk))
  wipe_and_initialise_stray name entry expected found not_lost not_identity not_objects =
      let stray = in_strays name entry found not_lost not_identity not_objects in
      (
        strays,
        stray,
        wipe_runs
            ∙ initialise_reads write_all pid to_json id created_at cluster (erased from_json disk)
                (root_kept from_json disk i opens)
            ∙ ap
                (λ r.
                  continue_with
                    (λ (u : Unit {0}).
                      make_device write_all pid to_json (identity_of id created_at cluster))
                    (r, erased from_json disk))
                (refused strays name stray),
        (erase_lem from_json disk i expected [] opens).1,
      )
