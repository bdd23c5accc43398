-- ===== src/Device/Identity/Runs.antt =====
-- A device that is opened, erased and wiped, and a directory that becomes one.
use distributed_jbod.Common.{
  ◌≡◌, ◌≢◌, ◌↔◌, ◌⊎◌, inl, inr, refl, sym, false, ◌++◌, Bool-cases, bytes_eq→eq, bytes_ne_iff, none,
  some, List, [], ◌∷◌, ok, err, bytes_eq, if◌then◌else◌,
}
use distributed_jbod.Naming.FileNames.{objects_dir}
use distributed_jbod.Device.{FilePath, dir, file, Disk, not_initialised, directory_not_empty}
use distributed_jbod.Common.Seen.{IsIn}
use distributed_jbod.Naming.{Text}
use distributed_jbod.Device.Store.{bucket_path}
use distributed_jbod.Device.Tree.{paths_eq, entry_at, read_file}
use distributed_jbod.Device.Checks.{
  device_identity_file, identity_path, check_cluster, judge_identity,
}
use distributed_jbod.Device.Identity.{is_below, open_device}
use distributed_jbod.Device.Identity.Open.{IsDeviceOf, open_device_iff}
use distributed_jbod.Device.Identity.Erased.{erased}
use distributed_jbod.Device.Identity.Initialise.{
  lost_and_found, sorted_names, initialise, wipe_and_initialise,
}
use distributed_jbod.Device.Identity.Initialise.Fresh.{fresh_entry}
use distributed_jbod.Device.Identity.Initialise.Opens.{initialise_lem}
use distributed_jbod.Device.Identity.Initialise.Wiped.{
  wipe_and_initialise_lem, wipe_and_initialise_stray,
}
use distributed_jbod.Device.Identity.Samples.{
  sample_identity, parse, device_disk, new_root, new_root-IsBlank, newer_identity, parse_newer,
  accepted, to_json,
}

opens : open_device parse none device_disk ≡ (ok sample_identity, device_disk)
unfolding open_device read_file entry_at paths_eq bytes_eq judge_identity check_cluster
opens = refl

open_device_iff_example :
    (open_device parse (some 3) device_disk ≡ (ok sample_identity, device_disk))
    ↔ IsDeviceOf parse (some 3) device_disk sample_identity
open_device_iff_example = open_device_iff parse (some 3) device_disk sample_identity

initialise_lem_example :
    (after : Disk) × (initialise accepted 7 to_json 9 1 4 new_root ≡ (ok newer_identity, after))
    × (open_device parse_newer (some 4) after ≡ (ok newer_identity, after))
    × ((p : FilePath) → entry_at p after.entries ≡ fresh_entry new_root.entries (4 ∷ []) p)
initialise_lem_example =
    initialise_lem accepted 7 to_json 9 1 4 new_root new_root-IsBlank refl parse_newer refl

opens_newer : open_device parse_newer none device_disk ≡ (ok sample_identity, device_disk)
unfolding open_device read_file entry_at paths_eq bytes_eq judge_identity check_cluster
opens_newer = refl

has_objects : entry_at (objects_dir ∷ []) device_disk.entries ≡ some dir
unfolding entry_at paths_eq bytes_eq
has_objects = refl

own_only :
    (name : Text)
    → entry_at (name ∷ []) device_disk.entries ≢ none
    → (name ≡ lost_and_found) ⊎ (name ≡ device_identity_file) ⊎ (name ≡ objects_dir)
unfolding entry_at paths_eq
own_only name there = elim (Bool-cases (bytes_eq device_identity_file name)) [
  | inl same ↦ inr (inl (sym (bytes_eq→eq device_identity_file name same)))
  | inr other ↦ elim (Bool-cases (bytes_eq objects_dir name)) [
    | inl same ↦ inr (inr (sym (bytes_eq→eq objects_dir name same)))
    | inr apart ↦ absurd (there (rw (other, apart) refl))
  ]
]

wipe_and_initialise_lem_example :
    (after : Disk) × (wipe_and_initialise accepted 7 to_json parse_newer 9 1 4 device_disk
      ≡ (ok newer_identity, after))
    × (open_device parse_newer (some 4) after ≡ (ok newer_identity, after))
    × ((p : FilePath)
        → entry_at p after.entries ≡ (
            if paths_eq identity_path p
            then some (file (4 ∷ []))
            else if paths_eq bucket_path p
            then some dir
            else if paths_eq (objects_dir ∷ []) p
            then some dir
            else if is_below objects_dir p
            then none
            else entry_at p device_disk.entries))
wipe_and_initialise_lem_example =
    wipe_and_initialise_lem accepted 7 to_json parse_newer 9 1 4 device_disk sample_identity
      opens_newer has_objects own_only refl refl

-- Someone's file stands in the device's directory.
abbrev note : Text
note = b'n' ∷ []

abbrev littered_disk : Disk
littered_disk = record device_disk { entries = device_disk.entries ++ (note ∷ [], file []) ∷ [] }

opens_littered : open_device parse none littered_disk ≡ (ok sample_identity, littered_disk)
unfolding open_device read_file entry_at paths_eq bytes_eq judge_identity check_cluster
opens_littered = refl

has_note : entry_at (note ∷ []) littered_disk.entries ≡ some (file [])
unfolding entry_at paths_eq bytes_eq
has_note = refl

not_lost : bytes_eq note lost_and_found ≡ false
unfolding bytes_eq
not_lost = refl

not_identity : bytes_eq note device_identity_file ≡ false
unfolding bytes_eq
not_identity = refl

not_objects : bytes_eq note objects_dir ≡ false
unfolding bytes_eq
not_objects = refl

wipe_and_initialise_stray_example :
    (found : List Text) × IsIn note found
    × (wipe_and_initialise accepted 7 to_json parse 9 1 4 littered_disk
        ≡ (err (directory_not_empty [] (sorted_names found)), erased parse littered_disk))
    × (open_device parse (some 3) (erased parse littered_disk)
        ≡ (err (not_initialised []), erased parse littered_disk))
wipe_and_initialise_stray_example =
    wipe_and_initialise_stray accepted 7 to_json parse 9 1 4 littered_disk sample_identity
      opens_littered note (file []) (some 3) has_note
      ((bytes_ne_iff note lost_and_found).0 not_lost)
      ((bytes_ne_iff note device_identity_file).0 not_identity)
      ((bytes_ne_iff note objects_dir).0 not_objects)
