-- ===== src/Device/Identity/Erased.antt =====
-- What `Device::erase` leaves.

use distributed_jbod.Common.{
  ℕ, ◌≡◌, refl, sym, ◌∙◌, ap, Bool, true, false, not, ◌&&◌, Option, none, some, List, [], ◌∷◌,
  Outcome, ok, err, Bool-cases, inl, inr, if◌then◌else◌, bytes_eq, bytes_eq_refl,
}
use distributed_jbod.Common.Find.{filter}
use distributed_jbod.Naming.FileNames.{objects_dir}
use distributed_jbod.Device.{
  FilePath, DeviceError, not_initialised, foreign_directory, Entry, dir, file, Disk, continue_with,
  ◌>>◌,
}
use distributed_jbod.Device.Checks.{DeviceIdentity, identity_path}
use distributed_jbod.Device.Tree.{Entries, paths_eq, entry_at, take_away, remove_file}
use distributed_jbod.Device.Tree.Laws.{paths_eq→eq, paths_eq_refl, entry_at-take_away}
use distributed_jbod.Device.Identity.{
  is_dir, no_identity, is_below, remove_objects, open_device, erase,
}
use distributed_jbod.Device.Identity.Open.{open_device-IsDeviceOf, open_missing}

abbrev not_below : FilePath × Entry → Bool
not_below e = not (is_below objects_dir e.0)

-- The entries without the directory of objects, if it is one.
abbrev pub cleared : Entries → Entries
cleared entries =
    if is_dir (entry_at (objects_dir ∷ []) entries) then filter not_below entries else entries

not_itself : (b : Bool) → ¬ (b ≡ not b)
not_itself true e = cc
not_itself false e = cc

-- A path below the directory of objects is not one outside it.
apart :
    (p q : FilePath) (b : Bool)
    → is_below objects_dir q ≡ b
    → is_below objects_dir p ≡ not b
    → paths_eq q p ≡ false
apart p q b at_q at_p = elim (Bool-cases (paths_eq q p)) [
  | inl same ↦
      absurd (not_itself b (sym at_q ∙ ap (is_below objects_dir) (paths_eq→eq q p same) ∙ at_p))
  | inr other ↦ other
]

entry_at-kept :
    (p : FilePath) (entries : Entries)
    → is_below objects_dir p ≡ false
    → entry_at p (filter not_below entries) ≡ entry_at p entries
unfolding entry_at
entry_at-kept p [] outside = refl
entry_at-kept p ((q, entry) ∷ entries) outside = elim (Bool-cases (is_below objects_dir q)) [
  | inl below ↦ rw (below, apart p q true below outside) (entry_at-kept p entries outside)
  | inr above ↦ elim (Bool-cases (paths_eq q p)) [
    | inl same ↦ rw (above, entry_at, same) refl
    | inr other ↦ rw (above, entry_at, other) (entry_at-kept p entries outside)
  ]
]

entry_at-gone :
    (p : FilePath) (entries : Entries)
    → is_below objects_dir p ≡ true
    → entry_at p (filter not_below entries) ≡ none
unfolding entry_at
entry_at-gone p [] below = refl
entry_at-gone p ((q, entry) ∷ entries) below = elim (Bool-cases (is_below objects_dir q)) [
  | inl under ↦ rw under (entry_at-gone p entries below)
  | inr above ↦ rw (above, entry_at, apart p q false above below) (entry_at-gone p entries below)
]

remove_objects_lem :
    (disk : Disk) → remove_objects disk ≡ (ok tt, record disk { entries = cleared disk.entries })
unfolding remove_objects
remove_objects_lem disk = elim (Bool-cases (is_dir (entry_at (objects_dir ∷ []) disk.entries))) [
  | inl here ↦ rw (remove_objects, here) refl
  | inr absent ↦ rw (remove_objects, absent) refl
]

module _ (from_json : List ℕ → Option DeviceIdentity) (disk : Disk) where
  -- The entries that an erased device has left.
  abbrev left : Entries
  left = take_away identity_path (cleared disk.entries)

  abbrev pub erased : Disk
  erased = record disk { entries = left }

  cleared-outside :
      (p : FilePath)
      → is_below objects_dir p ≡ false
      → entry_at p (cleared disk.entries) ≡ entry_at p disk.entries
  cleared-outside p outside =
      elim (Bool-cases (is_dir (entry_at (objects_dir ∷ []) disk.entries))) [
        | inl here ↦ rw here (entry_at-kept p disk.entries outside)
        | inr absent ↦ rw absent refl
      ]

  cleared-objects : is_dir (entry_at (objects_dir ∷ []) (cleared disk.entries)) ≡ false
  unfolding is_below bytes_eq
  cleared-objects = elim (Bool-cases (is_dir (entry_at (objects_dir ∷ []) disk.entries))) [
    | inl here ↦
        rw (here, entry_at-gone (objects_dir ∷ []) disk.entries (bytes_eq_refl objects_dir)) refl
    | inr absent ↦ rw absent absent
  ]

  removed_identity :
      (content : List ℕ)
      → entry_at identity_path (cleared disk.entries) ≡ some (file content)
      → remove_file identity_path (record disk { entries = cleared disk.entries }) ≡ (ok tt, erased)
  unfolding remove_file
  removed_identity content stored = rw (remove_file, stored) refl

  outside_identity : is_below objects_dir identity_path ≡ false
  unfolding is_below bytes_eq
  outside_identity = refl

  erase_runs :
      (i : DeviceIdentity)
      → open_device from_json none disk ≡ (ok i, disk)
      → erase from_json disk ≡ (ok tt, erased)
  unfolding erase
  erase_runs i e =
      let d =
        open_device-IsDeviceOf from_json none disk i
          (ap (λ (r : Outcome DeviceError DeviceIdentity × Disk). r.0) e) in
      ap (continue_with (λ j. remove_objects >> remove_file identity_path)) e
      ∙ ap (continue_with (λ u. remove_file identity_path)) (remove_objects_lem disk)
      ∙ removed_identity d.content (cleared-outside identity_path outside_identity ∙ d.stored)

  -- What the directory of objects, if it is one, holds is gone.
  entry_at-cleared :
      (p : FilePath)
      → entry_at p (cleared disk.entries) ≡ (
          if is_dir (entry_at (objects_dir ∷ []) disk.entries) && is_below objects_dir p
          then none
          else entry_at p disk.entries)
  entry_at-cleared p = elim (Bool-cases (is_dir (entry_at (objects_dir ∷ []) disk.entries))) [
    | inl here ↦ elim (Bool-cases (is_below objects_dir p)) [
      | inl below ↦ rw (here, below) (entry_at-gone p disk.entries below)
      | inr outside ↦ rw (here, outside) (entry_at-kept p disk.entries outside)
    ]
    | inr absent ↦ rw absent refl
  ]

  entry_at-erased :
      (p : FilePath)
      → entry_at p erased.entries
        ≡ (if paths_eq identity_path p then none else entry_at p (cleared disk.entries))
  entry_at-erased p = entry_at-take_away identity_path p (cleared disk.entries)

  outside_root : is_below objects_dir [] ≡ false
  unfolding is_below
  outside_root = refl

  other_than_root : paths_eq identity_path [] ≡ false
  unfolding paths_eq
  other_than_root = refl

  other_than_objects : paths_eq identity_path (objects_dir ∷ []) ≡ false
  unfolding paths_eq bytes_eq
  other_than_objects = refl

  erased-no_identity : no_identity erased ≡ not_initialised []
  erased-no_identity =
      let gone : is_dir (entry_at (objects_dir ∷ []) erased.entries) ≡ false =
        ap is_dir (
          entry_at-erased (objects_dir ∷ [])
          ∙ ap
              (λ (test : Bool).
                if test then none else entry_at (objects_dir ∷ []) (cleared disk.entries))
              other_than_objects)
        ∙ cleared-objects in
      ap (λ (test : Bool). if test then foreign_directory [] else not_initialised []) gone

  abbrev answer_of : DeviceError → Outcome DeviceError DeviceIdentity × Disk
  answer_of failure = (err failure, erased)

  erased_opens_not :
      (expected : Option ℕ)
      → entry_at [] disk.entries ≡ some dir
      → open_device from_json expected erased ≡ (err (not_initialised []), erased)
  erased_opens_not expected root =
      let at_root : entry_at [] erased.entries ≡ some dir =
        entry_at-erased []
        ∙ ap (λ (test : Bool). if test then none else entry_at [] (cleared disk.entries))
            other_than_root
        ∙ cleared-outside [] outside_root
        ∙ root in
      let missing : entry_at identity_path erased.entries ≡ none =
        entry_at-erased identity_path
        ∙ ap (λ (test : Bool). if test then none else entry_at identity_path (cleared disk.entries))
            (paths_eq_refl identity_path) in
      open_missing from_json expected erased at_root missing
      ∙ ap (λ (failure : DeviceError). answer_of failure) erased-no_identity

  -- A device that can be opened is erased without an error, and opening what is left fails with
  -- `NotInitialised`, whatever cluster is expected. At every path, the entry is gone if it is the identity
  -- file or stands at or below the directory of objects, if that is a directory, and as it was if not.
  pub erase_lem :
      (i : DeviceIdentity) (expected : Option ℕ) (p : FilePath)
      → open_device from_json none disk ≡ (ok i, disk)
      → (erase from_json disk ≡ (ok tt, erased))
        × (open_device from_json expected erased ≡ (err (not_initialised []), erased))
        × (entry_at p erased.entries ≡ (
            if paths_eq identity_path p
            then none
            else if is_dir (entry_at (objects_dir ∷ []) disk.entries) && is_below objects_dir p
            then none
            else entry_at p disk.entries))
  erase_lem i expected p e =
      let d =
        open_device-IsDeviceOf from_json none disk i
          (ap (λ (r : Outcome DeviceError DeviceIdentity × Disk). r.0) e) in
      (
        erase_runs i e,
        erased_opens_not expected d.root,
        entry_at-erased p
            ∙ ap (λ (entry : Option Entry). if paths_eq identity_path p then none else entry)
                (entry_at-cleared p),
      )
