-- ===== src/Device/Identity/Initialise/Fresh.antt =====
-- The entries of a blank directory after each step of `Device::initialise`.
use distributed_jbod.Common.{
  ℕ, ◌+◌, ◌%◌, ◌^◌, ◌≡◌, refl, sym, ◌∙◌, ap, Bool, false, Option, none, some, List, [], ◌∷◌, ◌++◌,
  ok, Bool-cases, inl, inr, if◌then◌else◌, bytes_eq, bytes_ne_iff,
}
use distributed_jbod.Naming.{Text}
use distributed_jbod.Naming.FileNames.{objects_dir, default_bucket}
use distributed_jbod.Device.{FilePath, IoKind, Entry, dir, file, Disk}
use distributed_jbod.Device.Tree.{Entries, paths_eq, entry_at, put, take_away, create_dir}
use distributed_jbod.Device.Tree.Laws.{entry_at-put, entry_at-take_away, paths_eq_refl, paths_eq→eq}
use distributed_jbod.Device.Checks.{device_identity_file, identity_path}
use distributed_jbod.Device.Store.{
  bucket_path, temporary_name, create_file, fill_file, rename_file, write_file_atomically,
}
use distributed_jbod.Device.Store.Writes.{temporary_of}
use distributed_jbod.Device.Identity.Initialise.{lost_and_found, create_dir_all}
use distributed_jbod.Device.Identity.Initialise.Blank.{IsBlank}

-- A directory that is missing is made, and the rest below it.
create_missing :
    (parent : FilePath) (name : Text) (names : List Text) (disk : Disk)
    → entry_at (parent ++ name ∷ []) disk.entries ≡ none
    → entry_at parent disk.entries ≡ some dir
    → create_dir_all parent (name ∷ names) disk
      ≡ create_dir_all
          (parent ++ name ∷ [])
          names
          (record disk { entries = put (parent ++ name ∷ []) dir disk.entries })
unfolding create_dir_all create_dir
create_missing parent name names disk missing there =
    rw (create_dir_all, missing, create_dir, there) refl

-- What a device that was just initialised holds: its identity, the directories for objects, and what was
-- there.
abbrev pub fresh_entry : Entries → List ℕ → FilePath → Option Entry
fresh_entry before bytes p =
    if paths_eq identity_path p
    then some (file bytes)
    else if paths_eq bucket_path p
    then some dir
    else if paths_eq (objects_dir ∷ []) p
    then some dir
    else entry_at p before

module _ (pid : ℕ) (disk : Disk) where
  -- The directories are made.
  abbrev pub made : Entries
  made = put bucket_path dir (put (objects_dir ∷ []) dir disk.entries)

  abbrev temp_path : FilePath
  temp_path = temporary_of pid disk device_identity_file ∷ []

  abbrev begun : Entries
  begun = put temp_path (file []) made

  abbrev filled : List ℕ → Entries
  filled bytes = put temp_path (file bytes) begun

  abbrev pub written : List ℕ → Entries
  written bytes = put identity_path (file bytes) (take_away temp_path (filled bytes))

  entry_at-made :
      (p : FilePath)
      → entry_at p made ≡ (
          if paths_eq bucket_path p
          then some dir
          else if paths_eq (objects_dir ∷ []) p
          then some dir
          else entry_at p disk.entries)
  entry_at-made p =
      entry_at-put bucket_path dir p (put (objects_dir ∷ []) dir disk.entries)
      ∙ ap (λ (e : Option Entry). if paths_eq bucket_path p then some dir else e)
          (entry_at-put (objects_dir ∷ []) dir p disk.entries)

  temp_of_bucket : paths_eq bucket_path temp_path ≡ false
  unfolding paths_eq bytes_eq
  temp_of_bucket = refl

  temp_of_objects : paths_eq (objects_dir ∷ []) temp_path ≡ false
  unfolding paths_eq bytes_eq
  temp_of_objects = refl

  temp_of_identity : paths_eq identity_path temp_path ≡ false
  unfolding paths_eq bytes_eq
  temp_of_identity = refl

  identity_of_temp : paths_eq temp_path identity_path ≡ false
  unfolding paths_eq bytes_eq
  identity_of_temp = refl

  other_name : bytes_eq (temporary_of pid disk device_identity_file) lost_and_found ≡ false
  unfolding bytes_eq
  other_name = refl

  objects_name : bytes_eq objects_dir lost_and_found ≡ false
  unfolding paths_eq bytes_eq
  objects_name = refl

  identity_name : bytes_eq device_identity_file lost_and_found ≡ false
  unfolding paths_eq bytes_eq
  identity_name = refl

  bucket_of_objects : paths_eq (objects_dir ∷ []) bucket_path ≡ false
  unfolding paths_eq bytes_eq
  bucket_of_objects = refl

  pub root_of_bucket : paths_eq bucket_path [] ≡ false
  unfolding paths_eq bytes_eq
  root_of_bucket = refl

  pub root_of_objects : paths_eq (objects_dir ∷ []) [] ≡ false
  unfolding paths_eq bytes_eq
  root_of_objects = refl

  identity_of_bucket : paths_eq bucket_path identity_path ≡ false
  unfolding paths_eq bytes_eq
  identity_of_bucket = refl

  identity_of_objects : paths_eq (objects_dir ∷ []) identity_path ≡ false
  unfolding paths_eq bytes_eq
  identity_of_objects = refl

  pub root_of_identity : paths_eq identity_path [] ≡ false
  unfolding paths_eq
  root_of_identity = refl

  module _ (blank : IsBlank disk.entries) where
    no_temp : entry_at temp_path disk.entries ≡ none
    no_temp =
        blank.bare (temporary_of pid disk device_identity_file)
          ((bytes_ne_iff (temporary_of pid disk device_identity_file) lost_and_found).0 other_name)

    -- At every path.
    pub entry_at-written :
        (bytes : List ℕ) (p : FilePath)
        → entry_at p (written bytes) ≡ fresh_entry disk.entries bytes p
    entry_at-written bytes p =
        entry_at-put identity_path (file bytes) p (take_away temp_path (filled bytes))
        ∙ ap (λ (e : Option Entry). if paths_eq identity_path p then some (file bytes) else e)
            (entry_at-take_away temp_path p (filled bytes)
              ∙ elim (Bool-cases (paths_eq temp_path p)) [
                | inl here ↦
                    let same = paths_eq→eq temp_path p here in
                    let gone : (if paths_eq bucket_path temp_path
                          then some dir
                          else if paths_eq (objects_dir ∷ []) temp_path
                          then some dir
                          else entry_at temp_path disk.entries)
                        ≡ none =
                      rw (temp_of_bucket, temp_of_objects) no_temp in
                    rw here (sym (rw same at gone))
                | inr there ↦ rw there (
                    entry_at-put temp_path (file bytes) p begun
                    ∙ rw there
                        (entry_at-put temp_path (file []) p made ∙ rw there (entry_at-made p)))
              ])

    pub no_objects : entry_at (objects_dir ∷ []) disk.entries ≡ none
    no_objects = blank.bare objects_dir ((bytes_ne_iff objects_dir lost_and_found).0 objects_name)

    pub no_identity_file : entry_at identity_path disk.entries ≡ none
    no_identity_file =
        blank.bare device_identity_file
          ((bytes_ne_iff device_identity_file lost_and_found).0 identity_name)

    objects_made : entry_at (objects_dir ∷ []) (put (objects_dir ∷ []) dir disk.entries) ≡ some dir
    objects_made =
        entry_at-put (objects_dir ∷ []) dir (objects_dir ∷ []) disk.entries
        ∙ ap (λ (test : Bool). if test then some dir else entry_at (objects_dir ∷ []) disk.entries)
            (paths_eq_refl (objects_dir ∷ []))

    bucket_free : entry_at bucket_path (put (objects_dir ∷ []) dir disk.entries) ≡ none
    bucket_free =
        entry_at-put (objects_dir ∷ []) dir bucket_path disk.entries
        ∙ rw bucket_of_objects blank.no_bucket

    pub created : create_dir_all [] bucket_path disk ≡ (ok tt, record disk { entries = made })
    unfolding create_dir_all
    created =
        create_missing [] objects_dir (default_bucket ∷ []) disk no_objects blank.root
        ∙ create_missing (objects_dir ∷ []) default_bucket []
            (record disk { entries = put (objects_dir ∷ []) dir disk.entries }) bucket_free
            objects_made

    fresh_temp : entry_at temp_path made ≡ none
    fresh_temp = entry_at-made temp_path ∙ rw (temp_of_bucket, temp_of_objects) no_temp

    fresh_root : entry_at [] made ≡ some dir
    fresh_root = entry_at-made [] ∙ rw (root_of_bucket, root_of_objects) blank.root

    fresh_identity : (bytes : List ℕ) → entry_at identity_path (filled bytes) ≡ none
    fresh_identity bytes =
        entry_at-put temp_path (file bytes) identity_path begun
        ∙ rw identity_of_temp (
            entry_at-put temp_path (file []) identity_path made
            ∙ rw identity_of_temp (
                entry_at-made identity_path
                ∙ rw (identity_of_bucket, identity_of_objects) no_identity_file))

    module _ (write_all : List ℕ → Option IoKind) (bytes : List ℕ)
        (accepts : write_all bytes ≡ none) where
      abbrev after : Disk
      after = record { entries = written bytes; counter = (disk.counter + 1) % 2 ^ 64 }

      pub wrote :
          write_file_atomically write_all pid [] device_identity_file bytes
            (record disk { entries = made })
          ≡ (ok tt, after)
      unfolding write_file_atomically temporary_name create_file fill_file rename_file
      wrote =
          rw
            (
              write_file_atomically,
              temporary_name,
              create_file,
              fresh_temp,
              fresh_root,
              fill_file,
              accepts,
              rename_file,
              fresh_identity bytes,
            )
            refl
