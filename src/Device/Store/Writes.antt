-- ===== src/Device/Store/Writes.antt =====
-- `write_file_atomically` of a record on a disk that holds a map of records.
use distributed_jbod.Common.{
  ℕ, ◌+◌, ◌%◌, ◌^◌, ◌≡◌, ◌<◌, refl, ◌∙◌, false, Option, none, some, List, [], ◌∷◌, ◌++◌, ok, err,
  length, arith,
}
use distributed_jbod.ShardFile.{KeyHash, VersionId}
use distributed_jbod.Naming.{Text}
use distributed_jbod.Naming.RoundTrip.{AreBytes}
use distributed_jbod.Naming.FileNames.{record_file_name}
use distributed_jbod.Naming.FileNames.Suffixes.{last, last-append}
use distributed_jbod.Record.{MetadataRecord, Checked}
use distributed_jbod.Device.{FilePath, IoKind, io, Entry, dir, file, Disk}
use distributed_jbod.Device.Tree.{Entries, paths_eq, entry_at, put, take_away}
use distributed_jbod.Device.Store.{
  key_directory, show_u64, temporary_suffix, temporary_name, create_file, fill_file, rename_file,
  write_file_atomically,
}
use distributed_jbod.Device.Store.Abstract.{
  Records, record_path, update, HasNoDirectory, Fits, Abstracts,
}
use distributed_jbod.Device.Store.Paths.{length-file_path, length-key_directory, other_file-ne}
use distributed_jbod.Device.Store.Steps.{Agrees, Abstracts-agree, put-Agrees, take_away-Agrees}
use distributed_jbod.Device.Store.Updates.{write-Abstracts}

-- A temporary name does not end like a record's.
last-temporary :
    (name rest : Text) (counter : Text)
    → last (name ++ (b'.' ∷ (rest ++ (b'-' ∷ (counter ++ temporary_suffix))))) ≡ b'p'
last-temporary name rest counter =
    last-append name b'.' (rest ++ (b'-' ∷ (counter ++ temporary_suffix)))
    ∙ last-append (b'.' ∷ rest) b'-' (counter ++ temporary_suffix)
    ∙ last-append (b'-' ∷ counter) b'.' (b't' ∷ b'm' ∷ b'p' ∷ [])

abbrev pub temporary_of : ℕ → Disk → Text → Text
temporary_of pid disk name =
    name ++ (b'.' ∷ (show_u64 pid ++ (b'-' ∷ (show_u64 disk.counter ++ temporary_suffix))))

module _ (write_all : List ℕ → Option IoKind) (pid : ℕ)
    (from_json : List ℕ → Checked MetadataRecord) (to_json : MetadataRecord → List ℕ) (f : Records)
    (disk : Disk) (hash : KeyHash) (v : VersionId) (a : Abstracts from_json to_json f disk)
    (there : entry_at (key_directory hash) disk.entries ≡ some dir) where
  abbrev temp_path : FilePath
  temp_path = key_directory hash ++ temporary_of pid disk (record_file_name v) ∷ []

  abbrev next_counter : ℕ
  next_counter = (disk.counter + 1) % 2 ^ 64

  temp_path-ne : (g : KeyHash) (w : VersionId) → paths_eq temp_path (record_path g w) ≡ false
  temp_path-ne g w = other_file-ne hash (temporary_of pid disk (record_file_name v)) g w (
      let end = last-temporary (record_file_name v) (show_u64 pid) (show_u64 disk.counter) in
      omega arith)

  -- The temporary file is made.
  created :
      create_file write_all pid
        (key_directory hash)
        (temporary_of pid disk (record_file_name v))
        (record { entries = disk.entries; counter = next_counter })
      ≡ (ok tt, record { entries = put temp_path (file []) disk.entries; counter = next_counter })
  unfolding create_file
  created =
      outcome (entry_at temp_path disk.entries) refl
        (a.plain hash (temporary_of pid disk (record_file_name v)))
    where
      outcome :
          (e : Option Entry)
          → entry_at temp_path disk.entries ≡ e
          → HasNoDirectory e
          → create_file write_all pid
              (key_directory hash)
              (temporary_of pid disk (record_file_name v))
              (record { entries = disk.entries; counter = next_counter })
            ≡ (
              ok tt,
              record { entries = put temp_path (file []) disk.entries; counter = next_counter },
            )
      outcome none e h = rw (create_file, e, there)
      outcome (some dir) e h = absurd h
      outcome (some (file content)) e h = rw (create_file, e)

  -- The counter is no matter.
  recounted :
      (c : ℕ) → Abstracts from_json to_json f (record { entries = disk.entries; counter = c })
  recounted c = record {
    bucket = a.bucket;
    first_level = a.first_level;
    second_level = a.second_level;
    key_level = a.key_level;
    plain = a.plain;
    stored = a.stored;
    fits = a.fits;
    kept = a.kept;
  }

  -- The tree while the temporary file stands, and after it is taken away.
  abbrev begun : Entries
  begun = put temp_path (file []) disk.entries

  abbrev filled : List ℕ → Entries
  filled bytes = put temp_path (file bytes) begun

  long : length temp_path ≡ 6
  long = length-file_path hash (temporary_of pid disk (record_file_name v))

  begun-Agrees : Agrees disk.entries begun
  begun-Agrees = put-Agrees temp_path [] disk.entries long temp_path-ne

  begun-Abstracts :
      Abstracts from_json to_json f (record { entries = begun; counter = next_counter })
  begun-Abstracts =
      Abstracts-agree from_json to_json f next_counter disk.entries begun begun-Agrees
        (recounted next_counter)

  filled-Abstracts :
      (bytes : List ℕ)
      → Abstracts from_json to_json f (record { entries = filled bytes; counter = next_counter })
  filled-Abstracts bytes =
      Abstracts-agree from_json to_json f next_counter begun (filled bytes)
        (put-Agrees temp_path bytes begun long temp_path-ne) begun-Abstracts

  emptied-Abstracts :
      (m : Entries)
      → Abstracts from_json to_json f (record { entries = m; counter = next_counter })
      → Abstracts from_json to_json f
          (record { entries = take_away temp_path m; counter = next_counter })
  emptied-Abstracts m b =
      Abstracts-agree from_json to_json f next_counter m (take_away temp_path m)
        (take_away-Agrees temp_path m long temp_path-ne) b

  -- What the tree is after the write.
  abbrev written : List ℕ → Entries
  written bytes = put (record_path hash v) (file bytes) (take_away temp_path (filled bytes))

  renamed :
      (bytes : List ℕ)
      → rename_file write_all pid temp_path
          (record_path hash v)
          bytes
          (record { entries = filled bytes; counter = next_counter })
        ≡ (ok tt, record { entries = written bytes; counter = next_counter })
  unfolding rename_file
  renamed bytes =
      outcome (entry_at (record_path hash v) (filled bytes)) refl
        ((filled-Abstracts bytes).plain hash (record_file_name v))
    where
      outcome :
          (e : Option Entry)
          → entry_at (record_path hash v) (filled bytes) ≡ e
          → HasNoDirectory e
          → rename_file write_all pid temp_path
              (record_path hash v)
              bytes
              (record { entries = filled bytes; counter = next_counter })
            ≡ (ok tt, record { entries = written bytes; counter = next_counter })
      outcome none e h = rw (rename_file, e)
      outcome (some dir) e h = absurd h
      outcome (some (file content)) e h = rw (rename_file, e)

  write_accepted :
      (bytes : List ℕ)
      → write_all bytes ≡ none
      → write_file_atomically write_all pid (key_directory hash) (record_file_name v) bytes disk
        ≡ (ok tt, record { entries = written bytes; counter = next_counter })
  unfolding write_file_atomically temporary_name fill_file
  write_accepted bytes accepts =
      rw (write_file_atomically, temporary_name, created, fill_file, accepts) (renamed bytes)

  write_refused :
      (bytes : List ℕ) (kind : IoKind)
      → write_all bytes ≡ some kind
      → write_file_atomically write_all pid (key_directory hash) (record_file_name v) bytes disk ≡ (
        err (io temp_path kind),
        record { entries = take_away temp_path begun; counter = next_counter },
      )
  unfolding write_file_atomically temporary_name fill_file
  write_refused bytes kind refuses =
      rw (write_file_atomically, temporary_name, created, fill_file, refuses)

  refused-Abstracts :
      Abstracts from_json to_json f
        (record { entries = take_away temp_path begun; counter = next_counter })
  refused-Abstracts = emptied-Abstracts begun begun-Abstracts

  written-Abstracts :
      (r : MetadataRecord)
      → AreBytes 32 hash
      → AreBytes 16 v
      → Fits from_json to_json hash v (some r)
      → Abstracts from_json to_json
          (update f hash v (some r))
          (record { entries = written (to_json r); counter = next_counter })
  written-Abstracts r ah av fit =
      let bytes = to_json r in
      let gone = take_away-Agrees temp_path (filled bytes) long temp_path-ne in
      let grown = put-Agrees temp_path bytes begun long temp_path-ne in
      let low : length (key_directory hash) < 6 = omega (arith, length-key_directory hash) in
      write-Abstracts from_json to_json f next_counter (take_away temp_path (filled bytes))
        (emptied-Abstracts (filled bytes) (filled-Abstracts bytes)) hash v ah av r fit
        (gone.short (key_directory hash) low
          ∙ grown.short (key_directory hash) low
          ∙ begun-Agrees.short (key_directory hash) low
          ∙ there)

  -- A record is written, and nothing else changes.
  pub write_file_atomically_lem :
      (r : MetadataRecord)
      → AreBytes 32 hash
      → AreBytes 16 v
      → Fits from_json to_json hash v (some r)
      → write_all (to_json r) ≡ none
      → (after : Disk) × (write_file_atomically write_all pid
            (key_directory hash)
            (record_file_name v)
            (to_json r)
            disk
          ≡ (ok tt, after))
        × Abstracts from_json to_json (update f hash v (some r)) after
  write_file_atomically_lem r ah av fit accepts = (
    record { entries = written (to_json r); counter = next_counter },
    write_accepted (to_json r) accepts,
    written-Abstracts r ah av fit,
  )

  -- A write that fails leaves the records as they were.
  pub write_file_interrupted :
      (bytes : List ℕ) (kind : IoKind)
      → write_all bytes ≡ some kind
      → (after : Disk) × (write_file_atomically write_all pid
            (key_directory hash)
            (record_file_name v)
            bytes
            disk
          ≡ (
            err (io (key_directory hash ++ temporary_of pid disk (record_file_name v) ∷ []) kind),
            after,
          ))
        × Abstracts from_json to_json f after
  write_file_interrupted bytes kind refuses = (
    record { entries = take_away temp_path begun; counter = next_counter },
    write_refused bytes kind refuses,
    refused-Abstracts,
  )
