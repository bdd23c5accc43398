-- ===== src/Device/Store/Keys.antt =====
-- The directory of a key is made, and a record in it is read.
use distributed_jbod.Common.{
  ℕ, ◌≡◌, ◌<◌, refl, ◌∙◌, Option, none, some, List, [], ◌∷◌, ◌++◌, ok, length, bytes_eq_iff, arith,
}
use distributed_jbod.ShardFile.{KeyHash, VersionId}
use distributed_jbod.Naming.{Text, directory_components}
use distributed_jbod.Naming.RoundTrip.{AreBytes}
use distributed_jbod.Naming.FileNames.{object_directory}
use distributed_jbod.Record.{MetadataRecord, Checked}
use distributed_jbod.Device.{FilePath, Entry, dir, file, Disk}
use distributed_jbod.Device.Tree.{entry_at, put, create_dir, read_file}
use distributed_jbod.Device.Tree.Laws.{entry_at-put, paths_eq_refl}
use distributed_jbod.Device.Store.{
  bucket_path, key_directory, make_component, create_key_directory, read_record,
}
use distributed_jbod.Device.Store.Abstract.{
  Records, record_path, first_path, second_path, entry_of, found_or, HasNoFile, Fits, Abstracts,
}
use distributed_jbod.Device.Store.Directories.{make-Abstracts}

module _ (from_json : List ℕ → Checked MetadataRecord) (to_json : MetadataRecord → List ℕ) where
  pub read_record_lem :
      (f : Records) (disk : Disk) (hash : KeyHash) (v : VersionId)
      → Abstracts from_json to_json f disk
      → AreBytes 32 hash
      → AreBytes 16 v
      → read_record from_json hash v disk ≡ (found_or hash v (f hash v), disk)
  unfolding read_record read_file
  read_record_lem f disk hash v a ah av =
      outcome (f hash v) (a.stored hash v ah av) (a.fits hash v ah av)
    where
      outcome :
          (o : Option MetadataRecord)
          → entry_at (record_path hash v) disk.entries ≡ entry_of to_json o
          → Fits from_json to_json hash v o
          → read_record from_json hash v disk ≡ (found_or hash v o, disk)
      outcome none e fit = rw (read_record, read_file, e)
      outcome (some r) e (hashes, versions, back) =
          rw (read_record, read_file, e, back, (bytes_eq_iff r.key_hash hash).1 hashes)

-- A directory that is made, or stands already.
make_component_lem :
    (from_json : List ℕ → Checked MetadataRecord) (to_json : MetadataRecord → List ℕ) (f : Records)
    (disk : Disk) (parent : FilePath) (name : Text)
    → Abstracts from_json to_json f disk
    → entry_at parent disk.entries ≡ some dir
    → HasNoFile (entry_at (parent ++ name ∷ []) disk.entries)
    → 2 < length (parent ++ name ∷ [])
    → length (parent ++ name ∷ []) < 6
    → (after : Disk) × (make_component parent name disk ≡ (ok tt, after))
      × Abstracts from_json to_json f after
      × (entry_at (parent ++ name ∷ []) after.entries ≡ some dir)
unfolding make_component create_dir
make_component_lem from_json to_json f disk parent name a there free low high =
    outcome (entry_at (parent ++ name ∷ []) disk.entries) refl free
  where
    outcome :
        (e : Option Entry)
        → entry_at (parent ++ name ∷ []) disk.entries ≡ e
        → HasNoFile e
        → (after : Disk) × (make_component parent name disk ≡ (ok tt, after))
          × Abstracts from_json to_json f after
          × (entry_at (parent ++ name ∷ []) after.entries ≡ some dir)
    outcome (some dir) e h = (disk, rw (make_component, create_dir, e), a, e)
    outcome (some (file content)) e h = absurd h
    outcome none e h = (
      record disk { entries = put (parent ++ name ∷ []) dir disk.entries },
      rw (make_component, create_dir, e, there),
      make-Abstracts from_json to_json f disk.counter disk.entries a (parent ++ name ∷ []) low high,
      entry_at-put (parent ++ name ∷ []) dir (parent ++ name ∷ []) disk.entries
          ∙ rw (paths_eq_refl (parent ++ name ∷ [])),
    )

pub create_key_directory_lem :
    (from_json : List ℕ → Checked MetadataRecord) (to_json : MetadataRecord → List ℕ) (f : Records)
    (disk : Disk) (hash : KeyHash)
    → Abstracts from_json to_json f disk
    → (after : Disk) × (create_key_directory hash disk ≡ (ok tt, after))
      × Abstracts from_json to_json f after
      × (entry_at (key_directory hash) after.entries ≡ some dir)
unfolding create_key_directory object_directory
create_key_directory_lem from_json to_json f disk hash a =
    let (first, second, full) = directory_components hash in
    let (d1, made1, a1, there1) =
      make_component_lem from_json to_json f disk bucket_path first a a.bucket (a.first_level hash)
        (omega arith) (omega arith) in
    let (d2, made2, a2, there2) =
      make_component_lem from_json to_json f d1 (first_path hash) second a1 there1
        (a1.second_level hash) (omega arith) (omega arith) in
    let (d3, made3, a3, there3) =
      make_component_lem from_json to_json f d2 (second_path hash) full a2 there2
        (a2.key_level hash) (omega arith) (omega arith) in
    (d3, rw (create_key_directory, made1, made2, made3), a3, there3)
