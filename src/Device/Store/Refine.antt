-- ===== src/Device/Store/Refine.antt =====
-- A device's operations on records implement a map from key hashes and versions to records.
use mathlib.Core.Path.{subst}
use distributed_jbod.Common.{
  ℕ, ◌≡◌, refl, sym, ◌∙◌, ap, ap₂, Option, none, some, List, [], ◌∷◌, ◌++◌, Outcome, ok, err, panic,
  All, Bool-cases, inl, inr,
}
use distributed_jbod.ShardFile.{KeyHash, VersionId}
use distributed_jbod.Naming.{Text}
use distributed_jbod.Naming.RoundTrip.{AreBytes}
use distributed_jbod.Naming.FileNames.{record_file_name}
use distributed_jbod.Record.{Bytes, MetadataRecord, Checked, validate}
use distributed_jbod.Record.Equality.{record_eq}
use distributed_jbod.Device.{IoKind, DeviceError, io, dir, Disk}
use distributed_jbod.Device.Tree.{entry_at, exists}
use distributed_jbod.Device.Store.{
  key_directory, create_key_directory, read_record, replace_record, write_record, delete_version,
}
use distributed_jbod.Device.Store.Abstract.{
  Records, update, supersedes, settle, store, found_or, entry_of, Abstracts,
}
use distributed_jbod.Device.Store.Keys.{read_record_lem, create_key_directory_lem}
use distributed_jbod.Device.Store.Writes.{
  write_file_atomically_lem, write_file_interrupted, temporary_of,
}
use distributed_jbod.Device.Store.Deletes.{delete_version_lem}

-- A record with a hash and a version of their sizes, whose JSON form is read back.
pub record IsWritable (from_json : List ℕ → Checked MetadataRecord)
    (to_json : MetadataRecord → List ℕ) (r : MetadataRecord) : Type 0 where
  pub hash : AreBytes 32 r.key_hash
  pub version : AreBytes 16 r.version
  pub read_back : from_json (to_json r) ≡ ok r

module _ (write_all : List ℕ → Option IoKind) (pid : ℕ) (hash_key : Bytes → KeyHash)
    (to_json : MetadataRecord → List ℕ) (from_json : List ℕ → Checked MetadataRecord) (f : Records)
    (disk : Disk) (r : MetadataRecord) (a : Abstracts from_json to_json f disk)
    (w : IsWritable from_json to_json r) where
  -- The result and the map that is held after it are these.
  abbrev Implements :
      Outcome DeviceError (Unit {0}) × Disk → Outcome DeviceError (Unit {0}) × Records → Type 0
  Implements result expected =
      (result.0 ≡ expected.0) × Abstracts from_json to_json expected.1 result.1

  module _ (accepts : write_all (to_json r) ≡ none) where
    replace_record_lem :
        (d : Disk) (old : MetadataRecord)
        → Abstracts from_json to_json f d
        → entry_at (key_directory r.key_hash) d.entries ≡ some dir
        → Implements
            (replace_record write_all pid hash_key to_json from_json r old d)
            (settle hash_key f r (some old))
    unfolding replace_record
    replace_record_lem d old b there = elim (Bool-cases (record_eq old r)) [
      | inl same ↦ rw (replace_record, same) (refl, b)
      | inr differ ↦ elim (Bool-cases (supersedes r old)) [
        | inr older ↦ rw (replace_record, differ, older) (refl, b)
        | inl newer ↦
            let (after, ran, c) =
              write_file_atomically_lem write_all pid from_json to_json f d r.key_hash r.version b
                there r w.hash w.version (refl, refl, w.read_back) accepts in
            rw (replace_record, differ, newer, ran) (refl, c)
      ]
    ]

    pub write_record_lem :
        Implements
          (write_record write_all pid hash_key to_json from_json r disk)
          (store hash_key f r)
    unfolding write_record store exists
    write_record_lem = checked (validate hash_key r) refl
      where
        present :
            (d : Disk) (o : Option MetadataRecord)
            → Abstracts from_json to_json f d
            → entry_at (key_directory r.key_hash) d.entries ≡ some dir
            → f r.key_hash r.version ≡ o
            → create_key_directory r.key_hash disk ≡ (ok tt, d)
            → validate hash_key r ≡ ok tt
            → Implements
                (write_record write_all pid hash_key to_json from_json r disk)
                (settle hash_key f r o)
        present d none b there e made valid =
            let empty = b.stored r.key_hash r.version w.hash w.version ∙ ap (entry_of to_json) e in
            let (after, ran, c) =
              write_file_atomically_lem write_all pid from_json to_json f d r.key_hash r.version b
                there r w.hash w.version (refl, refl, w.read_back) accepts in
            rw (write_record, valid, made, exists, empty, ran) (refl, c)
        present d (some old) b there e made valid =
            let full = b.stored r.key_hash r.version w.hash w.version ∙ ap (entry_of to_json) e in
            let read =
              read_record_lem from_json to_json f d r.key_hash r.version b w.hash w.version
              ∙ ap (λ o. (found_or r.key_hash r.version o, d)) e in
            rw (write_record, valid, made, exists, full, read) (replace_record_lem d old b there)

        checked :
            (result : Checked (Unit {0}))
            → validate hash_key r ≡ result
            → Implements
                (write_record write_all pid hash_key to_json from_json r disk)
                (store hash_key f r)
        checked (err e) invalid = rw (write_record, store, invalid) (refl, a)
        checked panic invalid = rw (write_record, store, invalid) (refl, a)
        checked (ok u) valid =
            let (d, made, b, there) =
              create_key_directory_lem from_json to_json f disk r.key_hash a in
            let settled : store hash_key f r ≡ settle hash_key f r (f r.key_hash r.version) =
              rw (store, valid) in
            subst (Implements (write_record write_all pid hash_key to_json from_json r disk))
              (sym settled) (present d (f r.key_hash r.version) b there refl made valid)

  -- A new record whose write fails, on a full disk for one, changes none of the records: the operation
  -- answers with the error at the temporary file, and the disk still holds the map that it held.
  pub write_record_interrupted :
      (kind : IoKind)
      → validate hash_key r ≡ ok tt
      → f r.key_hash r.version ≡ none
      → write_all (to_json r) ≡ some kind
      → (name : Text) × ((write_record write_all pid hash_key to_json from_json r disk).0
          ≡ err (io (key_directory r.key_hash ++ name ∷ []) kind))
        × Abstracts from_json to_json f
            (write_record write_all pid hash_key to_json from_json r disk).1
  unfolding write_record exists
  write_record_interrupted kind valid absent refuses =
      let (d, made, b, there) = create_key_directory_lem from_json to_json f disk r.key_hash a in
      let empty = b.stored r.key_hash r.version w.hash w.version ∙ ap (entry_of to_json) absent in
      let (after, ran, c) =
        write_file_interrupted write_all pid from_json to_json f d r.key_hash r.version b there
          (to_json r) kind refuses in
      let result : write_record write_all pid hash_key to_json from_json r disk ≡ (
        err (
            io (key_directory r.key_hash ++ temporary_of pid d (record_file_name r.version) ∷ [])
              kind),
        after,
      ) =
        rw (write_record, valid, made, exists, empty, ran) in
      (
        temporary_of pid d (record_file_name r.version),
        ap (λ x. x.0) result,
        subst (λ x. Abstracts from_json to_json f x.1) (sym result) c,
      )

-- The calls of a client, and what they answer.
pub data Call : Type 0 where
  write : MetadataRecord → Call
  read : KeyHash → VersionId → Call
  delete : KeyHash → VersionId → Call

pub data Reply : Type 0 where
  done_with : Outcome DeviceError (Unit {0}) → Reply
  record_read : Outcome DeviceError MetadataRecord → Reply

module _ (write_all : List ℕ → Option IoKind) (pid : ℕ) (hash_key : Bytes → KeyHash)
    (to_json : MetadataRecord → List ℕ) (from_json : List ℕ → Checked MetadataRecord) where
  -- The calls on the device, one after the other.
  pub run : List Call → Disk → List Reply × Disk
  run [] disk = ([], disk)
  run (write r ∷ calls) disk =
      let (outcome, next) = write_record write_all pid hash_key to_json from_json r disk in
      let (replies, last_disk) = run calls next in (done_with outcome ∷ replies, last_disk)
  run (read hash v ∷ calls) disk =
      let (outcome, next) = read_record from_json hash v disk in
      let (replies, last_disk) = run calls next in (record_read outcome ∷ replies, last_disk)
  run (delete hash v ∷ calls) disk =
      let (outcome, next) = delete_version hash v disk in
      let (replies, last_disk) = run calls next in (done_with outcome ∷ replies, last_disk)

  -- The same calls on a map.
  pub replay : List Call → Records → List Reply × Records
  replay [] f = ([], f)
  replay (write r ∷ calls) f =
      let (outcome, next) = store hash_key f r in
      let (replies, last_map) = replay calls next in (done_with outcome ∷ replies, last_map)
  replay (read hash v ∷ calls) f =
      let (replies, last_map) = replay calls f in
      (record_read (found_or hash v (f hash v)) ∷ replies, last_map)
  replay (delete hash v ∷ calls) f =
      let (replies, last_map) = replay calls (update f hash v none) in
      (done_with (ok tt) ∷ replies, last_map)

  -- Hashes and versions have their sizes, and what is written is accepted by the disk.
  abbrev pub IsRegular : Call → Type 0
  IsRegular (write r) = IsWritable from_json to_json r × (write_all (to_json r) ≡ none)
  IsRegular (read hash v) = AreBytes 32 hash × AreBytes 16 v
  IsRegular (delete hash v) = AreBytes 32 hash × AreBytes 16 v

  -- The records of a device are a map: on a disk that holds a map, any sequence of writes, reads and
  -- deletions of records answers as the same calls on the map do, errors included, and leaves a disk that
  -- holds the map that they leave. The key hashes have 32 bytes and the version ids 16, the disk accepts
  -- what is written, and the JSON form of each record written is read back.
  pub run_refines :
      (calls : List Call) (f : Records) (disk : Disk)
      → Abstracts from_json to_json f disk
      → All IsRegular calls
      → ((run calls disk).0 ≡ (replay calls f).0)
        × Abstracts from_json to_json (replay calls f).1 (run calls disk).1
  unfolding run replay
  run_refines [] f disk a regular = (refl, a)
  run_refines (write r ∷ calls) f disk a ((writable, accepts), regular) =
      let (first, b) =
        write_record_lem write_all pid hash_key to_json from_json f disk r a writable accepts in
      let (same, c) =
        run_refines calls (store hash_key f r).1
          (write_record write_all pid hash_key to_json from_json r disk).1 b regular in
      (ap₂ (λ o l. done_with o ∷ l) first same, c)
  run_refines (read hash v ∷ calls) f disk a ((ah, av), regular) =
      let read_there = read_record_lem from_json to_json f disk hash v a ah av in
      let (same, b) = run_refines calls f disk a regular in
      rw read_there (ap (λ l. record_read (found_or hash v (f hash v)) ∷ l) same, b)
  run_refines (delete hash v ∷ calls) f disk a ((ah, av), regular) =
      let (next, deleted, b) = delete_version_lem from_json to_json f disk hash v a ah av in
      let (same, c) = run_refines calls (update f hash v none) next b regular in
      rw deleted (ap (λ l. done_with (ok tt) ∷ l) same, c)
