-- ===== src/Device/Store/Deletes.antt =====
-- `delete_version` on a disk that holds a map of records.
use mathlib.Core.Path.{subst}
use distributed_jbod.Common.{
  ℕ, ◌≡◌, ◌≢◌, refl, sym, ◌∙◌, ap, true, ◌&&◌, Option, none, some, List, [], ◌∷◌, ◌++◌, Outcome, ok,
  Bool-cases, arith, inl, inr, &&_split,
}
use distributed_jbod.ShardFile.{KeyHash, VersionId}
use distributed_jbod.Naming.{Text, to_text}
use distributed_jbod.Naming.RoundTrip.{AreBytes}
use distributed_jbod.Naming.FileNames.{shard_suffix, ends_with, starts_with, record_file_name}
use distributed_jbod.Naming.FileNames.Suffixes.{last, last-append, ends_with-eq}
use distributed_jbod.Record.{MetadataRecord, Checked}
use distributed_jbod.Device.{DeviceError, Entry, dir, file, Disk}
use distributed_jbod.Device.Tree.{
  Entries, paths_eq, entry_at, take_away, children_of, remove_file, remove_dir, read_dir, exists,
}
use distributed_jbod.Device.Tree.Laws.{entry_at-take_away, paths_eq→eq}
use distributed_jbod.Device.Store.{
  key_directory, remove_if_present, removal_answer, remove_shards, delete_present, delete_version,
}
use distributed_jbod.Device.Store.Abstract.{
  Records, record_path, update, entry_of, HasNoFile, HasNoDirectory, IsKept, Abstracts,
}
use distributed_jbod.Device.Store.Paths.{
  paths_ne_length, length-record_path, length-file_path, length-key_directory, other_file-ne,
}
use distributed_jbod.Device.Store.Steps.{Agrees, Abstracts-agree, take_away-Agrees}
use distributed_jbod.Device.Store.Directories.{remove_directory-Abstracts}
use distributed_jbod.Device.Store.Updates.{remove-Abstracts}

module _ (from_json : List ℕ → Checked MetadataRecord) (to_json : MetadataRecord → List ℕ) where
  -- The disk after a step, with what it holds; the directory of the key still stands.
  Leaves : Records → KeyHash → Disk → Outcome DeviceError (Unit {0}) × Disk → Type 0
  Leaves f hash before result =
      (after : Disk) × (result ≡ (ok tt, after))
      × Abstracts from_json to_json f after
      × (entry_at (key_directory hash) after.entries ≡ some dir)

  -- Nothing stands at the place of a record that the map does not have.
  restored-Agrees : (p : List Text) (m : Entries) → entry_at p m ≡ none → Agrees (take_away p m) m
  restored-Agrees p m e = record {
    short = λ q lt. back q;
    records = λ hash v. back (record_path hash v);
    plain = λ hash name h. subst HasNoDirectory (sym (back (key_directory hash ++ name ∷ []))) h;
  }
    where
      back : (q : List Text) → entry_at q m ≡ entry_at q (take_away p m)
      back q = elim (Bool-cases (paths_eq p q)) [
        | inr other ↦ sym (entry_at-take_away p q m ∙ rw other)
        | inl same ↦
            sym (ap (λ x. entry_at x m) (paths_eq→eq p q same))
            ∙ e
            ∙ sym (entry_at-take_away p q m ∙ rw same)
      ]

  -- A map that has no record at a place is not changed by forgetting it.
  pub forget-Abstracts :
      (f : Records) (disk : Disk) (hash : KeyHash) (v : VersionId)
      → Abstracts from_json to_json f disk
      → AreBytes 32 hash
      → AreBytes 16 v
      → entry_at (record_path hash v) disk.entries ≡ none
      → Abstracts from_json to_json (update f hash v none) disk
  forget-Abstracts f disk hash v a ah av e =
      Abstracts-agree from_json to_json (update f hash v none) disk.counter
        (take_away (record_path hash v) disk.entries) disk.entries
        (restored-Agrees (record_path hash v) disk.entries e)
        (remove-Abstracts from_json to_json f disk.counter disk.entries a hash v ah av)

  remove_record_lem :
      (f : Records) (disk : Disk) (hash : KeyHash) (v : VersionId)
      → Abstracts from_json to_json f disk
      → AreBytes 32 hash
      → AreBytes 16 v
      → entry_at (key_directory hash) disk.entries ≡ some dir
      → Leaves (update f hash v none) hash disk (remove_if_present (record_path hash v) disk)
  unfolding Leaves remove_if_present remove_file
  remove_record_lem f disk hash v a ah av there =
      outcome (entry_at (record_path hash v) disk.entries) refl (a.plain hash (record_file_name v))
    where
      outcome :
          (e : Option Entry)
          → entry_at (record_path hash v) disk.entries ≡ e
          → HasNoDirectory e
          → Leaves (update f hash v none) hash disk (remove_if_present (record_path hash v) disk)
      outcome none e h =
          (disk, rw (remove_if_present, e), forget-Abstracts f disk hash v a ah av e, there)
      outcome (some dir) e h = absurd h
      outcome (some (file content)) e h = (
        record disk { entries = take_away (record_path hash v) disk.entries },
        rw (remove_if_present, e, remove_file, e),
        remove-Abstracts from_json to_json f disk.counter disk.entries a hash v ah av,
        entry_at-take_away (record_path hash v) (key_directory hash) disk.entries
            ∙ rw
                (paths_ne_length (record_path hash v) (key_directory hash)
                  (omega (arith, length-record_path hash v, length-key_directory hash)))
                there,
      )

  -- A name that ends like a shard's is not a record's.
  last-shard : (name : Text) → ends_with shard_suffix name ≡ true → last name ≢ b'n'
  last-shard name h e =
      let (front, same) = ends_with-eq shard_suffix name h in
      let end = last-append front b'.' (b's' ∷ b'h' ∷ b'a' ∷ b'r' ∷ b'd' ∷ []) in
      let name_end : last name ≡ b'd' = ap last same ∙ end in absurd (omega arith)

  remove_shard_lem :
      (f : Records) (disk : Disk) (hash : KeyHash) (name : Text)
      → Abstracts from_json to_json f disk
      → entry_at (key_directory hash) disk.entries ≡ some dir
      → ends_with shard_suffix name ≡ true
      → Leaves f hash disk (remove_if_present (key_directory hash ++ name ∷ []) disk)
  unfolding Leaves remove_if_present remove_file
  remove_shard_lem f disk hash name a there end =
      outcome (entry_at (key_directory hash ++ name ∷ []) disk.entries) refl (a.plain hash name)
    where
      outcome :
          (e : Option Entry)
          → entry_at (key_directory hash ++ name ∷ []) disk.entries ≡ e
          → HasNoDirectory e
          → Leaves f hash disk (remove_if_present (key_directory hash ++ name ∷ []) disk)
      outcome none e h = (disk, rw (remove_if_present, e), a, there)
      outcome (some dir) e h = absurd h
      outcome (some (file content)) e h =
          let gone =
            take_away-Agrees (key_directory hash ++ name ∷ []) disk.entries
              (length-file_path hash name)
              (λ g w. other_file-ne hash name g w (last-shard name end)) in
          (
            record disk { entries = take_away (key_directory hash ++ name ∷ []) disk.entries },
            rw (remove_if_present, e, remove_file, e),
            Abstracts-agree from_json to_json f disk.counter disk.entries
                (take_away (key_directory hash ++ name ∷ []) disk.entries) gone a,
            gone.short (key_directory hash) (omega (arith, length-key_directory hash)) ∙ there,
          )

  remove_shards_lem :
      (f : Records) (disk : Disk) (hash : KeyHash) (v : VersionId) (names : List Text)
      → Abstracts from_json to_json f disk
      → entry_at (key_directory hash) disk.entries ≡ some dir
      → Leaves f hash disk (remove_shards (key_directory hash) v names disk)
  unfolding Leaves remove_shards
  remove_shards_lem f disk hash v [] a there = (disk, refl, a, there)
  remove_shards_lem f disk hash v (name ∷ names) a there =
      elim (Bool-cases (starts_with (to_text v ++ b'.' ∷ []) name && ends_with shard_suffix name)) [
        | inr other ↦
            let (after, ran, b, still) = remove_shards_lem f disk hash v names a there in
            (after, rw (remove_shards, other) ran, b, still)
        | inl chosen ↦
            let (start, end) =
              &&_split (starts_with (to_text v ++ b'.' ∷ []) name) (ends_with shard_suffix name)
                chosen in
            let (mid, removed, b, still) = remove_shard_lem f disk hash name a there end in
            let (after, ran, c, last_there) = remove_shards_lem f mid hash v names b still in
            (after, rw (remove_shards, chosen, removed) ran, c, last_there)
      ]

  -- What a step leaves, without its directory.
  abbrev pub Ends : Records → Outcome DeviceError (Unit {0}) × Disk → Type 0
  Ends f result = (after : Disk) × (result ≡ (ok tt, after)) × Abstracts from_json to_json f after

  remove_directory_lem :
      (f : Records) (disk : Disk) (hash : KeyHash)
      → Abstracts from_json to_json f disk
      → AreBytes 32 hash
      → entry_at (key_directory hash) disk.entries ≡ some dir
      → Ends f (removal_answer (remove_dir (key_directory hash) disk))
  unfolding remove_dir
  remove_directory_lem f disk hash a ah there =
      outcome (children_of (key_directory hash) disk.entries) refl
    where
      outcome :
          (names : List Text)
          → children_of (key_directory hash) disk.entries ≡ names
          → Ends f (removal_answer (remove_dir (key_directory hash) disk))
      outcome [] e = (
        record disk { entries = take_away (key_directory hash) disk.entries },
        rw (remove_dir, there, e),
        remove_directory-Abstracts from_json to_json f disk.counter disk.entries a hash ah e,
      )
      outcome (name ∷ names) e = (disk, rw (remove_dir, there, e), a)

  -- No directory, and so no record.
  absent_of_no_directory :
      (o : Option MetadataRecord) (e : Option Entry) → IsKept o e → e ≡ none → o ≡ none
  absent_of_no_directory none e k h = refl
  absent_of_no_directory (some r) e k h = absurd (let wrong : some dir ≡ none = sym k ∙ h in cc)

  pub delete_version_lem :
      (f : Records) (disk : Disk) (hash : KeyHash) (v : VersionId)
      → Abstracts from_json to_json f disk
      → AreBytes 32 hash
      → AreBytes 16 v
      → Ends (update f hash v none) (delete_version hash v disk)
  unfolding Leaves delete_version delete_present exists read_dir
  delete_version_lem f disk hash v a ah av =
      outcome (entry_at (key_directory hash) disk.entries) refl (a.key_level hash)
    where
      outcome :
          (e : Option Entry)
          → entry_at (key_directory hash) disk.entries ≡ e
          → HasNoFile e
          → Ends (update f hash v none) (delete_version hash v disk)
      outcome none e h =
          let gone = absent_of_no_directory (f hash v) _ (a.kept hash v ah av) e in
          (
            disk,
            rw (delete_version, exists, e),
            forget-Abstracts f disk hash v a ah av
                (a.stored hash v ah av ∙ ap (entry_of to_json) gone),
          )
      outcome (some (file content)) e h = absurd h
      outcome (some dir) e h =
          let (d1, removed, a1, there1) = remove_record_lem f disk hash v a ah av e in
          let (d2, emptied, a2, there2) =
            remove_shards_lem (update f hash v none) d1 hash v
              (children_of (key_directory hash) d1.entries) a1 there1 in
          let (d3, ended, a3) = remove_directory_lem (update f hash v none) d2 hash a2 ah there2 in
          (
            d3,
            rw (delete_version, exists, e, delete_present, removed, read_dir, there1, emptied)
                ended,
            a3,
          )
