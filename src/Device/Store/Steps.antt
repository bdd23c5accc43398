-- ===== src/Device/Store/Steps.antt =====
-- Changes of the tree that no record sees, and what a directory or a missing entry leaves true.

use distributed_jbod.Common.{
  ℕ, ◌≡◌, ◌<◌, refl, ◌∙◌, Bool, true, false, Option, none, some, List, [], ◌∷◌, ◌++◌, length, arith,
  if◌then◌else◌,
}
use distributed_jbod.ShardFile.{KeyHash, VersionId}
use distributed_jbod.Naming.{Text}
use distributed_jbod.Record.{MetadataRecord, Checked}
use distributed_jbod.Device.{FilePath, Entry, dir, file}
use distributed_jbod.Device.Tree.{Entries, paths_eq, entry_at, put, take_away}
use distributed_jbod.Device.Tree.Laws.{entry_at-put, entry_at-take_away}
use distributed_jbod.Device.Store.{bucket_path, key_directory}
use distributed_jbod.Device.Store.Abstract.{
  Records, record_path, HasNoFile, HasNoDirectory, IsKept, Abstracts, first_path, second_path,
}
use distributed_jbod.Device.Store.Paths.{paths_ne_length, length-key_directory}

-- The trees agree on the directories and on the files of records.
pub record Agrees (m n : Entries) : Type 0 where
  pub short : (p : FilePath) → length p < 6 → entry_at p n ≡ entry_at p m
  pub records :
      (hash : KeyHash) (v : VersionId)
      → entry_at (record_path hash v) n ≡ entry_at (record_path hash v) m
  pub plain :
      (hash : KeyHash) (name : Text)
      → HasNoDirectory (entry_at (key_directory hash ++ name ∷ []) m)
      → HasNoDirectory (entry_at (key_directory hash ++ name ∷ []) n)

-- The tree, with any counter, holds the map.
abbrev pub Holds :
    (List ℕ → Checked MetadataRecord) → (MetadataRecord → List ℕ) → ℕ → Records → Entries → Type 0
Holds from_json to_json counter f m =
    Abstracts from_json to_json f (record { entries = m; counter = counter })

module _ (from_json : List ℕ → Checked MetadataRecord) (to_json : MetadataRecord → List ℕ)
    (f : Records) (counter : ℕ) where
  pub Abstracts-agree :
      (m n : Entries)
      → Agrees m n
      → Holds from_json to_json counter f m
      → Holds from_json to_json counter f n
  Abstracts-agree m n same a = record {
    bucket = same.short bucket_path (omega arith) ∙ a.bucket;
    first_level = λ hash. rw (same.short (first_path hash) (omega arith)) (a.first_level hash);
    second_level = λ hash. rw (same.short (second_path hash) (omega arith)) (a.second_level hash);
    key_level = λ hash.
        rw (same.short (key_directory hash) (omega (arith, length-key_directory hash)))
          (a.key_level hash);
    plain = λ hash name. same.plain hash name (a.plain hash name);
    stored = λ hash v ah av. same.records hash v ∙ a.stored hash v ah av;
    fits = a.fits;
    kept = λ hash v ah av.
        rw (same.short (key_directory hash) (omega (arith, length-key_directory hash)))
          (a.kept hash v ah av);
  }

-- A file of another name in a key directory is no matter.
pub HasNoDirectory-file :
    (test : Bool) (content : List ℕ) (e : Option Entry)
    → HasNoDirectory e
    → HasNoDirectory (if test then some (file content) else e)
HasNoDirectory-file true content e h = tt
HasNoDirectory-file false content e h = h

pub HasNoDirectory-none :
    (test : Bool) (e : Option Entry) → HasNoDirectory e → HasNoDirectory (if test then none else e)
HasNoDirectory-none true e h = tt
HasNoDirectory-none false e h = h

pub put-Agrees :
    (q : FilePath) (content : List ℕ) (m : Entries)
    → length q ≡ 6
    → ((hash : KeyHash) (v : VersionId) → paths_eq q (record_path hash v) ≡ false)
    → Agrees m (put q (file content) m)
put-Agrees q content m long apart = record {
  plain = λ hash name h.
      rw (entry_at-put q (file content) (key_directory hash ++ name ∷ []) m)
        (HasNoDirectory-file _ content _ h);
  short = λ p lt. entry_at-put q (file content) p m ∙ rw (paths_ne_length q p (omega arith));
  records = λ hash v. entry_at-put q (file content) (record_path hash v) m ∙ rw (apart hash v);
}

pub take_away-Agrees :
    (q : FilePath) (m : Entries)
    → length q ≡ 6
    → ((hash : KeyHash) (v : VersionId) → paths_eq q (record_path hash v) ≡ false)
    → Agrees m (take_away q m)
take_away-Agrees q m long apart = record {
  plain = λ hash name h.
      rw (entry_at-take_away q (key_directory hash ++ name ∷ []) m) (HasNoDirectory-none _ _ h);
  short = λ p lt. entry_at-take_away q p m ∙ rw (paths_ne_length q p (omega arith));
  records = λ hash v. entry_at-take_away q (record_path hash v) m ∙ rw (apart hash v);
}

pub HasNoFile-dir :
    (test : Bool) (e : Option Entry) → HasNoFile e → HasNoFile (if test then some dir else e)
HasNoFile-dir true e h = tt
HasNoFile-dir false e h = h

pub HasNoFile-none :
    (test : Bool) (e : Option Entry) → HasNoFile e → HasNoFile (if test then none else e)
HasNoFile-none true e h = tt
HasNoFile-none false e h = h

pub IsKept-dir :
    (o : Option MetadataRecord) (test : Bool) (e : Option Entry)
    → IsKept o e
    → IsKept o (if test then some dir else e)
IsKept-dir none test e h = tt
IsKept-dir (some r) true e h = refl
IsKept-dir (some r) false e h = h
