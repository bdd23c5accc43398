-- ===== src/Device/Store/Updates.antt =====
-- The map of records when the file of one is written or taken away.
use mathlib.Core.Path.{subst}
use distributed_jbod.Common.{
  ℕ, ◌≡◌, refl, ◌∙◌, Bool, true, false, ◌&&◌, Option, none, some, List, [], ◌∷◌, ◌++◌, bytes_eq,
  bytes_eq_iff, Bool-cases, arith, inl, inr, if◌then◌else◌, &&_split,
}
use distributed_jbod.ShardFile.{KeyHash, VersionId}
use distributed_jbod.Naming.RoundTrip.{AreBytes}
use distributed_jbod.Record.{MetadataRecord, Checked}
use distributed_jbod.Device.{Entry, dir, file}
use distributed_jbod.Device.Tree.{Entries, entry_at, put, take_away}
use distributed_jbod.Device.Tree.Laws.{entry_at-put, entry_at-take_away}
use distributed_jbod.Device.Store.{bucket_path, key_directory}
use distributed_jbod.Device.Store.Abstract.{
  Records, record_path, update, entry_of, IsKept, Fits, first_path, second_path,
}
use distributed_jbod.Device.Store.Paths.{
  paths_ne_length, length-record_path, length-key_directory, record_path-eq,
}
use distributed_jbod.Device.Store.Steps.{
  Holds, HasNoDirectory-file, HasNoDirectory-none, HasNoFile-none,
}

module _ (from_json : List ℕ → Checked MetadataRecord) (to_json : MetadataRecord → List ℕ)
    (f : Records) (counter : ℕ) (m : Entries) (a : Holds from_json to_json counter f m) where
  module _ (hash : KeyHash) (v : VersionId) (ah : AreBytes 32 hash) (av : AreBytes 16 v) where
    if-entry_of :
        (test : Bool) (o x : Option MetadataRecord) (e : Option Entry)
        → e ≡ entry_of to_json o
        → (if test then e else entry_of to_json x) ≡ entry_of to_json (if test then o else x)
    if-entry_of true o x e h = h
    if-entry_of false o x e h = refl

    -- A value fits its own place, and the others fit theirs.
    update-Fits :
        (o : Option MetadataRecord) (g : KeyHash) (w : VersionId)
        → Fits from_json to_json hash v o
        → Fits from_json to_json g w (f g w)
        → Fits from_json to_json g w (update f hash v o g w)
    unfolding update
    update-Fits o g w here there = elim (Bool-cases (bytes_eq hash g && bytes_eq v w)) [
      | inr other ↦ rw other there
      | inl same ↦
          let (hashes, versions) = &&_split (bytes_eq hash g) (bytes_eq v w) same in
          let hashes_eq = (bytes_eq_iff hash g).0 hashes in
          let versions_eq = (bytes_eq_iff v w).0 versions in
          rw same (
            subst (λ x. Fits from_json to_json x w o) hashes_eq
              (subst (λ x. Fits from_json to_json hash x o) versions_eq here))
    ]

    update-IsKept :
        (o : Option MetadataRecord) (g : KeyHash) (w : VersionId) (e : KeyHash → Option Entry)
        → IsKept o (e hash)
        → IsKept (f g w) (e g)
        → IsKept (update f hash v o g w) (e g)
    unfolding update
    update-IsKept o g w e here there = elim (Bool-cases (bytes_eq hash g && bytes_eq v w)) [
      | inr other ↦ rw other there
      | inl same ↦
          let (hashes, versions) = &&_split (bytes_eq hash g) (bytes_eq v w) same in
          rw same (subst (λ x. IsKept o (e x)) ((bytes_eq_iff hash g).0 hashes) here)
    ]

    -- A record is written at its place.
    pub write-Abstracts :
        (r : MetadataRecord)
        → Fits from_json to_json hash v (some r)
        → entry_at (key_directory hash) m ≡ some dir
        → Holds from_json to_json counter
            (update f hash v (some r))
            (put (record_path hash v) (file (to_json r)) m)
    unfolding update
    write-Abstracts r fit there =
        let path = record_path hash v in
        let content = file (to_json r) in
        let long = length-record_path hash v in
        record {
          bucket =
              entry_at-put path content bucket_path m
              ∙ rw (paths_ne_length path bucket_path (omega arith)) a.bucket;
          first_level = λ g.
              rw
                (
                  entry_at-put path content (first_path g) m,
                  paths_ne_length path (first_path g) (omega arith),
                )
                (a.first_level g);
          second_level = λ g.
              rw
                (
                  entry_at-put path content (second_path g) m,
                  paths_ne_length path (second_path g) (omega arith),
                )
                (a.second_level g);
          key_level = λ g.
              rw
                (
                  entry_at-put path content (key_directory g) m,
                  paths_ne_length path (key_directory g) (omega (arith, length-key_directory g)),
                )
                (a.key_level g);
          plain = λ g name.
              rw (entry_at-put path content (key_directory g ++ name ∷ []) m)
                (HasNoDirectory-file _ (to_json r) _ (a.plain g name));
          stored = λ g w ag aw.
              entry_at-put path content (record_path g w) m
              ∙ rw (record_path-eq hash g v w ah ag av aw, a.stored g w ag aw)
                  (if-entry_of (bytes_eq hash g && bytes_eq v w) (some r) (f g w) (some content)
                    refl);
          fits = λ g w ag aw. update-Fits (some r) g w fit (a.fits g w ag aw);
          kept = λ g w ag aw.
              rw
                (
                  entry_at-put path content (key_directory g) m,
                  paths_ne_length path (key_directory g) (omega (arith, length-key_directory g)),
                )
                (update-IsKept (some r) g w (λ x. entry_at (key_directory x) m) there
                  (a.kept g w ag aw));
        }

    -- The record of a version is taken away.
    pub remove-Abstracts :
        Holds from_json to_json counter (update f hash v none) (take_away (record_path hash v) m)
    unfolding update
    remove-Abstracts =
        let path = record_path hash v in
        let long = length-record_path hash v in
        record {
          bucket =
              entry_at-take_away path bucket_path m
              ∙ rw (paths_ne_length path bucket_path (omega arith)) a.bucket;
          first_level = λ g.
              rw (entry_at-take_away path (first_path g) m) (HasNoFile-none _ _ (a.first_level g));
          second_level = λ g.
              rw (entry_at-take_away path (second_path g) m)
                (HasNoFile-none _ _ (a.second_level g));
          key_level = λ g.
              rw (entry_at-take_away path (key_directory g) m) (HasNoFile-none _ _ (a.key_level g));
          plain = λ g name.
              rw (entry_at-take_away path (key_directory g ++ name ∷ []) m)
                (HasNoDirectory-none _ _ (a.plain g name));
          stored = λ g w ag aw.
              entry_at-take_away path (record_path g w) m
              ∙ rw (record_path-eq hash g v w ah ag av aw, a.stored g w ag aw)
                  (if-entry_of (bytes_eq hash g && bytes_eq v w) none (f g w) none refl);
          fits = λ g w ag aw. update-Fits none g w tt (a.fits g w ag aw);
          kept = λ g w ag aw.
              rw
                (
                  entry_at-take_away path (key_directory g) m,
                  paths_ne_length path (key_directory g) (omega (arith, length-key_directory g)),
                )
                (update-IsKept none g w (λ x. entry_at (key_directory x) m) tt (a.kept g w ag aw));
        }
