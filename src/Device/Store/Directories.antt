-- ===== src/Device/Store/Directories.antt =====
-- The map of records when a directory is made or taken away.
use mathlib.Core.Path.{subst}
use distributed_jbod.Common.{
  ℕ, ◌≡◌, ◌<◌, refl, sym, ◌∙◌, Option, none, some, List, [], ◌∷◌, ◌++◌, length, Bool-cases, arith,
  inl, inr,
}
use distributed_jbod.ShardFile.{KeyHash, VersionId}
use distributed_jbod.Naming.RoundTrip.{AreBytes}
use distributed_jbod.Naming.FileNames.{record_file_name}
use distributed_jbod.Record.{MetadataRecord, Checked}
use distributed_jbod.Device.{FilePath, dir}
use distributed_jbod.Device.Tree.{Entries, paths_eq, put, take_away, children_of}
use distributed_jbod.Device.Tree.Laws.{
  entry_at-put, entry_at-take_away, children_of-nil, paths_eq→eq,
}
use distributed_jbod.Device.Store.{bucket_path, key_directory}
use distributed_jbod.Device.Store.Abstract.{Records, record_path, entry_of, first_path, second_path}
use distributed_jbod.Device.Store.Paths.{
  paths_ne_length, length-record_path, length-file_path, length-key_directory,
  key_directory-injective,
}
use distributed_jbod.Device.Store.Steps.{
  Holds, HasNoDirectory-none, HasNoFile-dir, HasNoFile-none, IsKept-dir,
}

module _ (from_json : List ℕ → Checked MetadataRecord) (to_json : MetadataRecord → List ℕ)
    (f : Records) (counter : ℕ) (m : Entries) (a : Holds from_json to_json counter f m) where
  -- A directory below the bucket is made.
  pub make-Abstracts :
      (p : FilePath) → 2 < length p → length p < 6 → Holds from_json to_json counter f (put p dir m)
  make-Abstracts p low high = record {
    bucket =
        entry_at-put p dir bucket_path m
        ∙ rw (paths_ne_length p bucket_path (omega arith)) a.bucket;
    first_level = λ hash.
        rw (entry_at-put p dir (first_path hash) m) (HasNoFile-dir _ _ (a.first_level hash));
    second_level = λ hash.
        rw (entry_at-put p dir (second_path hash) m) (HasNoFile-dir _ _ (a.second_level hash));
    key_level = λ hash.
        rw (entry_at-put p dir (key_directory hash) m) (HasNoFile-dir _ _ (a.key_level hash));
    plain = λ hash name.
        rw
          (
            entry_at-put p dir (key_directory hash ++ name ∷ []) m,
            paths_ne_length p (key_directory hash ++ name ∷ [])
                (omega (arith, length-file_path hash name)),
          )
          (a.plain hash name);
    stored = λ hash v ah av.
        entry_at-put p dir (record_path hash v) m
        ∙ rw (paths_ne_length p (record_path hash v) (omega (arith, length-record_path hash v)))
            (a.stored hash v ah av);
    fits = a.fits;
    kept = λ hash v ah av.
        rw (entry_at-put p dir (key_directory hash) m)
          (IsKept-dir (f hash v) _ _ (a.kept hash v ah av));
  }

  absent_of_empty :
      (g : KeyHash) (w : VersionId) (ag : AreBytes 32 g) (aw : AreBytes 16 w)
      → children_of (key_directory g) m ≡ []
      → f g w ≡ none
  absent_of_empty g w ag aw empty =
      none_of (f g w)
        (sym (a.stored g w ag aw) ∙ children_of-nil (key_directory g) (record_file_name w) m empty)
    where
      none_of : (o : Option MetadataRecord) → entry_of to_json o ≡ none → o ≡ none
      none_of none e = refl
      none_of (some r) e = absurd (cc)

  -- The directory of a key is taken away, when it is empty.
  pub remove_directory-Abstracts :
      (hash : KeyHash)
      → AreBytes 32 hash
      → children_of (key_directory hash) m ≡ []
      → Holds from_json to_json counter f (take_away (key_directory hash) m)
  remove_directory-Abstracts hash ah empty =
      let path = key_directory hash in
      let short = length-key_directory hash in
      record {
        bucket =
            entry_at-take_away path bucket_path m
            ∙ rw (paths_ne_length path bucket_path (omega arith)) a.bucket;
        first_level = λ g.
            rw (entry_at-take_away path (first_path g) m) (HasNoFile-none _ _ (a.first_level g));
        second_level = λ g.
            rw (entry_at-take_away path (second_path g) m) (HasNoFile-none _ _ (a.second_level g));
        key_level = λ g.
            rw (entry_at-take_away path (key_directory g) m) (HasNoFile-none _ _ (a.key_level g));
        plain = λ g name.
            rw (entry_at-take_away path (key_directory g ++ name ∷ []) m)
              (HasNoDirectory-none _ _ (a.plain g name));
        stored = λ g w ag aw.
            entry_at-take_away path (record_path g w) m
            ∙ rw (paths_ne_length path (record_path g w) (omega (arith, length-record_path g w)))
                (a.stored g w ag aw);
        fits = a.fits;
        kept = λ g w ag aw.
            rw (entry_at-take_away path (key_directory g) m)
              (elim (Bool-cases (paths_eq path (key_directory g))) [
                | inr other ↦ rw other (a.kept g w ag aw)
                | inl same ↦
                    let hashes =
                      key_directory-injective hash g ah ag
                        (paths_eq→eq path (key_directory g) same) in
                    let gone =
                      absent_of_empty g w ag aw
                        (subst (λ x. children_of (key_directory x) m ≡ []) hashes empty) in
                    rw (same, gone) tt
              ]);
      }
