-- ===== src/Device/Store/Paths.antt =====
-- Which paths of a device are different from which.
use distributed_jbod.Common.{
  ◌≡◌, ◌≢◌, refl, sym, ◌∙◌, ap, true, false, ◌&&◌, Option, some, [], ◌∷◌, ◌++◌, ok, length,
  bytes_eq, bytes_eq_iff, Bool-cases, inl, inr, drop, get_elem?,
}
use distributed_jbod.ShardFile.{KeyHash, VersionId}
use distributed_jbod.Naming.{Text, to_text, to_hex, from_hex, directory_components}
use distributed_jbod.Naming.RoundTrip.{AreBytes}
use distributed_jbod.Naming.Hex.{from_hex-to_hex}
use distributed_jbod.Naming.FileNames.{
  object_directory, record_file_name, record_suffix, parse_record_file_name,
}
use distributed_jbod.Naming.FileNames.Suffixes.{last, last-append}
use distributed_jbod.Naming.FileNames.RoundTrip.{parse_record_file_name-record_file_name}
use distributed_jbod.Device.{FilePath}
use distributed_jbod.Device.Tree.{paths_eq}
use distributed_jbod.Device.Tree.Laws.{paths_eq→eq, paths_eq_refl, paths_ne}
use distributed_jbod.Device.Store.{key_directory}
use distributed_jbod.Device.Store.Abstract.{record_path}
use mathlib.Core.Option.{some-injective}

pub paths_ne_length : (p q : FilePath) → length p ≢ length q → paths_eq p q ≡ false
paths_ne_length p q n = paths_ne p q (λ e. n (ap length e))

pub length-record_path : (hash : KeyHash) (v : VersionId) → length (record_path hash v) ≡ 6
unfolding object_directory directory_components
length-record_path hash v = refl

pub length-file_path : (hash : KeyHash) (name : Text) → length (key_directory hash ++ name ∷ []) ≡ 6
unfolding object_directory directory_components
length-file_path hash name = refl

pub length-key_directory : (hash : KeyHash) → length (key_directory hash) ≡ 5
unfolding object_directory directory_components
length-key_directory hash = refl

to_hex-injective : (h g : KeyHash) → AreBytes 32 h → AreBytes 32 g → to_hex h ≡ to_hex g → h ≡ g
to_hex-injective h g a b e =
    let back : ok h ≡ ok g =
      sym (from_hex-to_hex h a).0 ∙ ap from_hex e ∙ (from_hex-to_hex g b).0 in
    cc

record_file_name-injective :
    (v w : VersionId)
    → AreBytes 16 v
    → AreBytes 16 w
    → record_file_name v ≡ record_file_name w
    → v ≡ w
record_file_name-injective v w a b e = some-injective v w (
    sym (parse_record_file_name-record_file_name v a)
    ∙ ap parse_record_file_name e
    ∙ parse_record_file_name-record_file_name w b)

-- The last component of a path, and the one before the name of a file.
abbrev pub fifth : FilePath → Option Text
fifth p = get_elem? p 4

abbrev pub sixth : FilePath → Option Text
sixth p = get_elem? p 5

fifth-key_directory : (hash : KeyHash) → fifth (key_directory hash) ≡ some (to_hex hash)
unfolding object_directory directory_components
fifth-key_directory hash = refl

fifth-record_path :
    (hash : KeyHash) (v : VersionId) → fifth (record_path hash v) ≡ some (to_hex hash)
unfolding object_directory directory_components
fifth-record_path hash v = refl

pub sixth-file :
    (hash : KeyHash) (name : Text) → sixth (key_directory hash ++ name ∷ []) ≡ some name
unfolding object_directory directory_components
sixth-file hash name = refl

pub key_directory-injective :
    (h g : KeyHash) → AreBytes 32 h → AreBytes 32 g → key_directory h ≡ key_directory g → h ≡ g
key_directory-injective h g a b e = to_hex-injective h g a b (
    some-injective (to_hex h) (to_hex g)
      (sym (fifth-key_directory h) ∙ ap fifth e ∙ fifth-key_directory g))

-- The paths of records are equal for equal hashes and versions only.
pub record_path-eq :
    (h g : KeyHash) (v w : VersionId)
    → AreBytes 32 h
    → AreBytes 32 g
    → AreBytes 16 v
    → AreBytes 16 w
    → paths_eq (record_path h v) (record_path g w) ≡ (bytes_eq h g && bytes_eq v w)
record_path-eq h g v w ah ag av aw =
    elim (Bool-cases (paths_eq (record_path h v) (record_path g w))) [
      | inl same ↦
          let e = paths_eq→eq (record_path h v) (record_path g w) same in
          let hashes = to_hex-injective h g ah ag (
            some-injective (to_hex h) (to_hex g)
              (sym (fifth-record_path h v) ∙ ap fifth e ∙ fifth-record_path g w)) in
          let versions = record_file_name-injective v w av aw (
            some-injective (record_file_name v) (record_file_name w) (
              sym (sixth-file h (record_file_name v))
              ∙ ap sixth e
              ∙ sixth-file g (record_file_name w))) in
          rw (same, (bytes_eq_iff h g).1 hashes, (bytes_eq_iff v w).1 versions)
      | inr other ↦ elim (Bool-cases (bytes_eq h g)) [
        | inr apart ↦ rw (other, apart)
        | inl hashes ↦ elim (Bool-cases (bytes_eq v w)) [
          | inr apart ↦ rw (other, hashes, apart)
          | inl versions ↦ absurd (
              let e : record_path h v ≡ record_path g w =
                ap (λ x. record_path x v) ((bytes_eq_iff h g).0 hashes)
                ∙ ap (record_path g) ((bytes_eq_iff v w).0 versions) in
              let wrong : true ≡ false =
                sym (paths_eq_refl (record_path h v)) ∙ ap (paths_eq (record_path h v)) e ∙ other in
              cc)
        ]
      ]
    ]

-- A file in a key directory whose name does not end like a record's.
pub other_file-ne :
    (g : KeyHash) (name : Text) (h : KeyHash) (v : VersionId)
    → last name ≢ b'n'
    → paths_eq (key_directory g ++ name ∷ []) (record_path h v) ≡ false
unfolding record_file_name
other_file-ne g name h v n = paths_ne (key_directory g ++ name ∷ []) (record_path h v) (λ e. n (
    ap last (
      some-injective name (record_file_name v)
        (sym (sixth-file g name) ∙ ap sixth e ∙ sixth-file h (record_file_name v)))
    ∙ last-append (to_text v) b'.' (drop 1 record_suffix)))
