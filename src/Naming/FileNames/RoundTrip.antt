-- ===== src/Naming/FileNames/RoundTrip.antt =====
-- The names of files are read back, and the two kinds are never taken for each other.
use distributed_jbod.Common.{◌<◌, ◌≡◌, sym, none, some, ◌∷◌, ◌++◌, drop, arith}
use mathlib.Core.List.{append_assoc}
use distributed_jbod.Erasure.{ShardIndex}
use distributed_jbod.ShardFile.{VersionId}
use distributed_jbod.Naming.{to_text}
use distributed_jbod.Naming.RoundTrip.{AreBytes, from_text-to_text}
use distributed_jbod.Naming.FileNames.{
  record_suffix, shard_suffix, show_u8, record_file_name, shard_file_name, parse_record_file_name,
  parse_shard_file_name,
}
use distributed_jbod.Naming.FileNames.Suffixes.{
  strip_suffix-append, strip_suffix_apart, split_once-append, to_text-dotless, parse_u8-show_u8,
}

-- The stem of a shard file's name.
shard_stem :
    (v : VersionId) (index : ShardIndex)
    → shard_file_name v index ≡ (to_text v ++ b'.' ∷ show_u8 index) ++ shard_suffix
unfolding shard_file_name
shard_stem v index = sym (append_assoc (to_text v) (b'.' ∷ show_u8 index) shard_suffix)

pub parse_record_file_name-record_file_name :
    (v : VersionId) → AreBytes 16 v → parse_record_file_name (record_file_name v) ≡ some v
unfolding parse_record_file_name record_file_name
parse_record_file_name-record_file_name v a =
    rw (parse_record_file_name, strip_suffix-append record_suffix (to_text v))
      (from_text-to_text v a).0

pub parse_shard_file_name-shard_file_name :
    (v : VersionId) (index : ShardIndex)
    → AreBytes 16 v
    → index < 256
    → parse_shard_file_name (shard_file_name v index) ≡ some (v, index)
unfolding parse_shard_file_name
parse_shard_file_name-shard_file_name v index a lt = rw (
  shard_stem v index,
  parse_shard_file_name,
  strip_suffix-append shard_suffix (to_text v ++ b'.' ∷ show_u8 index),
  split_once-append b'.' (to_text v) (show_u8 index) (to_text-dotless v),
  (from_text-to_text v a).0,
  parse_u8-show_u8 index lt,
)

pub parse_record_file_name-shard_file_name :
    (v : VersionId) (index : ShardIndex) → parse_record_file_name (shard_file_name v index) ≡ none
unfolding parse_record_file_name
parse_record_file_name-shard_file_name v index = rw (
  shard_stem v index,
  parse_record_file_name,
  strip_suffix_apart b'.' (drop 1 record_suffix) b'.' (drop 1 shard_suffix)
      (to_text v ++ b'.' ∷ show_u8 index) (omega arith),
)

pub parse_shard_file_name-record_file_name :
    (v : VersionId) → parse_shard_file_name (record_file_name v) ≡ none
unfolding parse_shard_file_name record_file_name
parse_shard_file_name-record_file_name v = rw (
  parse_shard_file_name,
  strip_suffix_apart b'.' (drop 1 shard_suffix) b'.' (drop 1 record_suffix) (to_text v)
      (omega arith),
)

-- The names of files are read back: for a version id of 16 bytes the name of its record is parsed to
-- it, and for a shard index below 256 the name of its shard to the version and the index, while the
-- parser of either kind reads nothing from a name of the other.
pub file_names_lem :
    (v : VersionId) (index : ShardIndex)
    → AreBytes 16 v
    → index < 256
    → (parse_record_file_name (record_file_name v) ≡ some v)
      × (parse_shard_file_name (shard_file_name v index) ≡ some (v, index))
      × (parse_record_file_name (shard_file_name v index) ≡ none)
      × (parse_shard_file_name (record_file_name v) ≡ none)
file_names_lem v index a lt = (
  parse_record_file_name-record_file_name v a,
  parse_shard_file_name-shard_file_name v index a lt,
  parse_record_file_name-shard_file_name v index,
  parse_shard_file_name-record_file_name v,
)
