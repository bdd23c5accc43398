-- ===== src/Naming/FileNames.antt =====
-- crates/djbod-core/src/layout.rs: the names of record and shard files, and the parsers that read a
-- version and a shard index back from a directory entry.
pub mod Suffixes
pub mod RoundTrip
use distributed_jbod.Common.{
  ℕ, ◌+◌, ◌-◌, ◌*◌, ◌/◌, ◌%◌, Bool, true, false, not, ◌&&◌, Option, none, some, List, [], ◌∷◌, ◌++◌,
  length, take, drop, leb, ltb, ◌==◌, if◌then◌else◌, bytes_eq,
}
use distributed_jbod.Erasure.{ShardIndex}
use distributed_jbod.ShardFile.{KeyHash, VersionId}
use distributed_jbod.Naming.{Text, to_text, from_text, directory_components}

-- "objects", "default", ".meta.json" and ".shard".
abbrev pub objects_dir : Text
objects_dir = b'o' ∷ b'b' ∷ b'j' ∷ b'e' ∷ b'c' ∷ b't' ∷ b's' ∷ []

abbrev pub default_bucket : Text
default_bucket = b'd' ∷ b'e' ∷ b'f' ∷ b'a' ∷ b'u' ∷ b'l' ∷ b't' ∷ []

abbrev pub record_suffix : Text
record_suffix = b'.' ∷ b'm' ∷ b'e' ∷ b't' ∷ b'a' ∷ b'.' ∷ b'j' ∷ b's' ∷ b'o' ∷ b'n' ∷ []

abbrev pub shard_suffix : Text
shard_suffix = b'.' ∷ b's' ∷ b'h' ∷ b'a' ∷ b'r' ∷ b'd' ∷ []

-- `name.ends_with(suffix)`, `name.starts_with(prefix)`, `name.strip_suffix(suffix)`.
abbrev pub ends_with : Text → Text → Bool
ends_with suffix name =
    leb (length suffix) (length name) && bytes_eq (drop (length name - length suffix) name) suffix

abbrev pub starts_with : Text → Text → Bool
starts_with [] name = true
starts_with (c ∷ prefix) [] = false
starts_with (c ∷ prefix) (d ∷ name) = c == d && starts_with prefix name

unfoldable pub strip_suffix : Text → Text → Option Text
strip_suffix suffix name =
    if ends_with suffix name then some (take (length name - length suffix) name) else none

-- `name.split_once(c)`.
unfoldable pub split_once : ℕ → Text → Option (Text × Text)
split_once c [] = none
split_once c (d ∷ name) =
    if d == c
    then some ([], name)
    else elim (split_once c name) [ none ↦ none | some (before, after) ↦ some (d ∷ before, after) ]

abbrev pub is_digit : ℕ → Bool
is_digit c = leb b'0' c && leb c b'9'

-- `Display` of a `u8`.
unfoldable pub show_u8 : ℕ → Text
show_u8 n =
    if ltb n 10
    then (n + b'0') ∷ []
    else if ltb n 100
    then (n / 10 + b'0') ∷ (n % 10 + b'0') ∷ []
    else (n / 100 + b'0') ∷ (n / 10 % 10 + b'0') ∷ (n % 10 + b'0') ∷ []

-- The digits of `str::parse::<u8>`: a character that is no digit and an overflow are errors.
unfoldable pub read_u8 : ℕ → Text → Option ℕ
read_u8 value [] = some value
read_u8 value (c ∷ cs) =
    let next = value * 10 + (c - b'0') in
    let rest = read_u8 next cs in if is_digit c && leb next 255 then rest else none

-- A plus sign may stand before the digits, and there is at least one.
unfoldable pub parse_u8 : Text → Option ℕ
parse_u8 [] = none
parse_u8 (c ∷ []) = read_u8 0 (c ∷ [])
parse_u8 (c ∷ d ∷ cs) = if c == b'+' then read_u8 0 (d ∷ cs) else read_u8 0 (c ∷ d ∷ cs)

-- The path of a key's directory, by its components below the device's root.
unfoldable pub object_directory : Text → KeyHash → List Text
object_directory bucket hash =
    let (first, second, full) = directory_components hash in
    objects_dir ∷ bucket ∷ first ∷ second ∷ full ∷ []

unfoldable pub record_file_name : VersionId → Text
record_file_name version = to_text version ++ record_suffix

unfoldable pub shard_file_name : VersionId → ShardIndex → Text
shard_file_name version index = to_text version ++ b'.' ∷ (show_u8 index ++ shard_suffix)

unfoldable pub parse_shard_file_name : Text → Option (VersionId × ShardIndex)
parse_shard_file_name name = elim (strip_suffix shard_suffix name) [
  | none ↦ none
  | some stem ↦ elim (split_once b'.' stem) [
    | none ↦ none
    | some (version_text, index_text) ↦ elim (from_text version_text) [
      | none ↦ none
      | some version ↦ elim (parse_u8 index_text) [
        | none ↦ none
        | some index ↦ some (version, index)
      ]
    ]
  ]
]

unfoldable pub parse_record_file_name : Text → Option VersionId
parse_record_file_name name = elim (strip_suffix record_suffix name) [
  | none ↦ none
  | some version_text ↦ from_text version_text
]
