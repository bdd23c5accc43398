-- ===== src/ShardFile.antt =====
-- crates/djbod-core/src/shardfile.rs: the shard file, one device's blocks for one version of one
-- object. Here are the header and footer as records, the errors, and the geometry that an object's
-- size implies; the children hold the two page formats, the writer and the reader.
pub mod Geometry
pub mod Header
pub mod Footer
pub mod Writer
pub mod Reader
pub mod WholeFile
mod Runs
use distributed_jbod.Common.{
  ℕ, ◌+◌, ◌-◌, ◌*◌, ◌%◌, ◌^◌, Bool, true, false, ◌&&◌, Option, none, some, List, [], ◌∷◌, Outcome,
  ok, err, panic, ◌>>=◌, ◌||◌, ◌==◌, if◌then◌else◌, div_ceil, mul_u64, add_u64, sub_u64,
}
use distributed_jbod.Erasure.{Scheme, SchemeError, ShardIndex}
use distributed_jbod.Stripe.{BlockChecksum}
use Prim.Native.String.{String}

-- "DJBOD-SF".
abbrev pub magic : List ℕ
magic = b'D' ∷ b'J' ∷ b'B' ∷ b'O' ∷ b'D' ∷ b'-' ∷ b'S' ∷ b'F' ∷ []

abbrev pub format_version : ℕ
format_version = 1

abbrev pub checksum_algorithm_xxh3_64 : ℕ
checksum_algorithm_xxh3_64 = 1

abbrev pub header_len : ℕ
header_len = 4096

abbrev pub footer_fixed_len : ℕ
footer_fixed_len = 40

abbrev pub trailer_len : ℕ
trailer_len = 16

-- `KeyHash([u8; 32])` and `VersionId([u8; 16])`.
abbrev pub KeyHash : Type 0
KeyHash = List ℕ

abbrev pub VersionId : Type 0
VersionId = List ℕ

pub record ShardFileHeader : Type 0 where
  pub scheme : Scheme
  pub shard_index : ShardIndex
  pub block_length : ℕ
  pub key_hash : KeyHash
  pub version_id : VersionId

pub record ShardFileFooter : Type 0 where
  pub block_count : ℕ
  pub last_block_length : ℕ
  pub object_size : ℕ
  pub object_checksum : BlockChecksum
  pub checksums : List BlockChecksum

pub record ShardGeometry : Type 0 where
  pub block_count : ℕ
  pub last_block_length : ℕ

-- An `io::Error`: a read past the end of a file, or another that the system gives.
pub data IoError : Type 0 where
  unexpected_eof : IoError
  other : String → IoError

-- The messages of `InconsistentFooter` are said by what they tell.
pub data Inconsistency : Type 0 where
  table_entries : (block_count entries : ℕ) → Inconsistency
  last_block : (last_block_length block_length : ℕ) → Inconsistency
  footer_place : (expected actual : ℕ) → Inconsistency

pub data ShardFileError : Type 0 where
  io : IoError → ShardFileError
  too_short : ℕ → ShardFileError
  bad_magic : ShardFileError
  unsupported_format_version : ℕ → ShardFileError
  unsupported_checksum_algorithm : ℕ → ShardFileError
  header_checksum_mismatch : ShardFileError
  invalid_scheme : SchemeError → ShardFileError
  shard_index_out_of_range : ShardIndex → ShardFileError
  trailer_invariant : (footer_offset footer_length file_length : ℕ) → ShardFileError
  bad_footer_length : ℕ → ShardFileError
  footer_checksum_mismatch : ShardFileError
  inconsistent_footer : Inconsistency → ShardFileError
  block_out_of_range : (index count : ℕ) → ShardFileError
  wrong_shard_index : (expected actual : ShardIndex) → ShardFileError
  bad_block_length : (actual max : ℕ) → ShardFileError
  block_after_short_block : ShardFileError
  supplied_checksum_mismatch : (supplied computed : BlockChecksum) → ShardFileError
  no_blocks : ShardFileError
  geometry_mismatch :
      (object_size expected_blocks expected_last actual_blocks actual_last : ℕ) → ShardFileError

-- `shard_geometry`, in `u64`. The product `k * block_length` wraps, and a division by the product 0
-- panics.
unfoldable pub shard_geometry : Scheme → ℕ → ℕ → Outcome ShardFileError (Option ShardGeometry)
shard_geometry s block_length object_size =
    if object_size == 0 || block_length == 0
    then ok none
    else let k = s.data_shards in
      let stripe_bytes = mul_u64 k block_length in
      let block_count = div_ceil object_size stripe_bytes in
      let last_stripe_bytes = sub_u64 object_size (mul_u64 (sub_u64 block_count 1) stripe_bytes) in
      if stripe_bytes == 0
      then panic
      else ok (
          some (record {
            block_count = block_count;
            last_block_length = div_ceil last_stripe_bytes k;
          }))

-- `shard_file_length`.
unfoldable pub shard_file_length : Scheme → ℕ → ℕ → Outcome ShardFileError (Option ℕ)
shard_file_length s block_length object_size = do
  geometry ← shard_geometry s block_length object_size
  ok (elim geometry [
    | none ↦ none
    | some g ↦ some (
        add_u64
          (add_u64
            (add_u64
              (add_u64 (add_u64 header_len (mul_u64 (sub_u64 g.block_count 1) block_length))
                g.last_block_length)
              footer_fixed_len)
            (mul_u64 8 g.block_count))
          trailer_len)
  ])

-- Does the geometry of an object fit what a file has? The match that `finish` and `open` share.
abbrev pub geometry_matches : Option ShardGeometry → ℕ → ℕ → Bool
geometry_matches none blocks last = false
geometry_matches (some g) blocks last = (g.block_count == blocks) && (g.last_block_length == last)

abbrev pub mismatch : Option ShardGeometry → ℕ → ℕ → ℕ → ShardFileError
mismatch none object_size blocks last = geometry_mismatch object_size 0 0 blocks last
mismatch (some g) object_size blocks last =
    geometry_mismatch object_size g.block_count g.last_block_length blocks last
