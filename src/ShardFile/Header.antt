-- ===== src/ShardFile/Header.antt =====
-- The header page of a shard file: `ShardFileHeader::encode` and `decode`.
pub mod RoundTrip
use distributed_jbod.Common.{
  ℕ, ◌+◌, ◌%◌, ◌^◌, not, List, [], ◌∷◌, Outcome, ok, err, panic, ◌>>=◌, ◌>>◌, fail_if, map_err,
  length, replicate, bytes_eq, ◌==◌, ◌!=◌, if◌then◌else◌,
}
use distributed_jbod.Common.Bytes.{to_le_bytes, slice, write_at, read_uint}
use distributed_jbod.Common.Writes.{Write, write_all}
use distributed_jbod.Erasure.{Block, Scheme, new_scheme, contains}
use distributed_jbod.Stripe.{BlockChecksum}
use distributed_jbod.ShardFile.{
  ShardFileHeader, ShardFileError, too_short, bad_magic, unsupported_format_version,
  unsupported_checksum_algorithm, header_checksum_mismatch, invalid_scheme,
  shard_index_out_of_range, magic, format_version, checksum_algorithm_xxh3_64, header_len,
}

-- `vec![0u8; HEADER_LEN]`.
pub blank_page : List ℕ
blank_page = replicate header_len 0

-- What `encode` writes into the page before the checksum, in its order, at the `OFF_HEADER_…`
-- offsets.
abbrev pub header_writes : ShardFileHeader → List Write
header_writes h =
    (0, magic)
    ∷ (8, to_le_bytes 4 format_version)
    ∷ (12, to_le_bytes 4 checksum_algorithm_xxh3_64)
    ∷ (16, to_le_bytes 4 0)
    ∷ (20, h.scheme.data_shards % 256 ∷ [])
    ∷ (21, h.scheme.parity_shards % 256 ∷ [])
    ∷ (22, h.shard_index ∷ [])
    ∷ (24, to_le_bytes 8 h.block_length)
    ∷ (32, h.key_hash)
    ∷ (64, h.version_id)
    ∷ []

module _ (xxh3_64 : Block → BlockChecksum) where
  -- Checksum of a region with the 8 bytes at `zeroed_at` taken as zero.
  abbrev pub checksum_with_field_zeroed : List ℕ → ℕ → BlockChecksum
  checksum_with_field_zeroed bytes zeroed_at = xxh3_64 (write_at bytes zeroed_at (replicate 8 0))

  -- Put the checksum into its place.
  abbrev pub seal : List ℕ → ℕ → List ℕ
  seal page offset = write_at page offset (to_le_bytes 8 (checksum_with_field_zeroed page offset))

  unfoldable pub encode : ShardFileHeader → List ℕ
  encode h = seal (write_all blank_page (header_writes h)) 80

  unfoldable pub decode : List ℕ → Outcome ShardFileError ShardFileHeader
  decode page = do
    fail_if (length page != header_len) (too_short (length page))
    fail_if (not (bytes_eq (slice page 0 8) magic)) bad_magic
    format ← read_uint 4 page 8
    fail_if (format != format_version) (unsupported_format_version format)
    algorithm ← read_uint 4 page 12
    fail_if (algorithm != checksum_algorithm_xxh3_64) (unsupported_checksum_algorithm algorithm)
    stored ← read_uint 8 page 80
    fail_if (checksum_with_field_zeroed page 80 != stored) header_checksum_mismatch
    k ← read_uint 1 page 20
    m ← read_uint 1 page 21
    scheme ← map_err invalid_scheme (new_scheme k m)
    shard_index ← read_uint 1 page 22
    fail_if (not (contains scheme shard_index)) (shard_index_out_of_range shard_index)
    block_length ← read_uint 8 page 24
    ok (record {
      scheme = scheme;
      shard_index = shard_index;
      block_length = block_length;
      key_hash = slice page 32 32;
      version_id = slice page 64 16;
    })
