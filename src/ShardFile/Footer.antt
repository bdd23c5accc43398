-- ===== src/ShardFile/Footer.antt =====
-- The footer and trailer of a shard file: `ShardFileFooter::encode_with_trailer` and
-- `decode_with_trailer`.
pub mod RoundTrip
use distributed_jbod.Common.{
  ℕ, zero, suc, ◌+◌, ◌-◌, ◌*◌, ◌/◌, ◌%◌, ◌^◌, not, ◌||◌, List, [], ◌∷◌, ◌++◌, Outcome, ok, err,
  panic, ◌>>=◌, ◌>>◌, fail_if, length, replicate, ltb, ◌==◌, ◌!=◌, if◌then◌else◌, sub_u64,
  is_multiple_of,
}
use distributed_jbod.Common.Bytes.{to_le_bytes, slice, write_at, read_uint}
use distributed_jbod.Common.Writes.{Write, write_all}
use distributed_jbod.Erasure.{Block}
use distributed_jbod.Stripe.{BlockChecksum}
use distributed_jbod.ShardFile.{
  ShardFileFooter, ShardFileError, bad_footer_length, footer_checksum_mismatch, inconsistent_footer,
  table_entries, no_blocks, footer_fixed_len, trailer_len,
}
use distributed_jbod.ShardFile.Header.{checksum_with_field_zeroed, seal}

abbrev pub encoded_length : ShardFileFooter → ℕ
encoded_length f = footer_fixed_len + 8 * length f.checksums

-- The loop over the checksum table.
abbrev pub table_writes : ℕ → List BlockChecksum → List Write
table_writes offset [] = []
table_writes offset (c ∷ checksums) =
    (offset, to_le_bytes 8 c) ∷ table_writes (offset + 8) checksums

-- What `encode_with_trailer` writes before the checksum, in its order.
abbrev pub footer_writes : ShardFileFooter → ℕ → List Write
footer_writes f footer_offset =
    (0, to_le_bytes 8 f.block_count)
    ∷ (8, to_le_bytes 8 f.last_block_length)
    ∷ (16, to_le_bytes 8 f.object_size)
    ∷ (24, to_le_bytes 8 f.object_checksum)
    ∷ (table_writes 40 f.checksums
        ++ ((encoded_length f, to_le_bytes 8 (encoded_length f))
            ∷ (encoded_length f + 8, to_le_bytes 8 footer_offset)
            ∷ []))

module _ (xxh3_64 : Block → BlockChecksum) where
  unfoldable pub encode_with_trailer : ShardFileFooter → ℕ → List ℕ
  encode_with_trailer f footer_offset =
      let page = replicate (encoded_length f + trailer_len) 0 in
      seal xxh3_64 (write_all page (footer_writes f footer_offset)) 32

  -- The loop that reads `count` entries of the table.
  pub read_table : List ℕ → ℕ → ℕ → Outcome ShardFileError (List BlockChecksum)
  read_table bytes offset zero = ok []
  read_table bytes offset (suc count) = do
    c ← read_uint 8 bytes offset
    rest ← read_table bytes (offset + 8) count
    ok (c ∷ rest)

  unfoldable pub decode_with_trailer : List ℕ → Outcome ShardFileError ShardFileFooter
  decode_with_trailer bytes = do
    let footer_len = sub_u64 (length bytes) trailer_len
    fail_if
        (ltb footer_len footer_fixed_len
          || not (is_multiple_of (sub_u64 footer_len footer_fixed_len) 8))
        (bad_footer_length footer_len)
    stored ← read_uint 8 bytes 32
    fail_if (checksum_with_field_zeroed xxh3_64 bytes 32 != stored) footer_checksum_mismatch
    block_count ← read_uint 8 bytes 0
    let entries = sub_u64 footer_len footer_fixed_len / 8
    fail_if (block_count != entries) (inconsistent_footer (table_entries block_count entries))
    fail_if (block_count == 0) no_blocks
    checksums ← read_table bytes 40 block_count
    last_block_length ← read_uint 8 bytes 8
    object_size ← read_uint 8 bytes 16
    object_checksum ← read_uint 8 bytes 24
    ok (record {
      block_count = block_count;
      last_block_length = last_block_length;
      object_size = object_size;
      object_checksum = object_checksum;
      checksums = checksums;
    })
