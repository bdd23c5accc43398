-- ===== src/ShardFile/Writer.antt =====
-- `ShardFileWriter`: the header at creation, blocks as they are appended, footer and trailer at the
-- end. A file is its bytes and the position of the next write; of the system's calls only the
-- reservation can fail.
pub mod Shape
pub mod Invariant
pub mod Extent
use distributed_jbod.Common.{
  ℕ, ◌+◌, ◌-◌, ◌*◌, ◌%◌, ◌^◌, Bool, true, false, not, ◌||◌, Option, none, some, List, [], ◌∷◌, ◌++◌,
  Outcome, ok, err, panic, ◌>>=◌, ◌>>◌, fail_if, length, replicate, is_empty, ltb, ◌==◌, ◌!=◌,
  if◌then◌else◌, add_u64, mul_u64, sub_u64,
}
use distributed_jbod.Common.Bytes.{write_at}
use distributed_jbod.Erasure.{Block, contains}
use distributed_jbod.Stripe.{BlockChecksum, ShardBlock}
use distributed_jbod.ShardFile.{
  ShardFileHeader, ShardFileFooter, ShardFileError, IoError, io, shard_index_out_of_range,
  wrong_shard_index, block_after_short_block, bad_block_length, supplied_checksum_mismatch,
  no_blocks, shard_geometry, geometry_matches, mismatch, header_len,
}
use distributed_jbod.ShardFile.Header.{encode}
use distributed_jbod.ShardFile.Footer.{encode_with_trailer}

pub record File : Type 0 where
  pub content : List ℕ
  pub position : ℕ

-- `file.write_all(bytes)`: past the end the file grows.
abbrev pub write_bytes : File → List ℕ → File
write_bytes f bytes = record {
  content = write_at f.content f.position bytes;
  position = f.position + length bytes;
}

pub record ShardFileWriter : Type 0 where
  pub file : File
  pub header : ShardFileHeader
  pub checksums : List BlockChecksum
  pub last_block_length : ℕ
  pub short_block_written : Bool

-- `fallocate(2)` of mode 0 on a new file makes it `length` zeros long. The system's answer is a
-- parameter.
abbrev pub reserve : (ℕ → Option IoError) → Option ℕ → Outcome ShardFileError (List ℕ)
reserve fallocate none = ok []
reserve fallocate (some n) = elim (fallocate n) [ none ↦ ok (replicate n 0) | some e ↦ err (io e) ]

module _ (xxh3_64 : Block → BlockChecksum) where
  abbrev pub new_writer : ShardFileHeader → List ℕ → ShardFileWriter
  new_writer header content = record {
    file = write_bytes (record { content = content; position = 0 }) (encode xxh3_64 header);
    header = header;
    checksums = [];
    last_block_length = 0;
    short_block_written = false;
  }

  unfoldable pub create_with_reservation :
      (ℕ → Option IoError) → ShardFileHeader → Option ℕ → Outcome ShardFileError ShardFileWriter
  create_with_reservation fallocate header reserve_length = do
    fail_if (not (contains header.scheme header.shard_index))
        (shard_index_out_of_range header.shard_index)
    content ← reserve fallocate reserve_length
    ok (new_writer header content)

  -- The writer after a block that passes the checks.
  abbrev pub push_block : ShardFileWriter → ShardBlock → ShardFileWriter
  push_block w block = record {
    file = write_bytes w.file block.bytes;
    header = w.header;
    checksums = w.checksums ++ xxh3_64 block.bytes ∷ [];
    last_block_length = length block.bytes;
    short_block_written =
        if ltb (length block.bytes) w.header.block_length then true else w.short_block_written;
  }

  unfoldable pub append_block :
      ShardFileWriter → ShardBlock → Outcome ShardFileError ShardFileWriter
  append_block w block = do
    fail_if (block.index != w.header.shard_index)
        (wrong_shard_index w.header.shard_index block.index)
    fail_if w.short_block_written block_after_short_block
    let len = length block.bytes
    fail_if (len == 0 || ltb w.header.block_length len) (bad_block_length len w.header.block_length)
    let computed = xxh3_64 block.bytes
    fail_if (computed != block.checksum) (supplied_checksum_mismatch block.checksum computed)
    ok (push_block w block)

  abbrev pub footer_of : ShardFileWriter → ℕ → BlockChecksum → ShardFileFooter
  footer_of w object_size object_checksum = record {
    block_count = length w.checksums;
    last_block_length = w.last_block_length;
    object_size = object_size;
    object_checksum = object_checksum;
    checksums = w.checksums;
  }

  -- Where the footer goes, in `u64`.
  abbrev pub footer_offset : ℕ → ℕ → ℕ → ℕ
  footer_offset block_count block_length last_block_length =
      add_u64 (add_u64 header_len (mul_u64 (sub_u64 block_count 1) block_length)) last_block_length

  -- The footer and the finished file.
  unfoldable pub finish :
      ShardFileWriter → ℕ → BlockChecksum → Outcome ShardFileError (ShardFileFooter × File)
  finish w object_size object_checksum = do
    fail_if (is_empty w.checksums) no_blocks
    let blocks = length w.checksums
    expected ← shard_geometry w.header.scheme w.header.block_length object_size
    fail_if (not (geometry_matches expected blocks w.last_block_length))
        (mismatch expected object_size blocks w.last_block_length)
    let footer = footer_of w object_size object_checksum
    let offset = footer_offset blocks w.header.block_length w.last_block_length
    ok (footer, write_bytes w.file (encode_with_trailer xxh3_64 footer offset))
