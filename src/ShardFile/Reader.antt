-- ===== src/ShardFile/Reader.antt =====
-- `ShardFileReader`: opening a file checks the trailer, the footer, the header and that the three
-- agree; blocks are read with the checksums stored for them. A file is the list of its bytes.
pub mod RoundTrip
pub mod WriteRead
pub mod Finished
use distributed_jbod.Common.{
  ℕ, ◌+◌, ◌-◌, ◌*◌, ◌%◌, ◌^◌, Bool, true, false, not, ◌||◌, Option, none, some, List, Outcome, ok,
  err, panic, ◌>>=◌, ◌>>◌, fail_if, expect, length, get_elem?, ltb, leb, ◌==◌, ◌!=◌, if◌then◌else◌,
  add_u64, mul_u64, sub_u64, is_multiple_of,
}
use distributed_jbod.Common.Bytes.{slice, read_uint}
use distributed_jbod.Erasure.{Block}
use distributed_jbod.Stripe.{BlockChecksum, ShardBlock}
use distributed_jbod.ShardFile.{
  ShardFileHeader, ShardFileFooter, ShardFileError, io, unexpected_eof, too_short,
  trailer_invariant, bad_footer_length, inconsistent_footer, last_block, footer_place,
  block_out_of_range, shard_geometry, geometry_matches, mismatch, header_len, footer_fixed_len,
  trailer_len,
}
use distributed_jbod.ShardFile.Header.{decode}
use distributed_jbod.ShardFile.Footer.{decode_with_trailer}
use distributed_jbod.ShardFile.Writer.{footer_offset}

pub record ShardFileReader : Type 0 where
  pub file : List ℕ
  pub header : ShardFileHeader
  pub footer : ShardFileFooter

-- `file.read_exact_at(buf, offset)` with a buffer of `n` bytes.
unfoldable pub read_exact_at : List ℕ → ℕ → ℕ → Outcome ShardFileError (List ℕ)
read_exact_at file offset n =
    if leb (offset + n) (length file) then ok (slice file offset n) else err (io unexpected_eof)

-- `a.checked_add(b)` on `u64`.
abbrev pub checked_add : ℕ → ℕ → Option ℕ
checked_add a b = if ltb (a + b) (2 ^ 64) then some (a + b) else none

-- `footer_offset + footer_length + 16`, unless it overflows.
abbrev pub described_length : ℕ → ℕ → Option ℕ
described_length offset len = elim (checked_add offset len) [
  | none ↦ none
  | some n ↦ checked_add n trailer_len
]

abbrev pub is_length : Option ℕ → ℕ → Bool
is_length none n = false
is_length (some m) n = m == n

module _ (xxh3_64 : Block → BlockChecksum) where
  -- The checks on a footer and header that were both read.
  pub check_parts :
      List ℕ → ShardFileHeader → ShardFileFooter → ℕ → Outcome ShardFileError ShardFileReader
  check_parts file header footer offset = do
    fail_if (footer.last_block_length == 0 || ltb header.block_length footer.last_block_length)
        (inconsistent_footer (last_block footer.last_block_length header.block_length))
    let expected =
        footer_offset xxh3_64 footer.block_count header.block_length footer.last_block_length
    fail_if (expected != offset) (inconsistent_footer (footer_place expected offset))
    geometry ← shard_geometry header.scheme header.block_length footer.object_size
    fail_if (not (geometry_matches geometry footer.block_count footer.last_block_length))
        (mismatch geometry footer.object_size footer.block_count footer.last_block_length)
    ok (record { file = file; header = header; footer = footer })

  unfoldable pub open_file : List ℕ → Outcome ShardFileError ShardFileReader
  open_file file = do
    let file_length = length file
    fail_if (ltb file_length (header_len + 1 + footer_fixed_len + 8 + trailer_len))
        (too_short file_length)
    trailer ← read_exact_at file (file_length - trailer_len) trailer_len
    footer_length ← read_uint 8 trailer 0
    offset ← read_uint 8 trailer 8
    fail_if (not (is_length (described_length offset footer_length) file_length))
        (trailer_invariant offset footer_length file_length)
    fail_if
        (ltb footer_length footer_fixed_len
          || not (is_multiple_of (footer_length - footer_fixed_len) 8))
        (bad_footer_length footer_length)
    footer_bytes ← read_exact_at file offset (footer_length + trailer_len)
    footer ← decode_with_trailer xxh3_64 footer_bytes
    page ← read_exact_at file 0 header_len
    header ← decode xxh3_64 page
    check_parts file header footer offset

-- The stored length of block `index`.
pub block_length : ShardFileReader → ℕ → Outcome ShardFileError ℕ
block_length r index =
    if leb r.footer.block_count index
    then err (block_out_of_range index r.footer.block_count)
    else if index == sub_u64 r.footer.block_count 1
    then ok r.footer.last_block_length
    else ok r.header.block_length

-- A block with the checksum stored for it; it is not verified.
unfoldable pub read_block : ShardFileReader → ℕ → Outcome ShardFileError ShardBlock
unfolding block_length
read_block r index = do
  n ← block_length r index
  bytes ← read_exact_at r.file (add_u64 header_len (mul_u64 index r.header.block_length)) n
  checksum ← expect (get_elem? r.footer.checksums index)
  ok (record { index = r.header.shard_index; bytes = bytes; checksum = checksum })
