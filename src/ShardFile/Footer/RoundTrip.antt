-- ===== src/ShardFile/Footer/RoundTrip.antt =====
-- `decode_with_trailer` reads back the footer that `encode_with_trailer` wrote, and the trailer names
-- the footer's length and place.
use distributed_jbod.Common.{
  ℕ, suc, ◌+◌, ◌*◌, ◌/◌, ◌%◌, ◌^◌, ◌≤◌, ◌<◌, ◌≡◌, refl, sym, ◌∙◌, ap, List, [], ◌∷◌, ◌++◌, ok,
  length, replicate, length-replicate, All, All-split, arith, ==_of_eq, ==_of_pos, le→ltb, sub_u64,
}
use distributed_jbod.Common.Bytes.{
  to_le_bytes, from_le_bytes, from_le_bytes-to_le_bytes, length-to_le_bytes, slice, read_uint_lem,
  slice-write_at_before, slice-write_at_after,
}
use distributed_jbod.Common.Writes.{
  Write, write_all, Ascend, Ascend-lower, length-write_all, Reads, write_all-Reads,
}
use distributed_jbod.Erasure.{Block}
use distributed_jbod.Stripe.{BlockChecksum}
use distributed_jbod.ShardFile.{ShardFileFooter, footer_fixed_len, trailer_len}
use distributed_jbod.ShardFile.Header.{checksum_with_field_zeroed, seal}
use distributed_jbod.ShardFile.Header.RoundTrip.{
  IsU64Valued, seal_checksum, seal_stored, length-seal,
}
use distributed_jbod.ShardFile.Footer.{
  encoded_length, table_writes, footer_writes, encode_with_trailer, read_table, decode_with_trailer,
}

abbrev pub IsU64 : ℕ → Type 0
IsU64 n = n < 2 ^ 64

-- The values that a footer's types allow, with a table that has an entry for each block.
pub record IsFooter (f : ShardFileFooter) : Type 0 where
  pub some_blocks : 0 < f.block_count
  pub table : length f.checksums ≡ f.block_count
  pub table_entries : All IsU64 f.checksums
  pub fits : 8 * f.block_count + 56 < 2 ^ 64
  pub last_block_length : f.last_block_length < 2 ^ 64
  pub object_size : f.object_size < 2 ^ 64
  pub object_checksum : f.object_checksum < 2 ^ 64

table-Ascend :
    (low high : ℕ) (checksums : List BlockChecksum) (more : List Write)
    → Ascend (low + 8 * length checksums) high more
    → Ascend low high (table_writes low checksums ++ more)
table-Ascend low high [] more h = rw (let e : low ≡ low + 8 * 0 = omega arith in e) h
table-Ascend low high (c ∷ checksums) more h =
    let size = length-to_le_bytes 8 c in
    let here : low + 8 * suc (length checksums) ≡ low + 8 + 8 * length checksums = omega arith in
    (omega arith, rw size (table-Ascend (low + 8) high checksums more (rw here at h)))

footer_writes-Ascend :
    (f : ShardFileFooter) (offset : ℕ)
    → Ascend 0 (encoded_length f + trailer_len) (footer_writes f offset)
unfolding to_le_bytes
footer_writes-Ascend f offset = (
  omega arith,
  (
    omega arith,
    (
      omega arith,
      (
        omega arith,
        Ascend-lower _ 40 _ _ (omega arith)
            (table-Ascend 40 (encoded_length f + trailer_len) f.checksums _ (omega arith)),
      ),
    ),
  ),
)

-- The table reads back.
read_table_lem :
    (xxh3_64 : Block → BlockChecksum) (bytes : List ℕ) (offset : ℕ) (checksums : List BlockChecksum)
    → All (Reads bytes) (table_writes offset checksums)
    → All IsU64 checksums
    → offset + 8 * length checksums ≤ length bytes
    → read_table xxh3_64 bytes offset (length checksums) ≡ ok checksums
unfolding read_table
read_table_lem xxh3_64 bytes offset [] r s h = refl
read_table_lem xxh3_64 bytes offset (c ∷ checksums) r s h =
    let here : from_le_bytes (slice bytes offset 8) ≡ c =
      ap from_le_bytes (ap (slice bytes offset) (sym (length-to_le_bytes 8 c)) ∙ r.0)
      ∙ from_le_bytes-to_le_bytes 8 c s.0 in
    rw (
      read_uint_lem 8 bytes offset (omega arith),
      here,
      read_table_lem xxh3_64 bytes (offset + 8) checksums r.1 s.1 (omega arith),
    )

module _ (xxh3_64 : Block → BlockChecksum) where
  -- The table is above the checksum, and sealing does not change it.
  sealed_table :
      (page : List ℕ) (offset : ℕ) (checksums : List BlockChecksum)
      → 40 ≤ offset
      → 40 ≤ length page
      → All (Reads page) (table_writes offset checksums)
      → All (Reads (seal xxh3_64 page 32)) (table_writes offset checksums)
  sealed_table page offset [] h size r = tt
  sealed_table page offset (c ∷ checksums) h size r =
      let width = length-to_le_bytes 8 (checksum_with_field_zeroed xxh3_64 page 32) in
      (
        slice-write_at_after page 32 _ offset _ (omega arith) (omega arith) ∙ r.0,
        sealed_table page (offset + 8) checksums (omega arith) size r.1,
      )

  -- The fields of a footer and trailer, as the reader finds them.
  pub record HasFooter (f : ShardFileFooter) (footer_offset : ℕ) (bytes : List ℕ) : Type 0 where
    pub size : length bytes ≡ encoded_length f + trailer_len
    pub count_read : from_le_bytes (slice bytes 0 8) ≡ f.block_count
    pub last_read : from_le_bytes (slice bytes 8 8) ≡ f.last_block_length
    pub size_read : from_le_bytes (slice bytes 16 8) ≡ f.object_size
    pub checksum_read : from_le_bytes (slice bytes 24 8) ≡ f.object_checksum
    pub table_read : All (Reads bytes) (table_writes 40 f.checksums)
    pub length_read : from_le_bytes (slice bytes (encoded_length f) 8) ≡ encoded_length f
    pub offset_read : from_le_bytes (slice bytes (encoded_length f + 8) 8) ≡ footer_offset
    pub sealed : checksum_with_field_zeroed xxh3_64 bytes 32 ≡ from_le_bytes (slice bytes 32 8)

  pub decode_with_trailer-HasFooter :
      (f : ShardFileFooter) (footer_offset : ℕ) (bytes : List ℕ)
      → IsFooter f
      → HasFooter f footer_offset bytes
      → decode_with_trailer xxh3_64 bytes ≡ ok f
  unfolding decode_with_trailer
  decode_with_trailer-HasFooter f footer_offset bytes v h =
      let size = h.size in
      let table = v.table in
      let fits = v.fits in
      let footer_len : sub_u64 (length bytes) trailer_len ≡ encoded_length f = omega arith in
      let rest : sub_u64 (encoded_length f) footer_fixed_len ≡ 8 * f.block_count = omega arith in
      let whole : 8 * f.block_count % 8 ≡ 0 = omega arith in
      let entries : 8 * f.block_count / 8 ≡ f.block_count = omega arith in
      rw (
        footer_len,
        le→ltb (encoded_length f) footer_fixed_len (omega arith),
        rest,
        whole,
        read_uint_lem 8 bytes 32 (omega arith),
        ==_of_eq _ _ h.sealed,
        read_uint_lem 8 bytes 0 (omega arith),
        h.count_read,
        entries,
        ==_of_eq f.block_count f.block_count refl,
        ==_of_pos f.block_count v.some_blocks,
        ← table,
        read_table_lem xxh3_64 bytes 40 f.checksums h.table_read v.table_entries (omega arith),
        read_uint_lem 8 bytes 8 (omega arith),
        h.last_read,
        read_uint_lem 8 bytes 16 (omega arith),
        h.size_read,
        read_uint_lem 8 bytes 24 (omega arith),
        h.checksum_read,
      )

  module _ (f : ShardFileFooter) (footer_offset : ℕ) where
    abbrev blank : List ℕ
    blank = replicate (encoded_length f + trailer_len) 0

    abbrev page : List ℕ
    page = write_all blank (footer_writes f footer_offset)

    page-Ascend : Ascend 0 (length blank) (footer_writes f footer_offset)
    page-Ascend =
        rw (length-replicate {A = ℕ} (encoded_length f + trailer_len) 0)
          (footer_writes-Ascend f footer_offset)

    page_size : length page ≡ encoded_length f + trailer_len
    page_size =
        length-write_all blank 0 (footer_writes f footer_offset) page-Ascend
        ∙ length-replicate {A = ℕ} (encoded_length f + trailer_len) 0

    page-Reads : All (Reads page) (footer_writes f footer_offset)
    page-Reads = write_all-Reads blank 0 (footer_writes f footer_offset) page-Ascend

    pub length-encode_with_trailer :
        length (encode_with_trailer xxh3_64 f footer_offset) ≡ encoded_length f + trailer_len
    unfolding encode_with_trailer
    length-encode_with_trailer = length-seal xxh3_64 page 32 (omega (arith, page_size)) ∙ page_size

    module _ (u : IsU64Valued xxh3_64) (v : IsFooter f) where
      -- A number of the page reads back, below the checksum and above it.
      number_below :
          (offset n : ℕ)
          → offset + 8 ≤ 32
          → IsU64 n
          → Reads page (offset, to_le_bytes 8 n)
          → from_le_bytes (slice (seal xxh3_64 page 32) offset 8) ≡ n
      number_below offset n le small reads =
          ap from_le_bytes (
            slice-write_at_before page 32 _ offset 8 le (omega (arith, page_size))
            ∙ ap (slice page offset) (sym (length-to_le_bytes 8 n))
            ∙ reads)
          ∙ from_le_bytes-to_le_bytes 8 n small

      number_above :
          (offset n : ℕ)
          → 40 ≤ offset
          → IsU64 n
          → Reads page (offset, to_le_bytes 8 n)
          → from_le_bytes (slice (seal xxh3_64 page 32) offset 8) ≡ n
      number_above offset n le small reads =
          let width = length-to_le_bytes 8 (checksum_with_field_zeroed xxh3_64 page 32) in
          ap from_le_bytes (
            slice-write_at_after page 32 _ offset 8 (omega arith) (omega (arith, page_size))
            ∙ ap (slice page offset) (sym (length-to_le_bytes 8 n))
            ∙ reads)
          ∙ from_le_bytes-to_le_bytes 8 n small

      encode_with_trailer-HasFooter :
          IsU64 footer_offset
          → HasFooter f footer_offset (encode_with_trailer xxh3_64 f footer_offset)
      unfolding encode_with_trailer
      encode_with_trailer-HasFooter small =
          let r = page-Reads in
          let (table, trailer) = All-split (Reads page) (table_writes 40 f.checksums) _ r.1.1.1.1 in
          let in_page : 32 + 8 ≤ length page = omega (arith, page_size) in
          record {
            size = length-seal xxh3_64 page 32 in_page ∙ page_size;
            count_read = number_below 0 f.block_count (omega arith) (omega (arith, v.fits)) r.0;
            last_read = number_below 8 f.last_block_length (omega arith) v.last_block_length r.1.0;
            size_read = number_below 16 f.object_size (omega arith) v.object_size r.1.1.0;
            checksum_read =
                number_below 24 f.object_checksum (omega arith) v.object_checksum r.1.1.1.0;
            table_read = sealed_table page 40 f.checksums (omega arith) (omega arith) table;
            length_read =
                number_above (encoded_length f) (encoded_length f) (omega arith)
                  (omega (arith, v.fits, v.table)) trailer.0;
            offset_read =
                number_above (encoded_length f + 8) footer_offset (omega arith) small trailer.1.0;
            sealed =
                seal_checksum xxh3_64 page 32 in_page ∙ sym (seal_stored xxh3_64 page 32 u in_page);
          }

  -- A footer reads back: for a footer that its types allow, with a table that has an entry for each
  -- block, and a checksum function into 64 bits, `encode_with_trailer` writes `encoded_length` and 16
  -- bytes that `decode_with_trailer` accepts and turns into the same footer, and whose last 16 bytes
  -- hold the footer's length and its offset.
  pub decode_with_trailer-encode_with_trailer :
      (f : ShardFileFooter) (footer_offset : ℕ)
      → IsU64Valued xxh3_64
      → IsFooter f
      → IsU64 footer_offset
      → let bytes = encode_with_trailer xxh3_64 f footer_offset in
        (decode_with_trailer xxh3_64 bytes ≡ ok f)
        × (length bytes ≡ encoded_length f + trailer_len)
        × (from_le_bytes (slice bytes (encoded_length f) 8) ≡ encoded_length f)
        × (from_le_bytes (slice bytes (encoded_length f + 8) 8) ≡ footer_offset)
  decode_with_trailer-encode_with_trailer f footer_offset u v small =
      let h = encode_with_trailer-HasFooter f footer_offset u v small in
      (decode_with_trailer-HasFooter f footer_offset _ v h, h.size, h.length_read, h.offset_read)
