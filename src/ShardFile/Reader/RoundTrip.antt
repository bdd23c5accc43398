-- ===== src/ShardFile/Reader/RoundTrip.antt =====
-- A file that the writer finished is opened by the reader, with the same header, footer and blocks.
use distributed_jbod.Common.{
  ℕ, ◌+◌, ◌-◌, ◌*◌, ◌%◌, ◌^◌, ◌≤◌, ◌<◌, ◌≡◌, refl, sym, ◌∙◌, ap, true, Option, List, ◌++◌, ok,
  length, length-append, arith, le→leb, le→ltb, ==_of_eq, ==_of_pos, take_all, take-append_left,
}
use distributed_jbod.Common.Bytes.{
  from_le_bytes, slice, slice-slice, slice-append_right, length-slice, read_uint, read_uint_lem,
}
use distributed_jbod.Erasure.{Block}
use distributed_jbod.Stripe.{BlockChecksum}
use distributed_jbod.ShardFile.{
  ShardFileHeader, ShardFileFooter, ShardFileError, ShardGeometry, shard_geometry, geometry_matches,
  header_len, footer_fixed_len, trailer_len,
}
use distributed_jbod.ShardFile.Header.{encode, decode}
use distributed_jbod.ShardFile.Header.RoundTrip.{IsHeader, IsU64Valued, decode-encode}
use distributed_jbod.ShardFile.Footer.{encoded_length, encode_with_trailer, decode_with_trailer}
use distributed_jbod.ShardFile.Footer.RoundTrip.{IsFooter, decode_with_trailer-encode_with_trailer}
use distributed_jbod.ShardFile.Writer.{footer_offset}
use distributed_jbod.ShardFile.Reader.{
  ShardFileReader, read_exact_at, described_length, is_length, check_parts, open_file,
}

pub read_exact_at_lem :
    (file : List ℕ) (offset n : ℕ)
    → offset + n ≤ length file
    → read_exact_at file offset n ≡ ok (slice file offset n)
unfolding read_exact_at
read_exact_at_lem file offset n h = rw (le→leb _ _ h)

module _ (xxh3_64 : Block → BlockChecksum) where
  -- What a finished file is made of.
  pub record Parts (header : ShardFileHeader) (body : List ℕ) (footer : ShardFileFooter)
      (offset : ℕ) (file : List ℕ) : Type 0 where
    pub bytes : file ≡ encode xxh3_64 header ++ (body ++ encode_with_trailer xxh3_64 footer offset)
    pub header_valid : IsHeader header
    pub footer_valid : IsFooter footer
    pub place : offset ≡ header_len + length body
    pub some_body : 0 < length body
    pub small : header_len + length body + encoded_length footer + trailer_len < 2 ^ 64

  module _ (u : IsU64Valued xxh3_64) {header : ShardFileHeader} {body : List ℕ}
      {footer : ShardFileFooter} {offset : ℕ} {file : List ℕ}
      (p : Parts header body footer offset file) where
    abbrev tail : List ℕ
    tail = encode_with_trailer xxh3_64 footer offset

    tail_lem :
        (decode_with_trailer xxh3_64 tail ≡ ok footer)
        × (length tail ≡ encoded_length footer + trailer_len)
        × (from_le_bytes (slice tail (encoded_length footer) 8) ≡ encoded_length footer)
        × (from_le_bytes (slice tail (encoded_length footer + 8) 8) ≡ offset)
    tail_lem =
        decode_with_trailer-encode_with_trailer xxh3_64 footer offset u p.footer_valid
          (omega (arith, p.small, p.place))

    page_lem :
        (length (encode xxh3_64 header) ≡ header_len)
        × (decode xxh3_64 (encode xxh3_64 header) ≡ ok header)
    page_lem = decode-encode xxh3_64 header u p.header_valid

    pub file_length : length file ≡ header_len + length body + encoded_length footer + trailer_len
    file_length =
        ap length p.bytes
        ∙ omega (
          arith,
          length-append (encode xxh3_64 header) (body ++ tail),
          length-append body tail,
          page_lem.0,
          tail_lem.1,
        )

    -- A range of the footer is a range of the file.
    tail_slice : (a n : ℕ) → slice file (offset + a) n ≡ slice tail a n
    tail_slice a n =
        ap (λ f. slice f (offset + a) n) p.bytes
        ∙ slice-append_right (encode xxh3_64 header) (body ++ tail) (offset + a) (length body + a) n
            (omega (arith, page_lem.0, p.place))
        ∙ slice-append_right body tail (length body + a) a n refl

    whole_tail : slice file offset (encoded_length footer + trailer_len) ≡ tail
    whole_tail =
        let here : offset ≡ offset + 0 = omega arith in
        ap (λ o. slice file o (encoded_length footer + trailer_len)) here
        ∙ tail_slice 0 (encoded_length footer + trailer_len)
        ∙ take_all _ tail (omega (arith, tail_lem.1))

    whole_page : slice file 0 header_len ≡ encode xxh3_64 header
    whole_page =
        ap (λ f. slice f 0 header_len) p.bytes
        ∙ take-append_left (encode xxh3_64 header) (body ++ tail) header_len (sym page_lem.0)

    -- The trailer, read from the end of the file.
    abbrev trailer : List ℕ
    trailer = slice file (length file - trailer_len) trailer_len

    trailer_number :
        (a n : ℕ)
        → a + 8 ≤ trailer_len
        → from_le_bytes (slice tail (encoded_length footer + a) 8) ≡ n
        → read_uint {E = ShardFileError} 8 trailer a ≡ ok n
    trailer_number a n h e =
        let start : length file - trailer_len + a ≡ offset + (encoded_length footer + a) =
          omega (arith, file_length, p.place) in
        read_uint_lem 8 trailer a (
          omega (
            arith,
            length-slice file (length file - trailer_len) trailer_len (omega (arith, file_length)),
          ))
        ∙ ap ok (
            ap from_le_bytes (
              slice-slice file (length file - trailer_len) trailer_len a 8 h
              ∙ ap (λ o. slice file o 8) start
              ∙ tail_slice (encoded_length footer + a) 8)
            ∙ e)

    -- The three parts agree: the last block's length, the footer's place, and the geometry.
    pub record Agree (geometry : Option ShardGeometry) : Type 0 where
      pub last_some : 0 < footer.last_block_length
      pub last_fits : footer.last_block_length ≤ header.block_length
      pub offset_same :
          footer_offset xxh3_64 footer.block_count header.block_length footer.last_block_length
          ≡ offset
      pub geometry_runs :
          shard_geometry header.scheme header.block_length footer.object_size ≡ ok geometry
      pub geometry_same :
          geometry_matches geometry footer.block_count footer.last_block_length ≡ true

    abbrev opened : ShardFileReader
    opened = record { file = file; header = header; footer = footer }

    check_parts_lem :
        (geometry : Option ShardGeometry)
        → Agree geometry
        → check_parts xxh3_64 file header footer offset ≡ ok opened
    unfolding check_parts
    check_parts_lem geometry g = rw (
      ==_of_pos _ g.last_some,
      le→ltb _ _ g.last_fits,
      ==_of_eq _ _ g.offset_same,
      g.geometry_runs,
      g.geometry_same,
    )

    described : is_length (described_length offset (encoded_length footer)) (length file) ≡ true
    described = ground (arith, file_length, p.place, p.small)

    length_read : from_le_bytes (slice tail (encoded_length footer + 0) 8) ≡ encoded_length footer
    length_read =
        let here : encoded_length footer + 0 ≡ encoded_length footer = omega arith in
        ap (λ o. from_le_bytes (slice tail o 8)) here ∙ tail_lem.2

    pub open_file-Parts :
        (geometry : Option ShardGeometry) → Agree geometry → open_file xxh3_64 file ≡ ok opened
    unfolding open_file
    open_file-Parts geometry g =
        let size = file_length in
        let some = p.some_body in
        let blocks = p.footer_valid.some_blocks in
        let table = p.footer_valid.table in
        let place = p.place in
        let entries : encoded_length footer - footer_fixed_len ≡ 8 * footer.block_count =
          omega arith in
        let whole : 8 * footer.block_count % 8 ≡ 0 = omega arith in
        rw
          (
            le→ltb (length file) (header_len + 1 + footer_fixed_len + 8 + trailer_len)
                (omega arith),
            read_exact_at_lem file (length file - trailer_len) trailer_len (omega arith),
            trailer_number 0 (encoded_length footer) (omega arith) length_read,
            trailer_number 8 offset (omega arith) tail_lem.3,
            described,
            le→ltb (encoded_length footer) footer_fixed_len (omega arith),
            entries,
            whole,
            read_exact_at_lem file offset (encoded_length footer + trailer_len) (omega arith),
            whole_tail,
            tail_lem.0,
            read_exact_at_lem file 0 header_len (omega arith),
            whole_page,
            page_lem.1,
          )
          (check_parts_lem geometry g)
