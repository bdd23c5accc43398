-- ===== src/ShardFile/Reader/WriteRead.antt =====
-- A finished file through the reader.
use distributed_jbod.Common.{
  ℕ, ◌+◌, ◌-◌, ◌*◌, ◌≤◌, ◌<◌, ◌^◌, ◌≡◌, refl, sym, ◌∙◌, ap, false, some, List, [], ◌∷◌, ◌++◌, ok,
  length, length-append, length-map, length-drop, length-take, take, drop, drop_all, join, is_empty,
  All-map, arith, get_elem?, get_elem?-map, mul_u64, add_u64, sub_u64,
}
use distributed_jbod.Common.Bytes.{write_at, slice, slice-append_right, slice-append_left}
use distributed_jbod.Erasure.{Block}
use distributed_jbod.Stripe.{BlockChecksum}
use distributed_jbod.ShardFile.{ShardFileFooter, header_len, trailer_len}
use distributed_jbod.ShardFile.Header.{encode}
use distributed_jbod.ShardFile.Header.RoundTrip.{IsHeader, IsU64Valued, decode-encode}
use distributed_jbod.ShardFile.Footer.{encoded_length}
use distributed_jbod.ShardFile.Footer.RoundTrip.{IsFooter, IsU64, length-encode_with_trailer}
use distributed_jbod.ShardFile.Writer.{File, ShardFileWriter, footer_of}
use distributed_jbod.ShardFile.Writer.Shape.{Shape-lengths, Shape-block, slice-join, get_elem?-lt}
use distributed_jbod.ShardFile.Writer.Invariant.{IsWriting}
use distributed_jbod.ShardFile.Writer.Extent.{HasExtent}
use distributed_jbod.ShardFile.Reader.{
  ShardFileReader, read_exact_at, open_file, block_length, read_block,
}
use distributed_jbod.ShardFile.Reader.RoundTrip.{
  read_exact_at_lem, file_length, Parts, open_file-Parts,
}
use distributed_jbod.ShardFile.Reader.Finished.{
  end_offset, footer_bytes, Finished, block_length_pos,
}
use mathlib.Core.List.{append-nil, append_assoc}
use native.Mathlib.Nat.{mod-eq_of_lt}

is_empty_lem : {A : Type 0} (xs : List A) → is_empty xs ≡ false → 0 < length xs
is_empty_lem [] e = absurd (cc)
is_empty_lem (x ∷ xs) e = omega arith

module _ (xxh3_64 : Block → BlockChecksum) where
  -- A writer that finished, with what the theorem asks of its numbers.
  pub record Source (w : ShardFileWriter) (blocks : List Block) (object_size : ℕ)
      (object_checksum : BlockChecksum) (footer : ShardFileFooter) (file : File) : Type 0 where
    pub valued : IsU64Valued xxh3_64
    pub writing : IsWriting xxh3_64 w blocks
    pub header_valid : IsHeader w.header
    pub finished : Finished xxh3_64 w object_size object_checksum footer file
    pub reserved : ℕ
    pub extent : HasExtent reserved w.file
    pub covered : reserved ≤ file.position
    pub small : file.position < 2 ^ 64
    pub size_small : object_size < 2 ^ 64
    pub checksum_small : object_checksum < 2 ^ 64

  module _ {w : ShardFileWriter} {blocks : List Block} {object_size : ℕ}
      {object_checksum : BlockChecksum} {footer : ShardFileFooter} {file : File}
      (s : Source w blocks object_size object_checksum footer file) where
    abbrev pub made : ShardFileFooter
    made = footer_of xxh3_64 w object_size object_checksum

    abbrev tail : List ℕ
    tail = footer_bytes xxh3_64 w object_size object_checksum

    pub count : length w.checksums ≡ length blocks
    count = ap length s.writing.checksums ∙ length-map xxh3_64 blocks

    pub some_blocks : 0 < length blocks
    some_blocks = omega (arith, count, is_empty_lem w.checksums s.finished.some_blocks)

    some_size : 0 < w.header.block_length
    some_size =
        block_length_pos w.header.scheme w.header.block_length object_size (length w.checksums)
          w.last_block_length s.finished.geometry s.finished.geometry_runs s.finished.geometry_same

    pub lengths :
        (0 < w.last_block_length)
        × (w.last_block_length ≤ w.header.block_length)
        × (length (join blocks) ≡ (length blocks - 1) * w.header.block_length + w.last_block_length)
    lengths =
        Shape-lengths w.header.block_length w.last_block_length w.short_block_written blocks
          s.writing.shape some_size some_blocks

    page_length : length (encode xxh3_64 w.header) ≡ header_len
    page_length = (decode-encode xxh3_64 w.header s.valued s.header_valid).0

    position_lem : w.file.position ≡ header_len + length (join blocks)
    position_lem =
        sym s.writing.place
        ∙ length-append (encode xxh3_64 w.header) (join blocks)
        ∙ ap (λ n. n + length (join blocks)) page_length

    pub end_lem :
        file.position ≡ header_len + length (join blocks) + encoded_length made + trailer_len
    end_lem =
        ap (λ (f : File). f.position) s.finished.file_made
        ∙ omega
            (arith, position_lem, length-encode_with_trailer xxh3_64 made (end_offset xxh3_64 w))

    content_lem : file.content ≡ encode xxh3_64 w.header ++ (join blocks ++ tail)
    unfolding write_at
    content_lem =
        let none_left : drop (w.file.position + length tail) w.file.content ≡ [] =
          drop_all _ w.file.content (
            omega (
              arith,
              s.extent.extent,
              s.covered,
              ap (λ (f : File). f.position) s.finished.file_made,
            )) in
        ap (λ (f : File). f.content) s.finished.file_made
        ∙ ap (λ x. take w.file.position w.file.content ++ (tail ++ x)) none_left
        ∙ ap (λ x. take w.file.position w.file.content ++ x) (append-nil tail)
        ∙ ap (λ x. x ++ tail) s.writing.written
        ∙ append_assoc (encode xxh3_64 w.header) (join blocks) tail

    pub before_lem :
        mul_u64 (length w.checksums - 1) w.header.block_length
        ≡ (length blocks - 1) * w.header.block_length
    before_lem =
        ap (λ n. mul_u64 (n - 1) w.header.block_length) count
        ∙ mod-eq_of_lt {n = (length blocks - 1) * w.header.block_length} {m = 2 ^ 64}
            (omega (arith, lengths.2, end_lem, s.small))

    offset_lem : end_offset xxh3_64 w ≡ header_len + length (join blocks)
    offset_lem =
        let one_less : sub_u64 (length w.checksums) 1 ≡ length w.checksums - 1 =
          omega (arith, count, some_blocks, end_lem, s.small) in
        rw (one_less, before_lem) (omega (arith, lengths.2, end_lem, s.small))

    made_valid : IsFooter made
    made_valid = record {
      some_blocks = omega (arith, count, some_blocks);
      table = refl;
      table_entries = rw s.writing.checksums (All-map IsU64 xxh3_64 blocks s.valued);
      fits = omega (arith, end_lem, s.small);
      last_block_length = omega (arith, lengths.1, s.header_valid.block_length);
      object_size = s.size_small;
      object_checksum = s.checksum_small;
    }

    file-Parts : Parts xxh3_64 w.header (join blocks) made (end_offset xxh3_64 w) file.content
    file-Parts = record {
      bytes = content_lem;
      header_valid = s.header_valid;
      footer_valid = made_valid;
      place = offset_lem;
      some_body = omega (arith, lengths.2, lengths.0);
      small = omega (arith, end_lem, s.small);
    }

    pub opens :
        open_file xxh3_64 file.content
        ≡ ok (record { file = file.content; header = w.header; footer = made })
    opens = open_file-Parts xxh3_64 s.valued file-Parts s.finished.geometry (record {
      last_some = lengths.0;
      last_fits = lengths.1;
      offset_same = refl;
      geometry_runs = s.finished.geometry_runs;
      geometry_same = s.finished.geometry_same;
    })

    abbrev pub reader : ShardFileReader
    reader = record { file = file.content; header = w.header; footer = made }

    module _ (i : ℕ) (b : Block) (e : get_elem? blocks i ≡ some b) where
      sized : block_length reader i ≡ ok (length b)
      unfolding block_length
      sized =
          let at_end =
            Shape-block w.header.block_length w.last_block_length w.short_block_written blocks i b
              s.writing.shape e in
          let inside = get_elem?-lt blocks i b e in
          ground (arith, at_end, inside, count, end_lem, s.small)

      not_empty : 0 < length b
      not_empty =
          let at_end =
            Shape-block w.header.block_length w.last_block_length w.short_block_written blocks i b
              s.writing.shape e in
          let inside = get_elem?-lt blocks i b e in
          ground (arith, at_end, inside, lengths.0, some_size)

      in_body : (i * w.header.block_length + length b ≤ length (join blocks))
      in_body =
          let found =
            slice-join w.header.block_length w.last_block_length i w.short_block_written blocks b
              s.writing.shape e in
          let taken = length-take (length b) (drop (i * w.header.block_length) (join blocks)) in
          let left = length-drop (i * w.header.block_length) (join blocks) in
          omega (arith, ap length found, not_empty, taken, left)

      stands :
          read_exact_at file.content
            (add_u64 header_len (mul_u64 i w.header.block_length))
            (length b)
          ≡ ok b
      stands =
          let start = i * w.header.block_length in
          let small : mul_u64 i w.header.block_length ≡ start =
            mod-eq_of_lt {n = start} {m = 2 ^ 64} (omega (arith, in_body, end_lem, s.small)) in
          let place : add_u64 header_len start ≡ header_len + start =
            omega (arith, in_body, end_lem, s.small) in
          let held : slice file.content (header_len + start) (length b) ≡ b =
            ap (λ f. slice f (header_len + start) (length b)) content_lem
            ∙ slice-append_right (encode xxh3_64 w.header) (join blocks ++ tail)
                (header_len + start) start (length b) (omega (arith, page_length))
            ∙ slice-append_left (join blocks) tail start (length b) in_body
            ∙ slice-join w.header.block_length w.last_block_length i w.short_block_written blocks b
                s.writing.shape e in
          let total = file_length xxh3_64 s.valued file-Parts in
          rw (
            small,
            place,
            read_exact_at_lem file.content (header_len + start) (length b)
                (omega (arith, total, in_body)),
            held,
          )

      pub reads :
          read_block reader i
          ≡ ok (record { index = w.header.shard_index; bytes = b; checksum = xxh3_64 b })
      unfolding read_block
      reads =
          let sum : get_elem? w.checksums i ≡ some (xxh3_64 b) =
            ap (λ cs. get_elem? cs i) s.writing.checksums ∙ get_elem?-map xxh3_64 blocks i b e in
          rw (sized, stands, sum)
