-- ===== src/ShardFile/WholeFile.antt =====
-- A shard file from its creation to its reading.
use distributed_jbod.Common.{
  ℕ, ◌-◌, ◌≤◌, ◌<◌, ◌^◌, ◌≡◌, sym, ◌∙◌, ap, Option, some, List, [], map, ok, length, arith,
  get_elem?, get_elem?-map, All-get_elem?, ◌==◌, sub_u64, &&_split,
}
use distributed_jbod.Erasure.{Block}
use distributed_jbod.Stripe.{BlockChecksum, ShardBlock}
use distributed_jbod.ShardFile.{
  ShardFileHeader, ShardFileFooter, IoError, ShardGeometry, shard_geometry, shard_file_length,
}
use distributed_jbod.ShardFile.Geometry.{InRange, shard_geometry_lem}
use distributed_jbod.ShardFile.Header.RoundTrip.{IsHeader, IsU64Valued}
use distributed_jbod.ShardFile.Writer.{File, ShardFileWriter, create_with_reservation, finish}
use distributed_jbod.ShardFile.Writer.Invariant.{create-IsWriting}
use distributed_jbod.ShardFile.Writer.Extent.{
  reserved_length, write_bytes-HasExtent, reserve-HasExtent, append_all, IsChecked, Appended,
  append_all-Appended,
}
use distributed_jbod.ShardFile.Reader.{ShardFileReader, open_file, read_block}
use distributed_jbod.ShardFile.Reader.Finished.{finish-Finished}
use distributed_jbod.ShardFile.Reader.WriteRead.{
  Source, opens, reads, end_lem, before_lem, count, lengths, some_blocks,
}

module _ (xxh3_64 : Block → BlockChecksum) where
  -- What was asked for and written, from `create_with_reservation` to `finish`.
  pub record WasWritten (fallocate : ℕ → Option IoError) (h : ShardFileHeader) (reserved : Option ℕ)
      (blocks : List ShardBlock) (object_size : ℕ) (object_checksum : BlockChecksum)
      (footer : ShardFileFooter) (file : File) : Type 0 where
    pub created : ShardFileWriter
    pub appended : ShardFileWriter
    pub creates : create_with_reservation xxh3_64 fallocate h reserved ≡ ok created
    pub appends : append_all xxh3_64 created blocks ≡ ok appended
    pub finishes : finish xxh3_64 appended object_size object_checksum ≡ ok (footer, file)

  -- The numbers that a caller passes are `u64`, and the file, whose length is one too, is at least as
  -- long as the reservation.
  pub record AreInRange (reserved : Option ℕ) (object_size : ℕ) (object_checksum : BlockChecksum)
      (file : File) : Type 0 where
    pub covered : reserved_length reserved ≤ file.position
    pub small : file.position < 2 ^ 64
    pub size_small : object_size < 2 ^ 64
    pub checksum_small : object_checksum < 2 ^ 64

  module _ {fallocate : ℕ → Option IoError} {h : ShardFileHeader} {reserved : Option ℕ}
      {blocks : List ShardBlock} {object_size : ℕ} {object_checksum : BlockChecksum}
      {footer : ShardFileFooter} {file : File} (u : IsU64Valued xxh3_64) (v : IsHeader h)
      (t : WasWritten fallocate h reserved blocks object_size object_checksum footer file)
      (r : AreInRange reserved object_size object_checksum file) where
    all-Appended : Appended xxh3_64 (reserved_length reserved) h [] blocks t.appended
    all-Appended =
        let (inside, content, held, same, writing) =
          create-IsWriting xxh3_64 fallocate h reserved t.created t.creates in
        append_all-Appended xxh3_64 (reserved_length reserved) h blocks [] t.created t.appended
          writing (ap (λ (w : ShardFileWriter). w.header) same)
          (rw same (
            write_bytes-HasExtent (reserved_length reserved) _ _
              (reserve-HasExtent fallocate reserved content held)))
          t.appends

    source :
        Source xxh3_64 t.appended
          (map (λ (b : ShardBlock). b.bytes) blocks)
          object_size
          object_checksum
          footer
          file
    source = record {
      valued = u;
      writing = all-Appended.writing;
      header_valid = rw all-Appended.header v;
      finished =
          finish-Finished xxh3_64 t.appended object_size object_checksum footer file t.finishes;
      reserved = reserved_length reserved;
      extent = all-Appended.extent;
      covered = r.covered;
      small = r.small;
      size_small = r.size_small;
      checksum_small = r.checksum_small;
    }

    stored :
        (i : ℕ) (b : ShardBlock)
        → get_elem? blocks i ≡ some b
        → (record {
          index = t.appended.header.shard_index;
          bytes = b.bytes;
          checksum = xxh3_64 b.bytes;
        })
          ≡ b
    stored i b e =
        let c =
          All-get_elem? (IsChecked xxh3_64 h.shard_index) blocks i b all-Appended.all_checked e in
        rw (all-Appended.header, sym c.same_index, c.checked)

    -- A written file reads back. If a file was created for a valid header, blocks were appended to it and
    -- `finish` succeeded, with a checksum function into 64 bits, numbers in `u64` and a reservation that
    -- is not longer than the file, then `ShardFileReader::open` accepts the file's bytes, with the header
    -- of its creation and the footer that `finish` returned, and `read_block` returns any appended block
    -- with its index, bytes and checksum.
    pub open_file-finish :
        (i : ℕ) (b : ShardBlock)
        → get_elem? blocks i ≡ some b
        → let reader : ShardFileReader = record {
          file = file.content;
          header = h;
          footer = footer;
        } in
          (open_file xxh3_64 file.content ≡ ok reader) × (read_block reader i ≡ ok b)
    open_file-finish i b e =
        rw (source.finished.footer_made, sym all-Appended.header)
          (
            opens xxh3_64 source,
            reads xxh3_64 source i b.bytes
                  (get_elem?-map (λ (c : ShardBlock). c.bytes) blocks i b e)
                ∙ ap ok (stored i b e),
          )

    module _ (range : InRange h.scheme h.block_length object_size) where
      -- The geometry that `finish` computed is the one of the range.
      announced :
          (g : ShardGeometry) × (shard_geometry h.scheme h.block_length object_size ≡ ok (some g))
          × (g.block_count ≡ length t.appended.checksums)
          × (g.last_block_length ≡ t.appended.last_block_length)
      announced =
          let (g, runs, is_geometry) =
            shard_geometry_lem h.scheme h.block_length object_size range in
          let found = source.finished.geometry_runs in
          let matched = source.finished.geometry_same in
          let same : source.finished.geometry ≡ some g =
            let here =
              shard_geometry t.appended.header.scheme t.appended.header.block_length object_size in
            let runs_here : here ≡ ok (some g) = rw all-Appended.header runs in cc in
          let (counts, lasts) =
            &&_split (g.block_count == length t.appended.checksums)
              (g.last_block_length == t.appended.last_block_length) (rw same at matched) in
          (g, runs, ground (arith, counts), ground (arith, lasts))

      -- The announced length is the length written. For an object and a stripe in the range of `u64`, a
      -- successful `finish` ends exactly at the length that `shard_file_length` gives for the header's
      -- scheme and block length and the object's size.
      pub finish-shard_file_length :
          shard_file_length h.scheme h.block_length object_size ≡ ok (some file.position)
      unfolding shard_file_length
      finish-shard_file_length =
          let (g, runs, counts, lasts) = announced in
          let n = length t.appended.checksums in
          let pos = some_blocks xxh3_64 source in
          let same_count = count xxh3_64 source in
          let total = end_lem xxh3_64 source in
          let body = rw all-Appended.header at ((lengths xxh3_64 source).2) in
          let before = rw all-Appended.header at (before_lem xxh3_64 source) in
          let one_less : sub_u64 n 1 ≡ n - 1 = omega arith in
          rw (runs, counts, lasts, one_less, before)
            (ap (λ x. ok (some x)) (omega (arith, r.small)))
