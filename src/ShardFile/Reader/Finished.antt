-- ===== src/ShardFile/Reader/Finished.antt =====
-- What `finish` writes, for a reader.
use distributed_jbod.Common.{
  ℕ, ◌<◌, ◌≡◌, true, false, not, Option, none, List, ok, Outcome, ◌>>=◌, ◌>>◌, fail_if,
  fail_if-eq-ok, >>=-eq-ok, length, is_empty, arith, ◌==◌, Bool-cases, inl, inr,
}
use distributed_jbod.Erasure.{Block, Scheme}
use distributed_jbod.Stripe.{BlockChecksum}
use distributed_jbod.ShardFile.{
  ShardFileFooter, ShardFileError, ShardGeometry, shard_geometry, geometry_matches, mismatch,
  no_blocks,
}
use distributed_jbod.ShardFile.Footer.{encode_with_trailer}
use distributed_jbod.ShardFile.Writer.{
  File, write_bytes, ShardFileWriter, footer_of, footer_offset, finish,
}

module _ (xxh3_64 : Block → BlockChecksum) where
  abbrev pub end_offset : ShardFileWriter → ℕ
  end_offset w =
      footer_offset xxh3_64 (length w.checksums) w.header.block_length w.last_block_length

  abbrev pub footer_bytes : ShardFileWriter → ℕ → BlockChecksum → List ℕ
  footer_bytes w object_size object_checksum =
      encode_with_trailer xxh3_64 (footer_of xxh3_64 w object_size object_checksum) (end_offset w)

  -- What `finish` found and wrote when it succeeded.
  pub record Finished (w : ShardFileWriter) (object_size : ℕ) (object_checksum : BlockChecksum)
      (footer : ShardFileFooter) (file : File) : Type 0 where
    pub some_blocks : is_empty w.checksums ≡ false
    pub geometry : Option ShardGeometry
    pub geometry_runs :
        shard_geometry w.header.scheme w.header.block_length object_size ≡ ok geometry
    pub geometry_same : geometry_matches geometry (length w.checksums) w.last_block_length ≡ true
    pub footer_made : footer ≡ footer_of xxh3_64 w object_size object_checksum
    pub file_made : file ≡ write_bytes w.file (footer_bytes w object_size object_checksum)

  pub finish-Finished :
      (w : ShardFileWriter) (object_size : ℕ) (object_checksum : BlockChecksum)
      (footer : ShardFileFooter) (file : File)
      → finish xxh3_64 w object_size object_checksum ≡ ok (footer, file)
      → Finished w object_size object_checksum footer file
  unfolding finish
  finish-Finished w object_size object_checksum footer file e =
      let blocks = length w.checksums in
      let last = w.last_block_length in
      let done : Outcome ShardFileError (ShardFileFooter × File) = ok (
        footer_of xxh3_64 w object_size object_checksum,
        write_bytes w.file (footer_bytes w object_size object_checksum),
      ) in
      let checked : Option ShardGeometry → Outcome ShardFileError (ShardFileFooter × File) = λ g.
        fail_if (not (geometry_matches g blocks last)) (mismatch g object_size blocks last)
        >> done in
      let computed = shard_geometry w.header.scheme w.header.block_length object_size in
      let (not_empty, after) =
        fail_if-eq-ok (is_empty w.checksums) no_blocks (computed >>= checked) e in
      let (geometry, runs, rest) = >>=-eq-ok computed checked after in
      let (same, written) =
        fail_if-eq-ok (not (geometry_matches geometry blocks last))
          (mismatch geometry object_size blocks last) done rest in
      record {
        some_blocks = not_empty;
        geometry = geometry;
        geometry_runs = runs;
        geometry_same = ground arith;
        footer_made = cc;
        file_made = cc;
      }

-- A stripe of no bytes has no geometry.
pub block_length_pos :
    (s : Scheme) (block_length object_size blocks last : ℕ) (g : Option ShardGeometry)
    → shard_geometry s block_length object_size ≡ ok g
    → geometry_matches g blocks last ≡ true
    → 0 < block_length
unfolding shard_geometry
block_length_pos s block_length object_size blocks last g runs same =
    elim (Bool-cases (block_length == 0)) [
      | inl empty ↦
          let nothing : g ≡ none = ground arith in
          absurd (let wrong : false ≡ true = rw nothing at same in cc)
      | inr some_bytes ↦ ground arith
    ]
