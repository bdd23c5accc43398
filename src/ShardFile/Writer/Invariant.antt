-- ===== src/ShardFile/Writer/Invariant.antt =====
-- What a writer's file holds: the header page, then the blocks that were appended, with their
-- checksums kept in order.
use distributed_jbod.Common.{
  ℕ, ◌+◌, ◌≤◌, ◌<◌, ◌≡◌, refl, sym, ◌∙◌, ap, false, Option, List, [], ◌∷◌, ◌++◌, map, ok, not,
  ◌>>=◌, fail_if-eq-ok, >>=-eq-ok, length, length-append, take, drop, join, arith, take-append_left,
}
use distributed_jbod.Common.Bytes.{write_at}
use distributed_jbod.Erasure.{Block, contains, total_shards}
use distributed_jbod.Stripe.{BlockChecksum, ShardBlock}
use distributed_jbod.ShardFile.{ShardFileHeader, IoError, shard_index_out_of_range}
use distributed_jbod.ShardFile.Header.{encode}
use distributed_jbod.ShardFile.Writer.{
  ShardFileWriter, reserve, create_with_reservation, new_writer, push_block, append_block,
}
use distributed_jbod.ShardFile.Writer.Shape.{Shape, Shape-nil, Shape-push, join-snoc}
use mathlib.Core.List.{append_assoc, map-append, append-nil}

-- Writing at the end of what was written extends it.
pub take-write_at :
    (content written bytes : List ℕ) (position : ℕ)
    → take position content ≡ written
    → length written ≡ position
    → take (position + length bytes) (write_at content position bytes) ≡ written ++ bytes
unfolding write_at
take-write_at content written bytes position e size =
    let front = take position content in
    let sized : position + length bytes ≡ length (front ++ bytes) =
      omega (arith, length-append front bytes, ap length e) in
    ap (take (position + length bytes))
      (sym (append_assoc front bytes (drop (position + length bytes) content)))
    ∙ take-append_left (front ++ bytes) _ (position + length bytes) sized
    ∙ ap (λ x. x ++ bytes) e

module _ (xxh3_64 : Block → BlockChecksum) where
  -- The writer has written its header and `blocks`.
  pub record IsWriting (w : ShardFileWriter) (blocks : List Block) : Type 0 where
    pub written : take w.file.position w.file.content ≡ encode xxh3_64 w.header ++ join blocks
    pub place : length (encode xxh3_64 w.header ++ join blocks) ≡ w.file.position
    pub checksums : w.checksums ≡ map xxh3_64 blocks
    pub shape : Shape w.header.block_length w.short_block_written w.last_block_length blocks

  new_writer-IsWriting :
      (h : ShardFileHeader) (content : List ℕ) → IsWriting (new_writer xxh3_64 h content) []
  new_writer-IsWriting h content =
      let page = encode xxh3_64 h in
      let whole : page ≡ page ++ [] = sym (append-nil page) in
      let size : 0 + length page ≡ length page = omega arith in
      record {
        written = take-write_at content [] page 0 refl refl ∙ whole;
        place = ap length (sym whole) ∙ sym size;
        checksums = refl;
        shape = Shape-nil h.block_length;
      }

  -- A new writer has written its header and no block, whatever was reserved.
  pub create-IsWriting :
      (fallocate : ℕ → Option IoError) (h : ShardFileHeader) (reserved : Option ℕ)
      (w : ShardFileWriter)
      → create_with_reservation xxh3_64 fallocate h reserved ≡ ok w
      → (h.shard_index < total_shards h.scheme)
        × (content : List ℕ) × (reserve fallocate reserved ≡ ok content)
        × (w ≡ new_writer xxh3_64 h content)
        × IsWriting w []
  unfolding create_with_reservation
  create-IsWriting fallocate h reserved w e =
      let (inside, rest) =
        fail_if-eq-ok (not (contains h.scheme h.shard_index))
          (shard_index_out_of_range h.shard_index)
          (reserve fallocate reserved >>= λ content. ok (new_writer xxh3_64 h content)) e in
      let (content, held, made) =
        >>=-eq-ok (reserve fallocate reserved) (λ content. ok (new_writer xxh3_64 h content))
          rest in
      let same : w ≡ new_writer xxh3_64 h content = cc in
      (ground arith, content, held, same, rw same (new_writer-IsWriting h content))

  -- What `append_block` accepts: the file's shard index, no short block before, 1 to `block_length`
  -- bytes, and the right checksum.
  pub record IsAccepted (w : ShardFileWriter) (b : ShardBlock) : Type 0 where
    pub same_index : b.index ≡ w.header.shard_index
    pub none_short : w.short_block_written ≡ false
    pub not_empty : 0 < length b.bytes
    pub at_most : length b.bytes ≤ w.header.block_length
    pub checked : xxh3_64 b.bytes ≡ b.checksum

  -- `append_block` succeeds on exactly the blocks that it accepts.
  pub append_block-ok :
      (w : ShardFileWriter) (b : ShardBlock)
      → IsAccepted w b
      → append_block xxh3_64 w b ≡ ok (push_block xxh3_64 w b)
  unfolding append_block
  append_block-ok w b a = ground (arith, a)

  pub append_block-IsAccepted :
      (w w' : ShardFileWriter) (b : ShardBlock)
      → append_block xxh3_64 w b ≡ ok w'
      → IsAccepted w b × (w' ≡ push_block xxh3_64 w b)
  unfolding append_block
  append_block-IsAccepted w w' b e = ground arith

  -- A block that is accepted is added to the blocks written.
  pub push_block-IsWriting :
      (w : ShardFileWriter) (blocks : List Block) (b : ShardBlock)
      → IsWriting w blocks
      → IsAccepted w b
      → IsWriting (push_block xxh3_64 w b) (blocks ++ b.bytes ∷ [])
  push_block-IsWriting w blocks b i a =
      let page = encode xxh3_64 w.header in
      let more : (page ++ join blocks) ++ b.bytes ≡ page ++ join (blocks ++ b.bytes ∷ []) =
        append_assoc page (join blocks) b.bytes ∙ ap (◌++◌ page) (sym (join-snoc blocks b.bytes)) in
      record {
        written =
            take-write_at w.file.content (page ++ join blocks) b.bytes w.file.position i.written
              i.place
            ∙ more;
        place =
            ap length (sym more)
            ∙ length-append (page ++ join blocks) b.bytes
            ∙ ap (λ n. n + length b.bytes) i.place;
        checksums =
            ap (λ cs. cs ++ xxh3_64 b.bytes ∷ []) i.checksums
            ∙ sym (map-append xxh3_64 blocks (b.bytes ∷ []));
        shape = rw a.none_short (
            Shape-push w.header.block_length w.last_block_length blocks b.bytes
              (rw a.none_short at i.shape) a.not_empty a.at_most);
      }
