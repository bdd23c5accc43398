-- ===== src/ShardFile/Writer/Extent.antt =====
-- How long a writer's file is, and a whole sequence of appended blocks.
use distributed_jbod.Common.{
  ℕ, ◌+◌, ◌≤◌, ◌≡◌, ◌∙◌, ap, Option, none, some, List, [], ◌∷◌, ◌++◌, map, Outcome, ok, ◌>>=◌,
  >>=-eq-ok, length, length-append, length-take, length-drop, length-replicate, Option-cases, inl,
  inr, take, drop, replicate, All, arith,
}
use distributed_jbod.Common.Bytes.{write_at}
use distributed_jbod.Erasure.{Block, ShardIndex}
use distributed_jbod.Stripe.{BlockChecksum, ShardBlock}
use distributed_jbod.ShardFile.{ShardFileHeader, ShardFileError, IoError}
use distributed_jbod.ShardFile.Writer.{File, write_bytes, ShardFileWriter, reserve, append_block}
use distributed_jbod.ShardFile.Writer.Invariant.{
  IsWriting, append_block-IsAccepted, push_block-IsWriting,
}
use Prim.Native.Nat.{max}
use mathlib.Core.List.{append-nil, append_assoc}

abbrev pub reserved_length : Option ℕ → ℕ
reserved_length none = 0
reserved_length (some n) = n

-- The file is as long as what was reserved or written.
pub record HasExtent (reserved : ℕ) (f : File) : Type 0 where
  pub inside : f.position ≤ length f.content
  pub extent : length f.content ≤ max reserved f.position

length-write_at_end :
    (content bytes : List ℕ) (position : ℕ)
    → position ≤ length content
    → length (write_at content position bytes) ≡ max (length content) (position + length bytes)
unfolding write_at
length-write_at_end content bytes position h = omega (
  arith,
  length-append (take position content) (bytes ++ drop (position + length bytes) content),
  length-append bytes (drop (position + length bytes) content),
  length-take position content,
  length-drop (position + length bytes) content,
)

pub write_bytes-HasExtent :
    (reserved : ℕ) (f : File) (bytes : List ℕ)
    → HasExtent reserved f
    → HasExtent reserved (write_bytes f bytes)
write_bytes-HasExtent reserved f bytes h =
    let size = length-write_at_end f.content bytes f.position h.inside in
    record { inside = omega (arith, h.extent); extent = omega (arith, h.extent) }

pub reserve-HasExtent :
    (fallocate : ℕ → Option IoError) (reserved : Option ℕ) (content : List ℕ)
    → reserve fallocate reserved ≡ ok content
    → HasExtent (reserved_length reserved) (record { content = content; position = 0 })
reserve-HasExtent fallocate none content e =
    let same : content ≡ [] = cc in record { inside = omega arith; extent = rw same (omega arith) }
reserve-HasExtent fallocate (some n) content e = elim (Option-cases (fallocate n)) [
  | inl none_failed ↦
      let same : content ≡ replicate n 0 = cc in
      record {
        inside = omega arith;
        extent = rw same (omega (arith, length-replicate {A = ℕ} n 0));
      }
  | inr (x, failed) ↦ absurd (cc)
]

module _ (xxh3_64 : Block → BlockChecksum) where
  -- A client's blocks, appended in order.
  unfoldable pub append_all :
      ShardFileWriter → List ShardBlock → Outcome ShardFileError ShardFileWriter
  append_all w [] = ok w
  append_all w (b ∷ blocks) = do next ← append_block xxh3_64 w b; append_all next blocks

  -- Each block was the file's and had its right checksum.
  pub record IsChecked (index : ShardIndex) (b : ShardBlock) : Type 0 where
    pub same_index : b.index ≡ index
    pub checked : xxh3_64 b.bytes ≡ b.checksum

  pub record Appended (reserved : ℕ) (h : ShardFileHeader) (written : List Block)
      (blocks : List ShardBlock) (w : ShardFileWriter) : Type 0 where
    pub writing : IsWriting xxh3_64 w (written ++ map (λ (b : ShardBlock). b.bytes) blocks)
    pub header : w.header ≡ h
    pub extent : HasExtent reserved w.file
    pub all_checked : All (IsChecked h.shard_index) blocks

  -- Blocks that are appended one after the other are written in that order.
  pub append_all-Appended :
      (reserved : ℕ) (h : ShardFileHeader) (blocks : List ShardBlock) (written : List Block)
      (w w' : ShardFileWriter)
      → IsWriting xxh3_64 w written
      → w.header ≡ h
      → HasExtent reserved w.file
      → append_all w blocks ≡ ok w'
      → Appended reserved h written blocks w'
  unfolding append_all
  append_all-Appended reserved h [] written w w' i eh x e =
      let same : w' ≡ w = cc in
      record {
        writing = rw (append-nil written, same) i;
        header = rw same eh;
        extent = rw same x;
        all_checked = tt;
      }
  append_all-Appended reserved h (b ∷ blocks) written w w' i eh x e =
      let (next, step, rest) = >>=-eq-ok (append_block xxh3_64 w b) (λ n. append_all n blocks) e in
      let (accepted, same) = append_block-IsAccepted xxh3_64 w next b step in
      let tail =
        append_all-Appended reserved h blocks (written ++ b.bytes ∷ []) next w'
          (rw same (push_block-IsWriting xxh3_64 w written b i accepted)) (rw same eh)
          (rw same (write_bytes-HasExtent reserved w.file b.bytes x)) rest in
      record {
        writing = rw append_assoc at (tail.writing);
        header = tail.header;
        extent = tail.extent;
        all_checked = (
          record {
            same_index = accepted.same_index ∙ ap (λ (g : ShardFileHeader). g.shard_index) eh;
            checked = accepted.checked;
          },
          tail.all_checked,
        );
      }
