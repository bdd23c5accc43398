-- ===== src/ShardFile/Header/RoundTrip.antt =====
-- `decode` reads back the header that `encode` wrote.
use distributed_jbod.Common.{
  ℕ, ◌+◌, ◌^◌, ◌≤◌, ◌<◌, ◌≡◌, refl, sym, ◌∙◌, ap, List, [], ◌∷◌, ok, length, replicate,
  length-replicate, bytes_eq_refl, All, arith, ==_of_eq, lt→ltb,
}
use distributed_jbod.Common.Bytes.{
  to_le_bytes, from_le_bytes, from_le_bytes-to_le_bytes, length-to_le_bytes, slice, read_uint_lem,
  length-write_at, slice-write_at_same, slice-write_at_before, write_at-write_at,
}
use distributed_jbod.Common.Writes.{write_all, Ascend, length-write_all, Reads, write_all-Reads}
use distributed_jbod.Erasure.{Block, total_shards}
use distributed_jbod.Erasure.Bounds.{IsAllowed, new_scheme_ok}
use distributed_jbod.Stripe.{BlockChecksum}
use distributed_jbod.ShardFile.{
  ShardFileHeader, magic, format_version, checksum_algorithm_xxh3_64, header_len,
}
use distributed_jbod.ShardFile.Header.{
  blank_page, header_writes, checksum_with_field_zeroed, seal, encode, decode,
}

-- The values that the types of a header and of its scheme allow.
pub record IsHeader (h : ShardFileHeader) : Type 0 where
  pub scheme : IsAllowed h.scheme.data_shards h.scheme.parity_shards
  pub index : h.shard_index < total_shards h.scheme
  pub block_length : h.block_length < 2 ^ 64
  pub key_hash : length h.key_hash ≡ 32
  pub version_id : length h.version_id ≡ 16

length-blank_page : length blank_page ≡ header_len
unfolding blank_page
length-blank_page = length-replicate {A = ℕ} header_len 0

-- The checksum function returns a `u64`.
abbrev pub IsU64Valued : (Block → BlockChecksum) → Type 0
IsU64Valued f = (b : Block) → f b < 2 ^ 64

header_writes-Ascend : (h : ShardFileHeader) → IsHeader h → Ascend 0 header_len (header_writes h)
unfolding to_le_bytes
header_writes-Ascend h v = omega (arith, v.key_hash, v.version_id)

module _ (xxh3_64 : Block → BlockChecksum) where
  -- A sealed page carries the checksum that `checksum_with_field_zeroed` computes of it.
  pub seal_checksum :
      (page : List ℕ) (offset : ℕ)
      → offset + 8 ≤ length page
      → checksum_with_field_zeroed xxh3_64 (seal xxh3_64 page offset) offset
        ≡ checksum_with_field_zeroed xxh3_64 page offset
  seal_checksum page offset h =
      ap xxh3_64
        (write_at-write_at page offset _ (replicate 8 0) (length-to_le_bytes 8 _) (omega arith))

  pub seal_stored :
      (page : List ℕ) (offset : ℕ)
      → IsU64Valued xxh3_64
      → offset + 8 ≤ length page
      → from_le_bytes (slice (seal xxh3_64 page offset) offset 8)
        ≡ checksum_with_field_zeroed xxh3_64 page offset
  seal_stored page offset u h =
      let sum = checksum_with_field_zeroed xxh3_64 page offset in
      ap from_le_bytes (
        slice-write_at_same page offset 8 (to_le_bytes 8 sum) (sym (length-to_le_bytes 8 sum))
          (omega arith))
      ∙ from_le_bytes-to_le_bytes 8 sum (u _)

  pub length-seal :
      (page : List ℕ) (offset : ℕ)
      → offset + 8 ≤ length page
      → length (seal xxh3_64 page offset) ≡ length page
  length-seal page offset h =
      length-write_at page offset _
        (omega (arith, length-to_le_bytes 8 (checksum_with_field_zeroed xxh3_64 page offset)))

  -- The fields of a page, as `decode` reads them.
  record HasFields (h : ShardFileHeader) (page : List ℕ) : Type 0 where
    size : length page ≡ header_len
    magic_read : slice page 0 8 ≡ magic
    format_read : from_le_bytes (slice page 8 4) ≡ format_version
    algorithm_read : from_le_bytes (slice page 12 4) ≡ checksum_algorithm_xxh3_64
    k_read : from_le_bytes (slice page 20 1) ≡ h.scheme.data_shards
    m_read : from_le_bytes (slice page 21 1) ≡ h.scheme.parity_shards
    index_read : from_le_bytes (slice page 22 1) ≡ h.shard_index
    block_length_read : from_le_bytes (slice page 24 8) ≡ h.block_length
    key_hash_read : slice page 32 32 ≡ h.key_hash
    version_id_read : slice page 64 16 ≡ h.version_id
    sealed : checksum_with_field_zeroed xxh3_64 page 80 ≡ from_le_bytes (slice page 80 8)

  decode-HasFields :
      (h : ShardFileHeader) (page : List ℕ)
      → IsHeader h
      → HasFields h page
      → decode xxh3_64 page ≡ ok h
  unfolding decode
  decode-HasFields h page v f =
      let size = f.size in
      rw (
        ==_of_eq _ _ size,
        f.magic_read,
        bytes_eq_refl magic,
        read_uint_lem 4 page 8 (omega arith),
        f.format_read,
        read_uint_lem 4 page 12 (omega arith),
        f.algorithm_read,
        read_uint_lem 8 page 80 (omega arith),
        ==_of_eq _ _ f.sealed,
        read_uint_lem 1 page 20 (omega arith),
        f.k_read,
        read_uint_lem 1 page 21 (omega arith),
        f.m_read,
        new_scheme_ok _ _ v.scheme,
        read_uint_lem 1 page 22 (omega arith),
        f.index_read,
        lt→ltb _ _ v.index,
        read_uint_lem 8 page 24 (omega arith),
        f.block_length_read,
        f.key_hash_read,
        f.version_id_read,
      )

  -- A field below the checksum is not changed by sealing.
  sealed_field :
      (page : List ℕ) (offset n : ℕ)
      → offset + n ≤ 80
      → length page ≡ header_len
      → slice (seal xxh3_64 page 80) offset n ≡ slice page offset n
  sealed_field page offset n h size = slice-write_at_before page 80 _ offset n h (omega arith)

  module _ (u : IsU64Valued xxh3_64) (h : ShardFileHeader) (v : IsHeader h) where
    abbrev filled : List ℕ
    filled = write_all blank_page (header_writes h)

    filled_size : length filled ≡ header_len
    filled_size =
        length-write_all blank_page 0 (header_writes h)
          (rw length-blank_page (header_writes-Ascend h v))
        ∙ length-blank_page

    filled-Reads : All (Reads filled) (header_writes h)
    filled-Reads =
        write_all-Reads blank_page 0 (header_writes h)
          (rw length-blank_page (header_writes-Ascend h v))

    field :
        (offset n : ℕ) (bytes : List ℕ)
        → offset + n ≤ 80
        → n ≡ length bytes
        → Reads filled (offset, bytes)
        → slice (seal xxh3_64 filled 80) offset n ≡ bytes
    field offset n bytes le size reads =
        sealed_field filled offset n le filled_size ∙ ap (slice filled offset) size ∙ reads

    number :
        (offset w n : ℕ)
        → offset + w ≤ 80
        → n < 256 ^ w
        → Reads filled (offset, to_le_bytes w n)
        → from_le_bytes (slice (seal xxh3_64 filled 80) offset w) ≡ n
    number offset w n le small reads =
        ap from_le_bytes (field offset w (to_le_bytes w n) le (sym (length-to_le_bytes w n)) reads)
        ∙ from_le_bytes-to_le_bytes w n small

    byte :
        (offset n : ℕ)
        → offset + 1 ≤ 80
        → Reads filled (offset, n ∷ [])
        → from_le_bytes (slice (seal xxh3_64 filled 80) offset 1) ≡ n
    unfolding from_le_bytes
    byte offset n le reads = ap from_le_bytes (field offset 1 (n ∷ []) le refl reads) ∙ omega arith

    encode-HasFields : HasFields h (encode xxh3_64 h)
    unfolding encode
    encode-HasFields =
        let r = filled-Reads in
        let low = r.1.1.1.1 in
        let high = low.1.1.1 in
        let in_page : 80 + 8 ≤ length filled = omega (arith, filled_size) in
        record {
          size = length-seal filled 80 in_page ∙ filled_size;
          magic_read = field 0 8 magic (omega arith) refl r.0;
          format_read = number 8 4 format_version (omega arith) (omega arith) r.1.0;
          algorithm_read =
              number 12 4 checksum_algorithm_xxh3_64 (omega arith) (omega arith) r.1.1.0;
          k_read = byte 20 _ (omega arith) low.0 ∙ omega (arith, v.scheme);
          m_read = byte 21 _ (omega arith) low.1.0 ∙ omega (arith, v.scheme);
          index_read = byte 22 _ (omega arith) low.1.1.0;
          block_length_read = number 24 8 h.block_length (omega arith) v.block_length high.0;
          key_hash_read = field 32 32 h.key_hash (omega arith) (sym v.key_hash) high.1.0;
          version_id_read = field 64 16 h.version_id (omega arith) (sym v.version_id) high.1.1.0;
          sealed = seal_checksum filled 80 in_page ∙ sym (seal_stored filled 80 u in_page);
        }

  -- A header page reads back: for a header that its types allow, and a checksum function into 64 bits,
  -- `encode` writes a page of 4096 bytes that `decode` accepts and turns into the same header.
  pub decode-encode :
      (h : ShardFileHeader)
      → IsU64Valued xxh3_64
      → IsHeader h
      → (length (encode xxh3_64 h) ≡ header_len) × (decode xxh3_64 (encode xxh3_64 h) ≡ ok h)
  decode-encode h u v =
      let f = encode-HasFields u h v in (f.size, decode-HasFields h (encode xxh3_64 h) v f)
