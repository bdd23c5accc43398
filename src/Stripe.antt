-- ===== src/Stripe.antt =====
-- crates/djbod-core/src/stripe.rs: encoding a stripe into shard blocks, and decoding it from the
-- blocks that were received. The checksum XXH3-64, of the crate `xxhash-rust`, is a parameter.
pub mod Encode
pub mod Lookup
pub mod Examine
pub mod Counting
pub mod Decode
pub mod Genuine
mod Runs
use distributed_jbod.Common.{
  ℕ, zero, suc, ◌+◌, ◌-◌, ◌*◌, ◌%◌, ◌^◌, Bool, true, false, not, Option, none, some, List, [], ◌∷◌,
  ◌++◌, map, Outcome, ok, err, panic, ◌>>=◌, ◌>>◌, fail_if, map_err, ltb, ◌==◌, ◌!=◌, if◌then◌else◌,
  length, get_or, set, take, drop, replicate, join, is_empty, min, div_ceil, mul_u64,
}
use distributed_jbod.Erasure.{
  ShardIndex, Block, CodingError, index_out_of_range, duplicate_index, ReedSolomonCode, Scheme,
  total_shards, contains, shard_indices, data_shard_indices, compute_parity, reconstruct, is_some,
}
use Prim.Native.String.{String}

-- `BlockChecksum(u64)`.
abbrev pub BlockChecksum : Type 0
BlockChecksum = ℕ

pub record ShardBlock : Type 0 where
  pub index : ShardIndex
  pub bytes : Block
  pub checksum : BlockChecksum

pub data FaultKind : Type 0 where
  missing : FaultKind
  unreadable : (reason : String) → FaultKind
  unavailable : (reason : String) → FaultKind
  wrong_length : (expected actual : ℕ) → FaultKind
  checksum_mismatch : (stored computed : BlockChecksum) → FaultKind

pub record BlockFault : Type 0 where
  pub index : ShardIndex
  pub kind : FaultKind

pub data DecodedStripe : Type 0 where
  intact : (bytes : List ℕ) → DecodedStripe
  repaired : (bytes : List ℕ) → (faults : List BlockFault) → DecodedStripe
  unrecoverable : (usable needed : ℕ) → (faults : List BlockFault) → DecodedStripe

pub data StripeError : Type 0 where
  empty : StripeError
  too_large : (actual max : ℕ) → StripeError
  coding : CodingError → StripeError
  unrequested_block : ShardIndex → StripeError

pub block_length_for : ReedSolomonCode → ℕ → ℕ
block_length_for code data_len = div_ceil data_len code.scheme.data_shards

-- `vec.resize(n, 0)`.
abbrev pub resize : ℕ → Block → Block
resize n b = take n b ++ replicate (n - length b) 0

-- The body of the loop over the data shards. `start` is at most the data's length plus `k`, which
-- fits a `usize`.
abbrev pub data_block : List ℕ → ℕ → ShardIndex → Block
data_block bytes block_len i =
    let start = i * block_len in
    let end = min (start + block_len) (length bytes) in
    resize block_len
      (if ltb start (length bytes) then take (end - start) (drop start bytes) else [])

-- `note_requested`, the first loop of `decode_stripe`: which indices were requested.
pub note_requested : Scheme → List ShardIndex → List Bool → Outcome StripeError (List Bool)
note_requested s [] was_requested = ok was_requested
note_requested s (index ∷ requested) was_requested = do
  fail_if (not (contains s index)) (coding (index_out_of_range index))
  fail_if (get_or was_requested index false) (coding (duplicate_index index))
  note_requested s requested (set was_requested index true)

-- The second loop: the received blocks by shard index.
pub index_received :
    Scheme
    → List Bool
    → List ShardBlock
    → List (Option ShardBlock)
    → Outcome StripeError (List (Option ShardBlock))
index_received s was_requested [] by_index = ok by_index
index_received s was_requested (block ∷ received) by_index = do
  fail_if (not (contains s block.index)) (coding (index_out_of_range block.index))
  fail_if (not (get_or was_requested block.index false)) (unrequested_block block.index)
  fail_if (is_some (get_or by_index block.index none)) (coding (duplicate_index block.index))
  index_received s was_requested received (set by_index block.index (some block))

pub data Verdict : Type 0 where
  usable : Block → Verdict
  faulty : FaultKind → Verdict

-- What the third loop pushes for one index that was requested, and for all.
abbrev pub push :
    ShardIndex
    → Verdict
    → List (ShardIndex × Block) × List BlockFault
    → List (ShardIndex × Block) × List BlockFault
push i (usable b) (good, faults) = ((i, b) ∷ good, faults)
push i (faulty kind) (good, faults) = (good, record { index = i; kind = kind } ∷ faults)

module _ (xxh3_64 : Block → BlockChecksum) where
  pub number_blocks : ℕ → List Block → List ShardBlock
  number_blocks i [] = []
  number_blocks i (b ∷ bs) =
      record { index = i % 2 ^ 8; bytes = b; checksum = xxh3_64 b } ∷ number_blocks (i + 1) bs

  unfoldable pub encode_stripe :
      ReedSolomonCode → List ℕ → ℕ → Outcome StripeError (List ShardBlock)
  encode_stripe code bytes block_size = do
    fail_if (is_empty bytes) empty
    let max = mul_u64 code.scheme.data_shards block_size
    fail_if (ltb max (length bytes)) (too_large (length bytes) max)
    let block_len = block_length_for code (length bytes)
    let blocks = map (data_block bytes block_len) (data_shard_indices code.scheme)
    parity ← map_err coding (compute_parity code blocks)
    ok (number_blocks 0 (blocks ++ parity))

  -- Whether a block that was requested is usable.
  pub inspect : ℕ → Option ShardBlock → Verdict
  inspect block_len none = faulty missing
  inspect block_len (some block) =
      if length block.bytes != block_len
      then faulty (wrong_length block_len (length block.bytes))
      else if xxh3_64 block.bytes != block.checksum
      then faulty (checksum_mismatch block.checksum (xxh3_64 block.bytes))
      else usable block.bytes

  pub examine :
      ℕ
      → List Bool
      → List (Option ShardBlock)
      → List ShardIndex
      → List (ShardIndex × Block) × List BlockFault
  examine block_len was_requested by_index [] = ([], [])
  examine block_len was_requested by_index (i ∷ indices) =
      let rest = examine block_len was_requested by_index indices in
      if get_or was_requested i false
      then push i (inspect block_len (get_or by_index i none)) rest
      else rest

  -- From the count of usable blocks on.
  pub conclude :
      ReedSolomonCode
      → ℕ
      → List (ShardIndex × Block) × List BlockFault
      → Outcome StripeError DecodedStripe
  conclude code data_len (good, faults) =
      if ltb (length good) code.scheme.data_shards
      then ok (unrecoverable (length good) code.scheme.data_shards faults)
      else do
        data_blocks ← map_err coding (reconstruct code good (data_shard_indices code.scheme))
        let bytes = take data_len (join data_blocks)
        ok (if is_empty faults then intact bytes else repaired bytes faults)

  unfoldable pub decode_stripe :
      ReedSolomonCode → List ShardIndex → List ShardBlock → ℕ → Outcome StripeError DecodedStripe
  decode_stripe code requested received data_len = do
    fail_if (data_len == 0) empty
    let block_len = block_length_for code data_len
    let total = total_shards code.scheme
    was_requested ← note_requested code.scheme requested (replicate total false)
    by_index ← index_received code.scheme was_requested received (replicate total none)
    conclude code data_len (examine block_len was_requested by_index (shard_indices code.scheme))
