-- ===== src/Stripe/Decode.antt =====
-- `decode_stripe`: what it returns on every request and reply that follow the protocol.
use distributed_jbod.Common.{
  ℕ, zero, suc, ◌+◌, ◌≤◌, ◌<◌, ◌≡◌, refl, sym, ◌∙◌, ap₂, List, [], ◌∷◌, ◌++◌, map, length,
  range_from, take, get_or-append_length, length-append, take-append_left, is_empty, All, ok, arith,
  le→ltb, ==_of_pos, if◌then◌else◌,
}
use mathlib.Core.List.{append_assoc}
use distributed_jbod.Erasure.{
  ShardIndex, Block, ReedSolomonCode, Scheme, total_shards, shard_indices, data_shard_indices,
}
use distributed_jbod.Erasure.Laws.{CodeIsValid}
use distributed_jbod.Erasure.Filled.{IsIn}
use distributed_jbod.Erasure.Reconstruct.{blocks_at, codeword_length, reconstruct_lem}
use distributed_jbod.Stripe.{
  BlockChecksum, ShardBlock, DecodedStripe, intact, repaired, BlockFault, block_length_for,
  number_blocks, encode_stripe, decode_stripe, conclude,
}
use distributed_jbod.Stripe.Encode.{
  IsStripe, FitsStripe, data_blocks, data_blocks_bytes, encode_stripe-IsStripe, number_blocks_bytes,
}
use distributed_jbod.Stripe.Lookup.{IsRequest, IsReply, note_requested_lem, index_received_lem}
use distributed_jbod.Stripe.Examine.{
  IsHonest, usable_among, faults_among, examine_lem, usable-add-faults, usable_among-IsBlockOf,
  usable_among-Distinct,
}
use distributed_jbod.Stripe.Counting.{count_requested_lem}

-- The outcome with the data `bytes`.
abbrev pub recovered : List ℕ → List BlockFault → DecodedStripe
recovered bytes faults = if is_empty faults then intact bytes else repaired bytes faults

-- The blocks `start .. start + n` of a list, by index.
blocks_at_range :
    (front cw : List Block) (start n : ℕ)
    → length front ≡ start
    → n ≤ length cw
    → blocks_at (front ++ cw) (range_from start n) ≡ take n cw
blocks_at_range front cw start zero hs h = refl
blocks_at_range front [] start (suc n) hs h = absurd (omega arith)
blocks_at_range front (b ∷ cw) start (suc n) hs h =
    let longer : length (front ++ b ∷ []) ≡ start + 1 =
      omega (arith, length-append front (b ∷ [])) in
    ap₂ ◌∷◌ (get_or-append_length front b cw start [] hs)
      (rw append_assoc at (blocks_at_range (front ++ b ∷ []) cw (start + 1) n longer (omega arith)))

range-inside :
    (s : Scheme) (start n : ℕ) → start + n ≤ total_shards s → All (IsIn s) (range_from start n)
range-inside s start zero h = tt
range-inside s start (suc n) h = (omega arith, range-inside s (start + 1) n (omega arith))

module _ (xxh3_64 : Block → BlockChecksum) (code : ReedSolomonCode) (requested : List ShardIndex)
    (received : List ShardBlock) where
  -- The requested blocks that are usable, and the faults, in a stripe of `n` bytes.
  abbrev pub usable_blocks : ℕ → List (ShardIndex × Block)
  usable_blocks n =
      usable_among xxh3_64 (block_length_for code n) requested received (shard_indices code.scheme)

  abbrev pub stripe_faults : ℕ → List BlockFault
  stripe_faults n =
      faults_among xxh3_64 (block_length_for code n) requested received (shard_indices code.scheme)

  -- The loops end in the usable blocks and the faults.
  decode_stripe-conclude :
      (n : ℕ)
      → IsRequest code.scheme requested
      → IsReply code.scheme requested received
      → 0 < n
      → decode_stripe xxh3_64 code requested received n
        ≡ conclude xxh3_64 code n (usable_blocks n, stripe_faults n)
  unfolding decode_stripe
  decode_stripe-conclude n hq hr hn =
      let (was, noted, asked) = note_requested_lem code.scheme requested hq in
      let (by_index, indexed, found) =
        index_received_lem code.scheme requested was received asked hr in
      rw (
        ==_of_pos n hn,
        noted,
        indexed,
        examine_lem xxh3_64 (block_length_for code n) requested received was by_index
            (shard_indices code.scheme) asked found,
      )

  -- The received blocks are honest about the stripe that holds `bytes`.
  abbrev pub AllHonest : List ℕ → List Block → Type 0
  AllHonest bytes parity =
      All
        (IsHonest xxh3_64 (block_length_for code (length bytes)) (data_blocks code bytes ++ parity))
        received

  conclude-recovered :
      (bytes : List ℕ) (parity : List Block)
      → CodeIsValid code
      → IsStripe code bytes parity
      → AllHonest bytes parity
      → code.scheme.data_shards ≤ length (usable_blocks (length bytes))
      → conclude xxh3_64 code
          (length bytes)
          (usable_blocks (length bytes), stripe_faults (length bytes))
        ≡ ok (recovered bytes (stripe_faults (length bytes)))
  unfolding conclude
  conclude-recovered bytes parity v cw honest h =
      let k = code.scheme.data_shards in
      let total = codeword_length code.reed_solomon _ _ _ _ parity cw in
      let blocks = data_blocks code bytes in
      let runs =
        reconstruct_lem code (block_length_for code (length bytes)) blocks parity
          (usable_blocks (length bytes)) (data_shard_indices code.scheme) v cw
          (usable_among-Distinct xxh3_64 _ requested received 0 (total_shards code.scheme))
          (usable_among-IsBlockOf xxh3_64 _ requested received (blocks ++ parity) 0
            (total_shards code.scheme) honest (omega arith))
          h (range-inside code.scheme 0 k (omega arith)) in
      let first = blocks_at_range [] (blocks ++ parity) 0 k refl (omega arith) in
      rw (
        le→ltb _ _ h,
        runs,
        first,
        take-append_left blocks parity k (sym cw.data_count),
        data_blocks_bytes xxh3_64 code bytes v.some_data,
      )

  -- With at least `k` usable blocks `decode_stripe` returns exactly the bytes of the stripe: `intact` if
  -- there is no fault, and `repaired` with the faults of the requested blocks otherwise.
  decode_stripe-recovered :
      (bytes : List ℕ) (parity : List Block)
      → CodeIsValid code
      → IsStripe code bytes parity
      → 0 < length bytes
      → IsRequest code.scheme requested
      → IsReply code.scheme requested received
      → AllHonest bytes parity
      → code.scheme.data_shards ≤ length (usable_blocks (length bytes))
      → decode_stripe xxh3_64 code requested received (length bytes)
        ≡ ok (recovered bytes (stripe_faults (length bytes)))
  decode_stripe-recovered bytes parity v cw hn hq hr honest h =
      decode_stripe-conclude (length bytes) hq hr hn ∙ conclude-recovered bytes parity v cw honest h

  usable_enough :
      (n : ℕ)
      → IsRequest code.scheme requested
      → length (stripe_faults n) + code.scheme.data_shards ≤ length requested
      → code.scheme.data_shards ≤ length (usable_blocks n)
  usable_enough n hq h = omega (
    arith,
    usable-add-faults xxh3_64 (block_length_for code n) requested received
        (shard_indices code.scheme),
    count_requested_lem code.scheme requested hq,
  )

  -- Decoding undoes encoding. Take a stripe that fits, the blocks that `encode_stripe` made of it, a
  -- request for some of its shards and a reply of blocks that were requested, at most one for each shard,
  -- in which no corrupted block has the right length and the right checksum. If the faults (blocks that
  -- are missing, of another length, or of another checksum) leave `k` requested blocks, then
  -- `decode_stripe` returns the stripe's bytes, with the list of the faults.
  pub decode_stripe-encode_stripe :
      (bytes : List ℕ) (block_size : ℕ) (blocks : List ShardBlock)
      → CodeIsValid code
      → FitsStripe code bytes block_size
      → encode_stripe xxh3_64 code bytes block_size ≡ ok blocks
      → IsRequest code.scheme requested
      → IsReply code.scheme requested received
      → All
          (IsHonest xxh3_64
            (block_length_for code (length bytes))
            (map (λ (b : ShardBlock). b.bytes) blocks))
          received
      → length (stripe_faults (length bytes)) + code.scheme.data_shards ≤ length requested
      → decode_stripe xxh3_64 code requested received (length bytes)
        ≡ ok (recovered bytes (stripe_faults (length bytes)))
  decode_stripe-encode_stripe bytes block_size blocks v fits e hq hr honest few =
      let (parity, runs, cw) = encode_stripe-IsStripe xxh3_64 code bytes block_size v fits in
      let all = data_blocks code bytes ++ parity in
      let same : blocks ≡ number_blocks xxh3_64 0 all = cc in
      let contents : map (λ (b : ShardBlock). b.bytes) blocks ≡ all =
        rw same (number_blocks_bytes xxh3_64 0 all) in
      decode_stripe-recovered bytes parity v cw fits.some_bytes hq hr (rw contents at honest)
        (usable_enough (length bytes) hq few)
