-- ===== src/Stripe/Encode.antt =====
-- `encode_stripe`: the data blocks are the consecutive windows of the stripe, padded with zeros, and
-- they hold the stripe's bytes; the result is a numbered codeword with its checksums.
use distributed_jbod.Common.{
  ℕ, zero, suc, ◌+◌, ◌-◌, ◌*◌, ◌^◌, ◌≤◌, ◌<◌, ◌≡◌, refl, sym, ◌∙◌, ap, ap₂, List, [], ◌∷◌, ◌++◌,
  map, ok, length, take, drop, replicate, join, is_empty, min, arith, range_from, length-append,
  length-take, length-drop, length-replicate, take_all, drop_all, drop-drop, take-append_ge,
  take-append-drop, All, All-append, ltb, le→ltb, ltb→lt, ltb→le, take-append_left, Bool-cases, inl,
  inr, false, div_ceil_bounds, div_ceil_pos, mul_u64,
}
use distributed_jbod.Erasure.{Block, ReedSolomonCode, shard_indices}
use distributed_jbod.Erasure.Laws.{HasLength, IsCodeword, CodeIsValid}
use distributed_jbod.Erasure.Parity.{compute_parity_lem}
use distributed_jbod.Erasure.Reconstruct.{codeword_length}
use distributed_jbod.Stripe.{
  BlockChecksum, ShardBlock, block_length_for, resize, data_block, number_blocks, encode_stripe,
}
use mathlib.Core.List.{append-nil, append_assoc}
use native.Mathlib.Nat.{mod-eq_of_lt}

-- The `n` windows of `size` bytes from the front of `rest`, the last ones padded with zeros.
abbrev pub chunk : ℕ → List ℕ → Block
chunk size rest = resize size (take size rest)

unfoldable pub chunks : ℕ → ℕ → List ℕ → List Block
chunks size zero rest = []
chunks size (suc n) rest = chunk size rest ∷ chunks size n (drop size rest)

pub length-chunks : (size n : ℕ) (rest : List ℕ) → length (chunks size n rest) ≡ n
unfolding chunks
length-chunks size zero rest = refl
length-chunks size (suc n) rest = ap suc (length-chunks size n (drop size rest))

pub length-resize : (n : ℕ) (b : Block) → length (resize n b) ≡ n
length-resize n b = omega (
  arith,
  length-append (take n b) (replicate (n - length b) 0),
  length-take n b,
  length-replicate {A = ℕ} (n - length b) 0,
)

pub chunks-HasLength : (size n : ℕ) (rest : List ℕ) → All (HasLength size) (chunks size n rest)
unfolding chunks
chunks-HasLength size zero rest = tt
chunks-HasLength size (suc n) rest =
    (length-resize size (take size rest), chunks-HasLength size n (drop size rest))

-- Cutting at the end of the list takes no less.
take_window :
    (xs : List ℕ) (start size : ℕ)
    → start ≤ length xs
    → take (min (start + size) (length xs) - start) (drop start xs) ≡ take size (drop start xs)
take_window xs start size h = elim (Bool-cases (ltb (length xs) (start + size))) [
  | inl cut ↦
      take_all _ (drop start xs) (omega (arith, ltb→lt _ _ cut, length-drop start xs))
      ∙ sym (take_all size (drop start xs) (omega (arith, ltb→lt _ _ cut, length-drop start xs)))
  | inr whole ↦ ap (λ n. take n (drop start xs)) (omega (arith, ltb→le _ _ whole))
]

nothing_left : (xs : List ℕ) (start size : ℕ) → length xs ≤ start → [] ≡ take size (drop start xs)
nothing_left xs start size h =
    sym (ap (take size) (drop_all start xs h) ∙ take_all size [] (omega arith))

-- A window cut at the end of the stripe is the window of the rest.
data_block-chunk :
    (bytes : List ℕ) (size i : ℕ) → data_block bytes size i ≡ chunk size (drop (i * size) bytes)
data_block-chunk bytes size i = elim (Bool-cases (ltb (i * size) (length bytes))) [
  | inl inside ↦
      rw inside
        (ap (resize size) (take_window bytes (i * size) size (omega (arith, ltb→lt _ _ inside))))
  | inr past ↦ rw past (ap (resize size) (nothing_left bytes (i * size) size (ltb→le _ _ past)))
]

data_blocks-chunks :
    (bytes : List ℕ) (size i n : ℕ)
    → map (data_block bytes size) (range_from i n) ≡ chunks size n (drop (i * size) bytes)
unfolding chunks
data_blocks-chunks bytes size i zero = refl
data_blocks-chunks bytes size i (suc n) =
    let next : i * size + size ≡ (i + 1) * size = omega arith in
    cc (
      data_block-chunk bytes size i,
      data_blocks-chunks bytes size (i + 1) n,
      drop-drop (i * size) size bytes,
      ap (λ j. drop j bytes) next,
    )

resize_full : (size : ℕ) (rest : List ℕ) → size ≤ length rest → chunk size rest ≡ take size rest
resize_full size rest h =
    let full : length (take size rest) ≡ size = omega (arith, length-take size rest) in
    rw (take_all size (take size rest) (omega arith), full)
      (let none_left : size - size ≡ 0 = omega arith in rw none_left (append-nil (take size rest)))

resize_short :
    (size : ℕ) (rest : List ℕ)
    → length rest ≤ size
    → chunk size rest ≡ rest ++ replicate (size - length rest) 0
resize_short size rest h = rw (take_all size rest h, take_all size rest h)

-- The windows hold the list that they were cut from.
take-join-chunks :
    (size n : ℕ) (rest : List ℕ)
    → length rest ≤ n * size
    → take (length rest) (join (chunks size n rest)) ≡ rest
unfolding chunks
take-join-chunks size zero [] h = refl
take-join-chunks size zero (x ∷ rest) h = absurd (omega arith)
take-join-chunks size (suc n) rest h = elim (Bool-cases (ltb (length rest) size)) [
  | inl short ↦
      let le : length rest ≤ size = omega (arith, ltb→lt _ _ short) in
      rw (resize_short size rest le, append_assoc) (take-append_left rest _ (length rest) refl)
  | inr full ↦
      let le : size ≤ length rest = ltb→le _ _ full in
      let short : length (take size rest) ≡ size = omega (arith, length-take size rest) in
      let left : length rest - size ≡ length (drop size rest) = sym (length-drop size rest) in
      rw
        (
          resize_full size rest le,
          take-append_ge (take size rest) (join (chunks size n (drop size rest))) (length rest)
              (omega arith),
          short,
          left,
          take-join-chunks size n (drop size rest) (omega (arith, length-drop size rest)),
        )
        (take-append-drop size rest)
]

all_data_blocks :
    (bytes : List ℕ) (size n : ℕ)
    → map (data_block bytes size) (range_from 0 n) ≡ chunks size n bytes
all_data_blocks bytes size n =
    let first : 0 * size ≡ 0 = omega arith in
    data_blocks-chunks bytes size 0 n ∙ ap (λ j. chunks size n (drop j bytes)) first

not_empty : (bytes : List ℕ) → 0 < length bytes → is_empty bytes ≡ false
not_empty [] h = absurd (omega arith)
not_empty (x ∷ bytes) h = refl

-- The data blocks of a stripe of `bytes`, and the codeword that it is encoded to.
abbrev pub data_blocks : ReedSolomonCode → List ℕ → List Block
data_blocks code bytes = chunks (block_length_for code (length bytes)) code.scheme.data_shards bytes

abbrev pub IsStripe : ReedSolomonCode → List ℕ → List Block → Type 0
IsStripe code bytes parity =
    IsCodeword code.reed_solomon code.scheme.data_shards code.scheme.parity_shards
      (block_length_for code (length bytes)) (data_blocks code bytes) parity

-- The sizes that a stripe may have: one byte to `k` blocks, on a 64-bit machine.
pub record FitsStripe (code : ReedSolomonCode) (bytes : List ℕ) (block_size : ℕ) : Type 0 where
  pub some_bytes : 0 < length bytes
  pub at_most : length bytes ≤ code.scheme.data_shards * block_size
  pub no_wrap : code.scheme.data_shards * block_size < 2 ^ 64

module _ (xxh3_64 : Block → BlockChecksum) where
  pub encode_stripe-IsStripe :
      (code : ReedSolomonCode) (bytes : List ℕ) (block_size : ℕ)
      → CodeIsValid code
      → FitsStripe code bytes block_size
      → (parity : List Block) × (encode_stripe xxh3_64 code bytes block_size
          ≡ ok (number_blocks xxh3_64 0 (data_blocks code bytes ++ parity)))
        × IsStripe code bytes parity
  unfolding encode_stripe block_length_for
  encode_stripe-IsStripe code bytes block_size v fits =
      let k = code.scheme.data_shards in
      let len = block_length_for code (length bytes) in
      let (parity, runs, cw) =
        compute_parity_lem code (chunks len k bytes) len v (length-chunks len k bytes)
          (div_ceil_pos (length bytes) k fits.some_bytes v.some_data)
          (chunks-HasLength len k bytes) in
      let max : mul_u64 k block_size ≡ k * block_size = mod-eq_of_lt fits.no_wrap in
      (
        parity,
        rw (
          not_empty bytes fits.some_bytes,
          max,
          le→ltb _ _ fits.at_most,
          all_data_blocks bytes len k,
          runs,
        ),
        cw,
      )

  -- What a device receives and stores of one block.
  pub record IsSound (len : ℕ) (b : ShardBlock) : Type 0 where
    pub sized : length b.bytes ≡ len
    pub checked : b.checksum ≡ xxh3_64 b.bytes

  number_blocks-IsSound :
      (len i : ℕ) (bs : List Block)
      → All (HasLength len) bs
      → All (IsSound len) (number_blocks xxh3_64 i bs)
  unfolding number_blocks
  number_blocks-IsSound len i [] h = tt
  number_blocks-IsSound len i (b ∷ bs) h =
      (record { sized = h.0; checked = refl }, number_blocks-IsSound len (i + 1) bs h.1)

  number_blocks_indices :
      (i : ℕ) (bs : List Block)
      → i + length bs ≤ 256
      → map (λ (b : ShardBlock). b.index) (number_blocks xxh3_64 i bs) ≡ range_from i (length bs)
  unfolding number_blocks
  number_blocks_indices i [] h = refl
  number_blocks_indices i (b ∷ bs) h =
      ap₂ ◌∷◌ (mod-eq_of_lt {m = 256} (omega arith))
        (number_blocks_indices (i + 1) bs (omega arith))

  pub number_blocks_bytes :
      (i : ℕ) (bs : List Block)
      → map (λ (b : ShardBlock). b.bytes) (number_blocks xxh3_64 i bs) ≡ bs
  unfolding number_blocks
  number_blocks_bytes i [] = refl
  number_blocks_bytes i (b ∷ bs) = ap (◌∷◌ b) (number_blocks_bytes (i + 1) bs)

  -- The bytes of a stripe are those of its data blocks.
  pub data_blocks_bytes :
      (code : ReedSolomonCode) (bytes : List ℕ)
      → 0 < code.scheme.data_shards
      → take (length bytes) (join (data_blocks code bytes)) ≡ bytes
  unfolding block_length_for
  data_blocks_bytes code bytes h =
      take-join-chunks _ code.scheme.data_shards bytes
        (omega (arith, div_ceil_bounds (length bytes) code.scheme.data_shards h))

  -- `encode_stripe` of a stripe that fits returns `k + m` blocks in the order of their indices, all
  -- of the length `block_length_for` and with their right checksums, and the first `k` of them hold
  -- the stripe's bytes in order.
  pub encode_stripe_lem :
      (code : ReedSolomonCode) (bytes : List ℕ) (block_size : ℕ)
      → CodeIsValid code
      → FitsStripe code bytes block_size
      → (blocks : List ShardBlock) × (encode_stripe xxh3_64 code bytes block_size ≡ ok blocks)
        × (map (λ (b : ShardBlock). b.index) blocks ≡ shard_indices code.scheme)
        × All (IsSound (block_length_for code (length bytes))) blocks
        × (take
              (length bytes)
              (join (take code.scheme.data_shards (map (λ (b : ShardBlock). b.bytes) blocks)))
            ≡ bytes)
  encode_stripe_lem code bytes block_size v fits =
      let (parity, runs, cw) = encode_stripe-IsStripe code bytes block_size v fits in
      let all = data_blocks code bytes ++ parity in
      let total = codeword_length code.reed_solomon _ _ _ _ parity cw in
      (
        number_blocks xxh3_64 0 all,
        runs,
        number_blocks_indices 0 all (omega (arith, total, v.few_shards)) ∙ ap (range_from 0) total,
        number_blocks-IsSound _ 0 all (
            All-append (HasLength _) (data_blocks code bytes) parity cw.data_lengths
              cw.parity_lengths),
        rw
            (
              number_blocks_bytes 0 all,
              take-append_left (data_blocks code bytes) parity code.scheme.data_shards
                  (sym cw.data_count),
            )
            (data_blocks_bytes code bytes v.some_data),
      )
