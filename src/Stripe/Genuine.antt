-- ===== src/Stripe/Genuine.antt =====
-- Decoding from blocks that `encode_stripe` made, some of which did not arrive.
use distributed_jbod.Common.{
  ℕ, zero, suc, ◌+◌, ◌≤◌, ◌≡◌, sym, ap, some, List, [], ◌∷◌, map, length, get_or, get_elem?, All,
  All-weaken, ok, arith,
}
use mathlib.Core.Path.{subst}
use mathlib.Core.Option.{some-injective}
use distributed_jbod.Erasure.{ShardIndex, Block, ReedSolomonCode, shard_indices}
use distributed_jbod.Erasure.Laws.{CodeIsValid}
use distributed_jbod.Stripe.{
  BlockChecksum, ShardBlock, block_length_for, encode_stripe, decode_stripe,
}
use distributed_jbod.Stripe.Encode.{IsSound, FitsStripe, encode_stripe_lem}
use distributed_jbod.Stripe.Lookup.{IsRequest, IsReply}
use distributed_jbod.Stripe.Examine.{IsHonest, usable-add-faults}
use distributed_jbod.Stripe.Counting.{count_requested_lem, usable_among_sound}
use distributed_jbod.Stripe.Decode.{recovered, stripe_faults, decode_stripe-encode_stripe}

-- The block is the encoded one of its index.
abbrev pub IsGenuine : List ShardBlock → ShardBlock → Type 0
IsGenuine blocks b = get_elem? blocks b.index ≡ some b

elem-All {ℓ κ} :
    {A : Type ℓ} (P : A → Type κ) (xs : List A) (i : ℕ) (x : A)
    → All P xs
    → get_elem? xs i ≡ some x
    → P x
elem-All P [] i x h e = absurd (cc)
elem-All P (y ∷ xs) zero x h e = subst P (some-injective y x e) h.0
elem-All P (y ∷ xs) (suc i) x h e = elem-All P xs i x h.1 e

genuine_bytes :
    (blocks : List ShardBlock) (i : ℕ) (b : ShardBlock)
    → get_elem? blocks i ≡ some b
    → b.bytes ≡ get_or (map (λ (c : ShardBlock). c.bytes) blocks) i []
genuine_bytes [] i b e = cc
genuine_bytes (c ∷ blocks) zero b e = sym (ap (λ (x : ShardBlock). x.bytes) (some-injective c b e))
genuine_bytes (c ∷ blocks) (suc i) b e = genuine_bytes blocks i b e

module _ (xxh3_64 : Block → BlockChecksum) (code : ReedSolomonCode) (requested : List ShardIndex)
    (received : List ShardBlock) where
  genuine-IsHonest :
      (len : ℕ) (blocks : List ShardBlock)
      → All (IsGenuine blocks) received
      → All (IsHonest xxh3_64 len (map (λ (b : ShardBlock). b.bytes) blocks)) received
  genuine-IsHonest len blocks =
      All-weaken (IsGenuine blocks)
        (IsHonest xxh3_64 len (map (λ (b : ShardBlock). b.bytes) blocks)) received
        λ b g. record { told = λ _ _. genuine_bytes blocks b.index b g }

  -- Any `k` of the encoded blocks are enough, whatever the checksum function. If a reply to a request
  -- holds `k` or more of the blocks that `encode_stripe` made, each requested and none twice, and the
  -- others are lost, then `decode_stripe` returns the stripe's bytes, and it lists one fault for each
  -- requested block that was lost.
  pub decode_stripe-any_k :
      (bytes : List ℕ) (block_size : ℕ) (blocks : List ShardBlock)
      → CodeIsValid code
      → FitsStripe code bytes block_size
      → encode_stripe xxh3_64 code bytes block_size ≡ ok blocks
      → IsRequest code.scheme requested
      → IsReply code.scheme requested received
      → All (IsGenuine blocks) received
      → code.scheme.data_shards ≤ length received
      → (decode_stripe xxh3_64 code requested received (length bytes)
          ≡ ok (recovered bytes (stripe_faults xxh3_64 code requested received (length bytes))))
        × (length (stripe_faults xxh3_64 code requested received (length bytes)) + length received
            ≡ length requested)
  decode_stripe-any_k bytes block_size blocks v fits e hq hr genuine enough =
      let (made, runs, indices, sound, contents) =
        encode_stripe_lem xxh3_64 code bytes block_size v fits in
      let same : made ≡ blocks = cc in
      let len = block_length_for code (length bytes) in
      let all_sound : All (IsSound xxh3_64 len) received =
        All-weaken (IsGenuine blocks) (IsSound xxh3_64 len) received
          (λ b g. elem-All (IsSound xxh3_64 len) blocks b.index b (rw same at sound) g) genuine in
      let usable = usable_among_sound xxh3_64 len code.scheme requested received hr all_sound in
      let total = usable-add-faults xxh3_64 len requested received (shard_indices code.scheme) in
      let asked = count_requested_lem code.scheme requested hq in
      (
        decode_stripe-encode_stripe xxh3_64 code requested received bytes block_size blocks v fits e
            hq hr (genuine-IsHonest len blocks genuine) (omega arith),
        omega arith,
      )
