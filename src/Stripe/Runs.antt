-- ===== src/Stripe/Runs.antt =====
-- Concrete runs of the stripe code, and its theorems at concrete inputs.
use distributed_jbod.Common.{
  ℕ, ◌+◌, ◌≡◌, refl, List, [], ◌∷◌, map, ok, arith, All, take, join, div_ceil,
}
use distributed_jbod.Erasure.{Block, ShardIndex, compute_parity, shard_indices}
use distributed_jbod.Erasure.Example.{two_plus_one, two_plus_one-IsValid}
use distributed_jbod.Stripe.{
  ShardBlock, encode_stripe, decode_stripe, number_blocks, block_length_for, inspect, missing,
  repaired, checksum_mismatch,
}
use distributed_jbod.Stripe.Encode.{FitsStripe, IsSound, encode_stripe_lem}
use distributed_jbod.Stripe.Lookup.{IsRequest, IsReply}
use distributed_jbod.Stripe.Examine.{IsHonest}
use distributed_jbod.Stripe.Examine
use distributed_jbod.Stripe.Decode.{decode_stripe-encode_stripe}
use distributed_jbod.Stripe.Genuine.{decode_stripe-any_k}

-- A checksum for the runs: the sum of the bytes.
abbrev sum : Block → ℕ
sum [] = 0
sum (x ∷ b) = x + sum b

abbrev stripe : List ℕ
stripe = 1 ∷ 2 ∷ 3 ∷ []

abbrev block_0 : ShardBlock
block_0 = record { index = 0; bytes = 1 ∷ 2 ∷ []; checksum = 3 }

abbrev block_1 : ShardBlock
block_1 = record { index = 1; bytes = 3 ∷ 0 ∷ []; checksum = 3 }

abbrev block_2 : ShardBlock
block_2 = record { index = 2; bytes = 4 ∷ 2 ∷ []; checksum = 6 }

-- A copy of `block_1` with a byte changed.
abbrev damaged_1 : ShardBlock
damaged_1 = record { index = 1; bytes = 7 ∷ 0 ∷ []; checksum = 3 }

abbrev made : List ShardBlock
made = block_0 ∷ block_1 ∷ block_2 ∷ []

abbrev all_three : List ShardIndex
all_three = 0 ∷ 1 ∷ 2 ∷ []

encoded : encode_stripe sum two_plus_one stripe 4 ≡ ok made
unfolding encode_stripe block_length_for div_ceil compute_parity number_blocks
encoded = refl

fits : FitsStripe two_plus_one stripe 4
fits = record { some_bytes = omega arith; at_most = omega arith; no_wrap = omega arith }

request : IsRequest two_plus_one.scheme all_three
request = record { inside = omega arith; distinct = omega arith }

encode_stripe_lem_example :
    (blocks : List ShardBlock) × (encode_stripe sum two_plus_one stripe 4 ≡ ok blocks)
    × (map (λ (b : ShardBlock). b.index) blocks ≡ shard_indices two_plus_one.scheme)
    × All (IsSound sum (block_length_for two_plus_one 3)) blocks
    × (take 3 (join (take 2 (map (λ (b : ShardBlock). b.bytes) blocks))) ≡ stripe)
encode_stripe_lem_example = encode_stripe_lem sum two_plus_one stripe 4 two_plus_one-IsValid fits

-- Shard 1 is lost.
reply : IsReply two_plus_one.scheme all_three (block_2 ∷ block_0 ∷ [])
reply = record { wanted = ((omega arith, refl), ((omega arith, refl), tt)); distinct = omega arith }

decode_stripe-any_k_example :
    (decode_stripe sum two_plus_one all_three (block_2 ∷ block_0 ∷ []) 3
      ≡ ok (repaired stripe (record { index = 1; kind = missing } ∷ [])))
    × ◌≡◌ {A = ℕ} (1 + 2) 3
unfolding Examine.faults_among inspect block_length_for div_ceil
decode_stripe-any_k_example =
    decode_stripe-any_k sum two_plus_one all_three (block_2 ∷ block_0 ∷ []) stripe 4 made
      two_plus_one-IsValid fits encoded request reply (refl, (refl, tt)) (omega arith)

-- Shard 1 arrives with a changed byte.
damaged-IsReply : IsReply two_plus_one.scheme all_three (block_0 ∷ damaged_1 ∷ block_2 ∷ [])
damaged-IsReply = record {
  wanted = ((omega arith, refl), ((omega arith, refl), ((omega arith, refl), tt)));
  distinct = omega arith;
}

damaged-IsHonest :
    All
      (IsHonest sum 2 (map (λ (b : ShardBlock). b.bytes) made))
      (block_0 ∷ damaged_1 ∷ block_2 ∷ [])
damaged-IsHonest = (
  record { told = λ _ _. refl },
  (record { told = λ _ h. absurd (omega arith) }, (record { told = λ _ _. refl }, tt)),
)

decode_stripe-encode_stripe_example :
    decode_stripe sum two_plus_one all_three (block_0 ∷ damaged_1 ∷ block_2 ∷ []) 3
    ≡ ok (repaired stripe (record { index = 1; kind = checksum_mismatch 3 7 } ∷ []))
unfolding Examine.faults_among inspect block_length_for div_ceil
decode_stripe-encode_stripe_example =
    decode_stripe-encode_stripe sum two_plus_one all_three (block_0 ∷ damaged_1 ∷ block_2 ∷ [])
      stripe 4 made two_plus_one-IsValid fits encoded request damaged-IsReply damaged-IsHonest
      (omega arith)
