-- ===== src/ShardFile/Geometry.antt =====
-- The geometry of a shard file against the stripes of its object.
use distributed_jbod.Common.{
  ℕ, zero, suc, ◌+◌, ◌-◌, ◌*◌, ◌^◌, ◌≤◌, ◌<◌, ◌≡◌, refl, some, ok, arith, ==_of_pos, div_ceil,
  div_ceil_bounds, div_ceil_pos, mul_u64, sub_u64,
}
use distributed_jbod.Erasure.{Scheme}
use distributed_jbod.ShardFile.{ShardGeometry, shard_geometry}
use native.Mathlib.Nat.{mod-eq_of_lt}

-- The sizes at which no product or sum wraps: the object and one stripe are numbers of bytes below
-- `2 ^ 64`.
pub record InRange (s : Scheme) (block_length object_size : ℕ) : Type 0 where
  pub some_data : 0 < s.data_shards
  pub some_block : 0 < block_length
  pub some_bytes : 0 < object_size
  pub stripe_fits : s.data_shards * block_length < 2 ^ 64
  pub object_fits : object_size < 2 ^ 64

-- An object of `object_size` bytes is `block_count` stripes: all are full but the last, which holds
-- `last_stripe` bytes in blocks of `last_block_length`.
pub record IsGeometry (s : Scheme) (block_length object_size : ℕ) (g : ShardGeometry)
    (last_stripe : ℕ) : Type 0 where
  pub some_blocks : 0 < g.block_count
  pub stripes : (g.block_count - 1) * (s.data_shards * block_length) + last_stripe ≡ object_size
  pub not_empty : 0 < last_stripe
  pub at_most : last_stripe ≤ s.data_shards * block_length
  pub blocks : g.last_block_length ≡ div_ceil last_stripe s.data_shards
  pub last_positive : 0 < g.last_block_length
  pub last_at_most : g.last_block_length ≤ block_length

div_ceil-le : (a k b : ℕ) → 0 < k → a ≤ k * b → div_ceil a k ≤ b
div_ceil-le a k b hk h = grind (arith, div_ceil_bounds a k hk)

pred_mul : (c n : ℕ) → 0 < c → c * n ≡ (c - 1) * n + n
pred_mul (suc c) n h = let e : suc c - 1 ≡ c = omega arith in rw e (omega arith)
pred_mul zero n h = absurd (omega arith)

module _ (s : Scheme) (b n : ℕ) (r : InRange s b n) where
  abbrev stripe : ℕ
  stripe = s.data_shards * b

  stripe_pos : 0 < s.data_shards * b
  stripe_pos = grind (arith, r.some_data, r.some_block)

  count_bounds :
      (0 < div_ceil n stripe)
      × ((div_ceil n stripe - 1) * stripe < n)
      × (n ≤ (div_ceil n stripe - 1) * stripe + stripe)
  count_bounds =
      let (lo, hi) = div_ceil_bounds n stripe stripe_pos in
      let pos = div_ceil_pos n stripe r.some_bytes stripe_pos in
      let split = pred_mul (div_ceil n stripe) stripe pos in (pos, omega arith, omega arith)

  abbrev stripes_before : ℕ
  stripes_before = (div_ceil n stripe - 1) * stripe

  abbrev the_geometry : ShardGeometry
  the_geometry = record {
    block_count = div_ceil n stripe;
    last_block_length = div_ceil (n - stripes_before) s.data_shards;
  }

  the_geometry-IsGeometry : IsGeometry s b n the_geometry (n - stripes_before)
  the_geometry-IsGeometry =
      let (pos, before, within) = count_bounds in
      record {
        some_blocks = pos;
        stripes = omega arith;
        not_empty = omega arith;
        at_most = omega arith;
        blocks = refl;
        last_positive = div_ceil_pos (n - stripes_before) s.data_shards (omega arith) r.some_data;
        last_at_most = div_ceil-le (n - stripes_before) s.data_shards b r.some_data (omega arith);
      }

  count-le : div_ceil n stripe ≤ n
  count-le = div_ceil-le n stripe n stripe_pos (grind (arith, stripe_pos))

  no_wrap_stripe : mul_u64 s.data_shards b ≡ stripe
  no_wrap_stripe = mod-eq_of_lt r.stripe_fits

  no_wrap_count : sub_u64 (div_ceil n stripe) 1 ≡ div_ceil n stripe - 1
  no_wrap_count = let (pos, before, within) = count_bounds in omega (arith, count-le, r.object_fits)

  no_wrap_before : mul_u64 (div_ceil n stripe - 1) stripe ≡ stripes_before
  no_wrap_before =
      let (pos, before, within) = count_bounds in
      mod-eq_of_lt {n = stripes_before} {m = 2 ^ 64} (omega (arith, r.object_fits))

  no_wrap_last : sub_u64 n stripes_before ≡ n - stripes_before
  no_wrap_last = let (pos, before, within) = count_bounds in omega (arith, r.object_fits)

  -- The geometry is that of the object's stripes. In the range of `u64`, `shard_geometry` returns a count
  -- of blocks such that all stripes but the last are full and the last has one byte or more, and the
  -- length of a block of the last stripe, which is its bytes over k, rounded up, and no longer than a
  -- block.
  pub shard_geometry_lem :
      (g : ShardGeometry) × (shard_geometry s b n ≡ ok (some g))
      × IsGeometry s b n g (n - (g.block_count - 1) * (s.data_shards * b))
  unfolding shard_geometry
  shard_geometry_lem = (
    the_geometry,
    rw (
      ==_of_pos n r.some_bytes,
      ==_of_pos b r.some_block,
      no_wrap_stripe,
      no_wrap_count,
      no_wrap_before,
      no_wrap_last,
      ==_of_pos stripe stripe_pos,
    ),
    the_geometry-IsGeometry,
  )
