-- ===== src/Cluster/Numbers.antt =====
-- The numbers of a cluster document: `check_numbers` against their limits.
use distributed_jbod.Common.{◌%◌, ◌^◌, ◌≤◌, ◌<◌, ◌≡◌, true, false, ok, arith}
use distributed_jbod.Erasure.{new_scheme}
use distributed_jbod.Erasure.Bounds.{IsAllowed, new_scheme_ok}
use distributed_jbod.Cluster.{
  min_block_size_bytes, max_block_size_bytes, limit_max_key_bytes, limit_max_user_metadata_bytes,
  F64, nan, infinite, finite, ClusterDocument, in_half, check_numbers,
}

abbrev pub IsInHalf : F64 → Type 0
IsInHalf nan = ⊥
IsInHalf (infinite negative) = ⊥
IsInHalf (finite true units) = units ≡ 0
IsInHalf (finite false units) = units ≤ 2 ^ 1073

pub record HasValidNumbers (d : ClusterDocument) : Type 0 where
  pub cluster_id : 0 < d.cluster_id
  pub scheme : IsAllowed d.k d.m
  pub block_aligned : d.block_size % 4096 ≡ 0
  pub block_at_least : min_block_size_bytes ≤ d.block_size
  pub block_at_most : d.block_size ≤ max_block_size_bytes
  pub headroom : IsInHalf d.headroom
  pub some_key : 1 ≤ d.max_key_bytes
  pub key_limit : d.max_key_bytes ≤ limit_max_key_bytes
  pub some_object : 0 < d.max_object_bytes
  pub some_metadata : 1 ≤ d.max_user_metadata_bytes
  pub metadata_limit : d.max_user_metadata_bytes ≤ limit_max_user_metadata_bytes

in_half-IsInHalf : (x : F64) → in_half x ≡ true → IsInHalf x
in_half-IsInHalf nan h = cc
in_half-IsInHalf (infinite negative) h = cc
in_half-IsInHalf (finite true units) h = ground arith
in_half-IsInHalf (finite false units) h = ground arith

IsInHalf-in_half : (x : F64) → IsInHalf x → in_half x ≡ true
IsInHalf-in_half nan h = absurd h
IsInHalf-in_half (infinite negative) h = absurd h
IsInHalf-in_half (finite true units) h = ground arith
IsInHalf-in_half (finite false units) h = ground arith

check_numbers-IsAllowed : (d : ClusterDocument) → check_numbers d ≡ ok tt → IsAllowed d.k d.m
unfolding check_numbers new_scheme
check_numbers-IsAllowed d e = record {
  some_data = ground arith;
  data_limit = ground arith;
  parity_limit = ground arith;
}

pub check_numbers-HasValidNumbers :
    (d : ClusterDocument) → check_numbers d ≡ ok tt → HasValidNumbers d
unfolding check_numbers
check_numbers-HasValidNumbers d e = record {
  cluster_id = ground arith;
  scheme = check_numbers-IsAllowed d e;
  block_aligned = ground arith;
  block_at_least = ground arith;
  block_at_most = ground arith;
  headroom = in_half-IsInHalf d.headroom (ground arith);
  some_key = ground arith;
  key_limit = ground arith;
  some_object = ground arith;
  some_metadata = ground arith;
  metadata_limit = ground arith;
}

pub check_numbers_lem : (d : ClusterDocument) → HasValidNumbers d → check_numbers d ≡ ok tt
unfolding check_numbers
check_numbers_lem d v =
    rw (new_scheme_ok d.k d.m v.scheme, IsInHalf-in_half d.headroom v.headroom) (ground (arith, v))
