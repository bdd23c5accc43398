-- ===== src/Erasure/Bounds.antt =====
-- Which schemes exist, and how a scheme classifies shard indices.
use distributed_jbod.Common.{ℕ, ◌≤◌, ◌≡◌, ok, err, arith}
use distributed_jbod.Erasure.{Scheme, too_many_shards, new_scheme}

-- The schemes that the limits allow.
pub record IsAllowed (k m : ℕ) : Type 0 where
  pub some_data : 1 ≤ k
  pub data_limit : k ≤ 32
  pub parity_limit : m ≤ 8

-- `new_scheme` succeeds on exactly the allowed pairs, and then returns that pair.
pub new_scheme_ok :
    (k m : ℕ) → IsAllowed k m → new_scheme k m ≡ ok (record { data_shards = k; parity_shards = m })
unfolding new_scheme
new_scheme_ok k m h = ground arith

pub new_scheme-IsAllowed :
    (k m : ℕ) (s : Scheme)
    → new_scheme k m ≡ ok s
    → IsAllowed k m × (s ≡ record { data_shards = k; parity_shards = m })
unfolding new_scheme
new_scheme-IsAllowed k m s h = ground arith

-- The limit on the sum cannot be reached: `too_many_shards` is never returned.
pub new_scheme_total : (k m n : ℕ) → ¬ (new_scheme k m ≡ err (too_many_shards n))
unfolding new_scheme
new_scheme_total k m n h = ground arith
