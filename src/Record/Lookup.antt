-- ===== src/Record/Lookup.antt =====
-- `device_for` and `shard_on`: in a valid record shard indices and devices determine each other.
use distributed_jbod.Common.{
  ℕ, ◌+◌, ◌<◌, ◌≡◌, ap, false, some, List, [], ◌∷◌, ◌==◌, ==_iff, ==_of_eq, Bool-cases, inl, inr,
  ◌↔◌,
}
use distributed_jbod.Common.Seen.{NotIn, IsIn, IsUnique, NotIn-IsIn}
use distributed_jbod.Erasure.{ShardIndex}
use distributed_jbod.ShardFile.{KeyHash}
use distributed_jbod.Cluster.{DeviceId}
use distributed_jbod.Record.{
  Bytes, ShardLocation, MetadataRecord, device_in, index_on, device_for, shard_on,
}
use distributed_jbod.Record.Shards.{indices_of, devices_of}
use distributed_jbod.Record.Valid.{IsValid}
use mathlib.Core.Option.{some-injective}

-- What is not in a list is not equal to what is in it.
apart : (a b : ℕ) (xs : List ℕ) → NotIn a xs → IsIn b xs → (a == b) ≡ false
apart a b xs n i = elim (Bool-cases (a == b)) [
  | inl same ↦ absurd (NotIn-IsIn a xs n (rw ((==_iff a b).0 same) i))
  | inr other ↦ other
]

device_in-IsIn :
    (i : ShardIndex) (d : DeviceId) (shards : List ShardLocation)
    → device_in shards i ≡ some d
    → IsIn d (devices_of shards) × IsIn i (indices_of shards)
unfolding device_in
device_in-IsIn i d [] e = absurd (cc)
device_in-IsIn i d (s ∷ shards) e = elim (Bool-cases (s.index == i)) [
  | inl same ↦ (inl (some-injective s.device d (rw same at e)), inl ((==_iff s.index i).0 same))
  | inr other ↦ let rest = device_in-IsIn i d shards (rw other at e) in (inr rest.0, inr rest.1)
]

index_on-device_in :
    (i : ShardIndex) (d : DeviceId) (shards : List ShardLocation)
    → IsUnique (devices_of shards)
    → device_in shards i ≡ some d
    → index_on shards d ≡ some i
unfolding device_in index_on
index_on-device_in i d [] u e = absurd (cc)
index_on-device_in i d (s ∷ shards) (n, u) e = elim (Bool-cases (s.index == i)) [
  | inl same ↦
      rw (==_of_eq _ _ (some-injective s.device d (rw same at e)))
        (ap some ((==_iff s.index i).0 same))
  | inr other ↦
      let rest : device_in shards i ≡ some d = rw other at e in
      rw (apart s.device d (devices_of shards) n (device_in-IsIn i d shards rest).0)
        (index_on-device_in i d shards u rest)
]

index_on-IsIn :
    (i : ShardIndex) (d : DeviceId) (shards : List ShardLocation)
    → index_on shards d ≡ some i
    → IsIn i (indices_of shards)
unfolding index_on
index_on-IsIn i d [] e = absurd (cc)
index_on-IsIn i d (s ∷ shards) e = elim (Bool-cases (s.device == d)) [
  | inl same ↦ inl (some-injective s.index i (rw same at e))
  | inr other ↦ inr (index_on-IsIn i d shards (rw other at e))
]

device_in-index_on :
    (i : ShardIndex) (d : DeviceId) (shards : List ShardLocation)
    → IsUnique (indices_of shards)
    → index_on shards d ≡ some i
    → device_in shards i ≡ some d
unfolding device_in index_on
device_in-index_on i d [] u e = absurd (cc)
device_in-index_on i d (s ∷ shards) (n, u) e = elim (Bool-cases (s.device == d)) [
  | inl same ↦
      rw (==_of_eq _ _ (some-injective s.index i (rw same at e)))
        (ap some ((==_iff s.device d).0 same))
  | inr other ↦
      let rest : index_on shards d ≡ some i = rw other at e in
      rw (apart s.index i (indices_of shards) n (index_on-IsIn i d shards rest))
        (device_in-index_on i d shards u rest)
]

device_in-some :
    (i : ShardIndex) (shards : List ShardLocation)
    → IsIn i (indices_of shards)
    → (d : DeviceId) × (device_in shards i ≡ some d)
unfolding device_in
device_in-some i [] h = absurd h
device_in-some i (s ∷ shards) (inl e) = (s.device, rw (==_of_eq _ _ e))
device_in-some i (s ∷ shards) (inr h) = elim (Bool-cases (s.index == i)) [
  | inl same ↦ (s.device, rw same)
  | inr other ↦ let (d, found) = device_in-some i shards h in (d, rw other found)
]

module _ (hash_key : Bytes → KeyHash) (r : MetadataRecord) (v : IsValid hash_key r) where
  -- Every shard of a valid record has a device: for each index of the scheme `device_for` finds one.
  pub device_for-some :
      (i : ShardIndex) → i < r.k + r.m → (d : DeviceId) × (device_for r i ≡ some d)
  device_for-some i lt = device_in-some i r.shards (v.shards.complete i lt)

  -- Shard indices and devices determine each other: in a valid record `device_for` finds a device for an
  -- index exactly if `shard_on` finds that index for that device.
  pub device_for-shard_on :
      (i : ShardIndex) (d : DeviceId) → (device_for r i ≡ some d) ↔ (shard_on r d ≡ some i)
  device_for-shard_on i d = (
    index_on-device_in i d r.shards v.shards.unique_devices,
    device_in-index_on i d r.shards v.shards.unique_indices,
  )
