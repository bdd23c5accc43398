-- ===== src/Node/Placement.antt =====
-- crates/djbod-node/src/coordinator.rs: `place`, the choice of the devices for a new version.
pub mod Best
pub mod Choice
use distributed_jbod.Common.{
  ℕ, Bool, true, false, not, ◌&&◌, ◌||◌, Option, List, [], ◌∷◌, map, Outcome, ok, err, panic, ◌>>=◌,
  ◌>>◌, fail_if, length, take, leb, ltb, ◌==◌, if◌then◌else◌,
}
use distributed_jbod.Common.Find.{filter}
use distributed_jbod.Erasure.{Scheme, total_shards}
use distributed_jbod.Cluster.Names.{Text}
use distributed_jbod.Cluster.{NodeId, DeviceId, DeviceState}

pub record DeviceStatus : Type 0 where
  pub device : DeviceId
  pub node : NodeId
  pub state : DeviceState
  pub available : Bool
  pub label : Option Text
  pub node_label : Option Text
  pub total_bytes : ℕ
  pub free_bytes : ℕ

abbrev pub is_active : DeviceState → Bool
is_active DeviceState.active = true
is_active DeviceState.draining = false
is_active DeviceState.removed = false

-- The error says how many devices have room for how many bytes, how many are needed, and which active
-- devices cannot be read.
pub data PlacementError : Type 0 where
  insufficient_devices :
      (eligible shard_bytes needed : ℕ) (unavailable : List DeviceId) → PlacementError

abbrev pub is_eligible : ℕ → DeviceStatus → Bool
is_eligible shard_bytes d = is_active d.state && d.available && leb shard_bytes d.free_bytes

-- Not after, in the order of the sort: most free space first, then by device id.
abbrev pub comes_before : DeviceStatus → DeviceStatus → Bool
comes_before a b =
    ltb b.free_bytes a.free_bytes || (a.free_bytes == b.free_bytes && leb a.device b.device)

-- `sort_by` keeps equal elements in their order, which determines its result.
unfoldable pub insert : DeviceStatus → List DeviceStatus → List DeviceStatus
insert d [] = d ∷ []
insert d (x ∷ xs) = let rest = insert d xs in if comes_before d x then d ∷ x ∷ xs else x ∷ rest

unfoldable pub sort : List DeviceStatus → List DeviceStatus
sort [] = []
sort (d ∷ ds) = insert d (sort ds)

abbrev pub unavailable : List DeviceStatus → List DeviceId
unavailable statuses =
    map (λ (d : DeviceStatus). d.device)
      (filter (λ (d : DeviceStatus). is_active d.state && not d.available) statuses)

unfoldable pub place : List DeviceStatus → Scheme → ℕ → Outcome PlacementError (List DeviceStatus)
place statuses scheme shard_bytes = do
  let eligible = sort (filter (is_eligible shard_bytes) statuses)
  fail_if (ltb (length eligible) (total_shards scheme)) (
      insufficient_devices (length eligible) shard_bytes (total_shards scheme)
        (unavailable statuses))
  ok (take (total_shards scheme) eligible)
