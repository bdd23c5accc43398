-- ===== src/Coordinator/Streams.antt =====
-- `StreamedRecord` and `RecordSource` of coordinator.rs, and the heads of the streams that `merge_inventory`
-- and `merge_sources` compare. A stream is the finite sequence of what its calls of `next` yield, a record or
-- a failure, and ends.
pub mod Heads
use distributed_jbod.Common.{
  ℕ, Bool, true, false, ◌&&◌, Option, none, some, List, [], ◌∷◌, ◌++◌, map, if◌then◌else◌, bytes_eq,
}
use distributed_jbod.ShardFile.{KeyHash, VersionId}
use distributed_jbod.Cluster.{DeviceId, NodeId}
use distributed_jbod.Record.{MetadataRecord}
use distributed_jbod.Coordinator.{LocatedRecord, Failure}
use distributed_jbod.Coordinator.Copies.{bytes_ltb}
use distributed_jbod.Coordinator.Groups.{Presence}

pub record StreamedRecord : Type 0 where
  pub device : DeviceId
  pub found : MetadataRecord
  pub shard_present : Bool

-- What a call of `next` yields before the end.
pub data StreamItem : Type 0 where
  yielded : StreamedRecord → StreamItem
  failed : Failure → StreamItem

-- What is left of a device's stream.
pub record RecordSource : Type 0 where
  pub owner : NodeId
  pub device : DeviceId
  pub items : List StreamItem

-- A source with the record at its head.
pub record Lane : Type 0 where
  pub source : RecordSource
  pub head : Option StreamedRecord

abbrev pub Key : Type 0
Key = KeyHash × VersionId

-- The derived order of pairs.
unfoldable pub key_ltb : Key → Key → Bool
key_ltb a b = if bytes_ltb a.0 b.0 then true else bytes_eq a.0 b.0 && bytes_ltb a.1 b.1

abbrev pub key_of : StreamedRecord → Key
key_of h = (h.found.key_hash, h.found.version)

abbrev pub least : Option StreamedRecord → Option Key → Option Key
least none rest = rest
least (some h) none = some (key_of h)
least (some h) (some k) = some (if key_ltb k (key_of h) then k else key_of h)

unfoldable pub smallest : List Lane → Option Key
smallest [] = none
smallest (lane ∷ lanes) = least lane.head (smallest lanes)

abbrev pub matches_key : Key → Option StreamedRecord → Bool
matches_key key none = false
matches_key key (some h) = bytes_eq h.found.key_hash key.0 && bytes_eq h.found.version key.1

-- The records at the heads that have the key, in the order of the sources.
abbrev pub taken_head : Key → Option StreamedRecord → List StreamedRecord
taken_head key none = []
taken_head key (some h) = if matches_key key (some h) then h ∷ [] else []

unfoldable pub taken : Key → List Lane → List StreamedRecord
taken key [] = []
taken key (lane ∷ lanes) = taken_head key lane.head ++ taken key lanes

abbrev pub group_of : List StreamedRecord → List LocatedRecord
group_of items = map (λ (i : StreamedRecord). record { device = i.device; found = i.found }) items

-- `present.insert` for each: the last one stands in front.
unfoldable pub presence_of : Presence → List StreamedRecord → Presence
presence_of present [] = present
presence_of present (i ∷ items) = presence_of ((i.device, i.shard_present) ∷ present) items
