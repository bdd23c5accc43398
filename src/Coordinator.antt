-- ===== src/Coordinator.antt =====
-- crates/djbod-node/src/coordinator.rs: what a coordinator concludes from the record copies that the
-- nodes send it. Sets and maps are lists of their entries, and a message that is composed for people is
-- a constructor with the values it names.
pub mod Copies
pub mod Groups
pub mod Streams
pub mod Inventory
pub mod Scrub
mod Samples
mod Runs
use distributed_jbod.Common.{
  ℕ, Bool, true, false, Option, none, some, List, [], ◌∷◌, Outcome, err, ltb, ◌==◌, if◌then◌else◌,
}
use distributed_jbod.ShardFile.{VersionId}
use distributed_jbod.Cluster.{DeviceId, NodeId}
use distributed_jbod.Record.{Bytes, MetadataRecord}

-- A record copy and the device it comes from.
pub record LocatedRecord : Type 0 where
  pub device : DeviceId
  pub found : MetadataRecord

-- The codes that the modelled functions answer with.
pub data ErrorCode : Type 0 where
  protocol_violation : ErrorCode
  key_too_long : ErrorCode
  key_mismatch : ErrorCode
  records_inconsistent : ErrorCode
  device_unavailable : ErrorCode
  node_unreachable : ErrorCode

pub data Message : Type 0 where
  key_is_empty : Message
  key_bytes : (length limit : ℕ) → Message
  names_other_key : Bytes → Message
  copies_disagree : (revision : ℕ) → Message
  device_not_listed : Message
  copies_found : (found expected revision : ℕ) → Message
  stale_copy : Message
  connection_ended : Message

pub record ErrorDetail : Type 0 where
  pub code : ErrorCode
  pub message : Message
  pub node : Option NodeId
  pub device : Option DeviceId
  pub key : Option Bytes
  pub version : Option VersionId

-- `Failure`: an error for the peer, or a reason to close the connection.
pub data Failure : Type 0 where
  error : ErrorDetail → Failure
  close : Failure

abbrev pub Answer : Type 0 → Type 0
Answer A = Outcome Failure A

-- `iter().any(test)`, `iter().max()` and `is_none()`.
abbrev pub any {ℓ} : {X : Type ℓ} → (X → Bool) → List X → Bool
any test [] = false
any test (x ∷ xs) = if test x then true else any test xs

unfoldable pub max_of : List ℕ → Option ℕ
max_of [] = none
max_of (x ∷ xs) = elim (max_of xs) [ none ↦ some x | some y ↦ some (if ltb x y then y else x) ]

abbrev pub is_none {ℓ} : {X : Type ℓ} → Option X → Bool
is_none none = true
is_none (some x) = false

-- The largest key, and the last of those that have it: `max_by_key`.
unfoldable pub latest_of : LocatedRecord → List LocatedRecord → LocatedRecord
latest_of best [] = best
latest_of best (c ∷ copies) =
    latest_of (if ltb c.found.revision best.found.revision then best else c) copies
