-- ===== src/Node/Membership.antt =====
-- crates/djbod-node/src/membership.rs, `open_or_initialise`: what `join` and `add-device` do with the
-- directory of a device, by the cluster document that the node fetched. The errors of operations that are
-- not modelled are left out.
pub mod Spared
pub mod Retry
mod Runs
use distributed_jbod.Common.{
  ℕ, Bool, true, false, not, Option, none, some, List, Outcome, ok, err, panic, if◌then◌else◌,
}
use distributed_jbod.Cluster.{DeviceId, DeviceState, DeviceEntry, ClusterDocument}
use distributed_jbod.Cluster.Lookup.{device}
use distributed_jbod.Device.{IoKind, DeviceError, not_initialised, Disk}
use distributed_jbod.Device.Checks.{DeviceIdentity}
use distributed_jbod.Device.Identity.{open_device}
use distributed_jbod.Device.Identity.Initialise.{initialise, wipe_and_initialise}

pub data MembershipError : Type 0 where
  device_error : DeviceError → MembershipError
  removed_device : DeviceId → MembershipError

-- `#[from] DeviceError`.
abbrev pub as_membership :
    Outcome DeviceError DeviceIdentity × Disk → Outcome MembershipError DeviceIdentity × Disk
as_membership (ok i, disk) = (ok i, disk)
as_membership (err e, disk) = (err (device_error e), disk)
as_membership (panic, disk) = (panic, disk)

abbrev pub stays : DeviceState → Bool
stays DeviceState.active = true
stays DeviceState.draining = true
stays DeviceState.removed = false

-- In the document, and not as a removed device.
unfoldable pub is_listed : ClusterDocument → DeviceId → Bool
is_listed document id = elim (device document id) [ none ↦ false | some entry ↦ stays entry.state ]

module _ (write_all : List ℕ → Option IoKind) (pid : ℕ) (to_json : DeviceIdentity → List ℕ)
    (from_json : List ℕ → Option DeviceIdentity) (id : DeviceId) (created_at : ℕ)
    (document : ClusterDocument) (wipe_removed : Bool) where
  -- The arms of the match.
  unfoldable pub judge_opened :
      Outcome DeviceError DeviceIdentity × Disk → Outcome MembershipError DeviceIdentity × Disk
  judge_opened (ok existing, disk) =
      if is_listed document existing.device_id
      then (ok existing, disk)
      else if wipe_removed
      then as_membership (
          wipe_and_initialise write_all pid to_json from_json id created_at document.cluster_id
            disk)
      else (err (removed_device existing.device_id), disk)
  judge_opened (err (not_initialised p), disk) =
      as_membership (initialise write_all pid to_json id created_at document.cluster_id disk)
  judge_opened (err e, disk) = (err (device_error e), disk)
  judge_opened (panic, disk) = (panic, disk)

  unfoldable pub open_or_initialise : Disk → Outcome MembershipError DeviceIdentity × Disk
  open_or_initialise disk = judge_opened (open_device from_json (some document.cluster_id) disk)
