-- ===== src/Node/Membership/Spared.antt =====
-- Which devices `open_or_initialise` leaves alone.
use distributed_jbod.Common.{ℕ, ◌≡◌, ◌⊎◌, Bool, true, false, Option, some, List, Outcome, ok, err}
use distributed_jbod.Cluster.{DeviceId, ClusterDocument}
use distributed_jbod.Device.{IoKind, not_initialised, Disk, FilePath}
use distributed_jbod.Device.Checks.{DeviceIdentity}
use distributed_jbod.Device.Identity.{open_device}
use distributed_jbod.Node.Membership.{MembershipError, is_listed, open_or_initialise}

module _ (write_all : List ℕ → Option IoKind) (pid : ℕ) (to_json : DeviceIdentity → List ℕ)
    (from_json : List ℕ → Option DeviceIdentity) (id : DeviceId) (created_at : ℕ)
    (document : ClusterDocument) (wipe_removed : Bool) (disk : Disk) where
  abbrev pub result : Outcome MembershipError DeviceIdentity × Disk
  result =
      open_or_initialise write_all pid to_json from_json id created_at document wipe_removed disk

  -- What may have changed the disk.
  abbrev pub HasCause : Outcome MembershipError DeviceIdentity × Disk → Type 0
  HasCause r =
      (r.1 ≡ disk)
      ⊎ ((p : FilePath) × (open_device from_json (some document.cluster_id) disk
            ≡ (err (not_initialised p), disk)))
      ⊎ ((wipe_removed ≡ true)
          × (i : DeviceIdentity) × (open_device from_json (some document.cluster_id) disk
              ≡ (ok i, disk))
          × (is_listed document i.device_id ≡ false))
