-- ===== src/Node/Membership/Runs.antt =====
-- Devices that are opened, initialised and wiped by a node that joins.
use distributed_jbod.Common.{ℕ, ◌≡◌, refl, false, none, List, [], ok, err, if◌then◌else◌}
use distributed_jbod.Cluster.{
  DeviceState, DeviceEntry, Transport, ClusterDocument, IndependenceLevel, F64,
}
use distributed_jbod.Cluster.Lookup.{device}
use distributed_jbod.Device.{Disk}
use distributed_jbod.Device.Identity.Samples.{
  new_root, new_root-IsBlank, newer_identity, parse_newer, accepted, to_json,
}
use distributed_jbod.Node.Membership.{removed_device, is_listed, open_or_initialise}
use distributed_jbod.Node.Membership.Retry.{open_or_initialise_again}

-- A cluster of a number, with these devices.
abbrev cluster_of : ℕ → List DeviceEntry → ClusterDocument
cluster_of id devices = record {
  version = 3;
  cluster_id = id;
  name = none;
  k = 1;
  m = 1;
  block_size = 65536;
  independence_level = IndependenceLevel.device;
  headroom = F64.finite false 0;
  max_key_bytes = 1024;
  max_object_bytes = 1024;
  max_user_metadata_bytes = 1024;
  transport = Transport.plain;
  nodes = [];
  devices = devices;
}

-- The device of the sample is listed as removed.
abbrev old_entry : DeviceEntry
old_entry = record { id = 5; node = 1; state = DeviceState.removed; label = none }

-- The proposal failed: the document is the one that it was.
open_or_initialise_again_example :
    (after : Disk) × (open_or_initialise accepted 7 to_json parse_newer 9 1
        (cluster_of 4 [])
        false
        new_root
      ≡ (ok newer_identity, after))
    × (open_or_initialise accepted 8 to_json parse_newer 10 2 (cluster_of 4 []) false after ≡ (
      if is_listed (cluster_of 4 []) 9 then ok newer_identity else err (removed_device 9),
      after,
    ))
open_or_initialise_again_example =
    open_or_initialise_again accepted to_json parse_newer 7 8 9 10 1 2 (cluster_of 4 [])
      (cluster_of 4 []) false new_root new_root-IsBlank refl refl refl

unlisted : is_listed (cluster_of 4 []) 9 ≡ false
unfolding is_listed device
unlisted = refl
