-- ===== src/Admin.antt =====
-- crates/djbod-client/src/admin.rs: the successor of a cluster document that the administration proposes
-- when a node is removed.
pub mod Removal
mod Runs
use distributed_jbod.Common.{
  ℕ, ◌+◌, Bool, true, false, Option, none, some, List, [], ◌∷◌, map, Outcome, ok, err, panic, ◌>>=◌,
  ◌>>◌, fail_if, length, ◌==◌, if◌then◌else◌,
}
use distributed_jbod.Cluster.Names.{Text}
use distributed_jbod.Cluster.{
  NodeId, NodeEntry, NodeState, DeviceEntry, DeviceState, ClusterDocument, is_removed,
}
use distributed_jbod.Cluster.Lookup.{node, active_nodes}

pub data AdminError : Type 0 where
  unknown_node : NodeId → AdminError
  node_removed : NodeId → AdminError
  last_node : AdminError

abbrev pub check_listed : NodeId → Option NodeEntry → Outcome AdminError (Unit {0})
check_listed id none = err (unknown_node id)
check_listed id (some entry) = if is_removed entry.state then err (node_removed id) else ok tt

-- Whether a node may be removed.
unfoldable pub check_removable : ClusterDocument → NodeId → Outcome AdminError (Unit {0})
check_removable d id = do
  check_listed id (node d id)
  fail_if (length (active_nodes d) == 1) last_node
  ok tt

abbrev pub bury_node : NodeId → NodeEntry → NodeEntry
bury_node id n =
    if n.id == id
    then record { id = n.id; addresses = n.addresses; label = n.label; state = NodeState.removed }
    else n

abbrev pub bury_device : NodeId → DeviceEntry → DeviceEntry
bury_device id e =
    if e.node == id
    then record { id = e.id; node = e.node; state = DeviceState.removed; label = e.label }
    else e

-- The document with a node and its devices marked removed.
abbrev pub document_with_node_removed : ClusterDocument → NodeId → ClusterDocument
document_with_node_removed d id = record {
  version = d.version + 1;
  cluster_id = d.cluster_id;
  name = d.name;
  k = d.k;
  m = d.m;
  block_size = d.block_size;
  independence_level = d.independence_level;
  headroom = d.headroom;
  max_key_bytes = d.max_key_bytes;
  max_object_bytes = d.max_object_bytes;
  max_user_metadata_bytes = d.max_user_metadata_bytes;
  transport = d.transport;
  nodes = map (bury_node id) d.nodes;
  devices = map (bury_device id) d.devices;
}
