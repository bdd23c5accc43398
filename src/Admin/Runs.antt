-- ===== src/Admin/Runs.antt =====
-- A concrete removal, and the theorem about it at a concrete input.
use distributed_jbod.Common.{
  ℕ, ◌*◌, ◌^◌, ◌≡◌, refl, false, Option, none, List, [], ◌∷◌, Outcome, ok, err, bytes_eq,
}
use distributed_jbod.Common.Seen.{for_each}
use distributed_jbod.Erasure.{new_scheme}
use distributed_jbod.Cluster.Names.{Text, Uuid}
use distributed_jbod.Cluster.{
  NodeEntry, NodeState, DeviceState, ClusterDocument, plain, device, finite, check_numbers,
  note_node, note_device, note_address, note_addresses, note_label, validate,
}
use distributed_jbod.Cluster.Valid.{IsValid, document-validate_lem}
use distributed_jbod.Cluster.Lookup.{node}
use distributed_jbod.Admin.{check_removable, last_node, document_with_node_removed}
use distributed_jbod.Admin.Removal.{document_with_node_removed-IsValid}

abbrev no_uuid : Text → Option Uuid
no_uuid text = none

abbrev any_address : Text → Outcome Text (Unit {0})
any_address address = ok tt

abbrev node_at : ℕ → ℕ → NodeEntry
node_at id place = record {
  id = id;
  addresses = (place ∷ []) ∷ [];
  label = none;
  state = NodeState.active;
}

abbrev with_nodes : List NodeEntry → ClusterDocument
with_nodes nodes = record {
  version = 3;
  cluster_id = 42;
  name = none;
  k = 2;
  m = 1;
  block_size = 1024 * 1024;
  independence_level = device;
  headroom = finite false (2 ^ 1070);
  max_key_bytes = 16384;
  max_object_bytes = 2 ^ 40;
  max_user_metadata_bytes = 10485760;
  transport = plain;
  nodes = nodes;
  devices = record { id = 100; node = 8; state = DeviceState.active; label = none } ∷ [];
}

abbrev pair : ClusterDocument
pair = with_nodes (node_at 7 b'a' ∷ node_at 8 b'b' ∷ [])

validates : validate no_uuid any_address pair ≡ ok tt
unfolding validate check_numbers new_scheme for_each note_node note_device note_address
    note_addresses note_label bytes_eq
validates = refl

document_with_node_removed-IsValid_example :
    IsValid no_uuid any_address (document_with_node_removed pair 8)
document_with_node_removed-IsValid_example =
    document_with_node_removed-IsValid no_uuid any_address pair 8
      ((document-validate_lem no_uuid any_address pair).0 validates)

removable : check_removable pair 8 ≡ ok tt
unfolding check_removable node
removable = refl

-- The other node is then the last one.
last : check_removable (document_with_node_removed pair 8) 7 ≡ err last_node
unfolding check_removable node
last = refl
