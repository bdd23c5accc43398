-- ===== src/Cluster/Runs.antt =====
-- Concrete runs of the cluster document's checks, and its theorems at concrete inputs.
use distributed_jbod.Common.{
  ◌^◌, ◌*◌, ◌≡◌, refl, false, Option, none, some, List, [], ◌∷◌, Outcome, ok, ◌↔◌, inr, ◌==◌,
  if◌then◌else◌, bytes_eq,
}
use distributed_jbod.Common.Seen.{for_each}
use distributed_jbod.Erasure.{new_scheme}
use distributed_jbod.Cluster.Names.{
  Text, Uuid, is_whitespace, is_control, validate_label, validate_cluster_name,
}
use distributed_jbod.Cluster.{
  NodeEntry, NodeState, DeviceEntry, DeviceState, ClusterDocument, plain, device, finite,
  check_numbers, note_node, note_device, note_address, note_addresses, note_label, validate,
}
use distributed_jbod.Cluster.Valid.{IsValid, document-validate_lem}
use distributed_jbod.Cluster.Lookup.{node_by_name, node_by_name-listed}

-- Short forms for the runs: "u" and a character is a UUID, and any text is an address.
abbrev short_uuid : Text → Option Uuid
short_uuid [] = none
short_uuid (c ∷ []) = none
short_uuid (c ∷ d ∷ s) = if c == b'u' then some d else none

abbrev any_address : Text → Outcome Text (Unit {0})
any_address address = ok tt

abbrev shelf : Text
shelf = b's' ∷ b'h' ∷ []

abbrev old_node : NodeEntry
old_node = record {
  id = 7;
  addresses = (b'a' ∷ []) ∷ [];
  label = some shelf;
  state = NodeState.removed;
}

-- A new machine with the address and the label of the removed one.
abbrev new_node : NodeEntry
new_node = record {
  id = 8;
  addresses = (b'a' ∷ []) ∷ [];
  label = some shelf;
  state = NodeState.active;
}

abbrev disk : DeviceEntry
disk = record { id = 100; node = 8; state = DeviceState.active; label = some shelf }

abbrev document_of : List NodeEntry → ClusterDocument
document_of nodes = record {
  version = 3;
  cluster_id = 42;
  name = some (b'm' ∷ b'y' ∷ 32 ∷ b'c' ∷ []);
  k = 2;
  m = 1;
  block_size = 1024 * 1024;
  independence_level = device;
  headroom = finite false (2 ^ 1070);
  max_key_bytes = 16384;
  max_object_bytes = 2 ^ 40;
  max_user_metadata_bytes = 10485760;
  transport = plain;
  nodes = nodes;
  devices = disk ∷ [];
}

abbrev document : ClusterDocument
document = document_of (old_node ∷ new_node ∷ [])

validates : validate short_uuid any_address document ≡ ok tt
unfolding validate check_numbers new_scheme for_each note_node note_device note_address
    note_addresses note_label validate_label validate_cluster_name is_whitespace is_control bytes_eq
validates = refl

document-IsValid : IsValid short_uuid any_address document
document-IsValid = (document-validate_lem short_uuid any_address document).0 validates

document-validate_lem_example :
    (validate short_uuid any_address document ≡ ok tt) ↔ IsValid short_uuid any_address document
document-validate_lem_example = document-validate_lem short_uuid any_address document

node_by_name-listed_example : node_by_name short_uuid document shelf ≡ some new_node
node_by_name-listed_example =
    node_by_name-listed short_uuid any_address document document-IsValid 1 new_node shelf refl
      (inr (refl, refl))
